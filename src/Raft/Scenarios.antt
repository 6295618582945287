-- ===== src/Raft/Scenarios.antt =====
-- src/raft/core.rs, src/raft/storage.rs: what the leader and its followers do, run in the cluster.
use raft_distributed_log_rs.Prelude.{
  Bool, List, [], arith, false, none, refl, some, true, u64_mod, ℕ, ◌-◌, ◌↔◌, ◌∷◌, ◌≡◌, ◌≤◌, ◌⊎◌,
}
use raft_distributed_log_rs.Raft.Bounds.{Fits, ResultFits, handle-Fits}
use raft_distributed_log_rs.Raft.Commit.{
  CommitInv, HasMajorityAt, IsAlone, handle_all, handle_all-CommitInv, leader_commits_by_majority,
}
use raft_distributed_log_rs.Raft.Conflicts.{
  heartbeat_prevents_truncation, leads_in, longer_follower_panics_leader, rejection_commits,
  rejection_keeps_votes, truncates,
}
use raft_distributed_log_rs.Raft.Core.{handle}
use raft_distributed_log_rs.Raft.Core.Replication.{targets}
use raft_distributed_log_rs.Raft.Examples.{
  candidate_in, entries_of, follower_1, leader_1, node_1, node_2, node_3, node_in, operation_1,
  progress_at,
}
use raft_distributed_log_rs.Raft.Failures.{PanicsBy, handle_panics_iff}
use raft_distributed_log_rs.Raft.Peers.{caught_up, contains_key, get, member, modify}
use raft_distributed_log_rs.Raft.Replicated.{Tracks, handle-Tracks}
use raft_distributed_log_rs.Raft.Storage.{is_utf8, load_state, save_header, save_state}
use raft_distributed_log_rs.Raft.Storage.Interrupted.{interrupted_save_panics}
use raft_distributed_log_rs.Raft.Storage.RoundTrip.{layout, load_state-save_state}
use raft_distributed_log_rs.Raft.Types.{
  AppendEntriesResponse, Event, HeartbeatRequest, NodeId, NodeId-discrete, Raft,
  ReceivedAppendEntries, ReceivedAppendEntriesResponse, Role, State, append_entries,
  append_entries_response, apply_committed, candidate, election_timeout, entries_applied, follower,
  heartbeat, leader, local_entries_appended, ok, panic, vote_response, write,
}

node_in-CommitInv : (id : NodeId) (role : Role) → CommitInv (node_in id role)
node_in-CommitInv id role = record {
  applied_is_committed = omega arith;
  committed_is_logged = omega arith;
}

-- The response of a follower, from a log up to this index.
abbrev answer_in : ℕ → Bool → ℕ → AppendEntriesResponse
answer_in term success index = record {
  term = term;
  success = success;
  last_log_index = index;
  last_log_term = 1;
  leader_id = some node_1;
}

abbrev answer_from : NodeId → ℕ → Bool → ℕ → ReceivedAppendEntriesResponse
answer_from from term success index = record {
  operation_id = operation_1;
  from = from;
  response = answer_in term success index;
}

abbrev a_write : List Event
a_write =
    write operation_1
    ∷ local_entries_appended (record { operation_id = operation_1; index = 3; term = 1 })
    ∷ append_entries_response (answer_from node_2 1 true 3)
    ∷ entries_applied (record { operation_id = operation_1; through = 3 })
    ∷ []

handle_all-CommitInv_example :
    CommitInv (handle_all leader_1 a_write) × (1 ≤ (handle_all leader_1 a_write).commit_index)
handle_all-CommitInv_example =
    handle_all-CommitInv leader_1 a_write
      (unfold handle modify contains_key caught_up targets NodeId-discrete in
        (tt, (omega arith, (tt, ((omega arith, omega arith), tt)))))
      (node_in-CommitInv node_1 leader)

leader_commits_by_majority_example :
    ((handle leader_1 (append_entries_response (answer_from node_2 1 true 2))).0.commit_index
      ≡ (handle leader_1 (append_entries_response (answer_from node_2 1 true 2))).0.last_log_index)
    × (HasMajorityAt
          (handle leader_1 (append_entries_response (answer_from node_2 1 true 2))).0.commit_index
          (handle leader_1 (append_entries_response (answer_from node_2 1 true 2))).0
        ⊎ IsAlone leader_1)
leader_commits_by_majority_example =
    leader_commits_by_majority leader_1 (append_entries_response (answer_from node_2 1 true 2))
      (λ p h. cc) (unfold handle modify contains_key caught_up NodeId-discrete in refl)
      (unfold handle modify contains_key caught_up NodeId-discrete in omega arith)

handle_panics_iff_example :
    ((handle leader_1 (append_entries_response (answer_from node_2 1 false 3))).1 ≡ panic)
    ↔ PanicsBy leader_1 (append_entries_response (answer_from node_2 1 false 3))
handle_panics_iff_example =
    handle_panics_iff leader_1 (append_entries_response (answer_from node_2 1 false 3))

leader_1-Tracks : Tracks leader_1
leader_1-Tracks = record {
  voters_in_log = (omega arith, (omega arith, (omega arith, tt)));
  learners_in_log = tt;
}

handle-Tracks_example :
    Tracks (handle leader_1 (append_entries_response (answer_from node_2 1 true 2))).0
handle-Tracks_example =
    handle-Tracks leader_1 (append_entries_response (answer_from node_2 1 true 2)) tt
      leader_1-Tracks

rejection_keeps_votes_example :
    ((handle (candidate_in node_1) (append_entries (entries_of 2 3))).0.role ≡ candidate)
    × ((handle (candidate_in node_1) (append_entries (entries_of 2 3))).0.current_term ≡ 2)
    × ((handle (candidate_in node_1) (append_entries (entries_of 2 3))).0.voted_for ≡ some node_1)
    × ((handle (candidate_in node_1) (append_entries (entries_of 2 3))).0.granted_votes
        ≡ node_1 ∷ [])
    × (leads_in
          (handle (handle (candidate_in node_1) (append_entries (entries_of 2 3))).0 (
            vote_response
              (record { from = node_3; response = record { term = 2; vote_granted = true } }))).1
        ≡ some 2)
rejection_keeps_votes_example =
    rejection_keeps_votes (candidate_in node_1) (entries_of 2 3) node_3 refl (omega arith) refl
      (unfold contains_key NodeId-discrete in refl) (unfold member NodeId-discrete in refl) refl

-- A heartbeat of term 2 for a log of one entry.
abbrev beat_of : HeartbeatRequest
beat_of = record {
  term = 2;
  leader_id = node_2;
  log_index = 1;
  log_term = 1;
  leader_commit_index = 1;
}

heartbeat_prevents_truncation_example :
    truncates (handle (handle follower_1 (heartbeat beat_of)).0 (append_entries (entries_of 2 1))).1
    ≡ some none
heartbeat_prevents_truncation_example =
    heartbeat_prevents_truncation follower_1 beat_of (entries_of 2 1) (omega arith) refl
      (unfold handle in refl)

-- A follower whose log has one entry more.
abbrev longer_2 : Raft
longer_2 = record (node_in node_2 follower) { last_log_index = 3 }

-- A request of term 1 whose previous entry the follower holds in another term.
abbrev unmatched : ReceivedAppendEntries
unmatched = record (entries_of 1 2) { local_prev_log_term = none }

longer_follower_panics_leader_example :
    (handle leader_1 (
      append_entries_response (record {
        operation_id = operation_1;
        from = node_2;
        response = record (answer_in 1 false 3) { leader_id = some node_2 };
      }))).1
    ≡ panic
longer_follower_panics_leader_example =
    longer_follower_panics_leader leader_1 longer_2 unmatched operation_1
      (record (answer_in 1 false 3) { leader_id = some node_2 }) refl refl (omega arith) refl
      (omega arith) (unfold handle in refl)

-- A refusal of a follower whose log ends where the leader's ends.
abbrev refused : AppendEntriesResponse
refused = record (answer_in 1 false 2) { leader_id = some node_2 }

rejection_commits_example :
    (refused.success ≡ false)
    × (truncates (handle (node_in node_2 follower) (append_entries unmatched)).1 ≡ none)
    × ((handle (node_in node_2 follower) (append_entries unmatched)).0.last_log_index ≡ 2)
    × ((handle (node_in node_2 follower) (append_entries unmatched)).0.last_log_term ≡ 1)
    × ((handle leader_1 (
          append_entries_response (record {
            operation_id = operation_1;
            from = node_2;
            response = refused;
          }))).0.commit_index
        ≡ 2)
    × ((handle leader_1 (
          append_entries_response
            (record { operation_id = operation_1; from = node_2; response = refused }))).1
        ≡ ok (some (apply_committed operation_1 2)))
rejection_commits_example =
    rejection_commits leader_1 (node_in node_2 follower) unmatched operation_1 refused refl refl
      (omega arith) refl refl (unfold handle in refl)
      (unfold get NodeId-discrete in (progress_at 0, refl, omega arith))
      (unfold contains_key in refl) (omega arith) (unfold caught_up in omega arith)

-- A saved vote.
abbrev voted_state : State
voted_state = record { current_term = 7; voted_for = some node_2 }

load_state-save_state_example :
    load_state (save_state (layout (record { current_term = 9; voted_for = none })) voted_state)
    ≡ ok voted_state
load_state-save_state_example =
    load_state-save_state (layout (record { current_term = 9; voted_for = none })) voted_state
      (omega arith) (omega arith, omega arith, unfold is_utf8 in refl)

interrupted_save_panics_example :
    load_state (save_header (layout (record { current_term = 9; voted_for = none })) 7 1) ≡ panic
interrupted_save_panics_example =
    interrupted_save_panics (record { current_term = 9; voted_for = none }) 7 1 (omega arith)
      (omega arith) (omega arith)

-- A node in the last term of the type.
abbrev late : Raft
late = record follower_1 { current_term = u64_mod - 1 }

handle-Fits_example :
    Fits (handle late election_timeout).0 × ResultFits (handle late election_timeout).1
handle-Fits_example =
    handle-Fits late election_timeout
      (record {
        term_fits = omega arith;
        applied_fits = omega arith;
        commit_fits = omega arith;
        index_fits = omega arith;
        log_term_fits = omega arith;
        voters_fit = ground arith;
        learners_fit = ground arith;
      })
      tt

-- The next term is 0 again.
late_wraps : (handle late election_timeout).0.current_term ≡ 0
unfolding handle
late_wraps = refl
