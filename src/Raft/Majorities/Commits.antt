-- ===== src/Raft/Majorities/Commits.antt =====
-- src/raft/core.rs: the followers report an entry, and the leader commits it.
use raft_distributed_log_rs.Prelude.{
  List, [], arith, false, length, map, subst, suc, sym, true, ℕ, ◌*◌, ◌+◌, ◌<◌, ◌∷◌, ◌≡◌, ◌≤◌,
}
use raft_distributed_log_rs.Raft.Commit.{handle_all}
use raft_distributed_log_rs.Raft.Core.{handle}
use raft_distributed_log_rs.Raft.Core.Replication.{progress_to}
use raft_distributed_log_rs.Raft.Majorities.Behind.{
  AllBehind, AllBehind-modify, IsBehind, NoKeys, caught_up-modify, caught_up-modify_pos,
}
use raft_distributed_log_rs.Raft.Peers.{Peers, caught_up, contains_key, modify}
use raft_distributed_log_rs.Raft.Peers.Laws.{Distinct, contains_key_of_get, length-modify}
use raft_distributed_log_rs.Raft.Types.{
  AppendEntriesResponse, Event, NodeId, OperationId, Raft, append_entries_response, leader,
  local_entries_appended,
}

-- The response of a follower to the entries of an operation.
abbrev pub reported_by : OperationId → AppendEntriesResponse → NodeId → Event
reported_by o a from =
    append_entries_response (record { operation_id = o; from = from; response = a })

-- A leader, whose log ends at the index, which is committed no further, and a response that is not
-- of a later term and names the same end.
record Awaits (index : ℕ) (a : AppendEntriesResponse) (r : Raft) : Type 0 where
  leads : r.role ≡ leader
  ends : r.last_log_index ≡ index
  not_later : a.term ≤ r.current_term
  not_beyond : r.commit_index ≤ index

-- What such a response of a voter does.
record Notes (index : ℕ) (a : AppendEntriesResponse) (f : NodeId) (r s : Raft) : Type 0 where
  noted : s.voters ≡ modify f (λ _. progress_to index) r.voters
  same_learners : s.learners ≡ r.learners
  awaits : Awaits index a s
  commits : length r.voters < 2 * caught_up index s.voters → s.commit_index ≡ index

reported_by-Notes :
    (index : ℕ) (o : OperationId) (a : AppendEntriesResponse) (f : NodeId) (r : Raft)
    → r.role ≡ leader
    → r.last_log_index ≡ index
    → a.term ≤ r.current_term
    → r.commit_index ≤ index
    → a.last_log_index ≡ index
    → contains_key f r.voters ≡ true
    → contains_key f r.learners ≡ false
    → Notes index a f r (handle r (reported_by o a f)).0
unfolding handle
reported_by-Notes index o a f r leads ends not_later not_beyond names voter learner = record {
  noted = ground arith;
  same_learners = ground arith;
  awaits = record {
    leads = ground arith;
    ends = ground arith;
    not_later = ground arith;
    not_beyond = ground arith;
  };
  commits = λ many. ground (arith, length-modify f (λ _. progress_to index) r.voters);
}

Awaits-Notes :
    (index : ℕ) (o : OperationId) (a : AppendEntriesResponse) (f : NodeId) (r : Raft)
    → Awaits index a r
    → a.last_log_index ≡ index
    → contains_key f r.learners ≡ false
    → IsBehind index r.voters f
    → Notes index a f r (handle r (reported_by o a f)).0
Awaits-Notes index o a f r h names learner low =
    reported_by-Notes index o a f r h.leads h.ends h.not_later h.not_beyond names
      (contains_key_of_get f r.voters low.0 low.1) learner

-- A follower that is behind adds one to the count of those that are not.
counts_up :
    (index : ℕ) (a : AppendEntriesResponse) (f : NodeId) (r s : Raft)
    → Notes index a f r s
    → IsBehind index r.voters f
    → (caught_up index s.voters ≡ suc (caught_up index r.voters))
      × (length s.voters ≡ length r.voters)
counts_up index a f r s n low =
    rw n.noted
      (caught_up-modify index f r.voters low, length-modify f (λ _. progress_to index) r.voters)

reports_commit :
    (index : ℕ) (o : OperationId) (a : AppendEntriesResponse) (f : NodeId) (fs : List NodeId)
    (r : Raft)
    → Awaits index a r
    → a.last_log_index ≡ index
    → NoKeys r.learners (f ∷ fs)
    → AllBehind index r.voters (f ∷ fs)
    → Distinct (f ∷ fs)
    → length r.voters < 2 * (caught_up index r.voters + length (f ∷ fs))
    → (handle_all r (map (reported_by o a) (f ∷ fs))).commit_index ≡ index
unfolding handle_all
reports_commit index o a f [] r h names learners behind distinct many =
    let n = Awaits-Notes index o a f r h names learners.0 behind.0 in
    n.commits (omega (arith, many, (counts_up index a f r _ n behind.0).0))
reports_commit index o a f (g ∷ fs) r h names learners behind distinct many =
    let n = Awaits-Notes index o a f r h names learners.0 behind.0 in
    let (up, same_size) = counts_up index a f r _ n behind.0 in
    reports_commit index o a g fs (handle r (reported_by o a f)).0 n.awaits names
      (subst (λ (m : Peers). NoKeys m (g ∷ fs)) (sym n.same_learners) learners.1)
      (subst (λ (m : Peers). AllBehind index m (g ∷ fs)) (sym n.noted)
        (AllBehind-modify index f (progress_to index) r.voters (g ∷ fs) distinct.0 behind.1))
      distinct.1 (omega (arith, many, up, same_size))

-- The leader has appended an entry.
abbrev pub appended_at : OperationId → ℕ → ℕ → Event
appended_at o index term =
    local_entries_appended (record { operation_id = o; index = index; term = term })

-- What it does then.
record Appended (index : ℕ) (a : AppendEntriesResponse) (r s : Raft) : Type 0 where
  own : s.voters ≡ modify r.id (λ _. progress_to index) r.voters
  same_learners : s.learners ≡ r.learners
  awaits : Awaits index a s

appended_at-Appended :
    (o : OperationId) (index term : ℕ) (a : AppendEntriesResponse) (r : Raft)
    → r.role ≡ leader
    → contains_key r.id r.voters ≡ true
    → r.commit_index ≤ index
    → a.term ≤ r.current_term
    → Appended index a r (handle r (appended_at o index term)).0
unfolding handle
appended_at-Appended o index term a r leads voter beyond not_later = record {
  own = ground arith;
  same_learners = ground arith;
  awaits = record {
    leads = ground arith;
    ends = ground arith;
    not_later = ground arith;
    not_beyond = ground arith;
  };
}

-- An entry is committed: a leader that is a voter appends an entry at an index beyond what is
-- committed, and distinct other voters, which are no learners and are recorded below that index, then
-- report that their logs end there, in a response that is not of a later term; with the leader they
-- are more than half of all voters.
pub majority_commits :
    (r : Raft) (o : OperationId) (index term : ℕ) (a : AppendEntriesResponse) (f : NodeId)
    (fs : List NodeId)
    → r.role ≡ leader
    → contains_key r.id r.voters ≡ true
    → r.commit_index ≤ index
    → a.last_log_index ≡ index
    → a.term ≤ r.current_term
    → NoKeys r.learners (f ∷ fs)
    → AllBehind index r.voters (f ∷ fs)
    → Distinct (r.id ∷ f ∷ fs)
    → length r.voters < 2 * length (r.id ∷ f ∷ fs)
    → (handle_all r (appended_at o index term ∷ map (reported_by o a) (f ∷ fs))).commit_index
      ≡ index
unfolding handle_all
majority_commits r o index term a f fs leads voter beyond names not_later learners behind distinct
      many =
    let s = (handle r (appended_at o index term)).0 in
    let n = appended_at-Appended o index term a r leads voter beyond not_later in
    reports_commit index o a f fs s n.awaits names
      (subst (λ (m : Peers). NoKeys m (f ∷ fs)) (sym n.same_learners) learners)
      (subst (λ (m : Peers). AllBehind index m (f ∷ fs)) (sym n.own)
        (AllBehind-modify index r.id (progress_to index) r.voters (f ∷ fs) distinct.0 behind))
      distinct.1
      (rw n.own (
        omega (
          arith,
          many,
          caught_up-modify_pos index r.id r.voters voter,
          length-modify r.id (λ _. progress_to index) r.voters,
        )))
