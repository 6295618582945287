-- ===== src/Raft/Commit.antt =====
-- src/raft/core.rs: the commit index and the applied index.
use raft_distributed_log_rs.Prelude.{
  List, [], arith, inl, inr, length, refl, true, ℕ, ◌*◌, ◌++◌, ◌<◌, ◌∷◌, ◌≡◌, ◌≢◌, ◌≤◌, ◌⊎◌,
}
use raft_distributed_log_rs.Raft.Core.{handle}
use raft_distributed_log_rs.Raft.Core.Replication.{is_empty, targets}
use raft_distributed_log_rs.Raft.Peers.{Peers, caught_up, others}
use raft_distributed_log_rs.Raft.Types.{
  Event, PersistedEntries, Raft, append_entries_response, election_timeout, entries_applied,
  entries_persisted, leader, local_entries_appended,
}

-- What the runtime keeps to when it reports: it never truncates a committed entry, never appends
-- below the end of the log, and applies in order up to the commit index.
abbrev pub ReportIsSound : Raft → Event → Type 0
ReportIsSound r (entries_persisted e) = r.commit_index ≤ e.last_log_index
ReportIsSound r (entries_applied e) = (r.last_applied ≤ e.through) × (e.through ≤ r.commit_index)
ReportIsSound r (local_entries_appended e) = r.last_log_index ≤ e.index
ReportIsSound _ _ = Unit {0}

pub record CommitInv (r : Raft) : Type 0 where
  pub applied_is_committed : r.last_applied ≤ r.commit_index
  pub committed_is_logged : r.commit_index ≤ r.last_log_index

-- After every event, and after sound reports, what is applied is committed and what is committed
-- is in the log.
pub handle-CommitInv :
    (r : Raft) (e : Event) → ReportIsSound r e → CommitInv r → CommitInv (handle r e).0
unfolding handle
handle-CommitInv r election_timeout s h = ground arith
handle-CommitInv r _ s h = ground arith

-- Under the same conditions neither the commit index nor the applied index ever moves back.
pub handle-indexes_le :
    (r : Raft) (e : Event)
    → ReportIsSound r e
    → CommitInv r
    → (r.commit_index ≤ (handle r e).0.commit_index)
      × (r.last_applied ≤ (handle r e).0.last_applied)
unfolding handle
handle-indexes_le r election_timeout s h = ground arith
handle-indexes_le r _ s h = ground arith

-- The runtime's reports are sound all along.
abbrev pub ReportsAreSound : Raft → List Event → Type 0
ReportsAreSound r [] = Unit {0}
ReportsAreSound r (e ∷ es) = ReportIsSound r e × ReportsAreSound (handle r e).0 es

-- The state after the events are handled in turn.
unfoldable pub handle_all : Raft → List Event → Raft
handle_all r [] = r
handle_all r (e ∷ es) = handle_all (handle r e).0 es

-- Over any list of events with sound reports, what is applied stays committed, what is committed
-- stays in the log, and the commit index never moves back.
pub handle_all-CommitInv :
    (r : Raft) (es : List Event)
    → ReportsAreSound r es
    → CommitInv r
    → CommitInv (handle_all r es) × (r.commit_index ≤ (handle_all r es).commit_index)
unfolding handle_all
handle_all-CommitInv r [] s h = (h, omega arith)
handle_all-CommitInv r (e ∷ es) s h =
    let (last, grows) = handle_all-CommitInv (handle r e).0 es s.1 (handle-CommitInv r e s.0 h) in
    (last, omega (arith, grows, (handle-indexes_le r e s.0 h).0))

abbrev pub HasMajorityAt : ℕ → Raft → Type 0
HasMajorityAt index r = length r.voters < 2 * caught_up index r.voters

-- No other node is a voter or a learner.
abbrev pub IsAlone : Raft → Type 0
IsAlone r = others r.id (r.voters ++ r.learners) ≡ []

targets-others : (r : Raft) (m : Peers) → is_empty (targets r m) ≡ true → others r.id m ≡ []
unfolding targets others
targets-others r [] h = refl
targets-others r ((j, p) ∷ m) h = ground (arith, targets-others r m)

-- A leader that stays leader and moves its commit index, other than by a report of persisted
-- entries, moves it to the end of its log, and does so because more than half of the voters have
-- a match index there, or because there is no other node.
pub leader_commits_by_majority :
    (r : Raft) (e : Event)
    → ((p : PersistedEntries) → e ≢ entries_persisted p)
    → (handle r e).0.role ≡ leader
    → r.commit_index < (handle r e).0.commit_index
    → ((handle r e).0.commit_index ≡ (handle r e).0.last_log_index)
      × (HasMajorityAt (handle r e).0.commit_index (handle r e).0 ⊎ IsAlone r)
leader_commits_by_majority r (append_entries_response v) ne l m =
    (unfold handle in ground arith, inl (unfold handle in ground arith))
leader_commits_by_majority r (local_entries_appended e) ne l m = (
  unfold handle in ground arith,
  inr (targets-others r (r.voters ++ r.learners) (unfold handle in ground arith)),
)
leader_commits_by_majority r (entries_persisted e) ne l m = absurd (ne e refl)
leader_commits_by_majority r election_timeout ne l m = unfold handle in absurd (ground arith)
leader_commits_by_majority r _ ne l m = unfold handle in absurd (ground arith)
