-- ===== src/Raft/Appends.antt =====
-- src/raft/core.rs: what a follower does with an AppendEntries request.
use raft_distributed_log_rs.Prelude.{
  Bool, Bool-cases, Option, arith, false, if◌then◌else◌, inl, inr, ltb, none, some, true, ℕ, ◌↔◌,
  ◌≡◌, ◌≤◌, ◌⊎◌,
}
use raft_distributed_log_rs.Raft.Core.{handle}
use raft_distributed_log_rs.Raft.Types.{
  Effect, NodeId, OperationId, Raft, ReceivedAppendEntries, Result, append_entries, follower, ok,
  persist_entries, reject_append_entries,
}

-- The rule for accepting: the request is not of an earlier term, and the log holds the entry
-- before the new ones.
pub record Accepts (r : Raft) (a : ReceivedAppendEntries) : Type 0 where
  pub not_stale : r.current_term ≤ a.request.term
  pub not_beyond : a.request.prev_log_index ≤ r.last_log_index
  pub prev_matches :
      (a.request.prev_log_index ≡ 0) ⊎ (a.local_prev_log_term ≡ some a.request.prev_log_term)

-- The effect asks for the entries to be persisted.
abbrev pub persists_entries : Result (Option Effect) → Bool
persists_entries (ok (some (persist_entries i p a t c))) = true
persists_entries _ = false

-- The effect rejects the request of this operation, in a response of this term.
abbrev pub RejectsIn : ℕ → OperationId → NodeId → Result (Option Effect) → Type 0
RejectsIn term i p (ok (some (reject_append_entries j q a))) =
    (j ≡ i) × (q ≡ p) × (a.success ≡ false) × (a.term ≡ term)
RejectsIn _ _ _ _ = ⊥

-- Entries are persisted exactly if the request is not of an earlier term and the log holds the
-- previous entry.
pub persists_entries_iff :
    (r : Raft) (a : ReceivedAppendEntries)
    → (persists_entries (handle r (append_entries a)).1 ≡ true) ↔ Accepts r a
unfolding handle
persists_entries_iff r a = (accepts, λ h. ground arith)
  where
    accepts : persists_entries (handle r (append_entries a)).1 ≡ true → Accepts r a
    accepts h = record {
      not_stale = ground arith;
      not_beyond = ground arith;
      prev_matches = ground arith;
    }

-- A node that accepts becomes a follower of the sender in the sender's term, and gives up its vote
-- if the term is a new one.
pub accepting_follows :
    (r : Raft) (a : ReceivedAppendEntries)
    → Accepts r a
    → ((handle r (append_entries a)).0.role ≡ follower)
      × ((handle r (append_entries a)).0.current_term ≡ a.request.term)
      × ((handle r (append_entries a)).0.leader_id ≡ some a.request.leader_id)
      × ((handle r (append_entries a)).0.voted_for
          ≡ (if ltb r.current_term a.request.term then none else r.voted_for))
unfolding handle
accepting_follows r a h = ground arith

rejects_in :
    (r : Raft) (a : ReceivedAppendEntries)
    → persists_entries (handle r (append_entries a)).1 ≡ false
    → RejectsIn
        (handle r (append_entries a)).0.current_term
        a.operation_id
        a.request.leader_id
        (handle r (append_entries a)).1
unfolding handle
rejects_in r a h = ground arith

-- A request that is not accepted is rejected, in a response of the node's term after it, and
-- changes neither the log's end nor the commit and applied indexes nor the progress of peers.
pub refusing_keeps_log :
    (r : Raft) (a : ReceivedAppendEntries)
    → ¬ Accepts r a
    → RejectsIn
        (handle r (append_entries a)).0.current_term
        a.operation_id
        a.request.leader_id
        (handle r (append_entries a)).1
      × ((handle r (append_entries a)).0.last_log_index ≡ r.last_log_index)
      × ((handle r (append_entries a)).0.last_log_term ≡ r.last_log_term)
      × ((handle r (append_entries a)).0.commit_index ≡ r.commit_index)
      × ((handle r (append_entries a)).0.last_applied ≡ r.last_applied)
      × ((handle r (append_entries a)).0.voters ≡ r.voters)
refusing_keeps_log r a h = elim (Bool-cases (persists_entries (handle r (append_entries a)).1)) [
  | inl accepted ↦ absurd (h ((persists_entries_iff r a).0 accepted))
  | inr refused ↦ (
    rejects_in r a refused,
    unfold handle in ground arith,
    unfold handle in ground arith,
    unfold handle in ground arith,
    unfold handle in ground arith,
    unfold handle in ground arith,
  )
]
