-- ===== src/Raft/Core/Replication.antt =====
-- src/raft/core.rs: writes, AppendEntries, and what the runtime reports back. `+` on u64 wraps.
use raft_distributed_log_rs.Prelude.{
  Bool, List, Option, [], false, if◌then◌else◌, leb, length, ltb, min, none, not, some, true,
  wrapping_add, ℕ, ◌&&◌, ◌++◌, ◌/◌, ◌==◌, ◌||◌, ◌∷◌,
}
use raft_distributed_log_rs.Raft.Core.Base.{Outcome, own_response}
use raft_distributed_log_rs.Raft.Peers.{Peers, caught_up, contains_key, modify}
use raft_distributed_log_rs.Raft.Types.{
  AppendEntriesRequest, AppliedEntries, Effect, LocalEntry, NodeId, OperationId, PersistedEntries,
  Progress, Raft, ReceivedAppendEntries, ReceivedAppendEntriesResponse, ReplicationTarget,
  append_local, apply_committed, complete_operation, err, follower, is_leader, node_eq, not_leader,
  ok, panic, persist_entries, reject_append_entries, send_append_entries,
}

abbrev pub some_eq : Option ℕ → ℕ → Bool
some_eq none n = false
some_eq (some m) n = m == n

-- The prefix test of `handle_append_entries`, which holds where the request is accepted.
abbrev pub prefix_matches : Raft → ReceivedAppendEntries → Bool
prefix_matches r a =
    leb a.request.prev_log_index r.last_log_index
    && (a.request.prev_log_index == 0 || some_eq a.local_prev_log_term a.request.prev_log_term)

-- The follower of the leader that sent the request, in the leader's term.
abbrev pub follow : Raft → AppendEntriesRequest → Raft
follow r q = record r { role = follower; current_term = q.term; leader_id = some q.leader_id }

unfoldable pub handle_append_entries : Raft → ReceivedAppendEntries → Outcome Effect
handle_append_entries r a =
    let q = a.request in
    if ltb q.term r.current_term
    then (r, ok (reject_append_entries a.operation_id q.leader_id (own_response r false)))
    else if not (prefix_matches r a)
    then (let r₁ = record r { current_term = q.term; leader_id = some q.leader_id } in
        (r₁, ok (reject_append_entries a.operation_id q.leader_id (own_response r₁ false))))
    else let r₁ = (if ltb r.current_term q.term then record r { voted_for = none } else r) in
      let r₂ = follow r₁ q in
      if ltb r.current_term q.term && ltb q.prev_log_index r.last_log_index
      then (
        r₂,
        ok (
            persist_entries a.operation_id q.leader_id
              (record (own_response r₂ true) {
                last_log_index = q.prev_log_index;
                last_log_term = q.prev_log_term;
              })
              (some q.prev_log_index) q.commit_index),
      )
      else (
        r₂,
        ok (persist_entries a.operation_id q.leader_id (own_response r₂ true) none q.commit_index),
      )

unfoldable pub handle_entries_persisted : Raft → PersistedEntries → Outcome (Option Effect)
handle_entries_persisted r e =
    let r₁ = record r { last_log_index = e.last_log_index; last_log_term = e.last_log_term } in
    let new_commit_index = min e.leader_commit_index r₁.last_log_index in
    if ltb r.commit_index new_commit_index
    then (
      record r₁ { commit_index = new_commit_index },
      ok (some (apply_committed e.operation_id new_commit_index)),
    )
    else (r₁, ok none)

unfoldable pub handle_entries_applied : Raft → AppliedEntries → Outcome (Option Effect)
handle_entries_applied r e =
    let r₁ = record r { last_applied = e.through } in
    if is_leader r.role then (r₁, ok (some (complete_operation e.operation_id))) else (r₁, ok none)

-- The target for one peer, before the new entry is counted.
abbrev pub target : Raft → NodeId × Progress → ReplicationTarget
target r (peer, progress) = record {
  peer = peer;
  last_log_index = min progress.match_index r.last_log_index;
  last_log_term = r.last_log_term;
  leader_id = r.id;
  leader_commit_index = r.commit_index;
}

unfoldable pub targets : Raft → Peers → List ReplicationTarget
targets r [] = []
targets r ((peer, p) ∷ m) =
    let rest = targets r m in if node_eq peer r.id then rest else target r (peer, p) ∷ rest

abbrev pub progress_to : ℕ → Progress
progress_to index = record { next_index = wrapping_add index 1; match_index = index }

abbrev pub is_empty {ℓ} : {A : Type ℓ} → List A → Bool
is_empty [] = true
is_empty (_ ∷ _) = false

unfoldable pub handle_local_entry_appended : Raft → LocalEntry → Outcome Effect
handle_local_entry_appended r e =
    if not (is_leader r.role)
    then (r, err (not_leader r.leader_id))
    else let ts = targets r (r.voters ++ r.learners) in
      let r₁ = record r { last_log_index = e.index; last_log_term = e.term } in
      if not (contains_key r.id r.voters)
      then (r₁, panic)
      else let r₂ = record r₁ { voters = modify r.id (λ _. progress_to e.index) r.voters } in
        if is_empty ts
        then (record r₂ { commit_index = e.index }, ok (apply_committed e.operation_id e.index))
        else (r₂, ok (send_append_entries e.operation_id ts))

unfoldable pub handle_write : Raft → OperationId → Outcome Effect
handle_write r operation_id =
    if not (is_leader r.role)
    then (r, err (not_leader r.leader_id))
    else (r, ok (append_local operation_id r.current_term r.last_log_index))

-- What is sent to a follower that is behind: the entries after its last one.
abbrev pub resend : Raft → ReceivedAppendEntriesResponse → Effect
resend r v = send_append_entries v.operation_id (
    record {
      peer = v.from;
      last_log_index = v.response.last_log_index;
      last_log_term = v.response.last_log_term;
      leader_id = r.id;
      leader_commit_index = r.commit_index;
    }
    ∷ [])

-- A voter has answered: its progress, and the commit by majority.
abbrev pub observe_voter : Raft → ReceivedAppendEntriesResponse → Outcome (Option Effect)
observe_voter r v =
    let index = v.response.last_log_index in
    let r₁ = record r { voters = modify v.from (λ _. progress_to index) r.voters } in
    if ltb index r.last_log_index
    then (r₁, ok (some (resend r₁ v)))
    else if ltb (length r₁.voters / 2) (caught_up r.last_log_index r₁.voters)
        && ltb r.commit_index r.last_log_index
    then (
      record r₁ { commit_index = r.last_log_index },
      ok (some (apply_committed v.operation_id r.last_log_index)),
    )
    else (r₁, ok none)

abbrev pub observe_learner : Raft → ReceivedAppendEntriesResponse → Outcome (Option Effect)
observe_learner r v =
    let index = v.response.last_log_index in
    let r₁ = record r { learners = modify v.from (λ _. progress_to index) r.learners } in
    if ltb index r.last_log_index then (r₁, ok (some (resend r₁ v))) else (r₁, ok none)

-- The part of `handle_append_entries_response` after the tests of role and term.
abbrev pub observe_response : Raft → ReceivedAppendEntriesResponse → Outcome (Option Effect)
observe_response r v =
    if ltb r.last_log_index v.response.last_log_index
    then (r, panic)
    else if not v.response.success && ltb v.response.last_log_index r.last_log_index
    then (r, ok (some (resend r v)))
    else if contains_key v.from r.learners
    then observe_learner r v
    else if contains_key v.from r.voters
    then observe_voter r v
    else (r, ok none)

unfoldable pub handle_append_entries_response :
    Raft → ReceivedAppendEntriesResponse → Outcome (Option Effect)
handle_append_entries_response r v =
    if not (is_leader r.role)
    then (r, err (not_leader v.response.leader_id))
    else if ltb r.current_term v.response.term
    then (
      record r {
        current_term = v.response.term;
        leader_id = v.response.leader_id;
        role = follower;
        voted_for = none;
        granted_votes = [];
      },
      err (not_leader v.response.leader_id),
    )
    else observe_response r v
