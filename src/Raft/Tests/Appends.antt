-- ===== src/Raft/Tests/Appends.antt =====
-- src/raft/core.rs, `tests`: AppendEntries at a follower, and what follows on it.
use raft_distributed_log_rs.Prelude.{
  Bool, Option, [], all_pass, none, not, refl, some, true, ℕ, ◌&&◌, ◌==◌, ◌∷◌, ◌≡◌,
}
use raft_distributed_log_rs.Raft.Core.{handle}
use raft_distributed_log_rs.Raft.Core.Base.{is_none}
use raft_distributed_log_rs.Raft.Core.Replication.{some_eq}
use raft_distributed_log_rs.Raft.Tests.{
  append_entries_event, follower_at, gives_none, node, on_apply, on_complete, on_persist,
  on_rejection, operation, operation_eq, option_eq, role_eq,
}
use raft_distributed_log_rs.Raft.Types.{
  Event, NodeId-discrete, candidate, entries_applied, entries_persisted, follower, leader, node_eq,
}

-- The event of a request of node-2, by the operation.
abbrev request_of_node_2 :
    (operation_id term prev_log_index prev_log_term commit_index : ℕ)
    (local_prev_log_term : Option ℕ)
    → Event
request_of_node_2 operation_id term prev_log_index prev_log_term commit_index =
    append_entries_event operation_id (record {
      term = term;
      leader_id = node "node-2";
      prev_log_index = prev_log_index;
      prev_log_term = prev_log_term;
      commit_index = commit_index;
    })

abbrev append_entries_rejects_an_older_leader_term : Bool
append_entries_rejects_an_older_leader_term =
    let after = handle (follower_at 4 none 8 3) (request_of_node_2 1 3 8 3 6 (some 3)) in
    on_rejection after.1 (λ operation_id peer response.
      operation_eq operation_id (operation 1)
      && node_eq peer (node "node-2")
      && response.term == 4
      && not response.success
      && response.last_log_index == 8
      && response.last_log_term == 3
      && after.0.current_term == 4
      && option_eq node_eq after.0.leader_id (some (node "old-leader")))

abbrev append_entries_rejects_a_missing_previous_log_entry : Bool
append_entries_rejects_a_missing_previous_log_entry =
    let after = handle (follower_at 4 none 8 3) (request_of_node_2 2 4 9 3 6 none) in
    on_rejection after.1 (λ operation_id peer response.
      operation_eq operation_id (operation 2)
      && node_eq peer (node "node-2")
      && response.term == 4
      && not response.success
      && response.last_log_index == 8
      && response.last_log_term == 3)

abbrev append_entries_rejects_a_mismatched_local_previous_term : Bool
append_entries_rejects_a_mismatched_local_previous_term =
    let after = handle (follower_at 4 none 8 3) (request_of_node_2 21 4 5 3 4 (some 2)) in
    on_rejection after.1 (λ operation_id peer response.
      operation_eq operation_id (operation 21)
      && not response.success
      && after.0.last_log_index == 8
      && after.0.last_log_term == 3)

abbrev append_entries_accepts_a_matching_log_prefix : Bool
append_entries_accepts_a_matching_log_prefix =
    let after = handle (follower_at 4 none 8 3) (request_of_node_2 3 4 8 3 6 (some 3)) in
    on_persist after.1 (λ operation_id peer response truncate_after leader_commit_index.
      operation_eq operation_id (operation 3)
      && node_eq peer (node "node-2")
      && response.term == 4
      && response.success
      && is_none truncate_after
      && leader_commit_index == 6
      && option_eq node_eq after.0.leader_id (some (node "node-2"))
      && role_eq after.0.role follower)

abbrev append_entries_passes_leader_commit_index_to_persistence : Bool
append_entries_passes_leader_commit_index_to_persistence =
    let after = handle (follower_at 4 none 8 3) (request_of_node_2 4 4 8 3 12 (some 3)) in
    on_persist after.1
      (λ operation_id peer response truncate_after leader_commit_index. leader_commit_index == 12)

abbrev append_entries_from_a_newer_term_makes_a_candidate_step_down : Bool
append_entries_from_a_newer_term_makes_a_candidate_step_down =
    let raft = record (follower_at 4 (some (node "node-1")) 8 3) { role = candidate } in
    let after = handle raft (request_of_node_2 5 5 8 3 6 (some 3)) in
    on_persist after.1 (λ operation_id peer response truncate_after leader_commit_index. true)
    && after.0.current_term == 5
    && role_eq after.0.role follower
    && option_eq node_eq after.0.voted_for none
    && option_eq node_eq after.0.leader_id (some (node "node-2"))

abbrev append_entries_uses_persist_effect_when_truncation_is_required : Bool
append_entries_uses_persist_effect_when_truncation_is_required =
    let after = handle (follower_at 4 none 8 3) (request_of_node_2 6 5 5 2 4 (some 2)) in
    on_persist after.1 (λ operation_id peer response truncate_after leader_commit_index.
      response.success && some_eq truncate_after 5 && leader_commit_index == 4)

-- The event that entries up to index 8 of term 4 were written.
abbrev persisted_through_8 : (operation_id leader_commit_index : ℕ) → Event
persisted_through_8 operation_id leader_commit_index = entries_persisted (record {
  operation_id = operation operation_id;
  last_log_index = 8;
  last_log_term = 4;
  leader_commit_index = leader_commit_index;
})

abbrev entries_persisted_advances_commit_and_requests_application : Bool
entries_persisted_advances_commit_and_requests_application =
    let raft = record (follower_at 4 none 5 2) { last_applied = 3 } in
    let after = handle raft (persisted_through_8 7 6) in
    after.0.last_log_index == 8
    && after.0.last_log_term == 4
    && after.0.commit_index == 6
    && after.0.last_applied == 3
    && on_apply after.1
        (λ operation_id through. operation_eq operation_id (operation 7) && through == 6)

abbrev entries_applied_updates_last_applied : Bool
entries_applied_updates_last_applied =
    let raft = record (follower_at 4 none 5 2) { last_applied = 3 } in
    let after =
      handle raft (entries_applied (record { operation_id = operation 8; through = 6 })) in
    gives_none after.1 && after.0.last_applied == 6

abbrev leader_completes_operation_after_committed_entries_are_applied : Bool
leader_completes_operation_after_committed_entries_are_applied =
    let raft = record (follower_at 4 (some (node "node-1")) 5 2) { role = leader } in
    let after =
      handle raft (entries_applied (record { operation_id = operation 80; through = 5 })) in
    after.0.last_applied == 5
    && on_complete after.1 (λ operation_id. operation_eq operation_id (operation 80))

abbrev entries_persisted_never_commits_beyond_the_local_log : Bool
entries_persisted_never_commits_beyond_the_local_log =
    let after = handle (follower_at 4 none 5 2) (persisted_through_8 9 12) in
    after.0.commit_index == 8
    && on_apply after.1
        (λ operation_id through. operation_eq operation_id (operation 9) && through == 8)

append_tests_pass :
    all_pass (
      append_entries_rejects_an_older_leader_term
      ∷ append_entries_rejects_a_missing_previous_log_entry
      ∷ append_entries_rejects_a_mismatched_local_previous_term
      ∷ append_entries_accepts_a_matching_log_prefix
      ∷ append_entries_passes_leader_commit_index_to_persistence
      ∷ append_entries_from_a_newer_term_makes_a_candidate_step_down
      ∷ append_entries_uses_persist_effect_when_truncation_is_required
      ∷ entries_persisted_advances_commit_and_requests_application
      ∷ entries_applied_updates_last_applied
      ∷ leader_completes_operation_after_committed_entries_are_applied
      ∷ entries_persisted_never_commits_beyond_the_local_log ∷ [])
    ≡ true
unfolding handle NodeId-discrete
append_tests_pass = refl
