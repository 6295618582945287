-- ===== src/Raft/Tests/Replication.antt =====
-- src/raft/core.rs, `tests`: writes at a leader, and the responses of its followers.
use raft_distributed_log_rs.Prelude.{
  Bool, List, [], all_pass, false, none, not, refl, some, true, ℕ, ◌&&◌, ◌==◌, ◌∷◌, ◌≡◌,
}
use raft_distributed_log_rs.Raft.Core.{handle}
use raft_distributed_log_rs.Raft.Core.Replication.{targets}
use raft_distributed_log_rs.Raft.Peers.{caught_up, contains_key, get, modify}
use raft_distributed_log_rs.Raft.Tests.{
  follower_at, gives_none, is_at, is_ok, names_leader, node, on_append_entries, on_append_local,
  on_apply, operation, operation_eq, option_eq, progress, put, role_eq,
}
use raft_distributed_log_rs.Raft.Types.{
  Event, NodeId, NodeId-discrete, Raft, ReplicationTarget, append_entries_response, follower,
  leader, local_entries_appended, node_eq, write,
}

-- A leader with this log.
abbrev leader_at : (last_log_index last_log_term : ℕ) → Raft
leader_at last_log_index last_log_term =
    record (follower_at 4 (some (node "node-1")) last_log_index last_log_term) { role = leader }

abbrev write_on_leader_requests_a_local_append : Bool
write_on_leader_requests_a_local_append =
    let after = handle (leader_at 8 3) (write (operation 10)) in
    on_append_local after.1 (λ operation_id term last_log_index.
      operation_eq operation_id (operation 10)
      && term == 4
      && last_log_index == 8
      && after.0.last_log_index == 8)

abbrev write_on_follower_returns_known_leader : Bool
write_on_follower_returns_known_leader =
    let after = handle (follower_at 4 none 8 3) (write (operation 11)) in
    names_leader after.1 (node "old-leader") && after.0.last_log_index == 8

-- The event that the entry 9 of term 4 was appended.
abbrev entry_9_appended : ℕ → Event
entry_9_appended operation_id =
    local_entries_appended (record { operation_id = operation operation_id; index = 9; term = 4 })

abbrev local_entry_append_updates_leader_log_and_own_progress : Bool
local_entry_append_updates_leader_log_and_own_progress =
    let after = handle (leader_at 8 3) (entry_9_appended 12) in
    is_ok after.1
    && after.0.last_log_index == 9
    && after.0.last_log_term == 4
    && is_at (node "node-1") 9 10 after.0.voters

-- A target with these values.
abbrev is_target :
    ReplicationTarget
    → (peer : NodeId) (last_log_index last_log_term : ℕ) (leader_id : NodeId)
      (leader_commit_index : ℕ)
    → Bool
is_target t peer last_log_index last_log_term leader_id leader_commit_index =
    node_eq t.peer peer
    && t.last_log_index == last_log_index
    && t.last_log_term == last_log_term
    && node_eq t.leader_id leader_id
    && t.leader_commit_index == leader_commit_index

-- `let [target] = targets.as_slice() else { panic!(..) }`.
abbrev on_only : List ReplicationTarget → (ReplicationTarget → Bool) → Bool
on_only (t ∷ []) f = f t
on_only _ f = false

-- The map of targets has these three entries; the model keeps the order of the maps, voters first.
abbrev three_targets : List ReplicationTarget → Bool
three_targets (t ∷ u ∷ v ∷ []) =
    is_target t (node "node-2") 5 3 (node "node-1") 6
    && is_target u (node "node-3") 8 3 (node "node-1") 6
    && is_target v (node "node-4") 2 3 (node "node-1") 6
three_targets _ = false

abbrev local_entry_append_creates_a_replication_target_for_every_other_node : Bool
local_entry_append_creates_a_replication_target_for_every_other_node =
    let raft = leader_at 8 3 in
    let four = record raft {
      commit_index = 6;
      voters =
          put (node "node-3") (record { next_index = 9; match_index = 8 })
            (put (node "node-2") (record { next_index = 6; match_index = 5 }) raft.voters);
      learners = put (node "node-4") (record { next_index = 3; match_index = 2 }) raft.learners;
    } in
    let after = handle four (entry_9_appended 13) in
    on_append_entries after.1 (λ operation_id ts.
      operation_eq operation_id (operation 13) && after.0.commit_index == 6 && three_targets ts)

abbrev local_entry_append_is_rejected_after_leader_steps_down : Bool
local_entry_append_is_rejected_after_leader_steps_down =
    let after = handle (follower_at 5 none 8 3) (entry_9_appended 14) in
    names_leader after.1 (node "old-leader")
    && after.0.last_log_index == 8
    && after.0.last_log_term == 3

-- The event of a response of a follower.
abbrev response_from :
    (operation_id : ℕ) (peer : NodeId) (term : ℕ) (success : Bool)
    (last_log_index last_log_term : ℕ) (leader_id : NodeId)
    → Event
response_from operation_id peer term success last_log_index last_log_term leader_id =
    append_entries_response (record {
      operation_id = operation operation_id;
      from = peer;
      response = record {
        term = term;
        success = success;
        last_log_index = last_log_index;
        last_log_term = last_log_term;
        leader_id = some leader_id;
      };
    })

abbrev rejected_append_entries_response_retries_from_follower_position : Bool
rejected_append_entries_response_retries_from_follower_position =
    let raft = record (leader_at 10 4) { commit_index = 6 } in
    let after = handle raft (response_from 15 (node "node-2") 4 false 5 2 (node "node-1")) in
    on_append_entries after.1 (λ operation_id ts.
      operation_eq operation_id (operation 15)
      && on_only ts (λ t. is_target t (node "node-2") 5 2 (node "node-1") 6))

-- A leader with the learner node-4.
abbrev teacher : Raft
teacher = record (leader_at 10 4) { learners = (node "node-4", progress) ∷ [] }

abbrev learner_that_is_still_behind_remains_a_learner_and_is_retried : Bool
learner_that_is_still_behind_remains_a_learner_and_is_retried =
    let after = handle teacher (response_from 16 (node "node-4") 4 true 6 3 (node "node-1")) in
    on_append_entries after.1 (λ operation_id ts. true)
    && contains_key (node "node-4") after.0.learners
    && not (contains_key (node "node-4") after.0.voters)
    && is_at (node "node-4") 6 7 after.0.learners

abbrev caught_up_learner_is_not_promoted_without_a_configuration_change : Bool
caught_up_learner_is_not_promoted_without_a_configuration_change =
    let after = handle teacher (response_from 17 (node "node-4") 4 true 10 4 (node "node-1")) in
    gives_none after.1
    && not (contains_key (node "node-4") after.0.voters)
    && is_at (node "node-4") 10 11 after.0.learners

abbrev voter_that_is_still_behind_remains_in_voter_configuration : Bool
voter_that_is_still_behind_remains_in_voter_configuration =
    let after =
      handle (leader_at 10 4) (response_from 18 (node "node-2") 4 true 7 3 (node "node-1")) in
    is_ok after.1
    && is_at (node "node-2") 7 8 after.0.voters
    && not (contains_key (node "node-2") after.0.learners)

abbrev successful_append_response_from_one_follower_forms_three_node_majority : Bool
successful_append_response_from_one_follower_forms_three_node_majority =
    let raft = leader_at 10 4 in
    let written = record raft {
      voters = put (node "node-1") (record { next_index = 11; match_index = 10 }) raft.voters;
    } in
    let after = handle written (response_from 19 (node "node-2") 4 true 10 4 (node "node-1")) in
    after.0.commit_index == 10
    && on_apply after.1
        (λ operation_id through. operation_eq operation_id (operation 19) && through == 10)

abbrev successful_append_response_with_higher_term_makes_leader_step_down : Bool
successful_append_response_with_higher_term_makes_leader_step_down =
    let after =
      handle (leader_at 10 4) (response_from 20 (node "node-2") 5 true 10 4 (node "node-3")) in
    names_leader after.1 (node "node-3")
    && after.0.current_term == 5
    && role_eq after.0.role follower
    && option_eq node_eq after.0.voted_for none
    && option_eq node_eq after.0.leader_id (some (node "node-3"))

replication_tests_pass :
    all_pass (
      write_on_leader_requests_a_local_append ∷ write_on_follower_returns_known_leader
      ∷ local_entry_append_updates_leader_log_and_own_progress
      ∷ local_entry_append_creates_a_replication_target_for_every_other_node
      ∷ local_entry_append_is_rejected_after_leader_steps_down
      ∷ rejected_append_entries_response_retries_from_follower_position
      ∷ learner_that_is_still_behind_remains_a_learner_and_is_retried
      ∷ caught_up_learner_is_not_promoted_without_a_configuration_change
      ∷ voter_that_is_still_behind_remains_in_voter_configuration
      ∷ successful_append_response_from_one_follower_forms_three_node_majority
      ∷ successful_append_response_with_higher_term_makes_leader_step_down ∷ [])
    ≡ true
unfolding handle targets put get contains_key modify caught_up NodeId-discrete
replication_tests_pass = refl
