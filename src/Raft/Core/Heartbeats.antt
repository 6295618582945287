-- ===== src/Raft/Core/Heartbeats.antt =====
-- src/raft/core.rs: heartbeats, sent, received and answered.
use raft_distributed_log_rs.Prelude.{
  Bool, Option, [], false, if◌then◌else◌, ltb, max, min, none, not, saturating_add, some, true, ℕ,
  ◌&&◌, ◌-◌, ◌==◌,
}
use raft_distributed_log_rs.Raft.Core.Base.{Outcome, own_heartbeat, own_response}
use raft_distributed_log_rs.Raft.Peers.{contains_key, modify, others}
use raft_distributed_log_rs.Raft.Types.{
  AppendEntriesResponse, Effect, HeartbeatRequest, Progress, Raft, ReceivedHeartbeatResponse, err,
  follower, is_leader, not_leader, ok, send_heartbeat, send_heartbeat_response,
}

unfoldable pub handle_heartbeat_timeout : Raft → Outcome Effect
handle_heartbeat_timeout r =
    if not (is_leader r.role)
    then (r, err (not_leader r.leader_id))
    else (r, ok (send_heartbeat (others r.id r.voters) (own_heartbeat r)))

-- The state once a heartbeat of a current or a later term has been seen.
abbrev pub accept_heartbeat : Raft → HeartbeatRequest → Raft
accept_heartbeat r q =
    let r₁ =
      (if ltb r.current_term q.term
        then record r { current_term = q.term; voted_for = none }
        else r) in
    record r₁ { role = follower; granted_votes = []; leader_id = some q.leader_id }

abbrev pub log_matches : Raft → HeartbeatRequest → Bool
log_matches r q = q.log_index == r.last_log_index && q.log_term == r.last_log_term

unfoldable pub handle_heartbeat : Raft → HeartbeatRequest → Outcome Effect
handle_heartbeat r q =
    if ltb q.term r.current_term
    then (r, ok (send_heartbeat_response q.leader_id (own_response r false) false none))
    else let r₂ = accept_heartbeat r q in
      if not (log_matches r₂ q)
      then (r₂, ok (send_heartbeat_response q.leader_id (own_response r₂ false) true none))
      else let new_commit_index = min q.leader_commit_index r₂.last_log_index in
        if ltb r₂.commit_index new_commit_index
        then (
          record r₂ { commit_index = new_commit_index },
          ok (
              send_heartbeat_response q.leader_id (own_response r₂ true) true
                (some new_commit_index)),
        )
        else (r₂, ok (send_heartbeat_response q.leader_id (own_response r₂ true) true none))

-- What a heartbeat response tells about a follower; `last` is the leader's last index.
abbrev pub observe : ℕ → AppendEntriesResponse → Progress → Progress
observe last a p =
    if a.success
    then (let match_index = max p.match_index (min a.last_log_index last) in
        record {
          next_index = max p.next_index (saturating_add match_index 1);
          match_index = match_index;
        })
    else record p { next_index = min (p.next_index - 1) (saturating_add a.last_log_index 1) }

unfoldable pub handle_heartbeat_response :
    Raft → ReceivedHeartbeatResponse → Outcome (Option Effect)
handle_heartbeat_response r v =
    if ltb r.current_term v.response.term
    then (
      record r {
        current_term = v.response.term;
        role = follower;
        voted_for = none;
        leader_id = v.response.leader_id;
        granted_votes = [];
      },
      ok none,
    )
    else if not (is_leader r.role)
    then (r, err (not_leader r.leader_id))
    else if ltb v.response.term r.current_term
    then (r, ok none)
    else if contains_key v.from r.voters
    then (
      record r { voters = modify v.from (observe r.last_log_index v.response) r.voters },
      ok none,
    )
    else (
      record r { learners = modify v.from (observe r.last_log_index v.response) r.learners },
      ok none,
    )
