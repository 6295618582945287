-- ===== src/Raft/Core.antt =====
-- src/raft/core.rs: `Raft::handle`, the core's only entry.
pub mod Base
pub mod Election
pub mod Heartbeats
pub mod Replication
use raft_distributed_log_rs.Prelude.{Option}
use raft_distributed_log_rs.Raft.Core.Base.{Outcome, map_some}
use raft_distributed_log_rs.Raft.Core.Election.{
  handle_election_timeout, handle_request_vote, handle_vote_response,
}
use raft_distributed_log_rs.Raft.Core.Heartbeats.{
  handle_heartbeat, handle_heartbeat_response, handle_heartbeat_timeout,
}
use raft_distributed_log_rs.Raft.Core.Replication.{
  handle_append_entries, handle_append_entries_response, handle_entries_applied,
  handle_entries_persisted, handle_local_entry_appended, handle_write,
}
use raft_distributed_log_rs.Raft.Types.{
  Effect, Event, Raft, append_entries, append_entries_response, election_timeout, entries_applied,
  entries_persisted, heartbeat, heartbeat_response, heartbeat_timeout, local_entries_appended,
  request_vote, vote_response, write,
}

unfoldable pub handle : Raft → Event → Outcome (Option Effect)
unfolding handle_write handle_local_entry_appended handle_entries_persisted handle_entries_applied
    handle_request_vote handle_append_entries handle_vote_response handle_heartbeat
    handle_heartbeat_response handle_election_timeout handle_heartbeat_timeout
    handle_append_entries_response
handle r (write operation_id) = map_some (handle_write r operation_id)
handle r (local_entries_appended entry) = map_some (handle_local_entry_appended r entry)
handle r (entries_persisted entries) = handle_entries_persisted r entries
handle r (entries_applied entries) = handle_entries_applied r entries
handle r (request_vote q) = map_some (handle_request_vote r q)
handle r (append_entries q) = map_some (handle_append_entries r q)
handle r (vote_response v) = handle_vote_response r v
handle r (heartbeat q) = map_some (handle_heartbeat r q)
handle r (heartbeat_response v) = handle_heartbeat_response r v
handle r election_timeout = map_some (handle_election_timeout r)
handle r heartbeat_timeout = map_some (handle_heartbeat_timeout r)
handle r (append_entries_response v) = handle_append_entries_response r v
