-- ===== src/Raft/Bounds.antt =====
-- src/raft/core.rs: the numbers of a node are `u64`, where the model counts in ℕ.
use raft_distributed_log_rs.Prelude.{
  List, Option, [], arith, none, some, u64_mod, ℕ, ◌++◌, ◌<◌, ◌∷◌,
}
use raft_distributed_log_rs.Raft.Core.{handle}
use raft_distributed_log_rs.Raft.Core.Heartbeats.{observe}
use raft_distributed_log_rs.Raft.Core.Replication.{progress_to, targets}
use raft_distributed_log_rs.Raft.Peers.{Peers, modify}
use raft_distributed_log_rs.Raft.Types.{
  AppendEntriesResponse, Effect, Event, NodeId, Raft, ReplicationTarget, Result, State,
  append_entries, append_entries_response, append_local, apply_committed, complete_operation,
  election_timeout, entries_applied, entries_persisted, heartbeat, heartbeat_response,
  local_entries_appended, ok, persist_entries, reject_append_entries, request_vote,
  send_append_entries, send_heartbeat, send_heartbeat_response, send_request_vote_response,
  send_request_votes, vote_response,
}

abbrev pub ProgressFits : Peers → Type 0
ProgressFits [] = Unit {0}
ProgressFits ((k, p) ∷ m) = ((p.next_index < u64_mod) × (p.match_index < u64_mod)) × ProgressFits m

-- Every number of the node is a `u64`.
pub record Fits (r : Raft) : Type 0 where
  pub term_fits : r.current_term < u64_mod
  pub applied_fits : r.last_applied < u64_mod
  pub commit_fits : r.commit_index < u64_mod
  pub index_fits : r.last_log_index < u64_mod
  pub log_term_fits : r.last_log_term < u64_mod
  pub voters_fit : ProgressFits r.voters
  pub learners_fit : ProgressFits r.learners

abbrev pub ResponseFits : AppendEntriesResponse → Type 0
ResponseFits a = (a.term < u64_mod) × (a.last_log_index < u64_mod) × (a.last_log_term < u64_mod)

-- Every number of the event is a `u64`.
abbrev pub EventFits : Event → Type 0
EventFits (heartbeat q) =
    (q.term < u64_mod)
    × (q.log_index < u64_mod)
    × (q.log_term < u64_mod)
    × (q.leader_commit_index < u64_mod)
EventFits (request_vote q) =
    (q.term < u64_mod) × (q.last_log_index < u64_mod) × (q.last_log_term < u64_mod)
EventFits (append_entries a) =
    (a.request.term < u64_mod)
    × (a.request.prev_log_index < u64_mod)
    × (a.request.prev_log_term < u64_mod)
    × (a.request.commit_index < u64_mod)
EventFits (append_entries_response v) = ResponseFits v.response
EventFits (heartbeat_response v) = ResponseFits v.response
EventFits (entries_persisted e) =
    (e.last_log_index < u64_mod) × (e.last_log_term < u64_mod) × (e.leader_commit_index < u64_mod)
EventFits (entries_applied e) = e.through < u64_mod
EventFits (vote_response v) = v.response.term < u64_mod
EventFits (local_entries_appended e) = (e.index < u64_mod) × (e.term < u64_mod)
EventFits _ = Unit {0}

ProgressFits-observe :
    (n : ℕ) (j : NodeId) (a : AppendEntriesResponse) (m : Peers)
    → n < u64_mod
    → ProgressFits m
    → ProgressFits (modify j (observe n a) m)
unfolding modify
ProgressFits-observe n j a [] h u = tt
ProgressFits-observe n j a ((k, p) ∷ m) h u = ground (arith, ProgressFits-observe n j a m h u.1)

ProgressFits-progress_to :
    (i : ℕ) (j : NodeId) (m : Peers)
    → i < u64_mod
    → ProgressFits m
    → ProgressFits (modify j (λ _. progress_to i) m)
unfolding modify
ProgressFits-progress_to i j [] h u = tt
ProgressFits-progress_to i j ((k, p) ∷ m) h u = ground (arith, ProgressFits-progress_to i j m h u.1)

abbrev pub TargetsFit : List ReplicationTarget → Type 0
TargetsFit [] = Unit {0}
TargetsFit (t ∷ ts) =
    ((t.last_log_index < u64_mod) × (t.last_log_term < u64_mod) × (t.leader_commit_index < u64_mod))
    × TargetsFit ts

abbrev pub OptionFits : Option ℕ → Type 0
OptionFits none = Unit {0}
OptionFits (some n) = n < u64_mod

abbrev pub StateFits : Option State → Type 0
StateFits none = Unit {0}
StateFits (some s) = s.current_term < u64_mod

-- Every number of the effect is a `u64`.
abbrev pub EffectFits : Effect → Type 0
EffectFits (send_request_votes s peers q) =
    (s.current_term < u64_mod)
    × (q.term < u64_mod)
    × (q.last_log_index < u64_mod)
    × (q.last_log_term < u64_mod)
EffectFits (send_append_entries i ts) = TargetsFit ts
EffectFits (send_request_vote_response s peer a) = StateFits s × (a.term < u64_mod)
EffectFits (send_heartbeat peers q) =
    (q.term < u64_mod)
    × (q.log_index < u64_mod)
    × (q.log_term < u64_mod)
    × (q.leader_commit_index < u64_mod)
EffectFits (send_heartbeat_response peer a reset through) = ResponseFits a × OptionFits through
EffectFits (persist_entries i peer a truncate_after commit) =
    ResponseFits a × OptionFits truncate_after × (commit < u64_mod)
EffectFits (apply_committed i through) = through < u64_mod
EffectFits (reject_append_entries i peer a) = ResponseFits a
EffectFits (append_local i term index) = (term < u64_mod) × (index < u64_mod)
EffectFits (complete_operation i) = Unit {0}

abbrev pub ResultFits : Result (Option Effect) → Type 0
ResultFits (ok (some f)) = EffectFits f
ResultFits _ = Unit {0}

ProgressFits-append : (m n : Peers) → ProgressFits m → ProgressFits n → ProgressFits (m ++ n)
ProgressFits-append [] n u v = v
ProgressFits-append (x ∷ m) n u v = (u.0, ProgressFits-append m n u.1 v)

targets-TargetsFit : (r : Raft) (m : Peers) → Fits r → ProgressFits m → TargetsFit (targets r m)
unfolding targets
targets-TargetsFit r [] f u = tt
targets-TargetsFit r ((k, p) ∷ m) f u = ground (arith, targets-TargetsFit r m f u.1)

-- An event whose numbers are `u64` leaves the numbers of a node `u64`, and the numbers that the
-- effect carries to other nodes, to the storage and to the log are `u64`: what the handlers add wraps
-- or saturates.
pub handle-Fits :
    (r : Raft) (e : Event) → Fits r → EventFits e → Fits (handle r e).0 × ResultFits (handle r e).1
unfolding handle
handle-Fits r (heartbeat_response v) f g = ground (
  arith,
  ProgressFits-observe r.last_log_index v.from v.response r.voters,
  ProgressFits-observe r.last_log_index v.from v.response r.learners,
)
handle-Fits r (append_entries_response v) f g = ground (
  arith,
  ProgressFits-progress_to v.response.last_log_index v.from r.voters,
  ProgressFits-progress_to v.response.last_log_index v.from r.learners,
)
handle-Fits r (local_entries_appended e) f g = ground (
  arith,
  ProgressFits-progress_to e.index r.id r.voters,
  targets-TargetsFit r (r.voters ++ r.learners) f
      (ProgressFits-append r.voters r.learners f.voters_fit f.learners_fit),
)
handle-Fits r (vote_response v) f g = ground arith
handle-Fits r election_timeout f g = ground arith
handle-Fits r (append_entries a) f g = ground arith
handle-Fits r (heartbeat q) f g = ground arith
handle-Fits r _ f g = ground arith
