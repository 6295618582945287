-- ===== src/Grpc/Replies.antt =====
-- src/grpc/client_transport.rs with src/raft/runtime.rs: the service in front of a runtime, which
-- handles the message that `write` sends while `write` awaits its reply.
use raft_distributed_log_rs.Grpc.{
  Buffer, Channels, Codec, WriteRequest, command_for, exchange, failed_precondition, response_for,
  write_request,
}
use raft_distributed_log_rs.Prelude.{
  codes, List, Option, Option-cases, String, [], ap, arith, if◌then◌else◌, inl, inr, none, refl,
  some, true, u64_mod, ℕ, ◌++◌, ◌+◌, ◌<◌, ◌==◌, ◌∷◌, ◌≡◌, ◌≢◌, ◌⊎◌,
}
use raft_distributed_log_rs.Raft.Cluster.{after}
use raft_distributed_log_rs.Raft.Runtime.Driving.{handle_message}
use raft_distributed_log_rs.Raft.Runtime.Refusing.{write_at_other}
use raft_distributed_log_rs.Raft.Runtime.Serving.{HasRoom, IsReliable, one_write, record_of}
use raft_distributed_log_rs.Raft.Runtime.Start.{Reply, Runtime, Services, find, write_reply}
use raft_distributed_log_rs.Raft.Runtime.Writing.{LeadsAlone}
use raft_distributed_log_rs.Raft.Types.{Error, NodeId, leader, not_leader, write_message}

-- The answer to a write that was sent on this reply channel.
abbrev pub answer_on : ℕ → List Reply → String ⊎ Option Error
answer_on reply [] = inl "channel closed"
answer_on reply (write_reply r result ∷ replies) =
    let rest = answer_on reply replies in if r == reply then inr result else rest
answer_on reply (_ ∷ replies) = answer_on reply replies

abbrev pub runtime_channels : {F : Type 0} → Services F → Channels (Runtime F)
runtime_channels m = record {
  send = λ rt message. inr (handle_message m rt message).0;
  receive = λ rt reply. answer_on reply rt.replies;
}

sent :
    {S : Type 0} (ch : Channels S) (c : Codec) (buf : Buffer) (reply : ℕ) (s : S) (w : WriteRequest)
    (command : List ℕ)
    → command_for c buf w ≡ inr command
    → write_request ch c buf reply s w ≡ exchange ch reply s (inr command)
unfolding write_request
sent ch c buf reply s w command e = ap (exchange ch reply s) e

-- What a client learns from a node that does not lead.
abbrev pub refusal : Option NodeId → List ℕ
refusal none = codes "node is not the leader; leader is unknown"
refusal (some leader_id) = codes "node is not the leader; known leader: " ++ leader_id.bytes

-- A request at the leader of a cluster of one node, which has applied all of its log: the client is
-- told that it is done, the state machine has got the command that the request is encoded to, and
-- the log represents the old records and the entry of the command behind them. The request can be
-- encoded, the codec of the entries and the state machine do not fail, the client waits, and there
-- is space for the entry and another id.
pub write_request-LeadsAlone :
    (F : Type 0) (m : Services F) (good : IsReliable m) (rt : Runtime F) (b : ℕ)
    (all : List (List ℕ)) (c : Codec) (buf : Buffer) (reply : ℕ) (w : WriteRequest)
    (command : List ℕ)
    → command_for c buf w ≡ inr command
    → LeadsAlone rt b all
    → HasRoom m good rt b all (write_message command reply ∷ [])
    → ((write_request (runtime_channels m) c buf reply rt w).1 ≡ inr (record { is_ok = true }))
      × ((write_request (runtime_channels m) c buf reply rt w).0.fsm ≡ (m.apply rt.fsm command).0)
      × LeadsAlone
          (write_request (runtime_channels m) c buf reply rt w).0
          b
          (all ++ record_of m good rt.raft.current_term (write_message command reply) ∷ [])
unfolding response_for
write_request-LeadsAlone F m good rt b all c buf reply w command e alone room =
    let (now, after) =
      one_write m good rt b all (write_message command reply) alone room.0 room.1 in
    let same : (reply == reply) ≡ true = ground arith in
    rw (sent (runtime_channels m) c buf reply rt w command e, now, same) (refl, refl, after)

-- A request at a node that does not lead changes nothing but the counter of operation ids and the
-- list of answers, and the client learns which leader the node knows, or that it knows none. The
-- request can be encoded, the client waits, an id is left, and no operation is pending under it.
pub write_request-refusal :
    (F : Type 0) (m : Services F) (rt : Runtime F) (c : Codec) (buf : Buffer) (reply : ℕ)
    (w : WriteRequest) (command : List ℕ)
    → command_for c buf w ≡ inr command
    → rt.raft.role ≢ leader
    → rt.next_operation_id + 1 < u64_mod
    → find (record { id = rt.next_operation_id }) rt.operations ≡ none
    → m.is_open reply ≡ true
    → write_request (runtime_channels m) c buf reply rt w ≡ (
      record rt {
        next_operation_id = rt.next_operation_id + 1;
        replies = write_reply reply (some (not_leader rt.raft.leader_id)) ∷ rt.replies;
      },
      inl (failed_precondition (refusal rt.raft.leader_id)),
    )
unfolding response_for
write_request-refusal F m rt c buf reply w command e other room fresh waits =
    let refused = write_at_other F m rt command reply other room fresh in
    let same : (reply == reply) ≡ true = ground arith in
    let sends = sent (runtime_channels m) c buf reply rt w command e in
    elim (Option-cases rt.raft.leader_id) [
      | inl unknown ↦ rw (sends, refused, waits, same, unknown) refl
      | inr (known, at) ↦ rw (sends, refused, waits, same, at) refl
    ]
