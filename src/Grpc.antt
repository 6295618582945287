-- ===== src/Grpc.antt =====
-- src/grpc/client_transport.rs: the service that takes the writes of clients. `ClientTransport` has
-- the runtime's queue and a pool of buffers: the queue is `Channels`, and the buffer that the pool
-- hands out is an argument.
pub mod Commands
pub mod Replies
mod Examples
use raft_distributed_log_rs.Prelude.{
  codes, Bool, List, Option, String, [], if◌then◌else◌, inl, inr, length, ltb, none, replicate,
  some, take, true, ℕ, ◌++◌, ◌-◌, ◌∷◌, ◌⊎◌,
}
use raft_distributed_log_rs.Raft.Runtime.Start.{send}
use raft_distributed_log_rs.Raft.Types.{
  Error, RuntimeMessage, append_failed, apply_committed_entry_failed, entry_deserialisation_failed,
  entry_serialisation_failed, not_candidate, not_leader, persist_state_failed,
  read_committed_entry_failed, rejecting_entry_failed, write_message,
}

pub record WriteRequest : Type 0 where
  pub key : String
  pub value : String

pub record WriteResponse : Type 0 where
  pub is_ok : Bool

-- The two kinds of failure that the service answers, with their messages.
pub data Status : Type 0 where
  internal : List ℕ → Status
  failed_precondition : List ℕ → Status

-- A `Vec<u8>`.
pub record Buffer : Type 0 where
  pub contents : List ℕ
  pub capacity : ℕ

-- The codec of `WriteRequest`: `encode` adds to what a vector holds.
pub record Codec : Type 0 where
  pub encoded_len : WriteRequest → ℕ
  pub encode : WriteRequest → List ℕ → String ⊎ List ℕ

-- The queue of the runtime, and the reply channel with this number.
pub record Channels (S : Type 0) : Type 0 where
  pub send : S → RuntimeMessage → String ⊎ S
  pub receive : S → ℕ → String ⊎ Option Error

-- `Vec::resize` with zeros.
abbrev pub resize : List ℕ → ℕ → List ℕ
resize bytes n = take n bytes ++ replicate (n - length bytes) 0

-- The buffer that the request is encoded into.
abbrev pub room_for : Codec → Buffer → WriteRequest → List ℕ
room_for c buf message =
    if ltb buf.capacity (c.encoded_len message)
    then resize buf.contents (c.encoded_len message)
    else buf.contents

-- The first part of `write`: the command that is sent to the runtime.
unfoldable pub command_for : Codec → Buffer → WriteRequest → String ⊎ List ℕ
command_for c buf message = c.encode message (room_for c buf message)

-- The text of an error.
unfoldable pub display : Error → List ℕ
display (not_leader _) = codes "node is not the leader"
display not_candidate = codes "node is not a candidate"
display append_failed = codes "appending to local storage failed"
display (entry_serialisation_failed _) = codes "log entry serialisation failed"
display (rejecting_entry_failed _) =
    codes "channel is not able to recieve response for entry rejection"
display (persist_state_failed e) = codes "persisting Raft hard state failed: " ++ codes e
display (read_committed_entry_failed e) = codes "reading a committed log entry failed: " ++ codes e
display (entry_deserialisation_failed e) =
    codes "decoding a committed log entry failed: " ++ codes e
display (apply_committed_entry_failed e) =
    codes "applying a committed log entry failed: " ++ codes e

-- The last part of `write`: the answer, from what the reply channel gives.
unfoldable pub response_for : String ⊎ Option Error → Status ⊎ WriteResponse
unfolding display
response_for (inl e) = inl (internal (codes e))
response_for (inr none) = inr (record { is_ok = true })
response_for (inr (some (not_leader (some leader_id)))) =
    inl (failed_precondition (codes "node is not the leader; known leader: " ++ leader_id.bytes))
response_for (inr (some (not_leader none))) =
    inl (failed_precondition (codes "node is not the leader; leader is unknown"))
response_for (inr (some e)) = inl (internal (display e))

-- What follows the encoding: the message is sent, and its reply awaited.
abbrev pub exchange :
    {S : Type 0} → Channels S → ℕ → S → String ⊎ List ℕ → S × (Status ⊎ WriteResponse)
exchange ch reply s (inl e) = (s, inl (internal (codes e)))
exchange ch reply s (inr command) = elim (ch.send s (write_message command reply)) [
  | inl e ↦ (s, inl (internal (codes e)))
  | inr s' ↦ (s', response_for (ch.receive s' reply))
]

-- `write`, with a fresh reply channel.
unfoldable pub write_request :
    {S : Type 0} → Channels S → Codec → Buffer → ℕ → S → WriteRequest → S × (Status ⊎ WriteResponse)
unfolding command_for response_for
write_request ch c buf reply s message = exchange ch reply s (command_for c buf message)
