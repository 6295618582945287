-- ===== src/Grpc/Examples.antt =====
-- src/grpc/client_transport.rs: requests at the nodes of the runtime's examples.
use raft_distributed_log_rs.Grpc.{
  Buffer, Codec, WriteRequest, command_for, failed_precondition, write_request,
}
use raft_distributed_log_rs.Grpc.Commands.{IsAppending, command_for-bytes}
use raft_distributed_log_rs.Grpc.Replies.{
  refusal, runtime_channels, write_request-LeadsAlone, write_request-refusal,
}
use raft_distributed_log_rs.Prelude.{
  codes, List, [], arith, inl, inr, length, refl, some, true, ℕ, ◌++◌, ◌↔◌, ◌∷◌, ◌≡◌, ◌≤◌,
}
use raft_distributed_log_rs.Raft.Examples.{node_2}
use raft_distributed_log_rs.Raft.Runtime.Examples.{
  following, keeping, keeping-IsReliable, lone, lone-LeadsAlone, one_entry-Space,
}
use raft_distributed_log_rs.Raft.Runtime.Start.{write_reply}
use raft_distributed_log_rs.Raft.Runtime.Writing.{LeadsAlone}
use raft_distributed_log_rs.Raft.Types.{not_leader}

-- A codec that writes one byte for the key and one for the value.
abbrev two_bytes : Codec
two_bytes = record {
  encoded_len = λ w. 2;
  encode = λ w old. inr (old ++ length (codes w.key) ∷ length (codes w.value) ∷ []);
}

abbrev two_bytes-IsAppending : IsAppending two_bytes
two_bytes-IsAppending = record {
  bytes = λ w. length (codes w.key) ∷ length (codes w.value) ∷ [];
  encodes = λ w old. refl;
  counted = λ w. refl;
}

abbrev request : WriteRequest
request = record { key = "colour"; value = "red" }

-- As the pool makes its buffers.
abbrev fresh_buffer : Buffer
fresh_buffer = record { contents = []; capacity = 1024 }

-- As it comes back from an earlier request.
abbrev used_buffer : Buffer
used_buffer = record { contents = 9 ∷ 9 ∷ []; capacity = 1024 }

command_for-bytes_example :
    (command_for two_bytes fresh_buffer request ≡ inr (6 ∷ 3 ∷ []))
    ↔ (fresh_buffer.contents ≡ []) × (2 ≤ 1024)
command_for-bytes_example =
    command_for-bytes two_bytes two_bytes-IsAppending fresh_buffer request (omega arith)

-- The bytes of the earlier request are in front.
stale_bytes : command_for two_bytes used_buffer request ≡ inr (9 ∷ 9 ∷ 6 ∷ 3 ∷ [])
unfolding command_for
stale_bytes = refl

-- A buffer that is too small is filled with zeros first.
zero_bytes :
    command_for two_bytes (record { contents = []; capacity = 1 }) request
    ≡ inr (0 ∷ 0 ∷ 6 ∷ 3 ∷ [])
unfolding command_for
zero_bytes = refl

write_request-LeadsAlone_example :
    ((write_request (runtime_channels keeping) two_bytes fresh_buffer 5 lone request).1
      ≡ inr (record { is_ok = true }))
    × ((write_request (runtime_channels keeping) two_bytes fresh_buffer 5 lone request).0.fsm
        ≡ (6 ∷ 3 ∷ []) ∷ [])
    × LeadsAlone
        (write_request (runtime_channels keeping) two_bytes fresh_buffer 5 lone request).0
        1
        ((1 ∷ 6 ∷ 3 ∷ []) ∷ [])
write_request-LeadsAlone_example =
    write_request-LeadsAlone (List (List ℕ)) keeping keeping-IsReliable lone 1 [] two_bytes
      fresh_buffer 5 request (6 ∷ 3 ∷ []) (unfold command_for in refl) lone-LeadsAlone
      (one_entry-Space (1 ∷ 6 ∷ 3 ∷ []) (omega arith), omega arith, tt)

write_request-refusal_example :
    write_request (runtime_channels keeping) two_bytes fresh_buffer 5 following request ≡ (
      record following {
        next_operation_id = 2;
        replies = write_reply 5 (some (not_leader (some node_2))) ∷ [];
      },
      inl (failed_precondition (refusal (some node_2))),
    )
write_request-refusal_example =
    write_request-refusal (List (List ℕ)) keeping following two_bytes fresh_buffer 5 request
      (6 ∷ 3 ∷ []) (unfold command_for in refl) (λ h. cc) (omega arith) refl refl
