-- ===== src/Raft/Runtime/Persistence.antt =====
-- src/raft/runtime.rs: what `execute` writes to the file of the hard state.
use raft_distributed_log_rs.Prelude.{
  List, arith, none, refl, saturating_add, some, ℕ, ◌+◌, ◌-◌, ◌≡◌,
}
use raft_distributed_log_rs.Raft.Elections.{to_persist}
use raft_distributed_log_rs.Raft.Runtime.Applying.{apply_entries-Same}
use raft_distributed_log_rs.Raft.Runtime.Execution.{apply_committed_entries, execute}
use raft_distributed_log_rs.Raft.Runtime.Start.{Runtime, Services}
use raft_distributed_log_rs.Raft.Storage.{save_state}
use raft_distributed_log_rs.Raft.Types.{
  Effect, append_local, apply_committed, ok, send_request_vote_response,
}

module _ {F : Type 0} (m : Services F) where
  execute_storage :
      (rt : Runtime F) (f : Effect)
      → (execute m rt f).0.storage ≡ elim (to_persist (ok (some f))) as (λ _. List ℕ) [
        | none ↦ rt.storage
        | some s ↦ save_state rt.storage s
      ]
  unfolding execute apply_committed_entries
  execute_storage rt (apply_committed i through) =
      let first_unapplied = saturating_add rt.raft.last_applied 1 in
      ground (
        arith,
        (apply_entries-Same m (through + 1 - first_unapplied) first_unapplied rt).same_storage,
      )
  execute_storage rt (append_local i term index) = ground arith
  execute_storage rt (send_request_vote_response none p a) = refl
  execute_storage rt (send_request_vote_response (some s) p a) = refl
  execute_storage rt _ = ground arith

-- The file of the hard state after an effect: the state that the effect carries is saved, and an
-- effect that carries none leaves the file as it is, whatever becomes of the effect.
pub execute-storage :
    (F : Type 0) (m : Services F) (rt : Runtime F) (f : Effect)
    → (execute m rt f).0.storage ≡ elim (to_persist (ok (some f))) as (λ _. List ℕ) [
      | none ↦ rt.storage
      | some s ↦ save_state rt.storage s
    ]
execute-storage F m = execute_storage m
