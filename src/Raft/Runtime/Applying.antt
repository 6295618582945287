-- ===== src/Raft/Runtime/Applying.antt =====
-- src/raft/runtime.rs: what applying entries leaves alone.
use raft_distributed_log_rs.Log.Segmented
use raft_distributed_log_rs.Log.Io.{IoResult, done, failed, panicked}
use raft_distributed_log_rs.Log.Segmented.{Log}
use raft_distributed_log_rs.Prelude.{List, String, inl, inr, refl, suc, zero, ℕ, ◌+◌, ◌∙◌, ◌≡◌, ◌⊎◌}
use raft_distributed_log_rs.Raft.Runtime.Execution.{Ran, apply_entries, apply_entry, apply_read}
use raft_distributed_log_rs.Raft.Runtime.Start.{Runtime, Services}
use raft_distributed_log_rs.Raft.Types.{LogEntry, err, ok, panic}

-- All but the log and the state machine is the same.
pub record Same {F : Type 0} (rt rt' : Runtime F) : Type 0 where
  pub same_storage : rt'.storage ≡ rt.storage
  pub same_next : rt'.next_operation_id ≡ rt.next_operation_id
  pub same_operations : rt'.operations ≡ rt.operations
  pub same_replies : rt'.replies ≡ rt.replies

Same-trans : {F : Type 0} (a b c : Runtime F) → Same a b → Same b c → Same a c
Same-trans a b c h k = record {
  same_storage = k.same_storage ∙ h.same_storage;
  same_next = k.same_next ∙ h.same_next;
  same_operations = k.same_operations ∙ h.same_operations;
  same_replies = k.same_replies ∙ h.same_replies;
}

Same-refl : {F : Type 0} (a : Runtime F) → Same a a
Same-refl a = record {
  same_storage = refl;
  same_next = refl;
  same_operations = refl;
  same_replies = refl;
}

module _ {F : Type 0} (m : Services F) where
  apply_entry-Same : (rt : Runtime F) (d : String ⊎ LogEntry) → Same rt (apply_entry m rt d).0
  apply_entry-Same rt (inl e) = Same-refl rt
  apply_entry-Same rt (inr entry) = record {
    same_storage = refl;
    same_next = refl;
    same_operations = refl;
    same_replies = refl;
  }

  with_log : (rt : Runtime F) (l : Log) → Same rt (record rt { log = l })
  with_log rt l = record {
    same_storage = refl;
    same_next = refl;
    same_operations = refl;
    same_replies = refl;
  }

  apply_read-Same : (rt : Runtime F) (o : Log × IoResult (List ℕ)) → Same rt (apply_read m rt o).0
  apply_read-Same rt (l, done bytes) =
      Same-trans rt (record rt { log = l }) _ (with_log rt l) (apply_entry-Same _ (m.decode bytes))
  apply_read-Same rt (l, failed e) = with_log rt l
  apply_read-Same rt (l, panicked) = with_log rt l

  either_Same :
      (rt : Runtime F) (now rest : Ran F (Unit {0}))
      → Same rt now.0
      → Same rt rest.0
      → Same rt
          (elim now.1 as (λ _. Ran F (Unit {0})) [ ok _ ↦ rest | err e ↦ now | panic ↦ now ]).0
  either_Same rt (rt', ok _) rest h k = k
  either_Same rt (rt', err e) rest h k = h
  either_Same rt (rt', panic) rest h k = h

  pub apply_entries-Same :
      (count index : ℕ) (rt : Runtime F) → Same rt (apply_entries m count index rt).0
  unfolding apply_entries
  apply_entries-Same zero index rt = Same-refl rt
  apply_entries-Same (suc count) index rt =
      let now = apply_read m rt (Segmented.read rt.log index) in
      let first = apply_read-Same rt (Segmented.read rt.log index) in
      let rest = apply_entries-Same count (index + 1) now.0 in
      either_Same rt now _ first (Same-trans rt now.0 _ first rest)
