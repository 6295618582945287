-- ===== src/Log/Segmented/Contents.antt =====
-- src/log.rs: the log as one list of records, numbered from the base offset of its first segment.
use raft_distributed_log_rs.Log.Segmented
use raft_distributed_log_rs.Log.Index.{entire_width}
use raft_distributed_log_rs.Log.Segment.{Segment}
use raft_distributed_log_rs.Log.Segment.Fresh.{no_files}
use raft_distributed_log_rs.Log.Segment.Records.{HoldsRecords}
use raft_distributed_log_rs.Log.Segment.Reopen.{IsConfigured}
use raft_distributed_log_rs.Log.Segmented.{Log, segment_config}
use raft_distributed_log_rs.Prelude.{
  List, [], ap, append-nil, append_assoc, arith, get_elem?, length, length-append, refl, some, sym,
  ℕ, ◌%◌, ◌++◌, ◌+◌, ◌<◌, ◌∙◌, ◌∷◌, ◌≡◌, ◌≤◌,
}

-- The records of all groups, in order.
abbrev pub flatten : List (List (List ℕ)) → List (List ℕ)
flatten [] = []
flatten (rs ∷ groups) = rs ++ flatten groups

-- Segments that follow one another from an offset on, with the records that each holds.
abbrev pub Chain : ℕ → List Segment → List (List (List ℕ)) → Type 0
Chain b [] [] = Unit {0}
Chain b (s ∷ ss) (rs ∷ groups) =
    (s.base_offset ≡ b) × HoldsRecords s rs × Chain (b + length rs) ss groups
Chain b _ _ = ⊥

-- Every segment was opened with the configuration of the log.
abbrev pub AllMapped : Segmented.Config → List Segment → Type 0
AllMapped cfg [] = Unit {0}
AllMapped cfg (s ∷ ss) = (IsConfigured s × (s.cfg ≡ segment_config cfg)) × AllMapped cfg ss

-- No closed segment is empty.
abbrev pub AllFilled : List (List (List ℕ)) → Type 0
AllFilled [] = Unit {0}
AllFilled (rs ∷ groups) = (0 < length rs) × AllFilled groups

-- The log holds these records from offset `b` on: closed segments, and an active one with room
-- for an entry in its index. No files stand where the next segment will.
pub record Represents (l : Log) (b : ℕ) (all : List (List ℕ)) : Type 0 where
  pub front : List Segment
  pub groups : List (List (List ℕ))
  pub act : Segment
  pub recent : List (List ℕ)
  pub shape : l.segments ≡ front ++ act ∷ []
  pub contents : all ≡ flatten groups ++ recent
  pub active : l.active_index ≡ length front
  pub chained : Chain b front groups
  pub act_base : act.base_offset ≡ b + length (flatten groups)
  pub act_holds : HoldsRecords act recent
  pub act_mapped : IsConfigured act
  pub act_cfg : act.cfg ≡ segment_config l.cfg
  pub ready : act.index.size + entire_width ≤ length act.index.mmap
  pub aligned : l.cfg.max_size_bytes % entire_width ≡ 0
  pub front_mapped : AllMapped l.cfg front
  pub filled : AllFilled groups
  pub clean : (off : ℕ) → b + length all < off → l.disk off ≡ no_files

pub flatten-append :
    (groups : List (List (List ℕ))) (rs : List (List ℕ))
    → flatten (groups ++ rs ∷ []) ≡ flatten groups ++ rs
flatten-append [] rs = append-nil rs
flatten-append (r ∷ groups) rs =
    ap (◌++◌ r) (flatten-append groups rs) ∙ sym (append_assoc r (flatten groups) rs)

pub Chain-append :
    (b : ℕ) (ss : List Segment) (groups : List (List (List ℕ))) (s : Segment) (rs : List (List ℕ))
    → Chain b ss groups
    → s.base_offset ≡ b + length (flatten groups)
    → HoldsRecords s rs
    → Chain b (ss ++ s ∷ []) (groups ++ rs ∷ [])
Chain-append b [] [] s rs c base h = (base ∙ omega arith, h, tt)
Chain-append b [] (r ∷ groups) s rs c base h = absurd c
Chain-append b (x ∷ ss) [] s rs c base h = absurd c
Chain-append b (x ∷ ss) (r ∷ groups) s rs c base h = (
  c.0,
  c.1,
  Chain-append (b + length r) ss groups s rs c.2 (omega (arith, length-append r (flatten groups)))
      h,
)

pub AllMapped-append :
    (cfg : Segmented.Config) (ss : List Segment) (s : Segment)
    → AllMapped cfg ss
    → IsConfigured s × (s.cfg ≡ segment_config cfg)
    → AllMapped cfg (ss ++ s ∷ [])
AllMapped-append cfg [] s h m = (m, tt)
AllMapped-append cfg (x ∷ ss) s h m = (h.0, AllMapped-append cfg ss s h.1 m)

pub AllFilled-append :
    (groups : List (List (List ℕ))) (rs : List (List ℕ))
    → AllFilled groups
    → 0 < length rs
    → AllFilled (groups ++ rs ∷ [])
AllFilled-append [] rs h m = (m, tt)
AllFilled-append (x ∷ groups) rs h m = (h.0, AllFilled-append groups rs h.1 m)

module _ {ℓ} {A : Type ℓ} where
  pub get_elem?-last : (xs : List A) (x : A) → get_elem? (xs ++ x ∷ []) (length xs) ≡ some x
  get_elem?-last [] x = refl
  get_elem?-last (y ∷ xs) x = get_elem?-last xs x

  pub set-last : (xs : List A) (x y : A) → Segmented.set (xs ++ x ∷ []) (length xs) y ≡ xs ++ y ∷ []
  set-last [] x y = refl
  set-last (z ∷ xs) x y = ap (◌∷◌ z) (set-last xs x y)
