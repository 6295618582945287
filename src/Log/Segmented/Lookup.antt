-- ===== src/Log/Segmented/Lookup.antt =====
-- src/log.rs: `read` against a search in the list of all records.
use raft_distributed_log_rs.Log.Segmented
use raft_distributed_log_rs.Log.Segment
use raft_distributed_log_rs.Log.Store
use raft_distributed_log_rs.Log.Io.{IoResult, done, failed, io_error, unexpected_eof}
use raft_distributed_log_rs.Log.Segment.{Segment}
use raft_distributed_log_rs.Log.Segment.Records.{HoldsRecords, reread}
use raft_distributed_log_rs.Log.Segment.Reopen.{IsConfigured}
use raft_distributed_log_rs.Log.Segmented.{Log, segment_config}
use raft_distributed_log_rs.Log.Segmented.Contents.{AllMapped, Chain, Represents}
use raft_distributed_log_rs.Log.Segmented.Reading.{
  Contains, Represents-Contains, read-Contains, read_out_of_range,
}
use raft_distributed_log_rs.Log.Store.{Store}
use raft_distributed_log_rs.Prelude.{
  Bool-cases, List, Option, Option-cases, [], ap, arith, dec_lt, get_elem?, if◌then◌else◌, inl, inr,
  length, ltb, none, refl, some, subst, suc, sym, true, zero, ℕ, ◌++◌, ◌+◌, ◌-◌, ◌∙◌, ◌∷◌, ◌≡◌, ◌≤◌,
  ◌⊎◌,
}

-- The reference: the record at an offset in a list that is numbered from `b` on.
abbrev found : Option (List ℕ) → IoResult (List ℕ)
found none = failed (io_error unexpected_eof "offset out of range")
found (some r) = done r

abbrev pub lookup : ℕ → List (List ℕ) → ℕ → IoResult (List ℕ)
lookup b all off =
    if ltb off b
    then failed (io_error unexpected_eof "offset out of range")
    else found (get_elem? all (off - b))

outside {ℓ} : {A : Type ℓ} (xs : List A) (i : ℕ) → get_elem? xs i ≡ none → length xs ≤ i
outside [] i h = omega arith
outside (x ∷ xs) zero h = cc
outside (x ∷ xs) (suc i) h = omega (arith, outside xs i h)

read_value :
    (l : Log) (b : ℕ) (all : List (List ℕ)) (off : ℕ)
    → Contains l b all
    → (Segmented.read l off).1 ≡ lookup b all off
read_value l b all off c = elim (dec_lt off b) [
  | yes below ↦
      let test : ltb off b ≡ true = ground arith in
      rw (test, read_out_of_range l b all off c (inl below)) refl
  | no inside ↦ elim (Option-cases (get_elem? all (off - b))) [
    | inl e ↦
        let beyond = outside all (off - b) e in
        ground (arith, e, read_out_of_range l b all off c (inr (omega arith)))
    | inr (r, e) ↦
        let split : b + (off - b) ≡ off = omega arith in
        let value = (read-Contains l b all (off - b) r c e).0 in
        let value' = rw split at value in ground (arith, e, value')
  ]
]

-- A segment, or the same with its buffer written out.
abbrev Flushed : Segment → Segment → Type 0
Flushed s s' = (s' ≡ s) ⊎ (s' ≡ record s { store = Store.flush s.store })

read-Flushed : (s : Segment) (off : ℕ) → Flushed s (Segment.read s off).0
unfolding Segment.read Store.read
read-Flushed s off = ground arith

HoldsRecords-Flushed :
    (s s' : Segment) (rs : List (List ℕ)) → Flushed s s' → HoldsRecords s rs → HoldsRecords s' rs
unfolding Store.read
HoldsRecords-Flushed s s' rs (inl e) h = rw e h
HoldsRecords-Flushed s s' rs (inr e) h =
    subst (λ (x : Segment). HoldsRecords x rs) (sym e) (reread s rs 0 h)

-- What a flush leaves alone.
record Alike (s s' : Segment) : Type 0 where
  same_base : s'.base_offset ≡ s.base_offset
  same_cfg : s'.cfg ≡ s.cfg
  same_index : s'.index ≡ s.index

Flushed-Alike : (s s' : Segment) → Flushed s s' → Alike s s'
Flushed-Alike s s' (inl e) = rw e (record { same_base = refl; same_cfg = refl; same_index = refl })
Flushed-Alike s s' (inr e) = rw e (record { same_base = refl; same_cfg = refl; same_index = refl })

abbrev AllFlushed : List Segment → List Segment → Type 0
AllFlushed [] [] = Unit {0}
AllFlushed (s ∷ ss) (s' ∷ ss') = Flushed s s' × AllFlushed ss ss'
AllFlushed _ _ = ⊥

AllFlushed-refl : (ss : List Segment) → AllFlushed ss ss
AllFlushed-refl [] = tt
AllFlushed-refl (s ∷ ss) = (inl refl, AllFlushed-refl ss)

read_segments-AllFlushed :
    (ss : List Segment) (off : ℕ) → AllFlushed ss (Segmented.read_segments ss off).0
unfolding Segmented.read_segments
read_segments-AllFlushed [] off = tt
read_segments-AllFlushed (s ∷ ss) off = elim (Bool-cases (Segment.is_in_range s off)) [
  | inl inside ↦ rw inside (read-Flushed s off, AllFlushed-refl ss)
  | inr out ↦ rw out (inl refl, read_segments-AllFlushed ss off)
]

configured :
    (cfg : Segmented.Config) (x x' : Segment)
    → Alike x x'
    → IsConfigured x × (x.cfg ≡ segment_config cfg)
    → IsConfigured x' × (x'.cfg ≡ segment_config cfg)
configured cfg x x' alike h = rw (alike.same_cfg, alike.same_index) h

-- The closed segments and the active one after a flush.
record Parts (cfg : Segmented.Config) (b : ℕ) (front : List Segment) (groups : List (List (List ℕ)))
    (act : Segment) (ss' : List Segment) : Type 0 where
  front' : List Segment
  act' : Segment
  shape : ss' ≡ front' ++ act' ∷ []
  same_length : length front' ≡ length front
  flushed : Flushed act act'
  chained : Chain b front' groups
  mapped : AllMapped cfg front'

parts :
    (cfg : Segmented.Config) (b : ℕ) (front : List Segment) (groups : List (List (List ℕ)))
    (act : Segment) (ss' : List Segment)
    → Chain b front groups
    → AllMapped cfg front
    → AllFlushed (front ++ act ∷ []) ss'
    → Parts cfg b front groups act ss'
parts cfg b [] [] act [] c m f = absurd f
parts cfg b [] [] act (s' ∷ []) c m f = record {
  front' = [];
  act' = s';
  shape = refl;
  same_length = refl;
  flushed = f.0;
  chained = tt;
  mapped = tt;
}
parts cfg b [] [] act (s' ∷ x ∷ ss') c m f = absurd f.1
parts cfg b [] (rs ∷ groups) act ss' c m f = absurd c
parts cfg b (s ∷ ss) [] act ss' c m f = absurd c
parts cfg b (s ∷ ss) (rs ∷ groups) act [] c m f = absurd f
parts cfg b (s ∷ ss) (rs ∷ groups) act (s' ∷ ss') c m f =
    let rest = parts cfg (b + length rs) ss groups act ss' c.2 m.1 f.1 in
    let alike = Flushed-Alike s s' f.0 in
    record {
      front' = s' ∷ rest.front';
      act' = rest.act';
      shape = ap (◌∷◌ s') rest.shape;
      same_length = ap suc rest.same_length;
      flushed = rest.flushed;
      chained = (alike.same_base ∙ c.0, HoldsRecords-Flushed s s' rs f.0 c.1, rest.chained);
      mapped = (configured cfg s s' alike m.0, rest.mapped);
    }

read-Represents :
    (l : Log) (b : ℕ) (all : List (List ℕ)) (off : ℕ)
    → Represents l b all
    → Represents (Segmented.read l off).0 b all
unfolding Segmented.read
read-Represents l b all off h =
    let ss' = (Segmented.read_segments l.segments off).0 in
    let p = parts l.cfg b h.front h.groups h.act ss' h.chained h.front_mapped (
      subst (λ (ss : List Segment). AllFlushed ss ss') h.shape
        (read_segments-AllFlushed l.segments off)) in
    let alike = Flushed-Alike h.act p.act' p.flushed in
    record {
      front = p.front';
      groups = h.groups;
      act = p.act';
      recent = h.recent;
      shape = p.shape;
      contents = h.contents;
      active = h.active ∙ sym p.same_length;
      chained = p.chained;
      act_base = alike.same_base ∙ h.act_base;
      act_holds = HoldsRecords-Flushed h.act p.act' h.recent p.flushed h.act_holds;
      act_mapped = (configured l.cfg h.act p.act' alike (h.act_mapped, h.act_cfg)).0;
      act_cfg = alike.same_cfg ∙ h.act_cfg;
      ready = rw alike.same_index h.ready;
      aligned = h.aligned;
      front_mapped = p.mapped;
      filled = h.filled;
      clean = h.clean;
    }

-- A read at any offset of a log that represents some records answers what the list of those
-- records, numbered from the first offset on, has at that offset, an error where it has none. The
-- log represents the same records afterwards.
pub read-lookup :
    (l : Log) (b : ℕ) (all : List (List ℕ)) (off : ℕ)
    → Represents l b all
    → ((Segmented.read l off).1 ≡ lookup b all off) × Represents (Segmented.read l off).0 b all
read-lookup l b all off h =
    (read_value l b all off (Represents-Contains l b all h), read-Represents l b all off h)
