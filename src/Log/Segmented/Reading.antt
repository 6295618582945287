-- ===== src/Log/Segmented/Reading.antt =====
-- src/log.rs: `read` finds the segment of an offset and reads the record there.
use raft_distributed_log_rs.Log.Segmented
use raft_distributed_log_rs.Log.Segment
use raft_distributed_log_rs.Log.Io.{done, failed, io_error, unexpected_eof}
use raft_distributed_log_rs.Log.Segment.{Segment}
use raft_distributed_log_rs.Log.Segment.Records.{HoldsRecords, read-HoldsRecords}
use raft_distributed_log_rs.Log.Segmented.{Log}
use raft_distributed_log_rs.Log.Segmented.Contents.{
  Chain, Chain-append, Represents, flatten, flatten-append,
}
use raft_distributed_log_rs.Prelude.{
  List, [], ap, arith, dec_lt, false, get_elem?, length, length-append, refl, some, subst, suc, sym,
  true, zero, ℕ, ◌++◌, ◌+◌, ◌-◌, ◌<◌, ◌∙◌, ◌∷◌, ◌≡◌, ◌≤◌, ◌⊎◌,
}

-- The segments follow one another from offset `b` on and hold these records.
abbrev pub Contains : Log → ℕ → List (List ℕ) → Type 0
Contains l b all =
    (groups : List (List (List ℕ))) × Chain b l.segments groups × (all ≡ flatten groups)

pub Represents-Contains :
    (l : Log) (b : ℕ) (all : List (List ℕ)) → Represents l b all → Contains l b all
Represents-Contains l b all h = (
  h.groups ++ h.recent ∷ [],
  subst (λ (ss : List Segment). Chain b ss (h.groups ++ h.recent ∷ [])) (sym h.shape)
      (Chain-append b h.front h.groups h.act h.recent h.chained h.act_base h.act_holds),
  h.contents ∙ sym (flatten-append h.groups h.recent),
)

pub get_elem?-append_left {ℓ} :
    {A : Type ℓ} (xs ys : List A) (i : ℕ) → i < length xs → get_elem? (xs ++ ys) i ≡ get_elem? xs i
get_elem?-append_left [] ys i h = absurd (omega arith)
get_elem?-append_left (x ∷ xs) ys zero h = refl
get_elem?-append_left (x ∷ xs) ys (suc i) h = get_elem?-append_left xs ys i (omega arith)

get_elem?-append_right {ℓ} :
    {A : Type ℓ} (xs ys : List A) (i : ℕ)
    → length xs ≤ i
    → get_elem? (xs ++ ys) i ≡ get_elem? ys (i - length xs)
get_elem?-append_right [] ys i h = let e : i - 0 ≡ i = omega arith in rw e
get_elem?-append_right (x ∷ xs) ys zero h = absurd (omega arith)
get_elem?-append_right (x ∷ xs) ys (suc i) h =
    let e : suc i - suc (length xs) ≡ i - length xs = omega arith in
    rw e (get_elem?-append_right xs ys i (omega arith))

base_offset-read : (s : Segment) (off : ℕ) → (Segment.read s off).0.base_offset ≡ s.base_offset
unfolding Segment.read
base_offset-read s off = ground arith

-- The segment that holds the record reads it.
read_here :
    (b : ℕ) (s : Segment) (rs : List (List ℕ)) (i : ℕ) (r : List ℕ)
    → s.base_offset ≡ b
    → HoldsRecords s rs
    → get_elem? rs i ≡ some r
    → ((Segment.read s (b + i)).1 ≡ done r) × HoldsRecords (Segment.read s (b + i)).0 rs
read_here b s rs i r base h at =
    subst
      (λ (n : ℕ).
        ((Segment.read s (n + i)).1 ≡ done r) × HoldsRecords (Segment.read s (n + i)).0 rs)
      base (read-HoldsRecords s rs i r h at)

read_found :
    (b : ℕ) (ss : List Segment) (groups : List (List (List ℕ))) (i : ℕ) (r : List ℕ)
    → Chain b ss groups
    → get_elem? (flatten groups) i ≡ some r
    → ((Segmented.read_segments ss (b + i)).1 ≡ done r)
      × Chain b (Segmented.read_segments ss (b + i)).0 groups
unfolding Segmented.read_segments
read_found b [] [] i r c at = cc
read_found b [] (rs ∷ groups) i r c at = absurd c
read_found b (s ∷ ss) [] i r c at = absurd c
read_found b (s ∷ ss) (rs ∷ groups) i r c at = elim (dec_lt i (length rs)) [
  | yes here ↦
      let inside : Segment.is_in_range s (b + i) ≡ true = ground (arith, c.0, c.1.next) in
      let found =
        read_here b s rs i r c.0 c.1
          (sym (get_elem?-append_left rs (flatten groups) i here) ∙ at) in
      rw inside (found.0, (base_offset-read s (b + i) ∙ c.0, found.1, c.2))
  | no later ↦
      let outside : Segment.is_in_range s (b + i) ≡ false = ground (arith, c.0, c.1.next) in
      let split : b + length rs + (i - length rs) ≡ b + i = omega arith in
      let rest =
        read_found (b + length rs) ss groups (i - length rs) r c.2
          (sym (get_elem?-append_right rs (flatten groups) i (omega arith)) ∙ at) in
      let rest' = rw split at rest in rw outside (rest'.0, (c.0, c.1, rest'.1))
]

-- Every record of the log is read back at its offset, whichever segment holds it, and the log
-- still contains them all.
pub read-Contains :
    (l : Log) (b : ℕ) (all : List (List ℕ)) (i : ℕ) (r : List ℕ)
    → Contains l b all
    → get_elem? all i ≡ some r
    → ((Segmented.read l (b + i)).1 ≡ done r) × Contains (Segmented.read l (b + i)).0 b all
unfolding Segmented.read
read-Contains l b all i r (groups, c, e) at =
    let (value, kept) =
      read_found b l.segments groups i r c
        (ap (λ (xs : List (List ℕ)). get_elem? xs i) (sym e) ∙ at) in
    (value, (groups, kept, e))

none_in_range :
    (b : ℕ) (ss : List Segment) (groups : List (List (List ℕ))) (off : ℕ)
    → Chain b ss groups
    → ((off < b) ⊎ (b + length (flatten groups) ≤ off))
    → Segmented.read_segments ss off ≡ (ss, failed (io_error unexpected_eof "offset out of range"))
unfolding Segmented.read_segments
none_in_range b [] [] off c out = refl
none_in_range b [] (rs ∷ groups) off c out = absurd c
none_in_range b (s ∷ ss) [] off c out = absurd c
none_in_range b (s ∷ ss) (rs ∷ groups) off c out =
    let out' : (off < b + length rs) ⊎ (b + length rs + length (flatten groups) ≤ off) =
      ground (arith, length-append rs (flatten groups)) in
    let outside : Segment.is_in_range s off ≡ false =
      ground (arith, c.0, c.1.next, length-append rs (flatten groups)) in
    rw (outside, none_in_range (b + length rs) ss groups off c.2 out')

-- A read before the first or behind the last record fails and changes nothing.
pub read_out_of_range :
    (l : Log) (b : ℕ) (all : List (List ℕ)) (off : ℕ)
    → Contains l b all
    → ((off < b) ⊎ (b + length all ≤ off))
    → Segmented.read l off ≡ (l, failed (io_error unexpected_eof "offset out of range"))
unfolding Segmented.read
read_out_of_range l b all off (groups, c, e) out =
    rw (none_in_range b l.segments groups off c (ground (arith, ap length e)))
