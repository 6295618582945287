-- ===== src/Log/Segmented/Truncation.antt =====
-- src/log.rs: `truncate` removes whole segments from the end, those that begin behind an offset.
use raft_distributed_log_rs.Log.Segmented
use raft_distributed_log_rs.Log.Segment
use raft_distributed_log_rs.Log.Io.{done}
use raft_distributed_log_rs.Log.Segment.{Segment}
use raft_distributed_log_rs.Log.Segmented.{Log}
use raft_distributed_log_rs.Log.Segmented.Contents.{Chain, flatten}
use raft_distributed_log_rs.Log.Segmented.Directory.{contains}
use raft_distributed_log_rs.Log.Segmented.Reading.{Contains, get_elem?-append_left, read-Contains}
use raft_distributed_log_rs.Prelude.{
  Bool-cases, List, Option-cases, [], ap, append-nil, append_assoc, arith, get_elem?, inl, inr,
  length, length-append, none, refl, some, suc, sym, zero, ℕ, ◌++◌, ◌+◌, ◌<◌, ◌∙◌, ◌∷◌, ◌≡◌, ◌≤◌,
}

-- The chain without its last segment.
pub pop-Chain :
    (b : ℕ) (ss : List Segment) (groups : List (List (List ℕ))) (s : Segment)
    → Chain b ss groups
    → Segmented.last? ss ≡ some s
    → (groups' : List (List (List ℕ))) × (rs : List (List ℕ)) × Chain b (Segmented.pop ss) groups'
      × (flatten groups ≡ flatten groups' ++ rs)
      × (s.base_offset ≡ b + length (flatten groups'))
unfolding Segmented.last? Segmented.pop
pop-Chain b [] groups s c e = cc
pop-Chain b (x ∷ ss) [] s c e = absurd c
pop-Chain b (x ∷ []) (rs ∷ []) s c e = ([], rs, tt, append-nil rs, ground (arith, c.0))
pop-Chain b (x ∷ []) (rs ∷ g ∷ groups) s c e = absurd c.2
pop-Chain b (x ∷ y ∷ ss) (rs ∷ groups) s c e =
    let (groups', last, c', joined, base) = pop-Chain (b + length rs) (y ∷ ss) groups s c.2 e in
    (
      rs ∷ groups',
      last,
      (c.0, c.1, c'),
      ap (◌++◌ rs) joined ∙ sym (append_assoc rs (flatten groups') last),
      omega (arith, base, length-append rs (flatten groups')),
    )

pub length-pop :
    (ss : List Segment) (s : Segment)
    → Segmented.last? ss ≡ some s
    → length ss ≡ suc (length (Segmented.pop ss))
unfolding Segmented.last? Segmented.pop
length-pop [] s e = cc
length-pop (x ∷ []) s e = refl
length-pop (x ∷ y ∷ ss) s e = ap suc (length-pop (y ∷ ss) s e)

-- The records up to an offset are those of another list, too.
abbrev pub KeepsUpTo : ℕ → ℕ → List (List ℕ) → List (List ℕ) → Type 0
KeepsUpTo b off all kept =
    (i : ℕ) (r : List ℕ) → b + i ≤ off → get_elem? all i ≡ some r → get_elem? kept i ≡ some r

-- The log still contains what stands up to the offset.
abbrev pub Truncates : ℕ → ℕ → List (List ℕ) → Log → Type 0
Truncates b off all l = (kept : List (List ℕ)) × Contains l b kept × KeepsUpTo b off all kept

-- The three ways that a round can go.
pub data Round (fuel : ℕ) (l : Log) (off : ℕ) : Type 0 where
  no_segment :
      Segmented.last? l.segments ≡ none
      → Segmented.truncate_loop (suc fuel) l off ≡ l
      → Round fuel l off
  stops :
      (s : Segment)
      → Segmented.last? l.segments ≡ some s
      → s.base_offset ≤ off
      → Segmented.truncate_loop (suc fuel) l off ≡ l
      → Round fuel l off
  drops :
      (s : Segment)
      → Segmented.last? l.segments ≡ some s
      → off < s.base_offset
      → Segmented.truncate_loop (suc fuel) l off
        ≡ Segmented.truncate_loop fuel (Segmented.drop_last l s) off
      → Round fuel l off

pub truncate-Round : (fuel : ℕ) (l : Log) (off : ℕ) → Round fuel l off
unfolding Segmented.truncate_loop
truncate-Round fuel l off = elim (Option-cases (Segmented.last? l.segments)) [
  | inl e ↦ no_segment e (rw (e, Segmented.truncate_loop))
  | inr (s, e) ↦ elim (Bool-cases (Segment.is_lesser_than_range s off)) [
    | inl lesser ↦ drops s e (ground arith) (rw (e, Segmented.truncate_loop) (rw lesser))
    | inr other ↦ stops s e (ground arith) (rw (e, Segmented.truncate_loop) (rw other))
  ]
]

dropping :
    (fuel : ℕ) (l : Log) (b off : ℕ) (all : List (List ℕ)) (s : Segment)
    → Segmented.last? l.segments ≡ some s
    → off < s.base_offset
    → Contains l b all
    → ((kept : List (List ℕ))
        → Contains (Segmented.drop_last l s) b kept
        → Truncates b off kept (Segmented.truncate_loop fuel (Segmented.drop_last l s) off))
    → Truncates b off all (Segmented.truncate_loop fuel (Segmented.drop_last l s) off)
unfolding Segmented.drop_last
dropping fuel l b off all s e h (groups, chain, joined) rest =
    let (groups', rs, chain', split, base) = pop-Chain b l.segments groups s chain e in
    let (kept, contains, keeps) = rest (flatten groups') (groups', chain', refl) in
    (
      kept,
      contains,
      λ i r low at. keeps i r low (
          sym (get_elem?-append_left (flatten groups') rs i (omega arith))
          ∙ ap (λ (xs : List (List ℕ)). get_elem? xs i) (sym (joined ∙ split))
          ∙ at),
    )

loop_Truncates :
    (fuel : ℕ) (l : Log) (b off : ℕ) (all : List (List ℕ))
    → Contains l b all
    → Truncates b off all (Segmented.truncate_loop fuel l off)
loop_Truncates zero l b off all c = unfold Segmented.truncate_loop in (all, c, λ i r low at. at)
loop_Truncates (suc fuel) l b off all c = elim (truncate-Round fuel l off) [
  | no_segment e v ↦ rw v (all, c, λ i r low at. at)
  | stops s e h v ↦ rw v (all, c, λ i r low at. at)
  | drops s e h v ↦ rw v (
      dropping fuel l b off all s e h c
        (λ kept. loop_Truncates fuel (Segmented.drop_last l s) b off kept))
]

loop_cuts :
    (fuel : ℕ) (l : Log) (off : ℕ) (s : Segment)
    → length l.segments ≤ fuel
    → Segmented.last? (Segmented.truncate_loop fuel l off).segments ≡ some s
    → s.base_offset ≤ off
loop_cuts zero l off s enough e =
    let e' : Segmented.last? l.segments ≡ some s = unfold Segmented.truncate_loop in e in
    absurd (omega (arith, length-pop l.segments s e'))
loop_cuts (suc fuel) l off s enough e = elim (truncate-Round fuel l off) [
  | no_segment e' v ↦ let e₁ = rw v at e in cc
  | stops s' e' h v ↦ let e₁ = rw v at e in ground arith
  | drops s' e' h v ↦
      loop_cuts fuel (Segmented.drop_last l s') off s
        (unfold Segmented.drop_last in omega (arith, length-pop l.segments s' e')) (rw v at e)
]

-- A truncated log contains a list of records that agrees with the old one up to the offset.
pub truncate-Truncates :
    (l : Log) (b off : ℕ) (all : List (List ℕ))
    → Contains l b all
    → Truncates b off all (Segmented.truncate l off)
unfolding Segmented.truncate
truncate-Truncates l b off all c = loop_Truncates (length l.segments) l b off all c

-- After a truncation the last segment that is left begins at the offset or before it: no segment
-- behind it stays, however many there were.
pub truncate_cuts :
    (l : Log) (off : ℕ) (s : Segment)
    → Segmented.last? (Segmented.truncate l off).segments ≡ some s
    → s.base_offset ≤ off
unfolding Segmented.truncate
truncate_cuts l off s e = loop_cuts (length l.segments) l off s (omega arith) e

-- Every record up to the offset of a truncation is still read back at its offset.
pub read-truncate :
    (l : Log) (b off : ℕ) (all : List (List ℕ)) (i : ℕ) (r : List ℕ)
    → Contains l b all
    → b + i ≤ off
    → get_elem? all i ≡ some r
    → (Segmented.read (Segmented.truncate l off) (b + i)).1 ≡ done r
read-truncate l b off all i r c low at =
    let (kept, contains, keeps) = truncate-Truncates l b off all c in
    (read-Contains _ b kept i r contains (keeps i r low at)).0
