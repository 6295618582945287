-- ===== src/Log/Index/Entries.antt =====
-- src/log/index.rs: the index as the list of the positions written to it.
use raft_distributed_log_rs.Log.Index
use native.Mathlib.Nat.{add-zero}
use raft_distributed_log_rs.Log.Index.{Index, entire_width, off_width, position_width}
use raft_distributed_log_rs.Log.Index.Padding.{IsBlank, IsBlank-drop}
use raft_distributed_log_rs.Log.Io.{copy_into, copy_into-copy_into, done, slice, slice-append}
use raft_distributed_log_rs.Prelude.{
  List, [], ap, append-nil, append_assoc, arith, drop, drop-drop, from_be-to_be, get_elem?, length,
  length-append, length-drop, length-take_le, length-to_be, refl, some, suc, sym, take,
  take-append-drop, to_be, u32_mod, u64_mod, zero, ℕ, ◌*◌, ◌++◌, ◌+◌, ◌<◌, ◌∙◌, ◌∷◌, ◌≡◌, ◌≤◌,
}

-- The entries of the positions, numbered from `i`.
abbrev pub encode_entry : ℕ → ℕ → List ℕ
encode_entry i pos = to_be off_width i ++ to_be position_width pos

unfoldable pub encode_entries : ℕ → List ℕ → List ℕ
encode_entries i [] = []
encode_entries i (pos ∷ ps) = encode_entry i pos ++ encode_entries (suc i) ps

-- The map holds the entries and then `padding`.
pub record Written (ix : Index) (ps : List ℕ) : Type 0 where
  pub padding : List ℕ
  pub layout : ix.mmap ≡ encode_entries 0 ps ++ padding
  pub counted : ix.size ≡ length ps * entire_width
  pub blank : IsBlank (length ps) padding

pub length-encode_entry : (i pos : ℕ) → length (encode_entry i pos) ≡ entire_width
length-encode_entry i pos = omega (
  arith,
  length-append (to_be off_width i) (to_be position_width pos),
  length-to_be off_width i,
  length-to_be position_width pos,
)

pub length-encode_entries :
    (i : ℕ) (ps : List ℕ) → length (encode_entries i ps) ≡ length ps * entire_width
unfolding encode_entries
length-encode_entries i [] = refl
length-encode_entries i (pos ∷ ps) = omega (
  arith,
  length-append (encode_entry i pos) (encode_entries (suc i) ps),
  length-encode_entry i pos,
  length-encode_entries (suc i) ps,
)

encode_entries-append :
    (i : ℕ) (ps : List ℕ) (pos : ℕ)
    → encode_entries i (ps ++ pos ∷ []) ≡ encode_entries i ps ++ encode_entry (i + length ps) pos
unfolding encode_entries
encode_entries-append i [] pos =
    append-nil (encode_entry i pos) ∙ ap (λ (k : ℕ). encode_entry k pos) (omega arith)
encode_entries-append i (p ∷ ps) pos = ground (
  arith,
  encode_entries-append (suc i) ps pos,
  append_assoc (encode_entry i p) (encode_entries (suc i) ps)
      (encode_entry (suc i + length ps) pos),
)

-- Room for one entry in the padding, split into its two fields.
split_padding :
    (padding : List ℕ)
    → entire_width ≤ length padding
    → (padding
        ≡ take off_width padding
          ++ (take position_width (drop off_width padding) ++ drop entire_width padding))
      × (length (take off_width padding) ≡ off_width)
      × (length (take position_width (drop off_width padding)) ≡ position_width)
split_padding padding h = (
  take-append-drop off_width padding
      ∙ ap (◌++◌ (take off_width padding)) (
          take-append-drop position_width (drop off_width padding)
          ∙ ap (◌++◌ (take position_width (drop off_width padding)))
              (drop-drop off_width position_width padding)),
  length-take_le off_width padding (omega arith),
  length-take_le position_width (drop off_width padding)
      (omega (arith, length-drop off_width padding)),
)

write_room :
    (ix : Index) (offset pos : ℕ)
    → ix.size + entire_width ≤ length ix.mmap
    → Index.write ix offset pos ≡ (
      record {
        mmap =
            copy_into
              (copy_into ix.mmap ix.size (to_be off_width offset))
              (ix.size + off_width)
              (to_be position_width pos);
        size = ix.size + entire_width;
      },
      done tt,
    )
unfolding Index.write
write_room ix offset pos room = ground arith

-- Writing the two fields over the start of the padding.
fields_over_padding :
    (xs padding : List ℕ) (n offset pos : ℕ)
    → length xs ≡ n
    → entire_width ≤ length padding
    → copy_into
        (copy_into (xs ++ padding) n (to_be off_width offset))
        (n + off_width)
        (to_be position_width pos)
      ≡ (xs ++ encode_entry offset pos) ++ drop entire_width padding
fields_over_padding xs padding n offset pos at room =
    let (e, size_off, size_pos) = split_padding padding room in
    let off_field = to_be off_width offset in
    let pos_field = to_be position_width pos in
    let w : length off_field ≡ off_width = length-to_be off_width offset in
    let both =
      copy_into-copy_into xs (take off_width padding) (take position_width (drop off_width padding))
        off_field pos_field (drop entire_width padding) n at (size_off ∙ sym w)
        (size_pos ∙ sym (length-to_be position_width pos)) in
    let before =
      ap (λ (k : ℕ). copy_into (copy_into (xs ++ padding) n off_field) (n + k) pos_field) (sym w) in
    before
    ∙ ap
        (λ (p : List ℕ).
          copy_into (copy_into (xs ++ p) n off_field) (n + length off_field) pos_field)
        e
    ∙ both
    ∙ ap (◌++◌ xs) (sym (append_assoc off_field pos_field (drop entire_width padding)))
    ∙ sym (append_assoc xs (encode_entry offset pos) (drop entire_width padding))

-- A write that finds room adds one entry, numbered by the count of entries before it, and keeps
-- the size of the map.
pub write-Written :
    (ix : Index) (ps : List ℕ) (pos : ℕ)
    → Written ix ps
    → ix.size + entire_width ≤ length ix.mmap
    → ((Index.write ix (length ps) pos).1 ≡ done tt)
      × Written (Index.write ix (length ps) pos).0 (ps ++ pos ∷ [])
      × (length (Index.write ix (length ps) pos).0.mmap ≡ length ix.mmap)
write-Written ix ps pos w room = rw (write_room ix (length ps) pos room) (
  refl,
  record {
    padding = drop entire_width w.padding;
    layout = layout;
    counted = counted;
    blank =
        IsBlank-drop entire_width (length ps) (length (ps ++ pos ∷ [])) w.padding
          (omega (arith, length-append ps (pos ∷ []))) w.blank;
  },
  same,
)
  where
    padded : entire_width ≤ length w.padding
    padded = omega (
      arith,
      ap length w.layout,
      length-append (encode_entries 0 ps) w.padding,
      length-encode_entries 0 ps,
    )

    mmap' : List ℕ
    mmap' =
        copy_into (copy_into ix.mmap ix.size (to_be off_width (length ps))) (ix.size + off_width)
          (to_be position_width pos)

    appended :
        encode_entries 0 (ps ++ pos ∷ []) ≡ encode_entries 0 ps ++ encode_entry (length ps) pos
    appended =
        encode_entries-append 0 ps pos
        ∙ ap (λ (k : ℕ). encode_entries 0 ps ++ encode_entry k pos) (omega arith)

    layout : mmap' ≡ encode_entries 0 (ps ++ pos ∷ []) ++ drop entire_width w.padding
    layout =
        ap
          (λ (m : List ℕ).
            copy_into (copy_into m ix.size (to_be off_width (length ps))) (ix.size + off_width)
              (to_be position_width pos))
          w.layout
        ∙ fields_over_padding (encode_entries 0 ps) w.padding ix.size (length ps) pos
            (length-encode_entries 0 ps ∙ sym w.counted) padded
        ∙ ap (λ (m : List ℕ). m ++ drop entire_width w.padding) (sym appended)

    counted : ix.size + entire_width ≡ length (ps ++ pos ∷ []) * entire_width
    counted = omega (arith, length-append ps (pos ∷ []))

    same : length mmap' ≡ length ix.mmap
    same = omega (
      arith,
      ap length layout,
      ap length w.layout,
      length-append (encode_entries 0 ps) w.padding,
      length-append (encode_entries 0 (ps ++ pos ∷ [])) (drop entire_width w.padding),
      length-encode_entries 0 ps,
      length-encode_entries 0 (ps ++ pos ∷ []),
      length-append ps (pos ∷ []),
      length-drop entire_width w.padding,
    )

-- Where an entry stands.
entry_at :
    (i : ℕ) (ps : List ℕ) (k pos : ℕ)
    → get_elem? ps k ≡ some pos
    → (xs : List ℕ) × (ys : List ℕ) × (encode_entries i ps ≡ xs ++ (encode_entry (i + k) pos ++ ys))
      × (length xs ≡ k * entire_width)
unfolding encode_entries
entry_at i [] k pos h = cc
entry_at i (p ∷ ps) zero pos h = ([], encode_entries (suc i) ps, rw add-zero (ground arith), refl)
entry_at i (p ∷ ps) (suc k) pos h =
    let (xs, ys, e, at) = entry_at (suc i) ps k pos h in
    (
      encode_entry i p ++ xs,
      ys,
      ap (◌++◌ (encode_entry i p)) e
          ∙ sym (append_assoc (encode_entry i p) xs (encode_entry (suc i + k) pos ++ ys))
          ∙ ap (λ (n : ℕ). (encode_entry i p ++ xs) ++ (encode_entry n pos ++ ys)) (omega arith),
      omega (arith, length-append (encode_entry i p) xs, length-encode_entry i p),
    )

pub lt_of_get_elem? {ℓ} :
    {A : Type ℓ} (xs : List A) (i : ℕ) (a : A) → get_elem? xs i ≡ some a → i < length xs
lt_of_get_elem? [] i a h = cc
lt_of_get_elem? (x ∷ xs) zero a h = omega arith
lt_of_get_elem? (x ∷ xs) (suc i) a h = omega (arith, lt_of_get_elem? xs i a h)

-- Every entry written is read back under its number.
pub read-Written :
    (ix : Index) (ps : List ℕ) (i pos : ℕ)
    → Written ix ps
    → get_elem? ps i ≡ some pos
    → i < u32_mod
    → pos < u64_mod
    → Index.read ix i ≡ done (i, pos)
unfolding Index.read
read-Written ix ps i pos w h small_i small_pos =
    let (xs, ys, e, at) = entry_at 0 ps i pos h in
    let off_field = to_be off_width (0 + i) in
    let pos_field = to_be position_width pos in
    let tail = ys ++ w.padding in
    let e₁ : ix.mmap ≡ xs ++ (off_field ++ (pos_field ++ tail)) =
      w.layout
      ∙ ap (λ (m : List ℕ). m ++ w.padding) e
      ∙ append_assoc xs (encode_entry (0 + i) pos ++ ys) w.padding
      ∙ ap (◌++◌ xs) (
          append_assoc (encode_entry (0 + i) pos) ys w.padding
          ∙ append_assoc off_field pos_field tail) in
    let e₂ : ix.mmap ≡ (xs ++ off_field) ++ (pos_field ++ tail) =
      e₁ ∙ sym (append_assoc xs off_field (pos_field ++ tail)) in
    let first =
      slice-append xs off_field (pos_field ++ tail) (i * entire_width) off_width at
        (length-to_be off_width (0 + i)) in
    let second =
      slice-append (xs ++ off_field) pos_field tail (i * entire_width + off_width) position_width
        (omega (arith, length-append xs off_field, length-to_be off_width (0 + i)))
        (length-to_be position_width pos) in
    ground (
      arith,
      ap (slice (i * entire_width) off_width) e₁ ∙ first,
      ap (slice (i * entire_width + off_width) position_width) e₂ ∙ second,
      from_be-to_be off_width (0 + i) (omega arith),
      from_be-to_be position_width pos small_pos,
      lt_of_get_elem? ps i pos h,
      ap length w.layout,
      length-append (encode_entries 0 ps) w.padding,
      length-encode_entries 0 ps,
    )
