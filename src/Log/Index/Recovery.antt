-- ===== src/Log/Index/Recovery.antt =====
-- src/log/index.rs: an index that is opened again, after `close` or after a crash that left the
-- mapped file behind, is the index that it was.
use raft_distributed_log_rs.Log.Index
use native.Mathlib.Nat.{le_refl}
use raft_distributed_log_rs.Log.Index.{Index, entire_width, off_width, position_width}
use raft_distributed_log_rs.Log.Index.Entries.{
  Written, encode_entries, encode_entry, length-encode_entries, length-encode_entry,
}
use raft_distributed_log_rs.Log.Index.Padding.{IsBlank-IsFresh, IsFresh}
use raft_distributed_log_rs.Log.Io.{done, set_len, slice, slice-append}
use raft_distributed_log_rs.Prelude.{
  List, [], ap, append-nil, append_assoc, arith, dec_lt, drop-append, from_be-to_be, inl, inr,
  length, length-append, length-replicate, length-take_le, length-to_be, refl, replicate, suc, sym,
  take, take-all, take-append, to_be, u32_mod, zero, ℕ, ◌%◌, ◌*◌, ◌++◌, ◌+◌, ◌-◌, ◌<◌, ◌∙◌, ◌∷◌,
  ◌≡◌, ◌≤◌,
}

-- The scan from entry `k` on stops behind the last entry, if it is given more rounds than there are
-- entries.
recovers :
    (fuel k : ℕ) (ps pre padding : List ℕ)
    → length ps < fuel
    → k + length ps < u32_mod
    → length pre ≡ k * entire_width
    → IsFresh (k + length ps) padding
    → Index.recover fuel (pre ++ (encode_entries k ps ++ padding)) (k * entire_width) k
      ≡ (k + length ps) * entire_width
unfolding Index.recover encode_entries
recovers zero k ps pre padding f s at fresh = absurd (omega arith)
recovers (suc fuel) k [] pre padding f s at fresh =
    let e : k + 0 ≡ k = omega arith in
    ground (
      arith,
      e,
      fresh,
      length-append pre padding,
      ap (take off_width) (drop-append pre padding (k * entire_width) at),
    )
recovers (suc fuel) k (p ∷ ps) pre padding f s at fresh =
    let rest = encode_entries (suc k) ps in
    let entry = encode_entry k p in
    let mmap = pre ++ ((entry ++ rest) ++ padding) in
    let mmap' = (pre ++ entry) ++ (rest ++ padding) in
    let off_field = to_be off_width k in
    let pos_field = to_be position_width p in
    let tail = rest ++ padding in
    let e : mmap ≡ mmap' =
      ap (◌++◌ pre) (append_assoc entry rest padding) ∙ sym (append_assoc pre entry tail) in
    let e₁ : mmap ≡ pre ++ (off_field ++ (pos_field ++ tail)) =
      ap (◌++◌ pre) (append_assoc entry rest padding ∙ append_assoc off_field pos_field tail) in
    let size : k * entire_width + entire_width ≡ suc k * entire_width = omega arith in
    let next : (k + 1) % u32_mod ≡ suc k = omega arith in
    let count : k + length (p ∷ ps) ≡ suc k + length ps = omega arith in
    let ih =
      recovers fuel (suc k) ps (pre ++ entry) padding (omega arith) (omega arith)
        (omega (arith, length-append pre entry, length-encode_entry k p)) (rw count at fresh) in
    let ih' : Index.recover fuel mmap (k * entire_width + entire_width) ((k + 1) % u32_mod)
        ≡ (k + length (p ∷ ps)) * entire_width =
      rw (e, size, next, count) ih in
    ground (
      arith,
      ih',
      ap (slice (k * entire_width) off_width) e₁
          ∙ slice-append pre off_field (pos_field ++ tail) (k * entire_width) off_width at
              (length-to_be off_width k),
      from_be-to_be off_width k (omega arith),
      ap length e,
      length-append (pre ++ entry) tail,
      length-append pre entry,
      length-encode_entry k p,
    )

-- The scan over the map finds the size again.
recover_size-Written :
    (ix : Index) (ps : List ℕ)
    → Written ix ps
    → length ps + 1 < u32_mod
    → Index.recover_size ix.mmap ≡ ix.size
unfolding Index.recover_size
recover_size-Written ix ps w small =
    let longer : length ps < suc (length ix.mmap) = omega (
      arith,
      ap length w.layout,
      length-append (encode_entries 0 ps) w.padding,
      length-encode_entries 0 ps,
    ) in
    let count : 0 + length ps ≡ length ps = omega arith in
    ap (λ (m : List ℕ). Index.recover (suc (length ix.mmap)) m 0 0) w.layout
    ∙ recovers (suc (length ix.mmap)) 0 ps [] w.padding longer (omega arith) refl
        (rw count (IsBlank-IsFresh (length ps) w.padding small w.blank))
    ∙ omega (arith, w.counted)

-- An index that was opened with this configuration has a map of its size.
abbrev pub IsMapped : Index → Index.Config → Type 0
IsMapped ix config = (length ix.mmap ≡ config.max_size_bytes) × (0 < config.max_size_bytes)

set_len_same : (bytes : List ℕ) → set_len (length bytes) bytes ≡ bytes
unfolding set_len
set_len_same bytes =
    let e : length bytes - length bytes ≡ 0 = omega arith in
    rw (e, take-all bytes (length bytes) (le_refl (length bytes))) (append-nil bytes)

-- After a crash the file is the whole map, and opening it gives the index that was lost, entry for
-- entry, for fewer than 2 ^ 32 - 1 entries.
pub new-after_crash :
    (ix : Index) (ps : List ℕ) (config : Index.Config)
    → Written ix ps
    → IsMapped ix config
    → length ps + 1 < u32_mod
    → Index.new ix.mmap config ≡ done ix
unfolding Index.new
new-after_crash ix ps config w (mapped, pos) small = ground (
  arith,
  ap (λ (n : ℕ). set_len n ix.mmap) mapped,
  set_len_same ix.mmap,
  recover_size-Written ix ps w small,
)

-- `close` leaves the bytes of the entries.
close-Written : (ix : Index) (ps : List ℕ) → Written ix ps → Index.close ix ≡ encode_entries 0 ps
unfolding Index.close set_len
close-Written ix ps w =
    let fits : ix.size - length ix.mmap ≡ 0 = omega (
      arith,
      w.counted,
      ap length w.layout,
      length-append (encode_entries 0 ps) w.padding,
      length-encode_entries 0 ps,
    ) in
    rw fits (
      append-nil (take ix.size ix.mmap)
      ∙ ap (take ix.size) w.layout
      ∙ take-append (encode_entries 0 ps) w.padding ix.size
          (length-encode_entries 0 ps ∙ sym w.counted))

-- The entries alone, extended to the size of the map.
abbrev extended : List ℕ → Index.Config → Index
extended ps config = record {
  mmap = set_len config.max_size_bytes (encode_entries 0 ps);
  size = length ps * entire_width;
}

extended-Written :
    (ps : List ℕ) (config : Index.Config)
    → 0 < length ps
    → length ps * entire_width ≤ config.max_size_bytes
    → Written (extended ps config) ps
unfolding set_len
extended-Written ps config some_entry fits = record {
  padding = replicate (config.max_size_bytes - length (encode_entries 0 ps)) 0;
  layout =
      ap (λ (m : List ℕ). m ++ replicate (config.max_size_bytes - length (encode_entries 0 ps)) 0)
        (take-all (encode_entries 0 ps) config.max_size_bytes
          (omega (arith, length-encode_entries 0 ps)));
  counted = refl;
  blank = inr (
    some_entry,
    ap (λ (n : ℕ). replicate n 0)
        (sym (length-replicate {A = ℕ} (config.max_size_bytes - length (encode_entries 0 ps)) 0)),
  );
}

pub length-set_len : (n : ℕ) (bytes : List ℕ) → length (set_len n bytes) ≡ n
unfolding set_len
length-set_len n bytes = elim (dec_lt n (length bytes)) [
  | yes shorter ↦ omega (
    arith,
    length-append (take n bytes) (replicate (n - length bytes) 0),
    length-take_le n bytes (omega arith),
    length-replicate {A = ℕ} (n - length bytes) 0,
  )
  | no longer ↦ omega (
    arith,
    length-append (take n bytes) (replicate (n - length bytes) 0),
    ap length (take-all bytes n (omega arith)),
    length-replicate {A = ℕ} (n - length bytes) 0,
  )
]

new-entries :
    (ps : List ℕ) (config : Index.Config)
    → 0 < length ps
    → length ps * entire_width ≤ config.max_size_bytes
    → length ps + 1 < u32_mod
    → Index.new (encode_entries 0 ps) config ≡ done (extended ps config)
unfolding Index.new
new-entries ps config some_entry fits small = ground (
  arith,
  length-encode_entries 0 ps,
  recover_size-Written (extended ps config) ps (extended-Written ps config some_entry fits) small,
)

-- After `close` the file ends behind the last entry, and opening it gives an index with the same
-- entries, the same size and a map of the same length, for fewer than 2 ^ 32 - 1 entries.
pub new-close :
    (ix : Index) (ps : List ℕ) (config : Index.Config)
    → Written ix ps
    → IsMapped ix config
    → length ps + 1 < u32_mod
    → (ix' : Index) × (Index.new (Index.close ix) config ≡ done ix')
      × Written ix' ps
      × (ix'.size ≡ ix.size)
      × (length ix'.mmap ≡ length ix.mmap)
new-close ix [] config w (mapped, pos) small = (
  record { mmap = replicate (length (set_len config.max_size_bytes [])) 255; size = 0 },
  rw (close-Written ix [] w) (unfold Index.new encode_entries in ground arith),
  record {
    padding = replicate (length (set_len config.max_size_bytes [])) 255;
    layout = unfold encode_entries in refl;
    counted = refl;
    blank = inl (
        ap (λ (n : ℕ). replicate n 255)
          (sym (length-replicate {A = ℕ} (length (set_len config.max_size_bytes [])) 255)));
  },
  sym w.counted,
  length-replicate {A = ℕ} (length (set_len config.max_size_bytes [])) 255
      ∙ length-set_len config.max_size_bytes []
      ∙ sym mapped,
)
new-close ix (p ∷ ps) config w (mapped, pos) small =
    let fits : length (p ∷ ps) * entire_width ≤ config.max_size_bytes = omega (
      arith,
      ap length w.layout,
      length-append (encode_entries 0 (p ∷ ps)) w.padding,
      length-encode_entries 0 (p ∷ ps),
    ) in
    (
      extended (p ∷ ps) config,
      rw (close-Written ix (p ∷ ps) w) (new-entries (p ∷ ps) config (omega arith) fits small),
      extended-Written (p ∷ ps) config (omega arith) fits,
      sym w.counted,
      length-set_len config.max_size_bytes (encode_entries 0 (p ∷ ps)) ∙ sym mapped,
    )
