-- ===== src/Log/Index/Padding.antt =====
-- src/log/index.rs: the part of the map that no entry has been written to. It is filled with 0xFF
-- in a new file, and with zeros where a file that was cut at its entries is extended again.
use raft_distributed_log_rs.Log.Index.{entire_width, off_width}
use raft_distributed_log_rs.Prelude.{
  List, ap, arith, dec_lt, drop, from_be, inl, inr, length, length-drop, refl, replicate, suc, sym,
  take, u32_mod, zero, ℕ, ◌+◌, ◌-◌, ◌<◌, ◌∙◌, ◌∷◌, ◌≡◌, ◌≢◌, ◌≤◌, ◌⊎◌,
}

-- Behind `n` entries: all 0xFF, or, with at least one entry before, all zeros.
abbrev pub IsBlank : ℕ → List ℕ → Type 0
IsBlank n padding =
    (padding ≡ replicate (length padding) 255)
    ⊎ ((0 < n) × (padding ≡ replicate (length padding) 0))

-- What `recover_size` needs in order to stop behind `n` entries.
abbrev pub IsFresh : ℕ → List ℕ → Type 0
IsFresh n padding = (length padding < entire_width) ⊎ (from_be (take off_width padding) ≢ n)

drop-replicate : (m n b : ℕ) → drop m (replicate n b) ≡ replicate (n - m) b
drop-replicate zero n b = ap (λ (k : ℕ). replicate k b) (omega arith)
drop-replicate (suc m) zero b = let e : 0 - suc m ≡ 0 = omega arith in rw e
drop-replicate (suc m) (suc n) b =
    drop-replicate m n b ∙ ap (λ (k : ℕ). replicate k b) (omega arith)

take-replicate : (m n b : ℕ) → m ≤ n → take m (replicate n b) ≡ replicate m b
take-replicate zero n b h = refl
take-replicate (suc m) zero b h = absurd (omega arith)
take-replicate (suc m) (suc n) b h = ap (◌∷◌ b) (take-replicate m n b (omega arith))

blank_drop :
    (m b : ℕ) (padding : List ℕ)
    → padding ≡ replicate (length padding) b
    → drop m padding ≡ replicate (length (drop m padding)) b
blank_drop m b padding e =
    ap (drop m) e
    ∙ drop-replicate m (length padding) b
    ∙ ap (λ (k : ℕ). replicate k b) (sym (length-drop m padding))

pub IsBlank-drop :
    (m n k : ℕ) (padding : List ℕ) → n ≤ k → IsBlank n padding → IsBlank k (drop m padding)
IsBlank-drop m n k padding h (inl e) = inl (blank_drop m 255 padding e)
IsBlank-drop m n k padding h (inr (some_entry, e)) = inr (omega arith, blank_drop m 0 padding e)

field_of :
    (b : ℕ) (padding : List ℕ)
    → padding ≡ replicate (length padding) b
    → entire_width ≤ length padding
    → from_be (take off_width padding) ≡ from_be (replicate off_width b)
field_of b padding e h =
    ap (λ (p : List ℕ). from_be (take off_width p)) e
    ∙ ap from_be (take-replicate off_width (length padding) b (omega arith))

ones_field : from_be (replicate off_width 255) ≡ 4294967295
unfolding from_be
ones_field = refl

zeros_field : from_be (replicate off_width 0) ≡ 0
unfolding from_be
zeros_field = refl

pub IsBlank-IsFresh :
    (n : ℕ) (padding : List ℕ) → n + 1 < u32_mod → IsBlank n padding → IsFresh n padding
IsBlank-IsFresh n padding small blank = elim (dec_lt (length padding) entire_width) [
  | yes short ↦ inl short
  | no long ↦ inr (unlike blank long)
]
  where
    unlike :
        IsBlank n padding → ¬ (length padding < entire_width) → from_be (take off_width padding) ≢ n
    unlike (inl e) long same = omega (arith, field_of 255 padding e (omega arith), ones_field)
    unlike (inr (some_entry, e)) long same =
        omega (arith, field_of 0 padding e (omega arith), zeros_field)
