-- ===== src/Log/Segmented/Directory/Decimals.antt =====
-- src/log.rs, src/log/segment.rs: the names under which a segment creates its files.
use native.Mathlib.Nat.{pow-suc}
use raft_distributed_log_rs.Log.Segmented.Directory.{
  decimal, file_name, index_suffix, list_eq, offset_of, parse, parse_digits, store_suffix,
  strip_suffix,
}
use raft_distributed_log_rs.Prelude.{
  List, [], ap, arith, dec_lt, drop-append, leb, length, length-append, none, refl, some, suc,
  take-append, true, u64_mod, zero, ℕ, ◌%◌, ◌*◌, ◌++◌, ◌+◌, ◌-◌, ◌/◌, ◌<◌, ◌^◌, ◌∙◌, ◌∷◌, ◌≡◌, ◌≤◌,
}

parse_digits-append :
    (n : ℕ) (cs : List ℕ) (m d : ℕ)
    → parse_digits n cs ≡ some m
    → d < 10
    → m * 10 + d < u64_mod
    → parse_digits n (cs ++ (48 + d) ∷ []) ≡ some (m * 10 + d)
unfolding parse_digits
parse_digits-append n [] m d h small fits = ground arith
parse_digits-append n (c ∷ cs) m d h small fits =
    ground (arith, parse_digits-append (n * 10 + (c - 48)) cs m d)

one_digit : (fuel n : ℕ) → n < 10 → parse_digits 0 (decimal (suc fuel) n) ≡ some n
unfolding decimal parse_digits
one_digit fuel n digit = ground arith

more_digits :
    (fuel n : ℕ) → ¬ (n < 10) → decimal (suc fuel) n ≡ decimal fuel (n / 10) ++ (48 + n % 10) ∷ []
unfolding decimal
more_digits fuel n longer = ground arith

parse_digits-decimal :
    (fuel n : ℕ) → n < 10 ^ suc fuel → n < u64_mod → parse_digits 0 (decimal (suc fuel) n) ≡ some n
parse_digits-decimal zero n few fits = one_digit 0 n (omega (arith, pow-suc 10 0))
parse_digits-decimal (suc k) n few fits = elim (dec_lt n 10) [
  | yes digit ↦ one_digit (suc k) n digit
  | no longer ↦
      let front =
        parse_digits-decimal k (n / 10) (omega (arith, pow-suc 10 (suc k))) (omega arith) in
      let split : n / 10 * 10 + n % 10 ≡ n = omega arith in
      let whole =
        parse_digits-append 0 (decimal (suc k) (n / 10)) (n / 10) (n % 10) front (omega arith)
          (omega arith) in
      rw (more_digits (suc k) n longer) (whole ∙ ap (λ (m : ℕ). some m) split)
]

-- What begins with a digit.
abbrev HasDigit : List ℕ → Type 0
HasDigit [] = ⊥
HasDigit (c ∷ cs) = 48 ≤ c

HasDigit-append : (xs ys : List ℕ) → HasDigit xs → HasDigit (xs ++ ys)
HasDigit-append [] ys h = absurd h
HasDigit-append (c ∷ cs) ys h = h

HasDigit-decimal : (fuel n : ℕ) → n < 10 ^ suc fuel → HasDigit (decimal (suc fuel) n)
HasDigit-decimal zero n few =
    let digit : n < 10 = omega (arith, pow-suc 10 0) in unfold decimal in ground arith
HasDigit-decimal (suc k) n few = elim (dec_lt n 10) [
  | yes digit ↦ unfold decimal in ground arith
  | no longer ↦ rw (more_digits (suc k) n longer) (
      HasDigit-append (decimal (suc k) (n / 10)) ((48 + n % 10) ∷ [])
        (HasDigit-decimal k (n / 10) (omega (arith, pow-suc 10 (suc k)))))
]

parse-HasDigit : (cs : List ℕ) → HasDigit cs → parse cs ≡ parse_digits 0 cs
unfolding parse
parse-HasDigit [] h = absurd h
parse-HasDigit (c ∷ cs) h = ground arith

parse-decimal : (n : ℕ) → n < u64_mod → parse (decimal 20 n) ≡ some n
parse-decimal n fits =
    parse-HasDigit (decimal 20 n) (HasDigit-decimal 19 n (omega arith))
    ∙ parse_digits-decimal 19 n (omega arith) fits

list_eq_refl : (xs : List ℕ) → list_eq xs xs ≡ true
list_eq_refl [] = refl
list_eq_refl (x ∷ xs) = ground (arith, list_eq_refl xs)

strip_suffix-append : (suffix xs : List ℕ) → strip_suffix suffix (xs ++ suffix) ≡ some xs
unfolding strip_suffix
strip_suffix-append suffix xs =
    let stem : length (xs ++ suffix) - length suffix ≡ length xs =
      omega (arith, length-append xs suffix) in
    let fits : leb (length suffix) (length (xs ++ suffix)) ≡ true =
      ground (arith, length-append xs suffix) in
    rw
      (
        stem,
        fits,
        drop-append xs suffix (length xs) refl,
        list_eq_refl suffix,
        take-append xs suffix (length xs) refl,
      )
      refl

no_store_suffix : (xs : List ℕ) → strip_suffix store_suffix (xs ++ index_suffix) ≡ none
unfolding strip_suffix
no_store_suffix xs =
    let stem : length (xs ++ index_suffix) - 6 ≡ length xs =
      omega (arith, length-append xs index_suffix) in
    rw (stem, drop-append xs index_suffix (length xs) refl) (ground arith)

stem_of_store : (xs : List ℕ) → offset_of (xs ++ store_suffix) ≡ parse xs
unfolding offset_of
stem_of_store xs = ground (arith, strip_suffix-append store_suffix xs)

stem_of_index : (xs : List ℕ) → offset_of (xs ++ index_suffix) ≡ parse xs
unfolding offset_of
stem_of_index xs = ground (arith, no_store_suffix xs, strip_suffix-append index_suffix xs)

-- The two names that a segment gives its files are read back as its base offset.
pub offset_of-file_name :
    (base_offset : ℕ)
    → base_offset < u64_mod
    → (offset_of (file_name base_offset store_suffix) ≡ some base_offset)
      × (offset_of (file_name base_offset index_suffix) ≡ some base_offset)
offset_of-file_name n fits = (
  rw (stem_of_store (decimal 20 n)) (parse-decimal n fits),
  rw (stem_of_index (decimal 20 n)) (parse-decimal n fits),
)
