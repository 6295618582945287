-- ===== src/Prelude/Bytes.antt =====
-- Byte sequences: big-endian numbers, and slices of lists.
use Prim.Native.Char.{code}
use Prim.Native.String.{String}
use Prim.Native.Nat.{ℕ, zero, suc, ◌+◌, ◌-◌, ◌*◌, ◌/◌, ◌%◌, ◌^◌, ◌≤◌, ◌<◌}
use mathlib.Core.Path.{◌≡◌, refl, ap}
use mathlib.Core.List.{List, [], ◌∷◌, ◌++◌}
use native.Mathlib.Omega.{arith}
use native.Mathlib.Nat.{pow-suc}
use raft_distributed_log_rs.Prelude.Lists.{length, length-append, take, drop}

-- The bytes of an ASCII text.
abbrev pub codes : String → List ℕ
codes String.[] = []
codes (String.◌∷◌ c s) = code c ∷ codes s

-- `to_be_bytes` of a number of `w` bytes.
unfoldable pub to_be : ℕ → ℕ → List ℕ
to_be zero n = []
to_be (suc w) n = to_be w (n / 256) ++ (n % 256) ∷ []

-- `from_be_bytes`, from the bytes read so far.
unfoldable pub from_be_acc : ℕ → List ℕ → ℕ
from_be_acc acc [] = acc
from_be_acc acc (b ∷ bs) = from_be_acc (acc * 256 + b) bs

unfoldable pub from_be : List ℕ → ℕ
unfolding from_be_acc
from_be = from_be_acc 0

from_be_acc-append :
    (acc : ℕ) (xs : List ℕ) (b : ℕ) → from_be_acc acc (xs ++ b ∷ []) ≡ from_be_acc acc xs * 256 + b
unfolding from_be_acc
from_be_acc-append acc [] b = refl
from_be_acc-append acc (x ∷ xs) b = from_be_acc-append (acc * 256 + x) xs b

pub length-to_be : (w n : ℕ) → length (to_be w n) ≡ w
unfolding to_be
length-to_be zero n = refl
length-to_be (suc w) n =
    omega (arith, length-append (to_be w (n / 256)) ((n % 256) ∷ []), length-to_be w (n / 256))

pub from_be-to_be : (w n : ℕ) → n < 256 ^ w → from_be (to_be w n) ≡ n
unfolding from_be to_be
from_be-to_be zero n h = omega arith
from_be-to_be (suc w) n h = omega (
  arith,
  from_be_acc-append 0 (to_be w (n / 256)) (n % 256),
  from_be-to_be w (n / 256) (omega (arith, pow-suc 256 w)),
)

module _ {ℓ} {A : Type ℓ} where
  pub take-append : (xs ys : List A) (n : ℕ) → length xs ≡ n → take n (xs ++ ys) ≡ xs
  take-append [] ys zero h = refl
  take-append [] ys (suc n) h = absurd (omega arith)
  take-append (x ∷ xs) ys zero h = absurd (omega arith)
  take-append (x ∷ xs) ys (suc n) h = ap (◌∷◌ x) (take-append xs ys n (omega arith))

  pub drop-append : (xs ys : List A) (n : ℕ) → length xs ≡ n → drop n (xs ++ ys) ≡ ys
  drop-append [] ys zero h = refl
  drop-append [] ys (suc n) h = absurd (omega arith)
  drop-append (x ∷ xs) ys zero h = absurd (omega arith)
  drop-append (x ∷ xs) ys (suc n) h = drop-append xs ys n (omega arith)

  pub take-all : (xs : List A) (n : ℕ) → length xs ≤ n → take n xs ≡ xs
  take-all [] zero h = refl
  take-all [] (suc n) h = refl
  take-all (x ∷ xs) zero h = absurd (omega arith)
  take-all (x ∷ xs) (suc n) h = ap (◌∷◌ x) (take-all xs n (omega arith))

  pub length-drop : (n : ℕ) (xs : List A) → length (drop n xs) ≡ length xs - n
  length-drop zero xs = omega arith
  length-drop (suc n) [] = omega arith
  length-drop (suc n) (x ∷ xs) = omega (arith, length-drop n xs)

  pub length-take_le : (n : ℕ) (xs : List A) → n ≤ length xs → length (take n xs) ≡ n
  length-take_le zero xs h = refl
  length-take_le (suc n) [] h = absurd (omega arith)
  length-take_le (suc n) (x ∷ xs) h = omega (arith, length-take_le n xs (omega arith))

  pub drop-drop : (m n : ℕ) (xs : List A) → drop n (drop m xs) ≡ drop (m + n) xs
  drop-drop zero n xs = let e : 0 + n ≡ n = omega arith in rw e
  drop-drop (suc m) zero [] = let e : suc m + 0 ≡ suc m = omega arith in rw e
  drop-drop (suc m) (suc n) [] = let e : suc m + suc n ≡ suc (m + suc n) = omega arith in rw e
  drop-drop (suc m) n (x ∷ xs) =
      let e : suc m + n ≡ suc (m + n) = omega arith in rw e (drop-drop m n xs)
