-- ===== src/Log/Segmented/Directory/Rising.antt =====
-- src/log.rs: a rising list of offsets is known by its members.
use raft_distributed_log_rs.Log.Segmented.Directory.{contains}
use raft_distributed_log_rs.Log.Segmented.Directory.Names.{Rising}
use raft_distributed_log_rs.Prelude.{
  List, [], ap, arith, dec_lt, false, refl, subst, sym, true, ℕ, ℕ_discrete, ◌<◌, ◌∙◌, ◌∷◌, ◌≡◌,
}

contains_above : (x y : ℕ) (ys : List ℕ) → Rising (y ∷ ys) → x < y → contains x (y ∷ ys) ≡ false
unfolding contains
contains_above x y [] r h = ground arith
contains_above x y (z ∷ ys) r h = ground (arith, contains_above x z ys r.1 (omega arith))

contains_self : (x : ℕ) (xs : List ℕ) → Rising (x ∷ xs) → contains x xs ≡ false
contains_self x [] r = unfold contains in refl
contains_self x (y ∷ xs) r = contains_above x y xs r.1 r.0

contains_head : (x : ℕ) (xs : List ℕ) → contains x (x ∷ xs) ≡ true
unfolding contains
contains_head x xs = ground arith

Rising-tail : (x : ℕ) (xs : List ℕ) → Rising (x ∷ xs) → Rising xs
Rising-tail x [] r = tt
Rising-tail x (y ∷ xs) r = r.1

same_head :
    (x y : ℕ) (xs ys : List ℕ)
    → Rising (x ∷ xs)
    → Rising (y ∷ ys)
    → ((z : ℕ) → contains z (x ∷ xs) ≡ contains z (y ∷ ys))
    → x ≡ y
same_head x y xs ys r q same = elim (dec_lt x y) [
  | yes lt ↦ cc (contains_above x y ys q lt, contains_head x xs, same x)
  | no ge ↦ elim (dec_lt y x) [
    | yes gt ↦ cc (contains_above y x xs r gt, contains_head y ys, same y)
    | no le ↦ omega arith
  ]
]

same_tail :
    (x z : ℕ) (xs ys : List ℕ)
    → Rising (x ∷ xs)
    → Rising (x ∷ ys)
    → contains z (x ∷ xs) ≡ contains z (x ∷ ys)
    → contains z xs ≡ contains z ys
same_tail x z xs ys r q same = elim (ℕ_discrete x z) [
  | yes e ↦ cc (e, contains_self x xs r, contains_self x ys q)
  | no ne ↦ unfold contains in ground arith
]

-- Two rising lists with the same members are equal.
pub Rising-unique :
    (xs ys : List ℕ) → Rising xs → Rising ys → ((z : ℕ) → contains z xs ≡ contains z ys) → xs ≡ ys
Rising-unique [] [] r q same = refl
Rising-unique [] (y ∷ ys) r q same = unfold contains in cc (same y, contains_head y ys)
Rising-unique (x ∷ xs) [] r q same = unfold contains in cc (same x, contains_head x xs)
Rising-unique (x ∷ xs) (y ∷ ys) r q same =
    let e = same_head x y xs ys r q same in
    let q' = subst (λ (w : ℕ). Rising (w ∷ ys)) (sym e) q in
    let same' =
      subst (λ (w : ℕ). (z : ℕ) → contains z (x ∷ xs) ≡ contains z (w ∷ ys)) (sym e) same in
    ap (◌∷◌ x) (
      Rising-unique xs ys (Rising-tail x xs r) (Rising-tail x ys q')
        (λ z. same_tail x z xs ys r q' (same' z)))
    ∙ ap (λ (w : ℕ). w ∷ ys) e
