-- ===== src/Log/Index/Prefix.antt =====
-- src/log/index.rs: which entries `recover_size` finds, for any bytes.
use raft_distributed_log_rs.Log.Index.{entire_width, off_width, recover, recover_size}
use raft_distributed_log_rs.Log.Io.{slice}
use raft_distributed_log_rs.Prelude.{
  Bool-cases, List, arith, dec_lt, false, from_be, inl, inr, leb, length, refl, suc, true, u32_mod,
  zero, ℕ, ◌%◌, ◌*◌, ◌+◌, ◌<◌, ◌==◌, ◌∙◌, ◌≡◌, ◌≢◌, ◌≤◌, ◌⊎◌,
}

-- The offset that the slot at a position carries.
abbrev pub slot : List ℕ → ℕ → ℕ
slot mmap pos = from_be (slice pos off_width mmap)

-- From `size` on, `count` slots carry the offsets from `expected` on, and the next one does not, or
-- does not fit.
pub record Recovered (mmap : List ℕ) (size expected n : ℕ) : Type 0 where
  pub count : ℕ
  pub ends : n ≡ size + count * entire_width
  pub fits : count ≡ 0 ⊎ n ≤ length mmap
  pub carried : (j : ℕ) → j < count → slot mmap (size + j * entire_width) ≡ (expected + j) % u32_mod
  pub stops : n + entire_width ≤ length mmap → slot mmap n ≢ (expected + count) % u32_mod

none_found :
    (mmap : List ℕ) (size expected : ℕ)
    → (size + entire_width ≤ length mmap → slot mmap size ≢ expected % u32_mod)
    → Recovered mmap size expected size
none_found mmap size expected h = record {
  count = 0;
  ends = omega arith;
  fits = inl refl;
  carried = λ j lt. absurd (omega arith);
  stops = λ room same. h room (same ∙ omega arith);
}

one_more :
    (mmap : List ℕ) (size expected n : ℕ)
    → size + entire_width ≤ length mmap
    → slot mmap size ≡ expected % u32_mod
    → Recovered mmap (size + entire_width) ((expected + 1) % u32_mod) n
    → Recovered mmap size expected n
one_more mmap size expected n room first rest = record {
  count = suc rest.count;
  ends = omega (arith, rest.ends);
  fits =
      inr (elim rest.fits [
        | inl empty ↦ omega (arith, rest.ends, room, empty)
        | inr inside ↦ inside
      ]);
  carried = carried_from;
  stops = λ more same. rest.stops more (same ∙ omega arith);
}
  where
    carried_from :
        (j : ℕ)
        → j < suc rest.count
        → slot mmap (size + j * entire_width) ≡ (expected + j) % u32_mod
    carried_from zero lt =
        let at : size + 0 * entire_width ≡ size = omega arith in
        let offset : expected % u32_mod ≡ (expected + 0) % u32_mod = omega arith in
        rw at (first ∙ offset)
    carried_from (suc j) lt =
        let at : size + suc j * entire_width ≡ size + entire_width + j * entire_width =
          omega arith in
        let offset : ((expected + 1) % u32_mod + j) % u32_mod ≡ (expected + suc j) % u32_mod =
          omega arith in
        rw at (rest.carried j (omega arith) ∙ offset)

recover-Recovered :
    (fuel : ℕ) (mmap : List ℕ) (size expected : ℕ)
    → length mmap < size + fuel
    → expected < u32_mod
    → Recovered mmap size expected (recover fuel mmap size expected)
unfolding recover
recover-Recovered zero mmap size expected enough small =
    none_found mmap size expected (λ room. absurd (omega arith))
recover-Recovered (suc fuel) mmap size expected enough small =
    let rest =
      recover-Recovered fuel mmap (size + entire_width) ((expected + 1) % u32_mod) (omega arith)
        (omega arith) in
    elim (dec_lt (length mmap) (size + entire_width)) [
      | yes full ↦
          let test : leb (size + entire_width) (length mmap) ≡ false = ground (arith, full) in
          rw test (none_found mmap size expected (λ room. absurd (omega arith)))
      | no room ↦
          let test : leb (size + entire_width) (length mmap) ≡ true = ground (arith, room) in
          elim (Bool-cases (slot mmap size == expected)) [
            | inl same ↦
                rw (test, same)
                  (one_more mmap size expected _ (omega (arith, room)) (ground (arith, same, small))
                    rest)
            | inr differs ↦
                rw (test, differs)
                  (none_found mmap size expected
                    (λ room' same. ground (arith, differs, small, same)))
          ]
    ]

-- The size that is recovered from the bytes of an index, whatever they are, is that of the longest
-- run of whole slots from the start on that carry the offsets 0, 1, 2 and so on, modulo 2^32. The
-- loop never runs out of rounds before it has found the end of that run.
pub recover_size-Recovered : (mmap : List ℕ) → Recovered mmap 0 0 (recover_size mmap)
unfolding recover_size
recover_size-Recovered mmap =
    recover-Recovered (suc (length mmap)) mmap 0 0 (omega arith) (omega arith)
