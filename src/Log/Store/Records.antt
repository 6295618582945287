-- ===== src/Log/Store/Records.antt =====
-- src/log/store.rs: an appended record is read back, and stays readable after later appends.
use raft_distributed_log_rs.Log.Store
use raft_distributed_log_rs.Log.Io.{done, read_exact_at-append}
use raft_distributed_log_rs.Log.Store.{Store, length_width}
use raft_distributed_log_rs.Prelude.{
  List, [], ap, append-nil, append_assoc, arith, from_be-to_be, length, length-append, length-to_be,
  refl, sym, to_be, u64_mod, ℕ, ◌++◌, ◌+◌, ◌<◌, ◌∙◌, ◌∷◌, ◌≡◌,
}

-- All bytes of the store, those in the buffer included.
abbrev pub content : Store → List ℕ
content s = s.file ++ s.pending

-- A record as it stands in the file.
abbrev pub encode_record : List ℕ → List ℕ
encode_record payload = to_be length_width (length payload) ++ payload

abbrev pub IsSized : Store → Type 0
IsSized s = s.size ≡ length (content s)

-- The record stands at this position.
abbrev pub Holds : List ℕ → ℕ → List ℕ → Type 0
Holds bytes pos payload =
    (xs : List ℕ) × (ys : List ℕ) × (bytes ≡ xs ++ (encode_record payload ++ ys))
    × (length xs ≡ pos)

empty_of_length : (xs : List ℕ) → length xs ≡ 0 → xs ≡ []
empty_of_length [] h = refl
empty_of_length (x ∷ xs) h = absurd (omega arith)

content-flush : (s : Store) → content (Store.flush s) ≡ content s
unfolding Store.flush
content-flush s = rw append-nil

content-buffer_write :
    (s : Store) (buf : List ℕ) → content (Store.buffer_write s buf) ≡ content s ++ buf
unfolding Store.buffer_write Store.flush
content-buffer_write s buf = ground (
  arith,
  append_assoc s.file s.pending buf,
  append-nil (s.file ++ s.pending),
  append-nil ((s.file ++ s.pending) ++ buf),
  append-nil (s.file ++ buf),
  append-nil s.file,
  empty_of_length s.pending,
)

config_of : (s : Store) (buf : List ℕ) → (Store.buffer_write s buf).config ≡ s.config
unfolding Store.buffer_write Store.flush
config_of s buf = ground arith

-- An append adds the record at the end of the store's bytes.
pub content-append :
    (s : Store) (payload : List ℕ)
    → content (Store.append s payload).0 ≡ content s ++ encode_record payload
unfolding Store.append Store.flush
content-append s payload =
    let len_bytes = to_be length_width (length payload) in
    let s₁ = Store.buffer_write s len_bytes in
    let s₂ = Store.buffer_write s₁ payload in
    ground (
      arith,
      content-buffer_write s len_bytes,
      content-buffer_write s₁ payload,
      append_assoc (s.file ++ s.pending) len_bytes payload,
      append-nil (s₂.file ++ s₂.pending),
    )

pub length-encode_record :
    (payload : List ℕ) → length (encode_record payload) ≡ length payload + length_width
length-encode_record payload = omega (
  arith,
  length-append (to_be length_width (length payload)) payload,
  length-to_be length_width (length payload),
)

-- The size stays the number of bytes, unless it overflows.
pub append-IsSized :
    (s : Store) (payload : List ℕ)
    → s.size + length payload + length_width < u64_mod
    → IsSized s
    → IsSized (Store.append s payload).0
      × ((Store.append s payload).0.size ≡ s.size + length payload + length_width)
append-IsSized s payload room sized = (sized', size')
  where
    size' : (Store.append s payload).0.size ≡ s.size + length payload + length_width
    size' = unfold Store.append Store.flush in ground arith

    sized' : IsSized (Store.append s payload).0
    sized' = omega (
      arith,
      size',
      ap length (content-append s payload),
      length-append (content s) (encode_record payload),
      length-encode_record payload,
    )

pub content-read : (s : Store) (pos : ℕ) → content (Store.read s pos).0 ≡ content s
unfolding Store.read
content-read s pos = content-flush s

-- A record that stands at a position is read there.
pub read-Holds :
    (s : Store) (pos : ℕ) (payload : List ℕ)
    → length payload < u64_mod
    → Holds (content s) pos payload
    → (Store.read s pos).1 ≡ done payload
unfolding Store.read Store.flush
read-Holds s pos payload room (xs, ys, e, at) =
    let size = to_be length_width (length payload) in
    let e₁ : content s ≡ xs ++ (size ++ (payload ++ ys)) =
      e ∙ ap (◌++◌ xs) (append_assoc size payload ys) in
    let e₂ : content s ≡ (xs ++ size) ++ (payload ++ ys) =
      e₁ ∙ sym (append_assoc xs size (payload ++ ys)) in
    ground (
      arith,
      e₁,
      e₂,
      read_exact_at-append xs size (payload ++ ys) pos length_width at
          (length-to_be length_width (length payload)),
      from_be-to_be length_width (length payload) room,
      read_exact_at-append (xs ++ size) payload ys (pos + length_width) (length payload)
          (omega (arith, length-append xs size, length-to_be length_width (length payload))) refl,
    )

-- What stands in the store still stands there after an append, and the new record stands at the
-- former size.
pub Holds-append :
    (s : Store) (pos : ℕ) (old payload : List ℕ)
    → Holds (content s) pos old
    → Holds (content (Store.append s payload).0) pos old
Holds-append s pos old payload (xs, ys, e, at) = (
  xs,
  ys ++ encode_record payload,
  content-append s payload
      ∙ ap (λ (c : List ℕ). c ++ encode_record payload) e
      ∙ append_assoc xs (encode_record old ++ ys) (encode_record payload)
      ∙ ap (◌++◌ xs) (append_assoc (encode_record old) ys (encode_record payload)),
  at,
)

pub Holds-append_self :
    (s : Store) (payload : List ℕ)
    → IsSized s
    → Holds (content (Store.append s payload).0) s.size payload
Holds-append_self s payload sized = (
  content s,
  [],
  content-append s payload ∙ ap (◌++◌ (content s)) (sym (append-nil (encode_record payload))),
  sym sized,
)

unfoldable pub append_all : Store → List (List ℕ) → Store
append_all s [] = s
append_all s (payload ∷ rest) = append_all (Store.append s payload).0 rest

Holds-append_all :
    (s : Store) (pos : ℕ) (old : List ℕ) (rest : List (List ℕ))
    → Holds (content s) pos old
    → Holds (content (append_all s rest)) pos old
unfolding append_all
Holds-append_all s pos old [] h = h
Holds-append_all s pos old (payload ∷ rest) h =
    Holds-append_all (Store.append s payload).0 pos old rest (Holds-append s pos old payload h)

-- A record is read back at the size that the store had before its append, also after any further
-- appends, whatever the buffer held back, for a record of less than 2 ^ 64 bytes.
pub read-append_all :
    (s : Store) (payload : List ℕ) (rest : List (List ℕ))
    → IsSized s
    → length payload < u64_mod
    → (Store.read (append_all (Store.append s payload).0 rest) s.size).1 ≡ done payload
read-append_all s payload rest sized room = read-Holds _ s.size payload room (
    Holds-append_all (Store.append s payload).0 s.size payload rest
      (Holds-append_self s payload sized))
