-- ===== src/Grpc/Commands.antt =====
-- src/grpc/client_transport.rs: which bytes the runtime gets for a request.
use raft_distributed_log_rs.Grpc.{Buffer, Codec, WriteRequest, command_for, resize, room_for}
use raft_distributed_log_rs.Prelude.{
  Bool-cases, List, String, [], ap, arith, false, if◌then◌else◌, inl, inr, length, length-append,
  length-replicate, ltb, refl, replicate, sym, take-all, ℕ, ◌++◌, ◌-◌, ◌<◌, ◌↔◌, ◌∙◌, ◌∷◌, ◌≡◌, ◌≤◌,
  ◌⊎◌,
}

-- What the codec documents: the encoding stands behind the old contents, in as many bytes as it says.
pub record IsAppending (c : Codec) : Type 0 where
  pub bytes : WriteRequest → List ℕ
  pub encodes : (w : WriteRequest) (old : List ℕ) → c.encode w old ≡ inr (old ++ bytes w)
  pub counted : (w : WriteRequest) → length (bytes w) ≡ c.encoded_len w

-- What stands before the encoding.
abbrev pub prefix_for : Codec → Buffer → WriteRequest → List ℕ
prefix_for c buf w =
    if ltb buf.capacity (c.encoded_len w)
    then buf.contents ++ replicate (c.encoded_len w - length buf.contents) 0
    else buf.contents

resize-contents :
    (bytes : List ℕ) (n : ℕ)
    → length bytes ≤ n
    → resize bytes n ≡ bytes ++ replicate (n - length bytes) 0
resize-contents bytes n h = ap (◌++ replicate (n - length bytes) 0) (take-all bytes n h)

no_bytes : (bytes : List ℕ) → length bytes ≡ 0 → bytes ≡ []
no_bytes [] e = refl
no_bytes (x ∷ bytes) e = absurd (omega arith)

abbrev payload_of : List ℕ → String ⊎ List ℕ → List ℕ
payload_of d (inl e) = d
payload_of d (inr bytes) = bytes

module _ (c : Codec) (good : IsAppending c) (buf : Buffer) (w : WriteRequest)
    (h : length buf.contents ≤ buf.capacity) where
  room_prefix : room_for c buf w ≡ prefix_for c buf w
  room_prefix = elim (Bool-cases (ltb buf.capacity (c.encoded_len w))) [
    | inl large ↦
        let whole = take-all buf.contents (c.encoded_len w) (ground (arith, large)) in
        rw (large, whole) refl
    | inr small ↦ rw small refl
  ]

  command_bytes : command_for c buf w ≡ inr (prefix_for c buf w ++ good.bytes w)
  unfolding command_for
  command_bytes = rw (good.encodes w (room_for c buf w), room_prefix) refl

  prefix_empty :
      length (prefix_for c buf w) ≡ 0 → (buf.contents ≡ []) × (c.encoded_len w ≤ buf.capacity)
  prefix_empty e = elim (Bool-cases (ltb buf.capacity (c.encoded_len w))) [
    | inl large ↦
        let padded = rw large at e in
        let beyond : buf.capacity < c.encoded_len w = ground (arith, large) in
        absurd (
          omega (
            arith,
            padded,
            length-append buf.contents (replicate (c.encoded_len w - length buf.contents) 0),
            length-replicate {A = ℕ} (c.encoded_len w - length buf.contents) 0,
            beyond,
          ))
    | inr small ↦ (no_bytes buf.contents (rw small at e), ground (arith, small))
  ]

  only_bytes : command_for c buf w ≡ inr (good.bytes w) → length (prefix_for c buf w) ≡ 0
  only_bytes e =
      let same : prefix_for c buf w ++ good.bytes w ≡ good.bytes w =
        ap (payload_of []) (sym command_bytes ∙ e) in
      omega (arith, ap length same, length-append (prefix_for c buf w) (good.bytes w))

  clean_bytes :
      (buf.contents ≡ []) × (c.encoded_len w ≤ buf.capacity)
      → command_for c buf w ≡ inr (good.bytes w)
  clean_bytes (empty, fits) =
      let small : ltb buf.capacity (c.encoded_len w) ≡ false = ground (arith, fits) in
      rw (command_bytes, small, empty) refl

-- The runtime gets the encoding of a request, and nothing else, exactly when the buffer that the
-- pool hands out is empty and large enough. The codec adds its encoding to the buffer, and a buffer
-- holds no more than its capacity.
pub command_for-bytes :
    (c : Codec) (good : IsAppending c) (buf : Buffer) (w : WriteRequest)
    → length buf.contents ≤ buf.capacity
    → (command_for c buf w ≡ inr (good.bytes w))
      ↔ (buf.contents ≡ []) × (c.encoded_len w ≤ buf.capacity)
command_for-bytes c good buf w h =
    (λ e. prefix_empty c good buf w h (only_bytes c good buf w h e), clean_bytes c good buf w h)
