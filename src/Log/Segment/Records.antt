-- ===== src/Log/Segment/Records.antt =====
-- src/log/segment.rs: a segment as the list of the records appended to it.
use raft_distributed_log_rs.Log.Segment
use raft_distributed_log_rs.Log.Store
use raft_distributed_log_rs.Log.Index
use raft_distributed_log_rs.Log.Index.{Index, entire_width}
use raft_distributed_log_rs.Log.Index.Entries.{
  Written, lt_of_get_elem?, read-Written, write-Written,
}
use raft_distributed_log_rs.Log.Io.{done, failed, invalid_input, io_error, unexpected_eof}
use raft_distributed_log_rs.Log.Segment.{Segment}
use raft_distributed_log_rs.Log.Store.{Store, length_width}
use raft_distributed_log_rs.Log.Store.Records.{
  Holds, Holds-append, Holds-append_self, IsSized, append-IsSized, content, content-read,
  encode_record, length-encode_record, read-Holds,
}
use raft_distributed_log_rs.Prelude.{
  List, [], ap, arith, get_elem?, length, length-append, refl, some, subst, suc, sym, u32_mod,
  u64_mod, wrapping_add, wrapping_sub, zero, ℕ, ◌%◌, ◌++◌, ◌+◌, ◌-◌, ◌<◌, ◌∙◌, ◌∷◌, ◌≡◌, ◌≤◌, ◌⊎◌,
}

-- The records stand at the positions, in order.
abbrev pub AllHold : List ℕ → List ℕ → List (List ℕ) → Type 0
AllHold bytes [] [] = Unit {0}
AllHold bytes (pos ∷ ps) (r ∷ rs) = Holds bytes pos r × AllHold bytes ps rs
AllHold bytes _ _ = ⊥

-- The segment holds these records, from its base offset on.
pub record HoldsRecords (s : Segment) (rs : List (List ℕ)) : Type 0 where
  pub positions : List ℕ
  pub indexed : Written s.index positions
  pub stored : AllHold (content s.store) positions rs
  pub sized : IsSized s.store
  pub store_fits : s.store.size < u64_mod
  pub offsets_fit : s.base_offset + length rs < u64_mod
  pub few : length rs + 1 < u32_mod
  pub next : s.next_offset ≡ s.base_offset + length rs

-- There is room for one more record, and no number overflows.
pub record RoomFor (s : Segment) (rs : List (List ℕ)) (payload : List ℕ) : Type 0 where
  pub index_room : s.index.size + entire_width ≤ length s.index.mmap
  pub store_room : s.store.size + length payload + length_width < u64_mod
  pub offset_room : s.base_offset + length rs + 1 < u64_mod
  pub count_room : length rs + 2 < u32_mod

pub length-AllHold :
    (bytes ps : List ℕ) (rs : List (List ℕ)) → AllHold bytes ps rs → length ps ≡ length rs
length-AllHold bytes [] [] h = refl
length-AllHold bytes [] (r ∷ rs) h = absurd h
length-AllHold bytes (p ∷ ps) [] h = absurd h
length-AllHold bytes (p ∷ ps) (r ∷ rs) h = ap suc (length-AllHold bytes ps rs h.1)

AllHold-append :
    (s : Store) (ps : List ℕ) (rs : List (List ℕ)) (payload : List ℕ)
    → IsSized s
    → AllHold (content s) ps rs
    → AllHold (content (Store.append s payload).0) (ps ++ s.size ∷ []) (rs ++ payload ∷ [])
AllHold-append s [] [] payload sized h = (Holds-append_self s payload sized, tt)
AllHold-append s [] (r ∷ rs) payload sized h = absurd h
AllHold-append s (p ∷ ps) [] payload sized h = absurd h
AllHold-append s (p ∷ ps) (r ∷ rs) payload sized h =
    (Holds-append s p r payload h.0, AllHold-append s ps rs payload sized h.1)

number_of :
    (s : Segment) (rs : List (List ℕ)) (h : HoldsRecords s rs)
    → wrapping_sub s.next_offset s.base_offset % u32_mod ≡ length h.positions
number_of s rs h = omega (arith, length-AllHold (content s.store) h.positions rs h.stored)

-- The segment after an append whose index write returns.
abbrev pub grown : Segment → List ℕ → ℕ → Segment
grown s payload i = record s {
  store = (Store.append s.store payload).0;
  index = (Index.write s.index i s.store.size).0;
  next_offset = wrapping_add s.next_offset 1;
}

append_value :
    (s : Segment) (rs : List (List ℕ)) (payload : List ℕ) (h : HoldsRecords s rs)
    → (Index.write s.index (length h.positions) s.store.size).1 ≡ done tt
    → Segment.append s payload ≡ (grown s payload (length h.positions), done s.next_offset)
unfolding Segment.append
append_value s rs payload h written = ground (arith, number_of s rs h)

pub grown-HoldsRecords :
    (s : Segment) (rs : List (List ℕ)) (payload : List ℕ) (h : HoldsRecords s rs)
    → RoomFor s rs payload
    → HoldsRecords (grown s payload (length h.positions)) (rs ++ payload ∷ [])
grown-HoldsRecords s rs payload h room = record {
  positions = h.positions ++ s.store.size ∷ [];
  indexed = (write-Written s.index h.positions s.store.size h.indexed room.index_room).1;
  stored = AllHold-append s.store h.positions rs payload h.sized h.stored;
  sized = (append-IsSized s.store payload room.store_room h.sized).0;
  store_fits = omega (arith, (append-IsSized s.store payload room.store_room h.sized).1);
  offsets_fit = omega (arith, length-append rs (payload ∷ []));
  few = omega (arith, length-append rs (payload ∷ []));
  next = omega (arith, length-append rs (payload ∷ []));
}

AllHold-grow :
    (s : Store) (ps : List ℕ) (rs : List (List ℕ)) (payload : List ℕ)
    → AllHold (content s) ps rs
    → AllHold (content (Store.append s payload).0) ps rs
AllHold-grow s [] [] payload h = tt
AllHold-grow s [] (r ∷ rs) payload h = absurd h
AllHold-grow s (p ∷ ps) [] payload h = absurd h
AllHold-grow s (p ∷ ps) (r ∷ rs) payload h =
    (Holds-append s p r payload h.0, AllHold-grow s ps rs payload h.1)

pub append_room :
    (s : Segment) (rs : List (List ℕ)) (payload : List ℕ) (h : HoldsRecords s rs)
    → RoomFor s rs payload
    → Segment.append s payload ≡ (grown s payload (length h.positions), done s.next_offset)
append_room s rs payload h room =
    append_value s rs payload h
      (write-Written s.index h.positions s.store.size h.indexed room.index_room).0

-- An append that finds room returns the next offset, and the segment then holds the new record
-- behind the others.
pub append-HoldsRecords :
    (s : Segment) (rs : List (List ℕ)) (payload : List ℕ)
    → HoldsRecords s rs
    → RoomFor s rs payload
    → ((Segment.append s payload).1 ≡ done (s.base_offset + length rs))
      × HoldsRecords (Segment.append s payload).0 (rs ++ payload ∷ [])
append-HoldsRecords s rs payload h room =
    rw (append_room s rs payload h room)
      (ap (λ (n : ℕ). done n) h.next, grown-HoldsRecords s rs payload h room)

-- Where the index is full the append fails, and the segment holds what it held: the record is in
-- the store's file, and no offset leads to it.
pub append_full :
    (s : Segment) (rs : List (List ℕ)) (payload : List ℕ)
    → HoldsRecords s rs
    → length s.index.mmap < s.index.size + entire_width
    → s.store.size + length payload + length_width < u64_mod
    → ((Segment.append s payload).1 ≡ failed (io_error unexpected_eof "index is full"))
      × HoldsRecords (Segment.append s payload).0 rs
append_full s rs payload h full room =
    let kept = Index.write s.index (length h.positions) s.store.size in
    let refused : kept ≡ (s.index, failed (io_error unexpected_eof "index is full")) =
      unfold Index.write in ground arith in
    let value : Segment.append s payload ≡ (
      record s { store = (Store.append s.store payload).0 },
      failed (io_error unexpected_eof "index is full"),
    ) =
      unfold Segment.append in ground (arith, number_of s rs h, refused) in
    rw value (
      refl,
      record {
        positions = h.positions;
        indexed = h.indexed;
        stored = AllHold-grow s.store h.positions rs payload h.stored;
        sized = (append-IsSized s.store payload room h.sized).0;
        store_fits = omega (arith, (append-IsSized s.store payload room h.sized).1);
        offsets_fit = h.offsets_fit;
        few = h.few;
        next = h.next;
      },
    )

get_position :
    (bytes ps : List ℕ) (rs : List (List ℕ)) (i : ℕ) (r : List ℕ)
    → AllHold bytes ps rs
    → get_elem? rs i ≡ some r
    → (pos : ℕ) × (get_elem? ps i ≡ some pos) × Holds bytes pos r
get_position bytes [] [] i r h at = cc
get_position bytes [] (x ∷ rs) i r h at = absurd h
get_position bytes (p ∷ ps) [] i r h at = absurd h
get_position bytes (p ∷ ps) (x ∷ rs) zero r h at =
    let e : x ≡ r = ground arith in (p, refl, subst (Holds bytes p) e h.0)
get_position bytes (p ∷ ps) (x ∷ rs) (suc i) r h at = get_position bytes ps rs i r h.1 at

Holds-bounds :
    (bytes : List ℕ) (pos : ℕ) (r : List ℕ)
    → Holds bytes pos r
    → pos + length r + length_width ≤ length bytes
Holds-bounds bytes pos r (xs, ys, e, at) = omega (
  arith,
  ap length e,
  length-append xs (encode_record r ++ ys),
  length-append (encode_record r) ys,
  length-encode_record r,
)

read_value :
    (s : Segment) (rs : List (List ℕ)) (i pos : ℕ)
    → HoldsRecords s rs
    → i < length rs
    → Index.read s.index i ≡ done (i, pos)
    → Segment.read s (s.base_offset + i)
      ≡ (record s { store = (Store.read s.store pos).0 }, (Store.read s.store pos).1)
unfolding Segment.read
read_value s rs i pos h inside e =
    let number : (s.base_offset + i - s.base_offset) % u32_mod ≡ i = omega (arith, h.few) in
    ground (arith, number, e, h.next)

size-read : (s : Store) (pos : ℕ) → (Store.read s pos).0.size ≡ s.size
unfolding Store.read Store.flush
size-read s pos = refl

-- Reading changes none of the records.
pub reread :
    (s : Segment) (rs : List (List ℕ)) (pos : ℕ)
    → HoldsRecords s rs
    → HoldsRecords (record s { store = (Store.read s.store pos).0 }) rs
reread s rs pos h = record {
  positions = h.positions;
  indexed = h.indexed;
  stored =
      subst (λ (c : List ℕ). AllHold c h.positions rs) (sym (content-read s.store pos)) h.stored;
  sized = size-read s.store pos ∙ h.sized ∙ ap length (sym (content-read s.store pos));
  store_fits = omega (arith, size-read s.store pos, h.store_fits);
  offsets_fit = h.offsets_fit;
  few = h.few;
  next = h.next;
}

-- Every record is read back at its offset, and the segment still holds them all.
pub read-HoldsRecords :
    (s : Segment) (rs : List (List ℕ)) (i : ℕ) (r : List ℕ)
    → HoldsRecords s rs
    → get_elem? rs i ≡ some r
    → ((Segment.read s (s.base_offset + i)).1 ≡ done r)
      × HoldsRecords (Segment.read s (s.base_offset + i)).0 rs
read-HoldsRecords s rs i r h at =
    let (pos, at_pos, holds) = get_position (content s.store) h.positions rs i r h.stored at in
    let inside = lt_of_get_elem? rs i r at in
    let bounds = Holds-bounds (content s.store) pos r holds in
    let entry =
      read-Written s.index h.positions i pos h.indexed at_pos (omega (arith, h.few))
        (omega (arith, h.sized, h.store_fits)) in
    rw (read_value s rs i pos h inside entry)
      (read-Holds s.store pos r (omega (arith, h.sized, h.store_fits)) holds, reread s rs pos h)

-- Outside the segment's range a read fails and changes nothing.
pub read_outside :
    (s : Segment) (rs : List (List ℕ)) (off : ℕ)
    → HoldsRecords s rs
    → ((off < s.base_offset) ⊎ (s.base_offset + length rs ≤ off))
    → Segment.read s off ≡ (s, failed (io_error invalid_input "offset out of range"))
unfolding Segment.read
read_outside s rs off h out = ground (arith, h.next)
