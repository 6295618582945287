-- ===== src/Log/Segmented/Appending.antt =====
-- src/log.rs: `append` adds one record at the end, and rotates to a new segment where the active
-- one is full.
use raft_distributed_log_rs.Log.Segmented
use raft_distributed_log_rs.Log.Segment
use raft_distributed_log_rs.Log.Index
use raft_distributed_log_rs.Log.Index.{Index, entire_width}
use raft_distributed_log_rs.Log.Index.Entries.{Written, write-Written}
use raft_distributed_log_rs.Log.Io.{done}
use raft_distributed_log_rs.Log.Segment.{Segment}
use raft_distributed_log_rs.Log.Segment.Fresh.{
  fresh-HoldsRecords, fresh-IsConfigured, fresh_segment, new-no_files,
}
use raft_distributed_log_rs.Log.Segment.Records.{
  HoldsRecords, RoomFor, append_room, grown, grown-HoldsRecords,
}
use raft_distributed_log_rs.Log.Segment.Reopen.{IsConfigured}
use raft_distributed_log_rs.Log.Segmented.{Log, after_append, append_to, rotated, segment_config}
use raft_distributed_log_rs.Log.Segmented.Contents.{
  AllFilled-append, AllMapped-append, Chain-append, Represents, flatten, flatten-append,
  get_elem?-last, set-last,
}
use raft_distributed_log_rs.Log.Store.{length_width}
use raft_distributed_log_rs.Prelude.{
  Bool-cases, List, [], ap, append-nil, append_assoc, arith, false, get_elem?, if◌then◌else◌, inl,
  inr, length, length-append, refl, some, sym, true, u32_mod, u64_mod, wrapping_add, ℕ, ◌++◌, ◌+◌,
  ◌<◌, ◌∙◌, ◌∷◌, ◌≡◌, ◌≤◌,
}

-- No number overflows by one more record and one more segment.
pub record Space (l : Log) (b : ℕ) (all : List (List ℕ)) (payload : List ℕ) : Type 0 where
  pub store_space :
      (s : Segment)
      → get_elem? l.segments l.active_index ≡ some s
      → s.store.size + length payload + length_width < u64_mod
  pub offset_space : b + length all + 2 < u64_mod
  pub count_space : length all + 2 < u32_mod

module _ (l : Log) (b : ℕ) (all : List (List ℕ)) (payload : List ℕ) (h : Represents l b all)
    (space : Space l b all payload) where
  active_segment : get_elem? l.segments l.active_index ≡ some h.act
  active_segment =
      ap (get_elem? l.segments) h.active
      ∙ ap (λ (ss : List Segment). get_elem? ss (length h.front)) h.shape
      ∙ get_elem?-last h.front h.act

  count_all : length all ≡ length (flatten h.groups) + length h.recent
  count_all = ap length h.contents ∙ length-append (flatten h.groups) h.recent

  room : RoomFor h.act h.recent payload
  room = record {
    index_room = h.ready;
    store_room = space.store_space h.act active_segment;
    offset_room = omega (arith, count_all, h.act_base, space.offset_space);
    count_room = omega (arith, count_all, space.count_space);
  }

  -- The active segment after the append.
  act' : Segment
  act' = grown h.act payload (length h.act_holds.positions)

  act'_holds : HoldsRecords act' (h.recent ++ payload ∷ [])
  unfolding act'
  act'_holds = grown-HoldsRecords h.act h.recent payload h.act_holds room

  written :
      ((Index.write h.act.index (length h.act_holds.positions) h.act.store.size).1 ≡ done tt)
      × Written
          (Index.write h.act.index (length h.act_holds.positions) h.act.store.size).0
          (h.act_holds.positions ++ h.act.store.size ∷ [])
      × (length (Index.write h.act.index (length h.act_holds.positions) h.act.store.size).0.mmap
          ≡ length h.act.index.mmap)
  written =
      write-Written h.act.index h.act_holds.positions h.act.store.size h.act_holds.indexed h.ready

  act'_mapped : IsConfigured act'
  unfolding act'
  act'_mapped = (written.2 ∙ h.act_mapped.0, h.act_mapped.1)

  -- The log with the new active segment, before any rotation.
  stored : Log
  stored = record l { segments = h.front ++ act' ∷ [] }

  kept_shape : Segmented.set l.segments l.active_index act' ≡ h.front ++ act' ∷ []
  kept_shape =
      ap (λ (i : ℕ). Segmented.set l.segments i act') h.active
      ∙ ap (λ (ss : List Segment). Segmented.set ss (length h.front) act') h.shape
      ∙ set-last h.front h.act act'

  next_is : h.act.next_offset ≡ b + length all
  next_is = omega (arith, h.act_holds.next, h.act_base, count_all)

  append_value : Segmented.append l payload ≡ (
      if Segment.is_maxed act'
      then rotated stored
          (b + length all)
          (Segmented.new_segment l.cfg (wrapping_add (b + length all) 1) l.disk)
      else (stored, done (b + length all)))
  unfolding Segmented.append stored act'
  append_value =
      ap (append_to l payload) active_segment
      ∙ ap (after_append l) (append_room h.act h.recent payload h.act_holds room)
      ∙ ap
          (λ (ss : List Segment).
            if Segment.is_maxed act'
            then rotated (record l { segments = ss }) h.act.next_offset
                (Segmented.new_segment l.cfg (wrapping_add h.act.next_offset 1) l.disk)
            else (record l { segments = ss }, done h.act.next_offset))
          kept_shape
      ∙ ap
          (λ (off : ℕ).
            if Segment.is_maxed act'
            then rotated stored off (Segmented.new_segment l.cfg (wrapping_add off 1) l.disk)
            else (stored, done off))
          next_is

  contents' : all ++ payload ∷ [] ≡ flatten h.groups ++ (h.recent ++ payload ∷ [])
  contents' =
      ap (λ (xs : List (List ℕ)). xs ++ payload ∷ []) h.contents
      ∙ append_assoc (flatten h.groups) h.recent (payload ∷ [])

  length' : length (all ++ payload ∷ []) ≡ length all + 1
  length' = omega (arith, length-append all (payload ∷ []))

  index_bytes : h.act.cfg.max_index_bytes ≡ l.cfg.max_size_bytes
  index_bytes = ap (λ (c : Segment.Config). c.max_index_bytes) h.act_cfg

  -- An index of a whole number of entries that is not maxed has room for one more.
  ready' : Segment.is_maxed act' ≡ false → act'.index.size + entire_width ≤ length act'.index.mmap
  unfolding Segment.is_maxed
  ready' open_still =
      let below : act'.index.size < l.cfg.max_size_bytes =
        unfold act' in ground (arith, index_bytes) in
      let mapped' : length act'.index.mmap ≡ l.cfg.max_size_bytes =
        unfold act' in (act'_mapped.0 ∙ index_bytes) in
      omega (arith, below, act'_holds.indexed.counted, h.aligned, mapped')

  stored-Represents : Segment.is_maxed act' ≡ false → Represents stored b (all ++ payload ∷ [])
  unfolding stored
  stored-Represents open_still = record {
    front = h.front;
    groups = h.groups;
    act = act';
    recent = h.recent ++ payload ∷ [];
    shape = refl;
    contents = contents';
    active = h.active;
    chained = h.chained;
    act_base = unfold act' in h.act_base;
    act_holds = act'_holds;
    act_mapped = act'_mapped;
    act_cfg = unfold act' in h.act_cfg;
    front_mapped = h.front_mapped;
    filled = h.filled;
    ready = ready' open_still;
    aligned = h.aligned;
    clean = λ off above. h.clean off (omega (arith, length'));
  }

  new_base : wrapping_add (b + length all) 1 ≡ b + length (all ++ payload ∷ [])
  new_base = omega (arith, length', space.offset_space)

  next_segment : Segment
  next_segment = fresh_segment (segment_config l.cfg) (b + length (all ++ payload ∷ []))

  rotated_log : Log
  rotated_log = record stored {
    segments = stored.segments ++ next_segment ∷ [];
    active_index = stored.active_index + 1;
  }

  some_bytes : 0 < l.cfg.max_size_bytes
  some_bytes = omega (arith, index_bytes, h.act_mapped.1)

  opens_next :
      Segmented.new_segment l.cfg (wrapping_add (b + length all) 1) l.disk ≡ done next_segment
  unfolding Segmented.new_segment next_segment
  opens_next =
      rw (new_base, h.clean (b + length (all ++ payload ∷ [])) (omega (arith, length')))
        (new-no_files (segment_config l.cfg) (b + length (all ++ payload ∷ [])) some_bytes)

  one_entry : next_segment.index.size + entire_width ≤ length next_segment.index.mmap
  unfolding next_segment
  one_entry = omega (
    arith,
    some_bytes,
    h.aligned,
    (fresh-IsConfigured (segment_config l.cfg) (b + length (all ++ payload ∷ [])) some_bytes).0,
  )

  rotated-Represents : Represents rotated_log b (all ++ payload ∷ [])
  unfolding rotated_log stored next_segment
  rotated-Represents = record {
    front = h.front ++ act' ∷ [];
    groups = h.groups ++ (h.recent ++ payload ∷ []) ∷ [];
    act = next_segment;
    recent = [];
    shape = refl;
    contents = contents' ∙ sym (append-nil _ ∙ flatten-append h.groups (h.recent ++ payload ∷ []));
    active = omega (arith, h.active, length-append h.front (act' ∷ []));
    chained =
        Chain-append b h.front h.groups act' (h.recent ++ payload ∷ []) h.chained
          (unfold act' in h.act_base) act'_holds;
    act_base =
        ap (λ (xs : List (List ℕ)). b + length xs)
          (contents' ∙ sym (flatten-append h.groups (h.recent ++ payload ∷ [])));
    act_holds =
        fresh-HoldsRecords (segment_config l.cfg) (b + length (all ++ payload ∷ []))
          (omega (arith, length', space.offset_space));
    act_mapped =
        fresh-IsConfigured (segment_config l.cfg) (b + length (all ++ payload ∷ [])) some_bytes;
    act_cfg = refl;
    front_mapped =
        AllMapped-append l.cfg h.front act' h.front_mapped (act'_mapped, unfold act' in h.act_cfg);
    filled =
        AllFilled-append h.groups (h.recent ++ payload ∷ []) h.filled
          (omega (arith, length-append h.recent (payload ∷ [])));
    ready = one_entry;
    aligned = h.aligned;
    clean = λ off above. h.clean off (omega (arith, length'));
  }

  value_open :
      Segment.is_maxed act' ≡ false → Segmented.append l payload ≡ (stored, done (b + length all))
  value_open e = append_value ∙ rw e

  value_maxed :
      Segment.is_maxed act' ≡ true
      → Segmented.append l payload ≡ (rotated_log, done (b + length all))
  unfolding rotated_log
  value_maxed e = append_value ∙ rw (e, opens_next)

  append_cases :
      ((Segmented.append l payload).1 ≡ done (b + length all))
      × Represents (Segmented.append l payload).0 b (all ++ payload ∷ [])
  append_cases = elim (Bool-cases (Segment.is_maxed act')) [
    | inl maxed ↦ rw (value_maxed maxed) (refl, rotated-Represents)
    | inr open_still ↦ rw (value_open open_still) (refl, stored-Represents open_still)
  ]

-- An append to a log that represents a list of records returns the offset behind the last one, and
-- the log then represents the list with the new record at its end, whether or not the log rotates
-- to a new segment. The index size is a whole number of entries, and no number overflows.
pub append-Represents :
    (l : Log) (b : ℕ) (all : List (List ℕ)) (payload : List ℕ)
    → Represents l b all
    → Space l b all payload
    → ((Segmented.append l payload).1 ≡ done (b + length all))
      × Represents (Segmented.append l payload).0 b (all ++ payload ∷ [])
append-Represents = append_cases
