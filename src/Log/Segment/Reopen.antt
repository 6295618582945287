-- ===== src/Log/Segment/Reopen.antt =====
-- src/log/segment.rs: a segment opened from the files that a close or a crash leaves.
use raft_distributed_log_rs.Log.Segment
use raft_distributed_log_rs.Log.Store
use raft_distributed_log_rs.Log.Index
use raft_distributed_log_rs.Log.Index.{Index}
use raft_distributed_log_rs.Log.Index.Entries.{Written, write-Written}
use raft_distributed_log_rs.Log.Index.Recovery.{IsMapped, new-after_crash, new-close}
use raft_distributed_log_rs.Log.Io.{done}
use raft_distributed_log_rs.Log.Segment.{Segment, SegmentFiles, index_config, opened, store_config}
use raft_distributed_log_rs.Log.Segment.Records.{
  AllHold, HoldsRecords, RoomFor, append_room, grown, grown-HoldsRecords, length-AllHold,
}
use raft_distributed_log_rs.Log.Store.{Store}
use raft_distributed_log_rs.Log.Store.Records.{content}
use raft_distributed_log_rs.Prelude.{
  List, [], ap, append-nil, arith, length, refl, subst, sym, true, u32_mod, ℕ, ◌++◌, ◌+◌, ◌<◌, ◌∙◌,
  ◌∷◌, ◌≡◌,
}

-- The index was opened with the segment's configuration.
abbrev pub IsConfigured : Segment → Type 0
IsConfigured s = IsMapped s.index (index_config s.cfg)

-- Opening these files gives a segment that holds the records at the same offsets.
abbrev pub Reopens : Segment → List (List ℕ) → SegmentFiles → Type 0
Reopens s rs files =
    (s' : Segment) × (Segment.new s.cfg s.base_offset files ≡ done s')
    × HoldsRecords s' rs
    × IsConfigured s'
    × (s'.base_offset ≡ s.base_offset)
    × (s'.next_offset ≡ s.next_offset)

-- A segment over a store file and an index that hold the records.
opened-HoldsRecords :
    (s : Segment) (rs : List (List ℕ)) (h : HoldsRecords s rs) (ix : Index)
    → Written ix h.positions
    → ix.size ≡ s.index.size
    → HoldsRecords
        (opened s.cfg s.base_offset (Store.new (content s.store) (store_config s.cfg)) ix)
        rs
unfolding Store.new
opened-HoldsRecords s rs h ix w same = record {
  positions = h.positions;
  indexed = w;
  stored =
      subst (λ (c : List ℕ). AllHold c h.positions rs) (sym (append-nil (content s.store)))
        h.stored;
  sized = ap length (sym (append-nil (content s.store)));
  store_fits = omega (arith, h.sized, h.store_fits);
  offsets_fit = h.offsets_fit;
  few = h.few;
  next = counted;
}
  where
    counted :
        (opened s.cfg s.base_offset
          (Store.new (content s.store) (store_config s.cfg))
          ix).next_offset
        ≡ s.base_offset + length rs
    counted =
        ground (
          arith,
          w.counted,
          length-AllHold (content s.store) h.positions rs h.stored,
          h.offsets_fit,
        )

new_value :
    (s : Segment) (files : SegmentFiles) (ix : Index)
    → files.store_file ≡ content s.store
    → Index.new files.index_file (index_config s.cfg) ≡ done ix
    → Segment.new s.cfg s.base_offset files
      ≡ done (opened s.cfg s.base_offset (Store.new (content s.store) (store_config s.cfg)) ix)
unfolding Segment.new
new_value s files ix same e =
    ground (arith, e, ap (λ (c : List ℕ). Store.new c (store_config s.cfg)) same)

reopens :
    (s : Segment) (rs : List (List ℕ)) (h : HoldsRecords s rs) (files : SegmentFiles) (ix : Index)
    → IsConfigured s
    → files.store_file ≡ content s.store
    → Index.new files.index_file (index_config s.cfg) ≡ done ix
    → Written ix h.positions
    → ix.size ≡ s.index.size
    → length ix.mmap ≡ length s.index.mmap
    → Reopens s rs files
reopens s rs h files ix mapped same e w size map_size =
    let s' = opened s.cfg s.base_offset (Store.new (content s.store) (store_config s.cfg)) ix in
    let h' = opened-HoldsRecords s rs h ix w size in
    (
      s',
      new_value s files ix same e,
      h',
      (map_size ∙ mapped.0, mapped.1),
      refl,
      h'.next ∙ sym h.next,
    )

few_positions :
    (s : Segment) (rs : List (List ℕ)) (h : HoldsRecords s rs) → length h.positions + 1 < u32_mod
few_positions s rs h =
    omega (arith, length-AllHold (content s.store) h.positions rs h.stored, h.few)

-- A segment that is closed and opened again holds the same records at the same offsets.
pub close-Reopens :
    (s : Segment) (rs : List (List ℕ))
    → HoldsRecords s rs
    → IsConfigured s
    → Reopens s rs (Segment.close s)
unfolding Segment.close Store.close Store.flush
close-Reopens s rs h mapped =
    let (ix, e, w, size, map_size) =
      new-close s.index h.positions (index_config s.cfg) h.indexed mapped (few_positions s rs h) in
    reopens s rs h (Segment.close s) ix mapped refl e w size map_size

-- So does a segment that is opened after a crash, if nothing was left in the store's buffer.
pub crash-Reopens :
    (s : Segment) (rs : List (List ℕ))
    → HoldsRecords s rs
    → IsConfigured s
    → s.store.pending ≡ []
    → Reopens s rs (Segment.crash s)
unfolding Segment.crash
crash-Reopens s rs h mapped flushed =
    let e =
      new-after_crash s.index h.positions (index_config s.cfg) h.indexed mapped
        (few_positions s rs h) in
    reopens s rs h (Segment.crash s) s.index mapped
      (sym (append-nil s.store.file) ∙ ap (◌++◌ s.store.file) (sym flushed)) e h.indexed refl refl

synced_pending :
    (s : Store) (payload : List ℕ)
    → s.config.sync_writes ≡ true
    → (Store.append s payload).0.pending ≡ []
unfolding Store.append Store.flush
synced_pending s payload sync = ground arith

-- With synchronous writes, an append that finds room survives a crash right after it: the segment
-- opened from the files holds the old records and the new one.
pub append-crash :
    (s : Segment) (rs : List (List ℕ)) (payload : List ℕ)
    → HoldsRecords s rs
    → RoomFor s rs payload
    → IsConfigured s
    → s.store.config.sync_writes ≡ true
    → Reopens
        (Segment.append s payload).0
        (rs ++ payload ∷ [])
        (Segment.crash (Segment.append s payload).0)
append-crash s rs payload h room mapped sync =
    let map_size = (write-Written s.index h.positions s.store.size h.indexed room.index_room).2 in
    rw (append_room s rs payload h room) (
      crash-Reopens (grown s payload (length h.positions)) (rs ++ payload ∷ [])
        (grown-HoldsRecords s rs payload h room) (map_size ∙ mapped.0, mapped.1)
        (synced_pending s.store payload sync))
