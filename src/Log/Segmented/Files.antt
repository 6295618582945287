-- ===== src/Log/Segmented/Files.antt =====
-- src/log.rs: segments opened from files that hold their records.
use raft_distributed_log_rs.Log.Segmented
use raft_distributed_log_rs.Log.Segment
use raft_distributed_log_rs.Log.Index.{entire_width}
use raft_distributed_log_rs.Log.Io.{done}
use raft_distributed_log_rs.Log.Segment.{Segment, SegmentFiles}
use raft_distributed_log_rs.Log.Segment.Fresh.{no_files}
use raft_distributed_log_rs.Log.Segment.Records.{HoldsRecords, length-AllHold}
use raft_distributed_log_rs.Log.Segment.Reopen.{IsConfigured, Reopens}
use raft_distributed_log_rs.Log.Segmented.{Log, segment_config}
use raft_distributed_log_rs.Log.Segmented.Contents.{
  AllFilled, AllMapped, Chain, Represents, flatten,
}
use raft_distributed_log_rs.Log.Store.Records.{content}
use raft_distributed_log_rs.Prelude.{
  List, [], ap, arith, length, length-append, refl, suc, ℕ, ◌%◌, ◌*◌, ◌++◌, ◌+◌, ◌-◌, ◌<◌, ◌∙◌, ◌∷◌,
  ◌≡◌, ◌≤◌,
}

-- The base offsets of the segments, which are in the names of their files.
abbrev pub bases : List Segment → List ℕ
bases [] = []
bases (s ∷ ss) = s.base_offset ∷ bases ss

-- Each segment can be opened again from its files.
abbrev pub Files : (ℕ → SegmentFiles) → List Segment → List (List (List ℕ)) → Type 0
Files disk [] [] = Unit {0}
Files disk (s ∷ ss) (rs ∷ groups) = Reopens s rs (disk s.base_offset) × Files disk ss groups
Files disk _ _ = ⊥

new-cfg :
    (cfg : Segment.Config) (b : ℕ) (files : SegmentFiles) (s : Segment)
    → Segment.new cfg b files ≡ done s
    → s.cfg ≡ cfg
unfolding Segment.new
new-cfg cfg b files s h = ground arith

pub open_cons :
    (cfg : Segmented.Config) (off : ℕ) (offsets : List ℕ) (disk : ℕ → SegmentFiles) (s : Segment)
    (ss : List Segment)
    → Segment.new (segment_config cfg) off (disk off) ≡ done s
    → Segmented.open_segments cfg offsets disk ≡ done ss
    → Segmented.open_segments cfg (off ∷ offsets) disk ≡ done (s ∷ ss)
unfolding Segmented.open_segments Segmented.new_segment
open_cons cfg off offsets disk s ss h rest = ground (arith, h, rest)

-- Opening them all gives segments that hold the same records.
abbrev Opened :
    Segmented.Config → ℕ → List Segment → List (List (List ℕ)) → (ℕ → SegmentFiles) → Type 0
Opened cfg b ss groups disk =
    (ss' : List Segment) × (Segmented.open_segments cfg (bases ss) disk ≡ done ss')
    × Chain b ss' groups
    × AllMapped cfg ss'

open-Chain :
    (cfg : Segmented.Config) (b : ℕ) (ss : List Segment) (groups : List (List (List ℕ)))
    (disk : ℕ → SegmentFiles)
    → Chain b ss groups
    → AllMapped cfg ss
    → Files disk ss groups
    → Opened cfg b ss groups disk
unfolding Segmented.open_segments
open-Chain cfg b [] [] disk c m f = ([], refl, tt, tt)
open-Chain cfg b [] (rs ∷ groups) disk c m f = absurd c
open-Chain cfg b (s ∷ ss) [] disk c m f = absurd c
open-Chain cfg b (s ∷ ss) (rs ∷ groups) disk c m f =
    let (ss', opens, chain, mapped) = open-Chain cfg (b + length rs) ss groups disk c.2 m.1 f.1 in
    let (s', opens', holds, configured, base, next) = f.0 in
    let now : Segment.new (segment_config cfg) s.base_offset (disk s.base_offset) ≡ done s' =
      rw m.0.1 at opens' in
    (
      s' ∷ ss',
      open_cons cfg s.base_offset (bases ss) disk s' ss' now opens,
      (base ∙ c.0, holds, chain),
      (
        (configured, new-cfg (segment_config cfg) s.base_offset (disk s.base_offset) s' now),
        mapped,
      ),
    )

-- The last segment of a chain apart from the others.
record Split (cfg : Segmented.Config) (b : ℕ) (ss : List Segment) (groups : List (List (List ℕ)))
    (recent : List (List ℕ)) : Type 0 where
  front : List Segment
  act : Segment
  shape : ss ≡ front ++ act ∷ []
  active : length ss ≡ suc (length front)
  chained : Chain b front groups
  act_base : act.base_offset ≡ b + length (flatten groups)
  act_holds : HoldsRecords act recent
  front_mapped : AllMapped cfg front
  act_mapped : IsConfigured act × (act.cfg ≡ segment_config cfg)

last_segment :
    (cfg : Segmented.Config) (b : ℕ) (ss : List Segment) (groups : List (List (List ℕ)))
    (recent : List (List ℕ))
    → Chain b ss (groups ++ recent ∷ [])
    → AllMapped cfg ss
    → Split cfg b ss groups recent
last_segment cfg b [] [] recent c m = absurd c
last_segment cfg b [] (rs ∷ groups) recent c m = absurd c
last_segment cfg b (s ∷ []) [] recent c m = record {
  front = [];
  act = s;
  shape = refl;
  active = refl;
  chained = tt;
  act_base = omega (arith, c.0);
  act_holds = c.1;
  front_mapped = tt;
  act_mapped = m.0;
}
last_segment cfg b (s ∷ x ∷ ss) [] recent c m = absurd c.2
last_segment cfg b (s ∷ ss) (rs ∷ groups) recent c m =
    let rest = last_segment cfg (b + length rs) ss groups recent c.2 m.1 in
    record {
      front = s ∷ rest.front;
      act = rest.act;
      shape = ap (◌∷◌ s) rest.shape;
      active = ap suc rest.active;
      chained = (c.0, c.1, rest.chained);
      act_base = omega (arith, rest.act_base, length-append rs (flatten groups));
      act_holds = rest.act_holds;
      front_mapped = (m.0, rest.front_mapped);
      act_mapped = rest.act_mapped;
    }

new_opened :
    (cfg : Segmented.Config) (b : ℕ) (ss : List Segment) (groups : List (List (List ℕ)))
    (recent : List (List ℕ)) (disk : ℕ → SegmentFiles) (ss' : List Segment)
    → Chain b ss (groups ++ recent ∷ [])
    → Segmented.open_segments cfg (bases ss) disk ≡ done ss'
    → Segmented.new cfg (bases ss) disk
      ≡ done (record { active_index = length ss' - 1; disk = disk; cfg = cfg; segments = ss' })
unfolding Segmented.new
new_opened cfg b [] [] recent disk ss' c h = absurd c
new_opened cfg b [] (rs ∷ groups) recent disk ss' c h = absurd c
new_opened cfg b (s ∷ ss) groups recent disk ss' c h = ground (arith, h)

-- The records of a log stand in its files, so a log opened from them represents the records.
pub reopens :
    (cfg : Segmented.Config) (b : ℕ) (ss : List Segment) (groups : List (List (List ℕ)))
    (recent all : List (List ℕ)) (disk : ℕ → SegmentFiles)
    → Chain b ss (groups ++ recent ∷ [])
    → AllMapped cfg ss
    → AllFilled groups
    → Files disk ss (groups ++ recent ∷ [])
    → all ≡ flatten groups ++ recent
    → length recent * entire_width + entire_width ≤ cfg.max_size_bytes
    → cfg.max_size_bytes % entire_width ≡ 0
    → ((off : ℕ) → b + length all < off → disk off ≡ no_files)
    → (l : Log) × (Segmented.new cfg (bases ss) disk ≡ done l) × Represents l b all
reopens cfg b ss groups recent all disk c m filled f contents ready aligned clean =
    let (ss', opens, chain, mapped) = open-Chain cfg b ss (groups ++ recent ∷ []) disk c m f in
    let last = last_segment cfg b ss' groups recent chain mapped in
    let l : Log = record {
      active_index = length ss' - 1;
      disk = disk;
      cfg = cfg;
      segments = ss';
    } in
    (
      l,
      new_opened cfg b ss groups recent disk ss' c opens,
      record {
        front = last.front;
        groups = groups;
        act = last.act;
        recent = recent;
        shape = last.shape;
        contents = contents;
        active = omega (arith, last.active);
        chained = last.chained;
        act_base = last.act_base;
        act_holds = last.act_holds;
        act_mapped = last.act_mapped.0;
        act_cfg = last.act_mapped.1;
        front_mapped = last.front_mapped;
        filled = filled;
        ready = omega (
          arith,
          ready,
          last.act_holds.indexed.counted,
          length-AllHold (content last.act.store) last.act_holds.positions recent
              last.act_holds.stored,
          last.act_mapped.0.0,
          ap (λ (x : Segment.Config). x.max_index_bytes) last.act_mapped.1,
        );
        aligned = aligned;
        clean = clean;
      },
    )
