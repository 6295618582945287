-- ===== src/Log/Segmented.antt =====
-- src/log.rs: the log over its segments. The last segment is the active one, unless a truncation
-- has removed them all.
pub mod Contents
pub mod Appending
pub mod Reading
pub mod Lookup
pub mod Refinement
pub mod Truncation
pub mod Shortening
pub mod Faults
pub mod Opening
pub mod Files
pub mod Left
pub mod Synced
pub mod Reopening
pub mod Crashing
pub mod Directory
mod Examples
use raft_distributed_log_rs.Log.Segment
use mathlib.Core.Option
use raft_distributed_log_rs.Log.Io.{IoResult, done, failed, io_error, panicked, unexpected_eof}
use raft_distributed_log_rs.Log.Segment.{Segment, SegmentFiles}
use raft_distributed_log_rs.Prelude.{
  Bool, List, Option, [], get_elem?, if◌then◌else◌, length, ltb, none, some, suc, take,
  wrapping_add, zero, ℕ, ◌++◌, ◌+◌, ◌-◌, ◌==◌, ◌∷◌,
}

pub record Config : Type 0 where
  pub inital_offset : ℕ
  pub sync_writes : Bool
  pub max_size_bytes : ℕ
  pub max_store_bytes : ℕ

-- `disk` has, for each base offset, the two files in `dir`, empty where there are none. A file is
-- read from it when its segment is opened; the files of open segments are in the segments.
pub record Log : Type 0 where
  pub active_index : ℕ
  pub disk : ℕ → SegmentFiles
  pub cfg : Config
  pub segments : List Segment

abbrev pub segment_config : Config → Segment.Config
segment_config cfg = record {
  max_index_bytes = cfg.max_size_bytes;
  max_store_bytes = cfg.max_store_bytes;
  sync_writes = cfg.sync_writes;
}

unfoldable pub new_segment : Config → ℕ → (ℕ → SegmentFiles) → IoResult Segment
new_segment cfg off disk = Segment.new (segment_config cfg) off (disk off)

-- `new`, from the offsets of the files in the directory in rising order, each once.
unfoldable pub open_segments : Config → List ℕ → (ℕ → SegmentFiles) → IoResult (List Segment)
open_segments cfg [] disk = done []
open_segments cfg (off ∷ offsets) disk =
    let rest = open_segments cfg offsets disk in
    elim (new_segment cfg off disk) [
      | done s ↦ elim rest [ done ss ↦ done (s ∷ ss) | failed e ↦ failed e | panicked ↦ panicked ]
      | failed e ↦ failed e
      | panicked ↦ panicked
    ]

abbrev pub with_initial : Config → List ℕ → List ℕ
with_initial cfg [] = cfg.inital_offset ∷ []
with_initial cfg (off ∷ offsets) = off ∷ offsets

unfoldable pub new : Config → List ℕ → (ℕ → SegmentFiles) → IoResult Log
new cfg offsets disk = elim (open_segments cfg (with_initial cfg offsets) disk) [
  | done ss ↦ done (record { active_index = length ss - 1; disk = disk; cfg = cfg; segments = ss })
  | failed e ↦ failed e
  | panicked ↦ panicked
]

abbrev pub set {ℓ} : {A : Type ℓ} → List A → ℕ → A → List A
set [] i v = []
set (x ∷ xs) zero v = v ∷ xs
set (x ∷ xs) (suc i) v = x ∷ set xs i v

-- The rotation, once a new segment is open.
abbrev pub rotated : Log → ℕ → IoResult Segment → Log × IoResult ℕ
rotated l off (done s) =
    (record l { segments = l.segments ++ s ∷ []; active_index = l.active_index + 1 }, done off)
rotated l off (failed e) = (l, failed e)
rotated l off panicked = (l, panicked)

-- What follows the append to the active segment.
abbrev pub after_append : Log → Segment × IoResult ℕ → Log × IoResult ℕ
after_append l (s, done off) =
    let l₁ = record l { segments = set l.segments l.active_index s } in
    if Segment.is_maxed s
    then rotated l₁ off (new_segment l.cfg (wrapping_add off 1) l.disk)
    else (l₁, done off)
after_append l (s, failed e) = (record l { segments = set l.segments l.active_index s }, failed e)
after_append l (s, panicked) = (record l { segments = set l.segments l.active_index s }, panicked)

abbrev pub append_to : Log → List ℕ → Option Segment → Log × IoResult ℕ
append_to l buf none = (l, panicked)
append_to l buf (some s) = after_append l (Segment.append s buf)

-- An index past the segments panics.
unfoldable pub append : Log → List ℕ → Log × IoResult ℕ
append l buf = append_to l buf (get_elem? l.segments l.active_index)

-- `read`: the first segment that has the offset in range.
unfoldable pub read_segments : List Segment → ℕ → List Segment × IoResult (List ℕ)
read_segments [] off = ([], failed (io_error unexpected_eof "offset out of range"))
read_segments (s ∷ ss) off =
    let rest = read_segments ss off in
    if Segment.is_in_range s off
    then ((Segment.read s off).0 ∷ ss, (Segment.read s off).1)
    else (s ∷ rest.0, rest.1)

unfoldable pub read : Log → ℕ → Log × IoResult (List ℕ)
read l off = let (ss, r) = read_segments l.segments off in (record l { segments = ss }, r)

unfoldable pub last? : List Segment → Option Segment
last? [] = none
last? (s ∷ []) = some s
last? (s ∷ s' ∷ ss) = last? (s' ∷ ss)

unfoldable pub pop : List Segment → List Segment
pop [] = []
pop (s ∷ []) = []
pop (s ∷ s' ∷ ss) = s ∷ pop (s' ∷ ss)

-- `remove` deletes the two files.
unfoldable pub delete_files : (ℕ → SegmentFiles) → ℕ → ℕ → SegmentFiles
delete_files disk base off =
    if base == off then record { store_file = []; index_file = [] } else disk off

-- One round of `truncate`: the last segment is removed with its files.
unfoldable pub drop_last : Log → Segment → Log
drop_last l s = record l {
  segments = pop l.segments;
  disk = delete_files l.disk s.base_offset;
  active_index = l.active_index - 1;
}

-- The loop of `truncate`, for as many rounds as there are segments at most.
unfoldable pub truncate_loop : ℕ → Log → ℕ → Log
truncate_loop zero l off = l
truncate_loop (suc fuel) l off = elim (last? l.segments) [
  | none ↦ l
  | some s ↦
      let rest = truncate_loop fuel (drop_last l s) off in
      if Segment.is_lesser_than_range s off then rest else l
]

unfoldable pub truncate : Log → ℕ → Log
truncate l off = truncate_loop (length l.segments) l off

-- An index past the segments panics: `none`.
unfoldable pub next_offset : Log → Option ℕ
next_offset l = Option.map (λ (s : Segment). s.next_offset) (get_elem? l.segments l.active_index)

-- The files that `close` leaves.
unfoldable pub close_files : List Segment → (ℕ → SegmentFiles) → ℕ → SegmentFiles
close_files [] disk off = disk off
close_files (s ∷ ss) disk off =
    let rest = close_files ss disk off in if s.base_offset == off then Segment.close s else rest

-- `close` goes through the segments up to the active one, and panics where there is none.
unfoldable pub close : Log → IoResult (ℕ → SegmentFiles)
close l =
    if ltb l.active_index (length l.segments)
    then done (close_files (take (l.active_index + 1) l.segments) l.disk)
    else panicked
