-- ===== src/Log/Segmented/Reopening.antt =====
-- src/log.rs: a log that is closed and opened again.
use raft_distributed_log_rs.Log.Segmented
use raft_distributed_log_rs.Log.Segment
use raft_distributed_log_rs.Log.Io.{done}
use raft_distributed_log_rs.Log.Segment.{Segment, SegmentFiles}
use raft_distributed_log_rs.Log.Segment.Reopen.{close-Reopens}
use raft_distributed_log_rs.Log.Segmented.{Log}
use raft_distributed_log_rs.Log.Segmented.Contents.{AllFilled, Chain, Represents, flatten}
use raft_distributed_log_rs.Log.Segmented.Directory.{DirEntry, contains, open_dir, scan, sort}
use raft_distributed_log_rs.Log.Segmented.Directory.Names.{Rising, named, offsets_found}
use raft_distributed_log_rs.Log.Segmented.Directory.Rising.{Rising-unique}
use raft_distributed_log_rs.Log.Segmented.Files.{bases}
use raft_distributed_log_rs.Log.Segmented.Left.{All, left, left-new}
use raft_distributed_log_rs.Prelude.{
  List, [], ap, arith, false, length, length-append, refl, some, subst, sym, take-all, ℕ, ◌++◌, ◌+◌,
  ◌<◌, ◌∙◌, ◌∷◌, ◌≡◌,
}

close_files-left :
    (ss : List Segment) (disk : ℕ → SegmentFiles) (off : ℕ)
    → Segmented.close_files ss disk off ≡ left Segment.close ss disk off
unfolding Segmented.close_files left
close_files-left [] disk off = refl
close_files-left (s ∷ ss) disk off = ground (arith, close_files-left ss disk off)

every : (ss : List Segment) → All (λ _. Unit {0}) ss
every [] = tt
every (s ∷ ss) = (tt, every ss)

closes :
    (l : Log) (b : ℕ) (all : List (List ℕ)) (h : Represents l b all)
    → Segmented.close l ≡ done (Segmented.close_files (h.front ++ h.act ∷ []) l.disk)
unfolding Segmented.close
closes l b all h =
    let whole = h.front ++ h.act ∷ [] in
    ground (
      arith,
      h.shape,
      h.active,
      length-append h.front (h.act ∷ []),
      take-all whole (length h.front + 1) (omega (arith, length-append h.front (h.act ∷ []))),
    )

-- A log that is closed, and opened again from the files that the close leaves, under the offsets in
-- their names, represents the same records from the same offset on, ready for more.
pub close-new :
    (l : Log) (b : ℕ) (all : List (List ℕ))
    → Represents l b all
    → (disk : ℕ → SegmentFiles) × (l' : Log) × (Segmented.close l ≡ done disk)
      × (Segmented.new l.cfg (bases l.segments) disk ≡ done l')
      × Represents l' b all
close-new l b all h =
    let disk = Segmented.close_files (h.front ++ h.act ∷ []) l.disk in
    let (l', opens, represents) =
      left-new Segment.close (λ _. Unit {0})
        (λ s rs holds configured _. close-Reopens s rs holds configured) l b all disk h
        (every l.segments)
        (λ off.
          close_files-left (h.front ++ h.act ∷ []) l.disk off
          ∙ ap (λ (ss : List Segment). left Segment.close ss l.disk off) (sym h.shape)) in
    (disk, l', closes l b all h, opens, represents)

bases_above :
    (b x : ℕ) (ss : List Segment) (groups : List (List (List ℕ)))
    → Chain b ss groups
    → x < b
    → contains x (bases ss) ≡ false
unfolding contains
bases_above b x [] groups c h = refl
bases_above b x (s ∷ ss) [] c h = absurd c
bases_above b x (s ∷ ss) (rs ∷ groups) c h =
    ground (arith, c.0, bases_above (b + length rs) x ss groups c.2 (omega arith))

bases-Rising :
    (b : ℕ) (front : List Segment) (groups : List (List (List ℕ))) (act : Segment)
    → Chain b front groups
    → AllFilled groups
    → act.base_offset ≡ b + length (flatten groups)
    → Rising (bases (front ++ act ∷ []))
bases-Rising b [] groups act c f h = tt
bases-Rising b (s ∷ ss) [] act c f h = absurd c
bases-Rising b (s ∷ []) (rs ∷ []) act c f h = (omega (arith, c.0, f.0, h, length-append rs []), tt)
bases-Rising b (s ∷ []) (rs ∷ x ∷ groups) act c f h = absurd c.2
bases-Rising b (s ∷ x ∷ ss) (rs ∷ []) act c f h = absurd c.2
bases-Rising b (s ∷ x ∷ ss) (rs ∷ g ∷ groups) act c f h = (
  omega (arith, c.0, c.2.0, f.0),
  bases-Rising (b + length rs) (x ∷ ss) (g ∷ groups) act c.2 f.1
      (omega (arith, h, length-append rs (flatten (g ∷ groups)))),
)

-- The names that are found in the directory of a log are those of its segments.
pub names-bases :
    (l : Log) (b : ℕ) (all : List (List ℕ)) (entries : List DirEntry)
    → Represents l b all
    → ((x : ℕ) → named x entries ≡ contains x (bases l.segments))
    → sort (scan entries []) ≡ bases l.segments
names-bases l b all entries h names =
    let (rising, found) = offsets_found entries in
    let rises : Rising (bases l.segments) =
      subst (λ (ss : List Segment). Rising (bases ss)) (sym h.shape)
        (bases-Rising b h.front h.groups h.act h.chained h.filled h.act_base) in
    Rising-unique (sort (scan entries [])) (bases l.segments) rising rises (λ x. found x ∙ names x)

-- A log that is closed, and opened again in its directory, where the names of the files are those of
-- its segments and the files are those that the close leaves, represents the same records from the
-- same offset on, ready for more.
pub close-open_dir :
    (l : Log) (b : ℕ) (all : List (List ℕ)) (entries : List DirEntry)
    → Represents l b all
    → ((x : ℕ) → named x entries ≡ contains x (bases l.segments))
    → (disk : ℕ → SegmentFiles) × (l' : Log) × (Segmented.close l ≡ done disk)
      × (open_dir l.cfg (some entries) disk ≡ done l')
      × Represents l' b all
unfolding open_dir
close-open_dir l b all entries h names =
    let (disk, l', closes', opens, represents) = close-new l b all h in
    (disk, l', closes', rw (names-bases l b all entries h names) opens, represents)
