-- ===== src/Log/Segmented/Synced.antt =====
-- src/log.rs: a log that writes synchronously keeps nothing back in its buffers.
use raft_distributed_log_rs.Log.Segmented
use raft_distributed_log_rs.Log.Segment
use raft_distributed_log_rs.Log.Store
use raft_distributed_log_rs.Log.Io.{IoResult, done, failed, panicked}
use raft_distributed_log_rs.Log.Segment.{Segment, SegmentFiles, opened}
use raft_distributed_log_rs.Log.Segmented.{Log, after_append, append_to, rotated, with_initial}
use raft_distributed_log_rs.Log.Segmented.Left.{All, All-append}
use raft_distributed_log_rs.Log.Store.{Store}
use raft_distributed_log_rs.Prelude.{
  Bool-cases, List, Option, [], arith, get_elem?, inl, inr, length, none, refl, some, subst, suc,
  true, wrapping_add, zero, ℕ, ◌-◌, ◌∷◌, ◌≡◌,
}

-- The buffer is empty, and stays so.
abbrev pub IsSynced : Segment → Type 0
IsSynced s = (s.store.pending ≡ []) × (s.store.config.sync_writes ≡ true)

append_store-IsSynced :
    (s : Store) (payload : List ℕ)
    → s.config.sync_writes ≡ true
    → ((Store.append s payload).0.pending ≡ [])
      × ((Store.append s payload).0.config.sync_writes ≡ true)
unfolding Store.append Store.flush Store.buffer_write
append_store-IsSynced s payload sync = ground (arith, sync)

append_segment-IsSynced :
    (s : Segment) (payload : List ℕ) → IsSynced s → IsSynced (Segment.append s payload).0
unfolding Segment.append
append_segment-IsSynced s payload h = ground (arith, append_store-IsSynced s.store payload h.1)

read_segment-IsSynced : (s : Segment) (off : ℕ) → IsSynced s → IsSynced (Segment.read s off).0
unfolding Segment.read Store.read Store.flush
read_segment-IsSynced s off h = ground arith

-- Every segment of the log is.
abbrev pub AllSynced : List Segment → Type 0
AllSynced = All IsSynced

-- What opening returns is, if it returns anything.
abbrev SegmentSynced : IoResult Segment → Type 0
SegmentSynced (done s) = IsSynced s
SegmentSynced _ = Unit {0}

abbrev ListSynced : IoResult (List Segment) → Type 0
ListSynced (done ss) = AllSynced ss
ListSynced _ = Unit {0}

abbrev pub LogSynced : IoResult Log → Type 0
LogSynced (done l) = AllSynced l.segments
LogSynced _ = Unit {0}

new_segment-SegmentSynced :
    (cfg : Segmented.Config) (off : ℕ) (disk : ℕ → SegmentFiles)
    → cfg.sync_writes ≡ true
    → SegmentSynced (Segmented.new_segment cfg off disk)
unfolding Segmented.new_segment Segment.new Store.new
new_segment-SegmentSynced cfg off disk sync = ground (arith, sync)

cons-ListSynced :
    (first : IoResult Segment) (rest : IoResult (List Segment))
    → SegmentSynced first
    → ListSynced rest
    → ListSynced (elim first as (λ _. IoResult (List Segment)) [
      | done s ↦ elim rest as (λ _. IoResult (List Segment)) [
        | done ss ↦ done (s ∷ ss)
        | failed e ↦ failed e
        | panicked ↦ panicked
      ]
      | failed e ↦ failed e
      | panicked ↦ panicked
    ])
cons-ListSynced (done s) (done ss) h k = (h, k)
cons-ListSynced (done s) (failed e) h k = tt
cons-ListSynced (done s) panicked h k = tt
cons-ListSynced (failed e) rest h k = tt
cons-ListSynced panicked rest h k = tt

open_segments-ListSynced :
    (cfg : Segmented.Config) (offsets : List ℕ) (disk : ℕ → SegmentFiles)
    → cfg.sync_writes ≡ true
    → ListSynced (Segmented.open_segments cfg offsets disk)
unfolding Segmented.open_segments
open_segments-ListSynced cfg [] disk sync = tt
open_segments-ListSynced cfg (off ∷ offsets) disk sync =
    cons-ListSynced (Segmented.new_segment cfg off disk) _
      (new_segment-SegmentSynced cfg off disk sync) (open_segments-ListSynced cfg offsets disk sync)

pub new-LogSynced :
    (cfg : Segmented.Config) (offsets : List ℕ) (disk : ℕ → SegmentFiles)
    → cfg.sync_writes ≡ true
    → LogSynced (Segmented.new cfg offsets disk)
unfolding Segmented.new
new-LogSynced cfg offsets disk sync =
    opened (Segmented.open_segments cfg (with_initial cfg offsets) disk)
      (open_segments-ListSynced cfg (with_initial cfg offsets) disk sync)
  where
    opened :
        (r : IoResult (List Segment))
        → ListSynced r
        → LogSynced (elim r as (λ _. IoResult Log) [
          | done ss ↦
              done (record { active_index = length ss - 1; disk = disk; cfg = cfg; segments = ss })
          | failed e ↦ failed e
          | panicked ↦ panicked
        ])
    opened (done ss) h = h
    opened (failed e) h = tt
    opened panicked h = tt

set-AllSynced :
    (ss : List Segment) (i : ℕ) (s : Segment)
    → AllSynced ss
    → IsSynced s
    → AllSynced (Segmented.set ss i s)
set-AllSynced [] i s h p = tt
set-AllSynced (x ∷ ss) zero s h p = (p, h.1)
set-AllSynced (x ∷ ss) (suc i) s h p = (h.0, set-AllSynced ss i s h.1 p)

rotated-AllSynced :
    (l : Log) (off : ℕ) (r : IoResult Segment)
    → AllSynced l.segments
    → SegmentSynced r
    → AllSynced (rotated l off r).0.segments
rotated-AllSynced l off (done s) h p = All-append IsSynced l.segments s h p
rotated-AllSynced l off (failed e) h p = h
rotated-AllSynced l off panicked h p = h

after_append-AllSynced :
    (l : Log) (s : Segment) (r : IoResult ℕ)
    → l.cfg.sync_writes ≡ true
    → AllSynced l.segments
    → IsSynced s
    → AllSynced (after_append l (s, r)).0.segments
after_append-AllSynced l s (failed e) sync h p = set-AllSynced l.segments l.active_index s h p
after_append-AllSynced l s panicked sync h p = set-AllSynced l.segments l.active_index s h p
after_append-AllSynced l s (done off) sync h p =
    let stays = set-AllSynced l.segments l.active_index s h p in
    elim (Bool-cases (Segment.is_maxed s)) [
      | inl maxed ↦ rw maxed (
          rotated-AllSynced (record l { segments = Segmented.set l.segments l.active_index s }) off
            _ stays (new_segment-SegmentSynced l.cfg (wrapping_add off 1) l.disk sync))
      | inr room ↦ rw room stays
    ]

append_to-AllSynced :
    (l : Log) (payload : List ℕ) (found : Option Segment)
    → l.cfg.sync_writes ≡ true
    → AllSynced l.segments
    → (elim found as (λ _. Type 0) [ none ↦ Unit {0} | some s ↦ IsSynced s ])
    → AllSynced (append_to l payload found).0.segments
append_to-AllSynced l payload none sync h p = h
append_to-AllSynced l payload (some s) sync h p =
    after_append-AllSynced l (Segment.append s payload).0 (Segment.append s payload).1 sync h
      (append_segment-IsSynced s payload p)

get-IsSynced :
    (ss : List Segment) (i : ℕ)
    → AllSynced ss
    → (elim (get_elem? ss i) as (λ _. Type 0) [ none ↦ Unit {0} | some s ↦ IsSynced s ])
get-IsSynced [] i h = tt
get-IsSynced (x ∷ ss) zero h = h.0
get-IsSynced (x ∷ ss) (suc i) h = get-IsSynced ss i h.1

-- A synchronous log keeps nothing back after an append, whatever the append returns.
pub append-AllSynced :
    (l : Log) (payload : List ℕ)
    → l.cfg.sync_writes ≡ true
    → AllSynced l.segments
    → AllSynced (Segmented.append l payload).0.segments
unfolding Segmented.append
append-AllSynced l payload sync h =
    append_to-AllSynced l payload (get_elem? l.segments l.active_index) sync h
      (get-IsSynced l.segments l.active_index h)

read_segments-AllSynced :
    (ss : List Segment) (off : ℕ) → AllSynced ss → AllSynced (Segmented.read_segments ss off).0
unfolding Segmented.read_segments
read_segments-AllSynced [] off h = tt
read_segments-AllSynced (s ∷ ss) off h = elim (Bool-cases (Segment.is_in_range s off)) [
  | inl inside ↦ rw inside (read_segment-IsSynced s off h.0, h.1)
  | inr out ↦ rw out (h.0, read_segments-AllSynced ss off h.1)
]

pub read-AllSynced :
    (l : Log) (off : ℕ) → AllSynced l.segments → AllSynced (Segmented.read l off).0.segments
unfolding Segmented.read
read-AllSynced l off h = read_segments-AllSynced l.segments off h

-- If the log writes synchronously, it keeps nothing back.
abbrev pub KeepsNothing : Log → Type 0
KeepsNothing l = l.cfg.sync_writes ≡ true → AllSynced l.segments

new-cfg :
    (cfg : Segmented.Config) (offsets : List ℕ) (disk : ℕ → SegmentFiles) (l : Log)
    → Segmented.new cfg offsets disk ≡ done l
    → l.cfg ≡ cfg
unfolding Segmented.new
new-cfg cfg offsets disk l e = ground (arith, e)

pub new-KeepsNothing :
    (cfg : Segmented.Config) (offsets : List ℕ) (disk : ℕ → SegmentFiles) (l : Log)
    → Segmented.new cfg offsets disk ≡ done l
    → KeepsNothing l
new-KeepsNothing cfg offsets disk l e sync =
    let sync' : cfg.sync_writes ≡ true = rw (new-cfg cfg offsets disk l e) at sync in
    subst LogSynced e (new-LogSynced cfg offsets disk sync')

append_to-cfg :
    (l : Log) (payload : List ℕ) (found : Option Segment)
    → (append_to l payload found).0.cfg ≡ l.cfg
append_to-cfg l payload none = refl
append_to-cfg l payload (some s) = ended (Segment.append s payload).0 (Segment.append s payload).1
  where
    turned : (l' : Log) (off : ℕ) (r : IoResult Segment) → (rotated l' off r).0.cfg ≡ l'.cfg
    turned l' off (done s') = refl
    turned l' off (failed e) = refl
    turned l' off panicked = refl

    ended : (s' : Segment) (r : IoResult ℕ) → (after_append l (s', r)).0.cfg ≡ l.cfg
    ended s' (failed e) = refl
    ended s' panicked = refl
    ended s' (done off) =
        let l₁ : Log = record l { segments = Segmented.set l.segments l.active_index s' } in
        ground (arith, turned l₁ off (Segmented.new_segment l.cfg (wrapping_add off 1) l.disk))

pub append-cfg : (l : Log) (payload : List ℕ) → (Segmented.append l payload).0.cfg ≡ l.cfg
unfolding Segmented.append
append-cfg l payload = append_to-cfg l payload (get_elem? l.segments l.active_index)

pub append-KeepsNothing :
    (l : Log) (payload : List ℕ) → KeepsNothing l → KeepsNothing (Segmented.append l payload).0
append-KeepsNothing l payload h sync =
    let sync' : l.cfg.sync_writes ≡ true = rw (append-cfg l payload) at sync in
    append-AllSynced l payload sync' (h sync')

pub read-KeepsNothing : (l : Log) (off : ℕ) → KeepsNothing l → KeepsNothing (Segmented.read l off).0
unfolding Segmented.read
read-KeepsNothing l off h sync = read-AllSynced l off (h sync)
