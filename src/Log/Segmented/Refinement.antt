-- ===== src/Log/Segmented/Refinement.antt =====
-- src/log.rs: any sequence of calls on the log against the same calls on a plain list.
use raft_distributed_log_rs.Log.Segmented
use mathlib.Core.Option
use raft_distributed_log_rs.Log.Io.{IoResult, done, failed, panicked}
use raft_distributed_log_rs.Log.Segment.{Segment, SegmentFiles}
use raft_distributed_log_rs.Log.Segmented.{Log}
use raft_distributed_log_rs.Log.Segmented.Appending.{Space, append-Represents}
use raft_distributed_log_rs.Log.Segmented.Contents.{Represents, flatten, get_elem?-last}
use raft_distributed_log_rs.Log.Segmented.Crashing.{crash-new, crash_files}
use raft_distributed_log_rs.Log.Segmented.Files.{bases}
use raft_distributed_log_rs.Log.Segmented.Lookup.{lookup, read-lookup}
use raft_distributed_log_rs.Log.Segmented.Reopening.{close-new}
use raft_distributed_log_rs.Log.Segmented.Synced.{
  KeepsNothing, append-KeepsNothing, new-KeepsNothing, read-KeepsNothing,
}
use raft_distributed_log_rs.Prelude.{
  List, Option, [], ap, arith, get_elem?, length, length-append, refl, some, true, ℕ, ◌++◌, ◌+◌,
  ◌∙◌, ◌∷◌, ◌≡◌,
}
use raft_distributed_log_rs.Raft.Cluster.{after}

-- What happens to a log. A reopening is a close, then `new` on the files that it leaves; a crash is
-- `new` on the files as they are.
pub data Call : Type 0 where
  append_call : List ℕ → Call
  read_call : ℕ → Call
  next_offset_call : Call
  reopen_call : Call
  crash_call : Call

pub data Answer : Type 0 where
  append_answer : IoResult ℕ → Answer
  read_answer : IoResult (List ℕ) → Answer
  next_offset_answer : Option ℕ → Answer
  reopened_answer : Answer
  reopen_failed : Answer

-- The abstract log: the offset of its first record, and its records.
abbrev pub list_call : ℕ → List (List ℕ) → Call → List (List ℕ) × Answer
list_call b all (append_call payload) = (all ++ payload ∷ [], append_answer (done (b + length all)))
list_call b all (read_call off) = (all, read_answer (lookup b all off))
list_call b all next_offset_call = (all, next_offset_answer (some (b + length all)))
list_call b all reopen_call = (all, reopened_answer)
list_call b all crash_call = (all, reopened_answer)

abbrev pub reopened : Log → IoResult Log → Log × Answer
reopened l (done l') = (l', reopened_answer)
reopened l (failed e) = (l, reopen_failed)
reopened l panicked = (l, reopen_failed)

abbrev pub close_and_open : Log → IoResult (ℕ → SegmentFiles) → Log × Answer
close_and_open l (done disk) = reopened l (Segmented.new l.cfg (bases l.segments) disk)
close_and_open l (failed e) = (l, reopen_failed)
close_and_open l panicked = (l, reopen_failed)

abbrev pub log_call : Log → Call → Log × Answer
log_call l (append_call payload) = let r = Segmented.append l payload in (r.0, append_answer r.1)
log_call l (read_call off) = let r = Segmented.read l off in (r.0, read_answer r.1)
log_call l next_offset_call = (l, next_offset_answer (Segmented.next_offset l))
log_call l reopen_call = close_and_open l (Segmented.close l)
log_call l crash_call = reopened l (Segmented.new l.cfg (bases l.segments) (crash_files l))

abbrev pub list_calls : ℕ → List (List ℕ) → List Call → List (List ℕ) × List Answer
list_calls b all [] = (all, [])
list_calls b all (c ∷ cs) =
    let (all₁, r) = list_call b all c in let (all₂, rs) = list_calls b all₁ cs in (all₂, r ∷ rs)

abbrev pub log_calls : Log → List Call → Log × List Answer
log_calls l [] = (l, [])
log_calls l (c ∷ cs) = let (l₁, r) = log_call l c in let (l₂, rs) = log_calls l₁ cs in (l₂, r ∷ rs)

-- Each record that is appended fits when its turn comes, and a log that crashes writes
-- synchronously.
abbrev pub HasSpace : Log → ℕ → List (List ℕ) → Call → Type 0
HasSpace l b all (append_call payload) = Space l b all payload
HasSpace l b all (read_call off) = Unit {0}
HasSpace l b all next_offset_call = Unit {0}
HasSpace l b all reopen_call = Unit {0}
HasSpace l b all crash_call = l.cfg.sync_writes ≡ true

abbrev pub HasSpaces : Log → ℕ → List (List ℕ) → List Call → Type 0
HasSpaces l b all [] = Unit {0}
HasSpaces l b all (c ∷ cs) =
    HasSpace l b all c × HasSpaces (log_call l c).0 b (list_call b all c).0 cs

pub next_offset-Represents :
    (l : Log) (b : ℕ) (all : List (List ℕ))
    → Represents l b all
    → Segmented.next_offset l ≡ some (b + length all)
unfolding Segmented.next_offset
next_offset-Represents l b all h =
    let at : get_elem? l.segments l.active_index ≡ some h.act =
      rw (h.active, h.shape) (get_elem?-last h.front h.act) in
    let count : h.act.next_offset ≡ b + length all = omega (
      arith,
      h.act_holds.next,
      h.act_base,
      ap length h.contents,
      length-append (flatten h.groups) h.recent,
    ) in
    ap (Option.map (λ (s : Segment). s.next_offset)) at ∙ ap some count

one_call :
    (l : Log) (b : ℕ) (all : List (List ℕ)) (c : Call)
    → Represents l b all
    → KeepsNothing l
    → HasSpace l b all c
    → ((log_call l c).1 ≡ (list_call b all c).1)
      × Represents (log_call l c).0 b (list_call b all c).0
      × KeepsNothing (log_call l c).0
one_call l b all (append_call payload) h k space =
    let (value, after) = append-Represents l b all payload h space in
    (ap append_answer value, after, append-KeepsNothing l payload k)
one_call l b all (read_call off) h k space =
    let (value, after) = read-lookup l b all off h in
    (ap read_answer value, after, read-KeepsNothing l off k)
one_call l b all next_offset_call h k space =
    (ap next_offset_answer (next_offset-Represents l b all h), h, k)
one_call l b all reopen_call h k space =
    let (disk, l', closes, opens, after) = close-new l b all h in
    rw (closes, opens) (refl, after, new-KeepsNothing l.cfg (bases l.segments) disk l' opens)
one_call l b all crash_call h k space =
    let (l', opens, after) = crash-new l b all h (k space) in
    rw opens (refl, after, new-KeepsNothing l.cfg (bases l.segments) (crash_files l) l' opens)

-- On a log that represents some records, a sequence of appends, reads, questions for the next offset,
-- reopenings and crashes gives the answers that the same calls on the list of those records give, and
-- leaves a log that represents the list they leave. Each appended record has space when its turn
-- comes, a log that crashes writes synchronously, and one that does has nothing in its buffers at
-- first.
pub log_calls-list_calls :
    (l : Log) (b : ℕ) (all : List (List ℕ)) (cs : List Call)
    → Represents l b all
    → KeepsNothing l
    → HasSpaces l b all cs
    → ((log_calls l cs).1 ≡ (list_calls b all cs).1)
      × Represents (log_calls l cs).0 b (list_calls b all cs).0
log_calls-list_calls l b all [] h k space = (refl, h)
log_calls-list_calls l b all (c ∷ cs) h k space =
    let (reply, after, kept) = one_call l b all c h k space.0 in
    let (replies, final) =
      log_calls-list_calls (log_call l c).0 b (list_call b all c).0 cs after kept space.1 in
    (rw (reply, replies) refl, final)
