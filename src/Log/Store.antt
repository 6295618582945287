-- ===== src/Log/Store.antt =====
-- src/log/store.rs: the append-only file of length-prefixed records, behind a BufWriter. A record's
-- length is written as 8 bytes, most significant first. `+` on u64 wraps.
pub mod Records
use raft_distributed_log_rs.Log.Io.{IoResult, done, failed, panicked, read_exact_at}
use raft_distributed_log_rs.Prelude.{
  Bool, List, [], from_be, if◌then◌else◌, leb, length, ltb, to_be, wrapping_add, ℕ, ◌++◌, ◌+◌, ◌^◌,
}

pub record Config : Type 0 where
  pub sync_writes : Bool

-- `pending` holds the bytes in the BufWriter; `file` holds those that were handed on.
pub record Store : Type 0 where
  pub size : ℕ
  pub file : List ℕ
  pub pending : List ℕ
  pub config : Config

abbrev pub length_width : ℕ
length_width = 8

-- The default capacity of a BufWriter.
abbrev buffer_capacity : ℕ
buffer_capacity = 8192

unfoldable pub new : List ℕ → Config → Store
new file config = record { size = length file; file = file; pending = []; config = config }

unfoldable pub flush : Store → Store
flush s = record s { file = s.file ++ s.pending; pending = [] }

-- `BufWriter::write` and `write_all`: what does not fit makes room first, and what is as large as
-- the buffer goes past it.
unfoldable pub buffer_write : Store → List ℕ → Store
buffer_write s buf =
    if ltb (length s.pending + length buf) buffer_capacity
    then record s { pending = s.pending ++ buf }
    else let s₁ = (if ltb buffer_capacity (length s.pending + length buf) then flush s else s) in
      if leb buffer_capacity (length buf)
      then record s₁ { file = s₁.file ++ buf }
      else record s₁ { pending = s₁.pending ++ buf }

-- `append`: the store, and the number of bytes written.
unfoldable pub append : Store → List ℕ → Store × ℕ
append s buf =
    let len_bytes = to_be length_width (length buf) in
    let s₁ = buffer_write (buffer_write s len_bytes) buf in
    let written = length buf + length_width in
    let s₂ = record s₁ { size = wrapping_add s.size written } in
    (if s.config.sync_writes then flush s₂ else s₂, written)

-- The part of `read` after the length: `resize` panics at a length of 2^63 or more, and no file has
-- as many bytes.
abbrev pub read_sized : List ℕ → ℕ → ℕ → IoResult (List ℕ)
read_sized file size pos = elim (read_exact_at file size pos) [
  | done buf ↦ done buf
  | failed e ↦ if leb (2 ^ 63) size then panicked else failed e
  | panicked ↦ panicked
]

-- `read`: the store after its flush, and the bytes of the record at `pos`.
unfoldable pub read : Store → ℕ → Store × IoResult (List ℕ)
read s pos =
    let s₁ = flush s in
    (
      s₁,
      elim (read_exact_at s₁.file length_width pos) [
        | done size ↦ read_sized s₁.file (from_be size) (pos + length_width)
        | failed e ↦ failed e
        | panicked ↦ panicked
      ],
    )

abbrev pub len : Store → ℕ
len s = s.size

unfoldable pub close : Store → Store
close s = flush s
