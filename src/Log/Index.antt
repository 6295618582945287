-- ===== src/Log/Index.antt =====
-- src/log/index.rs: the memory-mapped index. An entry is 4 bytes of offset and 8 bytes of position,
-- most significant first. Sizes are u64, and `usize` is taken to be 64 bits wide.
pub mod Entries
pub mod Padding
pub mod Recovery
pub mod Prefix
use raft_distributed_log_rs.Log.Io.{
  IoResult, copy_into, done, failed, io_error, panicked, set_len, slice, unexpected_eof,
}
use raft_distributed_log_rs.Prelude.{
  List, from_be, if◌then◌else◌, leb, length, ltb, replicate, suc, to_be, u32_mod, zero, ℕ, ◌%◌, ◌*◌,
  ◌+◌, ◌/◌, ◌==◌,
}

pub record Config : Type 0 where
  pub max_size_bytes : ℕ

-- `mmap` is the mapped file, and so its contents too.
pub record Index : Type 0 where
  pub mmap : List ℕ
  pub size : ℕ

abbrev pub off_width : ℕ
off_width = 4

abbrev pub position_width : ℕ
position_width = 8

abbrev pub entire_width : ℕ
entire_width = 12

-- The loop of `recover_size`. Each round that goes on adds to `size`, so one round more than
-- there are bytes is enough.
unfoldable pub recover : ℕ → List ℕ → ℕ → ℕ → ℕ
recover zero mmap size expected = size
recover (suc fuel) mmap size expected =
    let rest = recover fuel mmap (size + entire_width) ((expected + 1) % u32_mod) in
    if leb (size + entire_width) (length mmap)
    then (if from_be (slice size off_width mmap) == expected then rest else size)
    else size

unfoldable pub recover_size : List ℕ → ℕ
recover_size mmap = recover (suc (length mmap)) mmap 0 0

-- `new`, from the bytes of the file. The map is made, also where it is empty.
unfoldable pub new : List ℕ → Config → IoResult Index
new file config =
    let size = length file in
    let mmap = set_len config.max_size_bytes file in
    if size == 0
    then done (record { mmap = replicate (length mmap) 255; size = 0 })
    else if size == config.max_size_bytes
    then done (record { mmap = mmap; size = recover_size mmap })
    else done (record { mmap = mmap; size = size })

unfoldable pub write : Index → ℕ → ℕ → Index × IoResult (Unit {0})
write ix offset pos =
    if ltb (length ix.mmap) (ix.size + entire_width)
    then (ix, failed (io_error unexpected_eof "index is full"))
    else let mmap₁ = copy_into ix.mmap ix.size (to_be off_width offset) in
      let mmap₂ = copy_into mmap₁ (ix.size + off_width) (to_be position_width pos) in
      (record { mmap = mmap₂; size = ix.size + entire_width }, done tt)

-- A slice that runs past the map panics.
unfoldable pub read : Index → ℕ → IoResult (ℕ × ℕ)
read ix off =
    let start = off * entire_width in
    if ltb ix.size (start + entire_width)
    then failed (io_error unexpected_eof "offset bigger than index size")
    else if ltb (length ix.mmap) (start + entire_width)
    then panicked
    else done (
      from_be (slice start off_width ix.mmap),
      from_be (slice (start + off_width) position_width ix.mmap),
    )

abbrev pub len : Index → ℕ
len ix = ix.size

abbrev pub current_offset : Index → ℕ
current_offset ix = ix.size / entire_width

-- `close` cuts the file to the entries written: the bytes that it leaves.
unfoldable pub close : Index → List ℕ
close ix = set_len ix.size ix.mmap
