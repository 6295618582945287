-- ===== src/Log/Io.antt =====
-- std::io as far as the log uses it: errors with a kind and a message, and positional reads and
-- writes on the bytes of a file. The operating system takes each write whole.
use raft_distributed_log_rs.Prelude.{
  List, String, append_assoc, arith, drop, drop-append, drop-drop, if◌then◌else◌, leb, length,
  length-append, length-drop, length-take_le, replicate, take, take-append, ℕ, ◌++◌, ◌+◌, ◌-◌, ◌≡◌,
  ◌≤◌,
}

pub data ErrorKind : Type 0 where
  unexpected_eof invalid_input not_a_directory : ErrorKind

pub record IoError : Type 0 where
  pub kind : ErrorKind
  pub message : String

-- An `io::Result`, or a panic.
pub data IoResult {ℓ} (A : Type ℓ) : Type ℓ where
  done : A → IoResult A
  failed : IoError → IoResult A
  panicked : IoResult A

abbrev pub io_error : ErrorKind → String → IoError
io_error kind message = record { kind = kind; message = message }

-- The bytes from `pos` on, as many as asked for.
abbrev pub slice : ℕ → ℕ → List ℕ → List ℕ
slice pos len bytes = take len (drop pos bytes)

-- `read_exact_at`.
unfoldable pub read_exact_at : List ℕ → ℕ → ℕ → IoResult (List ℕ)
read_exact_at file len pos =
    if leb (pos + len) (length file)
    then done (slice pos len file)
    else failed (io_error unexpected_eof "failed to fill whole buffer")

-- `set_len`: cut, or filled up with zeros.
unfoldable pub set_len : ℕ → List ℕ → List ℕ
set_len n file = take n file ++ replicate (n - length file) 0

-- `bytes[pos..pos + n].copy_from_slice(new)`.
unfoldable pub copy_into : List ℕ → ℕ → List ℕ → List ℕ
copy_into bytes pos new = take pos bytes ++ (new ++ drop (pos + length new) bytes)

-- `write_all_at`, which fills a gap before `pos` with zeros.
unfoldable pub write_at : List ℕ → ℕ → List ℕ → List ℕ
unfolding copy_into set_len
write_at file pos new =
    if leb pos (length file) then copy_into file pos new else copy_into (set_len pos file) pos new

pub slice-append :
    (xs bytes ys : List ℕ) (pos n : ℕ)
    → length xs ≡ pos
    → length bytes ≡ n
    → slice pos n (xs ++ (bytes ++ ys)) ≡ bytes
slice-append xs bytes ys pos n at size =
    rw (drop-append xs (bytes ++ ys) pos at) (take-append bytes ys n size)

pub read_exact_at-append :
    (xs bytes ys : List ℕ) (pos n : ℕ)
    → length xs ≡ pos
    → length bytes ≡ n
    → read_exact_at (xs ++ (bytes ++ ys)) n pos ≡ done bytes
unfolding read_exact_at
read_exact_at-append xs bytes ys pos n at size = ground (
  arith,
  slice-append xs bytes ys pos n at size,
  length-append xs (bytes ++ ys),
  length-append bytes ys,
)

drop_two :
    (xs old ys : List ℕ) (m n : ℕ)
    → length xs ≡ m
    → length old ≡ n
    → drop (m + n) (xs ++ (old ++ ys)) ≡ ys
drop_two xs old ys m n at size =
    rw (← drop-drop, drop-append xs (old ++ ys) m at) (drop-append old ys n size)

-- A copy into the middle replaces as many bytes.
pub copy_into-append :
    (xs old new ys : List ℕ) (pos : ℕ)
    → length xs ≡ pos
    → length old ≡ length new
    → copy_into (xs ++ (old ++ ys)) pos new ≡ xs ++ (new ++ ys)
unfolding copy_into
copy_into-append xs old new ys pos at size =
    rw (take-append xs (old ++ ys) pos at, drop_two xs old ys pos (length new) at size)

pub length-copy_into :
    (bytes : List ℕ) (pos : ℕ) (new : List ℕ)
    → pos + length new ≤ length bytes
    → length (copy_into bytes pos new) ≡ length bytes
unfolding copy_into
length-copy_into bytes pos new h = omega (
  arith,
  length-append (take pos bytes) (new ++ drop (pos + length new) bytes),
  length-append new (drop (pos + length new) bytes),
  length-take_le pos bytes (omega arith),
  length-drop (pos + length new) bytes,
)

-- Two copies, one behind the other.
pub copy_into-copy_into :
    (xs old old' new new' ys : List ℕ) (pos : ℕ)
    → length xs ≡ pos
    → length old ≡ length new
    → length old' ≡ length new'
    → copy_into (copy_into (xs ++ (old ++ (old' ++ ys))) pos new) (pos + length new) new'
      ≡ xs ++ (new ++ (new' ++ ys))
copy_into-copy_into xs old old' new new' ys pos at size size' =
    rw (copy_into-append xs old new (old' ++ ys) pos at size) (
      rw (← (append_assoc xs new (old' ++ ys))) (
        rw
          (copy_into-append (xs ++ new) old' new' ys (pos + length new)
            (omega (arith, length-append xs new)) size')
          (append_assoc xs new (new' ++ ys))))
