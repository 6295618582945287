-- ===== src/Log/Tests.antt =====
-- src/log, the modules `test`: the repository's own tests, run on the model. Each is a Boolean under
-- the name of the test. The files of a test are their bytes; a new file is empty, and a file that is
-- opened again has the bytes that were left. Tests of the files' names and of which files exist are
-- left out. This file has what the tests share.
pub mod Stores
pub mod Indexes
pub mod Segments
pub mod Logs
use raft_distributed_log_rs.Log.Io.{
  IoResult, done, failed, invalid_input, not_a_directory, panicked, unexpected_eof,
}
use raft_distributed_log_rs.Log.Segmented.Directory.{decimal, list_eq}
use raft_distributed_log_rs.Prelude.{Bool, List, String, codes, false, true, ℕ, ◌++◌, ◌==◌}

-- `unwrap()`, and a test of the value.
abbrev pub on_done {ℓ} : {A : Type ℓ} → IoResult A → (A → Bool) → Bool
on_done (done a) f = f a
on_done (failed e) f = false
on_done panicked f = false

-- `assert_eq!(result.unwrap(), n)`.
abbrev pub gives : IoResult ℕ → ℕ → Bool
gives result n = on_done result (λ m. m == n)

-- `assert_eq!(buf, bytes)` after a read into `buf`.
abbrev pub reads : IoResult (List ℕ) → List ℕ → Bool
reads result bytes = on_done result (λ buf. list_eq buf bytes)

-- `is_err()`.
abbrev pub is_err {ℓ} : {A : Type ℓ} → IoResult A → Bool
is_err (done a) = false
is_err (failed e) = true
is_err panicked = false

-- `assert_eq!(err.kind(), io::ErrorKind::UnexpectedEof)`.
abbrev pub is_eof {ℓ} : {A : Type ℓ} → IoResult A → Bool
is_eof (done a) = false
is_eof (failed e) = elim e.kind [
  | unexpected_eof ↦ true
  | invalid_input ↦ false
  | not_a_directory ↦ false
]
is_eof panicked = false

-- `format!("{text}{i}")`.
abbrev pub numbered : String → ℕ → List ℕ
numbered text i = codes text ++ decimal 20 i
