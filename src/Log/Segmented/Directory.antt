-- ===== src/Log/Segmented/Directory.antt =====
-- src/log.rs: the start of `new`, which finds the offsets in the names of the directory's files.
pub mod Names
pub mod Bases
pub mod Rising
pub mod Decimals
use raft_distributed_log_rs.Log.Segmented
use raft_distributed_log_rs.Log.Io.{IoResult, failed, io_error, not_a_directory}
use raft_distributed_log_rs.Log.Segment.{SegmentFiles}
use raft_distributed_log_rs.Log.Segmented.{Log}
use raft_distributed_log_rs.Prelude.{
  Bool, List, Option, [], drop, false, if◌then◌else◌, leb, length, ltb, none, some, suc, take, true,
  u64_mod, zero, ℕ, ◌%◌, ◌&&◌, ◌*◌, ◌++◌, ◌+◌, ◌-◌, ◌/◌, ◌==◌, ◌||◌, ◌∷◌,
}

-- An entry of the directory: the characters of its name, and whether it is a directory itself.
pub record DirEntry : Type 0 where
  pub name : List ℕ
  pub is_dir : Bool

abbrev pub list_eq : List ℕ → List ℕ → Bool
list_eq [] [] = true
list_eq (x ∷ xs) (y ∷ ys) = x == y && list_eq xs ys
list_eq _ _ = false

-- `strip_suffix`.
unfoldable pub strip_suffix : List ℕ → List ℕ → Option (List ℕ)
strip_suffix suffix name =
    let stem = length name - length suffix in
    if leb (length suffix) (length name) && list_eq (drop stem name) suffix
    then some (take stem name)
    else none

-- ".store" and ".index".
abbrev pub store_suffix : List ℕ
store_suffix = 46 ∷ 115 ∷ 116 ∷ 111 ∷ 114 ∷ 101 ∷ []

abbrev pub index_suffix : List ℕ
index_suffix = 46 ∷ 105 ∷ 110 ∷ 100 ∷ 101 ∷ 120 ∷ []

-- `parse::<u64>`: an optional `+`, then at least one digit, and no overflow.
unfoldable pub parse_digits : ℕ → List ℕ → Option ℕ
parse_digits n [] = some n
parse_digits n (c ∷ cs) =
    let rest = parse_digits (n * 10 + (c - 48)) cs in
    if leb 48 c && leb c 57 && ltb (n * 10 + (c - 48)) u64_mod then rest else none

abbrev pub parse_some : List ℕ → Option ℕ
parse_some [] = none
parse_some (c ∷ cs) = parse_digits 0 (c ∷ cs)

unfoldable pub parse : List ℕ → Option ℕ
unfolding parse_digits
parse [] = none
parse (c ∷ cs) = if c == 43 then parse_some cs else parse_digits 0 (c ∷ cs)

abbrev pub parse_stem : Option (List ℕ) → Option ℕ
parse_stem none = none
parse_stem (some stem) = parse stem

-- The offset in a name: the stem before `.store`, or else before `.index`.
unfoldable pub offset_of : List ℕ → Option ℕ
unfolding strip_suffix parse
offset_of name = elim (strip_suffix store_suffix name) [
  | some stem ↦ parse stem
  | none ↦ parse_stem (strip_suffix index_suffix name)
]

unfoldable pub contains : ℕ → List ℕ → Bool
contains x [] = false
contains x (y ∷ ys) = y == x || contains x ys

abbrev pub push_new : Option ℕ → List ℕ → List ℕ
push_new none offsets = offsets
push_new (some off) offsets = if contains off offsets then offsets else offsets ++ off ∷ []

-- The loop over the entries.
unfoldable pub scan : List DirEntry → List ℕ → List ℕ
scan [] offsets = offsets
scan (e ∷ es) offsets =
    let skipped = scan es offsets in
    let taken = scan es (push_new (offset_of e.name) offsets) in if e.is_dir then skipped else taken

-- `sort`.
unfoldable pub insert_sorted : ℕ → List ℕ → List ℕ
insert_sorted x [] = x ∷ []
insert_sorted x (y ∷ ys) = let rest = insert_sorted x ys in if leb x y then x ∷ y ∷ ys else y ∷ rest

unfoldable pub sort : List ℕ → List ℕ
unfolding insert_sorted
sort [] = []
sort (x ∷ xs) = insert_sorted x (sort xs)

-- `new`, from the entries of the directory, if the path is one.
unfoldable pub open_dir :
    Segmented.Config → Option (List DirEntry) → (ℕ → SegmentFiles) → IoResult Log
open_dir cfg none disk = failed (io_error not_a_directory "path is not a valid directory")
open_dir cfg (some entries) disk = Segmented.new cfg (sort (scan entries [])) disk

-- The name of a segment's file, `{base_offset}.store` or `{base_offset}.index`. A u64 has 20 digits
-- at most.
unfoldable pub decimal : ℕ → ℕ → List ℕ
decimal zero n = []
decimal (suc fuel) n =
    let rest = decimal fuel (n / 10) in
    if ltb n 10 then (48 + n) ∷ [] else rest ++ (48 + n % 10) ∷ []

abbrev pub file_name : ℕ → List ℕ → List ℕ
file_name base_offset suffix = decimal 20 base_offset ++ suffix
