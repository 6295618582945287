-- ===== src/Log/Segmented/Directory/Names.antt =====
-- src/log.rs: which offsets `new` finds, and that it finds those of the files that it names.
use raft_distributed_log_rs.Log.Segmented.Directory.{
  DirEntry, contains, insert_sorted, offset_of, push_new, scan, sort,
}
use raft_distributed_log_rs.Prelude.{
  Bool, List, Option, [], arith, false, none, not, refl, some, ℕ, ◌&&◌, ◌++◌, ◌<◌, ◌==◌, ◌||◌, ◌∙◌,
  ◌∷◌, ◌≡◌,
}

-- Some file of the directory, not a directory itself, has this offset in its name.
abbrev pub offset_eq : Option ℕ → ℕ → Bool
offset_eq none x = false
offset_eq (some y) x = y == x

abbrev pub named : ℕ → List DirEntry → Bool
named x [] = false
named x (e ∷ es) = (not e.is_dir && offset_eq (offset_of e.name) x) || named x es

-- Each offset is greater than the ones before it.
abbrev pub Rising : List ℕ → Type 0
Rising [] = Unit {0}
Rising (x ∷ []) = Unit {0}
Rising (x ∷ y ∷ ys) = (x < y) × Rising (y ∷ ys)

abbrev AllDiffer : List ℕ → Type 0
AllDiffer [] = Unit {0}
AllDiffer (x ∷ xs) = (contains x xs ≡ false) × AllDiffer xs

contains-append :
    (x : ℕ) (xs ys : List ℕ) → contains x (xs ++ ys) ≡ (contains x xs || contains x ys)
unfolding contains
contains-append x [] ys = refl
contains-append x (z ∷ xs) ys = ground (arith, contains-append x xs ys)

AllDiffer-push :
    (x : ℕ) (xs : List ℕ) → contains x xs ≡ false → AllDiffer xs → AllDiffer (xs ++ x ∷ [])
unfolding contains
AllDiffer-push x [] new d = (refl, tt)
AllDiffer-push x (z ∷ xs) new d =
    (ground (arith, contains-append z xs (x ∷ [])), AllDiffer-push x xs (ground arith) d.1)

AllDiffer-push_new : (o : Option ℕ) (xs : List ℕ) → AllDiffer xs → AllDiffer (push_new o xs)
AllDiffer-push_new none xs d = d
AllDiffer-push_new (some x) xs d = ground (arith, AllDiffer-push x xs)

scan-AllDiffer : (es : List DirEntry) (xs : List ℕ) → AllDiffer xs → AllDiffer (scan es xs)
unfolding scan
scan-AllDiffer [] xs d = d
scan-AllDiffer (e ∷ es) xs d = ground (
  arith,
  scan-AllDiffer es xs d,
  scan-AllDiffer es (push_new (offset_of e.name) xs) (AllDiffer-push_new (offset_of e.name) xs d),
)

contains-push_new :
    (x : ℕ) (o : Option ℕ) (xs : List ℕ)
    → contains x (push_new o xs) ≡ (contains x xs || offset_eq o x)
unfolding contains
contains-push_new x none xs = ground arith
contains-push_new x (some y) xs = ground (arith, contains-append x xs (y ∷ []))

contains-scan :
    (x : ℕ) (es : List DirEntry) (xs : List ℕ)
    → contains x (scan es xs) ≡ (contains x xs || named x es)
unfolding scan
contains-scan x [] xs = ground arith
contains-scan x (e ∷ es) xs = ground (
  arith,
  contains-scan x es xs,
  contains-scan x es (push_new (offset_of e.name) xs),
  contains-push_new x (offset_of e.name) xs,
)

contains-insert_sorted :
    (x y : ℕ) (ys : List ℕ) → contains x (insert_sorted y ys) ≡ ((y == x) || contains x ys)
unfolding contains insert_sorted
contains-insert_sorted x y [] = refl
contains-insert_sorted x y (z ∷ ys) = ground (arith, contains-insert_sorted x y ys)

contains-sort : (x : ℕ) (xs : List ℕ) → contains x (sort xs) ≡ contains x xs
unfolding contains sort
contains-sort x [] = refl
contains-sort x (y ∷ ys) = ground (arith, contains-sort x ys, contains-insert_sorted x y (sort ys))

insert_sorted-Rising :
    (x : ℕ) (xs : List ℕ) → contains x xs ≡ false → Rising xs → Rising (insert_sorted x xs)
unfolding contains insert_sorted
insert_sorted-Rising x [] new r = tt
insert_sorted-Rising x (y ∷ []) new r = ground arith
insert_sorted-Rising x (y ∷ z ∷ ys) new r = ground (arith, insert_sorted-Rising x (z ∷ ys))

sort-Rising : (xs : List ℕ) → AllDiffer xs → Rising (sort xs)
unfolding sort
sort-Rising [] d = tt
sort-Rising (x ∷ xs) d =
    insert_sorted-Rising x (sort xs) (contains-sort x xs ∙ d.0) (sort-Rising xs d.1)

-- The offsets that `new` finds are in rising order, each once, and are exactly those that stand in the
-- name of some file of the directory.
pub offsets_found :
    (es : List DirEntry)
    → Rising (sort (scan es [])) × ((x : ℕ) → contains x (sort (scan es [])) ≡ named x es)
unfolding contains
offsets_found es = (
  sort-Rising (scan es []) (scan-AllDiffer es [] tt),
  λ x. contains-sort x (scan es []) ∙ contains-scan x es [],
)
