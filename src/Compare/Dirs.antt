-- ===== src/Compare/Dirs.antt =====
-- cmpDirs of snapper/Compare.cc. A directory is the list of its entries; a name that stat fails for is
-- `broken`; `closed` stands for the entries of a directory below that SDir fails to open. A path is the list of its names, the last one first; `under path t` continues a path by
-- the names `t`. The callback's calls are the list of events. The interruption points are left out.
pub mod Tree
pub mod Subdirs
pub mod Merge
pub mod Names
pub mod Twosome
pub mod Loop
pub mod Sort
pub mod Worker
use snapper.Base.{
  Bytes, eq_bytes, lt_bytes, ℕ, zero, suc, ◌+◌, ◌/◌, ◌%◌, ◌≡◌, Bool, true, false, not, ◌&&◌, ◌||◌,
  Option, none, some, List, [], ◌∷◌, ◌++◌, ◌==◌, if◌then◌else◌,
}
use snapper.Files.Status.{created, deleted, type_changed, has}
use snapper.Compare.Content.{Stat, Payload, is_dir, cmp_files}

mutual
  pub data Node : Type 0 where
    broken : Node
    node : Stat → Payload → Entries → Node

  pub data Entries : Type 0 where
    end : Entries
    closed : Entries
    entry : Bytes → Node → Entries → Entries

abbrev pub Trail : Type 0
Trail = List Bytes

abbrev pub Listing : Type 0
Listing = List (Bytes × Node)

abbrev pub listing : Entries → Listing
listing end = []
listing closed = []
listing (entry name n rest) = (name, n) ∷ listing rest

-- SDir::SDir does not throw.
abbrev pub opens : Entries → Bool
opens end = true
opens closed = false
opens (entry name n rest) = true

pub data Ending : Type 0 where
  finished threw : Ending
  -- In the model only: the fuel for the depth of directories is used up.
  stuck : Ending

-- The calls of the callback, path and status, and how the function ends.
abbrev pub Run : Type 0
Run = List (Trail × ℕ) × Ending

abbrev pub and_then : Run → Run → Run
and_then (events, finished) next = (events ++ next.0, next.1)
and_then (events, threw) next = (events, threw)
and_then (events, stuck) next = (events, stuck)

abbrev pub nothing : Run
nothing = ([], finished)

abbrev pub report : Trail → ℕ → Run
report path status = ((path, status) ∷ [], finished)

-- listSubdirs with the opening of its directory, and what it does for one entry.
unfoldable mutual
  pub list_subdirs : Entries → Trail → ℕ → Run
  list_subdirs end path status = nothing
  list_subdirs closed path status = ([], threw)
  list_subdirs (entry name n rest) path status =
      and_then (report (name ∷ path) status)
        (and_then (descend n (name ∷ path) status) (list_subdirs rest path status))

  pub descend : Node → Trail → ℕ → Run
  descend broken path status = ([], threw)
  descend (node stat file entries) path status =
      if is_dir stat then list_subdirs entries path status else nothing

-- "/.snapshots"
abbrev pub snapshots_name : Bytes
snapshots_name = b'.' ∷ b's' ∷ b'n' ∷ b'a' ∷ b'p' ∷ b's' ∷ b'h' ∷ b'o' ∷ b't' ∷ b's' ∷ []

-- filter
abbrev pub filter : Trail → Bool
filter [] = false
filter (name ∷ []) = eq_bytes name snapshots_name
filter (name ∷ parent ∷ path) = false

-- std::sort of the names of a directory.
unfoldable pub insert : Bytes → Node → Listing → Listing
unfolding lt_bytes
insert name n [] = (name, n) ∷ []
insert name n ((k, m) ∷ rest) =
    let later = insert name n rest in
    if lt_bytes name k then (name, n) ∷ (k, m) ∷ rest else (k, m) ∷ later

unfoldable pub sort : Listing → Listing
unfolding insert
sort [] = []
sort ((name, n) ∷ rest) = insert name n (sort rest)

module _ (signatures : List Bytes) (dev1 dev2 : ℕ) where
  -- A name of one directory only, with lonesome; `dev` is that of CmpData.
  unfoldable pub lonesome : ℕ → ℕ → Trail → Node → Run
  unfolding list_subdirs
  lonesome dev status path broken = ([], threw)
  lonesome dev status path (node stat file entries) =
      if stat.dev == dev
      then and_then (report path status)
          (if is_dir stat then list_subdirs entries path status else nothing)
      else nothing

  module _ (recur : Trail → Entries → Entries → Run) where
    -- The part of twosome that follows the comparison of the two files.
    unfoldable pub twosome_below : Trail → Stat → Entries → Stat → Entries → ℕ → Run
    unfolding list_subdirs
    twosome_below path stat1 entries1 stat2 entries2 status =
        if not (has status type_changed)
        then (if is_dir stat1 && ((stat1.dev == dev1) && (stat2.dev == dev2))
            then recur path entries1 entries2
            else nothing)
        else and_then
            (if is_dir stat1 && (stat1.dev == dev1)
              then list_subdirs entries1 path deleted
              else nothing)
            (if is_dir stat2 && (stat2.dev == dev2)
              then list_subdirs entries2 path created
              else nothing)

    -- twosome, with the two calls of stat before it.
    unfoldable pub twosome : Trail → Node → Node → Run
    unfolding twosome_below cmp_files
    twosome path broken n = ([], threw)
    twosome path (node stat1 file1 entries1) broken = ([], threw)
    twosome path (node stat1 file1 entries1) (node stat2 file2 entries2) =
        let status =
          if (stat1.dev == dev1) && (stat2.dev == dev2)
          then cmp_files signatures stat1 file1 stat2 file2
          else 0 in
        and_then (if status == 0 then nothing else report path status)
          (twosome_below path stat1 entries1 stat2 entries2 status)

    -- The while loop of cmpDirsWorker.
    unfoldable pub merge : Trail → Listing → Listing → Run
    unfolding lonesome twosome eq_bytes lt_bytes
    merge path [] [] = nothing
    merge path [] ((m, y) ∷ r) =
        let rest = merge path [] r in
        if filter (m ∷ path) then rest else and_then (lonesome dev2 created (m ∷ path) y) rest
    merge path ((n, x) ∷ l) [] =
        let rest = merge path l [] in
        if filter (n ∷ path) then rest else and_then (lonesome dev1 deleted (n ∷ path) x) rest
    merge path ((n, x) ∷ l) ((m, y) ∷ r) =
        let left = merge path l ((m, y) ∷ r) in
        let right = merge path ((n, x) ∷ l) r in
        let both = merge path l r in
        if filter (n ∷ path)
        then left
        else if filter (m ∷ path)
        then right
        else if lt_bytes m n
        then and_then (lonesome dev2 created (m ∷ path) y) right
        else if lt_bytes n m
        then and_then (lonesome dev1 deleted (n ∷ path) x) left
        else if not (eq_bytes n m)
        then ([], threw)
        else and_then (twosome (n ∷ path) x y) both

  -- cmpDirsWorker, with the opening of the two directories.
  unfoldable pub cmp_dirs_worker : ℕ → Trail → Entries → Entries → Run
  unfolding merge sort
  cmp_dirs_worker zero path entries1 entries2 = ([], stuck)
  cmp_dirs_worker (suc depth) path entries1 entries2 =
      if opens entries1 && opens entries2
      then merge (cmp_dirs_worker depth) path (sort (listing entries1)) (sort (listing entries2))
      else ([], threw)

-- cmpDirs
unfoldable pub cmp_dirs : List Bytes → ℕ → Node → Node → Run
unfolding cmp_dirs_worker
cmp_dirs signatures depth broken dir2 = ([], threw)
cmp_dirs signatures depth (node stat1 file1 entries1) broken = ([], threw)
cmp_dirs signatures depth (node stat1 file1 entries1) (node stat2 file2 entries2) =
    cmp_dirs_worker signatures stat1.dev stat2.dev depth [] entries1 entries2
