-- ===== src/Snapshots/Number.antt =====
-- Snapshots::nextNumber of snapper/Snapshot.cc. Numbers are `unsigned int`. The fuel counts the
-- rounds of the loop.
pub mod Fresh
use snapper.Base.{
  ℕ, zero, suc, ◌+◌, ◌%◌, ◌^◌, ◌≡◌, Bool, true, false, ◌&&◌, Option, none, some, List, [], ◌∷◌, max,
  ltb, if◌then◌else◌,
}
use snapper.Snapshot.{Snapshot}
use snapper.Snapshots.Store.{
  Filesystem, Dirs, nums, has_dir, Os, Error, io_error, out_of_range, find, last_num, rmdir,
}

abbrev pub unsigned_mod : ℕ
unsigned_mod = 2 ^ 32

pub data Search : Type 0 where
  found : ℕ → Search
  -- Where it throws.
  failed : Error → Search
  exhausted : Search

-- for (tmp : nums) num = std::max(num, tmp)
unfoldable pub max_of : ℕ → List ℕ → ℕ
max_of num [] = num
max_of num (tmp ∷ rest) = max_of (max num tmp) rest

-- stoi does not throw: the name of every directory is a number that an int holds.
unfoldable pub all_stoi : List ℕ → Bool
all_stoi [] = true
all_stoi (tmp ∷ rest) = ltb tmp (2 ^ 31) && all_stoi rest

module _ (fs : Filesystem) (os : Os) where
  -- The while (true) loop, up to its break.
  unfoldable pub search : ℕ → ℕ → fs.State → Dirs → Search
  search zero num disk dirs = exhausted
  search (suc fuel) num disk dirs =
      let next = (num + 1) % unsigned_mod in
      let again = search fuel next disk dirs in
      if fs.check next disk
      then again
      else if has_dir next dirs
      then again
      else if os.mkdir_fails next
      then failed io_error
      else found next

  -- The last loop: directories that belong to no snapshot are removed.
  unfoldable pub remove_orphans : List ℕ → List Snapshot → fs.State → Dirs → Dirs
  remove_orphans [] entries disk dirs = dirs
  remove_orphans (n ∷ ns) entries disk dirs =
      remove_orphans ns entries disk
        (elim (find n entries) [ none ↦ rmdir fs n disk dirs | some _ ↦ dirs ])

  -- Where the search starts: the largest number of an entry or of a directory.
  abbrev pub top : List Snapshot → Dirs → ℕ
  top entries dirs = max_of (last_num entries) (nums dirs)

  -- What follows the reading of the directory.
  unfoldable pub new_number : ℕ → List Snapshot → fs.State → Dirs → Search × Dirs
  unfolding search remove_orphans max_of
  new_number fuel entries disk dirs = elim (search fuel (top entries dirs) disk dirs) [
    | found n ↦ (found n, remove_orphans (nums dirs) entries disk ((n, none) ∷ dirs))
    | failed e ↦ (failed e, dirs)
    | exhausted ↦ (exhausted, dirs)
  ]

  -- Snapshots::nextNumber: the number, and the directories afterwards.
  unfoldable pub next_number : ℕ → List Snapshot → fs.State → Dirs → Search × Dirs
  unfolding new_number all_stoi
  next_number fuel entries disk dirs =
      if all_stoi (nums dirs)
      then new_number fuel entries disk dirs
      else (failed out_of_range, dirs)
