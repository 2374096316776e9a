-- ===== src/Snapshots/Store.antt =====
-- snapper/Snapshot.cc, Snapshot.h and Filesystem.h: the state that class Snapshots works on. `entries`
-- is its list; `dirs` is the infos directory (/.snapshots), the numbered directories with the content
-- of their info.xml, where there is one; `disk` is the state behind the Filesystem interface and what
-- else the system answers. The file lists in the directories and the plug-in scripts are not part of it.
use snapper.Base.{
  ℕ, ◌≡◌, ◌⊎◌, inl, inr, String, Bool, true, false, ◌&&◌, ◌||◌, not, Option, none, some, List, [],
  ◌∷◌, ◌==◌, if◌then◌else◌, find_if,
}
use Prim.Native.Char.{code}
use snapper.Snapshot.{Snapshot, is_post}

-- The calls of class Filesystem that Snapshots makes. `none` is the exception of that call
-- (CreateSnapshotFailedException and so on). The laws say which snapshots exist after a call.
pub record Filesystem : Type 1 where
  pub State : Type 0
  pub check : ℕ → State → Bool
  pub create : ℕ → ℕ → Bool → Bool → Bool → State → Option State
  pub create_of_default : ℕ → Bool → Bool → State → Option State
  pub umount : ℕ → State → Option State
  pub delete : ℕ → State → Option State
  pub is_default : ℕ → State → Bool
  pub is_active : ℕ → State → Bool
  -- An entry of the infos directory that holds the content of the snapshot.
  pub occupies : ℕ → State → Bool
  -- SDir::SDir on the directory of the number in the infos directory does not throw, if it exists.
  pub opens : ℕ → State → Bool
  -- unlink of the info.xml in that directory fails.
  pub unlink_fails : ℕ → State → Bool
  pub check-create :
      (n parent : ℕ) (read_only quota empty : Bool) (s t : State)
      → create n parent read_only quota empty s ≡ some t
      → (j : ℕ) → check j t ≡ (if j == n then true else check j s)
  pub check-create_of_default :
      (n : ℕ) (read_only quota : Bool) (s t : State)
      → create_of_default n read_only quota s ≡ some t
      → (j : ℕ) → check j t ≡ (if j == n then true else check j s)
  pub check-umount : (n : ℕ) (s t : State) → umount n s ≡ some t → (j : ℕ) → check j t ≡ check j s
  pub check-delete :
      (n : ℕ) (s t : State)
      → delete n s ≡ some t
      → (j : ℕ) → check j t ≡ (if j == n then false else check j s)

abbrev pub Dirs : Type 0
Dirs = List (ℕ × Option Snapshot)

-- The numbers of the entries of the infos directory (SDir::number_entries).
abbrev pub nums : Dirs → List ℕ
nums [] = []
nums ((n, _) ∷ dirs) = n ∷ nums dirs

abbrev pub has_dir : ℕ → Dirs → Bool
has_dir n [] = false
has_dir n ((m, _) ∷ dirs) = m == n || has_dir n dirs

-- The directory exists and has an info.xml.
abbrev pub has_info : ℕ → Dirs → Bool
has_info n [] = false
has_info n ((m, none) ∷ dirs) = has_info n dirs
has_info n ((m, some _) ∷ dirs) = m == n || has_info n dirs

-- Writing or unlinking the info.xml of a directory that exists.
unfoldable pub set_info : ℕ → Option Snapshot → Dirs → Dirs
set_info n info [] = []
set_info n info ((m, old) ∷ dirs) = (m, if m == n then info else old) ∷ set_info n info dirs

unfoldable pub remove_dir : ℕ → Dirs → Dirs
remove_dir n [] = []
remove_dir n ((m, info) ∷ dirs) =
    let rest = remove_dir n dirs in if m == n then rest else (m, info) ∷ rest

-- What else the operating system answers: an errno other than EEXIST of mkdir, and a failure to write
-- info.xml.
pub record Os : Type 0 where
  pub mkdir_fails : ℕ → Bool
  pub write_fails : ℕ → Bool

pub data Error : Type 0 where
  illegal_snapshot invalid_userdata io_error create_failed umount_failed delete_failed
        -- std::out_of_range
        out_of_range :
      Error

pub data Result : Type 0 where
  ok : ℕ → Result
  err : Error → Result
  -- In the model only: the search for a number used up its fuel.
  no_fuel : Result

-- Snapshots::find
abbrev pub find : ℕ → List Snapshot → Option Snapshot
find num entries = find_if (λ s. s.num == num) entries

-- The loop of Snapshots::findPost. Its tests on the argument are made by the callers.
abbrev pub find_post : Snapshot → List Snapshot → Option Snapshot
find_post pre entries = find_if (λ s. is_post s.type && (s.pre_num == pre.num)) entries

-- entries.rbegin()->num, and 0 for the empty list.
abbrev pub last_num : List Snapshot → ℕ
last_num [] = 0
last_num (x ∷ []) = x.num
last_num (x ∷ y ∷ l) = last_num (y ∷ l)

-- s.find_first_of(",=") != npos
unfoldable pub has_delimiter : String → Bool
has_delimiter String.[] = false
has_delimiter (String.◌∷◌ c s) = code c == b',' || (code c == b'=' || has_delimiter s)

unfoldable pub is_empty : String → Bool
is_empty String.[] = true
is_empty (String.◌∷◌ c s) = false

-- Snapshots::checkUserdata: false where it throws.
unfoldable pub check_userdata : List (String × String) → Bool
unfolding has_delimiter is_empty
check_userdata [] = true
check_userdata ((key, value) ∷ rest) =
    not (is_empty key || has_delimiter key) && (not (has_delimiter value) && check_userdata rest)

module _ (fs : Filesystem) where
  pub record Store : Type 0 where
    pub entries : List Snapshot
    pub dirs : Dirs
    pub disk : fs.State

  -- infos_dir.rmdir: it fails, and is logged, on a directory that is not empty.
  unfoldable pub rmdir : ℕ → fs.State → Dirs → Dirs
  unfolding remove_dir
  rmdir n disk dirs = if has_info n dirs || fs.occupies n disk then dirs else remove_dir n dirs

  -- Snapshot::deleteFilesystemSnapshot
  unfoldable pub delete_filesystem_snapshot : ℕ → fs.State → Error × fs.State ⊎ fs.State
  delete_filesystem_snapshot n disk = elim (fs.umount n disk) [
    | none ↦ inl (umount_failed, disk)
    | some d ↦ elim (fs.delete n d) [ none ↦ inl (delete_failed, d) | some e ↦ inr e ]
  ]
