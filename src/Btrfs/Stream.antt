-- ===== src/Btrfs/Stream.antt =====
-- The operations of a stream on the tree of class StreamProcessor (snapper/Btrfs.cc), and Btrfs::cmpDirs.
-- What libbtrfs calls the operations with is the list of events; `none` is an error of the stream. What
-- the walk through the first snapshot finds, and what cmpFiles says of a name, is given.
pub mod Statuses
pub mod Whole
use snapper.Base.{
  Bytes, ℕ, ◌-◌, Bool, true, false, not, ◌&&◌, ◌||◌, Option, none, some, List, [], ◌∷◌, ◌++◌, map,
  reverse, ◌==◌, if◌then◌else◌,
}
use snapper.Files.Status.{
  created, deleted, type_changed, content, permissions, owner, group, xattrs, acl, has, set_flag,
}
use snapper.Files.Attributes.{is_acl}
use snapper.Compare.Dirs.{Run, Ending, finished}
use snapper.Btrfs.Tree.{
  TreeNode, node, Children, end, child, Name, new_node, find, insert, erase, rename, with_status,
  without_children, check, result,
}

-- status & ~flag
abbrev pub clear_flag : ℕ → ℕ → ℕ
clear_flag status flag = if has status flag then status - flag else status

-- CONTENT | PERMISSIONS | OWNER | GROUP | XATTRS | ACL
abbrev pub change_flags : List ℕ
change_flags = content ∷ permissions ∷ owner ∷ group ∷ xattrs ∷ acl ∷ []

abbrev pub set_flags : List ℕ → ℕ → ℕ
set_flags [] status = status
set_flags (flag ∷ flags) status = set_flags flags (set_flag status flag)

abbrev pub clear_flags : List ℕ → ℕ → ℕ
clear_flags [] status = status
clear_flags (flag ∷ flags) status = clear_flags flags (clear_flag status flag)

abbrev pub has_any : List ℕ → ℕ → Bool
has_any [] status = false
has_any (flag ∷ flags) status = has status flag || has_any flags status

-- The status of a name that is made again.
abbrev pub made_again : ℕ → ℕ
made_again status = set_flags change_flags (clear_flag (clear_flag status created) deleted)

-- StreamProcessor::created
unfoldable pub create : Name → TreeNode → TreeNode
unfolding find insert
create name files = elim (find name files) [
  | none ↦ insert name (with_status (λ s. created)) files
  | some x ↦ insert name (with_status made_again) files
]

-- StreamProcessor::deleted
unfoldable pub delete : Name → TreeNode → TreeNode
unfolding find insert erase
delete name files = elim (find name files) [
  | none ↦ insert name (with_status (λ s. deleted)) files
  | some x ↦ erase name files
]

-- What merge does for one name.
unfoldable pub merge_one : Name → ℕ → TreeNode → TreeNode
unfolding find insert
merge_one name status files = elim (find name files) [
  | none ↦ insert name (with_status (λ s. status)) files
  | some x ↦ insert name (with_status made_again) files
]

-- The name that merge makes of the new name, the prefix and a child.
abbrev pub merge_name : Name → Name → Bytes → Name
merge_name to [] k = to ++ k ∷ []
merge_name to (i ∷ prefix) k = to ++ (i ∷ prefix) ++ k ∷ []

-- merge
unfoldable mutual
  unfolding merge_one

  pub merge : Name → Name → TreeNode → TreeNode → TreeNode
  merge to prefix (node status children) files = merge_children to prefix children files

  pub merge_children : Name → Name → Children → TreeNode → TreeNode
  merge_children to prefix end files = files
  merge_children to prefix (child k (node status children) rest) files =
      merge_children to prefix rest (
        merge_children to (merge_name to prefix k) children
          (merge_one (merge_name to prefix k) status files))

-- The loop of process_rename over what is below a directory of the first snapshot.
unfoldable pub move_entries : Name → Name → List Name → TreeNode → TreeNode
unfolding create delete
move_entries from to [] files = files
move_entries from to (name ∷ names) files =
    move_entries from to names (create (to ++ name) (delete (from ++ name) files))

-- process_rename; `entries` are the names below `from` in the first snapshot, none if that is no
-- directory.
unfoldable pub process_rename : List Name → Name → Name → TreeNode → TreeNode
unfolding find move_entries create delete rename insert merge
process_rename entries from to files = elim (find from files) [
  | none ↦ move_entries from to entries (create to (delete from files))
  | some x ↦ elim (find to files) [
    | none ↦ rename from to files
    | some y ↦ merge to [] x (create to (delete from (insert from without_children files)))
  ]
]

-- The calls of send_ops; the data that is not used is left out.
pub data Event : Type 0 where
  subvol snapshot : Name → Event
  mkfile mkdir mknod mkfifo mksock symlink link unlink rmdir : Name → Event
  rename_event : Name → Name → Event
  write clone truncate chmod chown utimes update_extent : Name → Event
  set_xattr remove_xattr : Name → Bytes → Event

abbrev pub mark : ℕ → Name → TreeNode → TreeNode
mark flag name files = insert name (with_status (λ s. set_flag s flag)) files

-- process_set_xattr and process_remove_xattr
abbrev pub mark_xattrs : List Bytes → Bytes → Name → TreeNode → TreeNode
mark_xattrs signatures attribute name files =
    if is_acl signatures attribute
    then mark acl name (mark xattrs name files)
    else mark xattrs name files

module _ (signatures : List Bytes) (entries : Name → List Name) where
  -- One call of send_ops.
  unfoldable pub process : Event → TreeNode → TreeNode
  unfolding create delete process_rename insert
  process (subvol name) files = files
  process (snapshot name) files = files
  process (mkfile name) files = create name files
  process (mkdir name) files = create name files
  process (mknod name) files = files
  process (mkfifo name) files = files
  process (mksock name) files = files
  process (symlink name) files = create name files
  process (link name) files = create name files
  process (unlink name) files = delete name files
  process (rmdir name) files = delete name files
  process (rename_event from to) files = process_rename (entries from) from to files
  process (write name) files = mark content name files
  process (clone name) files = mark content name files
  process (truncate name) files = mark content name files
  process (chmod name) files = mark permissions name files
  process (chown name) files = mark group name (mark owner name files)
  process (utimes name) files = files
  process (update_extent name) files = mark content name files
  process (set_xattr name attribute) files = mark_xattrs signatures attribute name files
  process (remove_xattr name attribute) files = mark_xattrs signatures attribute name files

  unfoldable pub process_all : List Event → TreeNode → TreeNode
  unfolding process
  process_all [] files = files
  process_all (event ∷ events) files = process_all events (process event files)

-- status |= other, for the nine flags.
abbrev pub or_flags : List ℕ → ℕ → ℕ → ℕ
or_flags [] other status = status
or_flags (flag ∷ flags) other status =
    or_flags flags other (if has other flag then set_flag status flag else status)

abbrev pub or_status : ℕ → ℕ → ℕ
or_status other status = or_flags (created ∷ deleted ∷ type_changed ∷ change_flags) other status

-- What tree_node::check starts with: a name that was made or removed is nothing else.
abbrev pub settled : ℕ → ℕ
settled status =
    let once = if has status created then created else status in
    if has once deleted then deleted else once

module _ (cmp : Name → Option ℕ) where
  -- tree_node::check of one name, with cmpFiles in place of the flags of a change; `none` is an
  -- exception of it.
  unfoldable pub check_one : Name → ℕ → Option ℕ
  check_one name status =
      if has_any change_flags (settled status)
      then elim (cmp name) [
        | none ↦ none
        | some s ↦ some (or_status s (clear_flags change_flags (settled status)))
      ]
      else some (settled status)

-- StreamProcessor::process after the constructor: `usable` if both snapshots are read-only and the id of
-- the first one is found. `none` is an exception.
unfoldable pub process_stream :
    List Bytes
    → (Name → List Name)
    → (Name → Option ℕ)
    → Bool
    → Option (List Event)
    → Option (List (Name × ℕ))
unfolding process_all check_one check result
process_stream signatures entries cmp usable stream = if not usable then none else elim stream [
  | none ↦ none
  | some events ↦ elim (check (check_one cmp) [] (process_all signatures entries events new_node)) [
    | none ↦ none
    | some files ↦ some (result [] files)
  ]
]

-- The calls of the callback, with paths as snapper/Compare.cc has them.
abbrev pub calls : List (Name × ℕ) → List (List Bytes × ℕ)
calls l = map (λ c. (reverse c.0, c.1)) l

-- Btrfs::cmpDirs; `generic` is snapper::cmpDirs, and `stream` is none also where the constructor of
-- StreamProcessor throws.
unfoldable pub cmp_dirs :
    List Bytes
    → (Name → List Name)
    → (Name → Option ℕ)
    → Bool
    → Bool
    → Option (List Event)
    → Run
    → Run
unfolding process_stream
cmp_dirs signatures entries cmp special_cmp usable stream generic =
    if special_cmp
    then elim (process_stream signatures entries cmp usable stream) [
      | none ↦ generic
      | some l ↦ (calls l, finished)
    ]
    else generic
