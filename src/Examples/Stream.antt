-- ===== src/Examples/Stream.antt =====
-- The comparison by btrfs send streams (snapper/Btrfs.cc) at concrete inputs.
use snapper.Base.{
  Bytes, ℕ, ◌≡◌, ◌≢◌, refl, ◌↔◌, true, Option, some, List, [], ◌∷◌, In, if◌then◌else◌,
}
use snapper.Files.Status.{created, deleted, content, permissions}
use snapper.Btrfs.Tree.{TreeNode, node, end, child, Name, find, rename}
use snapper.Btrfs.Tree.Lookup.{status_at, strip, is_at}
use snapper.Btrfs.Tree.Changes.{moved, status_at-rename}
use snapper.Btrfs.Stream.{
  Event, mkdir, unlink, rmdir, write, rename_event, process, check_one, process_stream,
}
use snapper.Btrfs.Stream.Statuses.{new_status, is_found, process-status}
use snapper.Btrfs.Stream.Whole.{final, process_stream_iff}

abbrev a : Bytes
a = b'a' ∷ []

abbrev b : Bytes
b = b'b' ∷ []

abbrev t : Bytes
t = b't' ∷ []

abbrev x : Bytes
x = b'x' ∷ []

abbrev y : Bytes
y = b'y' ∷ []

-- "a" is there only for what is below it, "b" is a new file.
abbrev some_files : TreeNode
some_files =
    node 0 (child a (node 0 (child x (node content end) end)) (child b (node created end) end))

abbrev no_entries : Name → List Name
no_entries name = []

-- Whatever is compared differs in its permissions.
abbrev cmp : Name → Option ℕ
cmp name = some permissions

status_at-rename_example :
    status_at (t ∷ x ∷ []) (rename (a ∷ []) (t ∷ []) some_files)
    ≡ moved
        (strip (a ∷ []) (t ∷ x ∷ []))
        (strip (t ∷ []) (t ∷ x ∷ []))
        (node 0 (child x (node content end) end))
        (status_at (t ∷ x ∷ []) some_files)
unfolding find
status_at-rename_example =
    status_at-rename a [] (t ∷ []) (t ∷ x ∷ []) some_files (node 0 (child x (node content end) end))
      refl refl

process-status_example :
    status_at (a ∷ x ∷ []) (process [] no_entries (write (a ∷ x ∷ [])) some_files) ≡ (
      if is_at (strip (a ∷ x ∷ []) (a ∷ x ∷ []))
      then new_status []
          (write (a ∷ x ∷ []))
          (is_found (find (a ∷ x ∷ []) some_files))
          (status_at (a ∷ x ∷ []) some_files)
      else status_at (a ∷ x ∷ []) some_files)
process-status_example =
    process-status [] no_entries (write (a ∷ x ∷ [])) (a ∷ x ∷ []) some_files refl (λ e. cc)

abbrev one_write : List Event
one_write = mkdir (a ∷ []) ∷ write (a ∷ x ∷ []) ∷ unlink (b ∷ []) ∷ []

abbrev one_write_calls : List (Name × ℕ)
one_write_calls = (a ∷ [], created) ∷ (a ∷ x ∷ [], permissions) ∷ (b ∷ [], deleted) ∷ []

process_stream_iff_example : In (a ∷ x ∷ [], permissions) one_write_calls ↔ (
    (check_one cmp (a ∷ x ∷ []) (status_at (a ∷ x ∷ []) (final [] no_entries cmp one_write))
      ≡ some permissions)
    × (permissions ≢ 0))
unfolding process_stream
process_stream_iff_example =
    process_stream_iff [] no_entries cmp one_write one_write_calls refl a (x ∷ []) permissions

-- A rename onto a name that is known puts what is two levels below at the wrong place.
wrong_place :
    process_stream [] no_entries cmp true
      (some (write (a ∷ x ∷ y ∷ []) ∷ write (t ∷ []) ∷ rename_event (a ∷ []) (t ∷ []) ∷ []))
    ≡ some ((t ∷ [], permissions) ∷ (t ∷ t ∷ x ∷ y ∷ [], permissions) ∷ [])
unfolding process_stream
wrong_place = refl

-- A directory that is removed after what is below it is not reported.
not_reported :
    process_stream [] no_entries cmp true (some (unlink (a ∷ x ∷ []) ∷ rmdir (a ∷ []) ∷ []))
    ≡ some ((a ∷ x ∷ [], deleted) ∷ [])
unfolding process_stream
not_reported = refl
