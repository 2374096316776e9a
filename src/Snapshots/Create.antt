-- ===== src/Snapshots/Create.antt =====
-- Snapshots::createHelper, the five create functions and modifySnapshot of
-- snapper/Snapshot.cc. The iterator that getSnapshotCurrent returns is the entry with number 0. An
-- exception leaves the state that was reached; plug-in scripts and logging are
-- left out, and time(NULL) is an argument.
pub mod Keeps
pub mod Ordered
use snapper.Base.{
  ℕ, ◌≡◌, String, Bool, true, false, not, ◌&&◌, ◌||◌, Option, none, some, List, [], ◌∷◌, ◌++◌, ◌==◌,
  ◌⊎◌, inl, inr, if◌then◌else◌,
}
use snapper.Base.Int.{ℤ}
use snapper.Snapshot.{
  Snapshot, SnapshotType, single, pre, post, is_pre, is_post, is_current, new_snapshot,
}
use snapper.Snapshots.Store.{
  Filesystem, Dirs, Os, Store, Error, illegal_snapshot, invalid_userdata, io_error, create_failed,
  Result, ok, err, no_fuel, find, last_num, check_userdata, is_empty, set_info, rmdir,
  delete_filesystem_snapshot, find_post,
}
use snapper.Snapshots.Number.{Search, found, failed, exhausted, next_number}

-- class SMD and class SCD
pub record Smd : Type 0 where
  pub description : String
  pub cleanup : String
  pub userdata : List (String × String)

pub record Scd : Type 0 where
  pub smd : Smd
  pub open smd use *
  pub read_only : Bool
  pub empty : Bool
  pub uid : ℕ

-- The new Snapshot that each create function fills in.
abbrev pub snapshot_of : SnapshotType → ℕ → ℕ → ℤ → Scd → Snapshot
snapshot_of type num pre_num now scd = record (new_snapshot type num now) {
  pre_num = pre_num;
  uid = scd.uid;
  read_only = scd.read_only;
  description = scd.description;
  cleanup = scd.cleanup;
  userdata = scd.userdata;
}

module _ (fs : Filesystem) (os : Os) where
  -- Snapshot::createFilesystemSnapshot, or createFilesystemSnapshotOfDefault where the parent is end(),
  -- behind their test of isCurrent, which create_helper has.
  unfoldable pub create_filesystem_snapshot :
      Snapshot → Option ℕ → Bool → fs.State → Option fs.State
  unfolding is_empty
  create_filesystem_snapshot s (some parent) empty disk =
      fs.create s.num parent s.read_only (not (is_empty s.cleanup)) empty disk
  create_filesystem_snapshot s none empty disk =
      fs.create_of_default s.num s.read_only (not (is_empty s.cleanup)) disk

  -- Undoing a creation whose info.xml cannot be written.
  unfoldable pub undo_create : Snapshot → Store fs → Result × Store fs
  unfolding delete_filesystem_snapshot rmdir
  undo_create s st = elim (delete_filesystem_snapshot fs s.num st.disk) [
    | inl (e, d) ↦ (err e, record st { disk = d })
    | inr d ↦ (err io_error, record st { disk = d; dirs = rmdir fs s.num d st.dirs })
  ]

  -- Snapshots::createHelper, for a new snapshot that is not the current system.
  unfoldable pub create_other : Snapshot → Option ℕ → Bool → Store fs → Result × Store fs
  unfolding create_filesystem_snapshot undo_create set_info
  create_other s parent empty st = elim (create_filesystem_snapshot s parent empty st.disk) [
    | none ↦ (err create_failed, record st { dirs = rmdir fs s.num st.disk st.dirs })
    | some d ↦ if os.write_fails s.num then undo_create s (record st { disk = d }) else (
      ok s.num,
      record st {
        disk = d;
        dirs = set_info s.num (some s) st.dirs;
        entries = st.entries ++ s ∷ [];
      },
    )
  ]

  -- Snapshots::createHelper. The test of isCurrent is that of createFilesystemSnapshot and
  -- createFilesystemSnapshotOfDefault, whose exception is not caught.
  unfoldable pub create_helper : Snapshot → Option ℕ → Bool → Store fs → Result × Store fs
  unfolding create_other
  create_helper s parent empty st =
      if is_current s then (err illegal_snapshot, st) else create_other s parent empty st

  -- What follows the call of nextNumber, by its result.
  unfoldable pub with_number :
      SnapshotType → ℕ → ℤ → Scd → Option ℕ → Bool → Store fs → Search × Dirs → Result × Store fs
  unfolding create_helper
  with_number type pre_num now scd parent empty st (found n, dirs) =
      create_helper (snapshot_of type n pre_num now scd) parent empty (record st { dirs = dirs })
  with_number type pre_num now scd parent empty st (failed e, dirs) =
      (err e, record st { dirs = dirs })
  with_number type pre_num now scd parent empty st (exhausted, dirs) = (no_fuel, st)

  -- checkUserdata, nextNumber and createHelper, the common part of the five functions.
  unfoldable pub create :
      ℕ → SnapshotType → ℕ → ℤ → Scd → Option ℕ → Bool → Store fs → Result × Store fs
  unfolding with_number next_number check_userdata
  create fuel type pre_num now scd parent empty st =
      if check_userdata scd.userdata
      then with_number type pre_num now scd parent empty st
          (next_number fs os fuel st.entries st.disk st.dirs)
      else (err invalid_userdata, st)

  -- Snapshots::createSingleSnapshot(scd)
  unfoldable pub create_single_snapshot : ℕ → ℤ → Scd → Store fs → Result × Store fs
  unfolding create
  create_single_snapshot fuel now scd = create fuel single 0 now scd (some 0) scd.empty

  -- Snapshots::createSingleSnapshot(parent, scd)
  unfoldable pub create_single_snapshot_from : ℕ → Option ℕ → ℤ → Scd → Store fs → Result × Store fs
  unfolding create
  create_single_snapshot_from fuel parent now scd = create fuel single 0 now scd parent scd.empty

  -- Snapshots::createSingleSnapshotOfDefault
  unfoldable pub create_single_snapshot_of_default : ℕ → ℤ → Scd → Store fs → Result × Store fs
  unfolding create
  create_single_snapshot_of_default fuel now scd = create fuel single 0 now scd none false

  -- Snapshots::createPreSnapshot
  unfoldable pub create_pre_snapshot : ℕ → ℤ → Scd → Store fs → Result × Store fs
  unfolding create
  create_pre_snapshot fuel now scd = create fuel pre 0 now scd (some 0) false

  -- Snapshots::createPostSnapshot; the search of findPost does not throw, since its tests were made.
  unfoldable pub create_post_snapshot : ℕ → Option Snapshot → ℤ → Scd → Store fs → Result × Store fs
  unfolding create
  create_post_snapshot fuel none now scd st = (err illegal_snapshot, st)
  create_post_snapshot fuel (some p) now scd st =
      if is_current p || not (is_pre p.type)
      then (err illegal_snapshot, st)
      else elim (find_post p st.entries) [
        | some _ ↦ (err illegal_snapshot, st)
        | none ↦ create fuel post p.num now scd (some 0) false st
      ]

  -- The assignments of modifySnapshot, to the entry that the iterator points at.
  unfoldable pub modify_entry : ℕ → Smd → List Snapshot → List Snapshot
  modify_entry num smd [] = []
  modify_entry num smd (x ∷ xs) =
      (if x.num == num
        then record x {
          description = smd.description;
          cleanup = smd.cleanup;
          userdata = smd.userdata;
        }
        else x)
      ∷ modify_entry num smd xs

  -- Snapshots::modifySnapshot: the entry has changed also where writing its info.xml fails.
  unfoldable pub modify_snapshot : Option Snapshot → Smd → Store fs → Result × Store fs
  unfolding modify_entry set_info check_userdata
  modify_snapshot none smd st = (err illegal_snapshot, st)
  modify_snapshot (some s) smd st =
      if is_current s
      then (err illegal_snapshot, st)
      else if check_userdata smd.userdata
      then (let st' = record st { entries = modify_entry s.num smd st.entries } in
          if os.write_fails s.num
          then (err io_error, st')
          else (ok s.num, record st' { dirs = set_info s.num (find s.num st'.entries) st'.dirs }))
      else (err invalid_userdata, st)
