-- ===== src/Snapshots/Delete.antt =====
-- Snapshots::deleteSnapshot of snapper/Snapshot.cc. Failures of unlink and rmdir are logged, and
-- what could not be removed stays; `unique_numbers` is the setting UNIQUE_NUMBERS of the configuration.
pub mod Keeps
use snapper.Base.{
  ℕ, ◌≡◌, Bool, true, false, not, ◌&&◌, ◌||◌, Option, none, some, List, [], ◌∷◌, ◌==◌, inl, inr,
  if◌then◌else◌,
}
use snapper.Snapshot.{Snapshot, is_current}
use snapper.Proxy.{erase}
use snapper.Snapshots.Store.{
  Filesystem, Dirs, Store, illegal_snapshot, io_error, Result, has_dir, ok, err, last_num, set_info,
  rmdir, delete_filesystem_snapshot,
}

module _ (fs : Filesystem) (unique_numbers : Bool) where
  -- Snapshot::openInfoDir of a snapshot that is not the current system: false where it throws.
  unfoldable pub opens_info_dir : ℕ → Store fs → Bool
  opens_info_dir n st = has_dir n st.dirs && fs.opens n st.disk

  -- The second loop of Snapshot::deleteFilelists: false where it throws.
  unfoldable pub opens_all : List Snapshot → Store fs → Bool
  unfolding opens_info_dir
  opens_all [] st = true
  opens_all (x ∷ xs) st = (is_current x || opens_info_dir x.num st) && opens_all xs st

  -- Snapshot::deleteFilelists and the openInfoDir that follows it: false where one of them throws.
  unfoldable pub delete_filelists : Snapshot → Store fs → Bool
  unfolding opens_info_dir opens_all
  delete_filelists s st = opens_info_dir s.num st && opens_all st.entries st

  -- The part after the directory has been opened: info.xml is unlinked, the directory goes
  -- unless it holds the highest number, and the entry is erased.
  unfoldable pub forget : Snapshot → Store fs → Store fs
  unfolding set_info rmdir
  forget s st =
      let dirs = if fs.unlink_fails s.num st.disk then st.dirs else set_info s.num none st.dirs in
      record st {
        dirs =
            if not unique_numbers || not (s.num == last_num st.entries)
            then rmdir fs s.num st.disk dirs
            else dirs;
        entries = erase s.num st.entries;
      }

  -- Snapshots::deleteSnapshot
  unfoldable pub delete_snapshot : Option Snapshot → Store fs → Result × Store fs
  unfolding delete_filesystem_snapshot forget delete_filelists
  delete_snapshot none st = (err illegal_snapshot, st)
  delete_snapshot (some s) st =
      if is_current s || (fs.is_default s.num st.disk || fs.is_active s.num st.disk)
      then (err illegal_snapshot, st)
      else elim (delete_filesystem_snapshot fs s.num st.disk) [
        | inl (e, d) ↦ (err e, record st { disk = d })
        | inr d ↦
            let st' = record st { disk = d } in
            if delete_filelists s st' then (ok s.num, forget s st') else (err io_error, st')
      ]
