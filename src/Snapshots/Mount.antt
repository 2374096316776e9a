-- ===== src/Snapshots/Mount.antt =====
-- The mount bookkeeping of snapper/Snapshot.cc: mountFilesystemSnapshot, umountFilesystemSnapshot and
-- handleUmountFilesystemSnapshot. The counter is an `unsigned int` and wraps. What the Filesystem
-- answers and is asked to do is explicit: `mounted` is isSnapshotMounted, and the result says which call
-- was made. The callers' guard on the current snapshot is the error.
use snapper.Base.{
  ◌+◌, ◌-◌, ◌%◌, ◌^◌, ◌<◌, ◌≡◌, Bool, true, false, not, ◌&&◌, Option, none, some, arith, ◌==◌,
  if◌then◌else◌,
}
use snapper.Snapshot.{Snapshot, is_current}

pub data Call : Type 0 where
  no_call mount umount : Call

-- The lazy initialisation that both functions begin with.
unfoldable pub check_mounted : Bool → Snapshot → Snapshot
check_mounted mounted s =
    if s.mount_checked then s else record s { mount_user_request = mounted; mount_checked = true }

-- Snapshot::mountFilesystemSnapshot; `none` is IllegalSnapshotException.
unfoldable pub mount_filesystem_snapshot : Bool → Bool → Snapshot → Option (Call × Snapshot)
unfolding check_mounted
mount_filesystem_snapshot mounted user_request s =
    if is_current s
    then none
    else (let c = check_mounted mounted s in
        some (
          mount,
          if user_request
              then record c { mount_user_request = true }
              else record c { mount_use_count = (c.mount_use_count + 1) % 2 ^ 32 },
        ))

-- Snapshot::umountFilesystemSnapshot
unfoldable pub umount_filesystem_snapshot : Bool → Bool → Snapshot → Option (Call × Snapshot)
unfolding check_mounted
umount_filesystem_snapshot mounted user_request s =
    if is_current s
    then none
    else (let c = check_mounted mounted s in
        let t : Snapshot =
          if user_request
          then record c { mount_user_request = false }
          else record c { mount_use_count = (c.mount_use_count + 2 ^ 32 - 1) % 2 ^ 32 } in
        some (if user_request && (t.mount_use_count == 0) then umount else no_call, t))

-- Snapshot::handleUmountFilesystemSnapshot
unfoldable pub handle_umount_filesystem_snapshot : Snapshot → Call
handle_umount_filesystem_snapshot s =
    if s.mount_checked && (not s.mount_user_request && (s.mount_use_count == 0))
    then umount
    else no_call

-- A use that is begun and ended leaves the count as it was, asks for no unmount, and leaves a wish of
-- the user as it was once the mount state has been read, whatever the count is, an unsigned int.
pub use_and_release :
    (mounted later : Bool) (s t : Snapshot) (c : Call)
    → s.mount_use_count < 2 ^ 32
    → mount_filesystem_snapshot mounted false s ≡ some (c, t)
    → (u : Snapshot) × (umount_filesystem_snapshot later false t ≡ some (no_call, u))
      × (u.mount_use_count ≡ s.mount_use_count)
      × (u.mount_checked ≡ true)
      × (u.mount_user_request ≡ (if s.mount_checked then s.mount_user_request else mounted))
unfolding mount_filesystem_snapshot umount_filesystem_snapshot
use_and_release mounted later s t c h e =
    (check_mounted mounted s, ground arith, ground arith, ground arith, ground arith)
