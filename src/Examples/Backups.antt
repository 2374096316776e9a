-- ===== src/Examples/Backups.antt =====
-- Backups (client/snbk/TheBigThing.cc) at concrete inputs, with a target that is the set of its snapshots.
use snapper.Base.{
  eq_bytes, ◌≢◌, In, ℕ, ◌≡◌, refl, Bool, true, false, not, ◌==◌, Option, none, some, List, [], ◌∷◌,
  map, if◌then◌else◌, arith,
}
use snapper.Backup.{
  SourceState, source_missing, read_only, read_write, TargetState, target_missing, valid, invalid,
  legacy, TheBigThing, CopyMode, Command, mkdir, copy_info, send_receive, subvolume_delete,
  remove_info, rmdir, is_target_missing, transfer_from, remove, for_each, transfer_all, remove_all,
}
use snapper.Backup.Transfer.{transferred, transfer_all-again}
use snapper.Backup.Remove.{all_mirrored}
use snapper.Backup.Mirrored.{IsEraser, remove_all-transfer_all}
use snapper.Backup.Target.{
  about, IsTarget, all_present, transfer_all-present, transfer_all_complete,
}
use snapper.Backup.TreeView.{ProxyNode, running, find_nearest_valid_node}
use snapper.Backup.TreeView.Nearest.{find_nearest_valid_node-ends}
use snapper.Backup.Probe.{Extra, probe_one, probe_target, new_thing, all_sound, probe_target_sound}

abbrev thing : ℕ → SourceState → TargetState → TheBigThing
thing n s t = record (new_thing n) { source_state = s; target_state = t }

abbrev things : List TheBigThing
things =
    thing 1 read_only target_missing
    ∷ thing 2 read_only invalid
    ∷ thing 3 source_missing valid
    ∷ thing 4 read_only legacy
    ∷ thing 5 read_write valid
    ∷ []

-- The snapshots that the target has.
abbrev World : Type 0
World = ℕ → Bool

abbrev run : Command → World → Bool × World
run (mkdir mode n) w = (true, w)
run (copy_info mode n) w = (true, w)
run (send_receive mode parent n) w = (true, λ k. if n == k then true else w k)
run (subvolume_delete n) w = (true, λ k. if n == k then false else w k)
run (remove_info n) w = (true, w)
run (rmdir n) w = (true, w)

abbrev nearest : List TheBigThing → CopyMode → TheBigThing → Option (Option ℕ)
nearest l m x = some none

run-IsTarget : IsTarget run nearest (λ w. w)
run-IsTarget = (others, λ mode n w. refl, λ parent n w h. self n w)
  where
    others : (c : Command) (w : World) (k : ℕ) → (about c == k) ≡ false → (run c w).1 k ≡ w k
    others (mkdir mode n) w k e = refl
    others (copy_info mode n) w k e = refl
    others (send_receive mode parent n) w k e = rw e refl
    others (subvolume_delete n) w k e = rw e refl
    others (remove_info n) w k e = refl
    others (rmdir n) w k e = refl

    self : (n : ℕ) (w : World) → (if n == n then true else w n) ≡ true
    self n w = ground arith

abbrev world : World
world n = not (n == 1)

transfer_all-again_example :
    transfer_all run nearest
      (transfer_all run nearest things world).1
      (transfer_all run nearest things world).2
    ≡ (true, (transfer_all run nearest things world).1, (transfer_all run nearest things world).2)
unfolding for_each transfer_from remove
transfer_all-again_example = transfer_all-again run nearest things world refl

transfer_all-present_example :
    all_present run nearest
      (λ w. w)
      (transfer_all run nearest things world).2
      (transfer_all run nearest things world).1
    ≡ true
transfer_all-present_example =
    transfer_all-present run nearest (λ w. w) run-IsTarget things world refl refl

transfer_all_complete_example :
    ((transfer_all run nearest things world).1 ≡ map transferred things)
    × ((x : TheBigThing)
        → In x things
        → x.source_state ≡ read_only
        → (transfer_all run nearest things world).2 x.num ≡ true)
unfolding for_each transfer_from remove
transfer_all_complete_example =
    transfer_all_complete run nearest (λ w. w) run-IsTarget things world refl refl refl

run-IsEraser : IsEraser run nearest (λ w. w)
run-IsEraser = (λ n w h. gone n w, λ n w. refl, λ n w. refl)
  where
    gone : (n : ℕ) (w : World) → (if n == n then false else w n) ≡ false
    gone n w = ground arith

-- The target had 3, which the source has not, and 4 in the old form.
three_gone :
    (remove_all run nearest
        (transfer_all run nearest things world).1
        (transfer_all run nearest things world).2).2
      3
    ≡ false
unfolding for_each transfer_from remove
three_gone = refl

remove_all-transfer_all_example :
    (let r =
        remove_all run nearest
          (transfer_all run nearest things world).1
          (transfer_all run nearest things world).2 in
      (all_mirrored r.1 ≡ true)
      × ((x : TheBigThing)
          → In x things
          → (x.source_state ≡ read_only → r.2 x.num ≡ true)
            × (x.source_state ≡ source_missing
                → is_target_missing x.target_state ≡ false
                → r.2 x.num ≡ false)
            × (x.source_state ≡ read_write → x.target_state ≡ invalid → r.2 x.num ≡ false)))
unfolding for_each transfer_from remove
remove_all-transfer_all_example =
    remove_all-transfer_all run nearest (λ w. w) run-IsTarget run-IsEraser things world refl refl
      refl refl

abbrev extra : Extra
extra = record {
  is_subvolume_read_only = true;
  uuid = b't' ∷ [];
  received_uuid = b's' ∷ [];
  meta_checksum = b'1' ∷ [];
}

-- The source has snapshot 1, the target 1 and 2.
abbrev source : List TheBigThing
source =
    record (new_thing 1) {
      source_state = read_only;
      source_uuid = b's' ∷ [];
      source_meta_checksum = b'2' ∷ [];
    }
    ∷ []

abbrev probed : List TheBigThing
probed = probe_one 2 extra (probe_one 1 extra source)

probe_target_sound_example : all_sound probed ≡ true
unfolding probe_target
probe_target_sound_example =
    probe_target_sound (λ n. some extra) ((b'1' ∷ []) ∷ (b'2' ∷ []) ∷ []) source probed refl refl

-- Snapshot 2 was made of snapshot 1.
abbrev nodes : List ProxyNode
nodes =
    record { number = 2; uuid = b'b' ∷ []; parent_uuid = b'a' ∷ []; is_valid = false }
    ∷ record { number = 1; uuid = b'a' ∷ []; parent_uuid = []; is_valid = true }
    ∷ []

find_nearest_valid_node-ends_example : find_nearest_valid_node 9 nodes (b'b' ∷ []) ≢ some running
unfolding eq_bytes
find_nearest_valid_node-ends_example =
    find_nearest_valid_node-ends nodes 9 (b'b' ∷ []) (omega arith)
