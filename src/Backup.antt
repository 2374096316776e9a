-- ===== src/Backup.antt =====
-- Backups with snbk: classes TheBigThing and TheBigThings of client/snbk/TheBigThing.cc, without the dates,
-- which are only shown. A command is run in a world. What the trees of client/snbk/TreeView.cc find as the
-- parent of a send is given, for the things as they are at that time: none if the search throws.
pub mod Transfer
pub mod Remove
pub mod Mirrored
pub mod Target
pub mod Probe
pub mod TreeView
use snapper.Base.{
  Bytes, eq_bytes, ℕ, ◌+◌, ◌*◌, ◌-◌, ltb, leb, ◌==◌, Bool, true, false, not, ◌&&◌, ◌||◌, Option,
  none, some, List, [], ◌∷◌, ◌++◌, if◌then◌else◌,
}

pub data SourceState : Type 0 where
  source_missing read_only read_write : SourceState

pub data TargetState : Type 0 where
  target_missing valid invalid legacy : TargetState

pub record TheBigThing : Type 0 where
  pub num : ℕ
  pub source_state : SourceState
  pub target_state : TargetState
  pub source_uuid : Bytes
  pub source_received_uuid : Bytes
  pub source_meta_checksum : Bytes
  pub target_uuid : Bytes
  pub target_received_uuid : Bytes
  pub target_meta_checksum : Bytes

-- CopyMode
pub data CopyMode : Type 0 where
  source_to_target target_to_source : CopyMode

-- The commands, with the number of the snapshot that their arguments are made of; cp and scp are one, and
-- btrfs send has the number of the parent.
pub data Command : Type 0 where
  mkdir copy_info : CopyMode → ℕ → Command
  send_receive : CopyMode → Option ℕ → ℕ → Command
  subvolume_delete remove_info rmdir : ℕ → Command

-- Whether it did not throw, what became of a value, and the world.
abbrev pub Outcome : Type 0 → Type 0 → Type 0
Outcome W A = Bool × A × W

abbrev pub with_target : TargetState → TheBigThing → TheBigThing
with_target s x = record x { target_state = s }

abbrev pub is_read_only : SourceState → Bool
is_read_only read_only = true
is_read_only _ = false

abbrev pub is_source_missing : SourceState → Bool
is_source_missing source_missing = true
is_source_missing _ = false

abbrev pub is_target_missing : TargetState → Bool
is_target_missing target_missing = true
is_target_missing _ = false

abbrev pub is_valid : TargetState → Bool
is_valid valid = true
is_valid _ = false

abbrev pub is_invalid : TargetState → Bool
is_invalid invalid = true
is_invalid _ = false

abbrev pub is_legacy : TargetState → Bool
is_legacy legacy = true
is_legacy _ = false

-- The value after what may have thrown.
abbrev pub finish : {W A : Type 0} → A → A → Bool × W → Outcome W A
finish old new r = if r.0 then (true, new, r.1) else (false, old, r.1)

-- A loop over the things whose body may change the thing, and sees all things as they are; it ends where
-- the body throws.
unfoldable pub for_each :
    {W A : Type 0} → ((A → List A) → A → W → Outcome W A) → List A → List A → W → Outcome W (List A)
for_each step done [] w = (true, [], w)
for_each step done (x ∷ rest) w =
    let (good, y, w1) = step (λ z. done ++ z ∷ rest) x w in
    let (others, ys, w2) = for_each step (done ++ y ∷ []) rest w1 in
    if good then (others, y ∷ ys, w2) else (false, y ∷ rest, w1)

module _ {W : Type 0} (run : Command → W → Bool × W)
    (nearest : List TheBigThing → CopyMode → TheBigThing → Option (Option ℕ)) where
  -- Commands in order, up to the first that fails.
  unfoldable pub run_all : List Command → W → Bool × W
  run_all [] w = (true, w)
  run_all (c ∷ commands) w =
      let (good, w') = run c w in
      let later = run_all commands w' in if good then later else (false, w')

  -- TheBigThing::copy, with the parent that make_copy_specs has found
  unfoldable pub copy : CopyMode → Option ℕ → TheBigThing → W → Bool × W
  unfolding run_all
  copy mode parent x w =
      run_all (mkdir mode x.num ∷ copy_info mode x.num ∷ send_receive mode parent x.num ∷ []) w

  -- TheBigThing::transfer, by the states of the thing and the parent
  unfoldable pub transfer_from :
      SourceState → TargetState → Option (Option ℕ) → TheBigThing → W → Outcome W TheBigThing
  unfolding copy
  transfer_from source_missing t found x w = (false, x, w)
  transfer_from read_write t found x w = (false, x, w)
  transfer_from read_only t none x w = (false, x, w)
  transfer_from read_only invalid (some parent) x w = (false, x, w)
  transfer_from read_only valid (some parent) x w = (false, x, w)
  transfer_from read_only target_missing (some parent) x w =
      finish x (with_target valid x) (copy source_to_target parent x w)
  transfer_from read_only legacy (some parent) x w =
      finish x (with_target valid x) (run_all (copy_info source_to_target x.num ∷ []) w)

  abbrev pub transfer : (TheBigThing → List TheBigThing) → TheBigThing → W → Outcome W TheBigThing
  transfer things x w =
      transfer_from x.source_state x.target_state (nearest (things x) source_to_target x) x w

  -- TheBigThing::restore
  unfoldable pub restore :
      (TheBigThing → List TheBigThing) → TheBigThing → W → Outcome W TheBigThing
  unfolding copy
  restore things x w =
      let copied : Outcome W TheBigThing = elim (nearest (things x) target_to_source x) [
        | none ↦ (false, x, w)
        | some parent ↦
            finish x (record x { source_state = read_only }) (copy target_to_source parent x w)
      ] in
      if not (is_source_missing x.source_state) || not (is_valid x.target_state)
      then (false, x, w)
      else copied

  -- TheBigThing::remove
  unfoldable pub remove : TheBigThing → W → Outcome W TheBigThing
  unfolding run_all
  remove x w =
      let removed =
        finish x (with_target target_missing x)
          (run_all (subvolume_delete x.num ∷ remove_info x.num ∷ rmdir x.num ∷ []) w) in
      if is_target_missing x.target_state then (false, x, w) else removed

  -- A change of a thing under a condition, and one after the other.
  abbrev pub when :
      Bool → (TheBigThing → W → Outcome W TheBigThing) → TheBigThing → W → Outcome W TheBigThing
  when b f x w = let changed = f x w in if b then changed else (true, x, w)

  abbrev pub and_then :
      Outcome W TheBigThing → (TheBigThing → W → Outcome W TheBigThing) → Outcome W TheBigThing
  and_then r f = let next = f r.1 r.2 in if r.0 then next else r

  -- The body of the loop of TheBigThings::transfer
  abbrev pub transfer_step :
      (TheBigThing → List TheBigThing) → TheBigThing → W → Outcome W TheBigThing
  transfer_step things x w =
      let gone = when (is_invalid x.target_state) remove x w in
      let all = and_then gone (λ y.
        when (is_target_missing y.target_state || is_legacy y.target_state) (transfer things) y) in
      if is_read_only x.source_state then all else (true, x, w)

  -- The body of the loop of TheBigThings::restore
  abbrev pub restore_step :
      (TheBigThing → List TheBigThing) → TheBigThing → W → Outcome W TheBigThing
  restore_step things x w =
      when (is_valid x.target_state && is_source_missing x.source_state) (restore things) x w

  -- The body of the loop of TheBigThings::remove
  abbrev pub remove_step :
      (TheBigThing → List TheBigThing) → TheBigThing → W → Outcome W TheBigThing
  remove_step things x w = and_then (when (is_invalid x.target_state) remove x w) (λ y.
      when (is_source_missing y.source_state && not (is_target_missing y.target_state)) remove y)

  -- TheBigThings::transfer, restore and remove
  abbrev pub transfer_all : List TheBigThing → W → Outcome W (List TheBigThing)
  transfer_all things w = for_each transfer_step [] things w

  abbrev pub restore_all : List TheBigThing → W → Outcome W (List TheBigThing)
  restore_all things w = for_each restore_step [] things w

  abbrev pub remove_all : List TheBigThing → W → Outcome W (List TheBigThing)
  remove_all things w = for_each remove_step [] things w
