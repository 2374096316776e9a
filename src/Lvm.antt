-- ===== src/Lvm.antt =====
-- The cache of LVM volumes (snapper/LvmCache.cc): classes LvAttrs, LogicalVolume, VolumeGroup and LvmCache.
-- A std::map is a function of the key. LVM is given: `run` runs one of its commands in a world; `words` are the
-- words of a trimmed line (boost), and `skip` is whether LVM knows --ignoreactivationskip. The locks, which
-- let one operation change a volume at a time, have no counterpart.
pub mod Coherent
pub mod Whole
pub mod Failed
pub mod Done
use snapper.Base.{
  Bytes, eq_bytes, ℕ, ◌==◌, Bool, true, false, not, ◌&&◌, ◌||◌, Option, none, some, List, [], ◌∷◌,
  if◌then◌else◌, find_key,
}

pub record LvAttrs : Type 0 where
  pub active : Bool
  pub read_only : Bool
  pub thin : Bool

abbrev pub extract_active : Bytes → Bool
extract_active (c0 ∷ c1 ∷ c2 ∷ c3 ∷ c4 ∷ raw) = c4 == b'a'
extract_active _ = false

abbrev pub extract_read_only : Bytes → Bool
extract_read_only (c0 ∷ c1 ∷ c2 ∷ raw) = c1 == b'r' || c1 == b'R'
extract_read_only _ = false

abbrev pub thin_text : Bytes
thin_text = b't' ∷ b'h' ∷ b'i' ∷ b'n' ∷ []

-- LvAttrs::LvAttrs of the words of a line
unfoldable pub lv_attrs : List Bytes → LvAttrs
unfolding eq_bytes
lv_attrs [] = record { active = false; read_only = false; thin = false }
lv_attrs (attr ∷ []) = record {
  active = extract_active attr;
  read_only = extract_read_only attr;
  thin = false;
}
lv_attrs (attr ∷ segtype ∷ raw) = record {
  active = extract_active attr;
  read_only = extract_read_only attr;
  thin = eq_bytes segtype thin_text;
}

-- The commands, with the volume group and the logical volume of their arguments.
pub data Command : Type 0 where
  lvs : Bytes → Bytes → Command
  lvs_vg : Bytes → Command
  lvchange_active : Bytes → Bytes → Bool → Command
  lvchange_permission : Bytes → Bytes → Bool → Command
  lvcreate : Bytes → Bytes → Bytes → Bool → Command
  lvremove : Bytes → Bytes → Command

-- Whether the exit status is 0, and the lines of the output.
pub record Reply : Type 0 where
  pub good : Bool
  pub stdout : List Bytes

abbrev pub Volumes : Type 0
Volumes = Bytes → Option LvAttrs

abbrev pub update : {A : Type 0} → Bytes → Option A → (Bytes → Option A) → Bytes → Option A
update k x m j = if eq_bytes k j then x else m j

-- std::string::find of "-snapshot"
abbrev pub is_start : Bytes → Bytes → Bool
is_start [] text = true
is_start (c ∷ start) [] = false
is_start (c ∷ start) (d ∷ text) = c == d && is_start start text

abbrev pub contains_text : Bytes → Bytes → Bool
contains_text part [] = is_start part []
contains_text part (c ∷ text) = is_start part (c ∷ text) || contains_text part text

abbrev pub snapshot_text : Bytes
snapshot_text = b'-' ∷ b's' ∷ b'n' ∷ b'a' ∷ b'p' ∷ b's' ∷ b'h' ∷ b'o' ∷ b't' ∷ []

-- VolumeGroup::VolumeGroup; of two lines of one name the first counts.
unfoldable pub volume_group : Bytes → List (Bytes × List Bytes) → Volumes
volume_group add_lv_name [] j = none
volume_group add_lv_name ((name, raw) ∷ input) j =
    let others = volume_group add_lv_name input j in
    if eq_bytes name j && (eq_bytes name add_lv_name || contains_text snapshot_text name)
    then some (lv_attrs raw)
    else others

-- The operations of LvmCache that change it.
pub data Operation : Type 0 where
  activate deactivate add_or_update delete_snapshot : Bytes → Bytes → Operation
  set_read_only : Bytes → Bytes → Bool → Operation
  create_snapshot : Bytes → Bytes → Bytes → Bool → Operation

abbrev pub Cache : Type 0
Cache = Bytes → Option Volumes

-- What the cache has of a volume.
abbrev pub cached : Cache → Bytes → Bytes → Option LvAttrs
cached c vg lv = elim (c vg) [ none ↦ none | some m ↦ m lv ]

-- LvmCache::is_read_only; none if it throws
abbrev pub is_read_only : Cache → Bytes → Bytes → Option Bool
is_read_only c vg lv = elim (cached c vg lv) [ none ↦ none | some a ↦ some a.read_only ]

-- LvmCache::contains
abbrev pub contains : Cache → Bytes → Bytes → Bool
contains c vg lv = elim (cached c vg lv) [ none ↦ false | some a ↦ true ]

-- LvmCache::contains_thin
abbrev pub contains_thin : Cache → Bytes → Bytes → Bool
contains_thin c vg lv = elim (cached c vg lv) [ none ↦ false | some a ↦ a.thin ]

module _ {W : Type 0} (run : Command → W → Reply × W) (words : Bytes → List Bytes)
    (skip : Bool) where
  -- An operation returns whether it did not throw.
  abbrev Change : Type 0 → Type 0
  Change A = A → W → Bool × A × W

  -- A command, and what it changes if it succeeds.
  abbrev pub change : {A : Type 0} → Command → (A → A) → Change A
  change command f a w = let (r, w') = run command w in (r.good, if r.good then f a else a, w')

  -- LogicalVolume::activate
  abbrev pub activate_volume : Bytes → Bytes → Change LvAttrs
  activate_volume vg lv attrs w =
      let changed = change (lvchange_active vg lv true) (λ x. record x { active = true }) attrs w in
      if attrs.active then (true, attrs, w) else changed

  -- LogicalVolume::deactivate
  abbrev pub deactivate_volume : Bytes → Bytes → Change LvAttrs
  deactivate_volume vg lv attrs w =
      let changed =
        change (lvchange_active vg lv false) (λ x. record x { active = false }) attrs w in
      if not attrs.active then (true, attrs, w) else changed

  -- What lvs says of one volume.
  abbrev pub read_attrs : Bytes → Bytes → W → Option LvAttrs × W
  read_attrs vg lv w =
      let (r, w') = run (lvs vg lv) w in
      (
        if not r.good then none else elim r.stdout [
          | [] ↦ none
          | line ∷ lines ↦ elim (words line) [ [] ↦ none | a ∷ args ↦ some (lv_attrs (a ∷ args)) ]
        ],
        w',
      )

  -- LogicalVolume::update
  abbrev pub update_volume : Bytes → Bytes → Change LvAttrs
  update_volume vg lv attrs w =
      let (x, w') = read_attrs vg lv w in
      elim x [ none ↦ (false, attrs, w') | some new_attrs ↦ (true, new_attrs, w') ]

  -- LogicalVolume::set_read_only
  abbrev pub set_volume_read_only : Bytes → Bytes → Bool → Change LvAttrs
  set_volume_read_only vg lv b attrs w =
      let changed =
        change (lvchange_permission vg lv b) (λ x. record x { read_only = b }) attrs w in
      if (if b then attrs.read_only else not attrs.read_only) then (true, attrs, w) else changed

  -- An operation on a value of a map, which throws where there is none.
  abbrev pub at : {A : Type 0} → Bytes → Change A → Change (Bytes → Option A)
  at k f m w = elim (m k) [
    | none ↦ (false, m, w)
    | some x ↦ let (good, y, w') = f x w in (good, update k (some y) m, w')
  ]

  -- VolumeGroup::create_snapshot
  abbrev pub create_in : Bytes → Bytes → Bytes → Bool → Change Volumes
  create_in vg origin name b m w =
      let changed =
        change (lvcreate vg origin name b)
          (update name (some (record { active = not skip; read_only = b; thin = true }))) m w in
      elim (m name) [ none ↦ changed | some x ↦ (false, m, w) ]

  -- VolumeGroup::add_or_update
  abbrev pub add_or_update_in : Bytes → Bytes → Change Volumes
  add_or_update_in vg lv m w =
      let (x, w') = read_attrs vg lv w in
      elim (m lv) [
        | some attrs ↦ at lv (update_volume vg lv) m w
        | none ↦ elim x [
          | none ↦ (false, m, w')
          | some attrs ↦ (true, update lv (some attrs) m, w')
        ]
      ]

  -- VolumeGroup::remove_lv
  abbrev pub remove_in : Bytes → Bytes → Change Volumes
  remove_in vg lv m w =
      let changed = change (lvremove vg lv) (update lv none) m w in
      elim (m lv) [ none ↦ (false, m, w) | some x ↦ changed ]

  -- The loop of LvmCache::add_vg over the lines.
  abbrev pub read_lines : List Bytes → Option (List (Bytes × List Bytes))
  read_lines [] = some []
  read_lines (line ∷ lines) = elim (words line) [
    | [] ↦ none
    | name ∷ raw ↦ elim (read_lines lines) [
      | none ↦ none
      | some content ↦ some ((name, raw) ∷ content)
    ]
  ]

  -- LvmCache::add_vg
  unfoldable pub add_vg : Bytes → Bytes → Change Cache
  unfolding volume_group
  add_vg vg lv c w =
      let (r, w') = run (lvs_vg vg) w in
      if not r.good then (false, c, w') else elim (read_lines r.stdout) [
        | none ↦ (false, c, w')
        | some content ↦ (true, update vg (some (volume_group lv content)) c, w')
      ]

  unfoldable pub perform : Operation → Change Cache
  unfolding add_vg
  perform (activate vg lv) c w = at vg (at lv (activate_volume vg lv)) c w
  perform (deactivate vg lv) c w = at vg (at lv (deactivate_volume vg lv)) c w
  perform (set_read_only vg lv b) c w = at vg (at lv (set_volume_read_only vg lv b)) c w
  perform (add_or_update vg lv) c w = elim (c vg) [
    | none ↦ add_vg vg lv c w
    | some m ↦ at vg (add_or_update_in vg lv) c w
  ]
  perform (create_snapshot vg origin name b) c w = at vg (create_in vg origin name b) c w
  perform (delete_snapshot vg lv) c w = at vg (remove_in vg lv) c w
