-- ===== src/Server/State.antt =====
-- The state of server/Client.h and server/MetaSnapper.h. A client of the bus is known by its name, a
-- configuration by its name; both are unique. A std::map from keys to counters is the list of its pairs
-- in ascending order; a counter is an `unsigned int` and wraps.
use snapper.Base.{
  Bytes, eq_bytes, lt_bytes, ℕ, ◌+◌, ◌-◌, ◌%◌, ◌^◌, Bool, true, false, not, ◌&&◌, ◌||◌, Option,
  none, some, List, [], ◌∷◌, ◌==◌, ltb, if◌then◌else◌, find_if,
}
use snapper.Snapshots.Store.{Filesystem, Store}

-- The part of class Comparison that the service asks for: its snapper and the two snapshots.
pub record Comparison : Type 0 where
  pub config : Bytes
  pub num1 : ℕ
  pub num2 : ℕ

-- A call of CreateComparison between its two locked parts, with the iterators of the snapshots (`none`
-- is end()). It holds a RefHolder.
pub record Running : Type 0 where
  pub config : Bytes
  pub snapshot1 : Option ℕ
  pub snapshot2 : Option ℕ

abbrev pub MountKey : Type 0
MountKey = Bytes × ℕ

pub record Client : Type 0 where
  pub name : Bytes
  pub uid : ℕ
  pub zombie : Bool
  pub comparisons : List Comparison
  pub locks : List (Bytes × ℕ)
  pub mounts : List (MountKey × ℕ)
  -- The thread of the client runs one method call at a time.
  pub running : Option Running

abbrev pub eq_mount : MountKey → MountKey → Bool
eq_mount a b = eq_bytes a.0 b.0 && (a.1 == b.1)

-- operator< of std::pair
abbrev pub lt_mount : MountKey → MountKey → Bool
lt_mount a b = lt_bytes a.0 b.0 || (not (lt_bytes b.0 a.0) && ltb a.1 b.1)

module _ {K : Type 0} (eq lt : K → K → Bool) where
  -- map[key]++
  unfoldable pub increase : K → List (K × ℕ) → List (K × ℕ)
  increase k [] = (k, 1) ∷ []
  increase k ((j, n) ∷ m) =
      let rest = increase k m in
      if eq j k
      then (j, (n + 1) % 2 ^ 32) ∷ m
      else if lt k j
      then (k, 1) ∷ (j, n) ∷ m
      else (j, n) ∷ rest

  -- map::find
  unfoldable pub counter : K → List (K × ℕ) → Option ℕ
  counter k [] = none
  counter k ((j, n) ∷ m) = let rest = counter k m in if eq j k then some n else rest

-- Client::add_lock
unfoldable pub add_lock : Bytes → Client → Client
unfolding increase
add_lock config_name c = record c { locks = increase eq_bytes lt_bytes config_name c.locks }

-- --it->second == 0 erases the entry.
unfoldable pub decrease_lock : Bytes → List (Bytes × ℕ) → List (Bytes × ℕ)
decrease_lock k [] = []
decrease_lock k ((j, n) ∷ m) =
    let rest = decrease_lock k m in
    let less = (n + 2 ^ 32 - 1) % 2 ^ 32 in
    if eq_bytes j k then (if less == 0 then m else (j, less) ∷ m) else (j, n) ∷ rest

-- Client::remove_lock
unfoldable pub remove_lock : Bytes → Client → Client
unfolding decrease_lock
remove_lock config_name c = record c { locks = decrease_lock config_name c.locks }

-- Client::has_lock
unfoldable pub has_lock : Bytes → Client → Bool
unfolding counter
has_lock config_name c = elim (counter eq_bytes lt_bytes config_name c.locks) [
  | none ↦ false
  | some n ↦ true
]

-- Client::add_mount
unfoldable pub add_mount : Bytes → ℕ → Client → Client
unfolding increase
add_mount config_name number c = record c {
  mounts = increase eq_mount lt_mount (config_name, number) c.mounts;
}

unfoldable pub decrease_mount : MountKey → List (MountKey × ℕ) → List (MountKey × ℕ)
decrease_mount k [] = []
decrease_mount k ((j, n) ∷ m) =
    let rest = decrease_mount k m in
    if eq_mount j k then (if ltb 1 n then (j, n - 1) ∷ m else m) else (j, n) ∷ rest

-- Client::remove_mount
unfoldable pub remove_mount : Bytes → ℕ → Client → Client
unfolding decrease_mount
remove_mount config_name number c = record c {
  mounts = decrease_mount (config_name, number) c.mounts;
}

-- The test of check_snapshot_in_use for one client.
unfoldable pub has_mount : Bytes → ℕ → Client → Bool
unfolding counter
has_mount config_name number c = elim (counter eq_mount lt_mount (config_name, number) c.mounts) [
  | none ↦ false
  | some n ↦ true
]

-- MetaSnapper, with its RefCounter. `store` is the list of snapshots of its Snapper.
pub record MetaSnapper (fs : Filesystem) : Type 0 where
  pub config_name : Bytes
  pub allowed_uids : List ℕ
  pub allowed_gids : List ℕ
  pub use_count : ℕ
  pub unique_numbers : Bool
  pub store : Store fs

module _ {fs : Filesystem} where
  -- RefCounter::inc_use_count
  abbrev pub inc_use_count : MetaSnapper fs → MetaSnapper fs
  inc_use_count m = record m { use_count = m.use_count + 1 }

  -- RefCounter::dec_use_count, whose assertion is that the counter is positive.
  abbrev pub dec_use_count : MetaSnapper fs → MetaSnapper fs
  dec_use_count m = record m { use_count = m.use_count - 1 }

  -- MetaSnappers::find; `none` is UnknownConfig.
  abbrev pub find_meta : Bytes → List (MetaSnapper fs) → Option (MetaSnapper fs)
  find_meta name metas = find_if (λ m. eq_bytes m.config_name name) metas

  -- A change of the entry of this name.
  unfoldable pub change_meta :
      Bytes → (MetaSnapper fs → MetaSnapper fs) → List (MetaSnapper fs) → List (MetaSnapper fs)
  change_meta name f [] = []
  change_meta name f (m ∷ metas) =
      (if eq_bytes m.config_name name then f m else m) ∷ change_meta name f metas

  -- entries.erase
  unfoldable pub erase_meta : Bytes → List (MetaSnapper fs) → List (MetaSnapper fs)
  erase_meta name [] = []
  erase_meta name (m ∷ metas) =
      let rest = erase_meta name metas in if eq_bytes m.config_name name then metas else m ∷ rest
