-- ===== src/Proxy/Library.antt =====
-- ProxySnapperLib of client/proxy/proxy-lib.cc, the proxy that works on the library itself. A proxy of a
-- snapshot holds an iterator into the list of class Snapshots, which is the number of the entry here.
pub mod Grown
pub mod Steps
use snapper.Base.{
  ℕ, ◌≡◌, Bool, true, false, not, Option, none, some, List, [], ◌∷◌, ◌++◌, ◌==◌, if◌then◌else◌,
}
use snapper.Base.Int.{ℤ}
use snapper.Snapshot.{Snapshot}
use snapper.Snapshots.Store.{Filesystem, Os, Store, Error, Result, ok, err, no_fuel, find}
use snapper.Snapshots.Create.{
  Smd, Scd, create_single_snapshot, create_single_snapshot_from, create_single_snapshot_of_default,
  create_pre_snapshot, create_post_snapshot, modify_snapshot,
}
use snapper.Snapshots.Delete.{delete_snapshot}

abbrev pub nums_of : List Snapshot → List ℕ
nums_of [] = []
nums_of (s ∷ l) = s.num ∷ nums_of l

-- proxy_snapshots.erase of the proxy with this number.
unfoldable pub erase_num : ℕ → List ℕ → List ℕ
erase_num n [] = []
erase_num n (m ∷ l) = let rest = erase_num n l in if m == n then l else m ∷ rest

unfoldable pub erase_nums : List ℕ → List ℕ → List ℕ
unfolding erase_num
erase_nums [] l = l
erase_nums (n ∷ nums) l = erase_nums nums (erase_num n l)

-- What a client asks of the proxy; a snapshot is named by its number.
pub data Request : Type 0 where
  create_single : Scd → Request
  create_single_from : ℕ → Scd → Request
  create_single_of_default : Scd → Request
  create_pre : Scd → Request
  create_post : ℕ → Scd → Request
  modify : ℕ → Smd → Request
  delete : List ℕ → Request

module _ (fs : Filesystem) where
  pub record Library : Type 0 where
    pub store : Store fs
    pub proxies : List ℕ

  -- ProxySnapshotsLib::ProxySnapshotsLib
  abbrev pub open_library : Store fs → Library
  open_library st = record { store = st; proxies = nums_of st.entries }

  -- emplace_back of what a create function of the library returns; false where that throws.
  abbrev pub emplace : Library → Result × Store fs → Bool × Library
  emplace l (ok n, st) = (true, record { store = st; proxies = l.proxies ++ n ∷ [] })
  emplace l (err e, st) = (false, record l { store = st })
  emplace l (no_fuel, st) = (false, record l { store = st })

  abbrev pub is_ok : Result → Bool
  is_ok (ok n) = true
  is_ok (err e) = false
  is_ok no_fuel = false

  -- The first loop of deleteSnapshots; false where deleteSnapshot throws.
  unfoldable pub delete_loop : Bool → List ℕ → Store fs → Bool × Store fs
  unfolding delete_snapshot
  delete_loop unique_numbers [] st = (true, st)
  delete_loop unique_numbers (n ∷ nums) st =
      let r = delete_snapshot fs unique_numbers (find n st.entries) st in
      let rest = delete_loop unique_numbers nums r.1 in if is_ok r.0 then rest else (false, r.1)

  -- ProxySnapperLib::deleteSnapshots
  unfoldable pub delete_snapshots : Bool → List ℕ → Library → Bool × Library
  unfolding delete_loop erase_nums
  delete_snapshots unique_numbers nums l =
      let r = delete_loop unique_numbers nums l.store in
      if r.0
      then (true, record { store = r.1; proxies = erase_nums nums l.proxies })
      else (false, record l { store = r.1 })

  -- One call of ProxySnapperLib: whether it returns, and what it leaves.
  unfoldable pub operate : Os → Bool → ℕ → ℤ → Request → Library → Bool × Library
  unfolding create_single_snapshot create_single_snapshot_from create_single_snapshot_of_default
      create_pre_snapshot create_post_snapshot modify_snapshot delete_snapshots
  operate os unique_numbers fuel now (create_single scd) l =
      emplace l (create_single_snapshot fs os fuel now scd l.store)
  operate os unique_numbers fuel now (create_single_from parent scd) l =
      emplace l (create_single_snapshot_from fs os fuel (some parent) now scd l.store)
  operate os unique_numbers fuel now (create_single_of_default scd) l =
      emplace l (create_single_snapshot_of_default fs os fuel now scd l.store)
  operate os unique_numbers fuel now (create_pre scd) l =
      emplace l (create_pre_snapshot fs os fuel now scd l.store)
  operate os unique_numbers fuel now (create_post pre scd) l =
      emplace l (create_post_snapshot fs os fuel (find pre l.store.entries) now scd l.store)
  operate os unique_numbers fuel now (modify num smd) l =
      let r = modify_snapshot fs os (find num l.store.entries) smd l.store in
      (is_ok r.0, record l { store = r.1 })
  operate os unique_numbers fuel now (delete nums) l = delete_snapshots unique_numbers nums l
