-- ===== src/Cleanup/Loop.antt =====
-- client/cleanup.cc: Cleaner::remove and the three forms of Cleaner::cleanup. The snapper that the
-- cleaner drives (ProxySnapper of client/proxy/proxy.h) is an interface.
pub mod Progress
pub mod Survival
use snapper.Base.{
  ℕ, zero, suc, ◌≡◌, ◌≢◌, Bool, true, false, not, ◌&&◌, Option, none, some, List, [], ◌∷◌, ◌++◌,
  ◌==◌, if◌then◌else◌,
}
use snapper.Base.Int.{ℤ}
use snapper.Snapshot.{Snapshot}
use snapper.Proxy.{erase}
use snapper.Cleanup.Range.{Value, min, max}
use snapper.Cleanup.Filter.{View, filter}
use snapper.Cleanup.Limit.{Double, Limit}
use snapper.Cleanup.Limit

-- What a call gives: a value, the exception by which the snapper says that it has no quota or cannot tell
-- the free space (QuotaException, FreeSpaceException), or another one.
pub data Query (A : Type 0) : Type 0 where
  answer : A → Query A
  unsupported broken : Query A

-- What the call gives to one who catches nothing.
abbrev pub answered : {A : Type 0} → Query A → Option A
answered (answer a) = some a
answered unsupported = none
answered broken = none

-- ProxySnapper and what the cleaner asks it. `none` of `delete` and of `query_quota` is an exception;
-- `undeletables_fail` says that getDefault or getActive throws. The laws are what both implementations of deleteSnapshots do to the list of the proxy, and
-- that deleting one snapshot makes no other one default or active.
pub record ProxySnapper : Type 1 where
  pub State : Type 0
  pub snapshots : State → List Snapshot
  pub default : State → Option Snapshot
  pub active : State → Option Snapshot
  pub undeletables_fail : State → Bool
  pub time : State → ℤ
  pub delete : ℕ → State → Option State
  pub prepare_quota : State → Query (Unit {0})
  pub query_quota : State → Option (ℕ × ℕ)
  pub query_free : State → Query (ℕ × ℕ)
  pub snapshots-delete :
      (n : ℕ) (s t : State) → delete n s ≡ some t → snapshots t ≡ erase n (snapshots s)
  pub default-delete :
      (n : ℕ) (s t : State) (d : Snapshot)
      → delete n s ≡ some t
      → default s ≡ some d
      → d.num ≢ n
      → default t ≡ some d
  pub active-delete :
      (n : ℕ) (s t : State) (d : Snapshot)
      → delete n s ≡ some t
      → active s ≡ some d
      → d.num ≢ n
      → active t ≡ some d

-- How a cleanup ends: by a return, by an exception, or, in the model only, with its fuel used up.
pub data Outcome (S : Type 0) : Type 0 where
  done threw stuck : S → Outcome S

abbrev pub final : {S : Type 0} → Outcome S → S
final (done s) = s
final (threw s) = s
final (stuck s) = s

abbrev pub and_then : {S : Type 0} → Outcome S → (S → Outcome S) → Outcome S
and_then (done s) f = f s
and_then (threw s) f = threw s
and_then (stuck s) f = stuck s

module _ (proxy : ProxySnapper) where
  open proxy use {State, snapshots, default, active, undeletables_fail, time, delete}

  -- Cleaner::remove, one call of deleteSnapshots for each snapshot.
  pub remove : List Snapshot → State → Outcome State
  remove [] s = done s
  remove (x ∷ xs) s = elim (delete x.num s) [ none ↦ threw s | some t ↦ remove xs t ]

  -- What Cleaner::filter reads in a state.
  abbrev pub view : ℤ → State → View
  view min_age s = record {
    snapshots = snapshots s;
    default = default s;
    active = active s;
    now = time s;
    min_age = min_age;
  }

  -- Filtering the candidates throws; the loop of the cleanup with a condition filters none of none.
  abbrev pub filter_throws : State → List Snapshot → Bool
  filter_throws s [] = false
  filter_throws s (e ∷ l) = undeletables_fail s

  -- `candidates` is the virtual calculate_candidates of the three cleaners, which may throw.
  module _ (candidates : State → Value → Option (List Snapshot)) (min_age : ℤ) where
    -- Cleaner::cleanup(snapshots, report)
    pub cleanup_once : State → Outcome State
    unfolding remove
    cleanup_once s = elim (candidates s max) [
      | none ↦ threw s
      | some l ↦ if undeletables_fail s then threw s else remove (filter (view min_age s) l) s
    ]

    -- The for loop of Cleaner::cleanup with a condition: the first of the longer and longer prefixes
    -- of the candidates of which the filter leaves something, and what it leaves.
    pub first_removable : State → List Snapshot → List Snapshot → List Snapshot
    first_removable s before [] = []
    first_removable s before (e ∷ rest) =
        let tmp = filter (view min_age s) (before ++ e ∷ []) in
        let later = first_removable s (before ++ e ∷ []) rest in
        elim tmp [ [] ↦ later | x ∷ xs ↦ x ∷ xs ]

    -- The for loop and what follows it, for the candidates.
    pub round_with : (State → Outcome State) → State → List Snapshot → Outcome State
    unfolding first_removable
    round_with again s l = if filter_throws s l then threw s else elim (first_removable s [] l) [
      | [] ↦ done s
      | x ∷ xs ↦ elim (remove (x ∷ xs) s) [
        | done t ↦ again t
        | threw t ↦ threw t
        | stuck t ↦ stuck t
      ]
    ]

    -- The branch of the while loop that is taken when the condition answers no.
    pub round : (State → Outcome State) → State → Outcome State
    unfolding round_with
    round again s = elim (candidates s min) [ none ↦ threw s | some l ↦ round_with again s l ]

    -- Cleaner::cleanup(snapshots, condition, report). The condition may throw; the fuel counts the
    -- rounds.
    pub cleanup_until : (State → Option Bool) → ℕ → State → Outcome State
    unfolding round
    cleanup_until condition zero s = stuck s
    cleanup_until condition (suc fuel) s = elim (condition s) [
      | none ↦ threw s
      | some true ↦ done s
      | some false ↦ round (cleanup_until condition fuel) s
    ]

    module _ (d : Double) (space_limit free_limit : Limit d) (is_degenerated : Bool) where
      -- Cleaner::is_quota_aware; only a QuotaException is caught.
      pub is_quota_aware : State → Option Bool
      is_quota_aware s = if is_degenerated then some false else elim (proxy.prepare_quota s) [
        | broken ↦ none
        | unsupported ↦ some false
        | answer _ ↦ some (Limit.max_used_enabled d space_limit)
      ]

      -- Cleaner::is_quota_satisfied
      pub is_quota_satisfied : State → Option Bool
      is_quota_satisfied s = elim (proxy.query_quota s) [
        | none ↦ none
        | some (size, used) ↦
            some (if size == 0 then true else Limit.max_used_satisfied d space_limit size used)
      ]

      -- Cleaner::is_free_aware; only a FreeSpaceException is caught.
      pub is_free_aware : State → Option Bool
      is_free_aware s = if is_degenerated then some false else elim (proxy.query_free s) [
        | broken ↦ none
        | unsupported ↦ some false
        | answer _ ↦ some (Limit.min_free_enabled d free_limit)
      ]

      -- Cleaner::is_free_satisfied
      pub is_free_satisfied : State → Option Bool
      is_free_satisfied s = elim (answered (proxy.query_free s)) [
        | none ↦ none
        | some (size, free) ↦
            some (if size == 0 then true else Limit.min_free_satisfied d free_limit size free)
      ]

      -- The two ifs of Cleaner::cleanup(report).
      pub quota_part : ℕ → State → Outcome State
      unfolding cleanup_until is_quota_aware is_quota_satisfied
      quota_part fuel s = elim (is_quota_aware s) [
        | none ↦ threw s
        | some true ↦ cleanup_until is_quota_satisfied fuel s
        | some false ↦ done s
      ]

      pub free_part : ℕ → State → Outcome State
      unfolding cleanup_until is_free_aware is_free_satisfied
      free_part fuel s = elim (is_free_aware s) [
        | none ↦ threw s
        | some true ↦ cleanup_until is_free_satisfied fuel s
        | some false ↦ done s
      ]

      -- Cleaner::cleanup(report)
      pub cleanup : ℕ → State → Outcome State
      unfolding cleanup_once quota_part free_part
      cleanup fuel s = and_then (and_then (cleanup_once s) (quota_part fuel)) (free_part fuel)
