-- ===== src/Cleanup/Number/Safe.antt =====
-- What a run of the number cleaner (do_cleanup_number of client/cleanup.cc) leaves in place.
use snapper.Base.{◌≡◌, ◌≢◌, ◌⊎◌, inl, inr, ℕ, Bool, some, In, List, sym, subst, arith}
use snapper.Base.Int.{ℤ}
use snapper.Snapshot.{Snapshot}
use snapper.Cleanup.Limit.{Double, Limit}
use snapper.Cleanup.Filter.{Distinct}
use snapper.Cleanup.Number.{NumberParameters, calculate_candidates}
use snapper.Cleanup.Number.Exact.{candidates-number}
use snapper.Cleanup.Distinct.{number-Distinct}
use snapper.Cleanup.Loop.{ProxySnapper}
use snapper.Cleanup.Safety.{after, others_survive, default_active_survive}

some-eq : {a b : List Snapshot} → some a ≡ some b → a ≡ b
some-eq e = ground (arith, e)

module _ (proxy : ProxySnapper) (parameters : NumberParameters) (min_age : ℤ) (d : Double)
    (space_limit free_limit : Limit d) (degenerated : Bool) where
  open proxy use {State, snapshots, default, active}

  -- The state in which a run of the number cleaner ends.
  abbrev pub after_number : ℕ → State → State
  after_number =
      after proxy (λ s v. some (calculate_candidates parameters (snapshots s) v)) min_age d
        space_limit free_limit degenerated

  -- Whatever the ranges, the limits and the failures of the snapper are, a run of the number cleaner
  -- on a list with distinct numbers deletes no snapshot of another cleanup algorithm, and neither the
  -- default nor the active snapshot.
  pub after_number_lem :
      (fuel : ℕ) (s : State) (a : Snapshot)
      → Distinct (snapshots s)
      → In a (snapshots s)
      → (a.cleanup ≢ "number") ⊎ ((default s ≡ some a) ⊎ (active s ≡ some a))
      → In a (snapshots (after_number fuel s))
  after_number_lem fuel s a u m (inl other) =
      others_survive proxy _ min_age d space_limit free_limit degenerated
        (λ x. x.cleanup ≡ "number")
        (λ t v l x e m.
          candidates-number parameters (snapshots t) v x (subst (λ k. In x k) (sym (some-eq e)) m))
        fuel s a u m other
  after_number_lem fuel s a u m (inr (inl e)) =
      ((default_active_survive proxy _ min_age d space_limit free_limit degenerated
          (λ t v l e u. subst Distinct (some-eq e) (number-Distinct parameters (snapshots t) v u))
          fuel s a u m).0
        e).0
  after_number_lem fuel s a u m (inr (inr e)) =
      ((default_active_survive proxy _ min_age d space_limit free_limit degenerated
          (λ t v l e u. subst Distinct (some-eq e) (number-Distinct parameters (snapshots t) v u))
          fuel s a u m).1
        e).0
