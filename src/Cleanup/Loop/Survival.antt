-- ===== src/Cleanup/Loop/Survival.antt =====
-- What Cleaner::cleanup (client/cleanup.cc) never deletes.
use mathlib.Core.List.{append_assoc, append-nil}
use snapper.Base.{
  ℕ, zero, suc, ◌≡◌, ◌≢◌, refl, ◌∙◌, inl, inr, Bool, true, false, Option, some, List, [], ◌∷◌, ◌++◌,
  arith, In, List-cases, Option-cases, Bool-cases,
}
use snapper.Base.Int.{ℤ}
use snapper.Snapshot.{Snapshot}
use snapper.Cleanup.Range.{Value, min, max}
use snapper.Cleanup.Limit.{Double, Limit}
use snapper.Cleanup.Filter.{filter}
use snapper.Cleanup.Loop.{
  ProxySnapper, Outcome, done, threw, stuck, final, remove, view, first_removable, filter_throws,
  round_with, round, cleanup_once, cleanup_until, cleanup, and_then, quota_part, free_part,
  is_quota_aware, is_free_aware,
}

module _ (proxy : ProxySnapper) (candidates : proxy.State → Value → Option (List Snapshot))
    (min_age : ℤ) (a : Snapshot) where
  open proxy use {State, snapshots, undeletables_fail, delete}

  abbrev filtered : State → List Snapshot → List Snapshot
  filtered s = filter (view proxy min_age s)

  -- Each snapshot that the for loop finds passed the filter in some prefix of the candidates.
  removable-prefix :
      (s : State) (x : Snapshot) (before l : List Snapshot)
      → In x (first_removable proxy candidates min_age s before l)
      → (tmp : List Snapshot) × (rest : List Snapshot) × (tmp ++ rest ≡ before ++ l)
        × In x (filtered s tmp)
  unfolding first_removable
  removable-prefix s x before [] h = absurd h
  removable-prefix s x before (e ∷ l) h = elim (List-cases (filtered s (before ++ e ∷ []))) [
    | inl n ↦
        let (tmp, rest, p, m) = removable-prefix s x (before ++ e ∷ []) l (ground arith) in
        (tmp, rest, p ∙ append_assoc before (e ∷ []) l, m)
    | inr (y, ys, n) ↦ (before ++ e ∷ [], l, append_assoc before (e ∷ []) l, ground arith)
  ]

  -- A property of the state that no deletion of another snapshot breaks, and under which the filter
  -- never lets this snapshot through, holds when the cleanup ends.
  module _ (Guard : State → Type 0)
      (keep : (n : ℕ) (s t : State) → Guard s → delete n s ≡ some t → a.num ≢ n → Guard t)
      (spare : (s : State) (v : Value) (l tmp rest : List Snapshot) (x : Snapshot)
        → candidates s v ≡ some l
        → tmp ++ rest ≡ l
        → Guard s
        → In x (filtered s tmp)
        → a.num ≢ x.num) where
    remove-Guard :
        (xs : List Snapshot) (s : State)
        → ((x : Snapshot) → In x xs → a.num ≢ x.num)
        → Guard s
        → Guard (final (remove proxy xs s))
    unfolding remove
    remove-Guard [] s h g = g
    remove-Guard (x ∷ xs) s h g = elim (Option-cases (delete x.num s)) [
      | inl e ↦ rw (e, remove) g
      | inr (t, e) ↦
          rw (e, remove)
            (remove-Guard xs t (λ y m. h y (inr m)) (keep x.num s t g e (h x (inl refl))))
    ]

    cleanup_once-Guard :
        (s : State) → Guard s → Guard (final (cleanup_once proxy candidates min_age s))
    unfolding cleanup_once
    cleanup_once-Guard s g = elim (Option-cases (candidates s max)) [
      | inl c ↦ rw (c, cleanup_once) g
      | inr (l, c) ↦ elim (Bool-cases (undeletables_fail s)) [
        | inl f ↦ rw (c, f, cleanup_once) g
        | inr f ↦
            rw (c, f, cleanup_once)
              (remove-Guard (filtered s l) s (λ x m. spare s max l l [] x c (append-nil l) g m) g)
      ]
    ]

    after_remove :
        (again : State → Outcome State)
        → ((t : State) → Guard t → Guard (final (again t)))
        → (o : Outcome State) → Guard (final o)
        → Guard (final (elim o [ done t ↦ again t | threw t ↦ threw t | stuck t ↦ stuck t ]))
    after_remove again ih (done t) g = ih t g
    after_remove again ih (threw t) g = g
    after_remove again ih (stuck t) g = g

    round_with-Guard :
        (again : State → Outcome State) (s : State) (l : List Snapshot)
        → candidates s min ≡ some l
        → ((t : State) → Guard t → Guard (final (again t)))
        → Guard s
        → Guard (final (round_with proxy candidates min_age again s l))
    unfolding round_with
    round_with-Guard again s l c ih g = elim (Bool-cases (filter_throws proxy s l)) [
      | inl f ↦ rw (f, round_with) g
      | inr f ↦ elim (List-cases (first_removable proxy candidates min_age s [] l)) [
        | inl e ↦ rw (f, e, round_with) g
        | inr (x, xs, e) ↦
            rw (f, e, round_with)
              (after_remove again ih (remove proxy (x ∷ xs) s) (
                remove-Guard (x ∷ xs) s
                  (λ y m.
                    let (tmp, rest, p, q) = removable-prefix s y [] l (rw e m) in
                    spare s min l tmp rest y c p g q)
                  g))
      ]
    ]

    round-Guard :
        (again : State → Outcome State) (s : State)
        → ((t : State) → Guard t → Guard (final (again t)))
        → Guard s
        → Guard (final (round proxy candidates min_age again s))
    unfolding round
    round-Guard again s ih g = elim (Option-cases (candidates s min)) [
      | inl c ↦ rw (c, round) g
      | inr (l, c) ↦ rw (c, round) (round_with-Guard again s l c ih g)
    ]

    cleanup_until-Guard :
        (condition : State → Option Bool) (fuel : ℕ) (s : State)
        → Guard s
        → Guard (final (cleanup_until proxy candidates min_age condition fuel s))
    unfolding cleanup_until
    cleanup_until-Guard condition zero s g = g
    cleanup_until-Guard condition (suc fuel) s g = elim (Option-cases (condition s)) [
      | inl e ↦ rw (e, cleanup_until) g
      | inr (true, e) ↦ rw (e, cleanup_until) g
      | inr (false, e) ↦
          rw (e, cleanup_until)
            (round-Guard (cleanup_until proxy candidates min_age condition fuel) s
              (cleanup_until-Guard condition fuel) g)
    ]

    and_then-Guard :
        (o : Outcome State) (f : State → Outcome State)
        → Guard (final o)
        → ((t : State) → Guard t → Guard (final (f t)))
        → Guard (final (and_then o f))
    and_then-Guard (done s) f g h = h s g
    and_then-Guard (threw s) f g h = g
    and_then-Guard (stuck s) f g h = g

    module _ (d : Double) (space_limit free_limit : Limit d) (degenerated : Bool) (fuel : ℕ) where
      quota_part-Guard :
          (s : State)
          → Guard s
          → Guard (
              final
                (quota_part proxy candidates min_age d space_limit free_limit degenerated fuel s))
      unfolding quota_part
      quota_part-Guard s g =
          elim (Option-cases
            (is_quota_aware proxy candidates min_age d space_limit free_limit degenerated s)) [
              | inl e ↦ rw (e, quota_part) g
              | inr (true, e) ↦ rw (e, quota_part) (cleanup_until-Guard _ fuel s g)
              | inr (false, e) ↦ rw (e, quota_part) g
            ]

      free_part-Guard :
          (s : State)
          → Guard s
          → Guard (
              final
                (free_part proxy candidates min_age d space_limit free_limit degenerated fuel s))
      unfolding free_part
      free_part-Guard s g =
          elim (Option-cases
            (is_free_aware proxy candidates min_age d space_limit free_limit degenerated s)) [
              | inl e ↦ rw (e, free_part) g
              | inr (true, e) ↦ rw (e, free_part) (cleanup_until-Guard _ fuel s g)
              | inr (false, e) ↦ rw (e, free_part) g
            ]

      pub cleanup-Guard :
          (s : State)
          → Guard s
          → Guard
              (final (cleanup proxy candidates min_age d space_limit free_limit degenerated fuel s))
      unfolding cleanup
      cleanup-Guard s g =
          let quota =
            quota_part proxy candidates min_age d space_limit free_limit degenerated fuel in
          let free = free_part proxy candidates min_age d space_limit free_limit degenerated fuel in
          let once = cleanup_once proxy candidates min_age s in
          and_then-Guard (and_then once quota) free
            (and_then-Guard once quota (cleanup_once-Guard s g) quota_part-Guard) free_part-Guard
