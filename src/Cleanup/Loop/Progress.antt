-- ===== src/Cleanup/Loop/Progress.antt =====
-- The loop of Cleaner::cleanup (client/cleanup.cc) ends, and how.
use mathlib.Core.List.{append_assoc}
use snapper.Base.{
  ℕ, zero, suc, ◌-◌, ◌≤◌, ◌<◌, ◌≡◌, refl, ◌⊎◌, inl, inr, Bool, true, false, Option, none, some,
  List, [], ◌∷◌, ◌++◌, arith, length, In, append_left-In, List-cases, Option-cases, Bool-cases,
}
use snapper.Base.Int.{ℤ}
use snapper.Snapshot.{Snapshot}
use snapper.Proxy.{erase}
use snapper.Cleanup.Range.{Value, min}
use snapper.Cleanup.Filter.{filter}
use snapper.Cleanup.Filter.Deletable.{In-filter}
use snapper.Cleanup.Loop.{
  ProxySnapper, Outcome, done, threw, stuck, remove, view, first_removable, round_with, round,
  cleanup_until, filter_throws,
}

length-erase-le : (n : ℕ) (l : List Snapshot) → length (erase n l) ≤ length l
unfolding erase
length-erase-le n [] = omega arith
length-erase-le n (x ∷ l) = ground (arith, length-erase-le n l)

length-erase : (x : Snapshot) (l : List Snapshot) → In x l → length (erase x.num l) < length l
unfolding erase
length-erase x [] h = absurd h
length-erase x (y ∷ l) h = ground (arith, length-erase x l)

module _ (a : Snapshot) (before : List Snapshot) (e : Snapshot) (l : List Snapshot) where
  In-regroup : In a ((before ++ e ∷ []) ++ l) → In a (before ++ e ∷ l)
  In-regroup h = rw (append_assoc before (e ∷ []) l) at h

  In-prefix : In a (before ++ e ∷ []) → In a (before ++ e ∷ l)
  In-prefix h = In-regroup (append_left-In a (before ++ e ∷ []) l h)

module _ (proxy : ProxySnapper) where
  open proxy use {State, snapshots, undeletables_fail, delete, snapshots-delete}

  delete_le :
      (n : ℕ) (s t : State) → delete n s ≡ some t → length (snapshots t) ≤ length (snapshots s)
  delete_le n s t e = rw (snapshots-delete n s t e) (length-erase-le n (snapshots s))

  delete_lt :
      (x : Snapshot) (s t : State)
      → In x (snapshots s)
      → delete x.num s ≡ some t
      → length (snapshots t) < length (snapshots s)
  delete_lt x s t m e = rw (snapshots-delete x.num s t e) (length-erase x (snapshots s) m)

  -- remove leaves at most n snapshots, or a deletion throws in the state that it ends in.
  abbrev pub Leaves : ℕ → Outcome State → Type 0
  Leaves n (done t) = length (snapshots t) ≤ n
  Leaves n (threw t) = (k : ℕ) × (delete k t ≡ none)
  Leaves n (stuck t) = ⊥

  Leaves-mono : (m n : ℕ) (o : Outcome State) → m ≤ n → Leaves m o → Leaves n o
  Leaves-mono m n (done t) h l = omega arith
  Leaves-mono m n (threw t) h l = l
  Leaves-mono m n (stuck t) h l = l

  remove-Leaves :
      (xs : List Snapshot) (s : State) → Leaves (length (snapshots s)) (remove proxy xs s)
  unfolding remove
  remove-Leaves [] s = omega arith
  remove-Leaves (x ∷ xs) s = elim (Option-cases (delete x.num s)) [
    | inl e ↦ rw (e, remove) (x.num, e)
    | inr (t, e) ↦
        rw (e, remove)
          (Leaves-mono _ _ (remove proxy xs t) (delete_le x.num s t e) (remove-Leaves xs t))
  ]

  -- A removal that starts with an entry of the list makes it shorter.
  remove-Leaves_less :
      (n : ℕ) (x : Snapshot) (xs : List Snapshot) (s : State)
      → In x (snapshots s)
      → length (snapshots s) ≤ suc n
      → Leaves n (remove proxy (x ∷ xs) s)
  unfolding remove
  remove-Leaves_less n x xs s m h = elim (Option-cases (delete x.num s)) [
    | inl e ↦ rw (e, remove) (x.num, e)
    | inr (t, e) ↦
        let less : length (snapshots t) ≤ n = omega (arith, delete_lt x s t m e) in
        rw (e, remove) (Leaves-mono _ _ (remove proxy xs t) less (remove-Leaves xs t))
  ]

  module _ (candidates : State → Value → Option (List Snapshot)) (min_age : ℤ) where
    abbrev filtered : State → List Snapshot → List Snapshot
    filtered s = filter (view proxy min_age s)

    abbrev removable : State → List Snapshot → List Snapshot → List Snapshot
    removable = first_removable proxy candidates min_age

    -- What the for loop finds was a candidate.
    removable-In :
        (s : State) (before l : List Snapshot) (a : Snapshot)
        → In a (removable s before l)
        → In a (before ++ l)
    unfolding first_removable
    removable-In s before [] a h = absurd h
    removable-In s before (e ∷ l) a h = ground (
      arith,
      In-filter (view proxy min_age s) (before ++ e ∷ []) a,
      In-prefix a before e l,
      In-regroup a before e l,
      removable-In s (before ++ e ∷ []) l a,
    )

    -- If it finds nothing, the filter leaves nothing of all the candidates either.
    removable-nil :
        (s : State) (before : List Snapshot) (e : Snapshot) (l : List Snapshot)
        → removable s before (e ∷ l) ≡ []
        → filtered s (before ++ e ∷ l) ≡ []
    unfolding first_removable
    removable-nil s before e [] h = ground arith
    removable-nil s before e (f ∷ l) h =
        rw (← append_assoc before (e ∷ []) (f ∷ l))
          (removable-nil s (before ++ e ∷ []) f l (ground arith))

    filtered-nil : (s : State) → filtered s [] ≡ []
    filtered-nil s = elim (List-cases (filtered s [])) [
      | inl e ↦ e
      | inr (x, xs, e) ↦ absurd (In-filter (view proxy min_age s) [] x (rw e (inl refl)))
    ]

    candidates-nil : (s : State) (l : List Snapshot) → removable s [] l ≡ [] → filtered s l ≡ []
    candidates-nil s [] h = filtered-nil s
    candidates-nil s (e ∷ l) h = removable-nil s [] e l h

    module _ (condition : State → Option Bool)
        (listed : (s : State) (v : Value) (l : List Snapshot) (a : Snapshot)
          → candidates s v ≡ some l
          → In a l
          → In a (snapshots s)) where
      -- How the loop may end: the condition holds, or the filter leaves none of the candidates; an
      -- exception comes from the condition, from a deletion, from calculate_candidates, or from
      -- getDefault or getActive.
      abbrev pub Ends : Outcome State → Type 0
      Ends (done t) =
          (condition t ≡ some true)
          ⊎ ((l : List Snapshot) × (candidates t min ≡ some l) × (filtered t l ≡ []))
      Ends (threw t) =
          (condition t ≡ none)
          ⊎ (((k : ℕ) × (delete k t ≡ none))
              ⊎ ((candidates t min ≡ none) ⊎ (undeletables_fail t ≡ true)))
      Ends (stuck t) = ⊥

      after_remove :
          (n : ℕ) (again : State → Outcome State)
          → ((t : State) → length (snapshots t) ≤ n → Ends (again t))
          → (o : Outcome State) → Leaves n o
          → Ends (elim o [ done t ↦ again t | threw t ↦ threw t | stuck t ↦ stuck t ])
      after_remove n again ih (done t) l = ih t l
      after_remove n again ih (threw t) l = inr (inl l)
      after_remove n again ih (stuck t) l = l

      filter_throws-fail :
          (s : State) (l : List Snapshot)
          → filter_throws proxy s l ≡ true
          → undeletables_fail s ≡ true
      filter_throws-fail s [] h = cc
      filter_throws-fail s (x ∷ l) h = h

      round_with-Ends :
          (again : State → Outcome State) (s : State) (l : List Snapshot)
          → candidates s min ≡ some l
          → ((t : State) → length (snapshots t) < length (snapshots s) → Ends (again t))
          → Ends (round_with proxy candidates min_age again s l)
      unfolding round_with
      round_with-Ends again s l c ih = elim (Bool-cases (filter_throws proxy s l)) [
        | inl f ↦ rw (f, round_with) (inr (inr (inr (filter_throws-fail s l f))))
        | inr f ↦ elim (List-cases (removable s [] l)) [
          | inl e ↦ rw (f, e, round_with) (inr (l, c, candidates-nil s l e))
          | inr (x, xs, e) ↦
              let m : In x (snapshots s) =
                listed s min l x c (removable-In s [] l x (rw e (inl refl))) in
              let n = length (snapshots s) - 1 in
              let p = length-erase x (snapshots s) m in
              rw (f, e, round_with)
                (after_remove n again (λ t h. ih t (omega arith)) (remove proxy (x ∷ xs) s)
                  (remove-Leaves_less n x xs s m (omega arith)))
        ]
      ]

      round-Ends :
          (again : State → Outcome State) (s : State)
          → ((t : State) → length (snapshots t) < length (snapshots s) → Ends (again t))
          → Ends (round proxy candidates min_age again s)
      unfolding round
      round-Ends again s ih = elim (Option-cases (candidates s min)) [
        | inl c ↦ rw (c, round) (inr (inr (inl c)))
        | inr (l, c) ↦ rw (c, round) (round_with-Ends again s l c ih)
      ]

      -- Whatever the condition and the deletions do, as long as every candidate is in the list, the
      -- loop with more rounds than the list has entries ends by itself. If it returns, its condition
      -- holds or the filter leaves none of the candidates; if it throws, the condition or a deletion
      -- threw in the state that it ends in, or calculate_candidates, or one of getDefault and getActive.
      pub cleanup_until-Ends :
          (fuel : ℕ) (s : State)
          → length (snapshots s) < fuel
          → Ends (cleanup_until proxy candidates min_age condition fuel s)
      unfolding cleanup_until
      cleanup_until-Ends zero s h = absurd (omega arith)
      cleanup_until-Ends (suc fuel) s h = elim (Option-cases (condition s)) [
        | inl e ↦ rw (e, cleanup_until) (inl e)
        | inr (true, e) ↦ rw (e, cleanup_until) (inl e)
        | inr (false, e) ↦
            rw (e, cleanup_until)
              (round-Ends (cleanup_until proxy candidates min_age condition fuel) s
                λ t l. cleanup_until-Ends fuel t (omega arith))
      ]
