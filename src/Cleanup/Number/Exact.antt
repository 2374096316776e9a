-- ===== src/Cleanup/Number/Exact.antt =====
-- Which snapshots NumberCleaner of client/cleanup.cc offers for deletion, without its counters.
use mathlib.Core.List.{append_assoc, append-nil, reverse-cons}
use mathlib.Core.Path.{fun_ext}
use snapper.Base.{
  ℕ, zero, suc, ◌+◌, ◌-◌, ◌≤◌, ◌≡◌, refl, sym, ap, ◌∙◌, subst, ◌↔◌, ◌⊎◌, inl, inr, Bool, false,
  none, some, List, [], ◌∷◌, ◌++◌, reverse, arith, String, str_eq, eq_iff, In, In-reverse, In-drop,
  In-drop_mono, In-filter_by, filter_by-In, drop, filter_by, find_if, Bool-cases,
}
use snapper.Snapshot.{Snapshot}
use snapper.Cleanup.Range.{Value, min, max, value}
use snapper.Cleanup.Number.{
  lookup, is_important, collect, number_loop, NumberParameters, calculate_candidates,
}

collect-In :
    (tag : String) (s : Snapshot) (l acc : List Snapshot)
    → In s (collect tag l acc)
    → In s acc ⊎ (In s l × (s.cleanup ≡ tag))
unfolding collect
collect-In tag s [] acc h = inl h
collect-In tag s (x ∷ l) acc h =
    ground (arith, collect-In tag s l (x ∷ acc), collect-In tag s l acc, eq_iff x.cleanup tag)

In-collect :
    (tag : String) (s : Snapshot) (l acc : List Snapshot)
    → In s acc ⊎ (In s l × (s.cleanup ≡ tag))
    → In s (collect tag l acc)
unfolding collect
In-collect tag s [] acc h = ground arith
In-collect tag s (x ∷ l) acc h =
    ground (arith, In-collect tag s l (x ∷ acc), In-collect tag s l acc, eq_iff x.cleanup tag)

-- The snapshots of an algorithm, the newest first: those that are later in the list.
abbrev pub of_algorithm : String → List Snapshot → List Snapshot
of_algorithm tag snapshots = reverse (filter_by (λ s. str_eq s.cleanup tag) snapshots)

collect-append :
    (tag : String) (l acc : List Snapshot) → collect tag l acc ≡ of_algorithm tag l ++ acc
unfolding collect
collect-append tag [] acc = refl
collect-append tag (x ∷ l) acc = elim (Bool-cases (str_eq x.cleanup tag)) [
  | inr e ↦ rw (e, collect) (collect-append tag l acc)
  | inl e ↦
      let rest = filter_by (λ (s : Snapshot). str_eq s.cleanup tag) l in
      rw (e, collect)
        (collect-append tag l (x ∷ acc)
          ∙ (sym (append_assoc (reverse rest) (x ∷ []) acc)
              ∙ ap (λ k. k ++ acc) (sym (reverse-cons x rest))))
]

pub collect-of_algorithm :
    (tag : String) (l : List Snapshot) → collect tag l [] ≡ of_algorithm tag l
collect-of_algorithm tag l = collect-append tag l [] ∙ append-nil (of_algorithm tag l)

-- The user data say important=yes; of entries with one key the first counts.
abbrev says_yes : List (String × String) → Bool
says_yes m = elim (find_if (λ p. str_eq p.0 "important") m) [
  | none ↦ false
  | some p ↦ str_eq p.1 "yes"
]

abbrev pub is_marked : Snapshot → Bool
is_marked s = says_yes s.userdata

lookup-says_yes :
    (m : List (String × String))
    → elim (lookup "important" m) [ none ↦ false | some v ↦ str_eq v "yes" ] ≡ says_yes m
unfolding lookup
lookup-says_yes [] = refl
lookup-says_yes ((j, v) ∷ m) = elim (Bool-cases (str_eq j "important")) [
  | inl e ↦ rw (e, lookup, says_yes) refl
  | inr e ↦ rw (e, lookup, says_yes) (lookup-says_yes m)
]

is_important-is_marked : (s : Snapshot) → is_important s ≡ is_marked s
unfolding is_important
is_important-is_marked s = lookup-says_yes s.userdata

-- s comes after the first `a` snapshots, and is not among the first `b` that a test marks.
abbrev pub SurplusBy : (Snapshot → Bool) → ℕ → ℕ → List Snapshot → Snapshot → Type 0
SurplusBy test a b l s = In s (drop a l) × ((test s ≡ false) ⊎ In s (drop b (filter_by test l)))

abbrev Surplus : ℕ → ℕ → List Snapshot → Snapshot → Type 0
Surplus = SurplusBy is_important

-- `r` and `ri` are what is left of the two limits.
loop-Surplus :
    (r ri lim li num ni : ℕ) (l : List Snapshot) (s : Snapshot)
    → r ≡ lim - num
    → ri ≡ li - ni
    → In s (number_loop lim li num ni l)
    → Surplus r ri l s
unfolding number_loop
loop-Surplus r ri lim li num ni [] s e f h = absurd h
loop-Surplus zero zero lim li num ni (x ∷ l) s e f h =
    ground (arith, loop-Surplus zero zero lim li num ni l s)
loop-Surplus zero (suc ri) lim li num ni (x ∷ l) s e f h = ground (
  arith,
  loop-Surplus zero (suc ri) lim li num ni l s,
  loop-Surplus zero ri lim li num (ni + 1) l s,
)
loop-Surplus (suc r) zero lim li num ni (x ∷ l) s e f h =
    ground (arith, loop-Surplus r zero lim li (num + 1) ni l s)
loop-Surplus (suc r) (suc ri) lim li num ni (x ∷ l) s e f h = ground (
  arith,
  loop-Surplus r (suc ri) lim li (num + 1) ni l s,
  loop-Surplus r ri lim li (num + 1) (ni + 1) l s,
)

Surplus-loop :
    (r ri lim li num ni : ℕ) (l : List Snapshot) (s : Snapshot)
    → r ≡ lim - num
    → ri ≡ li - ni
    → Surplus r ri l s
    → In s (number_loop lim li num ni l)
unfolding number_loop
Surplus-loop r ri lim li num ni [] s e f h = absurd (In-drop r s [] h.0)
Surplus-loop zero zero lim li num ni (x ∷ l) s e f h =
    ground (arith, Surplus-loop zero zero lim li num ni l s, filter_by-In is_important s l)
Surplus-loop zero (suc ri) lim li num ni (x ∷ l) s e f h = ground (
  arith,
  Surplus-loop zero (suc ri) lim li num ni l s,
  Surplus-loop zero ri lim li num (ni + 1) l s,
  In-drop ri s (filter_by is_important l),
  In-filter_by is_important s l,
)
Surplus-loop (suc r) zero lim li num ni (x ∷ l) s e f h = ground (
  arith,
  Surplus-loop r zero lim li (num + 1) ni l s,
  In-drop r s l,
  filter_by-In is_important s l,
)
Surplus-loop (suc r) (suc ri) lim li num ni (x ∷ l) s e f h = ground (
  arith,
  Surplus-loop r (suc ri) lim li (num + 1) ni l s,
  Surplus-loop r ri lim li (num + 1) (ni + 1) l s,
)

collected_iff :
    (p : NumberParameters) (snapshots : List Snapshot) (v : Value) (s : Snapshot)
    → In s (calculate_candidates p snapshots v)
      ↔ Surplus (value p.limit v) (value p.limit_important v) (collect "number" snapshots []) s
unfolding calculate_candidates
collected_iff p snapshots v s =
    let a = value p.limit v in
    let b = value p.limit_important v in
    let l = collect "number" snapshots [] in
    (
      λ h. loop-Surplus a b a b 0 0 l s (omega arith) (omega arith) ((In-reverse s _).0 h),
      λ h.
          (In-reverse s (number_loop a b 0 0 l)).1
            (Surplus-loop a b a b 0 0 l s (omega arith) (omega arith) h),
    )

-- A snapshot is a candidate exactly when it has the cleanup algorithm "number", comes after the newest
-- `limit` snapshots of the algorithm, and is not one of the newest `limit_important` of those whose user
-- data say important=yes. The newest are the last in the list. The limits are the minima or the maxima
-- of the two ranges, as the caller asks.
pub candidates_iff :
    (p : NumberParameters) (snapshots : List Snapshot) (v : Value) (s : Snapshot)
    → In s (calculate_candidates p snapshots v)
      ↔ SurplusBy is_marked
          (value p.limit v)
          (value p.limit_important v)
          (of_algorithm "number" snapshots)
          s
candidates_iff p snapshots v s =
    subst
      (λ (l : List Snapshot).
        In s (calculate_candidates p snapshots v)
        ↔ SurplusBy is_marked (value p.limit v) (value p.limit_important v) l s)
      (collect-of_algorithm "number" snapshots)
      (subst
        (λ (test : Snapshot → Bool).
          In s (calculate_candidates p snapshots v)
          ↔ SurplusBy test (value p.limit v) (value p.limit_important v)
              (collect "number" snapshots []) s)
        (fun_ext is_important-is_marked) (collected_iff p snapshots v s))

-- Only snapshots with the cleanup algorithm "number" are candidates.
pub candidates-number :
    (p : NumberParameters) (snapshots : List Snapshot) (v : Value) (s : Snapshot)
    → In s (calculate_candidates p snapshots v)
    → In s snapshots × (s.cleanup ≡ "number")
candidates-number p snapshots v s h =
    elim (collect-In "number" s snapshots []
      (In-drop _ s _ ((collected_iff p snapshots v s).0 h).0)) [ inl m ↦ absurd m | inr m ↦ m ]

-- The cleanup without a condition offers no snapshot that the cleanup with a condition would not
-- offer: with ordered ranges, a candidate under the maxima is one under the minima.
pub candidates_mono :
    (p : NumberParameters) (snapshots : List Snapshot) (s : Snapshot)
    → p.limit.min ≤ p.limit.max
    → p.limit_important.min ≤ p.limit_important.max
    → In s (calculate_candidates p snapshots max)
    → In s (calculate_candidates p snapshots min)
candidates_mono p snapshots s h k m =
    let (a, b) = (candidates_iff p snapshots max s).0 m in
    (candidates_iff p snapshots min s).1
      (In-drop_mono _ _ s _ h a, elim b [ inl c ↦ inl c | inr c ↦ inr (In-drop_mono _ _ s _ k c) ])
