-- ===== src/Cleanup/Timeline/Exact.antt =====
-- Which snapshots TimelineCleaner of client/cleanup.cc offers for deletion, without its counters.
use snapper.Base.{
  ℕ, zero, suc, ◌-◌, ◌<◌, ◌≡◌, ◌↔◌, refl, sym, ap, ◌∙◌, subst, Bool, true, false, not, ◌&&◌, ◌||◌,
  List, [], ◌∷◌, map, arith, ◌==◌, if◌then◌else◌, any_of, In, In-reverse, take,
}
use snapper.Base.Int.{ℤ, ltb_ℤ}
use snapper.Snapshot.{Snapshot}
use snapper.Cleanup.Range.{Value, value}
use snapper.Cleanup.Filter.{Distinct, has_num}
use snapper.Cleanup.Number.{collect}
use snapper.Cleanup.Number.Exact.{of_algorithm, collect-of_algorithm}
use snapper.Cleanup.Dates.{
  Tm, equal_year, equal_quarter, equal_month, equal_week, equal_day, equal_hour,
}
use snapper.Cleanup.Timeline.{
  Rule, TimelineParameters, is_first, admits, advance, timeline_loop, rules_of,
  calculate_candidates,
}

In-has_num : (a : Snapshot) (l : List Snapshot) → In a l → has_num a.num l ≡ true
In-has_num a [] h = absurd h
In-has_num a (x ∷ l) h = ground (arith, In-has_num a l)

has_num-take_pos :
    (n k : ℕ) (x : Snapshot) (l : List Snapshot)
    → 0 < k
    → has_num n (take k (x ∷ l)) ≡ (x.num == n) || has_num n (take (k - 1) l)
has_num-take_pos n zero x l h = absurd (omega arith)
has_num-take_pos n (suc k) x l h = let e : suc k - 1 ≡ k = omega arith in rw e refl

has_num-take_none : (n k : ℕ) (l : List Snapshot) → k ≡ 0 → has_num n (take k l) ≡ false
has_num-take_none n zero l h = refl
has_num-take_none n (suc k) l h = absurd (omega arith)

module _ (localtime : ℤ → Tm) where
  -- The snapshots that is_first answers for with true, among those from each on.
  abbrev firsts : (Tm → Tm → Bool) → List Snapshot → List Snapshot
  firsts pred [] = []
  firsts pred (x ∷ l) =
      let rest = firsts pred l in if is_first localtime pred (x ∷ l) x then x ∷ rest else rest

  -- Among the first ones that the limit of the rule still has room for.
  abbrev is_saved : List Snapshot → Snapshot → Rule → Bool
  is_saved l s r = has_num s.num (take (r.limit - r.count) (firsts r.equal l))

  has_num-take : (n k : ℕ) (l : List Snapshot) → has_num n l ≡ false → has_num n (take k l) ≡ false
  has_num-take n zero l h = refl
  has_num-take n (suc k) [] h = refl
  has_num-take n (suc k) (x ∷ l) h = ground (arith, has_num-take n k l)

  has_num-firsts :
      (n : ℕ) (pred : Tm → Tm → Bool) (l : List Snapshot)
      → has_num n l ≡ false
      → has_num n (firsts pred l) ≡ false
  has_num-firsts n pred [] h = refl
  has_num-firsts n pred (x ∷ l) h = ground (arith, has_num-firsts n pred l)

  saved-step :
      (x : Snapshot) (l : List Snapshot) (s : Snapshot) (r : Rule)
      → is_saved (x ∷ l) s r
        ≡ (admits localtime (x ∷ l) x r && (x.num == s.num))
          || is_saved l s (advance localtime (x ∷ l) x r)
  unfolding admits advance
  saved-step x l s r = ground (
    arith,
    has_num-take_pos s.num (r.limit - r.count) x (firsts r.equal l),
    has_num-take_none s.num (r.limit - r.count) (firsts r.equal l),
    has_num-take_none s.num (r.limit - r.count) (x ∷ firsts r.equal l),
  )

  any-saved-step :
      (x : Snapshot) (l : List Snapshot) (s : Snapshot) (rules : List Rule)
      → any_of (is_saved (x ∷ l) s) rules
        ≡ (any_of (admits localtime (x ∷ l) x) rules && (x.num == s.num))
          || any_of (is_saved l s) (map (advance localtime (x ∷ l) x) rules)
  any-saved-step x l s [] = refl
  any-saved-step x l s (r ∷ rules) = ground (arith, saved-step x l s r, any-saved-step x l s rules)

  not-saved :
      (l : List Snapshot) (s : Snapshot) (rules : List Rule)
      → has_num s.num l ≡ false
      → any_of (is_saved l s) rules ≡ false
  not-saved l s [] h = refl
  not-saved l s (r ∷ rules) h = ground (
    arith,
    not-saved l s rules h,
    has_num-take s.num (r.limit - r.count) (firsts r.equal l),
    has_num-firsts s.num r.equal l h,
  )

  loop-Unsaved :
      (rules : List Rule) (l : List Snapshot) (s : Snapshot)
      → Distinct l
      → In s (timeline_loop localtime rules l)
      → In s l × (any_of (is_saved l s) rules ≡ false)
  unfolding timeline_loop
  loop-Unsaved rules [] s d h = absurd h
  loop-Unsaved rules (x ∷ l) s d h = ground (
    arith,
    loop-Unsaved (map (advance localtime (x ∷ l) x) rules) l s d.1,
    any-saved-step x l s rules,
    not-saved l s (map (advance localtime (x ∷ l) x) rules),
    In-has_num s l,
  )

  Unsaved-loop :
      (rules : List Rule) (l : List Snapshot) (s : Snapshot)
      → In s l
      → any_of (is_saved l s) rules ≡ false
      → In s (timeline_loop localtime rules l)
  unfolding timeline_loop
  Unsaved-loop rules [] s h u = absurd h
  Unsaved-loop rules (x ∷ l) s h u = ground (
    arith,
    Unsaved-loop (map (advance localtime (x ∷ l) x) rules) l s,
    any-saved-step x l s rules,
  )

  unsaved_iff :
      (p : TimelineParameters) (snapshots : List Snapshot) (v : Value) (s : Snapshot)
      → Distinct (collect "timeline" snapshots [])
      → In s (calculate_candidates localtime p snapshots v) ↔ (
          In s (collect "timeline" snapshots [])
          × (any_of (is_saved (collect "timeline" snapshots []) s) (rules_of p v) ≡ false))
  unfolding calculate_candidates
  unsaved_iff p snapshots v s d =
      let l = collect "timeline" snapshots [] in
      let rules = rules_of p v in
      (
        λ h. loop-Unsaved rules l s d ((In-reverse s (timeline_loop localtime rules l)).0 h),
        λ h. (In-reverse s (timeline_loop localtime rules l)).1 (Unsaved-loop rules l s h.0 h.1),
      )

  -- Of the snapshots that stand before an older one in another period, those that are in the period of x.
  abbrev period_of : (Tm → Tm → Bool) → Snapshot → List Snapshot → List Snapshot
  period_of same x [] = []
  period_of same x (y ∷ older) =
      let rest = period_of same x older in
      if (y.num == x.num) || same (localtime x.date) (localtime y.date) then y ∷ rest else []

  -- None of them has an earlier date: x is the first of its period.
  abbrev is_start : (Tm → Tm → Bool) → Snapshot → List Snapshot → Bool
  is_start same x older =
      not (any_of (λ y. not (y.num == x.num) && ltb_ℤ y.date x.date) (period_of same x older))

  -- The snapshots of a list, newest first, that are the first of their period.
  abbrev starts : (Tm → Tm → Bool) → List Snapshot → List Snapshot
  starts same [] = []
  starts same (x ∷ older) =
      let rest = starts same older in if is_start same x older then x ∷ rest else rest

  -- Among the newest of them, as many as the limit says.
  abbrev pub is_kept_by : ℕ → (Tm → Tm → Bool) → List Snapshot → Snapshot → Bool
  is_kept_by limit same l s = has_num s.num (take limit (starts same l))

  -- Kept for its hour, its day, its week, its month, its quarter or its year.
  abbrev pub is_kept : TimelineParameters → Value → List Snapshot → Snapshot → Bool
  is_kept p v l s =
      is_kept_by (value p.limit_hourly v) equal_hour l s
      || (is_kept_by (value p.limit_daily v) equal_day l s
          || (is_kept_by (value p.limit_weekly v) equal_week l s
              || (is_kept_by (value p.limit_monthly v) equal_month l s
                  || (is_kept_by (value p.limit_quarterly v) equal_quarter l s
                      || is_kept_by (value p.limit_yearly v) equal_year l s))))

  is_first-is_start :
      (same : Tm → Tm → Bool) (x : Snapshot) (older : List Snapshot)
      → is_first localtime same older x ≡ is_start same x older
  unfolding is_first
  is_first-is_start same x [] = refl
  is_first-is_start same x (y ∷ older) = ground (arith, is_first-is_start same x older)

  is_first_self :
      (same : Tm → Tm → Bool) (x : Snapshot) (older : List Snapshot)
      → is_first localtime same (x ∷ older) x ≡ is_start same x older
  unfolding is_first
  is_first_self same x older = ground (arith, is_first-is_start same x older)

  firsts-starts : (same : Tm → Tm → Bool) (l : List Snapshot) → firsts same l ≡ starts same l
  firsts-starts same [] = refl
  firsts-starts same (x ∷ older) =
      rw (is_first_self same x older, firsts-starts same older, firsts) refl

  saved-kept :
      (limit : ℕ) (same : Tm → Tm → Bool) (l : List Snapshot) (s : Snapshot)
      → is_saved l s (record { limit = limit; equal = same; count = 0 }) ≡ is_kept_by limit same l s
  saved-kept limit same l s =
      let all : limit - 0 ≡ limit = omega arith in rw (all, firsts-starts same l) refl

  any-saved-kept :
      (p : TimelineParameters) (v : Value) (l : List Snapshot) (s : Snapshot)
      → any_of (is_saved l s) (rules_of p v) ≡ is_kept p v l s
  any-saved-kept p v l s =
      rw
        (
          saved-kept (value p.limit_hourly v) equal_hour l s,
          saved-kept (value p.limit_daily v) equal_day l s,
          saved-kept (value p.limit_weekly v) equal_week l s,
          saved-kept (value p.limit_monthly v) equal_month l s,
          saved-kept (value p.limit_quarterly v) equal_quarter l s,
          saved-kept (value p.limit_yearly v) equal_year l s,
        )
        (ground arith)

  -- If the numbers are distinct, a snapshot is a candidate exactly when it has the cleanup algorithm
  -- "timeline" and none of the six rules keeps it. A rule keeps the newest `limit` of the snapshots of
  -- the algorithm that are the first of an hour, a day, a week, a month, a quarter or a year, by the test
  -- for that period. The first is one such that, among those that follow it, newest first, up to the
  -- first one in another period, none has an earlier date.
  pub timeline_candidates_iff :
      (p : TimelineParameters) (snapshots : List Snapshot) (v : Value) (s : Snapshot)
      → Distinct (of_algorithm "timeline" snapshots)
      → In s (calculate_candidates localtime p snapshots v) ↔ (
          In s (of_algorithm "timeline" snapshots)
          × (is_kept p v (of_algorithm "timeline" snapshots) s ≡ false))
  timeline_candidates_iff p snapshots v s d =
      let e = collect-of_algorithm "timeline" snapshots in
      let h = unsaved_iff p snapshots v s (subst Distinct (sym e) d) in
      let kept : any_of (is_saved (collect "timeline" snapshots []) s) (rules_of p v)
          ≡ is_kept p v (of_algorithm "timeline" snapshots) s =
        any-saved-kept p v (collect "timeline" snapshots []) s ∙ ap (λ l. is_kept p v l s) e in
      (
        λ m. (subst (λ l. In s l) e (h.0 m).0, sym kept ∙ (h.0 m).1),
        λ m. h.1 (subst (λ l. In s l) (sym e) m.0, kept ∙ m.1),
      )
