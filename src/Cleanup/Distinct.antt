-- ===== src/Cleanup/Distinct.antt =====
-- The candidates of the number and the timeline cleaner (client/cleanup.cc) have distinct numbers.
use snapper.Base.{
  ℕ, ◌+◌, ◌≡◌, refl, false, ◌||◌, List, [], ◌∷◌, ◌++◌, map, reverse, arith, String, ◌==◌,
}
use mathlib.Core.List.{reverse-cons}
use snapper.Base.Int.{ℤ}
use snapper.Snapshot.{Snapshot}
use snapper.Cleanup.Range.{Value}
use snapper.Cleanup.Filter.{Distinct, has_num}
use snapper.Cleanup.Number.{NumberParameters, collect, number_loop}
use snapper.Cleanup.Number
use snapper.Cleanup.Timeline.{TimelineParameters, Rule, timeline_loop, advance, rules_of}
use snapper.Cleanup.Timeline
use snapper.Cleanup.Dates.{Tm}

has_num-snoc :
    (n : ℕ) (l : List Snapshot) (x : Snapshot)
    → has_num n (l ++ x ∷ []) ≡ has_num n l || (x.num == n)
has_num-snoc n [] x = ground arith
has_num-snoc n (y ∷ l) x = ground (arith, has_num-snoc n l x)

Distinct-snoc :
    (l : List Snapshot) (x : Snapshot)
    → Distinct l
    → has_num x.num l ≡ false
    → Distinct (l ++ x ∷ [])
Distinct-snoc [] x d h = (refl, tt)
Distinct-snoc (y ∷ l) x d h = ground (arith, Distinct-snoc l x d.1, has_num-snoc y.num l x)

has_num-reverse : (n : ℕ) (l : List Snapshot) → has_num n (reverse l) ≡ has_num n l
has_num-reverse n [] = refl
has_num-reverse n (x ∷ l) =
    rw (reverse-cons x l, has_num-snoc n (reverse l) x, has_num-reverse n l) (ground arith)

Distinct-reverse : (l : List Snapshot) → Distinct l → Distinct (reverse l)
Distinct-reverse [] d = d
Distinct-reverse (x ∷ l) d =
    rw (reverse-cons x l)
      (Distinct-snoc (reverse l) x (Distinct-reverse l d.1) (rw (has_num-reverse x.num l) d.0))

-- No number of the first list stands in the second.
abbrev Apart : List Snapshot → List Snapshot → Type 0
Apart [] r = Unit {0}
Apart (x ∷ l) r = (has_num x.num r ≡ false) × Apart l r

Apart-cons :
    (l r : List Snapshot) (x : Snapshot) → has_num x.num l ≡ false → Apart l r → Apart l (x ∷ r)
Apart-cons [] r x h a = tt
Apart-cons (y ∷ l) r x h a = ground (arith, Apart-cons l r x)

collect-Distinct :
    (tag : String) (l ret : List Snapshot)
    → Distinct l
    → Distinct ret
    → Apart l ret
    → Distinct (collect tag l ret)
unfolding collect
collect-Distinct tag [] ret d e a = e
collect-Distinct tag (x ∷ l) ret d e a = ground (
  arith,
  collect-Distinct tag l (x ∷ ret) d.1,
  collect-Distinct tag l ret d.1,
  Apart-cons l ret x d.0,
)

Apart-nil : (l : List Snapshot) → Apart l []
Apart-nil [] = tt
Apart-nil (x ∷ l) = (refl, Apart-nil l)

has_num-number_loop :
    (n lim li num ni : ℕ) (l : List Snapshot)
    → has_num n l ≡ false
    → has_num n (number_loop lim li num ni l) ≡ false
unfolding number_loop
has_num-number_loop n lim li num ni [] h = h
has_num-number_loop n lim li num ni (x ∷ l) h = ground (
  arith,
  has_num-number_loop n lim li num ni l,
  has_num-number_loop n lim li (num + 1) ni l,
  has_num-number_loop n lim li num (ni + 1) l,
  has_num-number_loop n lim li (num + 1) (ni + 1) l,
)

number_loop-Distinct :
    (lim li num ni : ℕ) (l : List Snapshot) → Distinct l → Distinct (number_loop lim li num ni l)
unfolding number_loop
number_loop-Distinct lim li num ni [] d = d
number_loop-Distinct lim li num ni (x ∷ l) d = ground (
  arith,
  number_loop-Distinct lim li num ni l d.1,
  number_loop-Distinct lim li (num + 1) ni l d.1,
  number_loop-Distinct lim li num (ni + 1) l d.1,
  number_loop-Distinct lim li (num + 1) (ni + 1) l d.1,
  has_num-number_loop x.num lim li num ni l,
)

pub number-Distinct :
    (p : NumberParameters) (snapshots : List Snapshot) (v : Value)
    → Distinct snapshots
    → Distinct (Number.calculate_candidates p snapshots v)
unfolding Number.calculate_candidates
number-Distinct p snapshots v d = Distinct-reverse _ (
    number_loop-Distinct _ _ 0 0 _
      (collect-Distinct "number" snapshots [] d tt (Apart-nil snapshots)))

module _ (localtime : ℤ → Tm) where
  has_num-timeline_loop :
      (n : ℕ) (rules : List Rule) (l : List Snapshot)
      → has_num n l ≡ false
      → has_num n (timeline_loop localtime rules l) ≡ false
  unfolding timeline_loop
  has_num-timeline_loop n rules [] h = h
  has_num-timeline_loop n rules (x ∷ l) h =
      ground (arith, has_num-timeline_loop n (map (advance localtime (x ∷ l) x) rules) l)

  timeline_loop-Distinct :
      (rules : List Rule) (l : List Snapshot)
      → Distinct l
      → Distinct (timeline_loop localtime rules l)
  unfolding timeline_loop
  timeline_loop-Distinct rules [] d = d
  timeline_loop-Distinct rules (x ∷ l) d = ground (
    arith,
    timeline_loop-Distinct (map (advance localtime (x ∷ l) x) rules) l d.1,
    has_num-timeline_loop x.num (map (advance localtime (x ∷ l) x) rules) l,
  )

  pub timeline-Distinct :
      (p : TimelineParameters) (snapshots : List Snapshot) (v : Value)
      → Distinct snapshots
      → Distinct (Timeline.calculate_candidates localtime p snapshots v)
  unfolding Timeline.calculate_candidates
  timeline-Distinct p snapshots v d = Distinct-reverse _ (
      timeline_loop-Distinct _ _
        (collect-Distinct "timeline" snapshots [] d tt (Apart-nil snapshots)))
