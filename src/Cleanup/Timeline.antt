-- ===== src/Cleanup/Timeline.antt =====
-- client/cleanup.cc: TimelineCleaner. The six blocks in the body of its loop are the same code over
-- a limit, a counter and a test on dates; a rule holds these three. localtime_r is the parameter
-- `localtime`.
pub mod Exact
use snapper.Base.{
  ℕ, ◌+◌, Bool, true, false, not, ◌&&◌, List, [], ◌∷◌, map, reverse, ltb, ◌==◌, if◌then◌else◌,
  any_of,
}
use snapper.Base.Int.{ℤ, ltb_ℤ}
use snapper.Snapshot.{Snapshot}
use snapper.Cleanup.Range.{Range, Value, value}
use snapper.Cleanup.Range
use snapper.Cleanup.Number.{collect}
use snapper.Cleanup.Dates.{
  Tm, equal_year, equal_quarter, equal_month, equal_week, equal_day, equal_hour,
}

pub record TimelineParameters : Type 0 where
  pub limit_hourly : Range
  pub limit_daily : Range
  pub limit_monthly : Range
  pub limit_weekly : Range
  pub limit_quarterly : Range
  pub limit_yearly : Range

-- TimelineParameters::is_degenerated
unfoldable pub is_degenerated : TimelineParameters → Bool
is_degenerated p =
    Range.is_degenerated p.limit_hourly
    && Range.is_degenerated p.limit_daily
    && Range.is_degenerated p.limit_monthly
    && Range.is_degenerated p.limit_weekly
    && Range.is_degenerated p.limit_quarterly
    && Range.is_degenerated p.limit_yearly

pub record Rule : Type 0 where
  pub limit : ℕ
  pub equal : Tm → Tm → Bool
  pub count : ℕ

-- The six blocks, in the order of the source, with their counters at zero.
abbrev pub rules_of : TimelineParameters → Value → List Rule
rules_of p v =
    record { limit = value p.limit_hourly v; equal = equal_hour; count = 0 }
    ∷ record { limit = value p.limit_daily v; equal = equal_day; count = 0 }
    ∷ record { limit = value p.limit_weekly v; equal = equal_week; count = 0 }
    ∷ record { limit = value p.limit_monthly v; equal = equal_month; count = 0 }
    ∷ record { limit = value p.limit_quarterly v; equal = equal_quarter; count = 0 }
    ∷ record { limit = value p.limit_yearly v; equal = equal_year; count = 0 }
    ∷ []

module _ (localtime : ℤ → Tm) where
  -- TimelineCleaner::is_first: the list runs from the iterator `first` to the end.
  pub is_first : (Tm → Tm → Bool) → List Snapshot → Snapshot → Bool
  is_first pred [] it1 = true
  is_first pred (it2 ∷ rest) it1 =
      let later = is_first pred rest it1 in
      if it1.num == it2.num
      then later
      else if not (pred (localtime it1.date) (localtime it2.date))
      then true
      else if ltb_ℤ it2.date it1.date
      then false
      else later

  -- The condition of one block: its limit is not reached, and the snapshot is the first of a period.
  pub admits : List Snapshot → Snapshot → Rule → Bool
  unfolding is_first
  admits here s r = ltb r.count r.limit && is_first r.equal here s

  -- The block's effect on its counter.
  pub advance : List Snapshot → Snapshot → Rule → Rule
  unfolding admits
  advance here s r = if admits here s r then record r { count = r.count + 1 } else r

  -- The loop: what is kept is erased, and what is left over is a candidate.
  unfoldable pub timeline_loop : List Rule → List Snapshot → List Snapshot
  timeline_loop rules [] = []
  timeline_loop rules (s ∷ rest) =
      let later = timeline_loop (map (advance (s ∷ rest) s) rules) rest in
      if any_of (admits (s ∷ rest) s) rules then later else s ∷ later

  -- TimelineCleaner::calculate_candidates
  unfoldable pub calculate_candidates : TimelineParameters → List Snapshot → Value → List Snapshot
  unfolding timeline_loop advance collect
  calculate_candidates p snapshots v =
      reverse (timeline_loop (rules_of p v) (collect "timeline" snapshots []))
