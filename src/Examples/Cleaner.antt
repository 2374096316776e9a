-- ===== src/Examples/Cleaner.antt =====
-- The cleanup algorithms (client/cleanup.cc) on a snapper that is its list of snapshots.
use snapper.Base.{
  ◌≢◌, true, inl, inr, ℕ, ◌*◌, ◌/◌, ◌%◌, ◌≡◌, ◌↔◌, refl, sym, subst, Bool, false, Option, none,
  some, List, [], ◌∷◌, arith, In, length, ltb,
}
use snapper.Base.Int.{ℤ, pos, pos_part, ◌-ℤ◌}
use snapper.Snapshot.{Snapshot, current, new_snapshot, single, pre, post, HasUniquePosts}
use snapper.Proxy.{erase}
use snapper.Cleanup.Range.{Range, Value, max, range_of}
use snapper.Cleanup.Dates.{Tm}
use snapper.Cleanup.Limit.{Double, absolute}
use snapper.Cleanup.Filter.{View, Distinct, HasUniqueNums, filter, filter_pre_post}
use snapper.Cleanup.Filter.Pairs.{pairs_stay_together}
use snapper.Cleanup.Number.{NumberParameters}
use snapper.Cleanup.Number
use snapper.Cleanup.Number.Safe.{after_number, after_number_lem}
use snapper.Cleanup.Number.Exact.{
  SurplusBy, is_marked, of_algorithm, candidates_iff, candidates-number,
}
use snapper.Cleanup.Timeline.{TimelineParameters}
use snapper.Cleanup.Timeline
use snapper.Cleanup.Timeline.Exact.{is_kept, timeline_candidates_iff}
use snapper.Cleanup.Distinct.{number-Distinct}
use snapper.Cleanup.Loop.{ProxySnapper, answer, unsupported, cleanup_until}
use snapper.Cleanup.Loop.Progress.{Ends, cleanup_until-Ends}
use snapper.Cleanup.Safety.{Distinct-unique, after, others_survive, default_active_survive}

abbrev numbered : ℕ → ℕ → Snapshot
numbered n date = record (new_snapshot single n (pos date)) { cleanup = "number" }

abbrev one : Snapshot
one = numbered 1 100

abbrev two : Snapshot
two = record (new_snapshot pre 2 (pos 200)) { cleanup = "number" }

abbrev three : Snapshot
three = record (new_snapshot post 3 (pos 300)) { cleanup = "number"; pre_num = 2 }

abbrev four : Snapshot
four = record (new_snapshot single 4 (pos 400)) { cleanup = "timeline" }

abbrev five : Snapshot
five = numbered 5 500

abbrev all_five : List Snapshot
all_five = current ∷ one ∷ two ∷ three ∷ four ∷ five ∷ []

all_five-Distinct : Distinct all_five
all_five-Distinct = (refl, (refl, (refl, (refl, (refl, (refl, tt))))))

kept_default : (s t : List Snapshot) (d : Snapshot) → some five ≡ some d → some five ≡ some d
kept_default s t d e = e

deleted : (n : ℕ) (s t : List Snapshot) → some (erase n s) ≡ some t → t ≡ erase n s
deleted n s t e = ground arith

-- Snapshot 5 is the default and the active one; each snapshot uses a tenth of the space.
abbrev list_proxy : ProxySnapper
list_proxy = record {
  State = List Snapshot;
  snapshots = λ s. s;
  default = λ s. some five;
  active = λ s. some five;
  undeletables_fail = λ s. false;
  time = λ s. pos 1000;
  delete = λ n s. some (erase n s);
  prepare_quota = λ s. answer tt;
  query_quota = λ s. some (100, 10 * length s);
  query_free = λ s. unsupported;
  snapshots-delete = deleted;
  default-delete = λ n s t d e f k. f;
  active-delete = λ n s t d e f k. f;
}

-- Percentages.
abbrev percent : Double
percent = record {
  D = ℕ;
  of_size = λ n. n;
  div = λ a b. a * 100 / b;
  lt = ltb;
  nought = 0;
  one = 100;
}

abbrev range : ℕ → ℕ → Range
range a b = record { min = a; max = b }

abbrev parameters : NumberParameters
parameters = record { limit = range 1 2; limit_important = range 0 1 }

abbrev number_candidates : List Snapshot → Value → Option (List Snapshot)
number_candidates s v = some (Number.calculate_candidates parameters s v)

some-eq : {a b : List Snapshot} → some a ≡ some b → a ≡ b
some-eq e = ground (arith, e)

numbered_only :
    (s : List Snapshot) (v : Value) (l : List Snapshot) (a : Snapshot)
    → number_candidates s v ≡ some l
    → In a l
    → In a s × (a.cleanup ≡ "number")
numbered_only s v l a e h =
    candidates-number parameters s v a (subst (λ k. In a k) (sym (some-eq e)) h)

listed :
    (s : List Snapshot) (v : Value) (l : List Snapshot) (a : Snapshot)
    → number_candidates s v ≡ some l
    → In a l
    → In a s
listed s v l a e h = (numbered_only s v l a e h).0

abbrev half_used : List Snapshot → Option Bool
half_used s = some (ltb (length s) 5)

cleanup_until-Ends_example :
    Ends list_proxy number_candidates
      (pos 10)
      half_used
      listed
      (cleanup_until list_proxy number_candidates (pos 10) half_used 7 all_five)
cleanup_until-Ends_example =
    cleanup_until-Ends list_proxy number_candidates (pos 10) half_used listed 7 all_five
      (omega arith)

others_survive_example : In four (
    after list_proxy number_candidates (pos 10) percent (absolute 30) (absolute 0) false 7 all_five)
others_survive_example =
    others_survive list_proxy number_candidates (pos 10) percent (absolute 30) (absolute 0) false
      (λ s. s.cleanup ≡ "number") numbered_only 7 all_five four all_five-Distinct
      (inr (inr (inr (inr (inl refl))))) four_other
  where
    four_other : ¬ four.cleanup ≡ "number"
    four_other e = cc

default_active_survive_example : In five (
    after list_proxy number_candidates (pos 10) percent (absolute 30) (absolute 0) false 7 all_five)
default_active_survive_example =
    let (kept_as_default, _) =
      default_active_survive list_proxy number_candidates (pos 10) percent (absolute 30)
        (absolute 0) false
        (λ s v l e u. subst Distinct (some-eq e) (number-Distinct parameters s v u)) 7 all_five five
        all_five-Distinct (inr (inr (inr (inr (inr (inl refl)))))) in
    (kept_as_default refl).0

candidates_iff_example :
    In one (Number.calculate_candidates parameters all_five max)
    ↔ SurplusBy is_marked 2 1 (of_algorithm "number" all_five) one
candidates_iff_example = candidates_iff parameters all_five max one

one_surplus : In one (Number.calculate_candidates parameters all_five max)
unfolding Number.calculate_candidates
one_surplus = inl refl

abbrev a_view : View
a_view = record {
  snapshots = all_five;
  default = some five;
  active = none;
  now = pos 1000;
  min_age = pos 750;
}

one_passes : In one (filter a_view all_five)
unfolding filter erase ◌-ℤ◌
one_passes = inr (inl refl)

abbrev pair : List Snapshot
pair = two ∷ three ∷ []

pair-UniquePosts : HasUniquePosts pair
pair-UniquePosts a b (inl e) n p q r = absurd (ground arith)
pair-UniquePosts a b (inr (inl e)) (inl f) p q r = absurd (ground arith)
pair-UniquePosts a b (inr (inl e)) (inr (inl f)) p q r = ground arith
pair-UniquePosts a b (inr (inl e)) (inr (inr m)) p q r = absurd m
pair-UniquePosts a b (inr (inr m)) n p q r = absurd m

pair-UniqueNums : HasUniqueNums pair
pair-UniqueNums a b m n e = Distinct-unique pair a b (refl, (refl, tt)) m n e

two_kept : In two (filter_pre_post pair pair)
unfolding filter_pre_post
two_kept = inl refl

pairs_stay_together_example : In three (filter_pre_post pair pair)
pairs_stay_together_example =
    (pairs_stay_together pair pair pair-UniqueNums pair-UniquePosts (λ a m. m) two three two_kept).0
      refl refl

-- Sixty seconds are an hour, a day has four hours, and a month thirty days.
abbrev toy_localtime : ℤ → Tm
toy_localtime t =
    let h = pos_part t / 60 in
    record {
      tm_year = pos 124;
      tm_mon = h / 120;
      tm_mday = h / 4 % 30;
      tm_hour = h % 4;
      tm_yday = h / 4;
      tm_wday = h / 4 % 7;
    }

abbrev hourly : ℕ → ℕ → Snapshot
hourly n date = record (new_snapshot single n (pos date)) { cleanup = "timeline" }

abbrev three_hourly : List Snapshot
three_hourly = current ∷ hourly 1 10 ∷ hourly 2 20 ∷ hourly 3 70 ∷ []

abbrev timeline_parameters : TimelineParameters
timeline_parameters = record {
  limit_hourly = range_of 2;
  limit_daily = range_of 1;
  limit_monthly = range_of 0;
  limit_weekly = range_of 0;
  limit_quarterly = range_of 0;
  limit_yearly = range_of 1;
}

three_hourly-Distinct : Distinct (of_algorithm "timeline" three_hourly)
three_hourly-Distinct = (refl, (refl, (refl, tt)))

timeline_candidates_iff_example :
    In
      (hourly 2 20)
      (Timeline.calculate_candidates toy_localtime timeline_parameters three_hourly max)
    ↔ (In (hourly 2 20) (of_algorithm "timeline" three_hourly)
        × (is_kept toy_localtime timeline_parameters max
              (of_algorithm "timeline" three_hourly)
              (hourly 2 20)
            ≡ false))
timeline_candidates_iff_example =
    timeline_candidates_iff toy_localtime timeline_parameters three_hourly max (hourly 2 20)
      three_hourly-Distinct

abbrev never_differ : Snapshot → Snapshot → Bool
never_differ a b = true

after_number_example : In four (
    after_number list_proxy parameters (pos 10) percent (absolute 30) (absolute 0) false 7 all_five)
after_number_example =
    after_number_lem list_proxy parameters (pos 10) percent (absolute 30) (absolute 0) false 7
      all_five four all_five-Distinct (inr (inr (inr (inr (inl refl))))) (inl four_other)
  where
    four_other : four.cleanup ≢ "number"
    four_other e = cc
