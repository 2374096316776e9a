-- ===== src/Cleanup/Number.antt =====
-- client/cleanup.cc: NumberCleaner::calculate_candidates.
pub mod Exact
pub mod Safe
use snapper.Base.{
  ℕ, ◌+◌, Bool, false, ◌&&◌, ◌||◌, Option, none, some, List, [], ◌∷◌, reverse, ltb, if◌then◌else◌,
  String, str_eq,
}
use snapper.Snapshot.{Snapshot}
use snapper.Cleanup.Range.{Range, Value, value}

-- std::map::find in the user data.
pub lookup : String → List (String × String) → Option String
lookup k [] = none
lookup k ((j, v) ∷ m) = let rest = lookup k m in if str_eq j k then some v else rest

-- NumberCleaner::is_important
pub is_important : Snapshot → Bool
unfolding lookup
is_important s = elim (lookup "important" s.userdata) [ none ↦ false | some v ↦ str_eq v "yes" ]

-- The first loop: the snapshots of the algorithm, pushed to the front, so the newest comes first.
unfoldable pub collect : String → List Snapshot → List Snapshot → List Snapshot
collect tag [] ret = ret
collect tag (s ∷ rest) ret = collect tag rest (if str_eq s.cleanup tag then s ∷ ret else ret)

-- The second loop: what is kept is erased, and what is left over is a candidate.
unfoldable pub number_loop : ℕ → ℕ → ℕ → ℕ → List Snapshot → List Snapshot
number_loop limit limit_important num num_important [] = []
number_loop limit limit_important num num_important (s ∷ rest) =
    let important = ltb num_important limit_important && is_important s in
    let fits = ltb num limit in
    let later =
      number_loop limit limit_important (if fits then num + 1 else num)
        (if important then num_important + 1 else num_important) rest in
    if important || fits then later else s ∷ later

pub record NumberParameters : Type 0 where
  pub limit : Range
  pub limit_important : Range

unfoldable pub calculate_candidates : NumberParameters → List Snapshot → Value → List Snapshot
unfolding collect number_loop is_important
calculate_candidates p snapshots v =
    reverse (
      number_loop (value p.limit v) (value p.limit_important v) 0 0 (collect "number" snapshots []))
