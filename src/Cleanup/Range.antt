-- ===== src/Cleanup/Range.antt =====
-- client/utils/Range.h and Range.cc: a pair of limits, and how it is read from a configuration. A
-- text is the list of its bytes. istringstream's `>>` of a size_t in the classic locale, followed by
-- the tests of fail() and eof(), is the parameter `read_size`.
use snapper.Base.{
  ℕ, ◌≤◌, ◌≡◌, Bool, false, Option, none, some, List, [], ◌∷◌, ◌++◌, arith, ltb, ◌==◌,
  if◌then◌else◌,
}

pub record Range : Type 0 where
  pub min : ℕ
  pub max : ℕ

pub data Value : Type 0 where
  min max : Value

-- Range::Range
abbrev pub range_of : ℕ → Range
range_of v = record { min = v; max = v }

-- Range::value
abbrev pub value : Range → Value → ℕ
value r min = r.min
value r max = r.max

-- Range::is_degenerated
pub is_degenerated : Range → Bool
is_degenerated r = r.min == r.max

abbrev pub dash : ℕ
dash = b'-'

-- s.find('-') with the two calls of substr: what stands before and after the first dash.
pub split_dash : List ℕ → Option (List ℕ × List ℕ)
split_dash [] = none
split_dash (c ∷ s) =
    let rest = split_dash s in
    if c == dash then some ([], s) else elim rest [ none ↦ none | some (a, b) ↦ some (c ∷ a, b) ]

-- `none` is the Exception "failed to parse range".
module _ (read_size : List ℕ → Option ℕ) where
  pub parse_bounds : List ℕ → List ℕ → Option Range
  parse_bounds a b = elim (read_size a) [
    | none ↦ none
    | some v1 ↦ elim (read_size b) [
      | none ↦ none
      | some v2 ↦ if ltb v2 v1 then none else some (record { min = v1; max = v2 })
    ]
  ]

  -- Range::parse
  pub parse : List ℕ → Option Range
  unfolding parse_bounds split_dash
  parse s = elim (split_dash s) [
    | none ↦ elim (read_size s) [ none ↦ none | some v ↦ some (range_of v) ]
    | some (a, b) ↦ parse_bounds a b
  ]

  -- operator<< of a Range, over a printer of numbers.
  abbrev pub print : (ℕ → List ℕ) → Range → List ℕ
  print print_size r = print_size r.min ++ dash ∷ print_size r.max

  -- A parsed range is ordered, whatever the reader of numbers is.
  pub parse-ordered : (s : List ℕ) (r : Range) → parse s ≡ some r → r.min ≤ r.max
  unfolding parse
  parse-ordered s r h = ground arith

  -- No byte is a dash.
  abbrev pub NoDash : List ℕ → Type 0
  NoDash [] = Unit {0}
  NoDash (c ∷ s) = ((c == dash) ≡ false) × NoDash s

  split_dash-append : (a b : List ℕ) → NoDash a → split_dash (a ++ dash ∷ b) ≡ some (a, b)
  unfolding split_dash
  split_dash-append [] b h = ground arith
  split_dash-append (c ∷ a) b h = ground (arith, split_dash-append a b h.1)

  -- An ordered range that is printed is parsed back, if the reader reads what the printer writes and
  -- a printed number has no dash.
  pub parse-print :
      (print_size : ℕ → List ℕ) (r : Range)
      → ((n : ℕ) → read_size (print_size n) ≡ some n)
      → ((n : ℕ) → NoDash (print_size n))
      → r.min ≤ r.max
      → parse (print print_size r) ≡ some r
  unfolding parse
  parse-print print_size r reads plain h =
      rw (split_dash-append (print_size r.min) (print_size r.max) (plain r.min), parse)
        (ground (arith, reads r.min, reads r.max))
