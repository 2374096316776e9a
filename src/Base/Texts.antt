-- ===== src/Base/Texts.antt =====
-- Texts as lists of bytes, with operator== and operator< of std::string, and a std::map with such
-- keys as the list of its pairs in ascending order.
use Prim.Native.Nat.{ℕ}
use mathlib.Core.Path.{◌≡◌, refl}
use mathlib.Core.Logic.{◌↔◌, inl, inr}
use mathlib.Core.Bool.{Bool, true, false, ◌&&◌, ◌||◌}
use mathlib.Core.Option.{Option, none, some}
use mathlib.Core.List.{List, [], ◌∷◌}
use native.Mathlib.Omega.{arith}
use snapper.Base.Tests.{◌==◌, ltb, if◌then◌else◌, Bool-cases}
use snapper.Base.Lists.{All}

abbrev pub Bytes : Type 0
Bytes = List ℕ

unfoldable pub eq_bytes : Bytes → Bytes → Bool
eq_bytes [] [] = true
eq_bytes [] (d ∷ t) = false
eq_bytes (c ∷ s) [] = false
eq_bytes (c ∷ s) (d ∷ t) = c == d && eq_bytes s t

unfoldable pub lt_bytes : Bytes → Bytes → Bool
lt_bytes s [] = false
lt_bytes [] (d ∷ t) = true
lt_bytes (c ∷ s) (d ∷ t) = ltb c d || (c == d && lt_bytes s t)

pub eq_bytes_iff : (a b : Bytes) → (eq_bytes a b ≡ true) ↔ (a ≡ b)
unfolding eq_bytes
eq_bytes_iff [] [] = (λ h. refl, λ h. refl)
eq_bytes_iff [] (d ∷ t) = (λ h. cc, λ h. cc)
eq_bytes_iff (c ∷ s) [] = (λ h. cc, λ h. cc)
eq_bytes_iff (c ∷ s) (d ∷ t) = ground (arith, eq_bytes_iff s t)

pub eq_bytes_refl : (a : Bytes) → eq_bytes a a ≡ true
eq_bytes_refl a = (eq_bytes_iff a a).1 refl

pub lt_bytes_irrefl : (a : Bytes) → lt_bytes a a ≡ false
unfolding lt_bytes
lt_bytes_irrefl [] = refl
lt_bytes_irrefl (c ∷ s) = ground (arith, lt_bytes_irrefl s)

pub lt_bytes_trans :
    (a b c : Bytes) → lt_bytes a b ≡ true → lt_bytes b c ≡ true → lt_bytes a c ≡ true
unfolding lt_bytes
lt_bytes_trans a b [] h k = cc
lt_bytes_trans a [] (z ∷ c) h k = ground arith
lt_bytes_trans [] (y ∷ b) (z ∷ c) h k = refl
lt_bytes_trans (x ∷ a) (y ∷ b) (z ∷ c) h k = ground (arith, lt_bytes_trans a b c)

-- Two texts are equal or one is less than the other.
pub lt_bytes_total : (a b : Bytes) → lt_bytes a b ≡ false → lt_bytes b a ≡ false → a ≡ b
unfolding lt_bytes
lt_bytes_total [] [] h k = refl
lt_bytes_total [] (d ∷ b) h k = cc
lt_bytes_total (c ∷ a) [] h k = cc
lt_bytes_total (c ∷ a) (d ∷ b) h k = ground (arith, lt_bytes_total a b)

-- Less is not equal.
pub eq-lt_bytes : (a b : Bytes) → lt_bytes a b ≡ true → eq_bytes a b ≡ false
eq-lt_bytes a b h = elim (Bool-cases (eq_bytes a b)) [
  | inl e ↦ absurd (ground (arith, eq_bytes_iff a b, lt_bytes_irrefl b))
  | inr e ↦ e
]

pub eq_bytes_sym : (a b : Bytes) → eq_bytes a b ≡ eq_bytes b a
unfolding eq_bytes
eq_bytes_sym [] [] = refl
eq_bytes_sym [] (d ∷ b) = refl
eq_bytes_sym (c ∷ a) [] = refl
eq_bytes_sym (c ∷ a) (d ∷ b) = ground (arith, eq_bytes_sym a b)

module _ {A : Type 0} where
  -- map::find
  unfoldable pub find_key : Bytes → List (Bytes × A) → Option A
  unfolding eq_bytes
  find_key k [] = none
  find_key k ((j, v) ∷ m) = let rest = find_key k m in if eq_bytes j k then some v else rest

  -- Every key is greater than this one.
  abbrev pub Above : Bytes → List (Bytes × A) → Type 0
  Above k = All (λ p. lt_bytes k p.0 ≡ true)

  -- The keys ascend, as in a std::map.
  abbrev pub IsMap : List (Bytes × A) → Type 0
  IsMap [] = Unit {0}
  IsMap ((k, v) ∷ m) = Above k m × IsMap m

  pub Above-trans :
      (j k : Bytes) (m : List (Bytes × A)) → lt_bytes j k ≡ true → Above k m → Above j m
  Above-trans j k [] h a = tt
  Above-trans j k ((i, v) ∷ m) h a = (lt_bytes_trans j k i h a.0, Above-trans j k m h a.1)

  pub find_key-Above : (k : Bytes) (m : List (Bytes × A)) → Above k m → find_key k m ≡ none
  unfolding find_key
  find_key-Above k [] a = refl
  find_key-Above k ((j, v) ∷ m) a =
      ground (arith, eq-lt_bytes k j, eq_bytes_sym k j, find_key-Above k m a.1)
