-- ===== src/Base/Lists.antt =====
-- Lists: length over the native numbers, Boolean filters and searches, membership by recursion.
use Prim.Native.Nat.{ℕ, zero, suc, ◌+◌, ◌≤◌}
use mathlib.Core.Path.{◌≡◌, refl}
use mathlib.Core.Logic.{◌↔◌, ◌⊎◌, inl, inr}
use mathlib.Core.Bool.{Bool, true, false, ◌||◌}
use mathlib.Core.Option.{Option, none, some}
use mathlib.Core.List.{List, [], ◌∷◌, ◌++◌, reverse, reverse-cons}
use native.Mathlib.Omega.{arith}
use snapper.Base.Tests.{if◌then◌else◌, Bool-cases}

module _ {A : Type 0} where
  abbrev pub length : List A → ℕ
  length [] = 0
  length (x ∷ xs) = suc (length xs)

  pub length-append : (xs ys : List A) → length (xs ++ ys) ≡ length xs + length ys
  length-append [] ys = omega arith
  length-append (x ∷ xs) ys = omega (arith, length-append xs ys)

  -- std::list::remove_if with the test negated: the elements that pass, in order.
  abbrev pub filter_by : (A → Bool) → List A → List A
  filter_by p [] = []
  filter_by p (x ∷ xs) = let rest = filter_by p xs in if p x then x ∷ rest else rest

  -- std::find_if
  abbrev pub find_if : (A → Bool) → List A → Option A
  find_if p [] = none
  find_if p (x ∷ xs) = let rest = find_if p xs in if p x then some x else rest

  abbrev pub any_of : (A → Bool) → List A → Bool
  any_of p [] = false
  any_of p (x ∷ xs) = p x || any_of p xs

  -- Every element has the property.
  abbrev pub All {κ} : (A → Type κ) → List A → Type κ
  All P [] = Unit
  All P (x ∷ xs) = P x × All P xs

  -- The element stands in the list.
  abbrev pub In : A → List A → Type 0
  In a [] = ⊥
  In a (x ∷ xs) = (a ≡ x) ⊎ In a xs

  pub length-filter_by-le : (p : A → Bool) (xs : List A) → length (filter_by p xs) ≤ length xs
  length-filter_by-le p [] = omega arith
  length-filter_by-le p (x ∷ xs) = ground (arith, length-filter_by-le p xs)

  pub In-filter_by :
      (p : A → Bool) (a : A) (xs : List A) → In a (filter_by p xs) → In a xs × (p a ≡ true)
  In-filter_by p a [] h = absurd h
  In-filter_by p a (x ∷ xs) h = ground (arith, In-filter_by p a xs)

  pub filter_by-In :
      (p : A → Bool) (a : A) (xs : List A) → In a xs → p a ≡ true → In a (filter_by p xs)
  filter_by-In p a [] h t = absurd h
  filter_by-In p a (x ∷ xs) h t = ground (arith, filter_by-In p a xs)

  pub In-All {κ} : (P : A → Type κ) (a : A) (xs : List A) → All P xs → In a xs → P a
  In-All P a [] all h = absurd h
  In-All P a (x ∷ xs) all (inl e) = rw e all.0
  In-All P a (x ∷ xs) all (inr h) = In-All P a xs all.1 h

  pub All-intro {κ} : (P : A → Type κ) (xs : List A) → ((a : A) → In a xs → P a) → All P xs
  All-intro P [] h = tt
  All-intro P (x ∷ xs) h = (h x (inl refl), All-intro P xs (λ a m. h a (inr m)))

  pub In-append : (a : A) (xs ys : List A) → In a (xs ++ ys) → In a xs ⊎ In a ys
  In-append a [] ys h = inr h
  In-append a (x ∷ xs) ys h = ground (arith, In-append a xs ys)

  pub append_left-In : (a : A) (xs ys : List A) → In a xs → In a (xs ++ ys)
  append_left-In a [] ys h = absurd h
  append_left-In a (x ∷ xs) ys h = ground (arith, append_left-In a xs ys)

  pub append_right-In : (a : A) (xs ys : List A) → In a ys → In a (xs ++ ys)
  append_right-In a [] ys h = h
  append_right-In a (x ∷ xs) ys h = inr (append_right-In a xs ys h)

  -- A successful search returns an element that passes; a failed one excludes every element.
  pub find_if-some :
      (p : A → Bool) (xs : List A) (a : A) → find_if p xs ≡ some a → In a xs × (p a ≡ true)
  find_if-some p [] a h = cc
  find_if-some p (x ∷ xs) a h = ground (arith, find_if-some p xs a)

  pub find_if-none :
      (p : A → Bool) (xs : List A) (a : A) → find_if p xs ≡ none → In a xs → p a ≡ false
  find_if-none p [] a h m = absurd m
  find_if-none p (x ∷ xs) a h m = ground (arith, find_if-none p xs a)

  pub any_of-In : (p : A → Bool) (a : A) (xs : List A) → In a xs → p a ≡ true → any_of p xs ≡ true
  any_of-In p a [] m t = absurd m
  any_of-In p a (x ∷ xs) m t = ground (arith, any_of-In p a xs)

  pub any_of_find :
      (p : A → Bool) (xs : List A) → any_of p xs ≡ true → (a : A) × In a xs × (p a ≡ true)
  any_of_find p [] h = cc
  any_of_find p (x ∷ xs) h = elim (Bool-cases (p x)) [
    | inl e ↦ (x, inl refl, e)
    | inr e ↦ let (a, m, t) = any_of_find p xs (ground arith) in (a, inr m, t)
  ]

  abbrev pub drop : ℕ → List A → List A
  drop zero xs = xs
  drop (suc n) [] = []
  drop (suc n) (x ∷ xs) = drop n xs

  pub In-drop : (n : ℕ) (a : A) (xs : List A) → In a (drop n xs) → In a xs
  In-drop zero a xs h = h
  In-drop (suc n) a [] h = h
  In-drop (suc n) a (x ∷ xs) h = inr (In-drop n a xs h)

  pub In-drop_mono : (m n : ℕ) (a : A) (xs : List A) → m ≤ n → In a (drop n xs) → In a (drop m xs)
  In-drop_mono zero n a xs h i = In-drop n a xs i
  In-drop_mono (suc m) zero a xs h i = absurd (omega arith)
  In-drop_mono (suc m) (suc n) a [] h i = i
  In-drop_mono (suc m) (suc n) a (x ∷ xs) h i = In-drop_mono m n a xs (omega arith) i

  pub In-reverse : (a : A) (xs : List A) → In a (reverse xs) ↔ In a xs
  In-reverse a [] = (λ h. h, λ h. h)
  In-reverse a (x ∷ xs) = rw (reverse-cons x xs) (
    λ h. elim (In-append a (reverse xs) (x ∷ []) h) [
      | inl m ↦ inr ((In-reverse a xs).0 m)
      | inr m ↦ ground arith
    ],
    λ h. elim h [
      | inl e ↦ append_right-In a (reverse xs) (x ∷ []) (inl e)
      | inr m ↦ append_left-In a (reverse xs) (x ∷ []) ((In-reverse a xs).1 m)
    ],
  )

  abbrev pub take : ℕ → List A → List A
  take zero xs = []
  take (suc n) [] = []
  take (suc n) (x ∷ xs) = x ∷ take n xs

  pub List-cases : (l : List A) → (l ≡ []) ⊎ ((x : A) × (xs : List A) × (l ≡ x ∷ xs))
  List-cases [] = inl refl
  List-cases (x ∷ xs) = inr (x, xs, refl)
