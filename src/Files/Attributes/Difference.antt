-- ===== src/Files/Attributes/Difference.antt =====
-- What the constructor of XAModification (snapper/XAttributes.cc) puts into the three vectors.
use snapper.Base.{
  ap, sym, Bytes, eq_bytes, lt_bytes, eq_bytes_iff, eq_bytes_sym, eq-lt_bytes, lt_bytes_total,
  find_key, find_key-Above, Above, Above-trans, IsMap, ◌≡◌, refl, Bool, true, false, Option, none,
  some, List, [], ◌∷◌, arith, if◌then◌else◌, any_of, All, Bool-cases, inl, inr,
}
use snapper.Files.Attributes.{
  Xamap, XaModification, keys, add_create, add_delete, add_replace, difference,
}

-- The name is in the list.
abbrev pub has : Bytes → List Bytes → Bool
has j l = any_of (eq_bytes j) l

abbrev pub AboveKeys : Bytes → List Bytes → Type 0
AboveKeys k = All (λ j. lt_bytes k j ≡ true)

-- The names ascend.
abbrev pub IsAscending : List Bytes → Type 0
IsAscending [] = Unit {0}
IsAscending (k ∷ l) = AboveKeys k l × IsAscending l

abbrev pub is_some : Option Bytes → Bool
is_some none = false
is_some (some v) = true

-- What each vector holds for a name, by the values of the name in the two maps.
abbrev pub created_by : Option Bytes → Option Bytes → Option Bytes
created_by s none = s
created_by s (some w) = none

abbrev pub deleted_by : Option Bytes → Option Bytes → Bool
deleted_by none d = is_some d
deleted_by (some v) d = false

abbrev pub replaced_by : Option Bytes → Option Bytes → Option Bytes
replaced_by none d = none
replaced_by (some v) none = none
replaced_by (some v) (some w) = if eq_bytes v w then none else some v

has-Above : (k : Bytes) (l : List Bytes) → AboveKeys k l → has k l ≡ false
has-Above k [] a = refl
has-Above k (j ∷ l) a = ground (arith, eq-lt_bytes k j, has-Above k l a.1)

find_key-keys : (j : Bytes) (m : Xamap) → has j (keys m) ≡ is_some (find_key j m)
unfolding find_key
find_key-keys j [] = refl
find_key-keys j ((k, v) ∷ m) = ground (arith, eq_bytes_sym j k, find_key-keys j m)

keys-Above : (k : Bytes) (m : Xamap) → Above k m → AboveKeys k (keys m)
keys-Above k [] a = tt
keys-Above k ((j, v) ∷ m) a = (a.0, keys-Above k m a.1)

keys-IsAscending : (m : Xamap) → IsMap m → IsAscending (keys m)
keys-IsAscending [] h = tt
keys-IsAscending ((k, v) ∷ m) h = (keys-Above k m h.0, keys-IsAscending m h.1)

-- All vectors lie above a name.
abbrev AllAbove : Bytes → XaModification → Type 0
AllAbove k x = Above k x.create_vec × AboveKeys k x.delete_vec × Above k x.replace_vec

difference-AllAbove :
    (i : Bytes) (src dest : Xamap) → Above i src → Above i dest → AllAbove i (difference src dest)
unfolding difference
difference-AllAbove i [] dest a b = (tt, keys-Above i dest b, tt)
difference-AllAbove i ((k, v) ∷ src) [] a b = (a, tt, tt)
difference-AllAbove i ((k, v) ∷ src) ((j, w) ∷ dest) a b = ground (
  arith,
  difference-AllAbove i src dest a.1 b.1,
  difference-AllAbove i src ((j, w) ∷ dest) a.1 b,
  difference-AllAbove i ((k, v) ∷ src) dest a b.1,
)

-- All vectors ascend.
abbrev pub IsOrdered : XaModification → Type 0
IsOrdered x = IsMap x.create_vec × IsAscending x.delete_vec × IsMap x.replace_vec

module _ (k v j w : Bytes) (src dest : Xamap) (m : IsMap ((k, v) ∷ src))
    (n : IsMap ((j, w) ∷ dest)) where
  -- The two heads, where neither is the lesser.
  same_heads : eq_bytes k j ≡ true → Above k dest
  same_heads e = rw ((eq_bytes_iff k j).0 e) n.0

  left_least : lt_bytes k j ≡ true → Above k ((j, w) ∷ dest)
  left_least h = (h, Above-trans k j dest h n.0)

  right_least : eq_bytes k j ≡ false → lt_bytes k j ≡ false → Above j ((k, v) ∷ src)
  right_least e h = elim (Bool-cases (lt_bytes j k)) [
    | inl l ↦ (l, Above-trans j k src l m.0)
    | inr l ↦ absurd (ground (arith, eq_bytes_iff k j, lt_bytes_total k j h l))
  ]

pub difference-IsOrdered :
    (src dest : Xamap) → IsMap src → IsMap dest → IsOrdered (difference src dest)
unfolding difference
difference-IsOrdered [] dest m n = (tt, keys-IsAscending dest n, tt)
difference-IsOrdered ((k, v) ∷ src) [] m n = (m, tt, tt)
difference-IsOrdered ((k, v) ∷ src) ((j, w) ∷ dest) m n = ground (
  arith,
  difference-IsOrdered src dest m.1 n.1,
  difference-IsOrdered src ((j, w) ∷ dest) m.1 n,
  difference-IsOrdered ((k, v) ∷ src) dest m n.1,
  same_heads k v j w src dest m n,
  left_least k v j w src dest m n,
  right_least k v j w src dest m n,
  difference-AllAbove k src dest m.0,
  difference-AllAbove k src ((j, w) ∷ dest) m.0,
  λ (h : Above j ((k, v) ∷ src)). difference-AllAbove j ((k, v) ∷ src) dest h n.0,
)

-- The three vectors hold what `created_by`, `deleted_by` and `replaced_by` say.
abbrev pub Holds : Bytes → XaModification → Option Bytes → Option Bytes → Type 0
Holds i x s d =
    (find_key i x.create_vec ≡ created_by s d)
    × (has i x.delete_vec ≡ deleted_by s d)
    × (find_key i x.replace_vec ≡ replaced_by s d)

created_by-none : (s : Option Bytes) → created_by s none ≡ s
created_by-none s = refl

only_source : (s : Option Bytes) → (deleted_by s none ≡ false) × (replaced_by s none ≡ none)
only_source none = (refl, refl)
only_source (some v) = (refl, refl)

-- A name that heads a map, and whose value in the rest of both maps is then none.
abbrev Fresh : Bytes → Bytes → Option Bytes → Option Bytes → Type 0
Fresh k i s d = eq_bytes k i ≡ true → (s ≡ none) × (d ≡ none)

abbrev first_of : Bytes → Bytes → Bytes → Option Bytes → Option Bytes
first_of k v i s = if eq_bytes k i then some v else s

module _ (i k v : Bytes) (x : XaModification) (s d : Option Bytes) (h : Holds i x s d)
    (f : Fresh k i s d) where
  Holds-left : Holds i (add_create (k, v) x) (first_of k v i s) d
  unfolding find_key
  Holds-left = elim (Bool-cases (eq_bytes k i)) [
    | inl e ↦ let (a, b) = f e in ground (arith, a, b)
    | inr e ↦ ground arith
  ]

  Holds-right : Holds i (add_delete k x) s (first_of k v i d)
  Holds-right = elim (Bool-cases (eq_bytes k i)) [
    | inl e ↦ let (a, b) = f e in ground (arith, a, b, eq_bytes_sym k i)
    | inr e ↦ ground (arith, eq_bytes_sym k i)
  ]

  Holds-both :
      (w : Bytes)
      → Holds i
          (if eq_bytes v w then x else add_replace (k, v) x)
          (first_of k v i s)
          (first_of k w i d)
  unfolding find_key
  Holds-both w = elim (Bool-cases (eq_bytes k i)) [
    | inl e ↦ let (a, b) = f e in ground (arith, a, b)
    | inr e ↦ ground arith
  ]

Above-Fresh :
    (k i : Bytes) (src dest : Xamap)
    → Above k src
    → Above k dest
    → Fresh k i (find_key i src) (find_key i dest)
Above-Fresh k i src dest a b e =
    rw (sym ((eq_bytes_iff k i).0 e)) (find_key-Above k src a, find_key-Above k dest b)

pub difference-Holds :
    (i : Bytes) (src dest : Xamap)
    → IsMap src
    → IsMap dest
    → Holds i (difference src dest) (find_key i src) (find_key i dest)
unfolding difference find_key
difference-Holds i [] dest m n = (ground arith, find_key-keys i dest, refl)
difference-Holds i ((k, v) ∷ src) [] m n =
    let (a, b) = only_source (find_key i ((k, v) ∷ src)) in
    (refl, ground (arith, a), ground (arith, b))
difference-Holds i ((k, v) ∷ src) ((j, w) ∷ dest) m n = elim (Bool-cases (eq_bytes k j)) [
  | inl e ↦
      let q : first_of j w i (find_key i dest) ≡ first_of k w i (find_key i dest) =
        ap (λ l. first_of l w i (find_key i dest)) (sym ((eq_bytes_iff k j).0 e)) in
      rw (e, difference, find_key, q)
        (Holds-both i k v (difference src dest) _ _ (difference-Holds i src dest m.1 n.1)
          (Above-Fresh k i src dest m.0 (same_heads k v j w src dest m n e)) w)
  | inr e ↦ elim (Bool-cases (lt_bytes k j)) [
    | inl l ↦
        rw (e, l, difference)
          (Holds-left i k v (difference src ((j, w) ∷ dest)) _ _
            (difference-Holds i src ((j, w) ∷ dest) m.1 n)
            (Above-Fresh k i src ((j, w) ∷ dest) m.0 (left_least k v j w src dest m n l)))
    | inr l ↦
        rw (e, l, difference)
          (Holds-right i j w (difference ((k, v) ∷ src) dest) _ _
            (difference-Holds i ((k, v) ∷ src) dest m n.1)
            (Above-Fresh j i ((k, v) ∷ src) dest (right_least k v j w src dest m n e l) n.0))
  ]
]
