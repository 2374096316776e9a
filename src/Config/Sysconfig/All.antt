-- ===== src/Config/Sysconfig/All.antt =====
-- get_all_values of SysconfigFile (snapper/AsciiFile.cc).
use snapper.Base.{
  Bytes, eq_bytes, eq_bytes_iff, lt_bytes, find_key, ◌≡◌, refl, ap, ◌∙◌, subst, inl, inr, false,
  Option, none, some, List, [], ◌∷◌, if◌then◌else◌, arith, All, Bool-cases,
}
use snapper.Config.Sysconfig.{
  ParsedLine, parse_line, has_key, value_of, get_value, put, put_line, add_values, get_all_values,
}

-- No later line has the key of a line.
abbrev pub IsFresh : Option ParsedLine → List Bytes → Type 0
IsFresh none lines = Unit {0}
IsFresh (some l) lines = All (λ line. has_key l.key (parse_line line) ≡ false) lines

abbrev pub HasDistinctKeys : List Bytes → Type 0
HasDistinctKeys [] = Unit {0}
HasDistinctKeys (line ∷ lines) = IsFresh (parse_line line) lines × HasDistinctKeys lines

abbrev otherwise : Option Bytes → Option Bytes → Option Bytes
otherwise none b = b
otherwise (some a) b = some a

find_key-put :
    (j key value : Bytes) (m : List (Bytes × Bytes))
    → find_key j (put key value m) ≡ (if eq_bytes key j then some value else find_key j m)
unfolding put find_key
find_key-put j key value [] = refl
find_key-put j key value ((k, v) ∷ m) = elim (Bool-cases (eq_bytes k key)) [
  | inl e ↦
      let q : eq_bytes k j ≡ eq_bytes key j = ap (λ i. eq_bytes i j) ((eq_bytes_iff k key).0 e) in
      rw (e, q) (ground arith)
  | inr e ↦ elim (Bool-cases (lt_bytes key k)) [
    | inl l ↦ rw (e, l) refl
    | inr l ↦
        rw (e, l)
          (ground (
            arith,
            find_key-put j key value m,
            e,
            eq_bytes_iff k j,
            eq_bytes_iff key j,
            eq_bytes_iff k key,
          ))
  ]
]

-- A key that no line has is not found.
get_value-fresh :
    (key : Bytes) (lines : List Bytes)
    → All (λ line. has_key key (parse_line line) ≡ false) lines
    → get_value key lines ≡ none
unfolding get_value
get_value-fresh key [] a = refl
get_value-fresh key (line ∷ lines) a = rw a.0 (get_value-fresh key lines a.1)

one_line :
    (j : Bytes) (o : Option ParsedLine) (lines : List Bytes) (ret : List (Bytes × Bytes))
    → IsFresh o lines
    → otherwise (get_value j lines) (find_key j (put_line o ret))
      ≡ otherwise (if has_key j o then value_of o else get_value j lines) (find_key j ret)
unfolding put_line
one_line j none lines ret f = refl
one_line j (some l) lines ret f = elim (Bool-cases (eq_bytes l.key j)) [
  | inl e ↦
      let q : get_value j lines ≡ none =
        subst (λ i. get_value i lines ≡ none) ((eq_bytes_iff l.key j).0 e)
          (get_value-fresh l.key lines f) in
      rw (find_key-put j l.key l.value ret, e, q) refl
  | inr e ↦ rw (find_key-put j l.key l.value ret, e) refl
]

find_key-add_values :
    (j : Bytes) (lines : List Bytes) (ret : List (Bytes × Bytes))
    → HasDistinctKeys lines
    → find_key j (add_values lines ret) ≡ otherwise (get_value j lines) (find_key j ret)
unfolding add_values get_value
find_key-add_values j [] ret d = refl
find_key-add_values j (line ∷ lines) ret d =
    find_key-add_values j lines (put_line (parse_line line) ret) d.1
    ∙ one_line j (parse_line line) lines ret d.0

otherwise-none : (o : Option Bytes) → otherwise o none ≡ o
otherwise-none none = refl
otherwise-none (some a) = refl

-- In a file where no two lines have the same key, get_all_values has the value of each key that
-- get_value gives, and no key for which that finds nothing.
pub get_all_values_lem :
    (j : Bytes) (lines : List Bytes)
    → HasDistinctKeys lines
    → find_key j (get_all_values lines) ≡ get_value j lines
unfolding get_all_values find_key
get_all_values_lem j lines d = find_key-add_values j lines [] d ∙ otherwise-none (get_value j lines)
