-- ===== src/Compare/Dirs/Sort.antt =====
-- The sorting of the names of a directory in cmpDirsWorker (snapper/Compare.cc).
use snapper.Base.{
  Bytes, eq_bytes, lt_bytes, eq_bytes_iff, lt_bytes_total, Above-trans, IsMap, find_key, ◌≡◌, refl,
  ap, ◌∙◌, inl, inr, true, false, none, some, [], ◌∷◌, if◌then◌else◌, arith, All, Bool-cases,
}
use snapper.Compare.Dirs.{Node, Listing, insert, sort}

-- No name stands twice.
abbrev pub AreDistinct : Listing → Type 0
AreDistinct [] = Unit {0}
AreDistinct ((n, x) ∷ l) = (find_key n l ≡ none) × AreDistinct l

pub insert-All :
    (P : Bytes × Node → Type 0) (n : Bytes) (x : Node) (l : Listing)
    → P (n, x)
    → All P l
    → All P (insert n x l)
unfolding insert
insert-All P n x [] p a = (p, tt)
insert-All P n x ((k, y) ∷ l) p a = elim (Bool-cases (lt_bytes n k)) [
  | inl e ↦ rw e (p, a)
  | inr e ↦ rw e (a.0, insert-All P n x l p a.1)
]

pub sort-All : (P : Bytes × Node → Type 0) (l : Listing) → All P l → All P (sort l)
unfolding sort
sort-All P [] a = tt
sort-All P ((n, x) ∷ l) a = insert-All P n x (sort l) a.0 (sort-All P l a.1)

-- What a name finds after an insertion.
pub find_key-insert :
    (j n : Bytes) (x : Node) (l : Listing)
    → find_key n l ≡ none
    → find_key j (insert n x l) ≡ find_key j ((n, x) ∷ l)
unfolding insert find_key
find_key-insert j n x [] f = refl
find_key-insert j n x ((k, y) ∷ l) f = elim (Bool-cases (lt_bytes n k)) [
  | inl e ↦ rw e refl
  | inr e ↦
      ground
        (arith, e, f, find_key-insert j n x l, eq_bytes_iff n j, eq_bytes_iff k j, eq_bytes_iff k n)
]

insert-IsMap :
    (n : Bytes) (x : Node) (l : Listing) → find_key n l ≡ none → IsMap l → IsMap (insert n x l)
unfolding insert find_key
insert-IsMap n x [] f m = (tt, tt)
insert-IsMap n x ((k, y) ∷ l) f m = elim (Bool-cases (lt_bytes n k)) [
  | inl e ↦ rw e ((e, Above-trans n k l e m.0), m)
  | inr e ↦
      let differ : eq_bytes k n ≡ false = elim (Bool-cases (eq_bytes k n)) [
        | inl q ↦ absurd (ground (arith, f, q))
        | inr q ↦ q
      ] in
      let less : lt_bytes k n ≡ true = elim (Bool-cases (lt_bytes k n)) [
        | inl q ↦ q
        | inr q ↦ absurd (ground (arith, differ, (eq_bytes_iff k n).1 (lt_bytes_total k n q e)))
      ] in
      let later : find_key n l ≡ none = ground (arith, f, differ) in
      rw e (insert-All (λ p. lt_bytes k p.0 ≡ true) n x l less m.0, insert-IsMap n x l later m.1)
]

-- Sorting keeps what a name finds.
pub find_key-sort : (l : Listing) → AreDistinct l → (j : Bytes) → find_key j (sort l) ≡ find_key j l
unfolding sort find_key
find_key-sort [] d j = refl
find_key-sort ((n, x) ∷ l) d j =
    let new : find_key n (sort l) ≡ none = find_key-sort l d.1 n ∙ d.0 in
    find_key-insert j n x (sort l) new
    ∙ ap (λ o. if eq_bytes n j then some x else o) (find_key-sort l d.1 j)

-- The names ascend after sorting.
pub sort-IsMap : (l : Listing) → AreDistinct l → IsMap (sort l)
unfolding sort
sort-IsMap [] d = tt
sort-IsMap ((n, x) ∷ l) d =
    insert-IsMap n x (sort l) (find_key-sort l d.1 n ∙ d.0) (sort-IsMap l d.1)
