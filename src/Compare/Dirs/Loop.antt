-- ===== src/Compare/Dirs/Loop.antt =====
-- The while loop of cmpDirsWorker (snapper/Compare.cc) reports what differs between two sorted directories.
use snapper.Base.{
  Bytes, eq_bytes, lt_bytes, eq_bytes_iff, eq_bytes_refl, lt_bytes_total, Above, Above-trans, IsMap,
  find_key, find_key-Above, ℕ, ◌≡◌, refl, sym, subst, inl, inr, false, some, List, [], ◌∷◌, arith,
  All, Bool-cases,
}
use snapper.Files.Status.{created, deleted}
use snapper.Compare.Dirs.{
  Node, broken, node, Entries, Trail, Listing, listing, Run, and_then, filter, lonesome, twosome,
  merge,
}
use snapper.Compare.Dirs.Tree.{find, IsWhole, expected, Gives, Gives-map, Gives-nothing}
use snapper.Compare.Dirs.Merge.{Differs, Differs-skip, Differs-step}
use snapper.Compare.Dirs.Names.{created_iff, deleted_iff, lonesome-Listed}
use snapper.Compare.Dirs.Twosome.{twosome-Gives}

-- All that a listing holds is whole.
abbrev pub Wholes : ℕ → Listing → Type 0
Wholes dev = All (λ p. IsWhole dev p.1)

module _ (n : Bytes) (x : Node) (l : Listing) where
  at_head : find_key n ((n, x) ∷ l) ≡ some x
  unfolding find_key
  at_head = rw (eq_bytes_refl n) refl

  not_head : (k : Bytes) → eq_bytes n k ≡ false → find_key k ((n, x) ∷ l) ≡ find_key k l
  unfolding find_key
  not_head k e = rw e refl

module _ (signatures : List Bytes) (dev1 dev2 : ℕ) (recur : Trail → Entries → Entries → Run) where
  -- The recursive call is right for the directories at a name.
  abbrev pub Recurs : Trail → Node → Node → Type 0
  Recurs path broken y = Unit {0}
  Recurs path (node s1 f1 es1) broken = Unit {0}
  Recurs path (node s1 f1 es1) (node s2 f2 es2) =
      Gives (recur path es1 es2) path (Differs signatures path (listing es1) (listing es2))

  abbrev pub AllRecur : Trail → Listing → Type 0
  AllRecur path l = All (λ p. (y : Node) → IsWhole dev2 y → Recurs (p.0 ∷ path) p.1 y) l

  twosome_step :
      (path : Trail) (n : Bytes) (x y : Node)
      → IsWhole dev1 x
      → IsWhole dev2 y
      → Recurs (n ∷ path) x y
      → Gives
          (twosome signatures dev1 dev2 recur (n ∷ path) x y)
          (n ∷ path)
          (λ t s. expected signatures (find (some x) t) (find (some y) t) ≡ some s)
  twosome_step path n broken y w v a = absurd w
  twosome_step path n (node s1 f1 es1) broken w v a = absurd v
  twosome_step path n (node s1 f1 es1) (node s2 f2 es2) w v a =
      twosome-Gives signatures s1 f1 es1 s2 f2 es2 dev1 dev2 recur n path w.0 v.0 w.1 v.1 a

  module _ (path : Trail) (n : Bytes) (x : Node) (l r : Listing) (b : Run)
      (f : filter (n ∷ path) ≡ false) (above : Above n l) (other : Above n r)
      (g : Gives b path (Differs signatures path l r)) where
    -- A name of the first directory only.
    gone :
        IsWhole dev1 x
        → Gives
            (and_then (lonesome signatures dev1 dev2 dev1 deleted (n ∷ path) x) b)
            path
            (Differs signatures path ((n, x) ∷ l) r)
    gone w =
        Differs-step signatures path n ((n, x) ∷ l) r l r (not_head n x l) (λ k e. refl)
          (lonesome signatures dev1 dev2 dev1 deleted (n ∷ path) x) b f (find_key-Above n l above)
          (find_key-Above n r other)
          (rw (at_head n x l, find_key-Above n r other)
            (Gives-map _ (λ t s. (deleted_iff signatures (find (some x) t) s).1)
              (λ t s. (deleted_iff signatures (find (some x) t) s).0)
              (lonesome-Listed signatures dev1 dev2 dev1 deleted (n ∷ path) x w)))
          g

    -- A name of the second directory only.
    new :
        IsWhole dev2 x
        → Gives
            (and_then (lonesome signatures dev1 dev2 dev2 created (n ∷ path) x) b)
            path
            (Differs signatures path l ((n, x) ∷ r))
    new w =
        Differs-step signatures path n l ((n, x) ∷ r) l r (λ k e. refl) (not_head n x r)
          (lonesome signatures dev1 dev2 dev2 created (n ∷ path) x) b f (find_key-Above n l above)
          (find_key-Above n r other)
          (rw (at_head n x r, find_key-Above n l above)
            (Gives-map _ (λ t s. (created_iff signatures (find (some x) t) s).1)
              (λ t s. (created_iff signatures (find (some x) t) s).0)
              (lonesome-Listed signatures dev1 dev2 dev2 created (n ∷ path) x w)))
          g

    -- A name of both.
    common :
        (y : Node)
        → IsWhole dev1 x
        → IsWhole dev2 y
        → Recurs (n ∷ path) x y
        → Gives
            (and_then (twosome signatures dev1 dev2 recur (n ∷ path) x y) b)
            path
            (Differs signatures path ((n, x) ∷ l) ((n, y) ∷ r))
    common y w v a =
        Differs-step signatures path n ((n, x) ∷ l) ((n, y) ∷ r) l r (not_head n x l)
          (not_head n y r) (twosome signatures dev1 dev2 recur (n ∷ path) x y) b f
          (find_key-Above n l above) (find_key-Above n r other)
          (rw (at_head n x l, at_head n y r) (twosome_step path n x y w v a)) g

  pub merge-Differs :
      (path : Trail) (l r : Listing)
      → IsMap l
      → IsMap r
      → Wholes dev1 l
      → Wholes dev2 r
      → AllRecur path l
      → Gives (merge signatures dev1 dev2 recur path l r) path (Differs signatures path l r)
  unfolding merge find_key
  merge-Differs path [] [] ml mr wl wr a = Gives-nothing nowhere
    where
      nowhere : (t : Trail) (s : ℕ) → ¬ Differs signatures path [] [] t s
      nowhere [] s h = h
      nowhere (k ∷ t) s h = absurd (ground (arith, h.1))
  merge-Differs path [] ((m, y) ∷ r) ml mr wl wr a =
      let rest = merge-Differs path [] r tt mr.1 tt wr.1 tt in
      elim (Bool-cases (filter (m ∷ path))) [
        | inl e ↦ rw e (
            Differs-skip signatures path m [] ((m, y) ∷ r) [] r (λ k e. refl) (not_head m y r) _ e
              rest)
        | inr e ↦ rw e (new path m y [] r _ e tt mr.0 rest wr.0)
      ]
  merge-Differs path ((n, x) ∷ l) [] ml mr wl wr a =
      let rest = merge-Differs path l [] ml.1 tt wl.1 tt a.1 in
      elim (Bool-cases (filter (n ∷ path))) [
        | inl e ↦ rw e (
            Differs-skip signatures path n ((n, x) ∷ l) [] l [] (not_head n x l) (λ k e. refl) _ e
              rest)
        | inr e ↦ rw e (gone path n x l [] _ e ml.0 tt rest wl.0)
      ]
  merge-Differs path ((n, x) ∷ l) ((m, y) ∷ r) ml mr wl wr a =
      let left = merge-Differs path l ((m, y) ∷ r) ml.1 mr wl.1 wr a.1 in
      let right = merge-Differs path ((n, x) ∷ l) r ml mr.1 wl wr.1 a in
      let both = merge-Differs path l r ml.1 mr.1 wl.1 wr.1 a.1 in
      elim (Bool-cases (filter (n ∷ path))) [
        | inl e ↦ rw e (
            Differs-skip signatures path n ((n, x) ∷ l) ((m, y) ∷ r) l ((m, y) ∷ r) (not_head n x l)
              (λ k e. refl) _ e left)
        | inr e ↦ elim (Bool-cases (filter (m ∷ path))) [
          | inl e2 ↦
              rw (e, e2)
                (Differs-skip signatures path m ((n, x) ∷ l) ((m, y) ∷ r) ((n, x) ∷ l) r
                  (λ k e. refl) (not_head m y r) _ e2 right)
          | inr e2 ↦ elim (Bool-cases (lt_bytes m n)) [
            | inl lt ↦
                rw (e, e2, lt)
                  (new path m y ((n, x) ∷ l) r _ e2 (lt, Above-trans m n l lt ml.0) mr.0 right wr.0)
            | inr ge ↦ elim (Bool-cases (lt_bytes n m)) [
              | inl lt ↦
                  rw (e, e2, ge, lt)
                    (gone path n x l ((m, y) ∷ r) _ e ml.0 (lt, Above-trans n m r lt mr.0) left
                      wl.0)
              | inr ge2 ↦
                  let q : m ≡ n = lt_bytes_total m n ge ge2 in
                  let other : Above n r = subst (λ j. Above j r) q mr.0 in
                  let one : Gives
                      (and_then (twosome signatures dev1 dev2 recur (n ∷ path) x y)
                        (merge signatures dev1 dev2 recur path l r))
                      path (Differs signatures path ((n, x) ∷ l) ((m, y) ∷ r)) =
                    rw q (common path n x l r _ e ml.0 other both y wl.0 wr.0 (a.0 y wr.0)) in
                  rw (e, e2, ge, ge2, (eq_bytes_iff n m).1 (sym q)) one
            ]
          ]
        ]
      ]
