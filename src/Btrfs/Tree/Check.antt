-- ===== src/Btrfs/Tree/Check.antt =====
-- tree_node::check (snapper/Btrfs.cc) by the statuses of the names.
use snapper.Base.{
  Bytes, eq_bytes, eq_bytes_iff, ℕ, ◌≡◌, refl, sym, ap, ◌∙◌, subst, inl, inr, Option, none, some,
  [], ◌∷◌, ◌++◌, if◌then◌else◌, arith, Bool-cases,
}
use mathlib.Core.List.{append_assoc}
use snapper.Btrfs.Tree.{
  TreeNode, node, Children, end, child, Name, get, find, check, check_children, with_status,
}
use snapper.Btrfs.Tree.Lookup.{status_at}
use snapper.Btrfs.Tree.Result.{status_at-first}
use snapper.Btrfs.Tree.Tidy.{Above, IsTidy, AreTidy}

and_then-some :
    {A B : Type 0}
    → (o : Option A) (f : A → Option B) (b : B) → elim o [ none ↦ none | some x ↦ f x ] ≡ some b
    → (a : A) × (o ≡ some a) × (f a ≡ some b)
and_then-some none f b h = cc
and_then-some (some a) f b h = (a, refl, h)

then-some :
    {A B : Type 0}
    → (o : Option A) (f : A → Option B) (a : A) (r : Option B) → o ≡ some a
    → f a ≡ r
    → elim o [ none ↦ none | some x ↦ f x ] ≡ r
then-some {B = B} o f a r e h =
    ap (λ o. elim o as (λ z. Option B) [ none ↦ none | some x ↦ f x ]) e ∙ h

pub some_inj : {A : Type 0} → (a b : A) → some a ≡ some b → a ≡ b
some_inj a b h = ground (arith, h)

module _ (one : Name → ℕ → Option ℕ) where
  -- What a successful check of a child and of the others has done.
  abbrev Checked : Name → Bytes → ℕ → Children → Children → Children → Type 0
  Checked prefix k n d rest e =
      (m : ℕ) × (d' : Children) × (later : Children) × (one (prefix ++ k ∷ []) n ≡ some m)
      × (check_children one (prefix ++ k ∷ []) d ≡ some d')
      × (check_children one prefix rest ≡ some later)
      × (e ≡ child k (node m d') later)

  Checked-parts :
      (prefix : Name) (k : Bytes) (n : ℕ) (d rest e : Children)
      → check_children one prefix (child k (node n d) rest) ≡ some e
      → Checked prefix k n d rest e
  unfolding check
  Checked-parts prefix k n d rest e h =
      let (m, a, h1) = and_then-some (one (prefix ++ k ∷ []) n) _ e h in
      let (y, b, h2) = and_then-some (check one (prefix ++ k ∷ []) (node n d)) _ e h1 in
      let (d', b', h3) = and_then-some (check_children one (prefix ++ k ∷ []) d) _ y b in
      let (later, c, h4) = and_then-some (check_children one prefix rest) _ e h2 in
      (
        m,
        d',
        later,
        a,
        b',
        c,
        some_inj _ _ (sym h4)
            ∙ ap (λ z. child k (with_status (λ old. m) z) later) (sym (some_inj _ _ h3)),
      )

  -- One name, by whether it goes through the first child.
  through_first :
      (prefix : Name) (j k : Bytes) (q : Name) (s s' n m : ℕ) (d d' rest later : Children)
      → one (prefix ++ k ∷ []) n ≡ some m
      → ((i : Bytes) (q : Name)
          → one ((prefix ++ k ∷ []) ++ i ∷ q) (status_at (i ∷ q) (node n d))
            ≡ some (status_at (i ∷ q) (node m d')))
      → one (prefix ++ j ∷ q) (status_at (j ∷ q) (node s rest))
        ≡ some (status_at (j ∷ q) (node s' later))
      → one
          (prefix ++ j ∷ q)
          (if eq_bytes k j then status_at q (node n d) else status_at (j ∷ q) (node s rest))
        ≡ some (if eq_bytes k j then status_at q (node m d') else status_at (j ∷ q) (node s' later))
  unfolding find
  through_first prefix j k q s s' n m d d' rest later x y w = elim (Bool-cases (eq_bytes k j)) [
    | inr g ↦ rw g w
    | inl g ↦ rw g (
        subst (λ i. one (prefix ++ i ∷ q) (status_at q (node n d)) ≡ some (status_at q (node m d')))
          ((eq_bytes_iff k j).0 g) (go q))
  ]
    where
      go :
          (q : Name)
          → one (prefix ++ k ∷ q) (status_at q (node n d)) ≡ some (status_at q (node m d'))
      go [] = x
      go (i ∷ q) =
          ap (λ p. one p (status_at (i ∷ q) (node n d)))
            (sym (append_assoc prefix (k ∷ []) (i ∷ q)))
          ∙ y i q

  check_children-status :
      ((p : Name) → one p 0 ≡ some 0)
      → (prefix : Name) (c e : Children) → check_children one prefix c ≡ some e
      → (s s' : ℕ) (j : Bytes) (q : Name)
      → one (prefix ++ j ∷ q) (status_at (j ∷ q) (node s c)) ≡ some (status_at (j ∷ q) (node s' e))
  unfolding check get find
  check_children-status z prefix end e h s s' j q =
      z (prefix ++ j ∷ q) ∙ ap (λ x. some (status_at (j ∷ q) (node s' x))) (some_inj _ _ h)
  check_children-status z prefix (child k (node n d) rest) e h s s' j q =
      let (m, d', later, a, b, c, f) = Checked-parts prefix k n d rest e h in
      ap (one (prefix ++ j ∷ q)) (status_at-first j k q s (node n d) rest)
      ∙ (through_first prefix j k q s s' n m d d' rest later a
            (λ i q. check_children-status z (prefix ++ k ∷ []) d d' b n m i q)
            (check_children-status z prefix rest later c s s' j q)
          ∙ ap some (
              sym (
                ap (λ x. status_at (j ∷ q) (node s' x)) f
                ∙ status_at-first j k q s' (node m d') later)))

  -- A check that does not fail gives each name the status that it has for the name and its old status.
  pub check-status :
      ((p : Name) → one p 0 ≡ some 0)
      → (prefix : Name) (t u : TreeNode) → check one prefix t ≡ some u
      → (j : Bytes) (q : Name)
      → one (prefix ++ j ∷ q) (status_at (j ∷ q) t) ≡ some (status_at (j ∷ q) u)
  unfolding check
  check-status z prefix (node s c) u h j q =
      let (e, a, b) = and_then-some (check_children one prefix c) _ u h in
      check_children-status z prefix c e a s s j q
      ∙ ap (λ x. some (status_at (j ∷ q) x)) (some_inj _ _ b)

  check_children-Above :
      (i : Bytes) (prefix : Name) (c e : Children)
      → check_children one prefix c ≡ some e
      → Above i c
      → Above i e
  unfolding check
  check_children-Above i prefix end e h a = subst (Above i) (some_inj _ _ h) tt
  check_children-Above i prefix (child k (node n d) rest) e h a =
      let (m, d', later, x, b, c, f) = Checked-parts prefix k n d rest e h in
      subst (Above i) (sym f) (a.0, check_children-Above i prefix rest later c a.1)

  check_children-AreTidy :
      (prefix : Name) (c e : Children)
      → check_children one prefix c ≡ some e
      → AreTidy c
      → AreTidy e
  unfolding check
  check_children-AreTidy prefix end e h a = subst AreTidy (some_inj _ _ h) tt
  check_children-AreTidy prefix (child k (node n d) rest) e h a =
      let (m, d', later, x, b, c, f) = Checked-parts prefix k n d rest e h in
      subst AreTidy (sym f) (
        check_children-Above k prefix rest later c a.0,
        check_children-AreTidy (prefix ++ k ∷ []) d d' b a.1,
        check_children-AreTidy prefix rest later c a.2,
      )

  pub check-IsTidy :
      (prefix : Name) (t u : TreeNode) → check one prefix t ≡ some u → IsTidy t → IsTidy u
  unfolding check
  check-IsTidy prefix (node s c) u h a =
      let (e, x, b) = and_then-some (check_children one prefix c) _ u h in
      subst IsTidy (some_inj _ _ b) (check_children-AreTidy prefix c e x a)

  check_children-total :
      ((p : Name) (s : ℕ) → (n : ℕ) × (one p s ≡ some n))
      → (prefix : Name) (c : Children) → (e : Children) × (check_children one prefix c ≡ some e)
  unfolding check
  check_children-total h prefix end = (end, refl)
  check_children-total h prefix (child k (node n d) rest) =
      let (m, a) = h (prefix ++ k ∷ []) n in
      let (d', b) = check_children-total h (prefix ++ k ∷ []) d in
      let (later, c) = check_children-total h prefix rest in
      (
        child k (node m d') later,
        then-some (one (prefix ++ k ∷ []) n) _ m _ a (
            then-some (check one (prefix ++ k ∷ []) (node n d)) _ (node n d') _
              (then-some (check_children one (prefix ++ k ∷ []) d) _ d' _ b refl)
              (then-some (check_children one prefix rest) _ later _ c refl)),
      )

  -- A check fails only where it fails for a name.
  pub check-total :
      ((p : Name) (s : ℕ) → (n : ℕ) × (one p s ≡ some n))
      → (prefix : Name) (t : TreeNode) → (u : TreeNode) × (check one prefix t ≡ some u)
  unfolding check
  check-total h prefix (node s c) =
      let (e, a) = check_children-total h prefix c in
      (node s e, then-some (check_children one prefix c) _ e _ a refl)
