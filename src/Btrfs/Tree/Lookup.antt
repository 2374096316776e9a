-- ===== src/Btrfs/Tree/Lookup.antt =====
-- What the operations of tree_node (snapper/Btrfs.cc) do to the status of each name.
use snapper.Base.{
  Bytes, eq_bytes, eq_bytes_iff, lt_bytes, ℕ, ◌≡◌, refl, sym, ap, ◌∙◌, subst, inl, inr, Bool, true,
  false, Option, none, some, [], ◌∷◌, ◌==◌, if◌then◌else◌, arith, Bool-cases, Option-cases,
}
use snapper.Btrfs.Tree.{
  TreeNode, node, Children, end, child, Name, status_of, children_of, new_node, get, put, remove,
  find, or_new, insert, drop_empty, drop_child, erase,
}

-- The status that stands at a name, 0 where nothing stands.
abbrev pub status_at : Name → TreeNode → ℕ
status_at name t = status_of (or_new (find name t))

-- What follows the first name in the second one.
abbrev pub strip : Name → Name → Option Name
strip [] q = some q
strip (k ∷ p) [] = none
strip (k ∷ p) (j ∷ q) = let rest = strip p q in if eq_bytes k j then rest else none

-- The status below a node that has replaced what stood at a name.
abbrev pub below : Option Name → TreeNode → ℕ → ℕ
below none x s = s
below (some r) x s = status_at r x

pub get-put :
    (j k : Bytes) (y : TreeNode) (c : Children)
    → get j (put k y c) ≡ (if eq_bytes k j then some y else get j c)
unfolding get put
get-put j k y end = refl
get-put j k y (child i x rest) = elim (Bool-cases (eq_bytes i k)) [
  | inl e ↦
      let q : eq_bytes i j ≡ eq_bytes k j = ap (λ b. eq_bytes b j) ((eq_bytes_iff i k).0 e) in
      rw (e, q) (ground arith)
  | inr e ↦ elim (Bool-cases (lt_bytes k i)) [
    | inl l ↦ rw (e, l) refl
    | inr l ↦
        rw (e, l)
          (ground
            (arith, get-put j k y rest, e, eq_bytes_iff i j, eq_bytes_iff k j, eq_bytes_iff i k))
  ]
]

pub get-remove :
    (j k : Bytes) (c : Children) → get j (remove k c) ≡ (if eq_bytes k j then none else get j c)
unfolding get remove
get-remove j k end = ground arith
get-remove j k (child i x rest) = elim (Bool-cases (eq_bytes i k)) [
  | inl e ↦
      let q : eq_bytes i j ≡ eq_bytes k j = ap (λ b. eq_bytes b j) ((eq_bytes_iff i k).0 e) in
      rw (e, q) (ground (arith, get-remove j k rest))
  | inr e ↦
      rw e (
        ground
          (arith, get-remove j k rest, e, eq_bytes_iff i j, eq_bytes_iff k j, eq_bytes_iff i k))
]

pub status_at-nothing : (q : Name) → status_at q new_node ≡ 0
unfolding find get
status_at-nothing [] = refl
status_at-nothing (j ∷ q) = refl

-- A name of two parts, by the child that it goes through.
pub status_at-child :
    (j : Bytes) (q : Name) (s : ℕ) (c : Children)
    → status_at (j ∷ q) (node s c) ≡ status_at q (or_new (get j c))
unfolding find
status_at-child j q s c = elim (Option-cases (get j c)) [
  | inl e ↦ rw (e, find) (sym (status_at-nothing q))
  | inr (x, e) ↦ rw (e, find) refl
]

status_at-put :
    (j k : Bytes) (q : Name) (y : TreeNode) (s : ℕ) (c : Children)
    → status_at (j ∷ q) (node s (put k y c))
      ≡ (if eq_bytes k j then status_at q y else status_at (j ∷ q) (node s c))
status_at-put j k q y s c =
    status_at-child j q s (put k y c)
    ∙ (ap (λ o. status_at q (or_new o)) (get-put j k y c) ∙ go (eq_bytes k j))
  where
    go :
        (b : Bool)
        → status_at q (or_new (if b then some y else get j c))
          ≡ (if b then status_at q y else status_at (j ∷ q) (node s c))
    go true = refl
    go false = sym (status_at-child j q s c)

status_at-remove :
    (j k : Bytes) (q : Name) (s : ℕ) (c : Children)
    → status_at (j ∷ q) (node s (remove k c))
      ≡ (if eq_bytes k j then 0 else status_at (j ∷ q) (node s c))
status_at-remove j k q s c =
    status_at-child j q s (remove k c)
    ∙ (ap (λ o. status_at q (or_new o)) (get-remove j k c) ∙ go (eq_bytes k j))
  where
    go :
        (b : Bool)
        → status_at q (or_new (if b then none else get j c))
          ≡ (if b then 0 else status_at (j ∷ q) (node s c))
    go true = status_at-nothing q
    go false = sym (status_at-child j q s c)

-- After an insertion: below the name it is as in the changed node, elsewhere as before.
pub status_at-insert :
    (p q : Name) (f : TreeNode → TreeNode) (t : TreeNode)
    → status_at q (insert p f t) ≡ below (strip p q) (f (or_new (find p t))) (status_at q t)
unfolding insert find get
status_at-insert [] q f t = refl
status_at-insert (k ∷ p) [] f (node s c) = refl
status_at-insert (k ∷ p) (j ∷ q) f (node s c) =
    status_at-put j k q (insert p f (or_new (get k c))) s c ∙ elim (Bool-cases (eq_bytes k j)) [
      | inr e ↦ rw e refl
      | inl e ↦
          let same : k ≡ j = (eq_bytes_iff k j).0 e in
          let found : or_new (find p (or_new (get k c))) ≡ or_new (find (k ∷ p) (node s c)) =
            through k p s c in
          rw e (
            status_at-insert p q f (or_new (get k c))
            ∙ (ap (λ x. below (strip p q) (f x) (status_at q (or_new (get k c)))) found
                ∙ ap (below (strip p q) (f (or_new (find (k ∷ p) (node s c))))) (
                    ap (λ i. status_at q (or_new (get i c))) same ∙ sym (status_at-child j q s c))))
    ]
  where
    nothing : (p : Name) → or_new (find p new_node) ≡ new_node
    nothing [] = refl
    nothing (i ∷ p) = refl

    through :
        (k : Bytes) (p : Name) (s : ℕ) (c : Children)
        → or_new (find p (or_new (get k c))) ≡ or_new (find (k ∷ p) (node s c))
    through k p s c = elim (Option-cases (get k c)) [
      | inl e ↦ rw (e, find) (nothing p)
      | inr (x, e) ↦ rw (e, find) refl
    ]

abbrev pub is_at : Option Name → Bool
is_at none = false
is_at (some []) = true
is_at (some (k ∷ r)) = false

drop_empty-status :
    (j k : Bytes) (q : Name) (y : TreeNode) (s : ℕ) (c : Children)
    → status_at (j ∷ q) (node s (drop_empty k y c))
      ≡ (if eq_bytes k j then status_at q y else status_at (j ∷ q) (node s c))
unfolding drop_empty
drop_empty-status j k q (node n (child i x r)) s c = elim (Bool-cases (n == 0)) [
  | inl e ↦ rw (e, drop_empty) (status_at-put j k q (node n (child i x r)) s c)
  | inr e ↦ rw (e, drop_empty) (status_at-put j k q (node n (child i x r)) s c)
]
drop_empty-status j k q (node n end) s c = elim (Bool-cases (n == 0)) [
  | inr e ↦ rw (e, drop_empty) (status_at-put j k q (node n end) s c)
  | inl e ↦
      let z : n ≡ 0 = ground (arith, e) in
      rw (e, drop_empty)
        (status_at-remove j k q s c
          ∙ ap (λ m. if eq_bytes k j then m else status_at (j ∷ q) (node s c))
              (sym (ap (λ m. status_at q (node m end)) z ∙ status_at-nothing q)))
]

drop_child-status :
    (j k : Bytes) (q : Name) (x : TreeNode) (s : ℕ) (c : Children)
    → status_at (j ∷ q) (node s (drop_child k x c)) ≡ (
        if eq_bytes k j then status_at q (node 0 (children_of x)) else status_at (j ∷ q) (node s c))
unfolding drop_child
drop_child-status j k q (node n (child i x r)) s c = status_at-put j k q (node 0 (child i x r)) s c
drop_child-status j k q (node n end) s c =
    status_at-remove j k q s c
    ∙ ap (λ n. if eq_bytes k j then n else status_at (j ∷ q) (node s c)) (sym (status_at-nothing q))

-- A node of which the status is cleared.
cleared :
    (q : Name) (x : TreeNode)
    → status_at q (node 0 (children_of x)) ≡ (if is_at (strip [] q) then 0 else status_at q x)
unfolding find
cleared [] (node n c) = refl
cleared (i ∷ q) (node n c) = status_at-child i q 0 c ∙ sym (status_at-child i q n c)

-- A child that is not there.
pub absent :
    (j : Bytes) (q : Name) (s : ℕ) (c : Children)
    → get j c ≡ none
    → status_at (j ∷ q) (node s c) ≡ 0
absent j q s c e =
    status_at-child j q s c ∙ (ap (λ o. status_at q (or_new o)) e ∙ status_at-nothing q)

pub present :
    (j : Bytes) (q : Name) (s : ℕ) (c : Children) (x : TreeNode)
    → get j c ≡ some x
    → status_at (j ∷ q) (node s c) ≡ status_at q x
present j q s c x e = status_at-child j q s c ∙ ap (λ o. status_at q (or_new o)) e

-- An erasure clears the status of the name and of no other.
pub status_at-erase :
    (k : Bytes) (p q : Name) (t : TreeNode)
    → status_at q (erase (k ∷ p) t) ≡ (if is_at (strip (k ∷ p) q) then 0 else status_at q t)
unfolding erase find
status_at-erase k [] [] (node s c) = elim (Option-cases (get k c)) [
  | inl e ↦ rw (e, erase) refl
  | inr (x, e) ↦ rw (e, erase) refl
]
status_at-erase k (m ∷ p) [] (node s c) = elim (Option-cases (get k c)) [
  | inl e ↦ rw (e, erase) refl
  | inr (x, e) ↦ rw (e, erase) refl
]
status_at-erase k [] (j ∷ q) (node s c) = elim (Option-cases (get k c)) [
  | inl e ↦ elim (Bool-cases (eq_bytes k j)) [
    | inr n ↦ rw (e, n, erase) refl
    | inl y ↦
        let z : status_at (j ∷ q) (node s c) ≡ 0 =
          absent j q s c (subst (λ i. get i c ≡ none) ((eq_bytes_iff k j).0 y) e) in
        rw (e, y, z, erase) (sym (ground arith))
  ]
  | inr (x, e) ↦ elim (Bool-cases (eq_bytes k j)) [
    | inr n ↦ rw (e, n, erase) (drop_child-status j k q x s c ∙ rw n refl)
    | inl y ↦
        let z : status_at (j ∷ q) (node s c) ≡ status_at q x =
          present j q s c x (subst (λ i. get i c ≡ some x) ((eq_bytes_iff k j).0 y) e) in
        rw (e, y, z, erase) (drop_child-status j k q x s c ∙ rw y (cleared q x))
  ]
]
status_at-erase k (m ∷ p) (j ∷ q) (node s c) = elim (Option-cases (get k c)) [
  | inl e ↦ elim (Bool-cases (eq_bytes k j)) [
    | inr n ↦ rw (e, n, erase) refl
    | inl y ↦
        let z : status_at (j ∷ q) (node s c) ≡ 0 =
          absent j q s c (subst (λ i. get i c ≡ none) ((eq_bytes_iff k j).0 y) e) in
        rw (e, y, z, erase) (sym (ground arith))
  ]
  | inr (x, e) ↦ elim (Bool-cases (eq_bytes k j)) [
    | inr n ↦ rw (e, n, erase) (drop_empty-status j k q (erase (m ∷ p) x) s c ∙ rw n refl)
    | inl y ↦
        let z : status_at (j ∷ q) (node s c) ≡ status_at q x =
          present j q s c x (subst (λ i. get i c ≡ some x) ((eq_bytes_iff k j).0 y) e) in
        rw (e, y, z, erase)
          (drop_empty-status j k q (erase (m ∷ p) x) s c ∙ rw y (status_at-erase m p q x))
  ]
]
