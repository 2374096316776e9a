-- ===== src/Btrfs/Tree/Changes.antt =====
-- The status of each name after a change of one node and after tree_node::rename (snapper/Btrfs.cc).
use snapper.Base.{
  Bytes, eq_bytes, eq_bytes_iff, ℕ, ◌≡◌, refl, sym, ap, ◌∙◌, inl, inr, Option, none, some, [], ◌∷◌,
  if◌then◌else◌, arith, Bool-cases, Option-cases,
}
use snapper.Btrfs.Tree.{
  TreeNode, node, Name, status_of, get, find, or_new, insert, with_status, without_children, rename,
}
use snapper.Btrfs.Tree.Lookup.{
  status_at, strip, below, is_at, status_at-nothing, status_at-child, status_at-insert,
  status_at-erase,
}

-- What stands at a name stands below each of its beginnings.
pub strip-status :
    (p q r : Name) (t : TreeNode)
    → strip p q ≡ some r
    → status_at q t ≡ status_at r (or_new (find p t))
unfolding find
strip-status [] q r t h = ap (λ x. status_at x t) (ground (arith, h))
strip-status (k ∷ p) [] r t h = cc
strip-status (k ∷ p) (j ∷ q) r (node s c) h = elim (Bool-cases (eq_bytes k j)) [
  | inr e ↦ absurd (ground (arith, h, e))
  | inl e ↦
      let same : j ≡ k = sym ((eq_bytes_iff k j).0 e) in
      let h' : strip p q ≡ some r = ground (arith, h, e) in
      rw same (elim (Option-cases (get k c)) [
        | inl n ↦
            status_at-child k q s c ∙ rw (n, find) (status_at-nothing q ∙ sym (status_at-nothing r))
        | inr (x, n) ↦ status_at-child k q s c ∙ rw (n, find) (strip-status p q r x h')
      ])
]

pub status_at-with_status :
    (r : Name) (f : ℕ → ℕ) (x : TreeNode)
    → status_at r (with_status f x) ≡ (if is_at (some r) then f (status_of x) else status_at r x)
unfolding find
status_at-with_status [] f (node s c) = refl
status_at-with_status (k ∷ r) f (node s c) =
    status_at-child k r (f s) c ∙ sym (status_at-child k r s c)

-- A change of one status changes the status of that name and of no other.
pub status_at-mark :
    (p q : Name) (f : ℕ → ℕ) (t : TreeNode)
    → status_at q (insert p (with_status f) t)
      ≡ (if is_at (strip p q) then f (status_at p t) else status_at q t)
status_at-mark p q f t = status_at-insert p q (with_status f) t ∙ go (strip p q) refl
  where
    go :
        (o : Option Name)
        → strip p q ≡ o
        → below o (with_status f (or_new (find p t))) (status_at q t)
          ≡ (if is_at o then f (status_at p t) else status_at q t)
    go none e = refl
    go (some []) e = status_at-with_status [] f (or_new (find p t))
    go (some (k ∷ r)) e =
        status_at-with_status (k ∷ r) f (or_new (find p t)) ∙ sym (strip-status p q (k ∷ r) t e)

-- The status after a node has moved: none at its old name and below, its own at the new name and below.
abbrev pub moved : Option Name → Option Name → TreeNode → ℕ → ℕ
moved (some r) to x s = 0
moved none (some r) x s = status_at r x
moved none none x s = s

alone : (i : Bytes) (r : Name) (x : TreeNode) → status_at (i ∷ r) (without_children x) ≡ 0
unfolding find get
alone i r (node s c) = refl

-- A rename of something to a name where nothing stands moves the statuses of the node and of all below
-- it, and changes no other.
pub status_at-rename :
    (k : Bytes) (o n q : Name) (t x : TreeNode)
    → find (k ∷ o) t ≡ some x
    → find n t ≡ none
    → status_at q (rename (k ∷ o) n t) ≡ moved (strip (k ∷ o) q) (strip n q) x (status_at q t)
unfolding rename
status_at-rename k o n q t x e f =
    rw (e, f, rename)
      (status_at-erase k o q (insert (k ∷ o) without_children (insert n (λ nn. x) t))
        ∙ (ap (λ s. if is_at (strip (k ∷ o) q) then 0 else s)
              (status_at-insert (k ∷ o) q without_children (insert n (λ nn. x) t))
            ∙ go (strip (k ∷ o) q)))
  where
    there : TreeNode
    there = without_children (or_new (find (k ∷ o) (insert n (λ nn. x) t)))

    after : (s : Option Name) → below s x (status_at q t) ≡ moved none s x (status_at q t)
    after none = refl
    after (some r) = refl

    go :
        (s : Option Name)
        → (if is_at s then 0 else below s there (status_at q (insert n (λ nn. x) t)))
          ≡ moved s (strip n q) x (status_at q t)
    go none = status_at-insert n q (λ nn. x) t ∙ after (strip n q)
    go (some []) = refl
    go (some (i ∷ r)) = alone i r (or_new (find (k ∷ o) (insert n (λ nn. x) t)))
