-- ===== src/Btrfs/Tree/Tidy.antt =====
-- The order of the names in a tree (snapper/Btrfs.cc), and that the operations keep it.
use snapper.Base.{
  Bytes, eq_bytes, eq_bytes_iff, eq_bytes_sym, eq-lt_bytes, lt_bytes, lt_bytes_trans,
  lt_bytes_total, ℕ, ◌≡◌, refl, subst, inl, inr, true, ◌&&◌, none, [], ◌∷◌, ◌==◌, arith, Bool-cases,
  Option-cases,
}
use snapper.Btrfs.Tree.{
  TreeNode, node, Children, end, child, Name, status_of, children_of, is_end, get, put, remove,
  find, or_new, insert, drop_empty, drop_child, erase, rename, with_status, without_children,
}

-- Every name is greater than this one.
abbrev pub Above : Bytes → Children → Type 0
Above k end = Unit {0}
Above k (child j x rest) = (lt_bytes k j ≡ true) × Above k rest

-- The names of each node ascend.
abbrev mutual
  pub IsTidy : TreeNode → Type 0
  IsTidy (node s c) = AreTidy c

  pub AreTidy : Children → Type 0
  AreTidy end = Unit {0}
  AreTidy (child k x rest) = Above k rest × IsTidy x × AreTidy rest

Above-trans : (j k : Bytes) (c : Children) → lt_bytes j k ≡ true → Above k c → Above j c
Above-trans j k end h a = tt
Above-trans j k (child i x rest) h a = (lt_bytes_trans j k i h a.0, Above-trans j k rest h a.1)

pub get-Above : (k : Bytes) (c : Children) → Above k c → get k c ≡ none
unfolding get
get-Above k end a = refl
get-Above k (child j x rest) a =
    ground (arith, eq-lt_bytes k j, eq_bytes_sym k j, get-Above k rest a.1)

put-Above :
    (j k : Bytes) (y : TreeNode) (c : Children)
    → lt_bytes j k ≡ true
    → Above j c
    → Above j (put k y c)
unfolding put
put-Above j k y end h a = (h, tt)
put-Above j k y (child i x rest) h a = elim (Bool-cases (eq_bytes i k)) [
  | inl e ↦ rw e a
  | inr e ↦ elim (Bool-cases (lt_bytes k i)) [
    | inl l ↦ rw (e, l) (h, a)
    | inr l ↦ rw (e, l) (a.0, put-Above j k y rest h a.1)
  ]
]

put-AreTidy : (k : Bytes) (y : TreeNode) (c : Children) → IsTidy y → AreTidy c → AreTidy (put k y c)
unfolding put
put-AreTidy k y end t a = (tt, t, tt)
put-AreTidy k y (child i x rest) t a = elim (Bool-cases (eq_bytes i k)) [
  | inl e ↦ rw e (a.0, t, a.2)
  | inr e ↦ elim (Bool-cases (lt_bytes k i)) [
    | inl l ↦ rw (e, l) ((l, Above-trans k i rest l a.0), t, a)
    | inr l ↦
        let less : lt_bytes i k ≡ true = elim (Bool-cases (lt_bytes i k)) [
          | inl m ↦ m
          | inr m ↦ absurd (ground (arith, e, (eq_bytes_iff i k).1 (lt_bytes_total i k m l)))
        ] in
        rw (e, l) (put-Above i k y rest less a.0, a.1, put-AreTidy k y rest t a.2)
  ]
]

remove-Above : (j k : Bytes) (c : Children) → Above j c → Above j (remove k c)
unfolding remove
remove-Above j k end a = tt
remove-Above j k (child i x rest) a = elim (Bool-cases (eq_bytes i k)) [
  | inl e ↦ rw e (remove-Above j k rest a.1)
  | inr e ↦ rw e (a.0, remove-Above j k rest a.1)
]

remove-AreTidy : (k : Bytes) (c : Children) → AreTidy c → AreTidy (remove k c)
unfolding remove
remove-AreTidy k end a = tt
remove-AreTidy k (child i x rest) a = elim (Bool-cases (eq_bytes i k)) [
  | inl e ↦ rw e (remove-AreTidy k rest a.2)
  | inr e ↦ rw e (remove-Above i k rest a.0, a.1, remove-AreTidy k rest a.2)
]

get-IsTidy : (k : Bytes) (c : Children) → AreTidy c → IsTidy (or_new (get k c))
unfolding get
get-IsTidy k end a = tt
get-IsTidy k (child i x rest) a = elim (Bool-cases (eq_bytes i k)) [
  | inl e ↦ rw e a.1
  | inr e ↦ rw e (get-IsTidy k rest a.2)
]

pub find-IsTidy : (p : Name) (t : TreeNode) → IsTidy t → IsTidy (or_new (find p t))
unfolding find
find-IsTidy [] t h = h
find-IsTidy (k ∷ p) (node s c) h = elim (Option-cases (get k c)) [
  | inl e ↦ rw (e, or_new, find) tt
  | inr (x, e) ↦
      rw (e, find) (find-IsTidy p x (subst (λ o. IsTidy (or_new o)) e (get-IsTidy k c h)))
]

pub insert-IsTidy :
    (p : Name) (f : TreeNode → TreeNode) (t : TreeNode)
    → ((x : TreeNode) → IsTidy x → IsTidy (f x))
    → IsTidy t
    → IsTidy (insert p f t)
unfolding insert
insert-IsTidy [] f t h a = h t a
insert-IsTidy (k ∷ p) f (node s c) h a =
    put-AreTidy k (insert p f (or_new (get k c))) c
      (insert-IsTidy p f (or_new (get k c)) h (get-IsTidy k c a)) a

pub status-IsTidy : (g : ℕ → ℕ) (x : TreeNode) → IsTidy x → IsTidy (with_status g x)
status-IsTidy g (node s c) h = h

pub alone-IsTidy : (x : TreeNode) → IsTidy x → IsTidy (without_children x)
alone-IsTidy (node s c) h = tt

drop_empty-AreTidy :
    (k : Bytes) (y : TreeNode) (c : Children) → IsTidy y → AreTidy c → AreTidy (drop_empty k y c)
unfolding drop_empty
drop_empty-AreTidy k y c h a = elim (Bool-cases (status_of y == 0 && is_end (children_of y))) [
  | inl e ↦ rw (e, drop_empty) (remove-AreTidy k c a)
  | inr e ↦ rw (e, drop_empty) (put-AreTidy k y c h a)
]

drop_child-AreTidy :
    (k : Bytes) (x : TreeNode) (c : Children) → IsTidy x → AreTidy c → AreTidy (drop_child k x c)
unfolding drop_child
drop_child-AreTidy k (node n d) c h a = elim (Bool-cases (is_end d)) [
  | inl e ↦ rw (e, drop_child) (remove-AreTidy k c a)
  | inr e ↦ rw (e, drop_child) (put-AreTidy k (node 0 d) c h a)
]

pub erase-IsTidy : (p : Name) (t : TreeNode) → IsTidy t → IsTidy (erase p t)
unfolding erase
erase-IsTidy [] t h = h
erase-IsTidy (k ∷ []) (node s c) h = elim (Option-cases (get k c)) [
  | inl e ↦ rw (e, erase) h
  | inr (x, e) ↦
      rw (e, erase)
        (drop_child-AreTidy k x c (subst (λ o. IsTidy (or_new o)) e (get-IsTidy k c h)) h)
]
erase-IsTidy (k ∷ m ∷ p) (node s c) h = elim (Option-cases (get k c)) [
  | inl e ↦ rw (e, erase) h
  | inr (x, e) ↦
      rw (e, erase)
        (drop_empty-AreTidy k (erase (m ∷ p) x) c
          (erase-IsTidy (m ∷ p) x (subst (λ o. IsTidy (or_new o)) e (get-IsTidy k c h))) h)
]

pub rename-IsTidy : (o n : Name) (t : TreeNode) → IsTidy t → IsTidy (rename o n t)
unfolding rename
rename-IsTidy o n t h = elim (Option-cases (find o t)) [
  | inl e ↦ rw (e, rename) h
  | inr (x, e) ↦ elim (Option-cases (find n t)) [
    | inr (y, f) ↦ rw (e, f, rename) h
    | inl f ↦
        let good : IsTidy x = subst (λ o. IsTidy (or_new o)) e (find-IsTidy o t h) in
        rw (e, f, rename)
          (erase-IsTidy o _ (
            insert-IsTidy o without_children _ alone-IsTidy
              (insert-IsTidy n (λ nn. x) t (λ y q. good) h)))
  ]
]
