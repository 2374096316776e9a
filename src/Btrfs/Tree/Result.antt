-- ===== src/Btrfs/Tree/Result.antt =====
-- tree_node::check and tree_node::result (snapper/Btrfs.cc) by the statuses of the names.
use snapper.Base.{
  Bytes, eq_bytes, eq_bytes_iff, eq_bytes_refl, ℕ, ◌≡◌, ◌≢◌, refl, sym, ap, ◌∙◌, subst, ◌⊎◌, inl,
  inr, none, List, [], ◌∷◌, ◌++◌, ◌==◌, if◌then◌else◌, arith, In, In-append, append_left-In,
  append_right-In, Bool-cases,
}
use mathlib.Core.List.{append_assoc, append-nil}
use snapper.Btrfs.Tree.{
  TreeNode, node, Children, end, child, Name, status_of, get, find, report, result,
}
use snapper.Btrfs.Tree.Lookup.{status_at, status_at-child, status_at-nothing}
use snapper.Btrfs.Tree.Tidy.{Above, AreTidy, get-Above}

-- What is to be reported: each name below the top with a status that is not 0.
abbrev pub Shown : TreeNode → Name → ℕ → Type 0
Shown t [] s = ⊥
Shown t (k ∷ q) s = (status_at (k ∷ q) t ≡ s) × (s ≢ 0)

-- The calls are those that S holds of, with names continued from a prefix.
abbrev pub Reports : List (Name × ℕ) → Name → (Name → ℕ → Type 0) → Type 0
Reports l prefix S =
    ((e : Name × ℕ) → In e l → (q : Name) × (s : ℕ) × (e ≡ (prefix ++ q, s)) × S q s)
    × ((q : Name) (s : ℕ) → S q s → In (prefix ++ q, s) l)

module _ (prefix : Name) where
  Reports-map :
      {S T : Name → ℕ → Type 0}
      → (l : List (Name × ℕ)) → ((q : Name) (s : ℕ) → S q s → T q s)
      → ((q : Name) (s : ℕ) → T q s → S q s)
      → Reports l prefix S
      → Reports l prefix T
  Reports-map l f g h =
      (λ e m. let (q, s, p, k) = h.0 e m in (q, s, p, f q s k), λ q s k. h.1 q s (g q s k))

  Reports-append :
      {S T : Name → ℕ → Type 0}
      → (l r : List (Name × ℕ)) → Reports l prefix S
      → Reports r prefix T
      → Reports (l ++ r) prefix (λ q s. S q s ⊎ T q s)
  Reports-append l r h k = (
    λ e m. elim (In-append e l r m) [
      | inl n ↦ let (q, s, p, x) = h.0 e n in (q, s, p, inl x)
      | inr n ↦ let (q, s, p, x) = k.0 e n in (q, s, p, inr x)
    ],
    λ q s x. elim x [
      | inl y ↦ append_left-In _ l r (h.1 q s y)
      | inr y ↦ append_right-In _ l r (k.1 q s y)
    ],
  )

  Reports-under :
      {S : Name → ℕ → Type 0}
      → (l : List (Name × ℕ)) (k : Bytes) → Reports l (prefix ++ k ∷ []) S
      → Reports l prefix (λ q s. (r : Name) × (q ≡ k ∷ r) × S r s)
  Reports-under l k h = (
    λ e m.
        let (q, s, p, x) = h.0 e m in
        (k ∷ q, s, p ∙ ap (λ n. (n, s)) (append_assoc prefix (k ∷ []) q), (q, refl, x)),
    λ q s (r, p, x).
        subst (λ n. In (n, s) l) (append_assoc prefix (k ∷ []) r ∙ ap (λ n. prefix ++ n) (sym p))
          (h.1 r s x),
  )

  Reports-report : (s : ℕ) → Reports (report prefix s) prefix (λ q n. (q ≡ []) × (n ≡ s) × (n ≢ 0))
  Reports-report s = elim (Bool-cases (s == 0)) [
    | inl e ↦ rw e (λ e m. absurd m, λ q n (a, b, c). absurd (c (ground (arith, e, b))))
    | inr e ↦ rw e (
      λ p m. elim m [
        | inl p ↦
            ([], s, p ∙ ap (λ n. (n, s)) (sym (append-nil prefix)), (refl, refl, ground (arith, e)))
        | inr n ↦ absurd n
      ],
      λ q n (a, b, c). inl (rw (a, b) (ap (λ m. (m, s)) (append-nil prefix))),
    )
  ]

-- A name of two parts, by the first child.
pub status_at-first :
    (j k : Bytes) (q : Name) (s : ℕ) (x : TreeNode) (rest : Children)
    → status_at (j ∷ q) (node s (child k x rest))
      ≡ (if eq_bytes k j then status_at q x else status_at (j ∷ q) (node s rest))
unfolding get
status_at-first j k q s x rest =
    status_at-child j q s (child k x rest) ∙ elim (Bool-cases (eq_bytes k j)) [
      | inl e ↦ rw e refl
      | inr e ↦ rw e (sym (status_at-child j q s rest))
    ]

-- The calls are made for one child: for it, for what is below it and for the other children.
module _ (k : Bytes) (s : ℕ) (x : TreeNode) (rest : Children) (above : Above k rest) where
  abbrev Parts : Name → ℕ → Type 0
  Parts q n =
      ((r : Name) × (q ≡ k ∷ r) × ((r ≡ []) × (n ≡ status_of x) × (n ≢ 0)))
      ⊎ (((r : Name) × (q ≡ k ∷ r) × Shown x r n) ⊎ Shown (node s rest) q n)

  first : (q : Name) → status_at (k ∷ q) (node s (child k x rest)) ≡ status_at q x
  first q = status_at-first k k q s x rest ∙ rw (eq_bytes_refl k) refl

  Parts-Shown : (q : Name) (n : ℕ) → Parts q n → Shown (node s (child k x rest)) q n
  unfolding find
  Parts-Shown q n (inl (r, p, (a, b, c))) =
      subst (λ m. Shown (node s (child k x rest)) m n) (sym (p ∙ ap (λ m. k ∷ m) a))
        (first [] ∙ sym b, c)
  Parts-Shown q n (inr (inl ([], p, h))) = absurd h
  Parts-Shown q n (inr (inl (i ∷ r, p, h))) =
      subst (λ m. Shown (node s (child k x rest)) m n) (sym p) (first (i ∷ r) ∙ h.0, h.1)
  Parts-Shown [] n (inr (inr h)) = absurd h
  Parts-Shown (j ∷ q) n (inr (inr h)) = elim (Bool-cases (eq_bytes k j)) [
    | inr e ↦ (status_at-first j k q s x rest ∙ rw e h.0, h.1)
    | inl e ↦
        let none_here : get j rest ≡ none =
          subst (λ i. get i rest ≡ none) ((eq_bytes_iff k j).0 e) (get-Above k rest above) in
        absurd (h.1 (sym h.0 ∙ (status_at-child j q s rest ∙ rw none_here (status_at-nothing q))))
  ]

  Shown-Parts : (q : Name) (n : ℕ) → Shown (node s (child k x rest)) q n → Parts q n
  unfolding find
  Shown-Parts [] n h = absurd h
  Shown-Parts (j ∷ q) n h = elim (Bool-cases (eq_bytes k j)) [
    | inr e ↦ inr (inr (sym (status_at-first j k q s x rest ∙ rw e refl) ∙ h.0, h.1))
    | inl e ↦
        let same : j ∷ q ≡ k ∷ q = ap (λ i. i ∷ q) (sym ((eq_bytes_iff k j).0 e)) in
        let value : status_at q x ≡ n = sym (status_at-first j k q s x rest ∙ rw e refl) ∙ h.0 in
        below q same value
  ]
    where
      below : (r : Name) → j ∷ q ≡ k ∷ r → status_at r x ≡ n → Parts (j ∷ q) n
      below [] p v = inl ([], p, (refl, sym v, h.1))
      below (i ∷ r) p v = inr (inl (i ∷ r, p, (v, h.1)))

-- tree_node::result calls the callback for exactly the names with a status that is not 0.
pub result-Reports :
    (prefix : Name) (s : ℕ) (c : Children)
    → AreTidy c
    → Reports (result prefix (node s c)) prefix (Shown (node s c))
unfolding result get
result-Reports prefix s end h = (λ e m. absurd m, λ q n k. absurd (nothing q n k))
  where
    nothing : (q : Name) (n : ℕ) → Shown (node s end) q n → ⊥
    nothing [] n k = k
    nothing (j ∷ q) n k = k.1 (sym k.0 ∙ (status_at-child j q s end ∙ status_at-nothing q))
result-Reports prefix s (child k (node n d) rest) h =
    Reports-map prefix _ (Parts-Shown k s (node n d) rest h.0) (Shown-Parts k s (node n d) rest h.0)
      (Reports-append prefix _ _ (Reports-under prefix _ k (Reports-report (prefix ++ k ∷ []) n)) (
        Reports-append prefix _ _
          (Reports-under prefix _ k (result-Reports (prefix ++ k ∷ []) n d h.1))
          (result-Reports prefix s rest h.2)))
