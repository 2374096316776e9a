-- ===== src/Cleanup/EmptyPrePost.antt =====
-- client/cleanup.cc: EmptyPrePostCleaner. Whether the comparison of two snapshots finds no file
-- (ProxyComparison::getFiles().empty()) is the parameter `no_files`.
use snapper.Base.{
  true, In-append, append_left-In, append_right-In, subst, ◌↔◌, In, inl, inr, ◌⊎◌, arith, refl, ◌≡◌,
  Option-cases, Bool, none, some, List, [], ◌∷◌, ◌++◌, if◌then◌else◌,
}
use snapper.Snapshot.{Snapshot, is_pre}
use snapper.Proxy.{find_post}

module _ (no_files : Snapshot → Snapshot → Bool) where
  -- The two push_back of the loop body, or none.
  pub empty_pair : List Snapshot → Snapshot → List Snapshot
  empty_pair snapshots it1 =
      if is_pre it1.type
      then elim (find_post snapshots it1) [
        | none ↦ []
        | some it2 ↦ if no_files it1 it2 then it1 ∷ it2 ∷ [] else []
      ]
      else []

  -- The loop over `rest`, the part of the list that is left.
  pub pairs_of : List Snapshot → List Snapshot → List Snapshot
  pairs_of snapshots [] = []
  pairs_of snapshots (it1 ∷ rest) = empty_pair snapshots it1 ++ pairs_of snapshots rest

  -- EmptyPrePostCleaner::calculate_candidates
  pub calculate_candidates : List Snapshot → List Snapshot
  unfolding pairs_of empty_pair
  calculate_candidates snapshots = pairs_of snapshots snapshots

  -- A pre snapshot of the list, the post snapshot that is found for it, and no file between them.
  abbrev pub IsEmptyPair : List Snapshot → Snapshot → Snapshot → Type 0
  IsEmptyPair snapshots a b =
      (is_pre a.type ≡ true) × (find_post snapshots a ≡ some b) × (no_files a b ≡ true)

  empty_pair-In :
      (l : List Snapshot) (a s : Snapshot)
      → In s (empty_pair l a)
      → (b : Snapshot) × IsEmptyPair l a b × ((s ≡ a) ⊎ (s ≡ b))
  unfolding empty_pair
  empty_pair-In l a s m = elim (Option-cases (find_post l a)) [
    | inl e ↦ absurd (ground arith)
    | inr (b, e) ↦ (b, (ground arith, e, ground arith), ground arith)
  ]

  In-empty_pair :
      (l : List Snapshot) (a b s : Snapshot)
      → IsEmptyPair l a b
      → (s ≡ a) ⊎ (s ≡ b)
      → In s (empty_pair l a)
  unfolding empty_pair
  In-empty_pair l a b s h k = ground (arith, h.0, h.1, h.2)

  pairs_of-In :
      (l rest : List Snapshot) (s : Snapshot)
      → In s (pairs_of l rest)
      → (a b : Snapshot) × In a rest × IsEmptyPair l a b × ((s ≡ a) ⊎ (s ≡ b))
  unfolding pairs_of
  pairs_of-In l [] s m = absurd m
  pairs_of-In l (x ∷ rest) s m = elim (In-append s (empty_pair l x) (pairs_of l rest) m) [
    | inl n ↦ let (b, h, k) = empty_pair-In l x s n in (x, b, inl refl, h, k)
    | inr n ↦ let (a, b, i, h, k) = pairs_of-In l rest s n in (a, b, inr i, h, k)
  ]

  In-pairs_of :
      (l rest : List Snapshot) (a b s : Snapshot)
      → In a rest
      → IsEmptyPair l a b
      → (s ≡ a) ⊎ (s ≡ b)
      → In s (pairs_of l rest)
  unfolding pairs_of
  In-pairs_of l [] a b s m h k = absurd m
  In-pairs_of l (x ∷ rest) a b s (inl e) h k =
      append_left-In s (empty_pair l x) (pairs_of l rest)
        (subst (λ y. In s (empty_pair l y)) e (In-empty_pair l a b s h k))
  In-pairs_of l (x ∷ rest) a b s (inr m) h k =
      append_right-In s (empty_pair l x) (pairs_of l rest) (In-pairs_of l rest a b s m h k)

  -- A snapshot is a candidate exactly when it is a pre snapshot of the list, or the post snapshot that
  -- is found for one, and there is no file in the comparison of the two.
  pub empty_candidates_iff :
      (l : List Snapshot) (s : Snapshot)
      → In s (calculate_candidates l)
        ↔ ((a b : Snapshot) × In a l × IsEmptyPair l a b × ((s ≡ a) ⊎ (s ≡ b)))
  unfolding calculate_candidates
  empty_candidates_iff l s =
      (λ m. pairs_of-In l l s m, λ (a, b, i, h, k). In-pairs_of l l a b s i h k)
