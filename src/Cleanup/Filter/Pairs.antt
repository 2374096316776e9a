-- ===== src/Cleanup/Filter/Pairs.antt =====
-- filter_pre_post of client/cleanup.cc never separates a pre snapshot from its post snapshot.
use snapper.Base.{
  ℕ, ◌≡◌, refl, sym, ◌∙◌, true, false, some, List, [], ◌∷◌, arith, ◌==◌, In, In-filter_by,
  filter_by-In, find_if-some, find_if-none, Bool-cases, subst, ==_iff, Option-cases, inl, inr,
}
use snapper.Snapshot.{Snapshot, is_pre, is_post, HasUniquePosts}
use snapper.Proxy.{find_pre, find_post}
use snapper.Cleanup.Filter.{has_num, filter_pre_post, HasUniqueNums}

not_both : (s : Snapshot) → is_pre s.type ≡ true → is_post s.type ≡ false
not_both s h = ground arith

has_num_find :
    (n : ℕ) (l : List Snapshot) → has_num n l ≡ true → (a : Snapshot) × In a l × (a.num ≡ n)
has_num_find n [] h = cc
has_num_find n (x ∷ l) h = elim (Bool-cases (x.num == n)) [
  | inl e ↦ (x, inl refl, (==_iff x.num n).0 e)
  | inr e ↦ let (a, m, q) = has_num_find n l (ground arith) in (a, inr m, q)
]

In-has_num : (a : Snapshot) (l : List Snapshot) → In a l → has_num a.num l ≡ true
In-has_num a [] h = absurd h
In-has_num a (x ∷ l) h = ground (arith, In-has_num a l)

find_post_sound :
    (l : List Snapshot) (s p : Snapshot)
    → find_post l s ≡ some p
    → In p l × (is_post p.type ≡ true) × (p.pre_num ≡ s.num)
find_post_sound l s p h = let e = find_if-some _ l p h in (e.0, ground arith, ground arith)

find_pre_sound :
    (l : List Snapshot) (s p : Snapshot)
    → find_pre l s ≡ some p
    → In p l × (is_pre p.type ≡ true) × (p.num ≡ s.pre_num)
find_pre_sound l s p h = let e = find_if-some _ l p h in (e.0, ground arith, ground arith)

-- A search that some entry answers does not fail.
find_pre_complete :
    (l : List Snapshot) (s p : Snapshot)
    → In s l
    → is_pre s.type ≡ true
    → s.num ≡ p.pre_num
    → (q : Snapshot) × (find_pre l p ≡ some q)
find_pre_complete l s p m t e = elim (Option-cases (find_pre l p)) [
  | inl f ↦ absurd (ground (arith, find_if-none _ l s f m))
  | inr f ↦ f
]

find_post_complete :
    (l : List Snapshot) (s p : Snapshot)
    → In p l
    → is_post p.type ≡ true
    → p.pre_num ≡ s.num
    → (q : Snapshot) × (find_post l s ≡ some q)
find_post_complete l s p m t e = elim (Option-cases (find_post l s)) [
  | inl f ↦ absurd (ground (arith, find_if-none _ l p f m))
  | inr f ↦ f
]

module _ (l tmp : List Snapshot) (unique : HasUniqueNums l)
    (sub : (a : Snapshot) → In a tmp → In a l) where
  -- A candidate with the number of an entry is that entry.
  candidate_of : (p : Snapshot) → In p l → has_num p.num tmp ≡ true → In p tmp
  candidate_of p m h =
      let (a, n, e) = has_num_find p.num tmp h in subst (λ x. In x tmp) (unique a p (sub a n) m e) n

  pre_keeps_post :
      (s p : Snapshot)
      → In s (filter_pre_post l tmp)
      → is_pre s.type ≡ true
      → find_post l s ≡ some p
      → In p (filter_pre_post l tmp)
  unfolding filter_pre_post
  pre_keeps_post s p m t f =
      let (n, k) = In-filter_by _ s tmp m in
      let (pm, pt, pe) = find_post_sound l s p f in
      let (q, g) = find_pre_complete l s p (sub s n) t (sym pe) in
      let (qm, qt, qe) = find_pre_sound l p q g in
      filter_by-In _ p tmp (candidate_of p pm (ground arith))
        (ground (arith, In-has_num s tmp n, unique q s qm (sub s n) (qe ∙ pe)))

  post_keeps_pre :
      (s p : Snapshot)
      → HasUniquePosts l
      → In s (filter_pre_post l tmp)
      → is_post s.type ≡ true
      → find_pre l s ≡ some p
      → In p (filter_pre_post l tmp)
  unfolding filter_pre_post
  post_keeps_pre s p posts m t f =
      let (n, k) = In-filter_by _ s tmp m in
      let (pm, pt, pe) = find_pre_sound l s p f in
      let (q, g) = find_post_complete l p s (sub s n) t (sym pe) in
      let (qm, qt, qe) = find_post_sound l p q g in
      filter_by-In _ p tmp (candidate_of p pm (ground arith))
        (ground (arith, In-has_num s tmp n, posts q s qm (sub s n) qt t (qe ∙ pe)))

-- In a list where a number names one snapshot and a pre snapshot has at most one post snapshot, the
-- filter keeps the two snapshots of a pair together: the post snapshot that is found for a kept pre
-- snapshot is kept, and so is the pre snapshot that is found for a kept post snapshot.
pub pairs_stay_together :
    (l tmp : List Snapshot)
    → HasUniqueNums l
    → HasUniquePosts l
    → ((a : Snapshot) → In a tmp → In a l)
    → (s p : Snapshot) → In s (filter_pre_post l tmp)
    → (is_pre s.type ≡ true → find_post l s ≡ some p → In p (filter_pre_post l tmp))
      × (is_post s.type ≡ true → find_pre l s ≡ some p → In p (filter_pre_post l tmp))
pairs_stay_together l tmp unique posts sub s p m = (
  λ t f. pre_keeps_post l tmp unique sub s p m t f,
  λ t f. post_keeps_pre l tmp unique sub s p posts m t f,
)
