-- ===== src/Files/Attributes/Fails.antt =====
-- What File::modifyXattributes (snapper/File.cc) leaves when a call fails.
use snapper.Base.{
  subst, Bytes, eq_bytes, eq_bytes_iff, find_key, IsMap, ◌≡◌, refl, sym, Bool, true, false, Option,
  none, some, List, [], ◌∷◌, arith, All, Bool-cases, Option-cases, inl, inr, ◌⊎◌,
}
use snapper.Files.Attributes.{
  Xamap, Attributes, XaModification, difference, is_acl, filter_out_acls, change, set_new, set_old,
  remove, create_loop, delete_loop, replace_loop, and_then, modify_xattributes,
}
use snapper.Files.Attributes.Difference.{has, difference-IsOrdered, difference-Holds}
use snapper.Files.Attributes.Loops.{All-find_key, All-has, serialize_to_lem}
use snapper.Files.Attributes.Filtered.{filter-IsMap, Filtered, filtered}

-- A property of every value that a loop may write, and of every value at its start, holds at its end.
module _ (fails : Bytes → Bool) (Kept : Bytes → Option Bytes → Type 0) where
  change-Kept :
      (k : Bytes) (o : Option Bytes) (f : Attributes)
      → Kept k o
      → ((j : Bytes) → Kept j (f j))
      → (j : Bytes) → Kept j (change f k o j)
  change-Kept k o f h g j = elim (Bool-cases (eq_bytes j k)) [
    | inl e ↦ rw e (subst (λ i. Kept i o) (sym ((eq_bytes_iff j k).0 e)) h)
    | inr e ↦ rw e (g j)
  ]

  create_loop-Kept :
      (m : Xamap) (f : Attributes)
      → All (λ p. Kept p.0 (some p.1)) m
      → ((j : Bytes) → Kept j (f j))
      → (j : Bytes) → Kept j ((create_loop fails m f).1 j)
  unfolding create_loop
  create_loop-Kept [] f h g = g
  create_loop-Kept ((k, v) ∷ m) f h g = elim (Option-cases (set_new fails k v f)) [
    | inl e ↦ rw (e, create_loop) g
    | inr (f', e) ↦
        let q : f' ≡ change f k (some v) = ground arith in
        rw (e, q, create_loop)
          (create_loop-Kept m (change f k (some v)) h.1 (change-Kept k (some v) f h.0 g))
  ]

  replace_loop-Kept :
      (m : Xamap) (f : Attributes)
      → All (λ p. Kept p.0 (some p.1)) m
      → ((j : Bytes) → Kept j (f j))
      → (j : Bytes) → Kept j ((replace_loop fails m f).1 j)
  unfolding replace_loop
  replace_loop-Kept [] f h g = g
  replace_loop-Kept ((k, v) ∷ m) f h g = elim (Option-cases (set_old fails k v f)) [
    | inl e ↦ rw (e, replace_loop) g
    | inr (f', e) ↦
        let q : f' ≡ change f k (some v) = ground arith in
        rw (e, q, replace_loop)
          (replace_loop-Kept m (change f k (some v)) h.1 (change-Kept k (some v) f h.0 g))
  ]

  delete_loop-Kept :
      (m : List Bytes) (f : Attributes)
      → All (λ k. Kept k none) m
      → ((j : Bytes) → Kept j (f j))
      → (j : Bytes) → Kept j ((delete_loop fails m f).1 j)
  unfolding delete_loop
  delete_loop-Kept [] f h g = g
  delete_loop-Kept (k ∷ m) f h g = elim (Option-cases (remove fails k f)) [
    | inl e ↦ rw (e, delete_loop) g
    | inr (f', e) ↦
        let q : f' ≡ change f k (none) = ground arith in
        rw (e, q, delete_loop)
          (delete_loop-Kept m (change f k (none)) h.1 (change-Kept k (none) f h.0 g))
  ]

  and_then-Kept :
      (o : Bool × Attributes) (next : Attributes → Bool × Attributes)
      → ((j : Bytes) → Kept j (o.1 j))
      → ((g : Attributes) → ((j : Bytes) → Kept j (g j)) → (j : Bytes) → Kept j ((next g).1 j))
      → (j : Bytes) → Kept j ((and_then fails o next).1 j)
  and_then-Kept (true, f) next g h = h f g
  and_then-Kept (false, f) next g h = g

  loops-Kept :
      (c r : Xamap) (d : List Bytes) (f : Attributes)
      → All (λ p. Kept p.0 (some p.1)) c
      → All (λ k. Kept k none) d
      → All (λ p. Kept p.0 (some p.1)) r
      → ((j : Bytes) → Kept j (f j))
      → (j : Bytes)
      → Kept j (
          (and_then fails
              (and_then fails (create_loop fails c f) (delete_loop fails d))
              (replace_loop fails r)).1
            j)
  loops-Kept c r d f hc hd hr g =
      and_then-Kept (and_then fails (create_loop fails c f) (delete_loop fails d))
        (replace_loop fails r)
        (and_then-Kept (create_loop fails c f) (delete_loop fails d) (create_loop-Kept c f hc g)
          (λ g k. delete_loop-Kept d g hd k))
        (λ g k. replace_loop-Kept r g hr k)

-- Each vector holds values of the source, for names that are not of ACLs.
module _ (l : List Bytes) (j : Bytes) (y : XaModification) (s d : Option Bytes)
    (h : Filtered l j y s d) where
  from_created :
      (v : Bytes) → find_key j y.create_vec ≡ some v → (is_acl l j ≡ false) × (some v ≡ s)
  from_created v q = ground (arith, h.0)

  from_deleted : has j y.delete_vec ≡ true → (is_acl l j ≡ false) × (none ≡ s)
  from_deleted q = ground (arith, h.1)

  from_replaced :
      (v : Bytes) → find_key j y.replace_vec ≡ some v → (is_acl l j ≡ false) × (some v ≡ s)
  from_replaced v q = ground (arith, h.2)

-- For maps in ascending order, whatever calls fail, each attribute of the file is afterwards as it was
-- or as in the source, and those of ACLs are as they were.
pub modify_xattributes_fails :
    (fails : Bytes → Bool) (signatures : List Bytes) (xa_src xa_dest : Xamap) (f : Attributes)
    → IsMap xa_src
    → IsMap xa_dest
    → (j : Bytes)
    → ((modify_xattributes fails signatures xa_src xa_dest f).1 j ≡ f j)
      ⊎ ((is_acl signatures j ≡ false)
          × ((modify_xattributes fails signatures xa_src xa_dest f).1 j ≡ find_key j xa_src))
unfolding modify_xattributes
modify_xattributes_fails fails signatures xa_src xa_dest f ms md =
    let x = difference xa_src xa_dest in
    let (oc, od, or) = difference-IsOrdered xa_src xa_dest ms md in
    let y = filter_out_acls signatures x in
    let holds : (j : Bytes) → Filtered signatures j y (find_key j xa_src) (find_key j xa_dest) =
      λ j. filtered signatures j x _ _ (difference-Holds j xa_src xa_dest ms md) in
    let Kept = λ (j : Bytes) (o : Option Bytes).
      (o ≡ f j) ⊎ ((is_acl signatures j ≡ false) × (o ≡ find_key j xa_src)) in
    rw (serialize_to_lem fails y.create_vec y.replace_vec y.delete_vec f) (
      loops-Kept fails Kept y.create_vec y.replace_vec y.delete_vec f
        (All-find_key Kept y.create_vec (filter-IsMap signatures x.create_vec oc)
          (λ j v q. inr (from_created signatures j y _ _ (holds j) v q)))
        (All-has (λ j. Kept j none) y.delete_vec
          (λ j q. inr (from_deleted signatures j y _ _ (holds j) q)))
        (All-find_key Kept y.replace_vec (filter-IsMap signatures x.replace_vec or)
          (λ j v q. inr (from_replaced signatures j y _ _ (holds j) v q)))
        (λ j. inl refl))
