-- ===== src/Snapshots/History.antt =====
-- Properties of several operations of class Snapshots (snapper/Snapshot.cc) in a row: when a number
-- is given out again, and when it is not; and at most one post snapshot for each pre snapshot.
use snapper.Base.{
  ℕ, ◌+◌, ◌<◌, ◌≡◌, refl, Bool, true, false, not, ◌||◌, Option, none, some, List, [], ◌∷◌, ◌++◌,
  arith, ◌==◌, In, inl, inr, ◌⊎◌, All, Bool-cases, Option-cases, In-append, find_if-none,
}
use snapper.Base.Int.{ℤ}
use snapper.Snapshot.{Snapshot, SnapshotType, post, is_pre, is_current, HasUniquePosts}
use snapper.Snapshots.Store.{
  Filesystem, Dirs, Os, Store, nums, has_dir, has_info, last_num, find_post, check_userdata,
}
use snapper.Snapshots.Number.{Search, found, failed, exhausted, next_number, top, unsigned_mod}
use snapper.Snapshots.Number.Fresh.{next_number_found}
use snapper.Snapshots.Create.{
  Scd, snapshot_of, create_filesystem_snapshot, undo_create, create_other, create_helper,
  with_number, create, create_post_snapshot,
}
use snapper.Snapshots.Create.Ordered.{IsValid}
use snapper.Snapshots.Delete.{delete_snapshot}
use snapper.Snapshots.Delete.Keeps.{delete_keeps_top}

has_dir_of_info : (n : ℕ) (dirs : Dirs) → has_info n dirs ≡ true → has_dir n dirs ≡ true
has_dir_of_info n [] h = h
has_dir_of_info n ((m, none) ∷ dirs) h = ground (arith, has_dir_of_info n dirs)
has_dir_of_info n ((m, some i) ∷ dirs) h = ground (arith, has_dir_of_info n dirs)

has_dir-lt : (n b : ℕ) (dirs : Dirs) → All (λ x. x < b) (nums dirs) → has_dir n dirs ≡ true → n < b
has_dir-lt n b [] a h = cc
has_dir-lt n b ((m, i) ∷ dirs) a h = ground (arith, has_dir-lt n b dirs a.1)

last-In :
    (x : Snapshot) (l : List Snapshot) → (s : Snapshot) × In s (x ∷ l) × (s.num ≡ last_num (x ∷ l))
last-In x [] = (x, inl refl, refl)
last-In x (y ∷ l) = let (s, m, e) = last-In y l in (s, inr m, e)

last_dir :
    (fs : Filesystem) (st : Store fs)
    → IsValid fs st
    → (l : List Snapshot) → st.entries ≡ l
    → (last_num l ≡ 0) ⊎ (has_dir (last_num l) st.dirs ≡ true)
last_dir fs st valid [] e = inl refl
last_dir fs st valid (x ∷ l) e =
    let (s, m, q) = last-In x l in
    elim (Bool-cases (last_num (x ∷ l) == 0)) [
      | inl z ↦ inl (ground arith)
      | inr z ↦
          let (_, b) = valid.recorded s (rw e m) (ground arith) in
          inr (rw (← q) (has_dir_of_info s.num st.dirs b))
    ]

module _ (fs : Filesystem) (os : Os) where
  -- With UNIQUE_NUMBERS and from a well-formed store, a number that nextNumber gives out after a deletion is larger than every number
  -- in the list before the deletion, also where the deletion was of the highest one, and whether the
  -- deletion succeeded or threw, as long as no number wraps within the fuel.
  pub number_after_delete :
      (s : Snapshot) (st : Store fs) (fuel n : ℕ) (dirs' : Dirs)
      → IsValid fs st
      → (let t = (delete_snapshot fs true (some s) st).1 in
          top fs os t.entries t.dirs + fuel < unsigned_mod)
      → (let t = (delete_snapshot fs true (some s) st).1 in
          next_number fs os fuel t.entries t.disk t.dirs ≡ (found n, dirs'))
      → last_num st.entries < n
  number_after_delete s st fuel n dirs' valid w e =
      let t = (delete_snapshot fs true (some s) st).1 in
      let (a, b, _, _, _) = next_number_found fs os fuel n t.entries t.disk t.dirs dirs' w e in
      elim (last_dir fs st valid st.entries refl) [
        | inl z ↦ omega arith
        | inr d ↦ has_dir-lt (last_num st.entries) n t.dirs b (delete_keeps_top fs true s st refl d)
      ]

  -- The list after a creation is the list before, or that with the new snapshot at its end.
  abbrev Appends : List Snapshot → (ℕ → Snapshot) → List Snapshot → Type 0
  Appends l new l' = (l' ≡ l) ⊎ ((n : ℕ) × (l' ≡ l ++ new n ∷ []))

  undo_create-entries :
      (s : Snapshot) (st : Store fs) → (undo_create fs os s st).1.entries ≡ st.entries
  unfolding undo_create
  undo_create-entries s st = ground arith

  create_other-entries :
      (s : Snapshot) (parent : Option ℕ) (empty : Bool) (st : Store fs)
      → ((create_other fs os s parent empty st).1.entries ≡ st.entries)
        ⊎ ((create_other fs os s parent empty st).1.entries ≡ st.entries ++ s ∷ [])
  unfolding create_other
  create_other-entries s parent empty st =
      elim (Option-cases (create_filesystem_snapshot fs os s parent empty st.disk)) [
        | inl e ↦ rw (e, create_other) (inl refl)
        | inr (d, e) ↦ elim (Bool-cases (os.write_fails s.num)) [
          | inl w ↦ rw (e, w, create_other) (inl (undo_create-entries s (record st { disk = d })))
          | inr w ↦ rw (e, w, create_other) (inr refl)
        ]
      ]

  create_helper-entries :
      (s : Snapshot) (parent : Option ℕ) (empty : Bool) (st : Store fs)
      → ((create_helper fs os s parent empty st).1.entries ≡ st.entries)
        ⊎ ((create_helper fs os s parent empty st).1.entries ≡ st.entries ++ s ∷ [])
  unfolding create_helper
  create_helper-entries s parent empty st = elim (Bool-cases (is_current s)) [
    | inl c ↦ rw (c, create_helper) (inl refl)
    | inr c ↦ rw (c, create_helper) (create_other-entries s parent empty st)
  ]

  create-entries :
      (fuel : ℕ) (type : SnapshotType) (pre_num : ℕ) (now : ℤ) (scd : Scd) (parent : Option ℕ)
      (empty : Bool) (st : Store fs)
      → Appends st.entries
          (λ n. snapshot_of type n pre_num now scd)
          (create fs os fuel type pre_num now scd parent empty st).1.entries
  unfolding create
  create-entries fuel type pre_num now scd parent empty st =
      elim (Bool-cases (check_userdata scd.userdata)) [
        | inl e ↦ rw (e, create) (by_number (next_number fs os fuel st.entries st.disk st.dirs))
        | inr e ↦ rw (e, create) (inl refl)
      ]
    where
      by_number :
          (r : Search × Dirs)
          → Appends st.entries
              (λ n. snapshot_of type n pre_num now scd)
              (with_number fs os type pre_num now scd parent empty st r).1.entries
      by_number (found n, dirs) =
          elim (create_helper-entries (snapshot_of type n pre_num now scd) parent empty
            (record st { dirs = dirs })) [ inl e ↦ inl e | inr e ↦ inr (n, e) ]
      by_number (failed e, dirs) = inl refl
      by_number (exhausted, dirs) = inl refl

  unique-snoc :
      (l : List Snapshot) (p new : Snapshot)
      → HasUniquePosts l
      → find_post p l ≡ none
      → new.pre_num ≡ p.num
      → HasUniquePosts (l ++ new ∷ [])
  unique-snoc l p new u f e a b ma mb ta tb q = elim (In-append a l (new ∷ []) ma) [
    | inl oa ↦ elim (In-append b l (new ∷ []) mb) [
      | inl ob ↦ u a b oa ob ta tb q
      | inr nb ↦ absurd (ground (arith, find_if-none _ l a f oa))
    ]
    | inr na ↦ elim (In-append b l (new ∷ []) mb) [
      | inl ob ↦ absurd (ground (arith, find_if-none _ l b f ob))
      | inr nb ↦ ground arith
    ]
  ]

  -- Creating a post snapshot for any argument keeps it so that a pre snapshot has at most one post
  -- snapshot in the list, whether the creation returns or throws.
  pub create_post_unique :
      (fuel : ℕ) (pre : Option Snapshot) (now : ℤ) (scd : Scd) (st : Store fs)
      → HasUniquePosts st.entries
      → HasUniquePosts (create_post_snapshot fs os fuel pre now scd st).1.entries
  unfolding create_post_snapshot
  create_post_unique fuel none now scd st u = u
  create_post_unique fuel (some p) now scd st u =
      elim (Bool-cases (is_current p || not (is_pre p.type))) [
        | inl c ↦ rw (c, create_post_snapshot) u
        | inr c ↦ elim (Option-cases (find_post p st.entries)) [
          | inr (q, f) ↦ rw (c, f, create_post_snapshot) u
          | inl f ↦
              rw (c, f, create_post_snapshot)
                (elim (create-entries fuel post p.num now scd (some 0) false st) [
                  | inl e ↦ rw e u
                  | inr (n, e) ↦
                      rw e (unique-snoc st.entries p (snapshot_of post n p.num now scd) u f refl)
                ])
        ]
      ]
