-- ===== src/Proxy/Library/Grown.antt =====
-- What the creations and modifications of snapper/Snapshot.cc do to the list of entries.
use snapper.Base.{
  ℕ, ◌≡◌, refl, ap, ◌⊎◌, inl, inr, Bool, false, not, ◌||◌, Option, none, some, List, [], ◌∷◌, ◌++◌,
  ◌==◌, Bool-cases, Option-cases,
}
use snapper.Base.Int.{ℤ}
use snapper.Snapshot.{Snapshot, SnapshotType, post, is_current, is_pre}
use snapper.Proxy.{erase}
use snapper.Snapshots.Store.{
  Filesystem, Dirs, Os, Store, Error, Result, ok, err, no_fuel, find_post, check_userdata,
  delete_filesystem_snapshot,
}
use snapper.Snapshots.Number.{Search, found, failed, exhausted, next_number}
use snapper.Snapshots.Create.{
  Smd, Scd, create_filesystem_snapshot, undo_create, create_other, create_helper, with_number,
  create, create_post_snapshot, modify_snapshot, modify_entry,
}
use snapper.Proxy.Library.{nums_of, erase_num}

-- A creation adds an entry of the number that it returns, or leaves the entries.
abbrev pub Grown : Result → List Snapshot → List Snapshot → Type 0
Grown (ok n) l l' = (x : Snapshot) × (x.num ≡ n) × (l' ≡ l ++ x ∷ [])
Grown (err e) l l' = l' ≡ l
Grown no_fuel l l' = l' ≡ l

pub nums_of-snoc :
    (l : List Snapshot) (x : Snapshot) → nums_of (l ++ x ∷ []) ≡ nums_of l ++ x.num ∷ []
nums_of-snoc [] x = refl
nums_of-snoc (y ∷ l) x = ap (λ r. y.num ∷ r) (nums_of-snoc l x)

pub nums_of-erase : (n : ℕ) (l : List Snapshot) → nums_of (erase n l) ≡ erase_num n (nums_of l)
unfolding erase erase_num
nums_of-erase n [] = refl
nums_of-erase n (x ∷ l) = elim (Bool-cases (x.num == n)) [
  | inl e ↦ rw e refl
  | inr e ↦ rw e (ap (λ r. x.num ∷ r) (nums_of-erase n l))
]

module _ (fs : Filesystem) (os : Os) where
  -- The result and the entries of a run on a store.
  abbrev pub GrownBy : Store fs → Result × Store fs → Type 0
  GrownBy st r = Grown r.0 st.entries r.1.entries

  undo_create-Grown : (s : Snapshot) (st : Store fs) → GrownBy st (undo_create fs os s st)
  unfolding undo_create
  undo_create-Grown s st = go (delete_filesystem_snapshot fs s.num st.disk) refl
    where
      go :
          (r : (Error × fs.State) ⊎ fs.State)
          → delete_filesystem_snapshot fs s.num st.disk ≡ r
          → GrownBy st (undo_create fs os s st)
      go (inl (e, d)) q = rw (q, undo_create) refl
      go (inr d) q = rw (q, undo_create) refl

  create_other-Grown :
      (s : Snapshot) (parent : Option ℕ) (empty : Bool) (st : Store fs)
      → GrownBy st (create_other fs os s parent empty st)
  unfolding create_other
  create_other-Grown s parent empty st =
      elim (Option-cases (create_filesystem_snapshot fs os s parent empty st.disk)) [
        | inl e ↦ rw (e, create_other) refl
        | inr (d, e) ↦ elim (Bool-cases (os.write_fails s.num)) [
          | inl w ↦ rw (e, w, create_other) (undo_create-Grown s (record st { disk = d }))
          | inr w ↦ rw (e, w, create_other) (s, refl, refl)
        ]
      ]

  create_helper-Grown :
      (s : Snapshot) (parent : Option ℕ) (empty : Bool) (st : Store fs)
      → GrownBy st (create_helper fs os s parent empty st)
  unfolding create_helper
  create_helper-Grown s parent empty st = elim (Bool-cases (is_current s)) [
    | inl c ↦ rw (c, create_helper) refl
    | inr c ↦ rw (c, create_helper) (create_other-Grown s parent empty st)
  ]

  with_number-Grown :
      (type : SnapshotType) (pre_num : ℕ) (now : ℤ) (scd : Scd) (parent : Option ℕ) (empty : Bool)
      (st : Store fs) (r : Search × Dirs)
      → GrownBy st (with_number fs os type pre_num now scd parent empty st r)
  unfolding with_number
  with_number-Grown type pre_num now scd parent empty st (found n, dirs) =
      create_helper-Grown _ parent empty (record st { dirs = dirs })
  with_number-Grown type pre_num now scd parent empty st (failed e, dirs) = refl
  with_number-Grown type pre_num now scd parent empty st (exhausted, dirs) = refl

  pub create-Grown :
      (fuel : ℕ) (type : SnapshotType) (pre_num : ℕ) (now : ℤ) (scd : Scd) (parent : Option ℕ)
      (empty : Bool) (st : Store fs)
      → GrownBy st (create fs os fuel type pre_num now scd parent empty st)
  unfolding create
  create-Grown fuel type pre_num now scd parent empty st =
      elim (Bool-cases (check_userdata scd.userdata)) [
        | inl e ↦
            rw (e, create)
              (with_number-Grown type pre_num now scd parent empty st
                (next_number fs os fuel st.entries st.disk st.dirs))
        | inr e ↦ rw (e, create) refl
      ]

  pub create_post_snapshot-Grown :
      (fuel : ℕ) (o : Option Snapshot) (now : ℤ) (scd : Scd) (st : Store fs)
      → GrownBy st (create_post_snapshot fs os fuel o now scd st)
  unfolding create_post_snapshot
  create_post_snapshot-Grown fuel none now scd st = refl
  create_post_snapshot-Grown fuel (some p) now scd st =
      elim (Bool-cases (is_current p || not (is_pre p.type))) [
        | inl e ↦ rw (e, create_post_snapshot) refl
        | inr e ↦ elim (Option-cases (find_post p st.entries)) [
          | inr (x, q) ↦ rw (e, q, create_post_snapshot) refl
          | inl q ↦
              rw (e, q, create_post_snapshot)
                (create-Grown fuel post p.num now scd (some 0) false st)
        ]
      ]

  -- A modification keeps the numbers.
  nums_of-modify_entry :
      (n : ℕ) (smd : Smd) (l : List Snapshot) → nums_of (modify_entry fs os n smd l) ≡ nums_of l
  unfolding modify_entry
  nums_of-modify_entry n smd [] = refl
  nums_of-modify_entry n smd (x ∷ l) = elim (Bool-cases (x.num == n)) [
    | inl e ↦ rw e (ap (λ r. x.num ∷ r) (nums_of-modify_entry n smd l))
    | inr e ↦ rw e (ap (λ r. x.num ∷ r) (nums_of-modify_entry n smd l))
  ]

  pub modify-nums :
      (o : Option Snapshot) (smd : Smd) (st : Store fs)
      → nums_of (modify_snapshot fs os o smd st).1.entries ≡ nums_of st.entries
  unfolding modify_snapshot
  modify-nums none smd st = refl
  modify-nums (some s) smd st = elim (Bool-cases (is_current s)) [
    | inl e ↦ rw (e, modify_snapshot) refl
    | inr e ↦ elim (Bool-cases (check_userdata smd.userdata)) [
      | inr c ↦ rw (e, c, modify_snapshot) refl
      | inl c ↦ elim (Bool-cases (os.write_fails s.num)) [
        | inl w ↦ rw (e, c, w, modify_snapshot) (nums_of-modify_entry s.num smd st.entries)
        | inr w ↦ rw (e, c, w, modify_snapshot) (nums_of-modify_entry s.num smd st.entries)
      ]
    ]
  ]
