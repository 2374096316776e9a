-- ===== src/Snapshots/Create/Keeps.antt =====
-- Creating a snapshot (createHelper and its callers in snapper/Snapshot.cc) keeps the store
-- well-formed on every branch, errors included, and what it leaves on each.
use snapper.Base.{
  ℕ, ◌+◌, ◌<◌, ◌≡◌, ◌≢◌, refl, ◌∙◌, Bool, true, Option, some, List, [], ◌∷◌, arith, ◌==◌, In,
  In-append, inl, inr, ◌⊎◌, Bool-cases, Option-cases, Sum-cases,
}
use snapper.Base.Int.{ℤ}
use snapper.Snapshot.{Snapshot, SnapshotType, is_current}
use snapper.Snapshots.Store.{
  Filesystem, Dirs, Os, Store, Error, has_dir, has_info, find, last_num, check_userdata, set_info,
  rmdir, delete_filesystem_snapshot,
}
use snapper.Snapshots.Dirs.{has_info-set, has_info-rmdir}
use snapper.Snapshots.Number.Fresh.{next_number_found, next_number_failed}
use snapper.Snapshots.Number.{Search, found, failed, exhausted, next_number, top, unsigned_mod}
use snapper.Snapshots.Create.{
  Smd, Scd, snapshot_of, create_filesystem_snapshot, undo_create, create_other, create_helper,
  with_number, create, modify_entry, modify_snapshot,
}
use snapper.Snapshots.Create.Ordered.{
  Ascends, IsOrdered, IsOrdered-snoc, Recorded-transfer, IsValid, created_elsewhere,
}

module _ (fs : Filesystem) where
  -- Deleting a snapshot of the file system changes nothing at other numbers, and nothing at all if it throws.
  abbrev pub Elsewhere : ℕ → fs.State → Error × fs.State ⊎ fs.State → Type 0
  Elsewhere n disk (inl (e, d)) = (j : ℕ) → fs.check j d ≡ fs.check j disk
  Elsewhere n disk (inr d) = (j : ℕ) → j ≢ n → fs.check j d ≡ fs.check j disk

  pub delete-Elsewhere :
      (n : ℕ) (disk : fs.State) → Elsewhere n disk (delete_filesystem_snapshot fs n disk)
  unfolding delete_filesystem_snapshot
  delete-Elsewhere n disk = elim (Option-cases (fs.umount n disk)) [
    | inl e ↦ rw (e, delete_filesystem_snapshot) (λ j. refl)
    | inr (d, e) ↦ elim (Option-cases (fs.delete n d)) [
      | inl f ↦ rw (e, f, delete_filesystem_snapshot) (λ j. fs.check-umount n disk d e j)
      | inr (d', f) ↦
          rw (e, f, delete_filesystem_snapshot)
            (λ j h. ground (arith, fs.check-umount n disk d e j, fs.check-delete n d d' f j))
    ]
  ]

module _ (fs : Filesystem) (os : Os) (st : Store fs) (valid : IsValid fs st) where
  undo_create-IsValid :
      (s : Snapshot) (disk : fs.State)
      → last_num st.entries < s.num
      → ((j : ℕ) → j ≢ s.num → fs.check j disk ≡ fs.check j st.disk)
      → IsValid fs (undo_create fs os s (record st { disk = disk })).1
  unfolding undo_create
  undo_create-IsValid s disk above same =
      elim (Sum-cases (delete_filesystem_snapshot fs s.num disk)) [
        | inl ((e, d), p) ↦
            let elsewhere : Elsewhere fs s.num disk (inl (e, d)) =
              rw p at (delete-Elsewhere fs s.num disk) in
            rw (p, undo_create)
              (record {
                ordered = valid.ordered;
                recorded =
                    Recorded-transfer fs st.entries s.num st.disk d st.dirs st.dirs valid.ordered
                      above (λ j h. elsewhere j ∙ same j h) (λ j h. refl) valid.recorded;
              })
        | inr (d, p) ↦
            let elsewhere : Elsewhere fs s.num disk (inr d) =
              rw p at (delete-Elsewhere fs s.num disk) in
            rw (p, undo_create)
              (record {
                ordered = valid.ordered;
                recorded =
                    Recorded-transfer fs st.entries s.num st.disk d st.dirs
                      (rmdir fs s.num d st.dirs) valid.ordered above
                      (λ j h. elsewhere j h ∙ same j h) (λ j h. has_info-rmdir fs s.num j d st.dirs)
                      valid.recorded;
              })
      ]

  create_other-IsValid :
      (s : Snapshot) (parent : Option ℕ) (empty : Bool)
      → last_num st.entries < s.num
      → has_dir s.num st.dirs ≡ true
      → IsValid fs (create_other fs os s parent empty st).1
  unfolding create_other
  create_other-IsValid s parent empty above dir =
      elim (Option-cases (create_filesystem_snapshot fs os s parent empty st.disk)) [
        | inl e ↦
            rw (e, create_other)
              (record {
                ordered = valid.ordered;
                recorded =
                    Recorded-transfer fs st.entries s.num st.disk st.disk st.dirs
                      (rmdir fs s.num st.disk st.dirs) valid.ordered above (λ j h. refl)
                      (λ j h. has_info-rmdir fs s.num j st.disk st.dirs) valid.recorded;
              })
        | inr (d, e) ↦
            let made = created_elsewhere fs s parent empty os st.disk d e in
            let same : (j : ℕ) → j ≢ s.num → fs.check j d ≡ fs.check j st.disk =
              λ j h. ground (arith, made j) in
            elim (Bool-cases (os.write_fails s.num)) [
              | inl w ↦ rw (e, w, create_other) (undo_create-IsValid s d above same)
              | inr w ↦
                  rw (e, w, create_other)
                    (record {
                      ordered = IsOrdered-snoc st.entries s valid.ordered above;
                      recorded = λ x m. elim (In-append x st.entries (s ∷ []) m) [
                        | inl old ↦
                            Recorded-transfer fs st.entries s.num st.disk d st.dirs
                              (set_info s.num (some s) st.dirs) valid.ordered above same
                              (λ j h. ground (arith, has_info-set s.num j s st.dirs)) valid.recorded
                              x old
                        | inr new ↦
                            λ z. ground (arith, made x.num, has_info-set s.num x.num s st.dirs)
                      ];
                    })
            ]
      ]

  -- createHelper keeps the store well-formed if the new number is above those of the entries and has
  -- a directory.
  pub create_helper-IsValid :
      (s : Snapshot) (parent : Option ℕ) (empty : Bool)
      → last_num st.entries < s.num
      → has_dir s.num st.dirs ≡ true
      → IsValid fs (create_helper fs os s parent empty st).1
  unfolding create_helper
  create_helper-IsValid s parent empty above dir = elim (Bool-cases (is_current s)) [
    | inl c ↦ rw (c, create_helper) valid
    | inr c ↦ rw (c, create_helper) (create_other-IsValid s parent empty above dir)
  ]

module _ (fs : Filesystem) (os : Os) where
  with_number-IsValid :
      (fuel : ℕ) (type : SnapshotType) (pre_num : ℕ) (now : ℤ) (scd : Scd) (parent : Option ℕ)
      (empty : Bool) (st : Store fs) (r : Search × Dirs)
      → top fs os st.entries st.dirs + fuel < unsigned_mod
      → next_number fs os fuel st.entries st.disk st.dirs ≡ r
      → IsValid fs st
      → IsValid fs (with_number fs os type pre_num now scd parent empty st r).1
  unfolding with_number
  with_number-IsValid fuel type pre_num now scd parent empty st (found n, dirs) w e valid =
      let (above, _, _, dir, info) =
        next_number_found fs os fuel n st.entries st.disk st.dirs dirs w e in
      create_helper-IsValid fs os (record st { dirs = dirs })
        (record {
          ordered = valid.ordered;
          recorded = λ x m z. let (a, b) = valid.recorded x m z in (a, info x.num ∙ b);
        })
        (snapshot_of type n pre_num now scd) parent empty above dir
  with_number-IsValid fuel type pre_num now scd parent empty st (failed x, dirs) w e valid =
      rw (next_number_failed fs os fuel st.entries st.disk st.dirs dirs x e) valid
  with_number-IsValid fuel type pre_num now scd parent empty st (exhausted, dirs) w e valid = valid

  -- Creating a snapshot of any type, from any parent, keeps the store well-formed, whether it returns
  -- or throws, as long as no number wraps within the fuel: the entries stay in ascending order behind
  -- the current system, and each has its snapshot in the file system and its info.xml.
  pub create-IsValid :
      (fuel : ℕ) (type : SnapshotType) (pre_num : ℕ) (now : ℤ) (scd : Scd) (parent : Option ℕ)
      (empty : Bool) (st : Store fs)
      → top fs os st.entries st.dirs + fuel < unsigned_mod
      → IsValid fs st
      → IsValid fs (create fs os fuel type pre_num now scd parent empty st).1
  unfolding create
  create-IsValid fuel type pre_num now scd parent empty st w valid =
      elim (Bool-cases (check_userdata scd.userdata)) [
        | inl e ↦
            rw (e, create)
              (with_number-IsValid fuel type pre_num now scd parent empty st
                (next_number fs os fuel st.entries st.disk st.dirs) w refl valid)
        | inr e ↦ rw (e, create) valid
      ]

  modify_entry-Ascends :
      (b n : ℕ) (smd : Smd) (l : List Snapshot)
      → Ascends b l
      → Ascends b (modify_entry fs os n smd l)
  unfolding modify_entry
  modify_entry-Ascends b n smd [] a = a
  modify_entry-Ascends b n smd (x ∷ l) a = ground (arith, modify_entry-Ascends x.num n smd l a.1)

  modify_entry-IsOrdered :
      (n : ℕ) (smd : Smd) (l : List Snapshot) → IsOrdered l → IsOrdered (modify_entry fs os n smd l)
  unfolding modify_entry
  modify_entry-IsOrdered n smd [] a = a
  modify_entry-IsOrdered n smd (x ∷ l) a = ground (arith, modify_entry-Ascends 0 n smd l a.1)

  -- Every changed entry has the number of an entry before.
  modify_entry-In :
      (n : ℕ) (smd : Smd) (l : List Snapshot) (s : Snapshot)
      → In s (modify_entry fs os n smd l)
      → (t : Snapshot) × In t l × (s.num ≡ t.num)
  unfolding modify_entry
  modify_entry-In n smd [] s h = absurd h
  modify_entry-In n smd (x ∷ l) s (inl e) = (x, inl refl, ground arith)
  modify_entry-In n smd (x ∷ l) s (inr h) =
      let (t, m, e) = modify_entry-In n smd l s h in (t, inr m, e)

  set_found-info :
      (n j : ℕ) (o : Option Snapshot) (s : Snapshot) (dirs : Dirs)
      → o ≡ some s
      → has_info j dirs ≡ true
      → has_info j (set_info n o dirs) ≡ true
  set_found-info n j o s dirs e h = rw e (ground (arith, has_info-set n j s dirs))

  modified-IsValid :
      (n : ℕ) (smd : Smd) (st : Store fs) (dirs : Dirs)
      → IsValid fs st
      → ((j : ℕ) → has_info j st.dirs ≡ true → has_info j dirs ≡ true)
      → IsValid fs (record st { entries = modify_entry fs os n smd st.entries; dirs = dirs })
  modified-IsValid n smd st dirs valid info = record {
    ordered = modify_entry-IsOrdered n smd st.entries valid.ordered;
    recorded = λ x m z.
        let (t, k, e) = modify_entry-In n smd st.entries x m in
        let (a, b) = valid.recorded t k (λ q. z (e ∙ q)) in (rw e a, info x.num (rw e b));
  }

  find-modify :
      (s : Snapshot) (smd : Smd) (l : List Snapshot)
      → In s l
      → (t : Snapshot) × (find s.num (modify_entry fs os s.num smd l) ≡ some t)
  unfolding modify_entry
  find-modify s smd [] m = absurd m
  find-modify s smd (x ∷ l) m = elim (Bool-cases (x.num == s.num)) [
    | inl e ↦ (
      record x { description = smd.description; cleanup = smd.cleanup; userdata = smd.userdata },
      ground arith,
    )
    | inr e ↦ let (t, f) = find-modify s smd l (ground arith) in (t, ground arith)
  ]

  -- Modifying keeps the store well-formed on every branch, also where the entry has changed and its
  -- info.xml could not be written, if the iterator points at an entry.
  pub modify-IsValid :
      (s : Snapshot) (smd : Smd) (st : Store fs)
      → In s st.entries
      → IsValid fs st
      → IsValid fs (modify_snapshot fs os (some s) smd st).1
  unfolding modify_snapshot
  modify-IsValid s smd st m valid = elim (Bool-cases (is_current s)) [
    | inl c ↦ rw (c, modify_snapshot) valid
    | inr c ↦ elim (Bool-cases (check_userdata smd.userdata)) [
      | inl u ↦ elim (Bool-cases (os.write_fails s.num)) [
        | inl w ↦
            rw (c, u, w, modify_snapshot) (modified-IsValid s.num smd st st.dirs valid (λ j h. h))
        | inr w ↦
            let (t, f) = find-modify s smd st.entries m in
            rw (c, u, w, modify_snapshot)
              (modified-IsValid s.num smd st _ valid
                (λ j h. set_found-info s.num j _ t st.dirs f h))
      ]
      | inr u ↦ rw (c, u, modify_snapshot) valid
    ]
  ]
