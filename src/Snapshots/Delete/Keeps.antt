-- ===== src/Snapshots/Delete/Keeps.antt =====
-- What deleting a snapshot (Snapshots::deleteSnapshot of snapper/Snapshot.cc) leaves of a well-formed
-- store, also where it throws; it spares the default and the active snapshot, and keeps the highest number taken.
use snapper.Base.{
  ℕ, ◌<◌, ◌≡◌, ◌≢◌, ◌↔◌, refl, Bool, true, false, ◌||◌, none, some, List, [], ◌∷◌, arith, ◌==◌,
  if◌then◌else◌, In, inl, inr, Bool-cases, Sum-cases, Option-cases,
}
use snapper.Snapshot.{Snapshot, is_current}
use snapper.Proxy.{erase}
use snapper.Cleanup.Filter.Deletable.{erase-In}
use snapper.Snapshots.Store.{
  Filesystem, Store, ok, has_dir, has_info, last_num, set_info, delete_filesystem_snapshot,
}
use snapper.Snapshots.Dirs.{has_dir-set, has_dir-rmdir}
use snapper.Snapshots.Create.Ordered.{Ascends, IsOrdered, IsValid}
use snapper.Snapshots.Delete.{delete_filelists, forget, delete_snapshot}

-- In ascending entries the erased number is gone.
In-Ascends-lt : (b : ℕ) (l : List Snapshot) (s : Snapshot) → Ascends b l → In s l → b < s.num
In-Ascends-lt b [] s a m = absurd m
In-Ascends-lt b (x ∷ l) s a (inl e) = rw e a.0
In-Ascends-lt b (x ∷ l) s a (inr m) = omega (arith, In-Ascends-lt x.num l s a.1 m)

In-erase-Ascends :
    (b n : ℕ) (l : List Snapshot) (s : Snapshot)
    → Ascends b l
    → In s (erase n l)
    → In s l × (s.num ≢ n)
unfolding erase
In-erase-Ascends b n [] s a m = absurd m
In-erase-Ascends b n (x ∷ l) s a m =
    ground (arith, In-erase-Ascends x.num n l s a.1, In-Ascends-lt x.num l s a.1)

pub In-erase-IsOrdered :
    (n : ℕ) (l : List Snapshot) (s : Snapshot)
    → IsOrdered l
    → n ≢ 0
    → In s (erase n l)
    → In s l × (s.num ≢ n)
unfolding erase
In-erase-IsOrdered n [] s o h m = absurd m
In-erase-IsOrdered n (x ∷ l) s o h m = ground (arith, In-erase-Ascends 0 n l s o.1)

pub deleted :
    (fs : Filesystem) (n : ℕ) (disk d : fs.State)
    → delete_filesystem_snapshot fs n disk ≡ inr d
    → (j : ℕ) → fs.check j d ≡ (if j == n then false else fs.check j disk)
unfolding delete_filesystem_snapshot
deleted fs n disk d p j = elim (Option-cases (fs.umount n disk)) [
  | inl e ↦ absurd (ground arith)
  | inr (c, e) ↦ elim (Option-cases (fs.delete n c)) [
    | inl f ↦ absurd (ground arith)
    | inr (d', f) ↦
        let same : d' ≡ d = ground arith in
        rw (← same) (ground (arith, fs.check-umount n disk c e j, fs.check-delete n c d' f j))
  ]
]

module _ (fs : Filesystem) (unique_numbers : Bool) where
  -- The store is well-formed but for the snapshot of one number, which the file system has lost.
  pub record IsBroken (n : ℕ) (st : Store fs) : Type 0 where
    pub ordered : IsOrdered st.entries
    pub gone : fs.check n st.disk ≡ false
    pub recorded :
        (x : Snapshot)
        → In x st.entries
        → x.num ≢ 0
        → (x.num ≢ n → fs.check x.num st.disk ≡ true) × (has_info x.num st.dirs ≡ true)

  -- Where deleteSnapshot returns on a well-formed store, the snapshot was neither the current system nor
  -- the default nor the active one, the entries are those from before with another number, and the file
  -- system has lost the snapshot with that number and no other.
  pub delete_guarded :
      (s : Snapshot) (st : Store fs) (n : ℕ)
      → IsValid fs st
      → (delete_snapshot fs unique_numbers (some s) st).0 ≡ ok n
      → (s.num ≢ 0)
        × (fs.is_default s.num st.disk ≡ false)
        × (fs.is_active s.num st.disk ≡ false)
        × ((x : Snapshot)
            → In x (delete_snapshot fs unique_numbers (some s) st).1.entries
              ↔ (In x st.entries × (x.num ≢ s.num)))
        × ((j : ℕ)
            → fs.check j (delete_snapshot fs unique_numbers (some s) st).1.disk
              ≡ (if j == s.num then false else fs.check j st.disk))
  unfolding delete_snapshot
  delete_guarded s st n valid h =
      elim (Bool-cases
        (is_current s || (fs.is_default s.num st.disk || fs.is_active s.num st.disk))) [
          | inl c ↦ absurd (ground arith)
          | inr c ↦ elim (Sum-cases (delete_filesystem_snapshot fs s.num st.disk)) [
            | inl ((e, d), p) ↦ absurd (ground arith)
            | inr (d, p) ↦
                let z : s.num ≢ 0 = ground arith in
                elim (Bool-cases (delete_filelists fs unique_numbers s (record st { disk = d }))) [
                  | inr f ↦ absurd (ground arith)
                  | inl f ↦
                      rw (c, p, f, delete_snapshot)
                        (
                          z,
                          ground arith,
                          ground arith,
                          λ x. (
                            λ m. In-erase-IsOrdered s.num st.entries x valid.ordered z m,
                            λ m. erase-In s.num x st.entries m.0 m.1,
                          ),
                          λ j. deleted fs s.num st.disk d p j,
                        )
                ]
          ]
        ]

  forget_keeps_top :
      (s : Snapshot) (st : Store fs) (top : ℕ)
      → unique_numbers ≡ true
      → top ≡ last_num st.entries
      → has_dir top st.dirs ≡ true
      → has_dir top (forget fs unique_numbers s st).dirs ≡ true
  unfolding forget
  forget_keeps_top s st top u e h = ground (
    arith,
    has_dir-set s.num top none st.dirs,
    has_dir-rmdir fs s.num top st.disk (set_info s.num none st.dirs),
    has_dir-rmdir fs s.num top st.disk st.dirs,
  )

  -- With UNIQUE_NUMBERS, deleting the snapshot with the highest number leaves its directory, and
  -- deleting another one leaves the directory of the highest number too.
  pub delete_keeps_top :
      (s : Snapshot) (st : Store fs)
      → unique_numbers ≡ true
      → has_dir (last_num st.entries) st.dirs ≡ true
      → has_dir (last_num st.entries) (delete_snapshot fs unique_numbers (some s) st).1.dirs ≡ true
  unfolding delete_snapshot
  delete_keeps_top s st u h =
      elim (Bool-cases
        (is_current s || (fs.is_default s.num st.disk || fs.is_active s.num st.disk))) [
          | inl c ↦ rw (c, delete_snapshot) h
          | inr c ↦ elim (Sum-cases (delete_filesystem_snapshot fs s.num st.disk)) [
            | inl ((e, d), p) ↦ rw (c, p, delete_snapshot) h
            | inr (d, p) ↦
                elim (Bool-cases (delete_filelists fs unique_numbers s (record st { disk = d }))) [
                  | inr f ↦ rw (c, p, f, delete_snapshot) h
                  | inl f ↦
                      rw (c, p, f, delete_snapshot)
                        (forget_keeps_top s (record st { disk = d }) (last_num st.entries) u refl h)
                ]
          ]
        ]
