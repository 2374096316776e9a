-- ===== src/Snapshots/Create/Ordered.antt =====
-- The well-formedness of the store (snapper/Snapshot.cc) and that creating and modifying keep it.
use snapper.Base.{
  ℕ, ◌≤◌, ◌<◌, ◌≡◌, ◌≢◌, ◌∙◌, Bool, true, Option, none, some, List, [], ◌∷◌, ◌++◌, arith, ◌==◌,
  if◌then◌else◌, In, inl, inr,
}
use snapper.Snapshot.{Snapshot}
use snapper.Snapshots.Store.{Filesystem, Dirs, Os, Store, has_info, last_num}
use snapper.Snapshots.Create.{create_filesystem_snapshot}

-- The numbers of the entries ascend, from above a bound.
abbrev pub Ascends : ℕ → List Snapshot → Type 0
Ascends b [] = Unit {0}
Ascends b (x ∷ l) = (b < x.num) × Ascends x.num l

-- The first entry is the current system, with number 0, and the numbers ascend.
abbrev pub IsOrdered : List Snapshot → Type 0
IsOrdered [] = ⊥
IsOrdered (c ∷ l) = (c.num ≡ 0) × Ascends 0 l

last_num_cons :
    (b : ℕ) (x : Snapshot) (l : List Snapshot) → Ascends b (x ∷ l) → b < last_num (x ∷ l)
last_num_cons b x [] a = a.0
last_num_cons b x (y ∷ l) a = omega (arith, last_num_cons x.num y l a.1)

Ascends-snoc :
    (b : ℕ) (l : List Snapshot) (s : Snapshot)
    → Ascends b l
    → b < s.num
    → last_num l < s.num
    → Ascends b (l ++ s ∷ [])
Ascends-snoc b [] s a h k = (h, tt)
Ascends-snoc b (x ∷ []) s a h k = (a.0, (k, tt))
Ascends-snoc b (x ∷ y ∷ l) s a h k =
    (a.0, Ascends-snoc x.num (y ∷ l) s a.1 (omega (arith, last_num_cons x.num y l a.1)) k)

-- A snapshot with a number above the last one may be appended.
pub IsOrdered-snoc :
    (l : List Snapshot) (s : Snapshot) → IsOrdered l → last_num l < s.num → IsOrdered (l ++ s ∷ [])
IsOrdered-snoc [] s a h = absurd a
IsOrdered-snoc (c ∷ []) s a h = (a.0, (omega arith, tt))
IsOrdered-snoc (c ∷ x ∷ l) s a h = (a.0, Ascends-snoc 0 (x ∷ l) s a.1 (omega arith) h)

-- Every entry but the current system has a snapshot in the file system and a directory with info.xml.
abbrev pub Recorded : (fs : Filesystem) → fs.State → Dirs → Snapshot → Type 0
Recorded fs disk dirs s = s.num ≢ 0 → (fs.check s.num disk ≡ true) × (has_info s.num dirs ≡ true)

pub record IsValid (fs : Filesystem) (st : Store fs) : Type 0 where
  pub ordered : IsOrdered st.entries
  pub recorded : (s : Snapshot) → In s st.entries → Recorded fs st.disk st.dirs s

In-Ascends-le :
    (b : ℕ) (l : List Snapshot) (s : Snapshot) → Ascends b l → In s l → s.num ≤ last_num l
In-Ascends-le b [] s a m = absurd m
In-Ascends-le b (x ∷ []) s a m = ground arith
In-Ascends-le b (x ∷ y ∷ l) s a (inl e) = rw e (omega (arith, last_num_cons x.num y l a.1))
In-Ascends-le b (x ∷ y ∷ l) s a (inr m) = In-Ascends-le x.num (y ∷ l) s a.1 m

-- The last entry has the largest number.
pub In-le-last_num : (l : List Snapshot) (s : Snapshot) → IsOrdered l → In s l → s.num ≤ last_num l
In-le-last_num [] s o m = absurd m
In-le-last_num (c ∷ []) s o m = ground arith
In-le-last_num (c ∷ x ∷ l) s o (inl e) = rw (e, o.0) (omega arith)
In-le-last_num (c ∷ x ∷ l) s o (inr m) = In-Ascends-le 0 (x ∷ l) s o.1 m

module _ (fs : Filesystem) where
  -- What differs only at a number above all entries leaves them recorded.
  pub Recorded-transfer :
      (l : List Snapshot) (n : ℕ) (disk disk' : fs.State) (dirs dirs' : Dirs)
      → IsOrdered l
      → last_num l < n
      → ((j : ℕ) → j ≢ n → fs.check j disk' ≡ fs.check j disk)
      → ((j : ℕ) → j ≢ n → has_info j dirs' ≡ has_info j dirs)
      → ((s : Snapshot) → In s l → Recorded fs disk dirs s)
      → (s : Snapshot) → In s l
      → Recorded fs disk' dirs' s
  Recorded-transfer l n disk disk' dirs dirs' o k same info r s m z =
      let ne : s.num ≢ n = omega (arith, In-le-last_num l s o m) in
      let (a, b) = r s m z in (same s.num ne ∙ a, info s.num ne ∙ b)

  pub created_elsewhere :
      (s : Snapshot) (parent : Option ℕ) (empty : Bool) (os : Os) (disk disk' : fs.State)
      → create_filesystem_snapshot fs os s parent empty disk ≡ some disk'
      → (j : ℕ) → fs.check j disk' ≡ (if j == s.num then true else fs.check j disk)
  unfolding create_filesystem_snapshot
  created_elsewhere s none empty os disk disk' e j = fs.check-create_of_default _ _ _ _ _ e j
  created_elsewhere s (some p) empty os disk disk' e j = fs.check-create _ _ _ _ _ _ _ e j
