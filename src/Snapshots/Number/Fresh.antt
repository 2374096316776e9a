-- ===== src/Snapshots/Number/Fresh.antt =====
-- What Snapshots::nextNumber (snapper/Snapshot.cc) guarantees about the number that it returns.
use snapper.Base.{
  ℕ, zero, suc, ◌+◌, ◌%◌, ◌≤◌, ◌<◌, ◌≡◌, refl, true, false, none, List, [], ◌∷◌, max, arith, All,
  inl, inr, ◌⊎◌, Bool-cases,
}
use snapper.Snapshot.{Snapshot}
use snapper.Snapshots.Store.{Filesystem, Dirs, nums, has_dir, has_info, Os, Error, last_num, rmdir}
use snapper.Snapshots.Dirs.{has_info-rmdir, has_dir-rmdir}
use snapper.Snapshots.Number.{
  Search, found, failed, exhausted, unsigned_mod, max_of, search, remove_orphans, top, all_stoi,
  new_number, next_number,
}

le-max_of : (num : ℕ) (l : List ℕ) → num ≤ max_of num l
unfolding max_of
le-max_of num [] = omega arith
le-max_of num (x ∷ l) = omega (arith, le-max_of (max num x) l)

pub max_of-All : (num : ℕ) (l : List ℕ) → All (λ x. x ≤ max_of num l) l
unfolding max_of
max_of-All num [] = tt
max_of-All num (x ∷ l) = (omega (arith, le-max_of (max num x) l), max_of-All (max num x) l)

All-lt : (b n : ℕ) (l : List ℕ) → b < n → All (λ x. x ≤ b) l → All (λ x. x < n) l
All-lt b n [] h a = tt
All-lt b n (x ∷ l) h a = (omega arith, All-lt b n l h a.1)

pub Search-cases :
    (s : Search) → ((e : Error) × (s ≡ failed e)) ⊎ ((s ≡ exhausted) ⊎ ((n : ℕ) × (s ≡ found n)))
Search-cases (failed e) = inl (e, refl)
Search-cases exhausted = inr (inl refl)
Search-cases (found n) = inr (inr (n, refl))

module _ (fs : Filesystem) (os : Os) where
  has_info-remove_orphans :
      (j : ℕ) (ns : List ℕ) (entries : List Snapshot) (disk : fs.State) (dirs : Dirs)
      → has_info j (remove_orphans fs os ns entries disk dirs) ≡ has_info j dirs
  unfolding remove_orphans
  has_info-remove_orphans j [] entries disk dirs = refl
  has_info-remove_orphans j (n ∷ ns) entries disk dirs = ground (
    arith,
    has_info-rmdir fs n j disk dirs,
    has_info-remove_orphans j ns entries disk (rmdir fs n disk dirs),
    has_info-remove_orphans j ns entries disk dirs,
  )

  has_dir-remove_orphans :
      (j : ℕ) (ns : List ℕ) (entries : List Snapshot) (disk : fs.State) (dirs : Dirs)
      → All (λ x. x < j) ns
      → has_dir j (remove_orphans fs os ns entries disk dirs) ≡ has_dir j dirs
  unfolding remove_orphans
  has_dir-remove_orphans j [] entries disk dirs h = refl
  has_dir-remove_orphans j (n ∷ ns) entries disk dirs h = ground (
    arith,
    has_dir-rmdir fs n j disk dirs,
    has_dir-remove_orphans j ns entries disk (rmdir fs n disk dirs) h.1,
    has_dir-remove_orphans j ns entries disk dirs h.1,
  )

  -- A number that the search finds is larger than the start, as long as no number wraps, and it names
  -- neither a snapshot of the file system nor a directory.
  search-found :
      (fuel num n : ℕ) (disk : fs.State) (dirs : Dirs)
      → num + fuel < unsigned_mod
      → search fs os fuel num disk dirs ≡ found n
      → (num < n)
        × (n ≤ num + fuel)
        × (fs.check n disk ≡ false)
        × (has_dir n dirs ≡ false)
        × (os.mkdir_fails n ≡ false)
  unfolding search
  search-found zero num n disk dirs h e = cc
  search-found (suc fuel) num n disk dirs h e =
      let w : (num + 1) % unsigned_mod ≡ num + 1 = omega arith in
      ground (arith, w, search-found fuel (num + 1) n disk dirs)

  -- The same for a number that is returned, with what nextNumber does to the directories: the new one is
  -- made, and no info.xml is touched.
  pub next_number_found :
      (fuel n : ℕ) (entries : List Snapshot) (disk : fs.State) (dirs dirs' : Dirs)
      → top fs os entries dirs + fuel < unsigned_mod
      → next_number fs os fuel entries disk dirs ≡ (found n, dirs')
      → (last_num entries < n)
        × All (λ x. x < n) (nums dirs)
        × (fs.check n disk ≡ false)
        × (has_dir n dirs' ≡ true)
        × ((j : ℕ) → has_info j dirs' ≡ has_info j dirs)
  unfolding next_number new_number
  next_number_found fuel n entries disk dirs dirs' w h =
      let e : new_number fs os fuel entries disk dirs ≡ (found n, dirs') =
        elim (Bool-cases (all_stoi (nums dirs))) [
          | inl r ↦ (rw (r, next_number) at h)
          | inr r ↦ absurd (ground (arith, r, h))
        ] in
      let start = top fs os entries dirs in
      elim (Search-cases (search fs os fuel start disk dirs)) [
        | inl (x, f) ↦ absurd (ground arith)
        | inr (inl f) ↦ absurd (ground arith)
        | inr (inr (m, f)) ↦
            let (a, c, g, h, k) = search-found fuel start m disk dirs w f in
            let same : m ≡ n = ground arith in
            let rest : dirs' ≡ remove_orphans fs os (nums dirs) entries disk ((m, none) ∷ dirs) =
              ground arith in
            let below = All-lt start m (nums dirs) a (max_of-All (last_num entries) (nums dirs)) in
            rw (← same, rest)
              (
                omega (arith, le-max_of (last_num entries) (nums dirs)),
                below,
                g,
                rw (has_dir-remove_orphans m (nums dirs) entries disk ((m, none) ∷ dirs) below)
                    (ground arith),
                λ j. has_info-remove_orphans j (nums dirs) entries disk ((m, none) ∷ dirs),
              )
      ]

  -- Where nextNumber fails, the directories are as they were.
  pub next_number_failed :
      (fuel : ℕ) (entries : List Snapshot) (disk : fs.State) (dirs dirs' : Dirs) (x : Error)
      → next_number fs os fuel entries disk dirs ≡ (failed x, dirs')
      → dirs' ≡ dirs
  unfolding next_number new_number
  next_number_failed fuel entries disk dirs dirs' x e = ground arith
