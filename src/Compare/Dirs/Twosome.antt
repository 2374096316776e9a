-- ===== src/Compare/Dirs/Twosome.antt =====
-- twosome of snapper/Compare.cc reports what it should for a name that both directories have.
use snapper.Base.{
  Bytes, find_key, ℕ, ◌≡◌, refl, sym, ap, ◌∙◌, subst, ◌↔◌, ◌⊎◌, inl, inr, Bool, true, false, not,
  ◌&&◌, none, some, List, [], ◌∷◌, ◌==◌, if◌then◌else◌, arith, Bool-cases,
}
use snapper.Files.Status.{created, deleted, type_changed, has}
use snapper.Compare.Content.{Stat, Payload, is_dir, eq_kind, directory, cmp_files}
use snapper.Compare.Content.Blocks.{cmp_files-type, eq_kind_lem, eq_kind_directory}
use snapper.Compare.Dirs.{
  node, Entries, Trail, listing, Run, and_then, nothing, report, twosome, twosome_below,
  list_subdirs,
}
use snapper.Compare.Dirs.Tree.{
  find, IsFound, AreWhole, expected, Gives, Gives-map, Gives-and_then, Gives-nothing, Gives-report,
}
use snapper.Compare.Dirs.Subdirs.{Listed, below}
use snapper.Compare.Dirs.Merge.{Differs}
use snapper.Compare.Dirs.Names.{created_iff, deleted_iff, subdirs-Listed}

module _ (signatures : List Bytes) (stat1 : Stat) (file1 : Payload) (es1 : Entries) (stat2 : Stat)
    (file2 : Payload) (es2 : Entries) where
  -- What is to be reported below two nodes.
  abbrev Below : Trail → ℕ → Type 0
  Below [] s = ⊥
  Below (k ∷ t) s =
      expected signatures (find (some (node stat1 file1 es1)) (k ∷ t))
        (find (some (node stat2 file2 es2)) (k ∷ t))
      ≡ some s

  closed :
      (stat : Stat) (file : Payload) (es : Entries)
      → is_dir stat ≡ false
      → (k : Bytes) (t : Trail) → find (some (node stat file es)) (k ∷ t) ≡ none
  closed stat file es e k t = rw e refl

  opened :
      (stat : Stat) (file : Payload) (es : Entries)
      → is_dir stat ≡ true
      → (k : Bytes) (t : Trail)
      → find (some (node stat file es)) (k ∷ t) ≡ find (find_key k (listing es)) t
  opened stat file es e k t = rw e refl

  -- The two lists of names below, when the types differ.
  Below-split :
      (is_dir stat1 ≡ false) ⊎ (is_dir stat2 ≡ false)
      → (t : Trail) (s : ℕ)
      → Below t s ↔ (
          Listed deleted (below (node stat1 file1 es1)) t s
          ⊎ Listed created (below (node stat2 file2 es2)) t s)
  Below-split d [] s = (λ h. absurd h, λ h. elim h [ inl x ↦ x.1 | inr x ↦ x.1 ])
  Below-split (inl d) (k ∷ t) s =
      let c = closed stat1 file1 es1 d k t in
      let iff = created_iff signatures (find (some (node stat2 file2 es2)) (k ∷ t)) s in
      let q : (expected signatures (find (some (node stat1 file1 es1)) (k ∷ t))
            (find (some (node stat2 file2 es2)) (k ∷ t)))
          ≡ expected signatures none (find (some (node stat2 file2 es2)) (k ∷ t)) =
        rw c refl in
      (
        λ h. inr (iff.0 (sym q ∙ h)),
        λ h. elim h [ inl x ↦ absurd (subst IsFound c x.1) | inr x ↦ q ∙ iff.1 x ],
      )
  Below-split (inr d) (k ∷ t) s =
      let c = closed stat2 file2 es2 d k t in
      let iff = deleted_iff signatures (find (some (node stat1 file1 es1)) (k ∷ t)) s in
      let q : (expected signatures (find (some (node stat1 file1 es1)) (k ∷ t))
            (find (some (node stat2 file2 es2)) (k ∷ t)))
          ≡ expected signatures (find (some (node stat1 file1 es1)) (k ∷ t)) none =
        rw c refl in
      (
        λ h. inl (iff.0 (sym q ∙ h)),
        λ h. elim h [ inl x ↦ q ∙ iff.1 x | inr x ↦ absurd (subst IsFound c x.1) ],
      )

  Below-dirs :
      (n : Bytes) (path : Trail)
      → is_dir stat1 ≡ true
      → is_dir stat2 ≡ true
      → (t : Trail) (s : ℕ)
      → Below t s ↔ Differs signatures (n ∷ path) (listing es1) (listing es2) t s
  Below-dirs n path d1 d2 [] s = (λ h. h, λ h. h)
  Below-dirs n path d1 d2 (k ∷ t) s =
      let q : expected signatures (find (some (node stat1 file1 es1)) (k ∷ t))
            (find (some (node stat2 file2 es2)) (k ∷ t))
          ≡ expected signatures (find (find_key k (listing es1)) t)
              (find (find_key k (listing es2)) t) =
        rw (opened stat1 file1 es1 d1 k t, opened stat2 file2 es2 d2 k t) refl in
      (λ h. (refl, sym q ∙ h), λ h. q ∙ h.1)

  Below-none : is_dir stat1 ≡ false → is_dir stat2 ≡ false → (t : Trail) (s : ℕ) → ¬ Below t s
  Below-none d1 d2 [] s h = h
  Below-none d1 d2 (k ∷ t) s h =
      let q : expected signatures (find (some (node stat1 file1 es1)) (k ∷ t))
            (find (some (node stat2 file2 es2)) (k ∷ t))
          ≡ none =
        rw (closed stat1 file1 es1 d1 k t, closed stat2 file2 es2 d2 k t) refl in
      absurd (ground (arith, q, h))

  module _ (dev1 dev2 : ℕ) (recur : Trail → Entries → Entries → Run) (n : Bytes) (path : Trail)
      (e1 : stat1.dev ≡ dev1) (e2 : stat2.dev ≡ dev2) (w1 : AreWhole dev1 es1)
      (w2 : AreWhole dev2 es2)
      (again : Gives
        (recur (n ∷ path) es1 es2)
        (n ∷ path)
        (Differs signatures (n ∷ path) (listing es1) (listing es2))) where
    same1 : (stat1.dev == dev1) ≡ true
    same1 = ground (arith, e1)

    same2 : (stat2.dev == dev2) ≡ true
    same2 = ground (arith, e2)

    kinds_same :
        (status : ℕ)
        → has status type_changed ≡ false
        → eq_kind stat1.kind stat2.kind ≡ true
        → Gives
            (twosome_below signatures dev1 dev2 recur (n ∷ path) stat1 es1 stat2 es2 status)
            (n ∷ path)
            Below
    unfolding twosome_below
    kinds_same status h k = elim (Bool-cases (is_dir stat1)) [
      | inl d ↦
          let d2 : is_dir stat2 ≡ true =
            subst (λ j. eq_kind j directory ≡ true) (eq_kind_lem stat1.kind stat2.kind k) d in
          rw (h, d, same1, same2)
            (Gives-map _ (λ t s. (Below-dirs n path d d2 t s).1)
              (λ t s. (Below-dirs n path d d2 t s).0) again)
      | inr d ↦
          let d2 : is_dir stat2 ≡ false =
            subst (λ j. eq_kind j directory ≡ false) (eq_kind_lem stat1.kind stat2.kind k) d in
          rw (h, d) (Gives-nothing (Below-none d d2))
    ]

    both_ifs :
        (b c : Bool) (r : Run)
        → c ≡ true
        → (if b && c then r else nothing) ≡ (if b then r else nothing)
    both_ifs true c r e = rw e refl
    both_ifs false c r e = refl

    kinds_differ :
        (status : ℕ)
        → has status type_changed ≡ true
        → eq_kind stat1.kind stat2.kind ≡ false
        → Gives
            (twosome_below signatures dev1 dev2 recur (n ∷ path) stat1 es1 stat2 es2 status)
            (n ∷ path)
            Below
    unfolding twosome_below
    kinds_differ status h k =
        let one : (is_dir stat1 ≡ false) ⊎ (is_dir stat2 ≡ false) =
          elim (Bool-cases (is_dir stat1)) [
            | inl d ↦ elim (Bool-cases (is_dir stat2)) [
              | inl d2 ↦ absurd (ground (arith, k, eq_kind_directory stat1.kind stat2.kind d d2))
              | inr d2 ↦ inr d2
            ]
            | inr d ↦ inl d
          ] in
        rw
          (
            h,
            both_ifs (is_dir stat1) (stat1.dev == dev1) (list_subdirs es1 (n ∷ path) deleted) same1,
            both_ifs (is_dir stat2) (stat2.dev == dev2) (list_subdirs es2 (n ∷ path) created) same2,
          )
          (Gives-map _ (λ t s. (Below-split one t s).1) (λ t s. (Below-split one t s).0)
            (Gives-and_then _ _ (subdirs-Listed dev1 stat1 file1 es1 (n ∷ path) deleted w1)
              (subdirs-Listed dev2 stat2 file2 es2 (n ∷ path) created w2)))

    own :
        (status : ℕ)
        → (path : Trail)
        → Gives
            (if status == 0 then nothing else report path status)
            path
            (λ t s. (t ≡ []) × ((if status == 0 then none else some status) ≡ some s))
    own status path = elim (Bool-cases (status == 0)) [
      | inl e ↦ rw e (Gives-nothing (λ t s h. absurd (ground (arith, h.1))))
      | inr e ↦ rw e (
          Gives-map _ (λ t s h. (h.0, rw h.1 refl)) (λ t s h. (h.0, ground (arith, h.1)))
            (Gives-report status))
    ]

    pub twosome-Gives :
        Gives
          (twosome signatures dev1 dev2 recur
            (n ∷ path)
            (node stat1 file1 es1)
            (node stat2 file2 es2))
          (n ∷ path)
          (λ t s.
            expected signatures
              (find (some (node stat1 file1 es1)) t)
              (find (some (node stat2 file2 es2)) t)
            ≡ some s)
    unfolding twosome
    twosome-Gives =
        let status = cmp_files signatures stat1 file1 stat2 file2 in
        let below : Gives
            (twosome_below signatures dev1 dev2 recur (n ∷ path) stat1 es1 stat2 es2 status)
            (n ∷ path) Below =
          elim (Bool-cases (eq_kind stat1.kind stat2.kind)) [
            | inl k ↦
                kinds_same status (cmp_files-type signatures stat1 file1 stat2 file2 ∙ ap not k) k
            | inr k ↦
                kinds_differ status (cmp_files-type signatures stat1 file1 stat2 file2 ∙ ap not k) k
          ] in
        subst Good (sym both)
          (Gives-map _ back forth (Gives-and_then _ _ (own status (n ∷ path)) below))
      where
        Wanted : Trail → ℕ → Type 0
        Wanted t s =
            expected signatures (find (some (node stat1 file1 es1)) t)
              (find (some (node stat2 file2 es2)) t)
            ≡ some s

        Good : Bool → Type 0
        Good b =
            let status = if b then cmp_files signatures stat1 file1 stat2 file2 else 0 in
            Gives
              (and_then (if status == 0 then nothing else report (n ∷ path) status)
                (twosome_below signatures dev1 dev2 recur (n ∷ path) stat1 es1 stat2 es2 status))
              (n ∷ path) Wanted

        both : ((stat1.dev == dev1) && (stat2.dev == dev2)) ≡ true
        both = rw (same1, same2) refl

        back :
            (t : Trail) (s : ℕ)
            → ((t ≡ [])
                × ((if cmp_files signatures stat1 file1 stat2 file2 == 0
                      then none
                      else some (cmp_files signatures stat1 file1 stat2 file2))
                    ≡ some s))
              ⊎ Below t s
            → expected signatures
                (find (some (node stat1 file1 es1)) t)
                (find (some (node stat2 file2 es2)) t)
              ≡ some s
        back [] s h = elim h [ inl x ↦ x.1 | inr x ↦ absurd x ]
        back (k ∷ t) s h = elim h [ inl x ↦ absurd (ground (arith, x.0)) | inr x ↦ x ]

        forth :
            (t : Trail) (s : ℕ)
            → expected signatures
                (find (some (node stat1 file1 es1)) t)
                (find (some (node stat2 file2 es2)) t)
              ≡ some s
            → ((t ≡ [])
                × ((if cmp_files signatures stat1 file1 stat2 file2 == 0
                      then none
                      else some (cmp_files signatures stat1 file1 stat2 file2))
                    ≡ some s))
              ⊎ Below t s
        forth [] s h = inl (refl, h)
        forth (k ∷ t) s h = inr h
