-- ===== src/Compare/Dirs/Merge.antt =====
-- The loop of cmpDirsWorker (snapper/Compare.cc) over the two sorted lists of names.
use snapper.Base.{
  Bytes, eq_bytes, eq_bytes_iff, find_key, ℕ, ◌≡◌, refl, sym, ap, ◌∙◌, subst, ◌⊎◌, inl, inr, true,
  false, none, some, List, [], ◌∷◌, arith, Bool-cases,
}
use snapper.Compare.Dirs.{Trail, Listing, Run, and_then, filter}
use snapper.Compare.Dirs.Tree.{find, expected, Gives, Gives-map, Gives-under, Gives-and_then}

module _ (signatures : List Bytes) where
  -- What is to be reported below a path, by the listings of the two directories there.
  abbrev pub Differs : Trail → Listing → Listing → Trail → ℕ → Type 0
  Differs path l r [] s = ⊥
  Differs path l r (k ∷ t) s =
      (filter (k ∷ path) ≡ false)
      × (expected signatures (find (find_key k l) t) (find (find_key k r) t) ≡ some s)

  module _ (path : Trail) (n : Bytes) (l r l' r' : Listing)
      (rl : (k : Bytes) → eq_bytes n k ≡ false → find_key k l ≡ find_key k l')
      (rr : (k : Bytes) → eq_bytes n k ≡ false → find_key k r ≡ find_key k r') where
    others :
        (k : Bytes) (t : Trail)
        → eq_bytes n k ≡ false
        → expected signatures (find (find_key k l) t) (find (find_key k r) t)
          ≡ expected signatures (find (find_key k l') t) (find (find_key k r') t)
    others k t e = rw (rl k e, rr k e) refl

    -- A name that the filter takes out.
    pub Differs-skip :
        (b : Run)
        → filter (n ∷ path) ≡ true
        → Gives b path (Differs path l' r')
        → Gives b path (Differs path l r)
    Differs-skip b f g = Gives-map b back forth g
      where
        hidden : (k : Bytes) → filter (k ∷ path) ≡ false → eq_bytes n k ≡ false
        hidden k h = elim (Bool-cases (eq_bytes n k)) [
          | inl e ↦
              absurd (ground (arith, f, h, ap (λ j. filter (j ∷ path)) ((eq_bytes_iff n k).0 e)))
          | inr e ↦ e
        ]

        back : (t : Trail) (s : ℕ) → Differs path l' r' t s → Differs path l r t s
        back [] s h = h
        back (k ∷ t) s h = (h.0, others k t (hidden k h.0) ∙ h.1)

        forth : (t : Trail) (s : ℕ) → Differs path l r t s → Differs path l' r' t s
        forth [] s h = h
        forth (k ∷ t) s h = (h.0, sym (others k t (hidden k h.0)) ∙ h.1)

    -- A name that is handled by a run of its own.
    pub Differs-step :
        (a b : Run)
        → filter (n ∷ path) ≡ false
        → find_key n l' ≡ none
        → find_key n r' ≡ none
        → Gives a
            (n ∷ path)
            (λ t s. expected signatures (find (find_key n l) t) (find (find_key n r) t) ≡ some s)
        → Gives b path (Differs path l' r')
        → Gives (and_then a b) path (Differs path l r)
    Differs-step a b f gl gr h g =
        Gives-map (and_then a b) back forth (Gives-and_then a b (Gives-under a n h) g)
      where
        Own : Trail → ℕ → Type 0
        Own t s =
            (u : Trail) × (t ≡ n ∷ u)
            × (expected signatures (find (find_key n l) u) (find (find_key n r) u) ≡ some s)

        back : (t : Trail) (s : ℕ) → Own t s ⊎ Differs path l' r' t s → Differs path l r t s
        back t s (inl (u, q, e)) = rw q (f, e)
        back [] s (inr d) = d
        back (k ∷ t) s (inr d) = elim (Bool-cases (eq_bytes n k)) [
          | inl e ↦
              let q : k ≡ n = sym ((eq_bytes_iff n k).0 e) in
              let x : expected signatures (find (find_key k l') t) (find (find_key k r') t) ≡ none =
                rw (q, gl, gr) refl in
              absurd (ground (arith, x, d.1))
          | inr e ↦ (d.0, others k t e ∙ d.1)
        ]

        forth : (t : Trail) (s : ℕ) → Differs path l r t s → Own t s ⊎ Differs path l' r' t s
        forth [] s d = absurd d
        forth (k ∷ t) s d = elim (Bool-cases (eq_bytes n k)) [
          | inl e ↦
              let q : k ≡ n = sym ((eq_bytes_iff n k).0 e) in
              inl (
                t,
                ap (λ j. j ∷ t) q,
                subst
                    (λ j.
                      expected signatures (find (find_key j l) t) (find (find_key j r) t) ≡ some s)
                    q d.1,
              )
          | inr e ↦ inr (d.0, sym (others k t e) ∙ d.1)
        ]
