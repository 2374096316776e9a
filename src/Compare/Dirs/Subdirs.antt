-- ===== src/Compare/Dirs/Subdirs.antt =====
-- listSubdirs of snapper/Compare.cc reports everything below a directory.
use snapper.Base.{
  Bytes, eq_bytes, eq_bytes_iff, find_key, ℕ, ◌≡◌, refl, sym, ap, subst, ◌⊎◌, inl, inr, true, false,
  Option, none, some, [], ◌∷◌, if◌then◌else◌, arith, Bool-cases,
}
use snapper.Compare.Content.{Stat, Payload, is_dir}
use snapper.Compare.Dirs.{
  Node, broken, node, Entries, end, closed, entry, Trail, Listing, listing, list_subdirs, descend,
}
use snapper.Compare.Dirs.Tree.{
  find, IsFound, IsWhole, AreWhole, Gives, Gives-map, Gives-under, Gives-and_then, Gives-nothing,
  Gives-report,
}

-- What stands at a path below a directory with this listing.
abbrev pub find_in : Listing → Trail → Option Node
find_in l [] = none
find_in l (k ∷ t) = find (find_key k l) t

-- Each path at which something stands, with one status.
abbrev pub Listed : ℕ → (Trail → Option Node) → Trail → ℕ → Type 0
Listed status place t s = (s ≡ status) × IsFound (place t)

-- The same without the starting point.
abbrev pub below : Node → Trail → Option Node
below n [] = none
below n (k ∷ t) = find (some n) (k ∷ t)

-- A name at the head of a listing: what stands there, and what stands at the other names.
abbrev Split : ℕ → Bytes → Node → Listing → Trail → ℕ → Type 0
Split status name n rest t s =
    ((t' : Trail) × (t ≡ name ∷ t') × ((t' ≡ []) × (s ≡ status) ⊎ Listed status (below n) t' s))
    ⊎ Listed status (find_in rest) t s

module _ (status : ℕ) (name : Bytes) (n : Node) (rest : Listing)
    (new : find_key name rest ≡ none) where
  to_head :
      (t : Trail) → IsFound (find (some n) t) → IsFound (find_in ((name, n) ∷ rest) (name ∷ t))
  unfolding find_key
  to_head t h = rw ((eq_bytes_iff name name).1 refl) h

  to_rest : (t : Trail) → IsFound (find_in rest t) → IsFound (find_in ((name, n) ∷ rest) t)
  unfolding find_key
  to_rest [] h = h
  to_rest (k ∷ t) h = elim (Bool-cases (eq_bytes name k)) [
    | inl e ↦
        let q : find_key k rest ≡ none =
          subst (λ j. find_key j rest ≡ none) ((eq_bytes_iff name k).0 e) new in
        absurd (subst (λ o. IsFound (find o t)) q h)
    | inr e ↦ rw e h
  ]

  of_below : (t : Trail) → IsFound (below n t) → IsFound (find (some n) t)
  of_below [] h = absurd h
  of_below (k ∷ t) h = h

  from_Split :
      (t : Trail) (s : ℕ)
      → Split status name n rest t s
      → Listed status (find_in ((name, n) ∷ rest)) t s
  from_Split t s (inl (t', q, inl (e, p))) = (
    p,
    rw q (subst (λ u. IsFound (find_in ((name, n) ∷ rest) (name ∷ u))) (sym e) (to_head [] tt)),
  )
  from_Split t s (inl (t', q, inr (p, h))) = (p, rw q (to_head t' (of_below t' h)))
  from_Split t s (inr (p, h)) = (p, to_rest t h)

  to_Split :
      (t : Trail) (s : ℕ)
      → Listed status (find_in ((name, n) ∷ rest)) t s
      → Split status name n rest t s
  unfolding find_key
  to_Split [] s (p, h) = absurd h
  to_Split (k ∷ t) s (p, h) = elim (Bool-cases (eq_bytes name k)) [
    | inl e ↦
        let q : find_in ((name, n) ∷ rest) (k ∷ t) ≡ find (some n) t = ground (arith, e) in
        let h' : IsFound (find (some n) t) = subst IsFound q h in
        inl (t, ap (λ j. j ∷ t) (sym ((eq_bytes_iff name k).0 e)), at t h')
    | inr e ↦
        let q : find_in ((name, n) ∷ rest) (k ∷ t) ≡ find_in rest (k ∷ t) = ground (arith, e) in
        inr (p, subst IsFound q h)
  ]
    where
      at :
          (t : Trail)
          → IsFound (find (some n) t)
          → (t ≡ []) × (s ≡ status) ⊎ Listed status (below n) t s
      at [] h = inl (refl, p)
      at (i ∷ t) h = inr (p, h)

pub nothing_below :
    (stat : Stat) (file : Payload) (es : Entries) (t : Trail)
    → is_dir stat ≡ false
    → ¬ IsFound (below (node stat file es) t)
nothing_below stat file es [] e h = h
nothing_below stat file es (k ∷ t) e h =
    subst IsFound (ap (λ b. if b then find (find_key k (listing es)) t else none) e) h

pub below-dir :
    (stat : Stat) (file : Payload) (es : Entries) (t : Trail)
    → is_dir stat ≡ true
    → below (node stat file es) t ≡ find_in (listing es) t
below-dir stat file es [] e = refl
below-dir stat file es (k ∷ t) e = ap (λ b. if b then find (find_key k (listing es)) t else none) e

-- The three runs for a head, in the order of the source.
abbrev Three : ℕ → Bytes → Node → Listing → Trail → ℕ → Type 0
Three status name n rest t s =
    ((t' : Trail) × (t ≡ name ∷ t') × ((t' ≡ []) × (s ≡ status)))
    ⊎ (((t' : Trail) × (t ≡ name ∷ t') × Listed status (below n) t' s)
        ⊎ Listed status (find_in rest) t s)

module _ (status : ℕ) (name : Bytes) (n : Node) (rest : Listing) (t : Trail) (s : ℕ) where
  from_Three : Three status name n rest t s → Split status name n rest t s
  from_Three (inl (u, q, x)) = inl (u, q, inl x)
  from_Three (inr (inl (u, q, y))) = inl (u, q, inr y)
  from_Three (inr (inr z)) = inr z

  to_Three : Split status name n rest t s → Three status name n rest t s
  to_Three (inl (u, q, inl x)) = inl (u, q, x)
  to_Three (inl (u, q, inr y)) = inr (inl (u, q, y))
  to_Three (inr z) = inr (inr z)

nowhere : (t : Trail) → ¬ IsFound (find_in [] t)
unfolding find_key
nowhere [] h = h
nowhere (k ∷ t) h = h

mutual
  unfolding list_subdirs

  pub list_subdirs-Listed :
      (dev : ℕ) (es : Entries) (path : Trail) (status : ℕ)
      → AreWhole dev es
      → Gives (list_subdirs es path status) path (Listed status (find_in (listing es)))
  list_subdirs-Listed dev closed path status w = absurd w
  list_subdirs-Listed dev end path status w = Gives-nothing (λ t s h. nowhere t h.1)
  list_subdirs-Listed dev (entry name n rest) path status w =
      Gives-map _
        (λ t s h.
          from_Split status name n (listing rest) w.0 t s
            (from_Three status name n (listing rest) t s h))
        (λ t s h.
          to_Three status name n (listing rest) t s
            (to_Split status name n (listing rest) w.0 t s h))
        (Gives-and_then _ _ (Gives-under _ name (Gives-report status)) (
          Gives-and_then _ _ (Gives-under _ name (descend-Listed dev n (name ∷ path) status w.1))
            (list_subdirs-Listed dev rest path status w.2)))

  pub descend-Listed :
      (dev : ℕ) (n : Node) (path : Trail) (status : ℕ)
      → IsWhole dev n
      → Gives (descend n path status) path (Listed status (below n))
  descend-Listed dev broken path status w = absurd w
  descend-Listed dev (node stat file es) path status w = elim (Bool-cases (is_dir stat)) [
    | inl e ↦
        rw (e, descend)
          (Gives-map _ (λ t s h. (h.0, subst IsFound (sym (below-dir stat file es t e)) h.1))
            (λ t s h. (h.0, subst IsFound (below-dir stat file es t e) h.1))
            (list_subdirs-Listed dev es path status w.1))
    | inr e ↦ rw (e, descend) (Gives-nothing (λ t s h. nothing_below stat file es t e h.1))
  ]
