-- ===== src/Lvm/Coherent.antt =====
-- The cache of LVM volumes (snapper/LvmCache.cc) says what LVM says.
use snapper.Base.{
  Bytes, eq_bytes, eq_bytes_iff, eq_bytes_refl, ◌≡◌, refl, inl, inr, ◌∙◌, subst, Bool, true, false,
  not, ◌&&◌, Option, none, some, List, [], ◌∷◌, if◌then◌else◌, arith, In, Bool-cases, Option-cases,
}
use snapper.Lvm.{
  LvAttrs, lv_attrs, Command, lvs, lvs_vg, lvchange_active, lvchange_permission, lvcreate, lvremove,
  Reply, Volumes, update, Cache, cached, change, read_attrs, update_volume, at, create_in,
  add_or_update_in, remove_in,
}

-- The attributes of all volumes, by volume group and name.
abbrev pub Attributes : Type 0
Attributes = Bytes → Bytes → Option LvAttrs

abbrev pub same : Bytes → Bytes → Bytes → Bytes → Bool
same vg lv j i = eq_bytes vg j && eq_bytes lv i

abbrev pub with_attrs : (LvAttrs → LvAttrs) → Option LvAttrs → Option LvAttrs
with_attrs f none = none
with_attrs f (some a) = some (f a)

-- What a command that succeeds does to the volumes.
abbrev pub effect : Bool → Command → Attributes → Attributes
effect skip (lvs vg lv) real j i = real j i
effect skip (lvs_vg vg) real j i = real j i
effect skip (lvchange_active vg lv b) real j i =
    if same vg lv j i then with_attrs (λ x. record x { active = b }) (real vg lv) else real j i
effect skip (lvchange_permission vg lv b) real j i =
    if same vg lv j i then with_attrs (λ x. record x { read_only = b }) (real vg lv) else real j i
effect skip (lvcreate vg origin name b) real j i =
    if same vg name j i
    then with_attrs (λ x. record { active = not skip; read_only = b; thin = x.thin })
        (real vg origin)
    else real j i
effect skip (lvremove vg lv) real j i = if same vg lv j i then none else real j i

module _ {W : Type 0} (run : Command → W → Reply × W) (words : Bytes → List Bytes) (skip : Bool)
    (attributes : W → Attributes) where
  -- What is documented of the commands: one that fails changes nothing, and one that succeeds has its
  -- effect; lvs prints the attributes of the volume, or those of the volumes of a group.
  abbrev pub IsLvm : Type 0
  IsLvm =
      ((c : Command) (w : W) (j i : Bytes)
        → attributes (run c w).1 j i
          ≡ (if (run c w).0.good then effect skip c (attributes w) j i else attributes w j i))
      × ((vg lv : Bytes) (w : W) (line : Bytes) (lines : List Bytes) (a : Bytes) (args : List Bytes)
          → (run (lvs vg lv) w).0.good ≡ true
          → (run (lvs vg lv) w).0.stdout ≡ line ∷ lines
          → words line ≡ a ∷ args
          → attributes w vg lv ≡ some (lv_attrs (a ∷ args)))
      × ((vg : Bytes) (w : W) (line name : Bytes) (raw : List Bytes)
          → (run (lvs_vg vg) w).0.good ≡ true
          → In line (run (lvs_vg vg) w).0.stdout
          → words line ≡ name ∷ raw
          → attributes w vg name ≡ some (lv_attrs raw))

  -- The cache has no attributes but those that LVM has.
  abbrev pub Agrees : Cache → W → Type 0
  Agrees c w = (j i : Bytes) (a : LvAttrs) → cached c j i ≡ some a → attributes w j i ≡ some a

  -- An operation on one volume: the value that it leaves is that of LVM, and other volumes keep theirs.
  abbrev pub Follows : Bytes → Bytes → (LvAttrs → W → Bool × LvAttrs × W) → Type 0
  Follows vg lv f =
      (a : LvAttrs) (w : W)
      → attributes w vg lv ≡ some a
      → (attributes (f a w).2 vg lv ≡ some (f a w).1)
        × ((j i : Bytes) → same vg lv j i ≡ false → attributes (f a w).2 j i ≡ attributes w j i)

  -- The volumes of a group.
  abbrev pub Known : Bytes → Volumes → W → Type 0
  Known vg m w = (i : Bytes) (a : LvAttrs) → m i ≡ some a → attributes w vg i ≡ some a

  abbrev pub Keeps : Bytes → (Volumes → W → Bool × Volumes × W) → Volumes → W → Type 0
  Keeps vg f m w =
      Known vg m w
      → Known vg (f m w).1 (f m w).2
        × ((j i : Bytes) → eq_bytes vg j ≡ false → attributes (f m w).2 j i ≡ attributes w j i)

  pub same_self : (vg lv : Bytes) → same vg lv vg lv ≡ true
  same_self vg lv = rw (eq_bytes_refl vg, eq_bytes_refl lv) refl

  other_vg : (vg lv j i : Bytes) → eq_bytes vg j ≡ false → same vg lv j i ≡ false
  other_vg vg lv j i e = rw e refl

  other_lv : (vg lv i : Bytes) → eq_bytes lv i ≡ false → same vg lv vg i ≡ false
  other_lv vg lv i e = rw (eq_bytes_refl vg, e) refl

  update-Known :
      (vg lv : Bytes) (o : Option LvAttrs) (m : Volumes) (w w' : W)
      → Known vg m w
      → ((a : LvAttrs) → o ≡ some a → attributes w' vg lv ≡ some a)
      → ((i : Bytes) → eq_bytes lv i ≡ false → attributes w' vg i ≡ attributes w vg i)
      → Known vg (update lv o m) w'
  update-Known vg lv o m w w' k x y i b p = elim (Bool-cases (eq_bytes lv i)) [
    | inl e ↦ subst (λ i. attributes w' vg i ≡ some b) ((eq_bytes_iff lv i).0 e) (x b (rw e at p))
    | inr e ↦ y i e ∙ k i b (rw e at p)
  ]

  -- A group is changed as an operation on its volumes says.
  pub at-Agrees :
      (vg : Bytes) (f : Volumes → W → Bool × Volumes × W) (c : Cache) (w : W)
      → ((m : Volumes) → c vg ≡ some m → Keeps vg f m w)
      → Agrees c w
      → Agrees (at run words skip vg f c w).1 (at run words skip vg f c w).2
  at-Agrees vg f c w h k = elim (Option-cases (c vg)) [
    | inl e ↦ rw (e, at) k
    | inr (m, e) ↦
        let (x, y) = h m e (λ i a p. k vg i a (rw (e, cached) p)) in
        rw (e, at)
          (λ j i a p. elim (Bool-cases (eq_bytes vg j)) [
            | inl s ↦
                subst (λ j. attributes (f m w).2 j i ≡ some a) ((eq_bytes_iff vg j).0 s)
                  (x i a (rw (s, cached) at p))
            | inr s ↦ y j i s ∙ k j i a (rw (s, cached) at p)
          ])
  ]

  pub at-Keeps :
      (vg lv : Bytes) (f : LvAttrs → W → Bool × LvAttrs × W) (m : Volumes) (w : W)
      → Follows vg lv f
      → Keeps vg (at run words skip lv f) m w
  at-Keeps vg lv f m w h k = elim (Option-cases (m lv)) [
    | inl e ↦ rw (e, at) (k, λ j i n. refl)
    | inr (a, e) ↦
        let (x, y) = h a w (k lv a e) in
        rw (e, at)
          (
            update-Known vg lv (some (f a w).1) m w (f a w).2 k (λ b p. x ∙ p)
                (λ i n. y vg i (other_lv vg lv i n)),
            λ j i n. y j i (other_vg vg lv j i n),
          )
  ]

  module _ (law : IsLvm) where
    pub change-Follows :
        (vg lv : Bytes) (c : Command) (f : LvAttrs → LvAttrs)
        → ((real : Attributes) (j i : Bytes)
            → effect skip c real j i
              ≡ (if same vg lv j i then with_attrs f (real vg lv) else real j i))
        → Follows vg lv (change run words skip c f)
    change-Follows vg lv c f eff a w k = elim (Bool-cases (run c w).0.good) [
      | inl e ↦ (
        law.0 c w vg lv ∙ rw e (eff (attributes w) vg lv ∙ rw (same_self vg lv, k) refl),
        λ j i n. law.0 c w j i ∙ rw e (eff (attributes w) j i ∙ rw n refl),
      )
      | inr e ↦ (law.0 c w vg lv ∙ rw e k, λ j i n. law.0 c w j i ∙ rw e refl)
    ]

    -- An operation that has nothing to do.
    pub unless-Follows :
        (vg lv : Bytes) (p : LvAttrs → Bool) (f : LvAttrs → W → Bool × LvAttrs × W)
        → Follows vg lv f
        → Follows vg lv (λ a w. if p a then (true, a, w) else f a w)
    unless-Follows vg lv p f h a w k = elim (Bool-cases (p a)) [
      | inl e ↦ rw e (k, λ j i n. refl)
      | inr e ↦ rw e (h a w k)
    ]

    pub lvs_same :
        (vg lv j i : Bytes) (w : W) → attributes (run (lvs vg lv) w).1 j i ≡ attributes w j i
    lvs_same vg lv j i w =
        law.0 (lvs vg lv) w j i
        ∙ elim (Bool-cases (run (lvs vg lv) w).0.good) [ inl e ↦ rw e refl | inr e ↦ rw e refl ]

    read_attrs-some :
        (vg lv : Bytes) (w : W) (a : LvAttrs)
        → (read_attrs run words skip vg lv w).0 ≡ some a
        → attributes w vg lv ≡ some a
    read_attrs-some vg lv w a h = elim (Bool-cases (run (lvs vg lv) w).0.good) [
      | inr e ↦ absurd (ground (arith, (rw e at h)))
      | inl e ↦ go e (run (lvs vg lv) w).0.stdout refl (rw e at h)
    ]
      where
        word :
            (line : Bytes) (lines l : List Bytes)
            → (run (lvs vg lv) w).0.good ≡ true
            → (run (lvs vg lv) w).0.stdout ≡ line ∷ lines
            → words line ≡ l
            → elim l [ [] ↦ none | x ∷ args ↦ some (lv_attrs (x ∷ args)) ] ≡ some a
            → attributes w vg lv ≡ some a
        word line lines [] g p q r = cc
        word line lines (x ∷ args) g p q r = law.1 vg lv w line lines x args g p q ∙ r

        go :
            (run (lvs vg lv) w).0.good ≡ true
            → (l : List Bytes) → (run (lvs vg lv) w).0.stdout ≡ l
            → elim l [
              | [] ↦ none
              | line ∷ lines ↦ elim (words line) [
                | [] ↦ none
                | x ∷ args ↦ some (lv_attrs (x ∷ args))
              ]
            ]
              ≡ some a
            → attributes w vg lv ≡ some a
        go g [] p r = cc
        go g (line ∷ lines) p r = word line lines (words line) g p refl r

    pub update_volume-Follows : (vg lv : Bytes) → Follows vg lv (update_volume run words skip vg lv)
    update_volume-Follows vg lv a w k = elim (Option-cases (read_attrs run words skip vg lv w).0) [
      | inl e ↦ rw (e, update_volume) (lvs_same vg lv vg lv w ∙ k, λ j i n. lvs_same vg lv j i w)
      | inr (x, e) ↦
          rw (e, update_volume)
            (lvs_same vg lv vg lv w ∙ read_attrs-some vg lv w x e, λ j i n. lvs_same vg lv j i w)
    ]

    pub add_or_update_in-Keeps :
        (vg lv : Bytes) (m : Volumes) (w : W) → Keeps vg (add_or_update_in run words skip vg lv) m w
    add_or_update_in-Keeps vg lv m w k = elim (Option-cases (m lv)) [
      | inr (a, e) ↦
          rw (e, add_or_update_in)
            (at-Keeps vg lv (update_volume run words skip vg lv) m w (update_volume-Follows vg lv)
              k)
      | inl e ↦ elim (Option-cases (read_attrs run words skip vg lv w).0) [
        | inl f ↦
            rw (e, f, add_or_update_in)
              (λ i a p. lvs_same vg lv vg i w ∙ k i a p, λ j i n. lvs_same vg lv j i w)
        | inr (x, f) ↦
            rw (e, f, add_or_update_in)
              (
                update-Known vg lv (some x) m w (run (lvs vg lv) w).1 k
                    (λ a p. lvs_same vg lv vg lv w ∙ (read_attrs-some vg lv w x f ∙ p))
                    (λ i n. lvs_same vg lv vg i w),
                λ j i n. lvs_same vg lv j i w,
              )
      ]
    ]

    pub create_in-Keeps :
        (vg origin name : Bytes) (b : Bool) (m : Volumes) (w : W)
        → (a : LvAttrs) → m origin ≡ some a
        → a.thin ≡ true
        → Keeps vg (create_in run words skip vg origin name b) m w
    create_in-Keeps vg origin name b m w a o t k = elim (Option-cases (m name)) [
      | inr (x, e) ↦ rw (e, create_in) (k, λ j i n. refl)
      | inl e ↦ elim (Bool-cases (run (lvcreate vg origin name b) w).0.good) [
        | inr g ↦
            rw (e, g, create_in)
              (
                λ i y p. law.0 (lvcreate vg origin name b) w vg i ∙ rw g (k i y p),
                λ j i n. law.0 (lvcreate vg origin name b) w j i ∙ rw g refl,
              )
        | inl g ↦
            rw (e, g, create_in)
              (
                update-Known vg name
                    (some (record { active = not skip; read_only = b; thin = true })) m w
                    (run (lvcreate vg origin name b) w).1 k
                    (λ y p.
                      law.0 (lvcreate vg origin name b) w vg name
                      ∙ rw (g, same_self vg name, k origin a o, t) p)
                    (λ i n.
                      law.0 (lvcreate vg origin name b) w vg i ∙ rw (g, other_lv vg name i n) refl),
                λ j i n.
                    law.0 (lvcreate vg origin name b) w j i ∙ rw (g, other_vg vg name j i n) refl,
              )
      ]
    ]

    pub remove_in-Keeps :
        (vg lv : Bytes) (m : Volumes) (w : W) → Keeps vg (remove_in run words skip vg lv) m w
    remove_in-Keeps vg lv m w k = elim (Option-cases (m lv)) [
      | inl e ↦ rw (e, remove_in) (k, λ j i n. refl)
      | inr (a, e) ↦ elim (Bool-cases (run (lvremove vg lv) w).0.good) [
        | inr g ↦
            rw (e, g, remove_in)
              (
                λ i y p. law.0 (lvremove vg lv) w vg i ∙ rw g (k i y p),
                λ j i n. law.0 (lvremove vg lv) w j i ∙ rw g refl,
              )
        | inl g ↦
            rw (e, g, remove_in)
              (
                update-Known vg lv none m w (run (lvremove vg lv) w).1 k (λ y p. cc)
                    (λ i n. law.0 (lvremove vg lv) w vg i ∙ rw (g, other_lv vg lv i n) refl),
                λ j i n. law.0 (lvremove vg lv) w j i ∙ rw (g, other_vg vg lv j i n) refl,
              )
      ]
    ]
