-- ===== src/Lvm/Whole.antt =====
-- Every operation of LvmCache (snapper/LvmCache.cc) keeps the cache as LVM is.
use snapper.Base.{
  Bytes, eq_bytes, eq_bytes_iff, ◌≡◌, refl, inl, inr, sym, ap, ◌∙◌, subst, Bool, true, false, not,
  ◌&&◌, ◌||◌, Option, none, some, List, [], ◌∷◌, if◌then◌else◌, arith, In, Bool-cases, Option-cases,
}
use snapper.Lvm.{
  LvAttrs, lv_attrs, Command, lvs_vg, lvchange_active, lvchange_permission, Reply, volume_group,
  contains_text, snapshot_text, Operation, activate, deactivate, add_or_update, delete_snapshot,
  set_read_only, create_snapshot, Cache, cached, contains_thin, change, activate_volume,
  deactivate_volume, set_volume_read_only, at, create_in, add_or_update_in, remove_in, read_lines,
  add_vg, perform,
}
use snapper.Lvm.Coherent.{
  Attributes, IsLvm, Agrees, Follows, at-Agrees, at-Keeps, change-Follows, unless-Follows,
  add_or_update_in-Keeps, create_in-Keeps, remove_in-Keeps,
}

some_inj : {A : Type 0} {x y : A} → some x ≡ some y → x ≡ y
some_inj h = ground (arith, h)

-- A volume that a new group has is that of a line.
volume_group-some :
    (lv : Bytes) (l : List (Bytes × List Bytes)) (j : Bytes) (a : LvAttrs)
    → volume_group lv l j ≡ some a
    → (raw : List Bytes) × In (j, raw) l × (lv_attrs raw ≡ a)
unfolding volume_group
volume_group-some lv [] j a h = cc
volume_group-some lv ((name, raw) ∷ l) j a h =
    elim (Bool-cases (eq_bytes name j && (eq_bytes name lv || contains_text snapshot_text name))) [
      | inl e ↦
          let same : eq_bytes name j ≡ true = ground (arith, e) in
          (raw, inl (ap (λ n. (n, raw)) (sym ((eq_bytes_iff name j).0 same))), some_inj (rw e at h))
      | inr e ↦ let (r, m, v) = volume_group-some lv l j a (rw e at h) in (r, inr m, v)
    ]

-- Snapshots are made of thin volumes, which the constructor of class Lvm sees to.
abbrev pub IsAllowed : Operation → Cache → Type 0
IsAllowed (create_snapshot vg origin name b) c = contains_thin c vg origin ≡ true
IsAllowed _ c = Unit {0}

module _ {W : Type 0} (run : Command → W → Reply × W) (words : Bytes → List Bytes) (skip : Bool)
    (attributes : W → Attributes) (law : IsLvm run words skip attributes) where
  line_parts :
      (line : Bytes) (lines : List Bytes) (content : List (Bytes × List Bytes))
      → read_lines run words skip (line ∷ lines) ≡ some content
      → (name : Bytes) × (raw : List Bytes) × (rest : List (Bytes × List Bytes)) × (words line
          ≡ name ∷ raw)
        × (read_lines run words skip lines ≡ some rest)
        × ((name, raw) ∷ rest ≡ content)
  line_parts line lines content h = go (words line) refl (read_lines run words skip lines) refl h
    where
      go :
          (l : List Bytes)
          → words line ≡ l
          → (o : Option (List (Bytes × List Bytes))) → read_lines run words skip lines ≡ o
          → elim l [
            | [] ↦ none
            | name ∷ raw ↦ elim o [ none ↦ none | some content ↦ some ((name, raw) ∷ content) ]
          ]
            ≡ some content
          → (name : Bytes) × (raw : List Bytes) × (rest : List (Bytes × List Bytes)) × (words line
              ≡ name ∷ raw)
            × (read_lines run words skip lines ≡ some rest)
            × ((name, raw) ∷ rest ≡ content)
      go [] p o q h = cc
      go (name ∷ raw) p none q h = cc
      go (name ∷ raw) p (some rest) q h = (name, raw, rest, p, q, some_inj h)

  read_lines-In :
      (lines : List Bytes) (content : List (Bytes × List Bytes)) (e : Bytes × List Bytes)
      → read_lines run words skip lines ≡ some content
      → In e content
      → (line : Bytes) × In line lines × (words line ≡ e.0 ∷ e.1)
  read_lines-In [] content e h m = absurd (subst (λ l. In e l) (sym (some_inj h)) m)
  read_lines-In (line ∷ lines) content e h m =
      let (name, raw, rest, p, q, r) = line_parts line lines content h in
      elim (subst (λ l. In e l) (sym r) m) [
        | inl x ↦ (line, inl refl, p ∙ ap (λ (y : Bytes × List Bytes). y.0 ∷ y.1) (sym x))
        | inr x ↦ let (line', a, b) = read_lines-In lines rest e q x in (line', inr a, b)
      ]

  lvs_vg_same : (vg j i : Bytes) (w : W) → attributes (run (lvs_vg vg) w).1 j i ≡ attributes w j i
  lvs_vg_same vg j i w =
      law.0 (lvs_vg vg) w j i
      ∙ elim (Bool-cases (run (lvs_vg vg) w).0.good) [ inl e ↦ rw e refl | inr e ↦ rw e refl ]

  add_vg-Agrees :
      (vg lv : Bytes) (c : Cache) (w : W)
      → Agrees run words skip attributes c w
      → Agrees run words skip attributes
          (add_vg run words skip vg lv c w).1
          (add_vg run words skip vg lv c w).2
  unfolding add_vg
  add_vg-Agrees vg lv c w k = elim (Bool-cases (run (lvs_vg vg) w).0.good) [
    | inr g ↦ rw (g, add_vg) (λ j i a p. lvs_vg_same vg j i w ∙ k j i a p)
    | inl g ↦ elim (Option-cases (read_lines run words skip (run (lvs_vg vg) w).0.stdout)) [
      | inl e ↦ rw (g, e, add_vg) (λ j i a p. lvs_vg_same vg j i w ∙ k j i a p)
      | inr (content, e) ↦
          rw (g, e, add_vg)
            (λ j i a p. lvs_vg_same vg j i w ∙ elim (Bool-cases (eq_bytes vg j)) [
              | inr s ↦ k j i a (rw (s, cached) at p)
              | inl s ↦
                  let (raw, m, v) = volume_group-some lv content i a (rw (s, cached) at p) in
                  let (line, n, x) = read_lines-In _ content (i, raw) e m in
                  subst (λ j. attributes w j i ≡ some a) ((eq_bytes_iff vg j).0 s)
                    (law.2 vg w line i raw g n x ∙ ap some v)
            ])
    ]
  ]

  pub activate-Follows :
      (vg lv : Bytes)
      → Follows run words skip attributes vg lv (activate_volume run words skip vg lv)
  activate-Follows vg lv =
      unless-Follows run words skip attributes law vg lv (λ a. a.active)
        (change run words skip (lvchange_active vg lv true) (λ x. record x { active = true }))
        (change-Follows run words skip attributes law vg lv (lvchange_active vg lv true)
          (λ x. record x { active = true }) (λ real j i. refl))

  pub deactivate-Follows :
      (vg lv : Bytes)
      → Follows run words skip attributes vg lv (deactivate_volume run words skip vg lv)
  deactivate-Follows vg lv =
      unless-Follows run words skip attributes law vg lv (λ a. not a.active)
        (change run words skip (lvchange_active vg lv false) (λ x. record x { active = false }))
        (change-Follows run words skip attributes law vg lv (lvchange_active vg lv false)
          (λ x. record x { active = false }) (λ real j i. refl))

  pub set_read_only-Follows :
      (vg lv : Bytes) (b : Bool)
      → Follows run words skip attributes vg lv (set_volume_read_only run words skip vg lv b)
  set_read_only-Follows vg lv b =
      unless-Follows run words skip attributes law vg lv
        (λ a. if b then a.read_only else not a.read_only)
        (change run words skip (lvchange_permission vg lv b) (λ x. record x { read_only = b }))
        (change-Follows run words skip attributes law vg lv (lvchange_permission vg lv b)
          (λ x. record x { read_only = b }) (λ real j i. refl))

  volume-Agrees :
      (vg lv : Bytes) (f : LvAttrs → W → Bool × LvAttrs × W) (c : Cache) (w : W)
      → Follows run words skip attributes vg lv f
      → Agrees run words skip attributes c w
      → Agrees run words skip attributes
          (at run words skip vg (at run words skip lv f) c w).1
          (at run words skip vg (at run words skip lv f) c w).2
  volume-Agrees vg lv f c w h k =
      at-Agrees run words skip attributes vg (at run words skip lv f) c w
        (λ m e. at-Keeps run words skip attributes vg lv f m w h) k

  -- Every operation of the cache, whether it throws or not, leaves the cache such that what it has of a
  -- volume is what LVM says of it, if the cache was so before and snapshots are made of thin volumes.
  pub perform-Agrees :
      (o : Operation) (c : Cache) (w : W)
      → Agrees run words skip attributes c w
      → IsAllowed o c
      → Agrees run words skip attributes
          (perform run words skip o c w).1
          (perform run words skip o c w).2
  unfolding perform
  perform-Agrees (activate vg lv) c w k h =
      volume-Agrees vg lv (activate_volume run words skip vg lv) c w (activate-Follows vg lv) k
  perform-Agrees (deactivate vg lv) c w k h =
      volume-Agrees vg lv (deactivate_volume run words skip vg lv) c w (deactivate-Follows vg lv) k
  perform-Agrees (set_read_only vg lv b) c w k h =
      volume-Agrees vg lv (set_volume_read_only run words skip vg lv b) c w
        (set_read_only-Follows vg lv b) k
  perform-Agrees (add_or_update vg lv) c w k h = elim (Option-cases (c vg)) [
    | inl e ↦ rw (e, perform) (add_vg-Agrees vg lv c w k)
    | inr (m, e) ↦
        rw (e, perform)
          (at-Agrees run words skip attributes vg (add_or_update_in run words skip vg lv) c w
            (λ m e. add_or_update_in-Keeps run words skip attributes law vg lv m w) k)
  ]
  perform-Agrees (create_snapshot vg origin name b) c w k h =
      at-Agrees run words skip attributes vg (create_in run words skip vg origin name b) c w
        (λ m e. elim (Option-cases (m origin)) [
          | inl f ↦ absurd (ground (arith, (rw (e, f, IsAllowed, contains_thin, cached) at h)))
          | inr (a, f) ↦
              create_in-Keeps run words skip attributes law vg origin name b m w a f
                (rw (e, f, IsAllowed, contains_thin, cached) at h)
        ])
        k
  perform-Agrees (delete_snapshot vg lv) c w k h =
      at-Agrees run words skip attributes vg (remove_in run words skip vg lv) c w
        (λ m e. remove_in-Keeps run words skip attributes law vg lv m w) k
