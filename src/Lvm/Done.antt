-- ===== src/Lvm/Done.antt =====
-- What an operation of LvmCache (snapper/LvmCache.cc) that does not throw has made of the volumes of LVM.
use snapper.Base.{
  Bytes, ◌≡◌, refl, inl, inr, ◌∙◌, Bool, true, false, not, none, some, List, if◌then◌else◌, arith,
  Bool-cases, Option-cases,
}
use snapper.Lvm.{
  LvAttrs, Command, lvchange_active, lvchange_permission, lvcreate, lvremove, Reply, Operation,
  activate, deactivate, add_or_update, delete_snapshot, set_read_only, create_snapshot, Cache,
  cached, contains_thin, change, activate_volume, deactivate_volume, set_volume_read_only, at,
  create_in, remove_in, perform,
}
use snapper.Lvm.Coherent.{Attributes, IsLvm, Agrees, Follows, same_self}
use snapper.Lvm.Whole.{IsAllowed, activate-Follows, deactivate-Follows, set_read_only-Follows}

-- What an operation promises of the volumes.
abbrev pub IsDone : Bool → Attributes → Operation → Type 0
IsDone skip real (activate vg lv) = (a : LvAttrs) × (real vg lv ≡ some a) × (a.active ≡ true)
IsDone skip real (deactivate vg lv) = (a : LvAttrs) × (real vg lv ≡ some a) × (a.active ≡ false)
IsDone skip real (set_read_only vg lv b) = (a : LvAttrs) × (real vg lv ≡ some a) × (a.read_only ≡ b)
IsDone skip real (add_or_update vg lv) = Unit {0}
IsDone skip real (create_snapshot vg origin name b) =
    real vg name ≡ some (record { active = not skip; read_only = b; thin = true })
IsDone skip real (delete_snapshot vg lv) = real vg lv ≡ none

module _ {W : Type 0} (run : Command → W → Reply × W) (words : Bytes → List Bytes) (skip : Bool)
    (attributes : W → Attributes) (law : IsLvm run words skip attributes) where
  -- An operation on one volume that has made P of its attributes.
  volume-done :
      (P : LvAttrs → Type 0)
      → (vg lv : Bytes) (f : LvAttrs → W → Bool × LvAttrs × W) (c : Cache) (w : W)
      → Follows run words skip attributes vg lv f
      → ((a : LvAttrs) (w : W) → (f a w).0 ≡ true → P (f a w).1)
      → Agrees run words skip attributes c w
      → (at run words skip vg (at run words skip lv f) c w).0 ≡ true
      → (a : LvAttrs) × (attributes (at run words skip vg (at run words skip lv f) c w).2 vg lv
          ≡ some a)
        × P a
  volume-done P vg lv f c w follows made k h = elim (Option-cases (c vg)) [
    | inl e ↦ absurd (ground (arith, (rw (e, at) at h)))
    | inr (m, e) ↦ elim (Option-cases (m lv)) [
      | inl g ↦ absurd (ground (arith, (rw (e, g, at) at h)))
      | inr (a, g) ↦
          let real : attributes w vg lv ≡ some a = k vg lv a (rw (e, g, cached) refl) in
          rw (e, g, at) ((f a w).1, (follows a w real).0, made a w (rw (e, g, at) at h))
    ]
  ]

  -- A command that is run unless there is nothing to do.
  unless-made :
      (P : LvAttrs → Type 0)
      → (p : LvAttrs → Bool) (c : Command) (f : LvAttrs → LvAttrs)
      → ((a : LvAttrs) → p a ≡ true → P a)
      → ((a : LvAttrs) → P (f a))
      → (a : LvAttrs) (w : W)
      → (if p a then (true, a, w) else change run words skip c f a w).0 ≡ true
      → P (if p a then (true, a, w) else change run words skip c f a w).1
  unless-made P p c f x y a w h = elim (Bool-cases (p a)) [
    | inl e ↦ rw e (x a e)
    | inr e ↦ let good : (run c w).0.good ≡ true = (rw e at h) in rw (e, good) (y a)
  ]

  -- An operation of the cache that does not throw has done in LVM itself what it is for, also where it
  -- has run no command, if the cache was as LVM is and snapshots are made of thin volumes: a volume is
  -- active, inactive, read-only or writable, a snapshot is there with these attributes, or is gone.
  pub perform-IsDone :
      (o : Operation) (c : Cache) (w : W)
      → Agrees run words skip attributes c w
      → IsAllowed o c
      → (perform run words skip o c w).0 ≡ true
      → IsDone skip (attributes (perform run words skip o c w).2) o
  unfolding perform
  perform-IsDone (activate vg lv) c w k q h =
      volume-done (λ a. a.active ≡ true) vg lv (activate_volume run words skip vg lv) c w
        (activate-Follows run words skip attributes law vg lv)
        (unless-made (λ a. a.active ≡ true) (λ a. a.active) (lvchange_active vg lv true)
          (λ x. record x { active = true }) (λ a e. e) (λ a. refl))
        k h
  perform-IsDone (deactivate vg lv) c w k q h =
      volume-done (λ a. a.active ≡ false) vg lv (deactivate_volume run words skip vg lv) c w
        (deactivate-Follows run words skip attributes law vg lv)
        (unless-made (λ a. a.active ≡ false) (λ a. not a.active) (lvchange_active vg lv false)
          (λ x. record x { active = false }) (λ a e. ground (arith, e)) (λ a. refl))
        k h
  perform-IsDone (set_read_only vg lv b) c w k q h =
      volume-done (λ a. a.read_only ≡ b) vg lv (set_volume_read_only run words skip vg lv b) c w
        (set_read_only-Follows run words skip attributes law vg lv b)
        (unless-made (λ a. a.read_only ≡ b) (λ a. if b then a.read_only else not a.read_only)
          (lvchange_permission vg lv b) (λ x. record x { read_only = b })
          (λ a e. equal b a.read_only e) (λ a. refl))
        k h
    where
      equal : (b x : Bool) → (if b then x else not x) ≡ true → x ≡ b
      equal true x e = e
      equal false x e = ground (arith, e)
  perform-IsDone (add_or_update vg lv) c w k q h = tt
  perform-IsDone (create_snapshot vg origin name b) c w k q h = elim (Option-cases (c vg)) [
    | inl e ↦ absurd (ground (arith, (rw (e, at) at h)))
    | inr (m, e) ↦ elim (Option-cases (m name)) [
      | inr (x, g) ↦ absurd (ground (arith, (rw (e, g, at, create_in) at h)))
      | inl g ↦ elim (Option-cases (m origin)) [
        | inl i ↦ absurd (ground (arith, (rw (e, i, contains_thin, cached, IsAllowed) at q)))
        | inr (a, i) ↦
            let thin : a.thin ≡ true = (rw (e, i, contains_thin, cached, IsAllowed) at q) in
            let good : (run (lvcreate vg origin name b) w).0.good ≡ true =
              (rw (e, g, at, create_in) at h) in
            let real : attributes w vg origin ≡ some a = k vg origin a (rw (e, i, cached) refl) in
            rw (e, g, at, create_in)
              (law.0 (lvcreate vg origin name b) w vg name
                ∙ rw (good, same_self run words skip attributes vg name, real, thin) refl)
      ]
    ]
  ]
  perform-IsDone (delete_snapshot vg lv) c w k q h = elim (Option-cases (c vg)) [
    | inl e ↦ absurd (ground (arith, (rw (e, at) at h)))
    | inr (m, e) ↦ elim (Option-cases (m lv)) [
      | inl g ↦ absurd (ground (arith, (rw (e, g, at, remove_in) at h)))
      | inr (x, g) ↦
          let good : (run (lvremove vg lv) w).0.good ≡ true = (rw (e, g, at, remove_in) at h) in
          rw (e, g, at, remove_in)
            (law.0 (lvremove vg lv) w vg lv
              ∙ rw (good, same_self run words skip attributes vg lv) refl)
    ]
  ]
