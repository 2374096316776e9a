-- ===== src/Lvm/Failed.antt =====
-- What an operation of LvmCache (snapper/LvmCache.cc) that throws leaves.
use snapper.Base.{
  Bytes, eq_bytes, eq_bytes_iff, ◌≡◌, refl, inl, inr, sym, ap, ◌∙◌, subst, Bool, true, false, not,
  none, some, List, if◌then◌else◌, arith, Bool-cases, Option-cases,
}
use snapper.Lvm.{
  LvAttrs, Command, lvs_vg, lvchange_active, lvchange_permission, lvcreate, lvremove, Reply,
  Volumes, update, Operation, activate, deactivate, add_or_update, delete_snapshot, set_read_only,
  create_snapshot, Cache, cached, change, activate_volume, deactivate_volume, read_attrs,
  update_volume, set_volume_read_only, at, create_in, add_or_update_in, remove_in, read_lines,
  add_vg, perform,
}

module _ {W : Type 0} (run : Command → W → Reply × W) (words : Bytes → List Bytes)
    (skip : Bool) where
  -- An operation on one volume that throws leaves its attributes.
  abbrev Stays : (LvAttrs → W → Bool × LvAttrs × W) → Type 0
  Stays f = (a : LvAttrs) (w : W) → (f a w).0 ≡ false → (f a w).1 ≡ a

  abbrev AllStay : (Volumes → W → Bool × Volumes × W) → Type 0
  AllStay f = (m : Volumes) (w : W) → (f m w).0 ≡ false → (i : Bytes) → (f m w).1 i ≡ m i

  change-Stays : (c : Command) (f : LvAttrs → LvAttrs) → Stays (change run words skip c f)
  change-Stays c f a w h = rw h refl

  unless-Stays :
      (p : LvAttrs → Bool) (f : LvAttrs → W → Bool × LvAttrs × W)
      → Stays f
      → Stays (λ a w. if p a then (true, a, w) else f a w)
  unless-Stays p f h a w e = elim (Bool-cases (p a)) [
    | inl x ↦ rw x refl
    | inr x ↦ rw x (h a w (rw x at e))
  ]

  update_volume-Stays : (vg lv : Bytes) → Stays (update_volume run words skip vg lv)
  update_volume-Stays vg lv a w h = elim (Option-cases (read_attrs run words skip vg lv w).0) [
    | inl e ↦ rw (e, update_volume) refl
    | inr (x, e) ↦ absurd (ground (arith, (rw (e, update_volume) at h)))
  ]

  change-AllStay : (c : Command) (f : Volumes → Volumes) → AllStay (change run words skip c f)
  change-AllStay c f m w h i = rw h refl

  at-AllStay :
      (lv : Bytes) (f : LvAttrs → W → Bool × LvAttrs × W)
      → Stays f
      → AllStay (at run words skip lv f)
  at-AllStay lv f s m w h i = elim (Option-cases (m lv)) [
    | inl e ↦ rw (e, at) refl
    | inr (a, e) ↦
        rw (e, at)
          (elim (Bool-cases (eq_bytes lv i)) [
            | inr n ↦ rw n refl
            | inl n ↦
                rw n (ap some (s a w (rw (e, at) at h)) ∙ (sym e ∙ ap m ((eq_bytes_iff lv i).0 n)))
          ])
  ]

  at-cached :
      (vg : Bytes) (f : Volumes → W → Bool × Volumes × W) (c : Cache) (w : W)
      → AllStay f
      → (at run words skip vg f c w).0 ≡ false
      → (j i : Bytes) → cached (at run words skip vg f c w).1 j i ≡ cached c j i
  at-cached vg f c w s h j i = elim (Option-cases (c vg)) [
    | inl e ↦ rw (e, at) refl
    | inr (m, e) ↦
        rw (e, at)
          (elim (Bool-cases (eq_bytes vg j)) [
            | inr n ↦ rw (n, cached) refl
            | inl n ↦
                let here : c j ≡ some m = subst (λ j. c j ≡ some m) ((eq_bytes_iff vg j).0 n) e in
                rw (n, here, cached) (s m w (rw (e, at) at h) i)
          ])
  ]

  add_or_update_in-AllStay : (vg lv : Bytes) → AllStay (add_or_update_in run words skip vg lv)
  add_or_update_in-AllStay vg lv m w h i = elim (Option-cases (m lv)) [
    | inr (a, e) ↦
        rw (e, add_or_update_in)
          (at-AllStay lv (update_volume run words skip vg lv) (update_volume-Stays vg lv) m w
            (rw (e, add_or_update_in) at h) i)
    | inl e ↦ elim (Option-cases (read_attrs run words skip vg lv w).0) [
      | inl f ↦ rw (e, f, add_or_update_in) refl
      | inr (x, f) ↦ absurd (ground (arith, (rw (e, f, add_or_update_in) at h)))
    ]
  ]

  create_in-AllStay :
      (vg origin name : Bytes) (b : Bool) → AllStay (create_in run words skip vg origin name b)
  create_in-AllStay vg origin name b m w h i = elim (Option-cases (m name)) [
    | inr (x, e) ↦ rw (e, create_in) refl
    | inl e ↦
        rw (e, create_in)
          (change-AllStay (lvcreate vg origin name b)
            (update name (some (record { active = not skip; read_only = b; thin = true }))) m w
            (rw (e, create_in) at h) i)
  ]

  remove_in-AllStay : (vg lv : Bytes) → AllStay (remove_in run words skip vg lv)
  remove_in-AllStay vg lv m w h i = elim (Option-cases (m lv)) [
    | inl e ↦ rw (e, remove_in) refl
    | inr (x, e) ↦
        rw (e, remove_in)
          (change-AllStay (lvremove vg lv) (update lv none) m w (rw (e, remove_in) at h) i)
  ]

  add_vg-cached :
      (vg lv : Bytes) (c : Cache) (w : W)
      → (add_vg run words skip vg lv c w).0 ≡ false
      → (j i : Bytes) → cached (add_vg run words skip vg lv c w).1 j i ≡ cached c j i
  unfolding add_vg
  add_vg-cached vg lv c w h j i = elim (Bool-cases (run (lvs_vg vg) w).0.good) [
    | inr g ↦ rw (g, add_vg) refl
    | inl g ↦ elim (Option-cases (read_lines run words skip (run (lvs_vg vg) w).0.stdout)) [
      | inl e ↦ rw (g, e, add_vg) refl
      | inr (content, e) ↦ absurd (ground (arith, (rw (g, e, add_vg) at h)))
    ]
  ]

  -- An operation of the cache that throws leaves what the cache has of every volume.
  pub perform_fails :
      (o : Operation) (c : Cache) (w : W)
      → (perform run words skip o c w).0 ≡ false
      → (j i : Bytes) → cached (perform run words skip o c w).1 j i ≡ cached c j i
  unfolding perform
  perform_fails (activate vg lv) c w h j i =
      at-cached vg (at run words skip lv (activate_volume run words skip vg lv)) c w
        (at-AllStay lv (activate_volume run words skip vg lv) (
          unless-Stays (λ a. a.active) _
            (change-Stays (lvchange_active vg lv true) (λ x. record x { active = true }))))
        h j i
  perform_fails (deactivate vg lv) c w h j i =
      at-cached vg (at run words skip lv (deactivate_volume run words skip vg lv)) c w
        (at-AllStay lv (deactivate_volume run words skip vg lv) (
          unless-Stays (λ a. not a.active) _
            (change-Stays (lvchange_active vg lv false) (λ x. record x { active = false }))))
        h j i
  perform_fails (set_read_only vg lv b) c w h j i =
      at-cached vg (at run words skip lv (set_volume_read_only run words skip vg lv b)) c w
        (at-AllStay lv (set_volume_read_only run words skip vg lv b) (
          unless-Stays (λ a. if b then a.read_only else not a.read_only) _
            (change-Stays (lvchange_permission vg lv b) (λ x. record x { read_only = b }))))
        h j i
  perform_fails (add_or_update vg lv) c w h j i = elim (Option-cases (c vg)) [
    | inl e ↦ rw (e, perform) (add_vg-cached vg lv c w (rw (e, perform) at h) j i)
    | inr (m, e) ↦
        rw (e, perform)
          (at-cached vg (add_or_update_in run words skip vg lv) c w (add_or_update_in-AllStay vg lv)
            (rw (e, perform) at h) j i)
  ]
  perform_fails (create_snapshot vg origin name b) c w h j i =
      at-cached vg (create_in run words skip vg origin name b) c w
        (create_in-AllStay vg origin name b) h j i
  perform_fails (delete_snapshot vg lv) c w h j i =
      at-cached vg (remove_in run words skip vg lv) c w (remove_in-AllStay vg lv) h j i
