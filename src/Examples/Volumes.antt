-- ===== src/Examples/Volumes.antt =====
-- The cache of LVM volumes (snapper/LvmCache.cc) at concrete inputs, with an LVM whose state is the
-- attributes of all volumes.
use snapper.Base.{
  Bytes, eq_bytes, ◌≡◌, refl, inl, inr, sym, ap, ◌∙◌, subst, Bool, true, false, ◌&&◌, none, some,
  List, [], ◌∷◌, ◌++◌, ◌==◌, reverse, if◌then◌else◌, arith, In, Option-cases,
}
use snapper.Lvm.{
  LvAttrs, lv_attrs, Command, lvs, lvs_vg, lvchange_active, lvchange_permission, lvcreate, lvremove,
  Reply, add_or_update, create_snapshot, Cache, cached, perform,
}
use snapper.Lvm.Coherent.{Attributes, IsLvm, Agrees, effect}
use snapper.Lvm.Whole.{perform-Agrees}
use snapper.Lvm.Failed.{perform_fails}
use snapper.Lvm.Done.{IsDone, perform-IsDone}

words_from : Bytes → Bytes → List Bytes
words_from word [] = reverse word ∷ []
words_from word (c ∷ text) =
    let next = words_from [] text in
    let longer = words_from (c ∷ word) text in if c == b' ' then reverse word ∷ next else longer

abbrev line_of : Bool → Bool → Bool → Bytes
line_of x y z =
    b'-'
    ∷ (if y then b'r' else b'w')
    ∷ b'-'
    ∷ b'-'
    ∷ (if x then b'a' else b'-')
    ∷ (if z then b' ' ∷ b't' ∷ b'h' ∷ b'i' ∷ b'n' ∷ [] else [])

abbrev attr_line : LvAttrs → Bytes
attr_line a = line_of a.active a.read_only a.thin

abbrev root : Bytes
root = b'r' ∷ []

abbrev vg_name : Bytes
vg_name = b'g' ∷ []

abbrev snap : Bytes
snap = b's' ∷ []

abbrev said : Bool → List Bytes → Reply
said good stdout = record { good = good; stdout = stdout }

-- All commands succeed but lvs of a volume that is not there; a listing has the volume "r" at most.
abbrev run : Command → Attributes → Reply × Attributes
run (lvs vg lv) w = elim (w vg lv) [
  | none ↦ (said false [], w)
  | some a ↦ (said true (attr_line a ∷ []), w)
]
run (lvs_vg vg) w = elim (w vg root) [
  | none ↦ (said true [], w)
  | some a ↦ (said true ((root ++ b' ' ∷ attr_line a) ∷ []), w)
]
run (lvchange_active vg lv b) w = (said true [], effect true (lvchange_active vg lv b) w)
run (lvchange_permission vg lv b) w = (said true [], effect true (lvchange_permission vg lv b) w)
run (lvcreate vg origin name b) w = (said true [], effect true (lvcreate vg origin name b) w)
run (lvremove vg lv) w = (said true [], effect true (lvremove vg lv) w)

printed :
    (x y z : Bool)
    → lv_attrs (words_from [] (line_of x y z)) ≡ record { active = x; read_only = y; thin = z }
unfolding words_from lv_attrs
printed true true true = refl
printed true true false = refl
printed true false true = refl
printed true false false = refl
printed false true true = refl
printed false true false = refl
printed false false true = refl
printed false false false = refl

printed_root :
    (x y z : Bool)
    → words_from [] (root ++ b' ' ∷ line_of x y z) ≡ root ∷ words_from [] (line_of x y z)
unfolding words_from
printed_root true true true = refl
printed_root true true false = refl
printed_root true false true = refl
printed_root true false false = refl
printed_root false true true = refl
printed_root false true false = refl
printed_root false false true = refl
printed_root false false false = refl

run-IsLvm : IsLvm run (words_from []) true (λ w. w)
run-IsLvm = (effects, one, all)
  where
    effects :
        (c : Command) (w : Attributes) (j i : Bytes)
        → (run c w).1 j i ≡ (if (run c w).0.good then effect true c w j i else w j i)
    effects (lvs vg lv) w j i = elim (Option-cases (w vg lv)) [
      | inl e ↦ rw (e, run) refl
      | inr (a, e) ↦ rw (e, run) refl
    ]
    effects (lvs_vg vg) w j i = elim (Option-cases (w vg root)) [
      | inl e ↦ rw (e, run) refl
      | inr (a, e) ↦ rw (e, run) refl
    ]
    effects (lvchange_active vg lv b) w j i = refl
    effects (lvchange_permission vg lv b) w j i = refl
    effects (lvcreate vg origin name b) w j i = refl
    effects (lvremove vg lv) w j i = refl

    one :
        (vg lv : Bytes) (w : Attributes) (line : Bytes) (lines : List Bytes) (a : Bytes)
        (args : List Bytes)
        → (run (lvs vg lv) w).0.good ≡ true
        → (run (lvs vg lv) w).0.stdout ≡ line ∷ lines
        → words_from [] line ≡ a ∷ args
        → w vg lv ≡ some (lv_attrs (a ∷ args))
    one vg lv w line lines a args g p q = elim (Option-cases (w vg lv)) [
      | inl e ↦ absurd (ground (arith, (rw (e, run) at g)))
      | inr (x, e) ↦
          let same : attr_line x ∷ [] ≡ line ∷ lines = (rw (e, run) at p) in
          let first : attr_line x ≡ line = ground (arith, same) in
          e
          ∙ ap some (
              sym (printed x.active x.read_only x.thin)
              ∙ ap lv_attrs (ap (words_from []) first ∙ q))
    ]

    all :
        (vg : Bytes) (w : Attributes) (line name : Bytes) (raw : List Bytes)
        → (run (lvs_vg vg) w).0.good ≡ true
        → In line (run (lvs_vg vg) w).0.stdout
        → words_from [] line ≡ name ∷ raw
        → w vg name ≡ some (lv_attrs raw)
    all vg w line name raw g m q = elim (Option-cases (w vg root)) [
      | inl e ↦ absurd (rw (e, run) at m)
      | inr (x, e) ↦ elim (rw (e, run) at m) [
        | inr n ↦ absurd n
        | inl p ↦
            let same : root ∷ words_from [] (attr_line x) ≡ name ∷ raw =
              sym (printed_root x.active x.read_only x.thin) ∙ (ap (words_from []) (sym p) ∙ q) in
            let names : root ≡ name = ground (arith, same) in
            let raws : words_from [] (attr_line x) ≡ raw = ground (arith, same) in
            subst (λ n. w vg n ≡ some (lv_attrs raw)) names
              (e ∙ ap some (sym (printed x.active x.read_only x.thin) ∙ ap lv_attrs raws))
      ]
    ]

abbrev root_attrs : LvAttrs
root_attrs = record { active = true; read_only = false; thin = true }

-- There is the thin volume "r" of the group "g".
abbrev world : Attributes
world j i = if eq_bytes vg_name j && eq_bytes root i then some root_attrs else none

abbrev empty : Cache
empty j = none

-- The cache when the volume was looked at.
abbrev known : Cache
known = (perform run (words_from []) true (add_or_update vg_name root) empty world).1

perform-Agrees_example :
    Agrees run
      (words_from [])
      true
      (λ w. w)
      (perform run (words_from []) true (add_or_update vg_name root) empty world).1
      (perform run (words_from []) true (add_or_update vg_name root) empty world).2
perform-Agrees_example =
    perform-Agrees run (words_from []) true (λ w. w) run-IsLvm (add_or_update vg_name root) empty
      world (λ j i a h. cc) tt

known-Agrees : Agrees run (words_from []) true (λ w. w) known world
unfolding perform eq_bytes words_from
known-Agrees =
    perform-Agrees run (words_from []) true (λ w. w) run-IsLvm (add_or_update vg_name root) empty
      world (λ j i a h. cc) tt

perform-IsDone_example :
    IsDone true
      (perform run (words_from []) true (create_snapshot vg_name root snap true) known world).2
      (create_snapshot vg_name root snap true)
unfolding perform eq_bytes words_from lv_attrs
perform-IsDone_example =
    perform-IsDone run (words_from []) true (λ w. w) run-IsLvm
      (create_snapshot vg_name root snap true) known world known-Agrees refl refl

perform_fails_example :
    cached
      (perform run (words_from []) true (create_snapshot vg_name root root true) known world).1
      vg_name
      root
    ≡ cached known vg_name root
unfolding perform eq_bytes words_from
perform_fails_example =
    perform_fails run (words_from []) true (create_snapshot vg_name root root true) known world refl
      vg_name root
