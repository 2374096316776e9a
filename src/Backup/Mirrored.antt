-- ===== src/Backup/Mirrored.antt =====
-- TheBigThings::transfer and remove (client/snbk/TheBigThing.cc) and what is on the target after both.
use snapper.Base.{
  ℕ, ◌≡◌, refl, sym, ap, ◌∙◌, subst, inl, inr, Bool, true, false, not, ◌&&◌, ◌||◌, ◌==◌, Option,
  List, [], ◌∷◌, ◌++◌, map, In, arith, Bool-cases,
}
use snapper.Backup.{
  SourceState, source_missing, read_only, read_write, TargetState, target_missing, valid, invalid,
  legacy, TheBigThing, CopyMode, Command, subvolume_delete, remove_info, rmdir, Outcome,
  with_target, is_source_missing, is_target_missing, is_invalid, finish, for_each, run_all, remove,
  when, and_then, remove_step, transfer_all, remove_all,
}
use snapper.Backup.Transfer.{transferred, remove-good, and_then-good}
use snapper.Backup.Remove.{all_mirrored, mirrored_states}
use snapper.Backup.Probe.{has_number, are_distinct}
use snapper.Backup.Target.{In-map, IsTarget, all_present, run_all-others, transfer_all_complete}

-- What a removal takes from the target.
abbrev pub is_gone : TheBigThing → Bool
is_gone x =
    is_invalid x.target_state
    || (is_source_missing x.source_state && not (is_target_missing x.target_state))

number-In : (x : TheBigThing) (l : List TheBigThing) → In x l → has_number x.num l ≡ true
number-In x [] m = absurd m
number-In x (y ∷ l) m = ground (arith, number-In x l)

number-transferred : (x : TheBigThing) → (transferred x).num ≡ x.num
number-transferred x = ground arith

has_number-transferred :
    (n : ℕ) (l : List TheBigThing) → has_number n (map transferred l) ≡ has_number n l
has_number-transferred n [] = refl
has_number-transferred n (x ∷ l) = ground (arith, number-transferred x, has_number-transferred n l)

distinct-transferred : (l : List TheBigThing) → are_distinct (map transferred l) ≡ are_distinct l
distinct-transferred [] = refl
distinct-transferred (x ∷ l) = ground (
  arith,
  number-transferred x,
  ap (λ n. has_number n (map transferred l)) (number-transferred x),
  has_number-transferred x.num l,
  distinct-transferred l,
)

module _ {W : Type 0} (run : Command → W → Bool × W)
    (nearest : List TheBigThing → CopyMode → TheBigThing → Option (Option ℕ))
    (has : W → ℕ → Bool) where
  -- After a btrfs subvolume delete that succeeds the target has not the snapshot, and the removal of
  -- info.xml and of the directory does not bring it back.
  abbrev pub IsEraser : Type 0
  IsEraser =
      ((n : ℕ) (w : W)
        → (run (subvolume_delete n) w).0 ≡ true
        → has (run (subvolume_delete n) w).1 n ≡ false)
      × ((n : ℕ) (w : W) → has (run (remove_info n) w).1 n ≡ has w n)
      × ((n : ℕ) (w : W) → has (run (rmdir n) w).1 n ≡ has w n)

  module _ (law : IsTarget run nearest has) (eraser : IsEraser) where
    commands : ℕ → List Command
    commands n = subvolume_delete n ∷ remove_info n ∷ rmdir n ∷ []

    commands-erase :
        (n : ℕ) (w : W)
        → (run_all run nearest (commands n) w).0 ≡ true
        → has (run_all run nearest (commands n) w).1 n ≡ false
    unfolding commands run_all
    commands-erase n w h =
        let w1 = (run (subvolume_delete n) w).1 in
        let w2 = (run (remove_info n) w1).1 in
        elim (Bool-cases (run (subvolume_delete n) w).0) [
          | inr a ↦ absurd (ground (arith, (rw (a, run_all) at h)))
          | inl a ↦ elim (Bool-cases (run (remove_info n) w1).0) [
            | inr b ↦ absurd (ground (arith, (rw (a, b, run_all) at h)))
            | inl b ↦ elim (Bool-cases (run (rmdir n) w2).0) [
              | inr c ↦ absurd (ground (arith, (rw (a, b, c, run_all) at h)))
              | inl c ↦ rw (a, b, c, run_all) (eraser.2 n w2 ∙ (eraser.1 n w1 ∙ eraser.0 n w a))
            ]
          ]
        ]

    -- What a removal has made of the world.
    remove-world :
        (x : TheBigThing) (w : W)
        → (remove run nearest x w).0 ≡ true
        → (has (remove run nearest x w).2 x.num ≡ false)
          × ((k : ℕ) → (x.num == k) ≡ false → has (remove run nearest x w).2 k ≡ has w k)
    unfolding remove commands
    remove-world x w h = elim (Bool-cases (is_target_missing x.target_state)) [
      | inl e ↦ absurd (ground (arith, (rw (e, remove) at h)))
      | inr e ↦ elim (Bool-cases (run_all run nearest (commands x.num) w).0) [
        | inr g ↦ absurd (ground (arith, (rw (e, g, remove, finish) at h)))
        | inl g ↦
            rw (e, g, remove, finish)
              (
                commands-erase x.num w g,
                λ k n.
                    run_all-others run nearest has law x.num (commands x.num) w k
                      (refl, (refl, (refl, tt))) n,
              )
      ]
    ]

    -- What has become of one thing and of the others.
    abbrev Cleared : TheBigThing → W → Outcome W TheBigThing → Type 0
    Cleared x w r =
        (is_gone x ≡ true → has r.2 x.num ≡ false)
        × (is_gone x ≡ false → has r.2 x.num ≡ has w x.num)
        × ((k : ℕ) → (x.num == k) ≡ false → has r.2 k ≡ has w k)

    -- A thing that is removed once, and of which nothing is left to remove.
    removed-Cleared :
        (x : TheBigThing) (w : W) (next : TheBigThing → W → Outcome W TheBigThing)
        → is_gone x ≡ true
        → ((v : W) → (next (with_target target_missing x) v).2 ≡ v)
        → (and_then run nearest (remove run nearest x w) next).0 ≡ true
        → Cleared x w (and_then run nearest (remove run nearest x w) next)
    removed-Cleared x w next gone idle h =
        let r = remove run nearest x w in
        let (good, _, _) = and_then-good run nearest r next h in
        let (mine, others) = remove-world x w good in
        let same : (next r.1 r.2).2 ≡ r.2 =
          subst (λ y. (next y r.2).2 ≡ r.2) (sym (remove-good run nearest x w good)) (idle r.2) in
        rw (good, and_then)
          (
            λ e. ap (λ v. has v x.num) same ∙ mine,
            λ e. absurd (ground (arith, e, gone)),
            λ k n. ap (λ v. has v k) same ∙ others k n,
          )

    -- The second if of the body of TheBigThings::remove.
    abbrev later : TheBigThing → W → Outcome W TheBigThing
    later y =
        when run nearest
          (is_source_missing y.source_state && not (is_target_missing y.target_state))
          (remove run nearest) y

    remove_step-Cleared :
        (things : TheBigThing → List TheBigThing) (s : SourceState) (t : TargetState)
        (x : TheBigThing) (w : W)
        → (remove_step run nearest things (record x { source_state = s; target_state = t }) w).0
          ≡ true
        → Cleared
            (record x { source_state = s; target_state = t })
            w
            (remove_step run nearest things (record x { source_state = s; target_state = t }) w)
    remove_step-Cleared things source_missing target_missing x w h =
        (λ e. cc, λ e. refl, λ k n. refl)
    remove_step-Cleared things source_missing valid x w h =
        let (a, b) =
          remove-world (record x { source_state = source_missing; target_state = valid }) w h in
        (λ e. a, λ e. cc, b)
    remove_step-Cleared things source_missing legacy x w h =
        let (a, b) =
          remove-world (record x { source_state = source_missing; target_state = legacy }) w h in
        (λ e. a, λ e. cc, b)
    remove_step-Cleared things source_missing invalid x w h =
        removed-Cleared (record x { source_state = source_missing; target_state = invalid }) w later
          refl (λ v. refl) h
    remove_step-Cleared things read_only invalid x w h =
        removed-Cleared (record x { source_state = read_only; target_state = invalid }) w later refl
          (λ v. refl) h
    remove_step-Cleared things read_write invalid x w h =
        removed-Cleared (record x { source_state = read_write; target_state = invalid }) w later
          refl (λ v. refl) h
    remove_step-Cleared things read_only target_missing x w h = (λ e. cc, λ e. refl, λ k n. refl)
    remove_step-Cleared things read_only valid x w h = (λ e. cc, λ e. refl, λ k n. refl)
    remove_step-Cleared things read_only legacy x w h = (λ e. cc, λ e. refl, λ k n. refl)
    remove_step-Cleared things read_write target_missing x w h = (λ e. cc, λ e. refl, λ k n. refl)
    remove_step-Cleared things read_write valid x w h = (λ e. cc, λ e. refl, λ k n. refl)
    remove_step-Cleared things read_write legacy x w h = (λ e. cc, λ e. refl, λ k n. refl)

    for_each-Cleared :
        (done l : List TheBigThing) (w : W)
        → are_distinct l ≡ true
        → (for_each (remove_step run nearest) done l w).0 ≡ true
        → (let v = (for_each (remove_step run nearest) done l w).2 in
            ((x : TheBigThing) → In x l → is_gone x ≡ true → has v x.num ≡ false)
            × ((x : TheBigThing) → In x l → is_gone x ≡ false → has v x.num ≡ has w x.num)
            × ((k : ℕ) → has_number k l ≡ false → has v k ≡ has w k))
    unfolding for_each
    for_each-Cleared done [] w d h = (λ x m. absurd m, λ x m. absurd m, λ k e. refl)
    for_each-Cleared done (x ∷ rest) w d h =
        let r = remove_step run nearest (λ z. done ++ z ∷ rest) x w in
        let fresh : has_number x.num rest ≡ false = ground (arith, d) in
        let distinct : are_distinct rest ≡ true = ground (arith, d) in
        elim (Bool-cases r.0) [
          | inr g ↦ absurd (ground (arith, (rw (g, for_each) at h)))
          | inl g ↦
              let (a, b, c) =
                remove_step-Cleared (λ z. done ++ z ∷ rest) x.source_state x.target_state x w g in
              let (p, q, o) =
                for_each-Cleared (done ++ r.1 ∷ []) rest r.2 distinct (rw (g, for_each) at h) in
              rw (g, for_each)
                (
                  λ y m e. elim m [
                    | inr k ↦ p y k e
                    | inl k ↦
                        let first : is_gone x ≡ true = subst (λ z. is_gone z ≡ true) k e in
                        ap
                          (λ z.
                            has (for_each (remove_step run nearest) (done ++ r.1 ∷ []) rest r.2).2
                              z.num)
                          k
                        ∙ (o x.num fresh ∙ a first)
                  ],
                  λ y m e. elim m [
                    | inr k ↦ q y k e ∙ c y.num (ground (arith, fresh, number-In y rest k))
                    | inl k ↦
                        let first : is_gone x ≡ false = subst (λ z. is_gone z ≡ false) k e in
                        subst
                          (λ z.
                            has (for_each (remove_step run nearest) (done ++ r.1 ∷ []) rest r.2).2
                              z.num
                            ≡ has w z.num)
                          (sym k) (o x.num fresh ∙ b first)
                  ],
                  λ k e. o k (ground (arith, e)) ∙ c k (ground (arith, e)),
                )
        ]

    -- If the numbers are distinct and the target had what was said to be valid or legacy there, then after
    -- a transfer and a removal that do not throw the target has every read-only snapshot of the source, has
    -- none of those that were not said to be missing there and that the source does not have, and none that
    -- was invalid and may be written to on the source. The states say that the target has each read-only
    -- snapshot, none that the source does not have, and none that is invalid.
    pub remove_all-transfer_all :
        (things : List TheBigThing) (w : W)
        → are_distinct things ≡ true
        → all_present run nearest has w things ≡ true
        → (transfer_all run nearest things w).0 ≡ true
        → (remove_all run nearest
            (transfer_all run nearest things w).1
            (transfer_all run nearest things w).2).0
          ≡ true
        → (let r =
              remove_all run nearest
                (transfer_all run nearest things w).1
                (transfer_all run nearest things w).2 in
            (all_mirrored r.1 ≡ true)
            × ((x : TheBigThing)
                → In x things
                → (x.source_state ≡ read_only → has r.2 x.num ≡ true)
                  × (x.source_state ≡ source_missing
                      → is_target_missing x.target_state ≡ false
                      → has r.2 x.num ≡ false)
                  × (x.source_state ≡ read_write
                      → x.target_state ≡ invalid
                      → has r.2 x.num ≡ false)))
    remove_all-transfer_all things w d h good cleared =
        let t = transfer_all run nearest things w in
        let (states, there) = transfer_all_complete run nearest has law things w d h good in
        let distinct : are_distinct t.1 ≡ true =
          ap are_distinct states ∙ (distinct-transferred things ∙ d) in
        let (gone, kept, _) = for_each-Cleared [] t.1 t.2 distinct cleared in
        let inside : (x : TheBigThing) → In x things → In (transferred x) t.1 =
          λ x m. subst (λ l. In (transferred x) l) (sym states) (In-map transferred x things m) in
        (
          mirrored_states run nearest things w good cleared,
          λ x m. (
            λ e.
                let stays : is_gone (transferred x) ≡ false = ground (arith, e) in
                ap (has (remove_all run nearest t.1 t.2).2) (sym (number-transferred x))
                ∙ (kept (transferred x) (inside x m) stays
                    ∙ (ap (has t.2) (number-transferred x) ∙ there x m e)),
            λ e f.
                let goes : is_gone (transferred x) ≡ true = ground (arith, e, f) in
                ap (has (remove_all run nearest t.1 t.2).2) (sym (number-transferred x))
                ∙ gone (transferred x) (inside x m) goes,
            λ e f.
                let goes : is_gone (transferred x) ≡ true = ground (arith, e, f) in
                ap (has (remove_all run nearest t.1 t.2).2) (sym (number-transferred x))
                ∙ gone (transferred x) (inside x m) goes,
          ),
        )
