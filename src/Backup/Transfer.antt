-- ===== src/Backup/Transfer.antt =====
-- TheBigThings::transfer and restore (client/snbk/TheBigThing.cc): the states that they leave.
use snapper.Base.{
  Option-cases, ℕ, ◌≡◌, refl, sym, ap, ◌∙◌, subst, inl, inr, Bool, true, false, not, ◌&&◌, ◌||◌,
  Option, List, [], ◌∷◌, ◌++◌, map, if◌then◌else◌, arith, Bool-cases, none, some,
}
use snapper.Backup.{
  SourceState, source_missing, read_only, read_write, TargetState, target_missing, valid, invalid,
  legacy, TheBigThing, CopyMode, source_to_target, Command, Outcome, with_target, is_read_only,
  is_source_missing, is_target_missing, is_valid, is_invalid, is_legacy, finish, for_each,
  transfer_from, transfer, restore, remove, when, and_then, transfer_step, restore_step,
  transfer_all, restore_all, target_to_source,
}

-- A loop that does not throw has changed each value as its body does.
pub for_each-map :
    {W A : Type 0} (step : (A → List A) → A → W → Outcome W A) (f : A → A)
    → ((things : A → List A) (x : A) (w : W)
        → (step things x w).0 ≡ true
        → (step things x w).1 ≡ f x)
    → (done l : List A) (w : W) → (for_each step done l w).0 ≡ true
    → (for_each step done l w).1 ≡ map f l
unfolding for_each
for_each-map step f h done [] w e = refl
for_each-map step f h done (x ∷ rest) w e = elim (Bool-cases (step (λ z. done ++ z ∷ rest) x w).0) [
  | inr n ↦ absurd (ground (arith, (rw (n, for_each) at e)))
  | inl y ↦
      rw (y, for_each)
        (ap
            (λ z.
              z
              ∷ (for_each step (done ++ (step (λ z. done ++ z ∷ rest) x w).1 ∷ []) rest
                  (step (λ z. done ++ z ∷ rest) x w).2).1)
            (h (λ z. done ++ z ∷ rest) x w y)
          ∙ ap (λ l. f x ∷ l) (for_each-map step f h _ rest _ (rw (y, for_each) at e)))
]

abbrev pub transferred : TheBigThing → TheBigThing
transferred x = if is_read_only x.source_state then with_target valid x else x

abbrev pub restored : TheBigThing → TheBigThing
restored x =
    if is_valid x.target_state && is_source_missing x.source_state
    then record x { source_state = read_only }
    else x

pub finish-good :
    {W A : Type 0} (old new : A) (r : Bool × W)
    → (finish old new r).0 ≡ true
    → (finish old new r).1 ≡ new
finish-good old new r h = elim (Bool-cases r.0) [
  | inl e ↦ rw (e, finish) refl
  | inr e ↦ absurd (ground (arith, (rw (e, finish) at h)))
]

module _ {W : Type 0} (run : Command → W → Bool × W)
    (nearest : List TheBigThing → CopyMode → TheBigThing → Option (Option ℕ)) where
  transfer_from-good :
      (s : SourceState) (t : TargetState) (found : Option (Option ℕ)) (x : TheBigThing) (w : W)
      → (transfer_from run nearest s t found x w).0 ≡ true
      → (transfer_from run nearest s t found x w).1 ≡ with_target valid x
  unfolding transfer_from
  transfer_from-good source_missing t found x w h = cc
  transfer_from-good read_write t found x w h = cc
  transfer_from-good read_only target_missing none x w h = cc
  transfer_from-good read_only valid none x w h = cc
  transfer_from-good read_only invalid none x w h = cc
  transfer_from-good read_only legacy none x w h = cc
  transfer_from-good read_only invalid (some parent) x w h = cc
  transfer_from-good read_only valid (some parent) x w h = cc
  transfer_from-good read_only target_missing (some parent) x w h =
      finish-good x (with_target valid x) _ h
  transfer_from-good read_only legacy (some parent) x w h = finish-good x (with_target valid x) _ h

  pub remove-good :
      (x : TheBigThing) (w : W)
      → (remove run nearest x w).0 ≡ true
      → (remove run nearest x w).1 ≡ with_target target_missing x
  unfolding remove
  remove-good x w h = elim (Bool-cases (is_target_missing x.target_state)) [
    | inl e ↦ absurd (ground (arith, (rw (e, remove) at h)))
    | inr e ↦ rw (e, remove) (finish-good x (with_target target_missing x) _ (rw (e, remove) at h))
  ]

  restore-good :
      (things : TheBigThing → List TheBigThing) (x : TheBigThing) (w : W)
      → (restore run nearest things x w).0 ≡ true
      → (restore run nearest things x w).1 ≡ record x { source_state = read_only }
  unfolding restore
  restore-good things x w h =
      elim (Bool-cases (not (is_source_missing x.source_state) || not (is_valid x.target_state))) [
        | inl e ↦ absurd (ground (arith, (rw (e, restore) at h)))
        | inr e ↦ elim (Option-cases (nearest (things x) target_to_source x)) [
          | inl f ↦ absurd (ground (arith, (rw (e, f, restore) at h)))
          | inr (parent, f) ↦
              rw (e, f, restore)
                (finish-good x (record x { source_state = read_only }) _ (rw (e, f, restore) at h))
        ]
      ]

  pub when-good :
      (b : Bool) (f : TheBigThing → W → Outcome W TheBigThing) (g : TheBigThing → TheBigThing)
      → ((x : TheBigThing) (w : W) → (f x w).0 ≡ true → (f x w).1 ≡ g x)
      → (x : TheBigThing) (w : W) → (when run nearest b f x w).0 ≡ true
      → (when run nearest b f x w).1 ≡ (if b then g x else x)
  when-good true f g h x w e = h x w e
  when-good false f g h x w e = refl

  pub and_then-good :
      (r : Outcome W TheBigThing) (f : TheBigThing → W → Outcome W TheBigThing)
      → (and_then run nearest r f).0 ≡ true
      → (r.0 ≡ true) × ((f r.1 r.2).0 ≡ true) × ((and_then run nearest r f).1 ≡ (f r.1 r.2).1)
  and_then-good r f h = elim (Bool-cases r.0) [
    | inl e ↦ (e, (rw (e, and_then) at h), rw (e, and_then) refl)
    | inr e ↦ absurd (ground (arith, e, (rw (e, and_then) at h)))
  ]

  transfer_step-good :
      (things : TheBigThing → List TheBigThing) (x : TheBigThing) (w : W)
      → (transfer_step run nearest things x w).0 ≡ true
      → (transfer_step run nearest things x w).1 ≡ transferred x
  transfer_step-good things x w h = elim (Bool-cases (is_read_only x.source_state)) [
    | inr e ↦ rw (e, transfer_step, transferred) refl
    | inl e ↦
        let gone = when run nearest (is_invalid x.target_state) (remove run nearest) x w in
        let next : TheBigThing → W → Outcome W TheBigThing = λ y.
          when run nearest (is_target_missing y.target_state || is_legacy y.target_state)
            (transfer run nearest things) y in
        let (a, b, c) = and_then-good gone next (rw (e, transfer_step) at h) in
        let first =
          when-good (is_invalid x.target_state) (remove run nearest) (with_target target_missing)
            remove-good x w a in
        let second =
          when-good (is_target_missing gone.1.target_state || is_legacy gone.1.target_state)
            (transfer run nearest things) (with_target valid)
            (λ y v k.
              transfer_from-good y.source_state y.target_state
                (nearest (things y) source_to_target y) y v k)
            gone.1 gone.2 b in
        rw (e, transfer_step, transferred)
          (c ∙ (second ∙ (ap then_valid first ∙ both x.target_state)))
  ]
    where
      then_valid : TheBigThing → TheBigThing
      then_valid y =
          if is_target_missing y.target_state || is_legacy y.target_state
          then with_target valid y
          else y

      both :
          (t : TargetState)
          → then_valid (
              if is_invalid t
              then with_target target_missing (with_target t x)
              else with_target t x)
            ≡ with_target valid x
      both target_missing = refl
      both valid = refl
      both invalid = refl
      both legacy = refl

  restore_step-good :
      (things : TheBigThing → List TheBigThing) (x : TheBigThing) (w : W)
      → (restore_step run nearest things x w).0 ≡ true
      → (restore_step run nearest things x w).1 ≡ restored x
  restore_step-good things x w h =
      when-good (is_valid x.target_state && is_source_missing x.source_state)
        (restore run nearest things) (λ y. record y { source_state = read_only })
        (restore-good things) x w h

  -- A transfer that does not throw leaves every read-only snapshot of the source valid on the target,
  -- and changes no other state.
  pub transfer_all_lem :
      (things : List TheBigThing) (w : W)
      → (transfer_all run nearest things w).0 ≡ true
      → (transfer_all run nearest things w).1 ≡ map transferred things
  transfer_all_lem things w h =
      for_each-map (transfer_step run nearest) transferred transfer_step-good [] things w h

  -- A restore that does not throw makes every snapshot that is valid on the target and missing on the
  -- source a read-only one of the source, and changes no other state.
  pub restore_all_lem :
      (things : List TheBigThing) (w : W)
      → (restore_all run nearest things w).0 ≡ true
      → (restore_all run nearest things w).1 ≡ map restored things
  restore_all_lem things w h =
      for_each-map (restore_step run nearest) restored restore_step-good [] things w h

  -- A second transfer of a thing has nothing to do.
  again :
      (things : TheBigThing → List TheBigThing) (x : TheBigThing) (w : W)
      → transfer_step run nearest things (transferred x) w ≡ (true, transferred x, w)
  again things x w = go x.source_state x.target_state x
    where
      go :
          (s : SourceState) (t : TargetState) (x : TheBigThing)
          → transfer_step run nearest things
              (transferred (record x { source_state = s; target_state = t }))
              w
            ≡ (true, transferred (record x { source_state = s; target_state = t }), w)
      go source_missing t x = refl
      go read_write t x = refl
      go read_only t x = refl

  for_each-again :
      (done things : List TheBigThing) (w : W)
      → for_each (transfer_step run nearest) done (map transferred things) w
        ≡ (true, map transferred things, w)
  unfolding for_each
  for_each-again done [] w = refl
  for_each-again done (x ∷ rest) w =
      rw (again (λ z. done ++ z ∷ map transferred rest) x w, for_each)
        (ap (λ (r : Outcome W (List TheBigThing)). (r.0, transferred x ∷ r.1, r.2))
          (for_each-again (done ++ transferred x ∷ []) rest w))

  -- A transfer that follows one that did not throw runs no command, whatever commands do, and changes
  -- nothing.
  pub transfer_all-again :
      (things : List TheBigThing) (w : W)
      → (transfer_all run nearest things w).0 ≡ true
      → transfer_all run nearest
          (transfer_all run nearest things w).1
          (transfer_all run nearest things w).2
        ≡ (true, (transfer_all run nearest things w).1, (transfer_all run nearest things w).2)
  transfer_all-again things w h =
      subst
        (λ l.
          transfer_all run nearest l (transfer_all run nearest things w).2
          ≡ (true, l, (transfer_all run nearest things w).2))
        (sym (transfer_all_lem things w h))
        (for_each-again [] things (transfer_all run nearest things w).2)
