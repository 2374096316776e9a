-- ===== src/Backup/Target.antt =====
-- TheBigThings::transfer (client/snbk/TheBigThing.cc) and what is on the target.
use snapper.Base.{
  ℕ, ◌≡◌, refl, sym, ap, ◌∙◌, subst, inl, inr, Bool, true, false, not, ◌&&◌, ◌||◌, ◌==◌, Option,
  List, [], ◌∷◌, ◌++◌, map, In, if◌then◌else◌, arith, Bool-cases, none, some,
}
use snapper.Backup.{
  SourceState, source_missing, read_only, read_write, TargetState, target_missing, valid, invalid,
  legacy, TheBigThing, CopyMode, source_to_target, Command, mkdir, copy_info, send_receive,
  subvolume_delete, remove_info, rmdir, Outcome, with_target, is_read_only, is_target_missing,
  is_valid, is_invalid, is_legacy, finish, for_each, run_all, copy, transfer_from, transfer, remove,
  when, and_then, transfer_step, transfer_all,
}
use snapper.Backup.Transfer.{transferred, transfer_all_lem}
use snapper.Backup.Probe.{has_number, are_distinct}

-- The number of the snapshot that a command is about.
abbrev pub about : Command → ℕ
about (mkdir mode n) = n
about (copy_info mode n) = n
about (send_receive mode parent n) = n
about (subvolume_delete n) = n
about (remove_info n) = n
about (rmdir n) = n

pub In-map : {A B : Type 0} (f : A → B) (a : A) (l : List A) → In a l → In (f a) (map f l)
In-map f a [] m = m
In-map f a (x ∷ l) m = elim m [ inl p ↦ inl (ap f p) | inr n ↦ inr (In-map f a l n) ]

both : (a b : Bool) → a ≡ true → b ≡ true → (a && b) ≡ true
both a b h k = rw (h, k) refl

module _ {W : Type 0} (run : Command → W → Bool × W)
    (nearest : List TheBigThing → CopyMode → TheBigThing → Option (Option ℕ))
    (has : W → ℕ → Bool) where
  -- The target has a whole snapshot, or not: a command changes this for its own number at most, a copy of
  -- info.xml does not, and after a send that succeeds the target has the snapshot.
  abbrev pub IsTarget : Type 0
  IsTarget =
      ((c : Command) (w : W) (k : ℕ) → (about c == k) ≡ false → has (run c w).1 k ≡ has w k)
      × ((mode : CopyMode) (n : ℕ) (w : W) → has (run (copy_info mode n) w).1 n ≡ has w n)
      × ((parent : Option ℕ) (n : ℕ) (w : W)
          → (run (send_receive source_to_target parent n) w).0 ≡ true
          → has (run (send_receive source_to_target parent n) w).1 n ≡ true)

  -- The target has what is said to be valid or legacy.
  abbrev pub is_present : W → TheBigThing → Bool
  is_present w x = not (is_valid x.target_state || is_legacy x.target_state) || has w x.num

  abbrev pub all_present : W → List TheBigThing → Bool
  all_present w [] = true
  all_present w (x ∷ l) = is_present w x && all_present w l

  -- What has become of one thing.
  abbrev Fits : ℕ → W → Outcome W TheBigThing → Type 0
  Fits n w r =
      (is_present r.2 r.1 ≡ true)
      × (r.1.num ≡ n)
      × ((k : ℕ) → (n == k) ≡ false → has r.2 k ≡ has w k)

  module _ (law : IsTarget) where
    abbrev AllAbout : ℕ → List Command → Type 0
    AllAbout n [] = Unit {0}
    AllAbout n (c ∷ l) = (about c ≡ n) × AllAbout n l

    pub run_all-others :
        (n : ℕ) (l : List Command) (w : W) (k : ℕ)
        → AllAbout n l
        → (n == k) ≡ false
        → has (run_all run nearest l w).1 k ≡ has w k
    unfolding run_all
    run_all-others n [] w k a e = refl
    run_all-others n (c ∷ l) w k a e =
        let one : has (run c w).1 k ≡ has w k =
          law.0 c w k (subst (λ m. (m == k) ≡ false) (sym a.0) e) in
        elim (Bool-cases (run c w).0) [
          | inl g ↦ rw (g, run_all) (run_all-others n l (run c w).1 k a.1 e ∙ one)
          | inr g ↦ rw (g, run_all) one
        ]

    -- A copy to the target that succeeds.
    copy-has :
        (parent : Option ℕ) (x : TheBigThing) (w : W)
        → (copy run nearest source_to_target parent x w).0 ≡ true
        → has (copy run nearest source_to_target parent x w).1 x.num ≡ true
    unfolding copy
    copy-has parent x w h = elim (Bool-cases (run (mkdir source_to_target x.num) w).0) [
      | inr a ↦ absurd (ground (arith, (rw (a, copy, run_all) at h)))
      | inl a ↦
          elim (Bool-cases
            (run (copy_info source_to_target x.num) (run (mkdir source_to_target x.num) w).1).0) [
              | inr b ↦ absurd (ground (arith, (rw (a, b, copy, run_all) at h)))
              | inl b ↦
                  elim (Bool-cases
                    (run (send_receive source_to_target parent x.num)
                      (run (copy_info source_to_target x.num)
                        (run (mkdir source_to_target x.num) w).1).1).0) [
                          | inr c ↦ absurd (ground (arith, (rw (a, b, c, copy, run_all) at h)))
                          | inl c ↦ rw (a, b, c) (law.2 parent x.num _ c)
                        ]
            ]
    ]

    copy-others :
        (parent : Option ℕ) (y : TheBigThing) (w : W) (k : ℕ)
        → (y.num == k) ≡ false
        → has (copy run nearest source_to_target parent y w).1 k ≡ has w k
    unfolding copy
    copy-others parent y w k e =
        run_all-others y.num
          (mkdir source_to_target y.num
            ∷ copy_info source_to_target y.num
            ∷ send_receive source_to_target parent y.num
            ∷ [])
          w k (refl, (refl, (refl, tt))) e

    -- A thing whose target is missing, or was legacy and is there, when it is transferred.
    transfer_from-Fits :
        (s : SourceState) (t : TargetState) (found : Option (Option ℕ)) (x : TheBigThing) (w : W)
        → is_present w (with_target t x) ≡ true
        → Fits x.num w (transfer_from run nearest s t found (with_target t x) w)
    unfolding transfer_from
    transfer_from-Fits source_missing t found x w h = (h, refl, λ k e. refl)
    transfer_from-Fits read_write t found x w h = (h, refl, λ k e. refl)
    transfer_from-Fits read_only target_missing none x w h = (h, refl, λ k e. refl)
    transfer_from-Fits read_only valid none x w h = (h, refl, λ k e. refl)
    transfer_from-Fits read_only invalid none x w h = (h, refl, λ k e. refl)
    transfer_from-Fits read_only legacy none x w h = (h, refl, λ k e. refl)
    transfer_from-Fits read_only invalid (some parent) x w h = (h, refl, λ k e. refl)
    transfer_from-Fits read_only valid (some parent) x w h = (h, refl, λ k e. refl)
    transfer_from-Fits read_only target_missing (some parent) x w h =
        let y : TheBigThing = with_target target_missing x in
        elim (Bool-cases (copy run nearest source_to_target parent y w).0) [
          | inl g ↦ rw (g, finish) (copy-has parent y w g, refl, λ k e. copy-others parent y w k e)
          | inr g ↦ rw (g, finish) (refl, refl, λ k e. copy-others parent y w k e)
        ]
    transfer_from-Fits read_only legacy (some parent) x w h =
        elim (Bool-cases (run (copy_info source_to_target x.num) w).0) [
          | inl g ↦
              rw (g, finish)
                (
                  law.1 source_to_target x.num w ∙ h,
                  refl,
                  λ k e. law.0 (copy_info source_to_target x.num) w k e,
                )
          | inr g ↦
              rw (g, finish)
                (
                  law.1 source_to_target x.num w ∙ h,
                  refl,
                  λ k e. law.0 (copy_info source_to_target x.num) w k e,
                )
        ]

    -- The removal of an invalid snapshot, after which the target is not said to have it.
    remove-Fits :
        (x : TheBigThing) (w : W)
        → Fits x.num w (remove run nearest (with_target invalid x) w)
          × (((remove run nearest (with_target invalid x) w).0 ≡ true)
              → (remove run nearest (with_target invalid x) w).1 ≡ with_target target_missing x)
    unfolding remove
    remove-Fits x w =
        let l : List Command = subvolume_delete x.num ∷ remove_info x.num ∷ rmdir x.num ∷ [] in
        elim (Bool-cases (run_all run nearest l w).0) [
          | inl g ↦
              rw (g, finish)
                (
                  (refl, refl, λ k e. run_all-others x.num l w k (refl, (refl, (refl, tt))) e),
                  λ q. refl,
                )
          | inr g ↦
              rw (g, finish)
                (
                  (refl, refl, λ k e. run_all-others x.num l w k (refl, (refl, (refl, tt))) e),
                  λ q. cc,
                )
        ]

    transfer_step-Fits :
        (t : TargetState) (things : TheBigThing → List TheBigThing) (x : TheBigThing) (w : W)
        → is_present w (with_target t x) ≡ true
        → Fits x.num w (transfer_step run nearest things (with_target t x) w)
    transfer_step-Fits t things x w h = elim (Bool-cases (is_read_only x.source_state)) [
      | inr e ↦ rw (e, transfer_step) (h, refl, λ k n. refl)
      | inl e ↦ rw (e, transfer_step) (go t h)
    ]
      where
        go :
            (t : TargetState)
            → is_present w (with_target t x) ≡ true
            → Fits x.num w (
                and_then run nearest
                  (when run nearest (is_invalid t) (remove run nearest) (with_target t x) w)
                  (λ y.
                    when run nearest
                      (is_target_missing y.target_state || is_legacy y.target_state)
                      (transfer run nearest things)
                      y))
        go valid h = (h, refl, λ k n. refl)
        go target_missing h = transfer_from-Fits x.source_state target_missing _ x w h
        go legacy h = transfer_from-Fits x.source_state legacy _ x w h
        go invalid h =
            let r = remove run nearest (with_target invalid x) w in
            let (a, b) = remove-Fits x w in
            elim (Bool-cases r.0) [
              | inr g ↦ rw (g, and_then) a
              | inl g ↦
                  let (p, q, o) =
                    transfer_from-Fits x.source_state target_missing
                      (nearest (things (with_target target_missing x)) source_to_target
                        (with_target target_missing x))
                      x r.2 refl in
                  rw (g, and_then)
                    (subst
                      (λ y. Fits x.num w (
                        when run nearest
                          (is_target_missing y.target_state || is_legacy y.target_state)
                          (transfer run nearest things) y r.2))
                      (sym (b g)) (p, q, λ k e. o k e ∙ a.2 k e))
            ]

    all_present-others :
        (l : List TheBigThing) (w v : W)
        → ((k : ℕ) → has_number k l ≡ true → has v k ≡ has w k)
        → all_present v l ≡ all_present w l
    all_present-others [] w v h = refl
    all_present-others (x ∷ l) w v h =
        ground
          (arith, h x.num (ground arith), all_present-others l w v (λ k e. h k (ground (arith, e))))

    for_each-present :
        (done l : List TheBigThing) (w : W)
        → are_distinct l ≡ true
        → all_present w l ≡ true
        → (let r = for_each (transfer_step run nearest) done l w in
            (all_present r.2 r.1 ≡ true) × ((k : ℕ) → has_number k l ≡ false → has r.2 k ≡ has w k))
    unfolding for_each
    for_each-present done [] w d h = (refl, λ k e. refl)
    for_each-present done (x ∷ rest) w d h =
        let r = transfer_step run nearest (λ z. done ++ z ∷ rest) x w in
        let fresh : has_number x.num rest ≡ false = ground (arith, d) in
        let distinct : are_distinct rest ≡ true = ground (arith, d) in
        let first : is_present w x ≡ true = ground (arith, h) in
        let later : all_present w rest ≡ true = ground (arith, h, first) in
        let (p, q, o) = transfer_step-Fits x.target_state (λ z. done ++ z ∷ rest) x w first in
        let still : all_present r.2 rest ≡ true =
          all_present-others rest w r.2 (λ k e. o k (ground (arith, e, fresh))) ∙ later in
        let (a, b) = for_each-present (done ++ r.1 ∷ []) rest r.2 distinct still in
        elim (Bool-cases r.0) [
          | inr g ↦ rw (g, for_each) (ground (arith, p, still), λ k e. o k (ground (arith, e)))
          | inl g ↦
              rw (g, for_each)
                (
                  both _ _
                      (ap (λ z. not (is_valid r.1.target_state || is_legacy r.1.target_state) || z)
                          (b r.1.num (subst (λ n. has_number n rest ≡ false) (sym q) fresh))
                        ∙ p)
                      a,
                  λ k e. b k (ground (arith, e)) ∙ o k (ground (arith, e)),
                )
        ]

    -- A transfer, also one that throws, keeps that the target has every snapshot that is said to be valid
    -- or legacy there.
    pub transfer_all-present :
        (things : List TheBigThing) (w : W)
        → are_distinct things ≡ true
        → all_present w things ≡ true
        → all_present (transfer_all run nearest things w).2 (transfer_all run nearest things w).1
          ≡ true
    transfer_all-present things w d h = (for_each-present [] things w d h).0

    present-In :
        (w : W) (l : List TheBigThing) (x : TheBigThing)
        → all_present w l ≡ true
        → In x l
        → is_present w x ≡ true
    present-In w [] x h m = absurd m
    present-In w (y ∷ l) x h (inl e) =
        subst (λ z. is_present w z ≡ true) (sym e) (ground (arith, h))
    present-In w (y ∷ l) x h (inr m) = present-In w l x (ground (arith, h)) m

    -- If the numbers are distinct and the target had what was said to be valid or legacy there, then after
    -- a transfer that does not throw the target has every read-only snapshot of the source, each of these
    -- is said to be valid there, and no other state has changed.
    pub transfer_all_complete :
        (things : List TheBigThing) (w : W)
        → are_distinct things ≡ true
        → all_present w things ≡ true
        → (transfer_all run nearest things w).0 ≡ true
        → ((transfer_all run nearest things w).1 ≡ map transferred things)
          × ((x : TheBigThing)
              → In x things
              → x.source_state ≡ read_only
              → has (transfer_all run nearest things w).2 x.num ≡ true)
    transfer_all_complete things w d h good =
        let states = transfer_all_lem run nearest things w good in
        let r = transfer_all run nearest things w in
        (
          states,
          λ x m e.
              let after : all_present r.2 (map transferred things) ≡ true =
                subst (λ l. all_present r.2 l ≡ true) states (transfer_all-present things w d h) in
              let kept =
                present-In r.2 (map transferred things) (transferred x) after
                  (In-map transferred x things m) in
              let same : transferred x ≡ with_target valid x =
                ap (λ s. if is_read_only s then with_target valid x else x) e in
              subst (λ z. is_present r.2 z ≡ true) same kept,
        )
