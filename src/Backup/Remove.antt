-- ===== src/Backup/Remove.antt =====
-- TheBigThings::remove (client/snbk/TheBigThing.cc): the states that it leaves.
use snapper.Base.{
  ℕ, ◌≡◌, refl, ap, ◌∙◌, Bool, true, not, ◌&&◌, ◌||◌, Option, List, [], ◌∷◌, map, if◌then◌else◌,
  arith,
}
use snapper.Backup.{
  SourceState, source_missing, read_only, read_write, TargetState, target_missing, valid, invalid,
  legacy, TheBigThing, CopyMode, Command, Outcome, with_target, is_read_only, is_source_missing,
  is_target_missing, is_valid, is_invalid, remove, when, remove_step, remove_all, transfer_all,
}
use snapper.Backup.Transfer.{
  for_each-map, when-good, and_then-good, remove-good, transferred, transfer_all_lem,
}

-- An invalid snapshot of the target goes, and one that the source does not have.
abbrev pub removed : TheBigThing → TheBigThing
removed x =
    if is_invalid x.target_state || is_source_missing x.source_state
    then with_target target_missing x
    else x

-- What a backup is after both: the read-only snapshots of the source, and what else the target has of
-- snapshots of the source that may be written to.
abbrev pub is_mirrored : TheBigThing → Bool
is_mirrored x =
    if is_read_only x.source_state
    then is_valid x.target_state
    else (if is_source_missing x.source_state
        then is_target_missing x.target_state
        else not (is_invalid x.target_state))

abbrev pub all_mirrored : List TheBigThing → Bool
all_mirrored [] = true
all_mirrored (x ∷ l) = is_mirrored x && all_mirrored l

module _ {W : Type 0} (run : Command → W → Bool × W)
    (nearest : List TheBigThing → CopyMode → TheBigThing → Option (Option ℕ)) where
  remove_step-good :
      (things : TheBigThing → List TheBigThing) (x : TheBigThing) (w : W)
      → (remove_step run nearest things x w).0 ≡ true
      → (remove_step run nearest things x w).1 ≡ removed x
  remove_step-good things x w h =
      let gone = when run nearest (is_invalid x.target_state) (remove run nearest) x w in
      let next : TheBigThing → W → Outcome W TheBigThing = λ y.
        when run nearest
          (is_source_missing y.source_state && not (is_target_missing y.target_state))
          (remove run nearest) y in
      let (a, b, c) = and_then-good run nearest gone next h in
      let first =
        when-good run nearest (is_invalid x.target_state) (remove run nearest)
          (with_target target_missing) (remove-good run nearest) x w a in
      let second =
        when-good run nearest
          (is_source_missing gone.1.source_state && not (is_target_missing gone.1.target_state))
          (remove run nearest) (with_target target_missing) (remove-good run nearest) gone.1 gone.2
          b in
      c ∙ (second ∙ (ap then_removed first ∙ both x.source_state x.target_state))
    where
      then_removed : TheBigThing → TheBigThing
      then_removed y =
          if is_source_missing y.source_state && not (is_target_missing y.target_state)
          then with_target target_missing y
          else y

      both :
          (s : SourceState) (t : TargetState)
          → then_removed (
              if is_invalid t
              then with_target target_missing (record x { source_state = s; target_state = t })
              else record x { source_state = s; target_state = t })
            ≡ removed (record x { source_state = s; target_state = t })
      both source_missing target_missing = refl
      both source_missing valid = refl
      both source_missing invalid = refl
      both source_missing legacy = refl
      both read_only target_missing = refl
      both read_only valid = refl
      both read_only invalid = refl
      both read_only legacy = refl
      both read_write target_missing = refl
      both read_write valid = refl
      both read_write invalid = refl
      both read_write legacy = refl

  -- A removal that does not throw leaves no snapshot on the target that is invalid or that the source does
  -- not have, and changes no other state.
  pub remove_all_lem :
      (things : List TheBigThing) (w : W)
      → (remove_all run nearest things w).0 ≡ true
      → (remove_all run nearest things w).1 ≡ map removed things
  remove_all_lem things w h =
      for_each-map (remove_step run nearest) removed remove_step-good [] things w h

  mirrored :
      (things : List TheBigThing) → all_mirrored (map removed (map transferred things)) ≡ true
  mirrored [] = refl
  mirrored (x ∷ l) = ground (arith, one x.source_state x.target_state, mirrored l)
    where
      one :
          (s : SourceState) (t : TargetState)
          → is_mirrored (removed (transferred (record x { source_state = s; target_state = t })))
            ≡ true
      one source_missing target_missing = refl
      one source_missing valid = refl
      one source_missing invalid = refl
      one source_missing legacy = refl
      one read_only t = refl
      one read_write target_missing = refl
      one read_write valid = refl
      one read_write invalid = refl
      one read_write legacy = refl

  -- After a transfer and then a removal that do not throw, whatever the states were, the states say that
  -- the target has every read-only snapshot of the source, none that the source does not have, and none
  -- that is invalid.
  pub mirrored_states :
      (things : List TheBigThing) (w : W)
      → (transfer_all run nearest things w).0 ≡ true
      → (remove_all run nearest
          (transfer_all run nearest things w).1
          (transfer_all run nearest things w).2).0
        ≡ true
      → all_mirrored
          (remove_all run nearest
            (transfer_all run nearest things w).1
            (transfer_all run nearest things w).2).1
        ≡ true
  mirrored_states things w h k =
      ap all_mirrored (
        remove_all_lem (transfer_all run nearest things w).1 (transfer_all run nearest things w).2 k
        ∙ ap (map removed) (transfer_all_lem run nearest things w h))
      ∙ mirrored things
