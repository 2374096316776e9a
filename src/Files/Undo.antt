-- ===== src/Files/Undo.antt =====
-- File::getAction, Files::getUndoStatistic and Files::getUndoSteps of snapper/File.cc. Only
-- the fields of a file that these functions read are modelled.
pub mod Order
use mathlib.Core.List.{reverse-cons}
use snapper.Base.{
  ◌%◌, ◌^◌, ◌<◌, ℕ, ◌+◌, ◌≡◌, refl, Bool, true, false, not, ◌&&◌, List, [], ◌∷◌, ◌++◌, map, reverse,
  String, arith, ◌==◌, if◌then◌else◌, filter_by, length, length-append, ap, ◌∙◌,
}
use snapper.Files.Status.{created, deleted}

pub data Action : Type 0 where
  create modify delete : Action

pub record File : Type 0 where
  pub name : String
  pub pre_to_post_status : ℕ
  pub undo : Bool

pub record UndoStatistic : Type 0 where
  pub num_create : ℕ
  pub num_modify : ℕ
  pub num_delete : ℕ

pub record UndoStep : Type 0 where
  pub name : String
  pub action : Action

-- File::getAction
unfoldable pub get_action : File → Action
get_action f =
    if f.pre_to_post_status == created
    then delete
    else if f.pre_to_post_status == deleted
    then create
    else modify

-- The switch in the loop of getUndoStatistic; the counters are of type unsigned int.
unfoldable pub count_action : Action → UndoStatistic → UndoStatistic
count_action create rs = record rs { num_create = (rs.num_create + 1) % 2 ^ 32 }
count_action modify rs = record rs { num_modify = (rs.num_modify + 1) % 2 ^ 32 }
count_action delete rs = record rs { num_delete = (rs.num_delete + 1) % 2 ^ 32 }

unfoldable pub statistic_loop : List File → UndoStatistic → UndoStatistic
unfolding get_action count_action
statistic_loop [] rs = rs
statistic_loop (f ∷ fs) rs =
    statistic_loop fs (if f.undo then count_action (get_action f) rs else rs)

-- Files::getUndoStatistic
unfoldable pub get_undo_statistic : List File → UndoStatistic
unfolding statistic_loop
get_undo_statistic entries =
    statistic_loop entries (record { num_create = 0; num_modify = 0; num_delete = 0 })

abbrev pub step_of : File → UndoStep
step_of f = record { name = f.name; action = get_action f }

-- One of the two loops of getUndoSteps: the files to undo whose status is, or is not, CREATED.
unfoldable pub steps_loop : Bool → List File → List UndoStep
unfolding get_action
steps_loop for_created [] = []
steps_loop for_created (f ∷ fs) =
    let rest = steps_loop for_created fs in
    let is_created = f.pre_to_post_status == created in
    if f.undo && (if for_created then is_created else not is_created)
    then step_of f ∷ rest
    else rest

-- Files::getUndoSteps: the first loop runs from rbegin() to rend().
unfoldable pub get_undo_steps : List File → List UndoStep
unfolding steps_loop
get_undo_steps entries = steps_loop true (reverse entries) ++ steps_loop false entries

abbrev pub is_action : Action → UndoStep → Bool
is_action create s = elim s.action [ create ↦ true | modify ↦ false | delete ↦ false ]
is_action modify s = elim s.action [ create ↦ false | modify ↦ true | delete ↦ false ]
is_action delete s = elim s.action [ create ↦ false | modify ↦ false | delete ↦ true ]

abbrev pub count : Action → List UndoStep → ℕ
count a steps = length (filter_by (is_action a) steps)

count-append : (a : Action) (xs ys : List UndoStep) → count a (xs ++ ys) ≡ count a xs + count a ys
count-append a [] ys = omega arith
count-append a (x ∷ xs) ys = ground (arith, count-append a xs ys)

steps_loop-append :
    (b : Bool) (xs ys : List File) → steps_loop b (xs ++ ys) ≡ steps_loop b xs ++ steps_loop b ys
unfolding steps_loop
steps_loop-append b [] ys = refl
steps_loop-append b (x ∷ xs) ys = ground (arith, steps_loop-append b xs ys)

count-reverse :
    (a : Action) (b : Bool) (xs : List File)
    → count a (steps_loop b (reverse xs)) ≡ count a (steps_loop b xs)
count-reverse a b [] = refl
count-reverse a b (x ∷ xs) =
    rw (reverse-cons x xs, steps_loop-append b (reverse xs) (x ∷ []))
      (omega (
        arith,
        count-append a (steps_loop b (reverse xs)) (steps_loop b (x ∷ [])),
        count-append a (steps_loop b (x ∷ [])) (steps_loop b xs),
        count-reverse a b xs,
        ap (count a) (steps_loop-append b (x ∷ []) xs),
      ))

-- The counters are below 2 ^ 32.
abbrev Fits : UndoStatistic → Type 0
Fits rs = (rs.num_create < 2 ^ 32) × (rs.num_modify < 2 ^ 32) × (rs.num_delete < 2 ^ 32)

-- The steps of both loops with this action, counted from a number on.
abbrev counted : ℕ → Action → List File → ℕ
counted start a xs = (start + count a (steps_loop true xs) + count a (steps_loop false xs)) % 2 ^ 32

statistic_counts :
    (xs : List File) (rs : UndoStatistic)
    → Fits rs
    → ((statistic_loop xs rs).num_create ≡ counted rs.num_create create xs)
      × ((statistic_loop xs rs).num_modify ≡ counted rs.num_modify modify xs)
      × ((statistic_loop xs rs).num_delete ≡ counted rs.num_delete delete xs)
unfolding statistic_loop steps_loop
statistic_counts [] rs h = omega arith
statistic_counts (f ∷ xs) rs h =
    ground (arith, statistic_counts xs (if f.undo then count_action (get_action f) rs else rs))

-- The statistic counts, for each action, the steps with that action, modulo 2 ^ 32.
pub statistic-steps :
    (xs : List File)
    → ((get_undo_statistic xs).num_create ≡ count create (get_undo_steps xs) % 2 ^ 32)
      × ((get_undo_statistic xs).num_modify ≡ count modify (get_undo_steps xs) % 2 ^ 32)
      × ((get_undo_statistic xs).num_delete ≡ count delete (get_undo_steps xs) % 2 ^ 32)
unfolding get_undo_statistic get_undo_steps
statistic-steps xs =
    let initial : UndoStatistic = record { num_create = 0; num_modify = 0; num_delete = 0 } in
    omega (
      arith,
      statistic_counts xs initial (omega arith, omega arith, omega arith),
      count-append create (steps_loop true (reverse xs)) (steps_loop false xs),
      count-append modify (steps_loop true (reverse xs)) (steps_loop false xs),
      count-append delete (steps_loop true (reverse xs)) (steps_loop false xs),
      count-reverse create true xs,
      count-reverse modify true xs,
      count-reverse delete true xs,
    )
