-- ===== src/Files/Undo/Order.antt =====
-- The order of the steps of Files::getUndoSteps (snapper/File.cc).
use mathlib.Core.List.{reverse-cons}
use snapper.Base.{
  ◌≡◌, Bool, true, false, List, [], ◌∷◌, ◌++◌, reverse, arith, ◌==◌, In, inl, inr, ◌⊎◌,
  append_left-In, append_right-In, In-reverse,
}
use snapper.Files.Status.{created}
use snapper.Files.Undo.{File, step_of, steps_loop, get_undo_steps}

-- a stands before b.
abbrev pub Precedes : {A : Type 0} → A → A → List A → Type 0
Precedes a b [] = ⊥
Precedes a b (x ∷ l) = ((a ≡ x) × In b l) ⊎ Precedes a b l

module _ {A : Type 0} (a b : A) where
  Precedes-left : (l r : List A) → Precedes a b l → Precedes a b (l ++ r)
  Precedes-left [] r h = absurd h
  Precedes-left (x ∷ l) r (inl (e, m)) = inl (e, append_left-In b l r m)
  Precedes-left (x ∷ l) r (inr h) = inr (Precedes-left l r h)

  Precedes-right : (l r : List A) → Precedes a b r → Precedes a b (l ++ r)
  Precedes-right [] r h = h
  Precedes-right (x ∷ l) r h = inr (Precedes-right l r h)

  Precedes-across : (l r : List A) → In a l → In b r → Precedes a b (l ++ r)
  Precedes-across [] r m n = absurd m
  Precedes-across (x ∷ l) r (inl e) n = inl (e, append_right-In b l r n)
  Precedes-across (x ∷ l) r (inr m) n = inr (Precedes-across l r m n)

Precedes-reverse : {A : Type 0} (a b : A) (l : List A) → Precedes a b l → Precedes b a (reverse l)
Precedes-reverse a b [] h = absurd h
Precedes-reverse a b (x ∷ l) (inl (e, m)) =
    rw (reverse-cons x l) (Precedes-across b a (reverse l) (x ∷ []) ((In-reverse b l).1 m) (inl e))
Precedes-reverse a b (x ∷ l) (inr h) =
    rw (reverse-cons x l) (Precedes-left b a (reverse l) (x ∷ []) (Precedes-reverse a b l h))

-- The file is undone in the first loop (true), or in the second (false).
abbrev pub Chosen : Bool → File → Type 0
Chosen c f = (f.undo ≡ true) × ((f.pre_to_post_status == created) ≡ c)

In-steps :
    (c : Bool) (f : File) (l : List File) → Chosen c f → In f l → In (step_of f) (steps_loop c l)
unfolding steps_loop
In-steps c f [] h m = absurd m
In-steps true f (x ∷ l) h (inl e) = ground arith
In-steps false f (x ∷ l) h (inl e) = ground arith
In-steps c f (x ∷ l) h (inr m) = ground (arith, In-steps c f l h m)

Precedes-steps :
    (c : Bool) (f g : File) (l : List File)
    → Chosen c f
    → Chosen c g
    → Precedes f g l
    → Precedes (step_of f) (step_of g) (steps_loop c l)
unfolding steps_loop
Precedes-steps c f g [] h k p = absurd p
Precedes-steps true f g (x ∷ l) h k (inl (e, m)) = ground (arith, In-steps true g l k m)
Precedes-steps false f g (x ∷ l) h k (inl (e, m)) = ground (arith, In-steps false g l k m)
Precedes-steps c f g (x ∷ l) h k (inr p) = ground (arith, Precedes-steps c f g l h k p)

-- Of two files to undo, f before g in the list: if both were created, g's step comes first, so what
-- stands later, such as the content of a directory, is deleted first; if neither was created, f's step
-- comes first, so a directory is there before its content; if one was created, its step comes first.
pub undo_order :
    (f g : File) (l : List File)
    → Precedes f g l
    → In f l
    → In g l
    → (Chosen true f → Chosen true g → Precedes (step_of g) (step_of f) (get_undo_steps l))
      × (Chosen false f → Chosen false g → Precedes (step_of f) (step_of g) (get_undo_steps l))
      × (Chosen true f → Chosen false g → Precedes (step_of f) (step_of g) (get_undo_steps l))
      × (Chosen false f → Chosen true g → Precedes (step_of g) (step_of f) (get_undo_steps l))
unfolding get_undo_steps
undo_order f g l p m n =
    let first = steps_loop true (reverse l) in
    let second = steps_loop false l in
    (
      λ h k.
          Precedes-left (step_of g) (step_of f) first second
            (Precedes-steps true g f (reverse l) k h (Precedes-reverse f g l p)),
      λ h k. Precedes-right (step_of f) (step_of g) first second (Precedes-steps false f g l h k p),
      λ h k.
          Precedes-across (step_of f) (step_of g) first second
            (In-steps true f (reverse l) h ((In-reverse f l).1 m)) (In-steps false g l k n),
      λ h k.
          Precedes-across (step_of g) (step_of f) first second
            (In-steps true g (reverse l) k ((In-reverse g l).1 n)) (In-steps false f l h m),
    )
