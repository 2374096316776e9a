-- ===== src/Files/Attributes/Loops.antt =====
-- The three loops of XAModification::serializeTo (snapper/XAttributes.cc).
use snapper.Base.{
  Bytes, eq_bytes, eq_bytes_iff, eq_bytes_sym, eq-lt_bytes, find_key, find_key-Above, Above, IsMap,
  ◌≡◌, refl, sym, ap, ◌∙◌, Bool, true, false, Option, none, some, List, [], ◌∷◌, arith,
  if◌then◌else◌, All, Option-cases, inl, inr,
}
use snapper.Files.Attributes.{
  Xamap, Attributes, change, create_loop, delete_loop, replace_loop, and_then, serialize_to,
}
use snapper.Files.Attributes.Difference.{has, AboveKeys, IsAscending, is_some}

abbrev pub or_else : Option Bytes → Option Bytes → Option Bytes
or_else none b = b
or_else (some a) b = some a

-- Nothing fails that the kernel has no reason to refuse.
abbrev pub never : Bytes → Bool
never k = false

-- A loop has succeeded, and left these attributes.
abbrev pub Leaves : Bool × Attributes → Attributes → Type 0
Leaves r g = (r.0 ≡ true) × ((j : Bytes) → r.1 j ≡ g j)

pub has-Above : (k : Bytes) (l : List Bytes) → AboveKeys k l → has k l ≡ false
has-Above k [] a = refl
has-Above k (j ∷ l) a = ground (arith, eq-lt_bytes k j, has-Above k l a.1)

-- Changing a lesser name leaves what the loop needs to know of the names to come.
pub change-apart :
    (P : Option Bytes → Type 0) (k : Bytes) (o : Option Bytes) (f : Attributes) (m : Xamap)
    → Above k m
    → All (λ p. P (f p.0)) m
    → All (λ p. P (change f k o p.0)) m
change-apart P k o f [] a h = tt
change-apart P k o f ((j, v) ∷ m) a h =
    (rw (eq_bytes_sym j k, eq-lt_bytes k j a.0) h.0, change-apart P k o f m a.1 h.1)

pub change-apart_keys :
    (P : Option Bytes → Type 0) (k : Bytes) (o : Option Bytes) (f : Attributes) (l : List Bytes)
    → AboveKeys k l
    → All (λ j. P (f j)) l
    → All (λ j. P (change f k o j)) l
change-apart_keys P k o f [] a h = tt
change-apart_keys P k o f (j ∷ l) a h =
    (rw (eq_bytes_sym j k, eq-lt_bytes k j a.0) h.0, change-apart_keys P k o f l a.1 h.1)

pub change-after :
    (j k v : Bytes) (f : Attributes) (o : Option Bytes)
    → (eq_bytes k j ≡ true → o ≡ none)
    → or_else o (change f k (some v) j) ≡ or_else (if eq_bytes k j then some v else o) (f j)
change-after j k v f o h = ground (arith, eq_bytes_sym k j)

pub find_key-fresh :
    (j k : Bytes) (m : Xamap) → Above k m → eq_bytes k j ≡ true → find_key j m ≡ none
find_key-fresh j k m a e = rw (sym ((eq_bytes_iff k j).0 e)) (find_key-Above k m a)

pub create_loop-Leaves :
    (m : Xamap) (f : Attributes)
    → IsMap m
    → All (λ p. f p.0 ≡ none) m
    → Leaves (create_loop never m f) (λ j. or_else (find_key j m) (f j))
unfolding create_loop find_key
create_loop-Leaves [] f o h = (refl, λ j. refl)
create_loop-Leaves ((k, v) ∷ m) f o h =
    let (a, b) =
      create_loop-Leaves m (change f k (some v)) o.1
        (change-apart (λ x. x ≡ none) k (some v) f m o.0 h.1) in
    rw (h.0, create_loop)
      (a, λ j. b j ∙ change-after j k v f (find_key j m) (find_key-fresh j k m o.0))

pub replace_loop-Leaves :
    (m : Xamap) (f : Attributes)
    → IsMap m
    → All (λ p. is_some (f p.0) ≡ true) m
    → Leaves (replace_loop never m f) (λ j. or_else (find_key j m) (f j))
unfolding replace_loop find_key
replace_loop-Leaves [] f o h = (refl, λ j. refl)
replace_loop-Leaves ((k, v) ∷ m) f o h =
    let (a, b) =
      replace_loop-Leaves m (change f k (some v)) o.1
        (change-apart (λ x. is_some x ≡ true) k (some v) f m o.0 h.1) in
    elim (Option-cases (f k)) [
      | inl e ↦ absurd (ground (arith, h.0))
      | inr (w, e) ↦
          rw (e, replace_loop)
            (a, λ j. b j ∙ change-after j k v f (find_key j m) (find_key-fresh j k m o.0))
    ]

pub delete_loop-Leaves :
    (l : List Bytes) (f : Attributes)
    → IsAscending l
    → All (λ j. is_some (f j) ≡ true) l
    → Leaves (delete_loop never l f) (λ j. if has j l then none else f j)
unfolding delete_loop
delete_loop-Leaves [] f o h = (refl, λ j. refl)
delete_loop-Leaves (k ∷ l) f o h =
    let (a, b) =
      delete_loop-Leaves l (change f k none) o.1
        (change-apart_keys (λ x. is_some x ≡ true) k none f l o.0 h.1) in
    elim (Option-cases (f k)) [
      | inl e ↦ absurd (ground (arith, h.0))
      | inr (w, e) ↦ rw (e, delete_loop) (a, λ j. b j ∙ ground arith)
    ]

-- What holds of the names that a map finds holds of its names.
pub All-find_key :
    (P : Bytes → Option Bytes → Type 0) (m : Xamap)
    → IsMap m
    → ((j v : Bytes) → find_key j m ≡ some v → P j (some v))
    → All (λ p. P p.0 (some p.1)) m
unfolding find_key
All-find_key P [] o h = tt
All-find_key P ((k, v) ∷ m) o h = (
  h k v (rw ((eq_bytes_iff k k).1 refl) refl),
  All-find_key P m o.1 λ j w e. h j w (ground (arith, e, find_key-fresh j k m o.0)),
)

pub All-has : (P : Bytes → Type 0) (l : List Bytes) → ((j : Bytes) → has j l ≡ true → P j) → All P l
All-has P [] h = tt
All-has P (k ∷ l) h =
    (h k (rw ((eq_bytes_iff k k).1 refl) refl), All-has P l (λ j e. h j (ground (arith, e))))

-- The early return of serializeTo does what the loops would do.
pub serialize_to_lem :
    (fails : Bytes → Bool) (c r : Xamap) (d : List Bytes) (f : Attributes)
    → serialize_to fails (record { create_vec = c; delete_vec = d; replace_vec = r }) f
      ≡ and_then fails
          (and_then fails (create_loop fails c f) (delete_loop fails d))
          (replace_loop fails r)
unfolding serialize_to
serialize_to_lem fails [] [] [] f = refl
serialize_to_lem fails [] (p ∷ r) [] f = refl
serialize_to_lem fails [] r (k ∷ d) f = refl
serialize_to_lem fails (p ∷ c) r d f = refl

pub transport_keys :
    {g h : Bytes → Option Bytes}
    → (l : List Bytes) → All (λ j. is_some (g j) ≡ true) l
    → ((j : Bytes) → g j ≡ h j)
    → All (λ j. is_some (h j) ≡ true) l
transport_keys [] q e = tt
transport_keys (k ∷ l) q e = (rw (sym (e k)) q.0, transport_keys l q.1 e)

pub transport_map :
    {g h : Bytes → Option Bytes}
    → (m : Xamap) → All (λ p. is_some (g p.0) ≡ true) m
    → ((j : Bytes) → g j ≡ h j)
    → All (λ p. is_some (h p.0) ≡ true) m
transport_map [] q e = tt
transport_map ((k, v) ∷ m) q e = (rw (sym (e k)) q.0, transport_map m q.1 e)

pub and_then-true :
    (o : Bool × Attributes) (next : Attributes → Bool × Attributes)
    → o.0 ≡ true
    → and_then never o next ≡ next o.1
and_then-true (true, g) next e = refl
and_then-true (false, g) next e = absurd (ground arith)

-- The three loops one after the other.
pub loops-Leaves :
    (c r : Xamap) (d : List Bytes) (f : Attributes)
    → IsMap c
    → IsAscending d
    → IsMap r
    → All (λ p. f p.0 ≡ none) c
    → All (λ j. is_some (or_else (find_key j c) (f j)) ≡ true) d
    → All (λ p. is_some (if has p.0 d then none else or_else (find_key p.0 c) (f p.0)) ≡ true) r
    → Leaves
        (and_then never
          (and_then never (create_loop never c f) (delete_loop never d))
          (replace_loop never r))
        (λ j. or_else (find_key j r) (if has j d then none else or_else (find_key j c) (f j)))
loops-Leaves c r d f oc od or hc hd hr =
    let (a, b) = create_loop-Leaves c f oc hc in
    let f1 = (create_loop never c f).1 in
    let hd1 : All (λ j. is_some (f1 j) ≡ true) d = transport_keys d hd (λ j. sym (b j)) in
    let (x, y) = delete_loop-Leaves d f1 od hd1 in
    let f2 = (delete_loop never d f1).1 in
    let z : (j : Bytes) → f2 j ≡ (if has j d then none else or_else (find_key j c) (f j)) =
      λ j. y j ∙ ap (λ o. if has j d then none else o) (b j) in
    let (u, v) = replace_loop-Leaves r f2 or (transport_map r hr (λ j. sym (z j))) in
    let second : and_then never (create_loop never c f) (delete_loop never d)
        ≡ delete_loop never d f1 =
      and_then-true (create_loop never c f) (delete_loop never d) a in
    let third : and_then never (delete_loop never d f1) (replace_loop never r)
        ≡ replace_loop never r f2 =
      and_then-true (delete_loop never d f1) (replace_loop never r) x in
    rw (second, third) (u, λ j. v j ∙ ap (or_else (find_key j r)) (z j))
