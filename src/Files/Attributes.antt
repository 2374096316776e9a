-- ===== src/Files/Attributes.antt =====
-- snapper/XAttributes.cc: XAModification, and File::modifyXattributes of snapper/File.cc. A xa_map_t is
-- the list of its pairs in ascending order. The attributes of the file that is written to are a
-- function, which the calls of lsetxattr and lremovexattr change; a call also fails where `fails` says
-- so.
pub mod Difference
pub mod Loops
pub mod Filtered
pub mod Transfer
pub mod Fails
use snapper.Base.{
  Bytes, eq_bytes, lt_bytes, Bool, true, false, not, ◌&&◌, ◌||◌, Option, none, some, List, [], ◌∷◌,
  if◌then◌else◌, filter_by, any_of,
}

abbrev pub Xamap : Type 0
Xamap = List (Bytes × Bytes)

abbrev pub Attributes : Type 0
Attributes = Bytes → Option Bytes

pub record XaModification : Type 0 where
  pub create_vec : Xamap
  pub delete_vec : List Bytes
  pub replace_vec : Xamap

abbrev pub keys : Xamap → List Bytes
keys [] = []
keys ((k, _) ∷ m) = k ∷ keys m

-- The three push_back of the constructor, seen from the front of the vectors.
abbrev pub add_create : Bytes × Bytes → XaModification → XaModification
add_create p x = record x { create_vec = p ∷ x.create_vec }

abbrev pub add_delete : Bytes → XaModification → XaModification
add_delete k x = record x { delete_vec = k ∷ x.delete_vec }

abbrev pub add_replace : Bytes × Bytes → XaModification → XaModification
add_replace p x = record x { replace_vec = p ∷ x.replace_vec }

-- XAModification::XAModification: the loop over both maps, and the two loops over what is left.
unfoldable pub difference : Xamap → Xamap → XaModification
unfolding eq_bytes lt_bytes
difference [] dest = record { create_vec = []; delete_vec = keys dest; replace_vec = [] }
difference ((k, v) ∷ src) [] = record {
  create_vec = (k, v) ∷ src;
  delete_vec = [];
  replace_vec = [];
}
difference ((k, v) ∷ src) ((j, w) ∷ dest) =
    let both = difference src dest in
    let left = difference src ((j, w) ∷ dest) in
    let right = difference ((k, v) ∷ src) dest in
    if eq_bytes k j
    then (if eq_bytes v w then both else add_replace (k, v) both)
    else if lt_bytes k j
    then add_create (k, v) left
    else add_delete j right

-- boost::contains(_acl_signatures, name)
abbrev pub is_acl : List Bytes → Bytes → Bool
is_acl signatures name = any_of (eq_bytes name) signatures

-- XAModification::filterOutAcls
abbrev pub filter_out_acls : List Bytes → XaModification → XaModification
filter_out_acls signatures x = record {
  create_vec = filter_by (λ p. not (is_acl signatures p.0)) x.create_vec;
  delete_vec = filter_by (λ k. not (is_acl signatures k)) x.delete_vec;
  replace_vec = filter_by (λ p. not (is_acl signatures p.0)) x.replace_vec;
}

-- XAModification::empty
unfoldable pub is_empty : XaModification → Bool
is_empty x = elim x.create_vec [
  | [] ↦ elim x.delete_vec [ [] ↦ elim x.replace_vec [ [] ↦ true | p ∷ l ↦ false ] | k ∷ l ↦ false ]
  | p ∷ l ↦ false
]

abbrev pub change : Attributes → Bytes → Option Bytes → Attributes
change f k o j = if eq_bytes j k then o else f j

module _ (fails : Bytes → Bool) where
  -- lsetxattr with XATTR_CREATE and with XATTR_REPLACE, and lremovexattr; `none` is a failure.
  abbrev pub set_new : Bytes → Bytes → Attributes → Option Attributes
  set_new k v f =
      if fails k then none else elim (f k) [ none ↦ some (change f k (some v)) | some _ ↦ none ]

  abbrev pub set_old : Bytes → Bytes → Attributes → Option Attributes
  set_old k v f =
      if fails k then none else elim (f k) [ none ↦ none | some _ ↦ some (change f k (some v)) ]

  abbrev pub remove : Bytes → Attributes → Option Attributes
  remove k f =
      if fails k then none else elim (f k) [ none ↦ none | some _ ↦ some (change f k none) ]

  -- The three loops of serializeTo: whether all calls succeed, and the attributes afterwards.
  unfoldable pub create_loop : Xamap → Attributes → Bool × Attributes
  create_loop [] f = (true, f)
  create_loop ((k, v) ∷ rest) f = elim (set_new k v f) [
    | none ↦ (false, f)
    | some g ↦ create_loop rest g
  ]

  unfoldable pub delete_loop : List Bytes → Attributes → Bool × Attributes
  delete_loop [] f = (true, f)
  delete_loop (k ∷ rest) f = elim (remove k f) [ none ↦ (false, f) | some g ↦ delete_loop rest g ]

  unfoldable pub replace_loop : Xamap → Attributes → Bool × Attributes
  replace_loop [] f = (true, f)
  replace_loop ((k, v) ∷ rest) f = elim (set_old k v f) [
    | none ↦ (false, f)
    | some g ↦ replace_loop rest g
  ]

  abbrev pub and_then : Bool × Attributes → (Attributes → Bool × Attributes) → Bool × Attributes
  and_then (true, f) next = next f
  and_then (false, f) next = (false, f)

  -- XAModification::serializeTo
  unfoldable pub serialize_to : XaModification → Attributes → Bool × Attributes
  unfolding is_empty create_loop delete_loop replace_loop
  serialize_to x f =
      if is_empty x
      then (true, f)
      else and_then (and_then (create_loop x.create_vec f) (delete_loop x.delete_vec))
          (replace_loop x.replace_vec)

  -- File::modifyXattributes after the two maps were read.
  unfoldable pub modify_xattributes : List Bytes → Xamap → Xamap → Attributes → Bool × Attributes
  unfolding difference serialize_to
  modify_xattributes signatures xa_src xa_dest f =
      serialize_to (filter_out_acls signatures (difference xa_src xa_dest)) f
