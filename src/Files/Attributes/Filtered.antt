-- ===== src/Files/Attributes/Filtered.antt =====
-- What the vectors of an XAModification hold when filterOutAcls has gone over them.
use snapper.Base.{
  Bytes, eq_bytes, eq_bytes_iff, find_key, Above, IsMap, ◌≡◌, refl, ap, Bool, true, false, not,
  Option, none, some, List, [], ◌∷◌, arith, if◌then◌else◌, filter_by, Bool-cases, inl, inr,
}
use snapper.Files.Attributes.{Xamap, XaModification, is_acl, filter_out_acls}
use snapper.Files.Attributes.Difference.{
  has, AboveKeys, IsAscending, is_some, created_by, deleted_by, replaced_by, Holds,
}
use snapper.Files.Attributes.Loops.{or_else}

module _ (signatures : List Bytes) where
  abbrev kept : Bytes → Bool
  kept k = not (is_acl signatures k)

  pub filter-Above : (k : Bytes) (m : Xamap) → Above k m → Above k (filter_by (λ p. kept p.0) m)
  filter-Above k [] a = tt
  filter-Above k ((j, v) ∷ m) a = ground (arith, filter-Above k m a.1)

  pub filter-IsMap : (m : Xamap) → IsMap m → IsMap (filter_by (λ p. kept p.0) m)
  filter-IsMap [] o = tt
  filter-IsMap ((k, v) ∷ m) o = ground (arith, filter-Above k m o.0, filter-IsMap m o.1)

  pub filter-AboveKeys :
      (k : Bytes) (l : List Bytes) → AboveKeys k l → AboveKeys k (filter_by kept l)
  filter-AboveKeys k [] a = tt
  filter-AboveKeys k (j ∷ l) a = ground (arith, filter-AboveKeys k l a.1)

  pub filter-IsAscending : (l : List Bytes) → IsAscending l → IsAscending (filter_by kept l)
  filter-IsAscending [] o = tt
  filter-IsAscending (k ∷ l) o = ground (arith, filter-AboveKeys k l o.0, filter-IsAscending l o.1)

  pub find_key-filter :
      (j : Bytes) (m : Xamap)
      → find_key j (filter_by (λ p. kept p.0) m)
        ≡ (if is_acl signatures j then none else find_key j m)
  unfolding find_key
  find_key-filter j [] = ground arith
  find_key-filter j ((k, v) ∷ m) = elim (Bool-cases (eq_bytes k j)) [
    | inl e ↦
        let q : is_acl signatures k ≡ is_acl signatures j =
          ap (is_acl signatures) ((eq_bytes_iff k j).0 e) in
        ground (arith, q, e, find_key-filter j m)
    | inr e ↦ ground (arith, e, find_key-filter j m)
  ]

  pub has-filter :
      (j : Bytes) (l : List Bytes)
      → has j (filter_by kept l) ≡ (if is_acl signatures j then false else has j l)
  has-filter j [] = ground arith
  has-filter j (k ∷ l) = elim (Bool-cases (eq_bytes j k)) [
    | inl e ↦
        let q : is_acl signatures j ≡ is_acl signatures k =
          ap (is_acl signatures) ((eq_bytes_iff j k).0 e) in
        ground (arith, q, e, has-filter j l)
    | inr e ↦ ground (arith, e, has-filter j l)
  ]

-- What the filtered vectors hold for a name.
abbrev pub Filtered : List Bytes → Bytes → XaModification → Option Bytes → Option Bytes → Type 0
Filtered l j y s d =
    (find_key j y.create_vec ≡ (if is_acl l j then none else created_by s d))
    × (has j y.delete_vec ≡ (if is_acl l j then false else deleted_by s d))
    × (find_key j y.replace_vec ≡ (if is_acl l j then none else replaced_by s d))

pub filtered :
    (l : List Bytes) (j : Bytes) (x : XaModification) (s d : Option Bytes)
    → Holds j x s d
    → Filtered l j (filter_out_acls l x) s d
filtered l j x s d (p, q, r) = (
  rw (find_key-filter l j x.create_vec, p) refl,
  rw (has-filter l j x.delete_vec, q) refl,
  rw (find_key-filter l j x.replace_vec, r) refl,
)

pub when_created :
    (l : List Bytes) (j : Bytes) (y : XaModification) (s d : Option Bytes) (v : Bytes)
    → Filtered l j y s d
    → find_key j y.create_vec ≡ some v
    → d ≡ none
when_created l j y s d v h q = ground (arith, h.0)

pub when_deleted :
    (l : List Bytes) (j : Bytes) (y : XaModification) (s d : Option Bytes)
    → Filtered l j y s d
    → has j y.delete_vec ≡ true
    → is_some (or_else (find_key j y.create_vec) d) ≡ true
when_deleted l j y s d h q = ground (arith, h.0, h.1)

pub when_replaced :
    (l : List Bytes) (j : Bytes) (y : XaModification) (s d : Option Bytes) (v : Bytes)
    → Filtered l j y s d
    → find_key j y.replace_vec ≡ some v
    → is_some (if has j y.delete_vec then none else or_else (find_key j y.create_vec) d) ≡ true
when_replaced l j y s d v h q = ground (arith, h.0, h.1, h.2)

pub outcome :
    (l : List Bytes) (j : Bytes) (y : XaModification) (s d : Option Bytes)
    → Filtered l j y s d
    → or_else
        (find_key j y.replace_vec)
        (if has j y.delete_vec then none else or_else (find_key j y.create_vec) d)
      ≡ (if is_acl l j then d else s)
outcome l j y none none h = ground (arith, h.0, h.1, h.2)
outcome l j y none (some w) h = ground (arith, h.0, h.1, h.2)
outcome l j y (some v) none h = ground (arith, h.0, h.1, h.2)
outcome l j y (some v) (some w) h = ground (arith, h.0, h.1, h.2, eq_bytes_iff v w)
