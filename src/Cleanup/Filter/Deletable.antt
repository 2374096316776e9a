-- ===== src/Cleanup/Filter/Deletable.antt =====
-- What the first two filters of client/cleanup.cc leave: exactly the candidates that may be deleted.
use snapper.Base.{
  ℕ, ◌≡◌, ◌≢◌, ◌↔◌, true, false, Option, none, some, List, [], ◌∷◌, arith, In, In-filter_by,
  filter_by-In,
}
use snapper.Base.Int.{◌-ℤ◌, ◌≤ℤ◌}
use snapper.Snapshot.{Snapshot}
use snapper.Proxy.{erase}
use snapper.Cleanup.Filter.{
  View, erase_all, undeletables, has_num, Distinct, filter_undeletables, filter_min_age,
  filter_pre_post, filter,
}

-- The snapshot is another one than the one given, if any.
abbrev pub IsNot : Option Snapshot → Snapshot → Type 0
IsNot none s = Unit {0}
IsNot (some d) s = s.num ≢ d.num

-- Neither the default nor the active snapshot, and old enough.
abbrev pub IsDeletable : View → Snapshot → Type 0
IsDeletable v s = IsNot v.default s × IsNot v.active s × (s.date ≤ℤ v.now -ℤ v.min_age)

has_num-erase : (n m : ℕ) (l : List Snapshot) → has_num m l ≡ false → has_num m (erase n l) ≡ false
unfolding erase
has_num-erase n m [] h = h
has_num-erase n m (x ∷ l) h = ground (arith, has_num-erase n m l)

pub erase-Distinct : (n : ℕ) (l : List Snapshot) → Distinct l → Distinct (erase n l)
unfolding erase
erase-Distinct n [] d = d
erase-Distinct n (x ∷ l) d = ground (arith, erase-Distinct n l d.1, has_num-erase n x.num l)

pub In-has_num : (a : Snapshot) (l : List Snapshot) → In a l → has_num a.num l ≡ true
In-has_num a [] h = absurd h
In-has_num a (x ∷ l) h = ground (arith, In-has_num a l)

In-erase :
    (n : ℕ) (a : Snapshot) (l : List Snapshot)
    → Distinct l
    → In a (erase n l)
    → In a l × (a.num ≢ n)
unfolding erase
In-erase n a [] d h = absurd h
In-erase n a (x ∷ l) d h = ground (arith, In-erase n a l d.1, In-has_num a l)

sub-erase : (n : ℕ) (a : Snapshot) (l : List Snapshot) → In a (erase n l) → In a l
unfolding erase
sub-erase n a [] h = h
sub-erase n a (x ∷ l) h = ground (arith, sub-erase n a l)

pub erase-In : (n : ℕ) (a : Snapshot) (l : List Snapshot) → In a l → a.num ≢ n → In a (erase n l)
unfolding erase
erase-In n a [] h e = h
erase-In n a (x ∷ l) h e = ground (arith, erase-In n a l)

In-filter_undeletables :
    (d a : Option Snapshot) (s : Snapshot) (l : List Snapshot)
    → Distinct l
    → In s (filter_undeletables d a l)
    → In s l × IsNot d s × IsNot a s
unfolding filter_undeletables
In-filter_undeletables none none s l u h = (h, tt, tt)
In-filter_undeletables none (some a) s l u h = let e = In-erase a.num s l u h in (e.0, tt, e.1)
In-filter_undeletables (some d) none s l u h = let e = In-erase d.num s l u h in (e.0, e.1, tt)
In-filter_undeletables (some d) (some a) s l u h =
    let e = In-erase a.num s (erase d.num l) (erase-Distinct d.num l u) h in
    let f = In-erase d.num s l u e.0 in (f.0, f.1, e.1)

filter_undeletables-In :
    (d a : Option Snapshot) (s : Snapshot) (l : List Snapshot)
    → In s l
    → IsNot d s
    → IsNot a s
    → In s (filter_undeletables d a l)
unfolding filter_undeletables
filter_undeletables-In none none s l h x y = h
filter_undeletables-In none (some a) s l h x y = erase-In a.num s l h y
filter_undeletables-In (some d) none s l h x y = erase-In d.num s l h x
filter_undeletables-In (some d) (some a) s l h x y =
    erase-In a.num s (erase d.num l) (erase-In d.num s l h x) y

-- What Cleaner::filter hands to filter_pre_post.
abbrev pub eligible : View → List Snapshot → List Snapshot
eligible v tmp = filter_min_age v.now v.min_age (filter_undeletables v.default v.active tmp)

-- Of candidates with distinct numbers, filter_undeletables and filter_min_age keep exactly those that
-- are neither the default nor the active snapshot and are not younger than the minimum age.
pub eligible_iff :
    (v : View) (tmp : List Snapshot) (s : Snapshot)
    → Distinct tmp
    → In s (eligible v tmp) ↔ (In s tmp × IsDeletable v s)
unfolding filter_min_age
eligible_iff v tmp s u = (
  λ h.
      let a = In-filter_by _ s _ h in
      let b = In-filter_undeletables v.default v.active s tmp u a.0 in
      (b.0, (b.1, b.2, ground arith)),
  λ h.
      filter_by-In _ s _ (filter_undeletables-In v.default v.active s tmp h.0 h.1.0 h.1.1)
        (ground arith),
)

-- Whatever the candidates, as long as their numbers are distinct, a snapshot that passes
-- Cleaner::filter was a candidate, is neither default nor active, and is old enough.
pub filter-IsDeletable :
    (v : View) (tmp : List Snapshot) (s : Snapshot)
    → Distinct tmp
    → In s (filter v tmp)
    → In s tmp × IsDeletable v s
unfolding filter filter_pre_post
filter-IsDeletable v tmp s u h = (eligible_iff v tmp s u).0 (In-filter_by _ s _ h).0

In-erase_all :
    (us : List Snapshot) (a : Snapshot) (l : List Snapshot) → In a (erase_all us l) → In a l
unfolding erase_all
In-erase_all [] a l h = h
In-erase_all (u ∷ us) a l h = sub-erase u.num a l (In-erase_all us a (erase u.num l) h)

-- The filter adds nothing.
pub In-filter : (v : View) (tmp : List Snapshot) (s : Snapshot) → In s (filter v tmp) → In s tmp
unfolding filter
In-filter v tmp s h =
    In-erase_all (undeletables v.default v.active) s tmp
      (In-filter_by _ s _ (In-filter_by _ s _ h).0).0
