-- ===== src/Cleanup/Safety.antt =====
-- What a run of Cleaner::cleanup (client/cleanup.cc) leaves in place: the snapshots of other
-- algorithms, and the default and the active snapshot.
use snapper.Base.{
  ℕ, ◌≡◌, ◌≢◌, refl, sym, Bool, false, Option, none, some, List, [], ◌∷◌, ◌++◌, arith, In,
  append_left-In, subst,
}
use snapper.Base.Int.{ℤ}
use snapper.Snapshot.{Snapshot}
use snapper.Cleanup.Range.{Value}
use snapper.Cleanup.Limit.{Double, Limit}
use snapper.Cleanup.Filter.{Distinct, has_num, filter}
use snapper.Cleanup.Filter.Deletable.{
  IsNot, In-filter, filter-IsDeletable, erase-In, erase-Distinct, In-has_num,
}
use snapper.Cleanup.Loop.{ProxySnapper, final, view, cleanup}
use snapper.Cleanup.Loop.Survival.{cleanup-Guard}

-- Under distinct numbers two entries with one number are one entry.
pub Distinct-unique :
    (l : List Snapshot) (a b : Snapshot) → Distinct l → In a l → In b l → a.num ≡ b.num → a ≡ b
Distinct-unique [] a b d m n e = absurd m
Distinct-unique (x ∷ l) a b d m n e =
    ground (arith, Distinct-unique l a b d.1, In-has_num a l, In-has_num b l)

has_num-prefix : (n : ℕ) (l r : List Snapshot) → has_num n (l ++ r) ≡ false → has_num n l ≡ false
has_num-prefix n [] r h = refl
has_num-prefix n (x ∷ l) r h = ground (arith, has_num-prefix n l r)

Distinct-prefix : (l r : List Snapshot) → Distinct (l ++ r) → Distinct l
Distinct-prefix [] r d = tt
Distinct-prefix (x ∷ l) r d = (has_num-prefix x.num l r d.0, Distinct-prefix l r d.1)

is_not : (o : Option Snapshot) (a x : Snapshot) → IsNot o x → o ≡ some a → x.num ≢ a.num
is_not none a x h e = cc
is_not (some b) a x h e = ground arith

module _ (proxy : ProxySnapper) (candidates : proxy.State → Value → Option (List Snapshot))
    (min_age : ℤ) (d : Double) (space_limit free_limit : Limit d) (degenerated : Bool) where
  open proxy use {State, snapshots, default, active, delete}

  -- The whole run: without a condition, then for the quota, then for the free space.
  abbrev pub after : ℕ → State → State
  after fuel s =
      final (cleanup proxy candidates min_age d space_limit free_limit degenerated fuel s)

  -- If every candidate is an entry of the list with the property `Mine`, such as its cleanup algorithm,
  -- and the numbers in the list are distinct, then an entry without that property is still there when the run ends, by a return or by an
  -- exception, and whatever the limits are.
  pub others_survive :
      (Mine : Snapshot → Type 0)
      → ((s : State) (v : Value) (l : List Snapshot) (x : Snapshot)
          → candidates s v ≡ some l
          → In x l
          → In x (snapshots s) × Mine x)
      → (fuel : ℕ) (s : State) (a : Snapshot) → Distinct (snapshots s)
      → In a (snapshots s)
      → ¬ Mine a
      → In a (snapshots (after fuel s))
  others_survive Mine chosen fuel s a u m other =
      (cleanup-Guard proxy candidates min_age a (λ t. Distinct (snapshots t) × In a (snapshots t))
        (λ n t t' g e k.
          rw (proxy.snapshots-delete n t t' e)
            (erase-Distinct n (snapshots t) g.0, erase-In n a (snapshots t) g.1 k))
        (λ t v l tmp rest x found p g q e.
          let c = chosen t v l x found (
            subst (λ l. In x l) p
              (append_left-In x tmp rest (In-filter (view proxy min_age t) tmp x q))) in
          other (subst Mine (sym (Distinct-unique (snapshots t) a x g.0 g.1 c.0 e)) c.1))
        d space_limit free_limit degenerated fuel s (u, m)).1

  module _
      (distinct : (s : State) (v : Value) (l : List Snapshot)
        → candidates s v ≡ some l
        → Distinct (snapshots s)
        → Distinct l) where
    -- What passes the filter is neither the default nor the active snapshot of that state.
    passed :
        (t : State) (v : Value) (l tmp rest : List Snapshot) (x : Snapshot)
        → candidates t v ≡ some l
        → tmp ++ rest ≡ l
        → Distinct (snapshots t)
        → In x (filter (view proxy min_age t) tmp)
        → ((a : Snapshot) → default t ≡ some a → x.num ≢ a.num)
          × ((a : Snapshot) → active t ≡ some a → x.num ≢ a.num)
    passed t v l tmp rest x found p u q =
        let c =
          filter-IsDeletable (view proxy min_age t) tmp x
            (Distinct-prefix tmp rest (subst Distinct (sym p) (distinct t v l found u))) q in
        (λ a e. is_not (default t) a x c.1.0 e, λ a e. is_not (active t) a x c.1.1 e)

    -- If a list with distinct numbers gives candidates with distinct numbers, a snapshot of the list that is the default or
    -- the active one is still there, and still the default or the active one, when the run ends, by a
    -- return or by an exception.
    pub default_active_survive :
        (fuel : ℕ) (s : State) (a : Snapshot)
        → Distinct (snapshots s)
        → In a (snapshots s)
        → (default s ≡ some a → In a (snapshots (after fuel s)) × (default (after fuel s) ≡ some a))
          × (active s ≡ some a → In a (snapshots (after fuel s)) × (active (after fuel s) ≡ some a))
    default_active_survive fuel s a u m = (
      λ e.
          let (_, m', e') =
            cleanup-Guard proxy candidates min_age a
              (λ t. Distinct (snapshots t) × In a (snapshots t) × (default t ≡ some a))
              (λ n t t' g h k. (
                rw (proxy.snapshots-delete n t t' h) (erase-Distinct n (snapshots t) g.0),
                rw (proxy.snapshots-delete n t t' h) (erase-In n a (snapshots t) g.1 k),
                proxy.default-delete n t t' a h g.2 k,
              ))
              (λ t v l tmp rest x found p g q h.
                (passed t v l tmp rest x found p g.0 q).0 a g.2 (sym h))
              d space_limit free_limit degenerated fuel s (u, m, e) in
          (m', e'),
      λ e.
          let (_, m', e') =
            cleanup-Guard proxy candidates min_age a
              (λ t. Distinct (snapshots t) × In a (snapshots t) × (active t ≡ some a))
              (λ n t t' g h k. (
                rw (proxy.snapshots-delete n t t' h) (erase-Distinct n (snapshots t) g.0),
                rw (proxy.snapshots-delete n t t' h) (erase-In n a (snapshots t) g.1 k),
                proxy.active-delete n t t' a h g.2 k,
              ))
              (λ t v l tmp rest x found p g q h.
                (passed t v l tmp rest x found p g.0 q).1 a g.2 (sym h))
              d space_limit free_limit degenerated fuel s (u, m, e) in
          (m', e'),
    )
