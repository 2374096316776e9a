-- ===== src/Server/UseCount.antt =====
-- The use count of a configuration (server/RefCounter.cc) is the number of the comparisons that the
-- clients hold or make, of the queries that run, and of the tasks of the background worker.
pub mod Calls
pub mod Reached
use snapper.Base.{
  Bytes, eq_bytes, eq_bytes_iff, eq_bytes_sym, ℕ, zero, suc, ◌+◌, ◌-◌, ◌≤◌, ◌<◌, ◌≡◌, refl, sym, ap,
  ◌∙◌, subst, ◌⊎◌, inl, inr, Bool, true, false, not, ◌&&◌, ◌||◌, Option, none, some, List, [], ◌∷◌,
  ◌++◌, ◌==◌, if◌then◌else◌, any_of, find_if, All, In, arith, Bool-cases, Option-cases,
}
use snapper.Snapshot.{Snapshot}
use snapper.Snapshots.Store.{Filesystem, Store, find}
use snapper.Snapshots.Mount.{mount_filesystem_snapshot, umount_filesystem_snapshot}
use snapper.Server.State.{
  Comparison, Running, Client, MountKey, MetaSnapper, counter, add_lock, remove_lock, has_lock,
  add_mount, remove_mount, has_mount, inc_use_count, dec_use_count, find_meta, change_meta,
  erase_meta,
}
use snapper.Server.Permission.{Accounts, check_root, check_permission}
use snapper.Server.Handlers.{
  Metas, Outcome, Reply, failed, done, check_lock, store_snapshot, same_snapshot, construct,
  erase_comparison, lock_config, unlock_config, delete_config, delete_snapshots, begin_comparison,
  end_comparison, delete_comparison, mount_snapshot, umount_snapshot,
}

-- What stands in a map is found in it.
pub counter-In :
    {K : Type 0} (eq lt : K → K → Bool) (k : K) (n : ℕ) (m : List (K × ℕ))
    → eq k k ≡ true
    → In (k, n) m
    → (j : ℕ) × (counter eq lt k m ≡ some j)
unfolding counter
counter-In eq lt k n [] r i = absurd i
counter-In eq lt k n ((j, x) ∷ m) r i = elim (Bool-cases (eq j k)) [
  | inl e ↦ (x, rw e refl)
  | inr e ↦ elim i [
    | inl p ↦
        let q : eq j k ≡ true = subst (λ z. eq z k ≡ true) (ap (λ y. y.0) p) r in
        absurd (ground (arith, q, e))
    | inr i' ↦ let (y, f) = counter-In eq lt k n m r i' in (y, rw (e, f) refl)
  ]
]

abbrev pub one_if : Bool → ℕ
one_if true = 1
one_if false = 0

-- The comparisons of a configuration.
abbrev pub uses_in : Bytes → List Comparison → ℕ
uses_in name [] = 0
uses_in name (c ∷ cs) = one_if (eq_bytes c.config name) + uses_in name cs

abbrev pub uses_running : Bytes → Option Running → ℕ
uses_running name none = 0
uses_running name (some r) = one_if (eq_bytes r.config name)

abbrev pub uses_of : Bytes → Client → ℕ
uses_of name c = uses_in name c.comparisons + uses_running name c.running

abbrev pub uses : Bytes → List Client → ℕ
uses name [] = 0
uses name (c ∷ cs) = uses_of name c + uses name cs

-- What else holds a use: calls of CalculateUsedSpace and QueryQuota, and tasks of the background worker.
abbrev pub uses_held : Bytes → List Bytes → ℕ
uses_held name [] = 0
uses_held name (h ∷ hs) = one_if (eq_bytes h name) + uses_held name hs

pub uses_held_append :
    (name : Bytes) (l r : List Bytes)
    → uses_held name (l ++ r) ≡ uses_held name l + uses_held name r
uses_held_append name [] r = omega arith
uses_held_append name (h ∷ l) r = ground (arith, uses_held_append name l r)

pub uses_append :
    (name : Bytes) (l r : List Client) → uses name (l ++ r) ≡ uses name l + uses name r
uses_append name [] r = omega arith
uses_append name (c ∷ l) r = ground (arith, uses_append name l r)

pub uses_in_append :
    (name : Bytes) (l r : List Comparison) → uses_in name (l ++ r) ≡ uses_in name l + uses_in name r
uses_in_append name [] r = omega arith
uses_in_append name (c ∷ l) r = ground (arith, uses_in_append name l r)

module _ {fs : Filesystem} where
  -- Each configuration has the use count that its name is given.
  abbrev pub CountedBy : (Bytes → ℕ) → List (MetaSnapper fs) → Type 0
  CountedBy u = All (λ m. m.use_count ≡ u m.config_name)

  -- The name of an entry stays, and its use count changes as it should.
  abbrev Moves : (Bytes → ℕ) → (Bytes → ℕ) → Bytes → (MetaSnapper fs → MetaSnapper fs) → Type 0
  Moves u v name f =
      (m : MetaSnapper fs)
      → ((f m).config_name ≡ m.config_name) × (m.use_count ≡ u name → (f m).use_count ≡ v name)

  pub CountedBy-map :
      (u v : Bytes → ℕ) (metas : List (MetaSnapper fs))
      → ((k : Bytes) → u k ≡ v k)
      → CountedBy u metas
      → CountedBy v metas
  CountedBy-map u v [] e h = tt
  CountedBy-map u v (m ∷ metas) e h = (h.0 ∙ e m.config_name, CountedBy-map u v metas e h.1)

  change_meta-CountedBy :
      (u v : Bytes → ℕ) (name : Bytes) (f : MetaSnapper fs → MetaSnapper fs)
      (metas : List (MetaSnapper fs))
      → Moves u v name f
      → ((k : Bytes) → eq_bytes k name ≡ false → u k ≡ v k)
      → CountedBy u metas
      → CountedBy v (change_meta name f metas)
  unfolding change_meta
  change_meta-CountedBy u v name f [] a b h = tt
  change_meta-CountedBy u v name f (m ∷ metas) a b h =
      (one, change_meta-CountedBy u v name f metas a b h.1)
    where
      one :
          (if eq_bytes m.config_name name then f m else m).use_count
          ≡ v ((if eq_bytes m.config_name name then f m else m).config_name)
      one = elim (Bool-cases (eq_bytes m.config_name name)) [
        | inl e ↦
            let q : m.config_name ≡ name = (eq_bytes_iff m.config_name name).0 e in
            rw e ((a m).1 (h.0 ∙ ap u q) ∙ sym (ap v ((a m).0 ∙ q)))
        | inr e ↦ rw e (h.0 ∙ b m.config_name e)
      ]

  pub erase_meta-CountedBy :
      (u : Bytes → ℕ) (name : Bytes) (metas : List (MetaSnapper fs))
      → CountedBy u metas
      → CountedBy u (erase_meta name metas)
  unfolding erase_meta
  erase_meta-CountedBy u name [] h = tt
  erase_meta-CountedBy u name (m ∷ metas) h = elim (Bool-cases (eq_bytes m.config_name name)) [
    | inl e ↦ rw e h.1
    | inr e ↦ rw e (h.0, erase_meta-CountedBy u name metas h.1)
  ]

  -- One use more, one less, and a change of something else.
  pub inc-CountedBy :
      (u v : Bytes → ℕ) (name : Bytes) (metas : List (MetaSnapper fs))
      → ((k : Bytes) → v k ≡ u k + one_if (eq_bytes name k))
      → CountedBy u metas
      → CountedBy v (change_meta name inc_use_count metas)
  inc-CountedBy u v name metas e h =
      change_meta-CountedBy u v name inc_use_count metas
        (λ m. (refl, λ q. ground (arith, q, e name, (eq_bytes_iff name name).1 refl)))
        (λ k q. ground (arith, e k, eq_bytes_sym k name, q)) h

  pub dec-CountedBy :
      (u v : Bytes → ℕ) (name : Bytes) (metas : List (MetaSnapper fs))
      → ((k : Bytes) → u k ≡ v k + one_if (eq_bytes name k))
      → CountedBy u metas
      → CountedBy v (change_meta name dec_use_count metas)
  dec-CountedBy u v name metas e h =
      change_meta-CountedBy u v name dec_use_count metas
        (λ m. (refl, λ q. ground (arith, q, e name, (eq_bytes_iff name name).1 refl)))
        (λ k q. ground (arith, e k, eq_bytes_sym k name, q)) h

  pub same-CountedBy :
      (u : Bytes → ℕ) (name : Bytes) (f : MetaSnapper fs → MetaSnapper fs)
      (metas : List (MetaSnapper fs))
      → ((m : MetaSnapper fs)
          → ((f m).config_name ≡ m.config_name) × ((f m).use_count ≡ m.use_count))
      → CountedBy u metas
      → CountedBy u (change_meta name f metas)
  same-CountedBy u name f metas e h =
      change_meta-CountedBy u u name f metas (λ m. ((e m).0, λ q. (e m).1 ∙ q)) (λ k q. refl) h

pub erase_comparison-uses :
    (p : Comparison → Bool) (name : Bytes) (cs l : List Comparison)
    → ((c : Comparison) → p c ≡ true → eq_bytes c.config name ≡ true)
    → erase_comparison p cs ≡ some l
    → (k : Bytes) → uses_in k cs ≡ uses_in k l + one_if (eq_bytes name k)
unfolding erase_comparison
erase_comparison-uses p name [] l a e k = cc
erase_comparison-uses p name (c ∷ cs) l a e k = elim (Bool-cases (p c)) [
  | inl q ↦
      let s : cs ≡ l = ground (arith, e, q) in
      let t : eq_bytes c.config k ≡ eq_bytes name k =
        ap (λ j. eq_bytes j k) ((eq_bytes_iff c.config name).0 (a c q)) in
      rw (sym s, t) (omega arith)
  | inr q ↦ elim (Option-cases (erase_comparison p cs)) [
    | inl n ↦ absurd (ground (arith, e, q, n))
    | inr (l', n) ↦
        let s : c ∷ l' ≡ l = ground (arith, e, q, n) in
        rw (sym s) (omega (arith, erase_comparison-uses p name cs l' a n k))
  ]
]
