-- ===== src/Server/Held.antt =====
-- What the locks and mounts of a client (server/Client.cc) protect, and how they are given back.
use snapper.Base.{
  Bytes, eq_bytes, eq_bytes_refl, lt_bytes, ℕ, ◌+◌, ◌-◌, ◌%◌, ◌^◌, ◌≤◌, ◌<◌, ◌≡◌, refl, sym, ap,
  ◌∙◌, subst, ◌⊎◌, inl, inr, Bool, true, false, ◌||◌, some, List, [], ◌∷◌, ◌==◌, ltb, In, All,
  any_of-In, arith, Bool-cases, Option-cases,
}
use snapper.Snapshot.{Snapshot, is_current}
use snapper.Proxy.{erase}
use snapper.Snapshots.Store.{
  Filesystem, Store, Error, Result, ok, err, no_fuel, find, delete_filesystem_snapshot,
}
use snapper.Snapshots.Delete.{delete_filelists, delete_snapshot, forget}
use snapper.Server.State.{
  Client, MountKey, MetaSnapper, increase, decrease_lock, decrease_mount, eq_mount, lt_mount,
  has_mount, add_lock, remove_lock, add_mount, remove_mount, find_meta, change_meta,
}
use snapper.Server.Permission.{Accounts, check_permission}
use snapper.Server.UseCount.{counter-In}
use snapper.Server.Handlers.{Metas, check_lock, check_snapshot_in_use, delete_all, delete_snapshots}

eq_mount_refl : (k : MountKey) → eq_mount k k ≡ true
eq_mount_refl (a, n) = ground (arith, eq_bytes_refl a)

erase-In :
    (n : ℕ) (s : Snapshot) (l : List Snapshot) → In s l → (s.num == n) ≡ false → In s (erase n l)
unfolding erase
erase-In n s [] i h = i
erase-In n s (x ∷ l) (inl e) h =
    let q : (x.num == n) ≡ false = subst (λ (j : Snapshot). (j.num == n) ≡ false) e h in
    rw q (inl e)
erase-In n s (x ∷ l) (inr i) h = elim (Bool-cases (x.num == n)) [
  | inl e ↦ rw e i
  | inr e ↦ rw e (inr (erase-In n s l i h))
]

find-num : (n : ℕ) (x : Snapshot) (l : List Snapshot) → find n l ≡ some x → (x.num == n) ≡ true
find-num n x [] e = cc
find-num n x (y ∷ l) e = elim (Bool-cases (y.num == n)) [
  | inl q ↦
      let same : y ≡ x = ground (arith, e, q) in
      subst (λ (j : Snapshot). (j.num == n) ≡ true) same q
  | inr q ↦ find-num n x l (ground (arith, e, q))
]

module _ (fs : Filesystem) where
  deletion-entries :
      (unique_numbers : Bool) (x s : Snapshot) (st : Store fs)
      → In s st.entries
      → (s.num == x.num) ≡ false
      → In s (delete_snapshot fs unique_numbers (some x) st).1.entries
  unfolding delete_snapshot forget
  deletion-entries unique_numbers x s st i h =
      elim (Bool-cases
        (is_current x || (fs.is_default x.num st.disk || fs.is_active x.num st.disk))) [
          | inl e ↦ rw (e, delete_snapshot) i
          | inr e ↦ go (delete_filesystem_snapshot fs x.num st.disk) refl e
        ]
    where
      go :
          (r : (Error × fs.State) ⊎ fs.State)
          → delete_filesystem_snapshot fs x.num st.disk ≡ r
          → (is_current x || (fs.is_default x.num st.disk || fs.is_active x.num st.disk)) ≡ false
          → In s (delete_snapshot fs unique_numbers (some x) st).1.entries
      go (inl (f, d)) q e = rw (e, q, delete_snapshot) i
      go (inr d) q e =
          elim (Bool-cases (delete_filelists fs unique_numbers x (record st { disk = d }))) [
            | inl f ↦ rw (e, q, f, delete_snapshot) (erase-In x.num s st.entries i h)
            | inr f ↦ rw (e, q, f, delete_snapshot) i
          ]

  delete_snapshot-entries :
      (unique_numbers : Bool) (n : ℕ) (s : Snapshot) (st : Store fs)
      → In s st.entries
      → (s.num == n) ≡ false
      → In s (delete_snapshot fs unique_numbers (find n st.entries) st).1.entries
  unfolding delete_snapshot
  delete_snapshot-entries unique_numbers n s st i h = elim (Option-cases (find n st.entries)) [
    | inl e ↦ rw e i
    | inr (x, e) ↦
        let q : x.num ≡ n = ground (arith, find-num n x st.entries e) in
        rw e
          (deletion-entries unique_numbers x s st i (subst (λ j. (s.num == j) ≡ false) (sym q) h))
  ]

module _ (fs : Filesystem) (accounts : Accounts) where
  -- The loop leaves a snapshot that it must not delete, wherever it ends.
  delete_all-entries :
      (free : ℕ → Bool) (unique_numbers : Bool) (nums : List ℕ) (s : Snapshot) (st : Store fs)
      → free s.num ≡ false
      → In s st.entries
      → In s (delete_all fs accounts free unique_numbers nums st).1.entries
  unfolding delete_all
  delete_all-entries free unique_numbers [] s st h i = i
  delete_all-entries free unique_numbers (n ∷ nums) s st h i = elim (Bool-cases (free n)) [
    | inr f ↦ rw (f, delete_all) i
    | inl f ↦
        let other : (s.num == n) ≡ false = elim (Bool-cases (s.num == n)) [
          | inl q ↦ absurd (ground (arith, f, h, ap free (to_eq s.num n q)))
          | inr q ↦ q
        ] in
        let kept : In s (delete_snapshot fs unique_numbers (find n st.entries) st).1.entries =
          delete_snapshot-entries fs unique_numbers n s st i other in
        let later =
          delete_all-entries free unique_numbers nums s
            (delete_snapshot fs unique_numbers (find n st.entries) st).1 h kept in
        go (delete_snapshot fs unique_numbers (find n st.entries) st).0 refl f kept later
  ]
    where
      to_eq : (a b : ℕ) → (a == b) ≡ true → a ≡ b
      to_eq a b q = ground (arith, q)

      go :
          (r : Result)
          → (delete_snapshot fs unique_numbers (find n st.entries) st).0 ≡ r
          → free n ≡ true
          → In s (delete_snapshot fs unique_numbers (find n st.entries) st).1.entries
          → In s
              (delete_all fs accounts free unique_numbers nums
                (delete_snapshot fs unique_numbers (find n st.entries) st).1).1.entries
          → In s (delete_all fs accounts free unique_numbers (n ∷ nums) st).1.entries
      go (ok k) e f kept later = rw (f, e, delete_all) later
      go (err x) e f kept later = rw (f, e, delete_all) kept
      go no_fuel e f kept later = rw (f, e, delete_all) kept

  find_meta-change :
      (name : Bytes) (f : MetaSnapper fs → MetaSnapper fs) (metas : Metas fs accounts)
      (m : MetaSnapper fs)
      → ((x : MetaSnapper fs) → (f x).config_name ≡ x.config_name)
      → find_meta name metas ≡ some m
      → find_meta name (change_meta name f metas) ≡ some (f m)
  unfolding change_meta
  find_meta-change name f [] m k e = cc
  find_meta-change name f (x ∷ metas) m k e = elim (Bool-cases (eq_bytes x.config_name name)) [
    | inl q ↦
        let same : x ≡ m = ground (arith, e, q) in
        let q' : eq_bytes (f x).config_name name ≡ true = ap (λ j. eq_bytes j name) (k x) ∙ q in
        rw (q, q') (ap (λ j. some (f j)) same)
    | inr q ↦ rw (q, q) (find_meta-change name f metas m k (ground (arith, e, q)))
  ]

  -- A mount that a client has keeps a snapshot in use.
  mounted-has_mount :
      (name : Bytes) (num n : ℕ) (c : Client)
      → In ((name, num), n) c.mounts
      → has_mount name num c ≡ true
  unfolding has_mount
  mounted-has_mount name num n c i =
      let (k, e) =
        counter-In eq_mount lt_mount (name, num) n c.mounts (eq_mount_refl (name, num)) i in
      rw (e, has_mount) refl

  mounted-in_use :
      (name : Bytes) (num n : ℕ) (c o : Client) (others : List Client)
      → In o (c ∷ others)
      → In ((name, num), n) o.mounts
      → check_snapshot_in_use name num c others ≡ false
  mounted-in_use name num n c o others (inl e) i =
      let own : has_mount name num c ≡ true =
        subst (λ (x : Client). has_mount name num x ≡ true) e (mounted-has_mount name num n o i) in
      rw own refl
  mounted-in_use name num n c o others (inr k) i =
      ground (arith, any_of-In (has_mount name num) o others k (mounted-has_mount name num n o i))

  -- A call of DeleteSnapshots, wherever it ends, leaves each snapshot of the configuration in its list
  -- that any client, the calling one included, has among its mounts.
  pub delete_snapshots_mounted :
      (name : Bytes) (nums : List ℕ) (others : List Client) (c : Client) (metas : Metas fs accounts)
      (m : MetaSnapper fs) (s : Snapshot)
      → find_meta name metas ≡ some m
      → In s m.store.entries
      → (o : Client) → In o (c ∷ others)
      → (n : ℕ) → In ((name, s.num), n) o.mounts
      → (m' : MetaSnapper fs) × (find_meta name
            (delete_snapshots fs accounts name nums others c metas).2
          ≡ some m')
        × In s m'.store.entries
  unfolding delete_snapshots
  delete_snapshots_mounted name nums others c metas m s e i o client n mount =
      let used = mounted-in_use name s.num n c o others client mount in
      elim (Bool-cases (check_permission accounts c m)) [
        | inr p ↦ (m, rw (e, p, delete_snapshots) e, i)
        | inl p ↦ elim (Bool-cases (check_lock name others)) [
          | inr l ↦ (m, rw (e, p, l, delete_snapshots) e, i)
          | inl l ↦ elim (Bool-cases (m.use_count == 0)) [
            | inr u ↦ (m, rw (e, p, l, u, delete_snapshots) e, i)
            | inl u ↦
                let free : ℕ → Bool = λ n. check_snapshot_in_use name n c others in
                let r = delete_all fs accounts free m.unique_numbers nums m.store in
                (
                  record m { store = r.1 },
                  rw (e, p, l, u, delete_snapshots)
                      (find_meta-change name (λ x. record x { store = r.1 }) metas m (λ x. refl) e),
                  delete_all-entries free m.unique_numbers nums s m.store used i,
                )
          ]
        ]
      ]

-- Counters that were counted up at least once and have room for one more.
abbrev pub HaveRoom : {K : Type 0} → List (K × ℕ) → Type 0
HaveRoom m = All (λ p. (1 ≤ p.1) × (p.1 + 1 < 2 ^ 32)) m

decrease_lock-increase :
    (k : Bytes) (m : List (Bytes × ℕ))
    → HaveRoom m
    → decrease_lock k (increase eq_bytes lt_bytes k m) ≡ m
unfolding decrease_lock increase
decrease_lock-increase k [] h = rw (eq_bytes_refl k) refl
decrease_lock-increase k ((j, n) ∷ m) h = elim (Bool-cases (eq_bytes j k)) [
  | inl e ↦
      let q : ((n + 1) % 2 ^ 32 + 2 ^ 32 - 1) % 2 ^ 32 ≡ n = ground (arith, h.0) in
      let z : (n == 0) ≡ false = ground (arith, h.0) in
      let up : increase eq_bytes lt_bytes k ((j, n) ∷ m) ≡ (j, (n + 1) % 2 ^ 32) ∷ m = rw e refl in
      let down : decrease_lock k ((j, (n + 1) % 2 ^ 32) ∷ m) ≡ (j, n) ∷ m = rw (e, q, z) refl in
      ap (decrease_lock k) up ∙ down
  | inr e ↦ elim (Bool-cases (lt_bytes k j)) [
    | inl l ↦
        let up : increase eq_bytes lt_bytes k ((j, n) ∷ m) ≡ (k, 1) ∷ (j, n) ∷ m = rw (e, l) refl in
        ap (decrease_lock k) up ∙ rw (eq_bytes_refl k) refl
    | inr l ↦
        let up : increase eq_bytes lt_bytes k ((j, n) ∷ m)
            ≡ (j, n) ∷ increase eq_bytes lt_bytes k m =
          rw (e, l) refl in
        ap (decrease_lock k) up ∙ rw e (ap (λ r. (j, n) ∷ r) (decrease_lock-increase k m h.1))
  ]
]

decrease_mount-increase :
    (k : MountKey) (m : List (MountKey × ℕ))
    → HaveRoom m
    → decrease_mount k (increase eq_mount lt_mount k m) ≡ m
unfolding decrease_mount increase
decrease_mount-increase k [] h = rw (eq_mount_refl k) refl
decrease_mount-increase k ((j, n) ∷ m) h = elim (Bool-cases (eq_mount j k)) [
  | inl e ↦
      let q : (n + 1) % 2 ^ 32 ≡ n + 1 = ground (arith, h.0) in
      let z : ltb 1 (n + 1) ≡ true = ground (arith, h.0) in
      let y : n + 1 - 1 ≡ n = omega arith in
      let up : increase eq_mount lt_mount k ((j, n) ∷ m) ≡ (j, (n + 1) % 2 ^ 32) ∷ m = rw e refl in
      let down : decrease_mount k ((j, n + 1) ∷ m) ≡ (j, n) ∷ m = rw (e, z, y) refl in
      ap (decrease_mount k) (up ∙ ap (λ i. (j, i) ∷ m) q) ∙ down
  | inr e ↦ elim (Bool-cases (lt_mount k j)) [
    | inl l ↦
        let up : increase eq_mount lt_mount k ((j, n) ∷ m) ≡ (k, 1) ∷ (j, n) ∷ m = rw (e, l) refl in
        ap (decrease_mount k) up ∙ rw (eq_mount_refl k) refl
    | inr l ↦
        let up : increase eq_mount lt_mount k ((j, n) ∷ m)
            ≡ (j, n) ∷ increase eq_mount lt_mount k m =
          rw (e, l) refl in
        ap (decrease_mount k) up ∙ rw e (ap (λ r. (j, n) ∷ r) (decrease_mount-increase k m h.1))
  ]
]

-- A lock that is taken and given back, and a mount that is made and released, leave the client as it
-- was, if its counters are positive and have room for one more.
pub remove-add :
    (name : Bytes) (num : ℕ) (c : Client)
    → HaveRoom c.locks
    → HaveRoom c.mounts
    → (remove_lock name (add_lock name c) ≡ c) × (remove_mount name num (add_mount name num c) ≡ c)
unfolding remove_lock add_lock remove_mount add_mount
remove-add name num c h k = (
  ap (λ l. record c { locks = l }) (decrease_lock-increase name c.locks h),
  ap (λ l. record c { mounts = l }) (decrease_mount-increase (name, num) c.mounts k),
)
