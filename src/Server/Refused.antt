-- ===== src/Server/Refused.antt =====
-- What the checks of server/Client.cc protect while a configuration is locked or in use.
use snapper.Base.{
  Bytes, eq_bytes, eq_bytes_iff, eq_bytes_refl, lt_bytes, ℕ, ◌+◌, ◌<◌, ◌≡◌, refl, sym, ap, ◌∙◌, ◌⊎◌,
  inl, inr, true, false, not, ◌&&◌, Option, some, List, [], ◌∷◌, ◌++◌, ◌==◌, In, any_of-In, arith,
  Bool-cases, Option-cases,
}
use snapper.Snapshots.Store.{Filesystem, Dirs}
use snapper.Server.State.{Client, MetaSnapper, has_lock, find_meta}
use snapper.Server.Permission.{Accounts, check_root, check_permission}
use snapper.Server.Handlers.{Metas, check_lock, delete_config, delete_snapshots}
use snapper.Server.Steps.{remove_config, remove_snapshots, dispatch, Server, Steps}
use snapper.Server.UseCount.{counter-In, uses, uses_held, CountedBy}
use snapper.Server.UseCount.Reached.{IsInitial, reached-IsCounted}

module _ (fs : Filesystem) (accounts : Accounts) where
  find_meta-CountedBy :
      (u : Bytes → ℕ) (name : Bytes) (metas : Metas fs accounts) (m : MetaSnapper fs)
      → find_meta name metas ≡ some m
      → CountedBy u metas
      → m.use_count ≡ u name
  find_meta-CountedBy u name [] m e h = cc
  find_meta-CountedBy u name (x ∷ metas) m e h = elim (Bool-cases (eq_bytes x.config_name name)) [
    | inl q ↦
        let same : x ≡ m = ground (arith, e, q) in
        rw (sym same) (h.0 ∙ ap u ((eq_bytes_iff x.config_name name).0 q))
    | inr q ↦ find_meta-CountedBy u name metas m (ground (arith, e, q)) h.1
  ]

  -- A client that is connected has the configuration among its locks.
  abbrev pub IsLockedBy : Bytes → List Client → Type 0
  IsLockedBy name others =
      (o : Client) × In o others × (o.zombie ≡ false) × ((n : ℕ) × In (name, n) o.locks)

  locked-check_lock :
      (name : Bytes) (others : List Client)
      → IsLockedBy name others
      → check_lock name others ≡ false
  unfolding has_lock
  locked-check_lock name others (o, m, z, (n, i)) =
      let (k, e) = counter-In eq_bytes lt_bytes name n o.locks (eq_bytes_refl name) i in
      let locks : (not o.zombie && has_lock name o) ≡ true = rw (z, e, has_lock) refl in
      let busy = any_of-In (λ c. not c.zombie && has_lock name c) o others m locks in rw busy refl

  -- At any time after the start, if another client that is connected has a configuration among its locks,
  -- or if there is a comparison of it that a client holds or makes, a running call of CalculateUsedSpace
  -- or QueryQuota for it, or a task of the background worker, then no call of DeleteConfig or of
  -- DeleteSnapshots for it changes anything of the configurations and their snapshots.
  pub dispatch_busy :
      (s : Server fs accounts) (before after : List Client) (c : Client) (metas : Metas fs accounts)
      (held : List Bytes) (name : Bytes)
      → IsInitial fs accounts s
      → Steps fs accounts s (record { clients = before ++ (c ∷ after); metas = metas; held = held })
      → IsLockedBy name (before ++ after)
        ⊎ (0 < uses name (before ++ (c ∷ after)) + uses_held name held)
      → ((left : Option (fs.State × Dirs))
          → (dispatch fs accounts (remove_config left name) (before ++ after) c metas).2 ≡ metas)
        × ((nums : List ℕ)
            → (dispatch fs accounts (remove_snapshots name nums) (before ++ after) c metas).2
              ≡ metas)
  unfolding dispatch
  dispatch_busy s before after c metas held name i steps busy =
      elim (Option-cases (find_meta name metas)) [
        | inl e ↦ (λ left. rw (e, delete_config) refl, λ nums. rw (e, delete_snapshots) refl)
        | inr (m, e) ↦
            let counted = reached-IsCounted fs accounts s _ i steps in
            let count : m.use_count ≡ uses name (before ++ (c ∷ after)) + uses_held name held =
              find_meta-CountedBy _ name metas m e counted in
            let blocked : (check_lock name (before ++ after) ≡ false)
                ⊎ ((m.use_count == 0) ≡ false) =
              elim busy [
                | inl l ↦ inl (locked-check_lock name (before ++ after) l)
                | inr u ↦ inr (ground (arith, count, u))
              ] in
            (λ left. config left m e blocked, λ nums. snapshots nums m e blocked)
      ]
    where
      config :
          (left : Option (fs.State × Dirs)) (m : MetaSnapper fs)
          → find_meta name metas ≡ some m
          → (check_lock name (before ++ after) ≡ false) ⊎ ((m.use_count == 0) ≡ false)
          → (delete_config fs accounts left name (before ++ after) c metas).2 ≡ metas
      config left m e b = elim (Bool-cases (check_root c)) [
        | inr p ↦ rw (e, p, delete_config) refl
        | inl p ↦ elim (Bool-cases (check_lock name (before ++ after))) [
          | inr l ↦ rw (e, p, l, delete_config) refl
          | inl l ↦ elim b [
            | inl x ↦ absurd (ground (arith, l, x))
            | inr u ↦ rw (e, p, l, u, delete_config) refl
          ]
        ]
      ]

      snapshots :
          (nums : List ℕ) (m : MetaSnapper fs)
          → find_meta name metas ≡ some m
          → (check_lock name (before ++ after) ≡ false) ⊎ ((m.use_count == 0) ≡ false)
          → (delete_snapshots fs accounts name nums (before ++ after) c metas).2 ≡ metas
      snapshots nums m e b = elim (Bool-cases (check_permission accounts c m)) [
        | inr p ↦ rw (e, p, delete_snapshots) refl
        | inl p ↦ elim (Bool-cases (check_lock name (before ++ after))) [
          | inr l ↦ rw (e, p, l, delete_snapshots) refl
          | inl l ↦ elim b [
            | inl x ↦ absurd (ground (arith, l, x))
            | inr u ↦ rw (e, p, l, u, delete_snapshots) refl
          ]
        ]
      ]
