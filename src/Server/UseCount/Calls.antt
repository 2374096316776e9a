-- ===== src/Server/UseCount/Calls.antt =====
-- The calls of server/Client.cc keep the use counts.
use snapper.Base.{
  Bytes, eq_bytes, ℕ, ◌+◌, ◌≡◌, refl, ap, inl, inr, Bool, true, false, not, ◌&&◌, Option, none,
  some, List, [], ◌∷◌, ◌==◌, if◌then◌else◌, arith, Bool-cases, Option-cases,
}
use snapper.Snapshots.Store.{Filesystem, Dirs, find}
use snapper.Snapshots.Mount.{mount_filesystem_snapshot, umount_filesystem_snapshot}
use snapper.Server.State.{
  Comparison, Running, Client, add_mount, remove_mount, inc_use_count, find_meta, change_meta,
}
use snapper.Server.Permission.{Accounts, check_root, check_permission}
use snapper.Server.Handlers.{
  Metas, Outcome, failed, done, check_lock, put_left, store_snapshot, same_snapshot, construct,
  erase_comparison, lock_config, unlock_config, delete_config, delete_snapshots, begin_comparison,
  end_comparison, delete_comparison, mount_snapshot, umount_snapshot,
}
use snapper.Server.Steps.{
  Request, lock, unlock, remove_config, remove_snapshots, compare, end_compare, mount, umount,
  dispatch,
}
use snapper.Server.UseCount.{
  one_if, uses_running, uses_of, uses_in_append, CountedBy, erase_meta-CountedBy, inc-CountedBy,
  dec-CountedBy, same-CountedBy, erase_comparison-uses,
}

module _ (fs : Filesystem) (accounts : Accounts) (base : Bytes → ℕ) where
  -- The use counts fit the client of a call, with those of the others.
  abbrev pub Fits : Client → Metas fs accounts → Type 0
  Fits c metas = CountedBy (λ k. base k + uses_of k c) metas

  abbrev pub FitsAfter : Outcome fs accounts → Type 0
  FitsAfter r = Fits r.1 r.2

  pub delete_config-Fits :
      (left : Option (fs.State × Dirs)) (name : Bytes) (others : List Client) (c : Client)
      (metas : Metas fs accounts)
      → Fits c metas
      → FitsAfter (delete_config fs accounts left name others c metas)
  unfolding delete_config put_left
  delete_config-Fits left name others c metas h = elim (Option-cases (find_meta name metas)) [
    | inl e ↦ rw (e, delete_config) h
    | inr (m, e) ↦ elim (Bool-cases (check_root c)) [
      | inr p ↦ rw (e, p, delete_config) h
      | inl p ↦ elim (Bool-cases (check_lock name others)) [
        | inr l ↦ rw (e, p, l, delete_config) h
        | inl l ↦ elim (Bool-cases (m.use_count == 0)) [
          | inr u ↦ rw (e, p, l, u, delete_config) h
          | inl u ↦ elim (Option-cases left) [
            | inr ((disk, dirs), w) ↦
                rw (e, p, l, u, w, delete_config)
                  (same-CountedBy _ name (put_left fs accounts disk dirs) metas (λ x. (refl, refl))
                    h)
            | inl w ↦ rw (e, p, l, u, w, delete_config) (erase_meta-CountedBy _ name metas h)
          ]
        ]
      ]
    ]
  ]

  pub lock_config-Fits :
      (name : Bytes) (others : List Client) (c : Client) (metas : Metas fs accounts)
      → Fits c metas
      → FitsAfter (lock_config fs accounts name others c metas)
  unfolding lock_config
  lock_config-Fits name others c metas h = elim (Option-cases (find_meta name metas)) [
    | inl e ↦ rw (e, lock_config) h
    | inr (m, e) ↦ elim (Bool-cases (check_permission accounts c m)) [
      | inr p ↦ rw (e, p, lock_config) h
      | inl p ↦ rw (e, p, lock_config) h
    ]
  ]

  pub unlock_config-Fits :
      (name : Bytes) (others : List Client) (c : Client) (metas : Metas fs accounts)
      → Fits c metas
      → FitsAfter (unlock_config fs accounts name others c metas)
  unfolding unlock_config
  unlock_config-Fits name others c metas h = elim (Option-cases (find_meta name metas)) [
    | inl e ↦ rw (e, unlock_config) h
    | inr (m, e) ↦ elim (Bool-cases (check_permission accounts c m)) [
      | inr p ↦ rw (e, p, unlock_config) h
      | inl p ↦ rw (e, p, unlock_config) h
    ]
  ]

  pub delete_snapshots-Fits :
      (name : Bytes) (nums : List ℕ) (others : List Client) (c : Client) (metas : Metas fs accounts)
      → Fits c metas
      → FitsAfter (delete_snapshots fs accounts name nums others c metas)
  unfolding delete_snapshots
  delete_snapshots-Fits name nums others c metas h = elim (Option-cases (find_meta name metas)) [
    | inl e ↦ rw (e, delete_snapshots) h
    | inr (m, e) ↦ elim (Bool-cases (check_permission accounts c m)) [
      | inr p ↦ rw (e, p, delete_snapshots) h
      | inl p ↦ elim (Bool-cases (check_lock name others)) [
        | inr l ↦ rw (e, p, l, delete_snapshots) h
        | inl l ↦ elim (Bool-cases (m.use_count == 0)) [
          | inr u ↦ rw (e, p, l, u, delete_snapshots) h
          | inl u ↦
              rw (e, p, l, u, delete_snapshots)
                (same-CountedBy _ name _ metas (λ x. (refl, refl)) h)
        ]
      ]
    ]
  ]

  pub begin_comparison-Fits :
      (name : Bytes) (num1 num2 : ℕ) (others : List Client) (c : Client) (metas : Metas fs accounts)
      → c.running ≡ none
      → Fits c metas
      → FitsAfter (begin_comparison fs accounts name num1 num2 others c metas)
  unfolding begin_comparison
  begin_comparison-Fits name num1 num2 others c metas free h =
      elim (Option-cases (find_meta name metas)) [
        | inl e ↦ rw (e, begin_comparison) h
        | inr (m, e) ↦ elim (Bool-cases (check_permission accounts c m)) [
          | inr p ↦ rw (e, p, begin_comparison) h
          | inl p ↦
              rw (e, p, begin_comparison)
                (inc-CountedBy _ _ name metas (λ k. ground (arith, ap (uses_running k) free)) h)
        ]
      ]

  pub delete_comparison-Fits :
      (name : Bytes) (num1 num2 : ℕ) (others : List Client) (c : Client) (metas : Metas fs accounts)
      → Fits c metas
      → FitsAfter (delete_comparison fs accounts name num1 num2 others c metas)
  unfolding delete_comparison
  delete_comparison-Fits name num1 num2 others c metas h =
      elim (Option-cases (find_meta name metas)) [
        | inl e ↦ rw (e, delete_comparison) h
        | inr (m, e) ↦ elim (Bool-cases (check_permission accounts c m)) [
          | inr p ↦ rw (e, p, delete_comparison) h
          | inl p ↦
              let test : Comparison → Bool = λ x.
                eq_bytes x.config name
                && (same_snapshot x.num1 (find num1 m.store.entries)
                    && same_snapshot x.num2 (find num2 m.store.entries)) in
              elim (Option-cases (erase_comparison test c.comparisons)) [
                | inl q ↦ rw (e, p, q, delete_comparison) h
                | inr (l, q) ↦
                    rw (e, p, q, delete_comparison)
                      (dec-CountedBy _ _ name metas
                        (λ k. ground (
                          arith,
                          erase_comparison-uses test name c.comparisons l (λ x t. ground (arith, t))
                              q k,
                        ))
                        h)
              ]
        ]
      ]

  pub mount_snapshot-Fits :
      (mounted works : Bool) (name : Bytes) (num : ℕ) (user_request : Bool) (others : List Client)
      (c : Client) (metas : Metas fs accounts)
      → Fits c metas
      → FitsAfter (mount_snapshot fs accounts mounted works name num user_request others c metas)
  unfolding mount_snapshot
  mount_snapshot-Fits mounted works name num user_request others c metas h =
      elim (Option-cases (find_meta name metas)) [
        | inl e ↦ rw (e, mount_snapshot) h
        | inr (m, e) ↦ elim (Bool-cases (check_permission accounts c m)) [
          | inr p ↦ rw (e, p, mount_snapshot) h
          | inl p ↦ elim (Option-cases (find num m.store.entries)) [
            | inl q ↦ rw (e, p, q, mount_snapshot) h
            | inr (s, q) ↦ elim (Option-cases (mount_filesystem_snapshot mounted user_request s)) [
              | inl r ↦ rw (e, p, q, r, mount_snapshot) h
              | inr ((call, t), r) ↦
                  let after : Fits c (change_meta name (store_snapshot t) metas) =
                    same-CountedBy _ name (store_snapshot t) metas (λ x. (refl, refl)) h in
                  rw (e, p, q, r, mount_snapshot) (fit works user_request _ after)
            ]
          ]
        ]
      ]
    where
      fit :
          (works user_request : Bool) (metas : Metas fs accounts)
          → Fits c metas
          → FitsAfter (
              if not works
              then (failed, c, metas)
              else (done, if user_request then c else add_mount name num c, metas))
      fit true true metas h = h
      fit true false metas h = h
      fit false true metas h = h
      fit false false metas h = h

  pub umount_snapshot-Fits :
      (mounted works : Bool) (name : Bytes) (num : ℕ) (user_request : Bool) (others : List Client)
      (c : Client) (metas : Metas fs accounts)
      → Fits c metas
      → FitsAfter (umount_snapshot fs accounts mounted works name num user_request others c metas)
  unfolding umount_snapshot
  umount_snapshot-Fits mounted works name num user_request others c metas h =
      elim (Option-cases (find_meta name metas)) [
        | inl e ↦ rw (e, umount_snapshot) h
        | inr (m, e) ↦ elim (Bool-cases (check_permission accounts c m)) [
          | inr p ↦ rw (e, p, umount_snapshot) h
          | inl p ↦ elim (Option-cases (find num m.store.entries)) [
            | inl q ↦ rw (e, p, q, umount_snapshot) h
            | inr (s, q) ↦ elim (Option-cases (umount_filesystem_snapshot mounted user_request s)) [
              | inl r ↦ rw (e, p, q, r, umount_snapshot) h
              | inr ((call, t), r) ↦
                  let after : Fits c (change_meta name (store_snapshot t) metas) =
                    same-CountedBy _ name (store_snapshot t) metas (λ x. (refl, refl)) h in
                  rw (e, p, q, r, umount_snapshot) (fit _ user_request _ after)
            ]
          ]
        ]
      ]
    where
      fit :
          (throws user_request : Bool) (metas : Metas fs accounts)
          → Fits c metas
          → FitsAfter (
              if throws
              then (failed, c, metas)
              else (done, if user_request then c else remove_mount name num c, metas))
      fit true true metas h = h
      fit true false metas h = h
      fit false true metas h = h
      fit false false metas h = h

construct-config :
    (r : Running) (works : Bool) (c : Comparison) → construct r works ≡ some c → c.config ≡ r.config
unfolding construct
construct-config r works c e = ground (arith, e)

module _ (fs : Filesystem) (accounts : Accounts) (base : Bytes → ℕ) where
  pub end_comparison-Fits :
      (works : Bool) (r : Running) (c : Client) (metas : Metas fs accounts)
      → c.running ≡ some r
      → Fits fs accounts base c metas
      → FitsAfter fs accounts base (end_comparison fs accounts works r c metas)
  unfolding end_comparison
  end_comparison-Fits works r c metas busy h = elim (Option-cases (construct r works)) [
    | inl e ↦
        rw (e, end_comparison)
          (dec-CountedBy _ _ r.config metas (λ k. ground (arith, ap (uses_running k) busy)) h)
    | inr (x, e) ↦
        let more : (k : Bytes) → ℕ = λ k. (base k + uses_of k c) + one_if (eq_bytes r.config k) in
        rw (e, end_comparison)
          (dec-CountedBy more _ r.config (change_meta r.config inc_use_count metas)
            (λ k. ground (
              arith,
              ap (uses_running k) busy,
              uses_in_append k c.comparisons (x ∷ []),
              ap (λ j. one_if (eq_bytes j k)) (construct-config r works x e),
            ))
            (inc-CountedBy _ more r.config metas (λ k. refl) h))
  ]

  pub dispatch-Fits :
      (request : Request fs) (others : List Client) (c : Client) (metas : Metas fs accounts)
      → c.running ≡ none
      → Fits fs accounts base c metas
      → FitsAfter fs accounts base (dispatch fs accounts request others c metas)
  unfolding dispatch
  dispatch-Fits (lock name) others c metas free h =
      lock_config-Fits fs accounts base name others c metas h
  dispatch-Fits (unlock name) others c metas free h =
      unlock_config-Fits fs accounts base name others c metas h
  dispatch-Fits (remove_config left name) others c metas free h =
      delete_config-Fits fs accounts base left name others c metas h
  dispatch-Fits (remove_snapshots name nums) others c metas free h =
      delete_snapshots-Fits fs accounts base name nums others c metas h
  dispatch-Fits (compare name num1 num2) others c metas free h =
      begin_comparison-Fits fs accounts base name num1 num2 others c metas free h
  dispatch-Fits (end_compare name num1 num2) others c metas free h =
      delete_comparison-Fits fs accounts base name num1 num2 others c metas h
  dispatch-Fits (mount mounted works name num user_request) others c metas free h =
      mount_snapshot-Fits fs accounts base mounted works name num user_request others c metas h
  dispatch-Fits (umount mounted works name num user_request) others c metas free h =
      umount_snapshot-Fits fs accounts base mounted works name num user_request others c metas h
