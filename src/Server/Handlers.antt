-- ===== src/Server/Handlers.antt =====
-- The method calls of server/Client.cc that keep to locks, mounts and comparisons. A handler gets the
-- other clients, the client of the call and the configurations; it gives the reply, the client and the
-- configurations afterwards. The reply is the exception, where there is one.
use snapper.Base.{
  Bytes, eq_bytes, ℕ, Bool, true, false, not, ◌&&◌, ◌||◌, Option, none, some, List, [], ◌∷◌, ◌++◌,
  ◌==◌, if◌then◌else◌, any_of,
}
use snapper.Snapshot.{Snapshot}
use snapper.Snapshots.Store.{Filesystem, Dirs, Store, ok, err, no_fuel, find}
use snapper.Snapshots.Mount.{
  no_call, mount, umount, mount_filesystem_snapshot, umount_filesystem_snapshot,
}
use snapper.Snapshots.Delete.{delete_snapshot}
use snapper.Server.State.{
  Comparison, Running, Client, MetaSnapper, add_lock, remove_lock, has_lock, add_mount,
  remove_mount, has_mount, inc_use_count, dec_use_count, find_meta, change_meta, erase_meta,
}
use snapper.Server.Permission.{Accounts, check_root, check_permission}

pub data Reply : Type 0 where
  done unknown_config no_permissions locked config_in_use snapshot_in_use illegal_snapshot
        no_comparison :
      Reply
  -- An exception of the library.
  failed : Reply

-- Client::check_lock: false where it throws.
abbrev pub check_lock : Bytes → List Client → Bool
check_lock config_name others = not (any_of (λ c. not c.zombie && has_lock config_name c) others)

-- Client::check_snapshot_in_use, for all clients: false where it throws.
abbrev pub check_snapshot_in_use : Bytes → ℕ → Client → List Client → Bool
check_snapshot_in_use config_name number this others =
    not (has_mount config_name number this || any_of (λ c. has_mount config_name number c) others)

-- The change of the snapshot that an iterator points at.
unfoldable pub put_snapshot : Snapshot → List Snapshot → List Snapshot
put_snapshot s [] = []
put_snapshot s (x ∷ xs) =
    let rest = put_snapshot s xs in if x.num == s.num then s ∷ xs else x ∷ rest

unfoldable pub store_snapshot : {fs : Filesystem} → Snapshot → MetaSnapper fs → MetaSnapper fs
unfolding put_snapshot
store_snapshot {fs} s m =
    let st : Store fs = m.store in
    record m { store = record st { entries = put_snapshot s st.entries } }

-- The constructor of Comparison, `works` if the comparison of the two snapshots does not throw.
unfoldable pub construct : Running → Bool → Option Comparison
construct r works = elim r.snapshot1 [
  | none ↦ none
  | some a ↦ elim r.snapshot2 [
    | none ↦ none
    | some b ↦
        if a == b || not works
        then none
        else some (record { config = r.config; num1 = a; num2 = b })
  ]
]

-- it->getSnapshot1() == snapshot1
abbrev pub same_snapshot : ℕ → Option Snapshot → Bool
same_snapshot num none = false
same_snapshot num (some s) = s.num == num

-- comparisons.erase of the entry that find_comparison finds; `none` is NoComparison.
unfoldable pub erase_comparison : (Comparison → Bool) → List Comparison → Option (List Comparison)
erase_comparison p [] = none
erase_comparison p (c ∷ cs) =
    let rest = erase_comparison p cs in
    if p c then some cs else elim rest [ none ↦ none | some l ↦ some (c ∷ l) ]

abbrev pub num_of : Option Snapshot → Option ℕ
num_of none = none
num_of (some s) = some s.num

module _ (fs : Filesystem) (accounts : Accounts) where
  abbrev pub Metas : Type 0
  Metas = List (MetaSnapper fs)

  abbrev pub Outcome : Type 0
  Outcome = Reply × Client × Metas

  -- What a deleteConfig that throws leaves.
  unfoldable pub put_left : fs.State → Dirs → MetaSnapper fs → MetaSnapper fs
  put_left disk dirs m =
      let st : Store fs = m.store in record m { store = record st { disk = disk; dirs = dirs } }

  -- The loop of delete_snapshots.
  unfoldable pub delete_all : (ℕ → Bool) → Bool → List ℕ → Store fs → Reply × Store fs
  unfolding delete_snapshot
  delete_all free unique_numbers [] st = (done, st)
  delete_all free unique_numbers (n ∷ nums) st =
      if not (free n)
      then (snapshot_in_use, st)
      else (let r = delete_snapshot fs unique_numbers (find n st.entries) st in
          let rest = delete_all free unique_numbers nums r.1 in
          elim r.0 [ ok k ↦ rest | err e ↦ (failed, r.1) | no_fuel ↦ (failed, r.1) ])

  -- Client::lock_config
  unfoldable pub lock_config : Bytes → List Client → Client → Metas → Outcome
  unfolding check_permission add_lock
  lock_config config_name others this metas = elim (find_meta config_name metas) [
    | none ↦ (unknown_config, this, metas)
    | some m ↦
        if not (check_permission accounts this m)
        then (no_permissions, this, metas)
        else (done, add_lock config_name this, metas)
  ]

  -- Client::unlock_config
  unfoldable pub unlock_config : Bytes → List Client → Client → Metas → Outcome
  unfolding check_permission remove_lock
  unlock_config config_name others this metas = elim (find_meta config_name metas) [
    | none ↦ (unknown_config, this, metas)
    | some m ↦
        if not (check_permission accounts this m)
        then (no_permissions, this, metas)
        else (done, remove_lock config_name this, metas)
  ]

  -- Client::delete_config. Where Snapper::deleteConfig throws, `left` is what it leaves of the file system
  -- and of the infos directory: it may have deleted snapshots. It works on a list of its own.
  unfoldable pub delete_config :
      Option (fs.State × Dirs) → Bytes → List Client → Client → Metas → Outcome
  unfolding has_lock erase_meta change_meta put_left
  delete_config left config_name others this metas = elim (find_meta config_name metas) [
    | none ↦ (unknown_config, this, metas)
    | some m ↦
        if not (check_root this)
        then (no_permissions, this, metas)
        else if not (check_lock config_name others)
        then (locked, this, metas)
        else if not (m.use_count == 0)
        then (config_in_use, this, metas)
        else elim left [
          | none ↦ (done, this, erase_meta config_name metas)
          | some (disk, dirs) ↦ (failed, this, change_meta config_name (put_left disk dirs) metas)
        ]
  ]

  -- Client::delete_snapshots
  unfoldable pub delete_snapshots : Bytes → List ℕ → List Client → Client → Metas → Outcome
  unfolding check_permission has_lock has_mount delete_all change_meta
  delete_snapshots config_name nums others this metas = elim (find_meta config_name metas) [
    | none ↦ (unknown_config, this, metas)
    | some m ↦
        if not (check_permission accounts this m)
        then (no_permissions, this, metas)
        else if not (check_lock config_name others)
        then (locked, this, metas)
        else if not (m.use_count == 0)
        then (config_in_use, this, metas)
        else (let r =
              delete_all (λ n. check_snapshot_in_use config_name n this others) m.unique_numbers
                nums m.store in
            (r.0, this, change_meta config_name (λ x. record x { store = r.1 }) metas))
  ]

  -- Client::create_comparison up to the unlocking.
  unfoldable pub begin_comparison : Bytes → ℕ → ℕ → List Client → Client → Metas → Outcome
  unfolding check_permission change_meta
  begin_comparison config_name num1 num2 others this metas = elim (find_meta config_name metas) [
    | none ↦ (unknown_config, this, metas)
    | some m ↦ if not (check_permission accounts this m) then (no_permissions, this, metas) else (
      done,
      record this {
        running = some (record {
          config = config_name;
          snapshot1 = num_of (find num1 m.store.entries);
          snapshot2 = num_of (find num2 m.store.entries);
        });
      },
      change_meta config_name inc_use_count metas,
    )
  ]

  -- Client::create_comparison from the construction of the comparison on, with the end of the RefHolder.
  unfoldable pub end_comparison : Bool → Running → Client → Metas → Outcome
  unfolding construct change_meta
  end_comparison works r this metas = elim (construct r works) [
    | none ↦ (failed, record this { running = none }, change_meta r.config dec_use_count metas)
    | some c ↦ (
      done,
      record this { running = none; comparisons = this.comparisons ++ (c ∷ []) },
      change_meta r.config dec_use_count (change_meta r.config inc_use_count metas),
    )
  ]

  -- Client::delete_comparison, the method call.
  unfoldable pub delete_comparison : Bytes → ℕ → ℕ → List Client → Client → Metas → Outcome
  unfolding check_permission change_meta erase_comparison
  delete_comparison config_name num1 num2 others this metas = elim (find_meta config_name metas) [
    | none ↦ (unknown_config, this, metas)
    | some m ↦
        if not (check_permission accounts this m)
        then (no_permissions, this, metas)
        else elim (erase_comparison
            (λ c.
              eq_bytes c.config config_name
              && (same_snapshot c.num1 (find num1 m.store.entries)
                  && same_snapshot c.num2 (find num2 m.store.entries)))
            this.comparisons) [
              | none ↦ (no_comparison, this, metas)
              | some l ↦ (
                done,
                record this { comparisons = l },
                change_meta config_name dec_use_count metas,
              )
            ]
  ]

  -- Client::calculate_used_space and Client::query_quota up to the unlocking. `held` has the configuration
  -- of each RefHolder of such a call.
  unfoldable pub begin_query : Bytes → Client → List Bytes → Metas → Reply × List Bytes × Metas
  unfolding check_permission change_meta
  begin_query config_name this held metas = elim (find_meta config_name metas) [
    | none ↦ (unknown_config, held, metas)
    | some m ↦
        if not (check_permission accounts this m)
        then (no_permissions, held, metas)
        else (done, config_name ∷ held, change_meta config_name inc_use_count metas)
  ]

  -- Client::mount_snapshot; `mounted` is isSnapshotMounted, `works` if Filesystem::mountSnapshot does not
  -- throw.
  unfoldable pub mount_snapshot :
      Bool → Bool → Bytes → ℕ → Bool → List Client → Client → Metas → Outcome
  unfolding check_permission change_meta store_snapshot mount_filesystem_snapshot add_mount
  mount_snapshot mounted works config_name num user_request others this metas =
      elim (find_meta config_name metas) [
        | none ↦ (unknown_config, this, metas)
        | some m ↦
            if not (check_permission accounts this m)
            then (no_permissions, this, metas)
            else elim (find num m.store.entries) [
              | none ↦ (illegal_snapshot, this, metas)
              | some s ↦ elim (mount_filesystem_snapshot mounted user_request s) [
                | none ↦ (illegal_snapshot, this, metas)
                | some (call, t) ↦
                    let after = change_meta config_name (store_snapshot t) metas in
                    if not works then (failed, this, after) else (
                      done,
                      if user_request then this else add_mount config_name num this,
                      after,
                    )
              ]
            ]
      ]

  -- Client::umount_snapshot; `works` if Filesystem::umountSnapshot, where it is called, does not throw.
  unfoldable pub umount_snapshot :
      Bool → Bool → Bytes → ℕ → Bool → List Client → Client → Metas → Outcome
  unfolding check_permission change_meta store_snapshot umount_filesystem_snapshot remove_mount
  umount_snapshot mounted works config_name num user_request others this metas =
      elim (find_meta config_name metas) [
        | none ↦ (unknown_config, this, metas)
        | some m ↦
            if not (check_permission accounts this m)
            then (no_permissions, this, metas)
            else elim (find num m.store.entries) [
              | none ↦ (illegal_snapshot, this, metas)
              | some s ↦ elim (umount_filesystem_snapshot mounted user_request s) [
                | none ↦ (illegal_snapshot, this, metas)
                | some (call, t) ↦
                    let after = change_meta config_name (store_snapshot t) metas in
                    if user_request
                      && ((elim call [ no_call ↦ false | mount ↦ false | umount ↦ true ])
                          && not works)
                    then (failed, this, after)
                    else (
                      done,
                      if user_request then this else remove_mount config_name num this,
                      after,
                    )
              ]
            ]
      ]
