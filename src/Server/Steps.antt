-- ===== src/Server/Steps.antt =====
-- The steps of snapperd: one method call, or a locked part of one, of one client, the end of a client
-- and the start of one (server/Client.cc, server/snapperd.cc). What the system answers is part of the
-- step. A call of CalculateUsedSpace or QueryQuota that is running is not tied to its client, so more
-- interleavings are possible here than in the program.
use snapper.Base.{
  Bytes, ℕ, zero, suc, ◌≡◌, Bool, true, false, Option, none, some, List, [], ◌∷◌, ◌++◌, In,
}
use snapper.Snapshot.{Snapshot}
use snapper.Snapshots.Store.{Filesystem, Dirs, find}
use snapper.Snapshots.Mount.{umount_filesystem_snapshot}
use snapper.Server.State.{
  Comparison, Running, Client, MountKey, MetaSnapper, inc_use_count, dec_use_count, find_meta,
  change_meta,
}
use snapper.Server.Permission.{Accounts}
use snapper.Server.Handlers.{
  Metas, Outcome, store_snapshot, lock_config, unlock_config, delete_config, delete_snapshots,
  begin_comparison, end_comparison, delete_comparison, begin_query, mount_snapshot, umount_snapshot,
}

pub data Request (fs : Filesystem) : Type 0 where
  lock unlock : Bytes → Request fs
  -- With what is left where the deletion of the configuration throws.
  remove_config : Option (fs.State × Dirs) → Bytes → Request fs
  remove_snapshots : Bytes → List ℕ → Request fs
  compare : Bytes → ℕ → ℕ → Request fs
  end_compare : Bytes → ℕ → ℕ → Request fs
  -- Whether the snapshot is mounted, and whether the call of the Filesystem works.
  mount umount : Bool → Bool → Bytes → ℕ → Bool → Request fs

-- Clients::add
abbrev pub new_client : Bytes → ℕ → Client
new_client name uid = record {
  name = name;
  uid = uid;
  zombie = false;
  comparisons = [];
  locks = [];
  mounts = [];
  running = none;
}

module _ (fs : Filesystem) (accounts : Accounts) where
  -- The part of Client::dispatch that is modelled.
  unfoldable pub dispatch :
      Request fs → List Client → Client → Metas fs accounts → Outcome fs accounts
  unfolding lock_config unlock_config delete_config delete_snapshots begin_comparison
      delete_comparison mount_snapshot umount_snapshot
  dispatch (lock name) = lock_config fs accounts name
  dispatch (unlock name) = unlock_config fs accounts name
  dispatch (remove_config left name) = delete_config fs accounts left name
  dispatch (remove_snapshots name nums) = delete_snapshots fs accounts name nums
  dispatch (compare name num1 num2) = begin_comparison fs accounts name num1 num2
  dispatch (end_compare name num1 num2) = delete_comparison fs accounts name num1 num2
  dispatch (mount mounted works name num user_request) =
      mount_snapshot fs accounts mounted works name num user_request
  dispatch (umount mounted works name num user_request) =
      umount_snapshot fs accounts mounted works name num user_request

  -- Client::delete_comparison for each comparison, in ~Client.
  unfoldable pub release_comparisons : List Comparison → Metas fs accounts → Metas fs accounts
  unfolding change_meta
  release_comparisons [] metas = metas
  release_comparisons (c ∷ cs) metas =
      release_comparisons cs (change_meta c.config dec_use_count metas)

  -- The inner loop over the uses of one mount; `none` is IllegalSnapshotException.
  unfoldable pub release_uses : (ℕ → Bool) → ℕ → Snapshot → Option Snapshot
  unfolding umount_filesystem_snapshot
  release_uses mounted zero s = some s
  release_uses mounted (suc uses) s = elim (umount_filesystem_snapshot (mounted s.num) false s) [
    | none ↦ none
    | some (call, t) ↦ release_uses mounted uses t
  ]

  -- The loop over the mounts in ~Client; `none` where it throws, which ends the program.
  unfoldable pub release_mounts :
      (ℕ → Bool) → List (MountKey × ℕ) → Metas fs accounts → Option (Metas fs accounts)
  unfolding release_uses change_meta store_snapshot
  release_mounts mounted [] metas = some metas
  release_mounts mounted (((name, num), uses) ∷ rest) metas = elim (find_meta name metas) [
    | none ↦ none
    | some m ↦ elim (find num m.store.entries) [
      | none ↦ release_mounts mounted rest metas
      | some s ↦ elim (release_uses mounted uses s) [
        | none ↦ none
        | some t ↦ release_mounts mounted rest (change_meta name (store_snapshot t) metas)
      ]
    ]
  ]

  -- Client::~Client
  unfoldable pub destroy : (ℕ → Bool) → Client → Metas fs accounts → Option (Metas fs accounts)
  unfolding release_comparisons release_mounts
  destroy mounted c metas =
      release_mounts mounted c.mounts (release_comparisons c.comparisons metas)

  pub record Server : Type 0 where
    pub clients : List Client
    pub metas : Metas fs accounts
    -- The configurations of the RefHolders of CalculateUsedSpace and QueryQuota and of the tasks of
    -- class Backgrounds.
    pub held : List Bytes

  -- A client stands between the others.
  pub data Step : Server → Server → Type 0 where
    -- Clients::add
    connect :
        (clients : List Client) (metas : Metas fs accounts) (held : List Bytes) (name : Bytes)
        (uid : ℕ)
        → Step
            (record { clients = clients; metas = metas; held = held })
            (record { clients = clients ++ (new_client name uid ∷ []); metas = metas; held = held })
    -- MyMainLoop::client_disconnected
    disconnect :
        (before after : List Client) (c : Client) (metas : Metas fs accounts) (held : List Bytes)
        → Step
            (record { clients = before ++ (c ∷ after); metas = metas; held = held })
            (record {
              clients = before ++ (record c { zombie = true } ∷ after);
              metas = metas;
              held = held;
            })
    call :
        (request : Request fs) (before after : List Client) (c : Client) (metas : Metas fs accounts)
        (held : List Bytes)
        → c.running ≡ none
        → Step
            (record { clients = before ++ (c ∷ after); metas = metas; held = held })
            (record {
              clients = before ++ ((dispatch request (before ++ after) c metas).1 ∷ after);
              metas = (dispatch request (before ++ after) c metas).2;
              held = held;
            })
    -- The comparison is finished or has thrown.
    finish :
        (works : Bool) (before after : List Client) (c : Client) (r : Running)
        (metas : Metas fs accounts) (held : List Bytes)
        → c.running ≡ some r
        → Step
            (record { clients = before ++ (c ∷ after); metas = metas; held = held })
            (record {
              clients = before ++ ((end_comparison fs accounts works r c metas).1 ∷ after);
              metas = (end_comparison fs accounts works r c metas).2;
              held = held;
            })
    -- Clients::remove_zombies, when the thread of the client has ended.
    remove :
        (mounted : ℕ → Bool) (before after : List Client) (c : Client)
        (metas left : Metas fs accounts) (held : List Bytes)
        → c.zombie ≡ true
        → c.running ≡ none
        → destroy mounted c metas ≡ some left
        → Step
            (record { clients = before ++ (c ∷ after); metas = metas; held = held })
            (record { clients = before ++ after; metas = left; held = held })
    -- A call of CalculateUsedSpace or of QueryQuota, up to the unlocking.
    query :
        (name : Bytes) (clients : List Client) (c : Client) (metas : Metas fs accounts)
        (held : List Bytes)
        → In c clients
        → Step
            (record { clients = clients; metas = metas; held = held })
            (record {
              clients = clients;
              metas = (begin_query fs accounts name c held metas).2;
              held = (begin_query fs accounts name c held metas).1;
            })
    -- Backgrounds::add_task, for a configuration that is there.
    add_task :
        (m : MetaSnapper fs) (clients : List Client) (metas : Metas fs accounts) (held : List Bytes)
        → In m metas
        → Step
            (record { clients = clients; metas = metas; held = held })
            (record {
              clients = clients;
              metas = change_meta m.config_name inc_use_count metas;
              held = m.config_name ∷ held;
            })
    -- The end of such a call, whether it throws or not, with that of its RefHolder, or of a task.
    release :
        (name : Bytes) (clients : List Client) (metas : Metas fs accounts)
        (before after : List Bytes)
        → Step
            (record { clients = clients; metas = metas; held = before ++ (name ∷ after) })
            (record {
              clients = clients;
              metas = change_meta name dec_use_count metas;
              held = before ++ after;
            })

  -- Some number of steps.
  pub data Steps (s : Server) : Server → Type 0 where
    start : Steps s s
    next : (t u : Server) → Steps s t → Step t u → Steps s u
