-- ===== src/Examples/Service.antt =====
-- The service snapperd (server/) at concrete inputs.
use snapper.Base.{
  if◌then◌else◌, Bytes, eq_bytes, ℕ, ◌≡◌, refl, ◌↔◌, inl, inr, true, Option, none, some, List, [],
  ◌∷◌, arith, In,
}
use snapper.Examples.Store.{list_fs, three, two_snapshots}
use snapper.Snapshots.Store.{Dirs}
use snapper.Server.State.{Client, MetaSnapper, find_meta}
use snapper.Server.Permission.{
  Accounts, set_permissions, check_permission, IsPermitted, check_permission_lem,
}
use snapper.Server.Handlers.{delete_snapshots}
use snapper.Server.Steps.{
  Request, compare, remove_config, remove_snapshots, new_client, dispatch, Server, connect, call,
  Steps, start, next, destroy,
}
use snapper.Server.UseCount.Reached.{IsCounted, reached-IsCounted}
use snapper.Server.Refused.{dispatch_busy}
use snapper.Server.Held.{delete_snapshots_mounted}

-- "u" has the number 10 and belongs to the group "g" of number 20.
abbrev accounts : Accounts
accounts = record {
  get_user_uid = λ name. if eq_bytes name (b'u' ∷ []) then some 10 else none;
  get_group_gid = λ name. if eq_bytes name (b'g' ∷ []) then some 20 else none;
  get_uid_username_gid = λ uid. some (b'u' ∷ [], 1);
  getgrouplist = λ name gid. gid ∷ 20 ∷ [];
}

abbrev root : Bytes
root = b'r' ∷ []

abbrev home : MetaSnapper list_fs
home = record {
  config_name = b'h' ∷ [];
  allowed_uids = [];
  allowed_gids = [];
  use_count = 0;
  unique_numbers = true;
  store = two_snapshots;
}

abbrev user : Client
user = new_client (b'u' ∷ []) 10

check_permission_example :
    (check_permission accounts user (set_permissions accounts none (some ((b'g' ∷ []) ∷ [])) home)
      ≡ true)
    ↔ IsPermitted accounts none (some ((b'g' ∷ []) ∷ [])) 10
check_permission_example = check_permission_lem accounts none (some ((b'g' ∷ []) ∷ [])) user home

abbrev idle : Server list_fs accounts
idle = record { clients = []; metas = home ∷ []; held = [] }

abbrev connected : Server list_fs accounts
connected = record { clients = new_client root 0 ∷ []; metas = home ∷ []; held = [] }

abbrev request : Request list_fs
request = compare (b'h' ∷ []) 1 3

abbrev comparing_client : Client
unfolding dispatch eq_bytes check_permission
comparing_client = (dispatch list_fs accounts request [] (new_client root 0) (home ∷ [])).1

abbrev comparing : Server list_fs accounts
unfolding dispatch eq_bytes check_permission
comparing = record {
  clients = comparing_client ∷ [];
  metas = (dispatch list_fs accounts request [] (new_client root 0) (home ∷ [])).2;
  held = [];
}

-- A client has connected and is making a comparison.
steps : Steps list_fs accounts idle comparing
unfolding comparing
steps =
    next connected comparing (next idle connected start (connect [] (home ∷ []) [] root 0))
      (call request [] [] (new_client root 0) (home ∷ []) [] refl)

reached-IsCounted_example : IsCounted list_fs accounts comparing
reached-IsCounted_example =
    reached-IsCounted list_fs accounts idle comparing (refl, refl, (refl, tt)) steps

-- While the comparison is made, root deletes neither the configuration nor a snapshot.
dispatch_busy_example :
    ((left : Option (List ℕ × Dirs))
      → (dispatch list_fs accounts
          (remove_config left (b'h' ∷ []))
          []
          (comparing_client)
          comparing.metas).2
        ≡ comparing.metas)
    × ((nums : List ℕ)
        → (dispatch list_fs accounts
            (remove_snapshots (b'h' ∷ []) nums)
            []
            (comparing_client)
            comparing.metas).2
          ≡ comparing.metas)
unfolding comparing
dispatch_busy_example =
    dispatch_busy list_fs accounts idle [] [] comparing_client comparing.metas [] (b'h' ∷ [])
      (refl, refl, (refl, tt)) steps (inr (omega arith))

-- Another client has mounted snapshot 3.
abbrev holder : Client
holder = record (new_client (b'v' ∷ []) 10) { mounts = ((b'h' ∷ [], 3), 1) ∷ [] }

delete_snapshots_mounted_example :
    (m' : MetaSnapper list_fs) × (find_meta
        (b'h' ∷ [])
        (delete_snapshots list_fs accounts
          (b'h' ∷ [])
          (1 ∷ 3 ∷ [])
          (holder ∷ [])
          (new_client root 0)
          (home ∷ [])).2
      ≡ some m')
    × In three m'.store.entries
unfolding eq_bytes
delete_snapshots_mounted_example =
    delete_snapshots_mounted list_fs accounts (b'h' ∷ []) (1 ∷ 3 ∷ []) (holder ∷ [])
      (new_client root 0) (home ∷ []) home three refl (inr (inr (inl refl))) holder (inr (inl refl))
      1 (inl refl)

-- The configuration of a mounted snapshot may be deleted; then the destructor of its client throws.
config_gone :
    (dispatch list_fs accounts
      (remove_config none (b'h' ∷ []))
      (holder ∷ [])
      (new_client root 0)
      (home ∷ [])).2
    ≡ []
unfolding dispatch eq_bytes
config_gone = refl

destructor_throws : destroy list_fs accounts (λ n. true) holder [] ≡ none
unfolding destroy
destructor_throws = refl
