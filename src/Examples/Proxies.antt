-- ===== src/Examples/Proxies.antt =====
-- The proxy of the library (client/proxy/proxy-lib.cc) at concrete inputs.
use snapper.Base.{◌≡◌, refl, true, false, [], ◌∷◌, List, ℕ}
use snapper.Base.Int.{pos}
use snapper.Examples.Store.{list_fs, calm, two_snapshots}
use snapper.Proxy.{erase}
use snapper.Proxy.Library.{delete, Library, open_library, operate}
use snapper.Proxy.Library.Steps.{IsInStep, operate-IsInStep}

abbrev opened : Library list_fs
opened = open_library list_fs two_snapshots

-- Snapshot 3 is deleted.
operate-IsInStep_example :
    IsInStep (operate list_fs calm false 5 (pos 300) (delete (3 ∷ [])) opened).1
unfolding operate
operate-IsInStep_example =
    operate-IsInStep list_fs calm false 5 (pos 300) (delete (3 ∷ [])) opened refl returns
  where
    returns :
        (nums : List ℕ)
        → delete (3 ∷ []) ≡ delete nums
        → (operate list_fs calm false 5 (pos 300) (delete (3 ∷ [])) opened).0 ≡ true
    returns nums e = refl

-- Snapshot 1 is the default one: the call throws, and the proxy of the deleted snapshot 3 stays.
delete_throws :
    (operate list_fs calm false 5 (pos 300) (delete (3 ∷ 1 ∷ [])) opened).1.proxies ≡ 0 ∷ 1 ∷ 3 ∷ []
unfolding operate erase
delete_throws = refl
