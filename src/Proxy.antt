-- ===== src/Proxy.antt =====
-- client/proxy/proxy.cc: the searches of ProxySnapshots. An iterator is the snapshot that it points
-- at and `none` is end(); two iterators are equal when they name the same number, which is the key
-- of a snapshot.
pub mod Library
use snapper.Base.{ℕ, ◌&&◌, Option, List, [], ◌∷◌, ◌==◌, if◌then◌else◌, find_if}
use snapper.Snapshot.{Snapshot, is_pre, is_post}

-- ProxySnapshots::find
abbrev pub find : List Snapshot → ℕ → Option Snapshot
find snapshots num = find_if (λ x. x.num == num) snapshots

-- ProxySnapshots::findPre
abbrev pub find_pre : List Snapshot → Snapshot → Option Snapshot
find_pre snapshots post = find_if (λ x. is_pre x.type && (x.num == post.pre_num)) snapshots

-- ProxySnapshots::findPost
abbrev pub find_post : List Snapshot → Snapshot → Option Snapshot
find_post snapshots pre = find_if (λ x. is_post x.type && (x.pre_num == pre.num)) snapshots

-- std::list::erase of the entry with this number.
unfoldable pub erase : ℕ → List Snapshot → List Snapshot
erase num [] = []
erase num (x ∷ xs) = let rest = erase num xs in if x.num == num then xs else x ∷ rest
