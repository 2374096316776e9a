-- ===== src/Backup/TreeView.antt =====
-- Class TreeView of client/snbk/TreeView.cc, without the drawing: the tree of snapshots by their
-- identifiers, and the search for the nearest valid node. A node is its identifier, and what stands at the
-- pointers parent and children is computed from the nodes, which are given by descending number.
pub mod Nearest
pub mod Shortest
use snapper.Base.{
  Bytes, eq_bytes, eq_bytes_iff, ℕ, zero, suc, ◌+◌, ◌≤◌, ◌<◌, ltb, ◌≡◌, ◌≢◌, refl, sym, ap, ◌∙◌,
  subst, ◌⊎◌, inl, inr, Bool, true, false, not, ◌&&◌, ◌||◌, Option, none, some, List, [], ◌∷◌, ◌++◌,
  map, reverse, filter_by, find_if, any_of, length, In, In-append, append_left-In, append_right-In,
  find_if-some, if◌then◌else◌, arith, Bool-cases, Option-cases,
}

pub record ProxyNode : Type 0 where
  pub number : ℕ
  pub uuid : Bytes
  pub parent_uuid : Bytes
  pub is_valid : Bool

abbrev pub virtual_root : Bytes
virtual_root =
    b'v' ∷ b'i' ∷ b'r' ∷ b't' ∷ b'u' ∷ b'a' ∷ b'l' ∷ b'_' ∷ b'r' ∷ b'o' ∷ b'o' ∷ b't' ∷ []

abbrev pub is_empty : Bytes → Bool
is_empty [] = true
is_empty (c ∷ text) = false

-- The pool, without the virtual nodes; nodes without an identifier are left out of the tree. Of nodes with
-- one identifier the pool keeps the last.
abbrev pub find_node : List ProxyNode → Bytes → Option ProxyNode
find_node nodes u = find_if (λ n. not (is_empty n.uuid) && eq_bytes n.uuid u) (reverse nodes)

-- The virtual nodes, for parents that are no snapshots, each once.
abbrev pub virtual_nodes : List ProxyNode → List ProxyNode → List Bytes → List Bytes
virtual_nodes nodes [] made = []
virtual_nodes nodes (n ∷ rest) made =
    let others = virtual_nodes nodes rest made in
    let more = virtual_nodes nodes rest (n.parent_uuid ∷ made) in
    if is_empty n.uuid || is_empty n.parent_uuid || any_of (eq_bytes n.parent_uuid) made
    then others
    else elim (find_node nodes n.parent_uuid) [ none ↦ n.parent_uuid ∷ more | some x ↦ others ]

abbrev pub parent : List ProxyNode → Bytes → List Bytes
parent nodes u = elim (find_node nodes u) [
  | none ↦ if eq_bytes u virtual_root then [] else virtual_root ∷ []
  | some n ↦ (if is_empty n.parent_uuid then virtual_root else n.parent_uuid) ∷ []
]

abbrev pub children_with : List ProxyNode → Bytes → List Bytes
children_with nodes p =
    map (λ n. n.uuid) (filter_by (λ n. not (is_empty n.uuid) && eq_bytes n.parent_uuid p) nodes)

abbrev pub children : List ProxyNode → Bytes → List Bytes
children nodes u =
    if eq_bytes u virtual_root
    then virtual_nodes nodes nodes [] ++ children_with nodes []
    else children_with nodes u

-- The candidates of a round: the parent, then the children.
abbrev pub neighbours : List ProxyNode → Bytes → List Bytes
neighbours nodes u = parent nodes u ++ children nodes u

abbrev pub is_valid_node : List ProxyNode → Bytes → Bool
is_valid_node nodes u = elim (find_node nodes u) [ none ↦ false | some n ↦ n.is_valid ]

-- The result of the loop, and that it has not ended.
pub data Search : Type 0 where
  found : Bytes → ℕ → Search
  nothing running : Search

module _ (next : Bytes → List Bytes) (valid : Bytes → Bool) where
  -- The candidates that were not visited go to the end of the queue.
  unfoldable pub push :
      List Bytes → ℕ → List (Bytes × ℕ) → List Bytes → List (Bytes × ℕ) × List Bytes
  unfolding eq_bytes
  push [] d queue visited = (queue, visited)
  push (u ∷ us) d queue visited =
      let old = push us d queue visited in
      let new = push us d (queue ++ (u, suc d) ∷ []) (u ∷ visited) in
      if any_of (eq_bytes u) visited then old else new

  -- The loop of find_nearest_valid_node.
  unfoldable pub search : ℕ → List (Bytes × ℕ) → List Bytes → Search
  unfolding push
  search zero queue visited = running
  search (suc fuel) [] visited = nothing
  search (suc fuel) ((u, d) ∷ queue) visited =
      let r = push (next u) d queue visited in
      let later = search fuel r.0 r.1 in if ltb 0 d && valid u then found u d else later

  abbrev pub search_from : ℕ → Bytes → Search
  search_from fuel start = search fuel ((start, 0) ∷ []) (start ∷ [])

-- TreeView::find_nearest_valid_node; none if it throws.
unfoldable pub find_nearest_valid_node : ℕ → List ProxyNode → Bytes → Option Search
unfolding search
find_nearest_valid_node fuel nodes start = elim (find_node nodes start) [
  | none ↦
      if any_of (eq_bytes start) (virtual_nodes nodes nodes [])
      then some (search_from (neighbours nodes) (is_valid_node nodes) fuel start)
      else none
  | some n ↦ some (search_from (neighbours nodes) (is_valid_node nodes) fuel start)
]
