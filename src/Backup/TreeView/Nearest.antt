-- ===== src/Backup/TreeView/Nearest.antt =====
-- TreeView::find_nearest_valid_node (client/snbk/TreeView.cc) ends.
use snapper.Base.{
  Bytes, eq_bytes, eq_bytes_iff, ℕ, zero, suc, ◌+◌, ◌≤◌, ◌<◌, ltb, ◌≡◌, ◌≢◌, refl, sym, ap, subst,
  inl, inr, Bool, true, false, not, ◌&&◌, some, List, [], ◌∷◌, ◌++◌, map, any_of, length, reverse,
  In, In-append, In-reverse, append_left-In, append_right-In, find_if-some, if◌then◌else◌, arith,
  Bool-cases, Option-cases,
}
use snapper.Backup.TreeView.{
  ProxyNode, virtual_root, is_empty, find_node, virtual_nodes, parent, children_with, children,
  neighbours, is_valid_node, Search, found, running, push, search, search_from,
  find_nearest_valid_node,
}

module _ (next : Bytes → List Bytes) (valid : Bytes → Bool) where
  -- The names of a list that were not visited.
  abbrev pub unvisited : List Bytes → List Bytes → ℕ
  unvisited [] visited = 0
  unvisited (v ∷ all) visited =
      let others = unvisited all visited in
      if any_of (eq_bytes v) visited then others else suc others

  unvisited_more :
      (all : List Bytes) (v : Bytes) (visited : List Bytes)
      → unvisited all (v ∷ visited) ≤ unvisited all visited
  unvisited_more [] v visited = omega arith
  unvisited_more (u ∷ all) v visited = ground (arith, unvisited_more all v visited)

  unvisited_bound : (all visited : List Bytes) → unvisited all visited ≤ length all
  unvisited_bound [] visited = omega arith
  unvisited_bound (v ∷ all) visited = ground (arith, unvisited_bound all visited)

  unvisited_less :
      (all : List Bytes) (v : Bytes) (visited : List Bytes)
      → In v all
      → any_of (eq_bytes v) visited ≡ false
      → suc (unvisited all (v ∷ visited)) ≤ unvisited all visited
  unvisited_less [] v visited m e = absurd m
  unvisited_less (u ∷ all) v visited m e = elim m [
    | inl p ↦
        let self : eq_bytes u v ≡ true = (eq_bytes_iff u v).1 (sym p) in
        let fresh : any_of (eq_bytes u) visited ≡ false =
          subst (λ z. any_of (eq_bytes z) visited ≡ false) p e in
        rw (self, fresh) (ground (arith, unvisited_more all v visited))
    | inr n ↦ ground (arith, unvisited_less all v visited n e)
  ]

  -- What is in the queue and what may still come into it do not become more in a round.
  push-bound :
      (all us : List Bytes) (d : ℕ) (queue : List (Bytes × ℕ)) (visited : List Bytes)
      → ((v : Bytes) → In v us → In v all)
      → length (push next valid us d queue visited).0
          + unvisited all (push next valid us d queue visited).1
        ≤ length queue + unvisited all visited
  unfolding push
  push-bound all [] d queue visited h = omega arith
  push-bound all (v ∷ us) d queue visited h = elim (Bool-cases (any_of (eq_bytes v) visited)) [
    | inl e ↦ rw (e, push) (push-bound all us d queue visited (λ x m. h x (inr m)))
    | inr e ↦
        rw (e, push)
          (ground (
            arith,
            push-bound all us d (queue ++ (v, suc d) ∷ []) (v ∷ visited) (λ x m. h x (inr m)),
            unvisited_less all v visited (h v (inl refl)) e,
            longer queue (v, suc d),
          ))
  ]
    where
      longer : (l : List (Bytes × ℕ)) (e : Bytes × ℕ) → length (l ++ e ∷ []) ≡ suc (length l)
      longer [] e = refl
      longer (x ∷ l) e = ap suc (longer l e)

  search-ends :
      (all : List Bytes) (fuel : ℕ) (queue : List (Bytes × ℕ)) (visited : List Bytes)
      → ((u v : Bytes) → In v (next u) → In v all)
      → length queue + unvisited all visited < fuel
      → search next valid fuel queue visited ≢ running
  unfolding search
  search-ends all zero queue visited h l e = omega (arith, l)
  search-ends all (suc fuel) [] visited h l e = cc
  search-ends all (suc fuel) ((u, d) ∷ queue) visited h l e =
      elim (Bool-cases (ltb 0 d && valid u)) [
        | inl y ↦ let bad : found u d ≡ running = (rw (y, search) at e) in cc
        | inr y ↦
            search-ends all fuel (push next valid (next u) d queue visited).0
              (push next valid (next u) d queue visited).1 h
              (ground (arith, push-bound all (next u) d queue visited (h u), l))
              (rw (y, search) at e)
      ]

-- All identifiers that the tree may have.
abbrev pub identifiers : List ProxyNode → List Bytes
identifiers nodes =
    virtual_root ∷ virtual_nodes nodes nodes []
    ++ (map (λ n. n.uuid) nodes ++ map (λ n. n.parent_uuid) nodes)

In-map : {A B : Type 0} (f : A → B) (a : A) (l : List A) → In a l → In (f a) (map f l)
In-map f a [] m = m
In-map f a (x ∷ l) m = elim m [ inl p ↦ inl (ap f p) | inr n ↦ inr (In-map f a l n) ]

In-children_with :
    (nodes : List ProxyNode) (p v : Bytes)
    → In v (children_with nodes p)
    → In v (map (λ n. n.uuid) nodes)
In-children_with [] p v m = m
In-children_with (n ∷ nodes) p v m =
    elim (Bool-cases (not (is_empty n.uuid) && eq_bytes n.parent_uuid p)) [
      | inr e ↦ inr (In-children_with nodes p v (rw e at m))
      | inl e ↦ elim (rw e at m) [ inl q ↦ inl q | inr k ↦ inr (In-children_with nodes p v k) ]
    ]

module _ (nodes : List ProxyNode) where
  In-virtual : (v : Bytes) → In v (virtual_nodes nodes nodes []) → In v (identifiers nodes)
  In-virtual v m = inr (append_left-In v _ _ m)

  In-uuid : (v : Bytes) → In v (map (λ n. n.uuid) nodes) → In v (identifiers nodes)
  In-uuid v m = inr (append_right-In v (virtual_nodes nodes nodes []) _ (append_left-In v _ _ m))

  In-parent : (u v : Bytes) → In v (parent nodes u) → In v (identifiers nodes)
  In-parent u v m = elim (Option-cases (find_node nodes u)) [
    | inl e ↦ root (eq_bytes u virtual_root) (rw (e, parent) at m)
    | inr (n, e) ↦
        one n ((In-reverse n nodes).0 (find_if-some _ (reverse nodes) n e).0)
          (is_empty n.parent_uuid) (rw (e, parent) at m)
  ]
    where
      root : (b : Bool) → In v (if b then [] else virtual_root ∷ []) → In v (identifiers nodes)
      root true m = absurd m
      root false (inl p) = inl p
      root false (inr z) = absurd z

      one :
          (n : ProxyNode)
          → In n nodes
          → (b : Bool) → In v ((if b then virtual_root else n.parent_uuid) ∷ [])
          → In v (identifiers nodes)
      one n k b (inr z) = absurd z
      one n k true (inl p) = inl p
      one n k false (inl p) = inr (
          append_right-In v (virtual_nodes nodes nodes []) _ (
            append_right-In v (map (λ n. n.uuid) nodes) _ (
              subst (λ z. In z (map (λ n. n.parent_uuid) nodes)) (sym p)
                (In-map (λ n. n.parent_uuid) n nodes k))))

  In-children : (u v : Bytes) → In v (children nodes u) → In v (identifiers nodes)
  In-children u v m = elim (Bool-cases (eq_bytes u virtual_root)) [
    | inr e ↦ In-uuid v (In-children_with nodes u v (rw (e, children) at m))
    | inl e ↦
        elim (In-append v (virtual_nodes nodes nodes []) (children_with nodes [])
          (rw (e, children) at m)) [
            | inl k ↦ In-virtual v k
            | inr k ↦ In-uuid v (In-children_with nodes [] v k)
          ]
  ]

  In-neighbours : (u v : Bytes) → In v (neighbours nodes u) → In v (identifiers nodes)
  In-neighbours u v m = elim (In-append v (parent nodes u) (children nodes u) m) [
    | inl k ↦ In-parent u v k
    | inr k ↦ In-children u v k
  ]

  pub the_search :
      (fuel : ℕ) (start : Bytes) (r : Search)
      → find_nearest_valid_node fuel nodes start ≡ some r
      → search_from (neighbours nodes) (is_valid_node nodes) fuel start ≡ r
  unfolding find_nearest_valid_node
  the_search fuel start r h = elim (Option-cases (find_node nodes start)) [
    | inr (n, e) ↦ some_search (rw (e, find_nearest_valid_node) at h)
    | inl e ↦ elim (Bool-cases (any_of (eq_bytes start) (virtual_nodes nodes nodes []))) [
      | inl f ↦ some_search (rw (e, f, find_nearest_valid_node) at h)
      | inr f ↦ absurd (ground (arith, (rw (e, f, find_nearest_valid_node) at h)))
    ]
  ]
    where
      some_search : {x y : Search} → some x ≡ some y → x ≡ y
      some_search h = ground (arith, h)

  -- The search ends, whatever the nodes are and also where parents form a circle, if the fuel is more than
  -- the number of identifiers and one.
  pub find_nearest_valid_node-ends :
      (fuel : ℕ) (start : Bytes)
      → suc (length (identifiers nodes)) < fuel
      → find_nearest_valid_node fuel nodes start ≢ some running
  find_nearest_valid_node-ends fuel start l h =
      search-ends (neighbours nodes) (is_valid_node nodes) (identifiers nodes) fuel
        ((start, 0) ∷ []) (start ∷ []) In-neighbours
        (ground (
          arith,
          l,
          unvisited_bound (neighbours nodes) (is_valid_node nodes) (identifiers nodes) (start ∷ []),
        ))
        (the_search fuel start running h)
