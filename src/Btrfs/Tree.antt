-- ===== src/Btrfs/Tree.antt =====
-- class tree_node of snapper/Btrfs.cc. A std::map is the list of its pairs; its keys are unique. A name
-- such as "a/b" is the list of its parts, which is what the functions of tree_node recurse on; it has one
-- at least, and the empty string is one empty part. A pointer
-- into the tree is the place that it points at.
pub mod Lookup
pub mod Changes
pub mod Tidy
pub mod Result
pub mod Check
use snapper.Base.{
  Bytes, eq_bytes, lt_bytes, ℕ, ◌-◌, ◌≡◌, Bool, true, false, not, ◌&&◌, ◌||◌, Option, none, some,
  List, [], ◌∷◌, ◌++◌, ◌==◌, if◌then◌else◌,
}

mutual
  pub data TreeNode : Type 0 where
    node : ℕ → Children → TreeNode

  pub data Children : Type 0 where
    end : Children
    child : Bytes → TreeNode → Children → Children

abbrev pub Name : Type 0
Name = List Bytes

abbrev pub status_of : TreeNode → ℕ
status_of (node status children) = status

abbrev pub children_of : TreeNode → Children
children_of (node status children) = children

-- tree_node::tree_node
abbrev pub new_node : TreeNode
new_node = node 0 end

abbrev pub is_end : Children → Bool
is_end end = true
is_end (child name x rest) = false

-- map::find
unfoldable pub get : Bytes → Children → Option TreeNode
unfolding eq_bytes
get name end = none
get name (child k x rest) = let later = get name rest in if eq_bytes k name then some x else later

-- map::insert, or an assignment to what is there.
unfoldable pub put : Bytes → TreeNode → Children → Children
unfolding eq_bytes lt_bytes
put name y end = child name y end
put name y (child k x rest) =
    let later = put name y rest in
    if eq_bytes k name
    then child k y rest
    else if lt_bytes name k
    then child name y (child k x rest)
    else child k x later

-- map::erase of a name.
unfoldable pub remove : Bytes → Children → Children
unfolding eq_bytes
remove name end = end
remove name (child k x rest) =
    let later = remove name rest in if eq_bytes k name then later else child k x later

-- tree_node::find
unfoldable pub find : Name → TreeNode → Option TreeNode
unfolding get
find [] t = some t
find (k ∷ name) (node status children) = elim (get k children) [
  | none ↦ none
  | some x ↦ find name x
]

abbrev pub or_new : Option TreeNode → TreeNode
or_new none = new_node
or_new (some x) = x

-- tree_node::insert, and then a change of the node that it points at.
unfoldable pub insert : Name → (TreeNode → TreeNode) → TreeNode → TreeNode
unfolding get put
insert [] change t = change t
insert (k ∷ name) change (node status children) =
    node status (put k (insert name change (or_new (get k children))) children)

-- What becomes of a child when something below it was erased.
abbrev pub drop_empty : Bytes → TreeNode → Children → Children
unfolding put remove
drop_empty k y children =
    if status_of y == 0 && is_end (children_of y) then remove k children else put k y children

-- What becomes of a child that is to be erased itself.
abbrev pub drop_child : Bytes → TreeNode → Children → Children
unfolding put remove
drop_child k x children =
    if is_end (children_of x) then remove k children else put k (node 0 (children_of x)) children

-- tree_node::erase; whether it found the name is not used.
unfoldable pub erase : Name → TreeNode → TreeNode
unfolding get drop_child drop_empty
erase [] t = t
erase (k ∷ []) (node status children) = elim (get k children) [
  | none ↦ node status children
  | some x ↦ node status (drop_child k x children)
]
erase (k ∷ m ∷ name) (node status children) = elim (get k children) [
  | none ↦ node status children
  | some x ↦ node status (drop_empty k (erase (m ∷ name) x) children)
]

abbrev pub with_status : (ℕ → ℕ) → TreeNode → TreeNode
with_status f (node status children) = node (f status) children

abbrev pub without_children : TreeNode → TreeNode
without_children (node status children) = node status end

-- tree_node::rename
unfoldable pub rename : Name → Name → TreeNode → TreeNode
unfolding find insert erase
rename o n t = elim (find o t) [
  | none ↦ t
  | some oo ↦ elim (find n t) [
    | some nn ↦ t
    | none ↦ erase o (insert o without_children (insert n (λ nn. oo) t))
  ]
]

-- tree_node::check of a whole tree, by the check of one name.
unfoldable mutual
  pub check : (Name → ℕ → Option ℕ) → Name → TreeNode → Option TreeNode
  check one prefix (node status children) = elim (check_children one prefix children) [
    | none ↦ none
    | some c ↦ some (node status c)
  ]

  pub check_children : (Name → ℕ → Option ℕ) → Name → Children → Option Children
  check_children one prefix end = some end
  check_children one prefix (child k x rest) = elim (one (prefix ++ k ∷ []) (status_of x)) [
    | none ↦ none
    | some status ↦ elim (check one (prefix ++ k ∷ []) x) [
      | none ↦ none
      | some y ↦ elim (check_children one prefix rest) [
        | none ↦ none
        | some later ↦ some (child k (with_status (λ old. status) y) later)
      ]
    ]
  ]

-- The call of the callback for one name.
abbrev pub report : Name → ℕ → List (Name × ℕ)
report name status = if status == 0 then [] else (name, status) ∷ []

-- tree_node::result: the calls of the callback.
unfoldable mutual
  pub result : Name → TreeNode → List (Name × ℕ)
  result prefix (node status children) = result_children prefix children

  pub result_children : Name → Children → List (Name × ℕ)
  result_children prefix end = []
  result_children prefix (child k x rest) =
      report (prefix ++ k ∷ []) (status_of x)
      ++ (result (prefix ++ k ∷ []) x ++ result_children prefix rest)
