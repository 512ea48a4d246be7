-- ===== src/Group/Tree.antt =====
-- The relay tree of a group: its nodes, and the loop of `buildRelayTree` that inserts the sorted
-- members breadth first. The source's nodes are shared objects; here the queue holds their ids, which
-- are distinct, and pushing to a node's children is `add_child` in the whole tree.
pub mod Places
pub mod Nodes
pub mod Balance
use meshwhisper.Common.{
  ℕ, zero, suc, ◌+◌, true, false, List, [], ◌∷◌, ◌++◌, Option, none, some, Text, text_discrete,
  text_eq, ltb, length, get_elem?, if◌then◌else◌,
}

mutual
  pub data TreeNode : Type 0 where
    node : Text → ℕ → ℕ → Children → TreeNode

  pub data Children : Type 0 where
    leaf : Children
    child : TreeNode → Children → Children

unfoldable pub peer_of : TreeNode → Text
peer_of (node peer_id score last children) = peer_id

unfoldable pub children_of : TreeNode → Children
children_of (node peer_id score last children) = children

unfoldable pub count : Children → ℕ
count leaf = 0
count (child t ts) = suc (count ts)

unfoldable pub push_child : TreeNode → Children → Children
push_child t leaf = child t leaf
push_child t (child u us) = child u (push_child t us)

-- `queue[queueIdx].children.push(child)`: the node with the given id gets one more child.
unfoldable mutual
  unfolding push_child text_discrete

  pub add_child : Text → TreeNode → TreeNode → TreeNode
  add_child parent t (node peer_id score last children) =
      node peer_id score last
        (if text_eq peer_id parent then push_child t children else add_below parent t children)

  pub add_below : Text → TreeNode → Children → Children
  add_below parent t leaf = leaf
  add_below parent t (child u us) = child (add_child parent t u) (add_below parent t us)

-- The first node with an id, in depth-first order: `findNodeInTree`.
abbrev pub or_next : Option TreeNode → Option TreeNode → Option TreeNode
or_next none o = o
or_next (some t) o = some t

unfoldable mutual
  unfolding text_discrete

  pub find_node : Text → TreeNode → Option TreeNode
  find_node id (node peer_id score last children) =
      let below = find_below id children in
      if text_eq peer_id id then some (node peer_id score last children) else below

  pub find_below : Text → Children → Option TreeNode
  find_below id leaf = none
  find_below id (child t ts) = or_next (find_node id t) (find_below id ts)

-- The ids of a tree, parents first.
unfoldable mutual
  pub ids : TreeNode → List Text
  ids (node peer_id score last children) = peer_id ∷ ids_below children

  pub ids_below : Children → List Text
  ids_below leaf = []
  ids_below (child t ts) = ids t ++ ids_below ts

-- `queue[queueIdx].children.length`
unfoldable pub child_count : Text → TreeNode → ℕ
unfolding count children_of find_node
child_count id t = elim (find_node id t) [ none ↦ 0 | some n ↦ count (children_of n) ]

abbrev pub max_children : ℕ
max_children = 2

-- `while (queueIdx < queue.length && queue[queueIdx].children.length >= MAX_CHILDREN) queueIdx++`;
-- the fuel is the number of places of the queue.
unfoldable pub next_parent : ℕ → List Text → ℕ → TreeNode → ℕ
next_parent zero queue i t = i
next_parent (suc fuel) queue i t = elim (get_elem? queue i) [
  | none ↦ i
  | some id ↦ elim (ltb (child_count id t) max_children) [
    | true ↦ i
    | false ↦ next_parent fuel queue (i + 1) t
  ]
]

-- The loop over the sorted members behind the first.
pub record Insertion : Type 0 where
  pub tree : TreeNode
  pub queue : List Text
  pub position : ℕ

unfoldable pub insert_at : TreeNode → Insertion → ℕ → Insertion
insert_at t s i = elim (get_elem? s.queue i) [
  | none ↦ record s { position = i }
  | some parent ↦ record {
    tree = add_child parent t s.tree;
    queue = s.queue ++ peer_of t ∷ [];
    position = i;
  }
]

unfoldable pub insert_member : TreeNode → Insertion → Insertion
insert_member t s = insert_at t s (next_parent (length s.queue) s.queue s.position s.tree)

unfoldable pub insert_members : List TreeNode → Insertion → Insertion
insert_members [] s = s
insert_members (t ∷ ts) s = insert_members ts (insert_member t s)

unfoldable pub start_insertion : TreeNode → Insertion
start_insertion t = record { tree = t; queue = peer_of t ∷ []; position = 0 }
