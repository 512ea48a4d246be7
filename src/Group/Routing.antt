-- ===== src/Group/Routing.antt =====
-- The activity of the members, `buildRelayTree` with its cache, and the routing over the tree.
-- `locale_before a b` says that `a.localeCompare(b)` is negative: the collation is the platform's.
pub mod Trees
pub mod Reach
use meshwhisper.Common.{
  ℕ, zero, suc, ◌+◌, Bool, true, false, not, ◌&&◌, ◌||◌, List, [], ◌∷◌, ◌++◌, Option, none, some,
  Text, text_eq, keep, ltb, leb, ◌==◌, if◌then◌else◌, map, length,
}
use meshwhisper.Common.Sorting.{sort}
use meshwhisper.Common.TextMap.{TextMap, get, set, keys}
use meshwhisper.Group.{
  GroupState, GroupManager, Result, ok, err, ◌>>=◌, no_members, activity_window_ms,
  require_group_state, put_state,
}
use meshwhisper.Group.Tree.{
  TreeNode, Children, node, leaf, child, peer_of, children_of, find_node, insert_members,
  start_insertion,
}

abbrev pub tree_rebuild_interval_ms : ℕ
tree_rebuild_interval_ms = 60000

-- The timestamps inside the window: `t >= now - ACTIVITY_WINDOW_MS`.
unfoldable pub recent : ℕ → List ℕ → List ℕ
recent now timestamps = keep (λ t. leb now (t + activity_window_ms)) timestamps

unfoldable pub touch : ℕ → Text → GroupState → GroupState
touch now peer_id s = elim (get peer_id s.activity) [
  | none ↦ s
  | some r ↦ record s {
    activity =
        set peer_id
          (record { timestamps = recent now (r.timestamps ++ now ∷ []); last_active = now })
          s.activity;
  }
]

unfoldable pub update_activity : ℕ → Text → Text → GroupManager → Result GroupManager
update_activity now group_id peer_id m = do
  s ← require_group_state group_id m
  ok (put_state group_id (touch now peer_id s) m)

unfoldable pub score_of : ℕ → GroupState → Text → ℕ
score_of now s peer_id = elim (get peer_id s.activity) [
  | none ↦ 0
  | some r ↦ length (recent now r.timestamps)
]

unfoldable pub last_active_of : GroupState → Text → ℕ
last_active_of s peer_id = elim (get peer_id s.activity) [ none ↦ 0 | some r ↦ r.last_active ]

unfoldable pub child_ids : Children → List Text
child_ids leaf = []
child_ids (child t ts) = peer_of t ∷ child_ids ts

-- `collectDescendants`
unfoldable mutual
  pub collect_node : Text → List ℕ → TreeNode → TextMap (List ℕ)
  collect_node sender payload (node peer_id score last children) =
      if text_eq peer_id sender
      then collect sender payload children
      else (peer_id, payload) ∷ collect sender payload children

  pub collect : Text → List ℕ → Children → TextMap (List ℕ)
  collect sender payload leaf = []
  collect sender payload (child t ts) = collect_node sender payload t ++ collect sender payload ts

unfoldable mutual
  pub is_in_subtree : Text → TreeNode → Bool
  is_in_subtree id (node peer_id score last children) =
      text_eq peer_id id || is_in_children id children

  pub is_in_children : Text → Children → Bool
  is_in_children id leaf = false
  is_in_children id (child t ts) = is_in_subtree id t || is_in_children id ts

-- The children that do not lie towards the sender.
unfoldable pub away_from : Text → List ℕ → Children → TextMap (List ℕ)
away_from sender payload leaf = []
away_from sender payload (child t ts) =
    let rest = away_from sender payload ts in
    if text_eq (peer_of t) sender || is_in_subtree sender t
    then rest
    else (peer_of t, payload) ∷ rest

abbrev pub or_else {ℓ} : {A : Type ℓ} → Option A → Option A → Option A
or_else none o = o
or_else (some a) o = some a

-- `findParentInTree`, depth first.
unfoldable mutual
  pub find_parent : Text → TreeNode → Option Text
  find_parent id (node peer_id score last children) = parent_among id peer_id children

  pub parent_among : Text → Text → Children → Option Text
  parent_among id parent leaf = none
  parent_among id parent (child t ts) =
      let deeper = or_else (find_parent id t) (parent_among id parent ts) in
      if text_eq (peer_of t) id then some parent else deeper

unfoldable pub to_parent : Text → List ℕ → Option Text → TextMap (List ℕ)
to_parent sender payload none = []
to_parent sender payload (some parent) =
    if text_eq parent sender then [] else (parent, payload) ∷ []

unfoldable pub route_in_tree : Text → Text → List ℕ → TreeNode → TextMap (List ℕ)
route_in_tree own sender payload t = elim (find_node own t) [
  | none ↦ []
  | some n ↦
      if text_eq sender own
      then collect sender payload (children_of n)
      else away_from sender payload (children_of n) ++ to_parent sender payload (find_parent own t)
]

-- The breadth-first search of `getRelayTarget`: the queue holds nodes with their parents. The fuel
-- is the number of nodes.
unfoldable pub with_parent : Text → Children → List (TreeNode × Option Text)
with_parent parent leaf = []
with_parent parent (child t ts) = (t, some parent) ∷ with_parent parent ts

unfoldable pub search_parent : ℕ → Text → List (TreeNode × Option Text) → Option Text
search_parent zero target queue = none
search_parent (suc fuel) target [] = none
search_parent (suc fuel) target ((t, parent) ∷ queue) =
    let rest = search_parent fuel target (queue ++ with_parent (peer_of t) (children_of t)) in
    if text_eq (peer_of t) target then parent else rest

unfoldable mutual
  pub node_count : TreeNode → ℕ
  node_count (node peer_id score last children) = suc (node_counts children)

  pub node_counts : Children → ℕ
  node_counts leaf = 0
  node_counts (child t ts) = node_count t + node_counts ts

module _ (locale_before : Text → Text → Bool) where
  -- The comparison of the sort: the tree root first, then the higher score, then the id.
  unfoldable pub ranks_before : ℕ → GroupState → Text → Text → Bool
  ranks_before now s a b =
      let root = s.group.tree_root in
      if text_eq a root && not (text_eq b root)
      then true
      else if text_eq b root && not (text_eq a root)
      then false
      else if score_of now s b == score_of now s a
      then locale_before a b
      else ltb (score_of now s b) (score_of now s a)

  unfoldable pub leaf_node : ℕ → GroupState → Text → TreeNode
  leaf_node now s peer_id = node peer_id (score_of now s peer_id) (last_active_of s peer_id) leaf

  -- The tree of the sorted members; with no member there is none.
  unfoldable pub tree_of : ℕ → GroupState → List Text → Option TreeNode
  tree_of now s [] = none
  tree_of now s (c ∷ cs) =
      some (insert_members (map (leaf_node now s) cs) (start_insertion (leaf_node now s c))).tree

  unfoldable pub sorted_members : ℕ → GroupState → List Text
  sorted_members now s = sort (ranks_before now s) (keys s.group.members)

  unfoldable pub is_fresh : ℕ → GroupState → Bool
  is_fresh now s = ltb now (s.last_tree_build + tree_rebuild_interval_ms)

  unfoldable pub rebuild : ℕ → GroupState → Result (GroupState × TreeNode)
  rebuild now s = elim (tree_of now s (sorted_members now s)) [
    | none ↦ err no_members
    | some t ↦ ok (record s { relay_tree = some t; last_tree_build = now }, t)
  ]

  unfoldable pub build_tree : ℕ → GroupState → Result (GroupState × TreeNode)
  build_tree now s = elim s.relay_tree [
    | none ↦ rebuild now s
    | some t ↦ if is_fresh now s then ok (s, t) else rebuild now s
  ]

  unfoldable pub build_relay_tree : ℕ → Text → GroupManager → Result (GroupManager × TreeNode)
  build_relay_tree now group_id m = do
    s ← require_group_state group_id m
    r ← build_tree now s
    ok (put_state group_id r.0 m, r.1)

  unfoldable pub get_relay_children : ℕ → Text → GroupManager → Result (GroupManager × List Text)
  get_relay_children now group_id m = do
    r ← build_relay_tree now group_id m
    ok (
      r.0,
      elim (find_node m.local_peer_id r.1) [ none ↦ [] | some n ↦ child_ids (children_of n) ],
    )

  unfoldable pub route_group_message :
      ℕ → Text → List ℕ → Text → GroupManager → Result (GroupManager × TextMap (List ℕ))
  route_group_message now group_id ciphertext sender_id m = do
    r ← build_relay_tree now group_id m
    ok (r.0, route_in_tree m.local_peer_id sender_id ciphertext r.1)

  unfoldable pub get_relay_target :
      ℕ → Text → Text → GroupManager → Result (GroupManager × Option Text)
  get_relay_target now group_id target m = do
    r ← build_relay_tree now group_id m
    ok (r.0, search_parent (node_count r.1) target ((r.1, none) ∷ []))
