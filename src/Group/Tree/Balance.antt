-- ===== src/Group/Tree/Balance.antt =====
-- The insertion loop of `buildRelayTree`: the members that it inserts and the children of each node.
use meshwhisper.Common.{
  ℕ, suc, ◌+◌, ◌-◌, ◌*◌, ◌<◌, ◌≤◌, ◌≡◌, refl, sym, ap, ◌∙◌, true, false, List, [], ◌∷◌, ◌++◌, some,
  Text, text_eq, mem, mem-append, AllDistinct, append-AllDistinct, append-AllDistinct_inv,
  append_assoc, append-nil, map, subst, arith, if◌then◌else◌, Bool-cases, inl, inr, Option-cases,
  length, length-append, get_elem?, ltb,
}
use meshwhisper.Group.Tree.{
  TreeNode, node, leaf, peer_of, count, children_of, add_child, find_node, find_below, ids,
  ids_below, child_count, next_parent, Insertion, insert_at, insert_member, insert_members,
  start_insertion,
}
use meshwhisper.Group.Tree.Places.{
  mem-get_elem?, get_elem?_injective, get_elem?-below, get_elem?-append_inv, get_elem?-append_left,
}
use meshwhisper.Group.Tree.Nodes.{
  child_count_lem, mem-add_child, count-find_node, count-find_node_new, add_child-AllDistinct,
}

-- The queue holds the ids of the tree. The nodes before the position have two children each, the one
-- at the position at most two, and those behind it none.
pub record IsBalanced (s : Insertion) : Type 0 where
  pub same : (j : Text) → mem j (ids s.tree) ≡ mem j s.queue
  pub tree_distinct : AllDistinct (ids s.tree)
  pub queue_distinct : AllDistinct s.queue
  pub parent : Text
  pub here : get_elem? s.queue s.position ≡ some parent
  pub filled : length s.queue ≡ 1 + 2 * s.position + child_count parent s.tree
  pub bounded : (j : Text) → child_count j s.tree ≤ 2
  pub later :
      (i : ℕ) (a : Text) → s.position < i → get_elem? s.queue i ≡ some a → child_count a s.tree ≡ 0

module _ (q : List Text) (i : ℕ) (t : TreeNode) (p : Text) where
  next_parent_here :
      (fuel : ℕ)
      → get_elem? q i ≡ some p
      → ltb (child_count p t) 2 ≡ true
      → next_parent (suc fuel) q i t ≡ i
  unfolding next_parent
  next_parent_here fuel at room = ground arith

  next_parent_skip :
      (r : Text) (fuel : ℕ)
      → get_elem? q i ≡ some p
      → ltb (child_count p t) 2 ≡ false
      → get_elem? q (i + 1) ≡ some r
      → ltb (child_count r t) 2 ≡ true
      → next_parent (suc (suc fuel)) q i t ≡ i + 1
  unfolding next_parent
  next_parent_skip r fuel at full next room = ground arith

module _ (c : Text) (score last : ℕ) (s : Insertion) (v : IsBalanced s)
    (fresh : mem c s.queue ≡ false) where
  abbrev added : TreeNode
  added = node c score last leaf

  -- The counts after a node of the tree has got the new child.
  child_count-add_child :
      (p : Text)
      → mem p s.queue ≡ true
      → (j : Text)
      → child_count j (add_child p added s.tree)
        ≡ (if text_eq c j then 0 else child_count j s.tree + (if text_eq p j then 1 else 0))
  child_count-add_child p m j = ground (
    arith,
    child_count_lem j (add_child p added s.tree),
    child_count_lem j s.tree,
    v.same c,
    v.same p,
    count-find_node p c score last j s.tree,
    count-find_node_new p c score last s.tree,
  )

  -- What the loop does once the place of the parent is known.
  grow :
      (i : ℕ) (p : Text)
      → get_elem? s.queue i ≡ some p
      → length s.queue ≡ 1 + 2 * i + child_count p s.tree
      → child_count p s.tree < 2
      → ((k : ℕ) (a : Text) → i < k → get_elem? s.queue k ≡ some a → child_count a s.tree ≡ 0)
      → IsBalanced
          (record { tree = add_child p added s.tree; queue = s.queue ++ c ∷ []; position = i })
  unfolding mem
  grow i p at full room after =
      let inside = mem-get_elem? s.queue i p at in
      record {
        same = λ j. ground (
          arith,
          mem-add_child p c score last j s.tree,
          mem-append j s.queue (c ∷ []),
          v.same j,
          v.same p,
        );
        tree_distinct =
            add_child-AllDistinct p c score last s.tree v.tree_distinct (v.same c ∙ fresh);
        queue_distinct = append-AllDistinct c s.queue v.queue_distinct fresh;
        parent = p;
        here = get_elem?-append_left s.queue c i p at;
        filled =
            ground (arith, child_count-add_child p inside p, length-append {0} s.queue (c ∷ []));
        bounded = λ j. ground (arith, child_count-add_child p inside j, v.bounded j);
        later = λ k a l e. ground (
          arith,
          get_elem?-append_inv s.queue c k a e,
          after k a l,
          child_count-add_child p inside a,
          get_elem?_injective s.queue i k p v.queue_distinct at,
        );
      }

  -- One round at the place `i`.
  insert_at-IsBalanced :
      (i : ℕ) (p : Text)
      → get_elem? s.queue i ≡ some p
      → length s.queue ≡ 1 + 2 * i + child_count p s.tree
      → child_count p s.tree < 2
      → ((k : ℕ) (a : Text) → i < k → get_elem? s.queue k ≡ some a → child_count a s.tree ≡ 0)
      → IsBalanced (insert_at added s i) × ((insert_at added s i).queue ≡ s.queue ++ c ∷ [])
  unfolding insert_at peer_of
  insert_at-IsBalanced i p at full room after =
      rw (insert_at, at) (grow i p at full room after, refl)

  -- One round.
  insert_member-IsBalanced :
      IsBalanced (insert_member added s) × ((insert_member added s).queue ≡ s.queue ++ c ∷ [])
  unfolding insert_member
  insert_member-IsBalanced = elim (Bool-cases (ltb (child_count v.parent s.tree) 2)) [
    | inl room ↦
        let e : length s.queue ≡ suc (length s.queue - 1) = omega (arith, v.filled) in
        rw
          (ap (λ n. next_parent n s.queue s.position s.tree) e
            ∙ next_parent_here s.queue s.position s.tree v.parent (length s.queue - 1) v.here room)
          (insert_at-IsBalanced s.position v.parent v.here v.filled (ground arith) v.later)
    | inr full ↦
        let (p, at) =
          get_elem?-below s.queue (s.position + 1) (ground (arith, v.filled, v.bounded v.parent)) in
        let none_yet = v.later (s.position + 1) p (omega arith) at in
        let e : length s.queue ≡ suc (suc (length s.queue - 2)) =
          ground (arith, v.filled, v.bounded v.parent) in
        rw
          (ap (λ n. next_parent n s.queue s.position s.tree) e
            ∙ next_parent_skip s.queue s.position s.tree v.parent p (length s.queue - 2) v.here full
                at (ground arith))
          (insert_at-IsBalanced (s.position + 1) p at (ground (arith, v.filled, v.bounded v.parent))
            (ground arith) (λ k a l. v.later k a (omega arith)))
  ]

-- The first node alone.
start_insertion-IsBalanced :
    (c : Text) (score last : ℕ) → IsBalanced (start_insertion (node c score last leaf))
unfolding start_insertion peer_of ids ids_below mem child_count find_node find_below count
    children_of
start_insertion-IsBalanced c score last = record {
  same = λ j. refl;
  tree_distinct = (refl, tt);
  queue_distinct = (refl, tt);
  parent = c;
  here = refl;
  filled = ground arith;
  bounded = λ j. ground arith;
  later = λ i a l e. ground arith;
}

absent :
    (c : Text) (cs q : List Text)
    → ((j : Text) → mem j q ≡ true → mem j (c ∷ cs) ≡ false)
    → mem c q ≡ false
unfolding mem
absent c cs q h = ground (arith, h c)

peer_of-add_child : (p : Text) (t u : TreeNode) → peer_of (add_child p t u) ≡ peer_of u
unfolding peer_of add_child
peer_of-add_child p t (node x a b us) = refl

peer_of-insert_at :
    (t : TreeNode) (s : Insertion) (i : ℕ) → peer_of (insert_at t s i).tree ≡ peer_of s.tree
unfolding insert_at
peer_of-insert_at t s i = elim (Option-cases (get_elem? s.queue i)) [
  | inl e ↦ rw (e, insert_at) refl
  | inr (p, e) ↦ rw (e, insert_at) (peer_of-add_child p t s.tree)
]

module _ (score last : Text → ℕ) where
  abbrev pub leaf_of : Text → TreeNode
  leaf_of c = node c (score c) (last c) leaf

  -- The loop.
  insert_members-IsBalanced :
      (cs : List Text) (s : Insertion)
      → IsBalanced s
      → AllDistinct (s.queue ++ cs)
      → IsBalanced (insert_members (map leaf_of cs) s)
        × ((insert_members (map leaf_of cs) s).queue ≡ s.queue ++ cs)
  unfolding insert_members
  insert_members-IsBalanced [] s v d = (v, sym (append-nil s.queue))
  insert_members-IsBalanced (c ∷ cs) s v d =
      let (_, _, apart) = append-AllDistinct_inv s.queue (c ∷ cs) d in
      let fresh : mem c s.queue ≡ false = absent c cs s.queue apart in
      let (w, grown) = insert_member-IsBalanced c (score c) (last c) s v fresh in
      let whole : (insert_member (leaf_of c) s).queue ++ cs ≡ s.queue ++ (c ∷ cs) =
        ap (λ q. q ++ cs) grown ∙ append_assoc s.queue (c ∷ []) cs in
      let (x, queue) =
        insert_members-IsBalanced cs (insert_member (leaf_of c) s) w
          (subst AllDistinct (sym whole) d) in
      (x, queue ∙ whole)

  peer_of-insert_members :
      (cs : List Text) (s : Insertion)
      → peer_of (insert_members (map leaf_of cs) s).tree ≡ peer_of s.tree
  unfolding insert_members insert_member
  peer_of-insert_members [] s = refl
  peer_of-insert_members (c ∷ cs) s =
      peer_of-insert_members cs (insert_member (leaf_of c) s)
      ∙ peer_of-insert_at (leaf_of c) s (next_parent (length s.queue) s.queue s.position s.tree)

  -- The tree of a list of members without repetitions holds each of them once, the first of them at
  -- the root, and no node of it has more than two children.
  pub grow_tree_lem :
      (c : Text) (cs : List Text)
      → AllDistinct (c ∷ cs)
      → let t = (insert_members (map leaf_of cs) (start_insertion (leaf_of c))).tree in
        ((j : Text) → mem j (ids t) ≡ mem j (c ∷ cs))
        × AllDistinct (ids t)
        × ((j : Text) → child_count j t ≤ 2)
        × (peer_of t ≡ c)
  unfolding start_insertion peer_of
  grow_tree_lem c cs d =
      let (v, queue) =
        insert_members-IsBalanced cs (start_insertion (leaf_of c))
          (start_insertion-IsBalanced c (score c) (last c)) d in
      (
        (λ j. v.same j ∙ ap (mem j) queue),
        v.tree_distinct,
        v.bounded,
        peer_of-insert_members cs (start_insertion (leaf_of c)),
      )
