-- ===== src/Group/Tree/Nodes.antt =====
-- What `add_child` does to the ids of a tree and to the number of children of each node.
use meshwhisper.Common.{
  ℕ, ◌+◌, ◌≡◌, ◌≢◌, refl, ap, false, ◌&&◌, ◌||◌, Option, none, some, Text, text_eq, mem, mem-append,
  AllDistinct, arith, if◌then◌else◌, append-AllDistinct_of_disjoint, append-AllDistinct_inv,
  Bool-cases, inl, inr,
}
use meshwhisper.Common.TextMap.Laws.{is_some}
use meshwhisper.Group.Tree.{
  TreeNode, Children, node, leaf, child, children_of, count, push_child, add_child, add_below,
  or_next, find_node, find_below, ids, ids_below, child_count,
}

abbrev pub count_of : Option TreeNode → ℕ
count_of none = 0
count_of (some n) = count (children_of n)

pub child_count_lem : (id : Text) (t : TreeNode) → child_count id t ≡ count_of (find_node id t)
unfolding child_count
child_count_lem id t = ground arith

-- A new member's node.
abbrev pub IsLeaf : Text → TreeNode → Type 0
IsLeaf c t = (score : ℕ) × (last : ℕ) × (t ≡ node c score last leaf)

mutual
  unfolding ids ids_below find_node find_below mem

  pub find_node-some : (id : Text) (u : TreeNode) → is_some (find_node id u) ≡ mem id (ids u)
  find_node-some id (node x a b us) = ground (arith, find_below-some id us)

  find_below-some : (id : Text) (us : Children) → is_some (find_below id us) ≡ mem id (ids_below us)
  find_below-some id leaf = refl
  find_below-some id (child u us) =
      ground
        (arith, find_node-some id u, find_below-some id us, mem-append id (ids u) (ids_below us))

count-or_next :
    (o p : Option TreeNode)
    → count_of (or_next o p) ≡ (if is_some o then count_of o else count_of p)
count-or_next none p = refl
count-or_next (some t) p = refl

pub count_of-is_some : (o : Option TreeNode) → is_some o ≡ false → count_of o ≡ 0
count_of-is_some o h = ground arith

module _ (parent c : Text) (score last : ℕ) where
  abbrev added : TreeNode
  added = node c score last leaf

  mem-push_child :
      (j : Text) (us : Children)
      → mem j (ids_below (push_child added us)) ≡ (mem j (ids_below us) || text_eq c j)
  unfolding ids ids_below push_child mem
  mem-push_child j leaf = ground arith
  mem-push_child j (child u us) = ground (
    arith,
    mem-push_child j us,
    mem-append j (ids u) (ids_below us),
    mem-append j (ids u) (ids_below (push_child added us)),
  )

  mutual
    unfolding ids ids_below add_child add_below mem

    pub mem-add_child :
        (j : Text) (u : TreeNode)
        → mem j (ids (add_child parent added u))
          ≡ (mem j (ids u) || (mem parent (ids u) && text_eq c j))
    mem-add_child j (node x a b us) = ground (arith, mem-push_child j us, mem-add_below j us)

    mem-add_below :
        (j : Text) (us : Children)
        → mem j (ids_below (add_below parent added us))
          ≡ (mem j (ids_below us) || (mem parent (ids_below us) && text_eq c j))
    mem-add_below j leaf = refl
    mem-add_below j (child u us) = ground (
      arith,
      mem-add_child j u,
      mem-add_below j us,
      mem-append j (ids u) (ids_below us),
      mem-append parent (ids u) (ids_below us),
      mem-append j (ids (add_child parent added u)) (ids_below (add_below parent added us)),
    )

  count-push_child : (us : Children) → count (push_child added us) ≡ count us + 1
  unfolding count push_child
  count-push_child leaf = omega arith
  count-push_child (child u us) = omega (arith, count-push_child us)

  count-add_below : (us : Children) → count (add_below parent added us) ≡ count us
  unfolding count add_below
  count-add_below leaf = refl
  count-add_below (child u us) = omega (arith, count-add_below us)

  find_below-push_child :
      (j : Text) (us : Children) → c ≢ j → find_below j (push_child added us) ≡ find_below j us
  unfolding find_below find_node push_child
  find_below-push_child j leaf h = ground arith
  find_below-push_child j (child u us) h =
      ap (or_next (find_node j u)) (find_below-push_child j us h)

  mutual
    unfolding find_node find_below add_child add_below ids ids_below mem children_of

    pub count-find_node :
        (j : Text) (u : TreeNode)
        → c ≢ j
        → count_of (find_node j (add_child parent added u))
          ≡ count_of (find_node j u)
            + (if text_eq parent j then (if mem parent (ids u) then 1 else 0) else 0)
    count-find_node j (node x a b us) h = ground (
      arith,
      count-push_child us,
      count-add_below us,
      find_below-push_child j us h,
      count-find_below j us h,
    )

    count-find_below :
        (j : Text) (us : Children)
        → c ≢ j
        → count_of (find_below j (add_below parent added us))
          ≡ count_of (find_below j us)
            + (if text_eq parent j then (if mem parent (ids_below us) then 1 else 0) else 0)
    count-find_below j leaf h = ground arith
    count-find_below j (child u us) h = ground (
      arith,
      count-or_next (find_node j u) (find_below j us),
      count-or_next (find_node j (add_child parent added u))
          (find_below j (add_below parent added us)),
      find_node-some j u,
      find_node-some j (add_child parent added u),
      mem-add_child j u,
      mem-append parent (ids u) (ids_below us),
      count-find_node j u h,
      count-find_below j us h,
      count_of-is_some (find_node j u),
    )

  find_below-push_child_new :
      (us : Children)
      → mem c (ids_below us) ≡ false
      → count_of (find_below c (push_child added us)) ≡ 0
  unfolding find_below find_node push_child ids_below mem count children_of
  find_below-push_child_new leaf h = ground arith
  find_below-push_child_new (child u us) h = ground (
    arith,
    count-or_next (find_node c u) (find_below c (push_child added us)),
    find_node-some c u,
    mem-append c (ids u) (ids_below us),
    find_below-push_child_new us,
  )

  mutual
    unfolding find_node find_below add_child add_below ids ids_below mem children_of

    pub count-find_node_new :
        (u : TreeNode)
        → mem c (ids u) ≡ false
        → count_of (find_node c (add_child parent added u)) ≡ 0
    count-find_node_new (node x a b us) h =
        ground (arith, find_below-push_child_new us, count-find_below_new us)

    count-find_below_new :
        (us : Children)
        → mem c (ids_below us) ≡ false
        → count_of (find_below c (add_below parent added us)) ≡ 0
    count-find_below_new leaf h = refl
    count-find_below_new (child u us) h = ground (
      arith,
      count-or_next (find_node c (add_child parent added u))
          (find_below c (add_below parent added us)),
      mem-append c (ids u) (ids_below us),
      count-find_node_new u,
      count-find_below_new us,
    )

  push_child-AllDistinct :
      (us : Children)
      → AllDistinct (ids_below us)
      → mem c (ids_below us) ≡ false
      → AllDistinct (ids_below (push_child added us))
  unfolding push_child ids ids_below mem
  push_child-AllDistinct leaf d h = (refl, tt)
  push_child-AllDistinct (child u us) d h =
      let (du, dus, apart) = append-AllDistinct_inv (ids u) (ids_below us) d in
      append-AllDistinct_of_disjoint (ids u) (ids_below (push_child added us)) du
        (push_child-AllDistinct us dus (ground (arith, mem-append c (ids u) (ids_below us))))
        (λ j m. ground (arith, apart j m, mem-push_child j us, mem-append c (ids u) (ids_below us)))

  mutual
    unfolding add_child add_below ids ids_below mem

    pub add_child-AllDistinct :
        (u : TreeNode)
        → AllDistinct (ids u)
        → mem c (ids u) ≡ false
        → AllDistinct (ids (add_child parent added u))
    add_child-AllDistinct (node x a b us) d h = elim (Bool-cases (text_eq x parent)) [
      | inl here ↦
          rw (here, add_child)
            (ground (arith, mem-push_child x us), push_child-AllDistinct us d.1 (ground arith))
      | inr below ↦
          rw (below, add_child)
            (ground (arith, mem-add_below x us), add_below-AllDistinct us d.1 (ground arith))
    ]

    add_below-AllDistinct :
        (us : Children)
        → AllDistinct (ids_below us)
        → mem c (ids_below us) ≡ false
        → AllDistinct (ids_below (add_below parent added us))
    add_below-AllDistinct leaf d h = tt
    add_below-AllDistinct (child u us) d h =
        let (du, dus, apart) = append-AllDistinct_inv (ids u) (ids_below us) d in
        append-AllDistinct_of_disjoint (ids (add_child parent added u))
          (ids_below (add_below parent added us))
          (add_child-AllDistinct u du (ground (arith, mem-append c (ids u) (ids_below us))))
          (add_below-AllDistinct us dus (ground (arith, mem-append c (ids u) (ids_below us))))
          (λ j m. ground (
            arith,
            apart j,
            apart parent,
            mem-add_child j u,
            mem-add_below j us,
            mem-append c (ids u) (ids_below us),
          ))
