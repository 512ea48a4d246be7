-- ===== src/Group/Routing/Reach.antt =====
-- Whom `routeGroupMessage` reaches from the peer that sends.
use meshwhisper.Common.{
  ℕ, ◌≡◌, ◌≢◌, refl, sym, ap, ◌∙◌, subst, Bool, true, false, not, ◌&&◌, List, [], ◌∷◌, ◌++◌, some,
  Text, text_eq, mem, mem-append, AllDistinct, arith, Bool-cases, Option-cases, inl, inr, keep,
}
use meshwhisper.Common.TextMap.{TextMap, has, keys}
use meshwhisper.Group.{GroupMember}
use meshwhisper.Group.Tree.{
  TreeNode, Children, node, leaf, child, peer_of, children_of, find_node, find_below, ids,
  ids_below,
}
use meshwhisper.Group.Routing.{collect_node, collect, route_in_tree}
use meshwhisper.Group.Routing.Trees.{Covers}

keys-append {ℓ} : {V : Type ℓ} (m n : TextMap V) → keys (m ++ n) ≡ keys m ++ keys n
unfolding keys
keys-append [] n = refl
keys-append ((k, v) ∷ m) n = ap (◌∷◌ k) (keys-append m n)

keep-append {ℓ} :
    {A : Type ℓ} (p : A → Bool) (xs ys : List A) → keep p (xs ++ ys) ≡ keep p xs ++ keep p ys
keep-append p [] ys = refl
keep-append p (x ∷ xs) ys = ground (arith, keep-append p xs ys)

mem-keep : (p : Text → Bool) (j : Text) (xs : List Text) → mem j (keep p xs) ≡ (mem j xs && p j)
unfolding mem
mem-keep p j [] = refl
mem-keep p j (x ∷ xs) = ground (arith, mem-keep p j xs)

keep-AllDistinct : (p : Text → Bool) (xs : List Text) → AllDistinct xs → AllDistinct (keep p xs)
keep-AllDistinct p [] d = tt
keep-AllDistinct p (x ∷ xs) d = elim (Bool-cases (p x)) [
  | inl e ↦ rw (keep, e) (ground (arith, mem-keep p x xs), keep-AllDistinct p xs d.1)
  | inr e ↦ rw (keep, e) (keep-AllDistinct p xs d.1)
]

module _ (sender : Text) (payload : List ℕ) where
  abbrev others : List Text → List Text
  others xs = keep (λ j. not (text_eq j sender)) xs

  mutual
    unfolding collect_node collect ids ids_below keys

    keys-collect_node : (t : TreeNode) → keys (collect_node sender payload t) ≡ others (ids t)
    keys-collect_node (node x a b us) = ground (arith, keys-collect us)

    keys-collect : (us : Children) → keys (collect sender payload us) ≡ others (ids_below us)
    keys-collect leaf = refl
    keys-collect (child t ts) =
        keys-append (collect_node sender payload t) (collect sender payload ts)
        ∙ ap (λ xs. xs ++ keys (collect sender payload ts)) (keys-collect_node t)
        ∙ ap (λ xs. others (ids t) ++ xs) (keys-collect ts)
        ∙ sym (keep-append (λ j. not (text_eq j sender)) (ids t) (ids_below ts))

-- A node that is found holds only ids of the tree.
mutual
  unfolding find_node find_below ids ids_below mem

  find_node-mem :
      (own j : Text) (t n : TreeNode)
      → find_node own t ≡ some n
      → mem j (ids n) ≡ true
      → mem j (ids t) ≡ true
  find_node-mem own j (node x a b us) n e m = elim (Bool-cases (text_eq x own)) [
    | inl here ↦ ground arith
    | inr below ↦ ground (arith, find_below-mem own j us n)
  ]

  find_below-mem :
      (own j : Text) (us : Children) (n : TreeNode)
      → find_below own us ≡ some n
      → mem j (ids n) ≡ true
      → mem j (ids_below us) ≡ true
  find_below-mem own j leaf n e m = absurd (ground arith)
  find_below-mem own j (child t ts) n e m = elim (Option-cases (find_node own t)) [
    | inl none_here ↦ ground (arith, find_below-mem own j ts n, mem-append j (ids t) (ids_below ts))
    | inr (k, here) ↦ ground (arith, find_node-mem own j t n, mem-append j (ids t) (ids_below ts))
  ]

module _ (own : Text) (payload : List ℕ) where
  -- The targets of a message of the peer's own.
  keys-route_in_tree :
      (t n : TreeNode)
      → find_node own t ≡ some n
      → keys (route_in_tree own own payload t) ≡ others own payload (ids_below (children_of n))
  unfolding route_in_tree
  keys-route_in_tree t n e =
      let same : text_eq own own ≡ true = ground arith in
      rw (route_in_tree, e, same) (keys-collect own payload (children_of n))

  find_node_root : (t : TreeNode) → peer_of t ≡ own → find_node own t ≡ some t
  unfolding find_node peer_of
  find_node_root (node x a b us) e = ground arith

  ids_cons : (t : TreeNode) → ids t ≡ peer_of t ∷ ids_below (children_of t)
  unfolding ids peer_of children_of
  ids_cons (node x a b us) = refl

  -- From the root.
  -- When the local peer is the root of a tree that covers the members, a message of its own goes to every
  -- other member and to nobody else, to each once.
  pub root_reaches_all :
      (members : TextMap GroupMember) (t : TreeNode)
      → Covers members t
      → peer_of t ≡ own
      → ((j : Text)
          → mem j (keys (route_in_tree own own payload t)) ≡ (has j members && not (text_eq j own)))
        × AllDistinct (keys (route_in_tree own own payload t))
  unfolding mem
  root_reaches_all members t c root =
      let below = ids_below (children_of t) in
      let targets = keys-route_in_tree t t (find_node_root t root) in
      let once : AllDistinct (peer_of t ∷ below) = subst AllDistinct (ids_cons t) c.once in
      (
        (λ j.
            ap (mem j) targets
            ∙ ground (
              arith,
              mem-keep (λ k. not (text_eq k own)) j below,
              c.members_in j,
              ap (mem j) (ids_cons t),
            )),
        subst AllDistinct (sym targets) (keep-AllDistinct (λ k. not (text_eq k own)) below once.1),
      )

  find_node_below :
      (t n : TreeNode)
      → own ≢ peer_of t
      → find_node own t ≡ some n
      → find_below own (children_of t) ≡ some n
  unfolding find_node peer_of children_of
  find_node_below (node x a b us) n apart e = ground arith

  mem-children_of :
      (j : Text) (n : TreeNode) → mem j (ids_below (children_of n)) ≡ true → mem j (ids n) ≡ true
  unfolding mem
  mem-children_of j n m = ground (arith, ap (mem j) (ids_cons n))

  -- From another peer.
  -- When the local peer is not the root of a tree that covers the members, a message of its own does not
  -- go to the root.
  pub root_is_missed :
      (members : TextMap GroupMember) (t : TreeNode)
      → Covers members t
      → own ≢ peer_of t
      → mem (peer_of t) (keys (route_in_tree own own payload t)) ≡ false
  unfolding mem route_in_tree keys
  root_is_missed members t c apart = elim (Option-cases (find_node own t)) [
    | inl e ↦ rw (route_in_tree, e) refl
    | inr (n, e) ↦
        let once : AllDistinct (peer_of t ∷ ids_below (children_of t)) =
          subst AllDistinct (ids_cons t) c.once in
        ap (mem (peer_of t)) (keys-route_in_tree t n e)
        ∙ ground (
          arith,
          mem-keep (λ k. not (text_eq k own)) (peer_of t) (ids_below (children_of n)),
          once.0,
          mem-children_of (peer_of t) n,
          find_below-mem own (peer_of t) (children_of t) n (find_node_below t n apart e),
        )
  ]
