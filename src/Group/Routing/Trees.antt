-- ===== src/Group/Routing/Trees.antt =====
-- `buildRelayTree`: the tree that it builds or takes from the cache, against the members.
use meshwhisper.Common.{
  ℕ, ◌≤◌, ◌≡◌, ◌⊎◌, sym, ok-injective, refl, ap, ◌∙◌, subst, Bool, true, List, [], ◌∷◌, Option,
  none, some, Text, mem, AllDistinct, arith, if◌then◌else◌, Bool-cases, Option-cases, inl, inr, map,
}
use meshwhisper.Common.Sorting.{sort, mem-sort, sort-AllDistinct}
use meshwhisper.Common.TextMap.{TextMap, has, keys, Distinct}
use meshwhisper.Common.TextMap.Laws.{mem-keys, keys-AllDistinct}
use meshwhisper.Group.{GroupMember, GroupState, GroupError, no_members, Result, ok, err}
use meshwhisper.Group.Tree.{TreeNode, insert_members, start_insertion, ids, child_count}
use meshwhisper.Group.Tree.Balance.{grow_tree_lem, leaf_of}
use meshwhisper.Group.Routing.{
  leaf_node, tree_of, sorted_members, is_fresh, rebuild, build_tree, ranks_before, score_of,
  last_active_of,
}

-- The tree holds the members of the group, each once, and its nodes have at most two children.
pub record Covers (members : TextMap GroupMember) (t : TreeNode) : Type 0 where
  pub members_in : (j : Text) → mem j (ids t) ≡ has j members
  pub once : AllDistinct (ids t)
  pub binary : (j : Text) → child_count j t ≤ 2

abbrev pub CacheCovers : TextMap GroupMember → Option TreeNode → Type 0
CacheCovers members none = Unit
CacheCovers members (some t) = Covers members t

-- A cached tree holds exactly the members.
abbrev pub IsCurrent : GroupState → Type 0
IsCurrent s = Distinct s.group.members × CacheCovers s.group.members s.relay_tree

-- The members have no key twice, and a cached tree holds exactly the members.
module _ (locale_before : Text → Text → Bool) (now : ℕ) where
  abbrev Holds : List Text → TreeNode → Type 0
  Holds cs t =
      ((j : Text) → mem j (ids t) ≡ mem j cs)
      × AllDistinct (ids t)
      × ((j : Text) → child_count j t ≤ 2)

  tree_of_lem :
      (s : GroupState) (cs : List Text) (p : Text)
      → AllDistinct cs
      → mem p cs ≡ true
      → (t : TreeNode) × (tree_of locale_before now s cs ≡ some t) × Holds cs t
  unfolding tree_of leaf_node mem
  tree_of_lem s [] p d m = cc
  tree_of_lem s (c ∷ cs) p d m =
      let (inside, once, binary, _) = grow_tree_lem (score_of now s) (last_active_of s) c cs d in
      (
        (insert_members (map (leaf_of (score_of now s) (last_active_of s)) cs)
            (start_insertion (leaf_of (score_of now s) (last_active_of s) c))).tree,
        refl,
        (inside, once, binary),
      )

  rebuild_lem :
      (s : GroupState) (p : Text)
      → Distinct s.group.members
      → has p s.group.members ≡ true
      → (t : TreeNode) × (rebuild locale_before now s
          ≡ ok (record s { relay_tree = some t; last_tree_build = now }, t))
        × Covers s.group.members t
  unfolding rebuild sorted_members
  rebuild_lem s p d m =
      let before = ranks_before locale_before now s in
      let names = keys s.group.members in
      let same : (j : Text) → mem j (sort before names) ≡ has j s.group.members =
        λ j. mem-sort before j names ∙ mem-keys j s.group.members in
      let (t, e, (inside, once, binary)) =
        tree_of_lem s (sort before names) p
          (sort-AllDistinct before names (keys-AllDistinct s.group.members d)) (same p ∙ m) in
      (
        t,
        rw (rebuild, e) refl,
        record { members_in = λ j. inside j ∙ same j; once = once; binary = binary },
      )

  -- The choice of `build_tree` by the cached tree and its age.
  abbrev serve : GroupState → Option TreeNode → Bool → Result (GroupState × TreeNode)
  serve s none fresh = rebuild locale_before now s
  serve s (some t) fresh = if fresh then ok (s, t) else rebuild locale_before now s

  build_tree-serve :
      (s : GroupState) (o : Option TreeNode)
      → s.relay_tree ≡ o
      → build_tree locale_before now s ≡ serve s o (is_fresh locale_before now s)
  unfolding build_tree
  build_tree-serve s none e = ground arith
  build_tree-serve s (some t) e = ground arith

  pub build_tree_lem :
      (s : GroupState) (p : Text)
      → IsCurrent s
      → has p s.group.members ≡ true
      → (s' : GroupState) × (t : TreeNode) × (build_tree locale_before now s ≡ ok (s', t))
        × Covers s.group.members t
        × IsCurrent s'
        × (s'.group ≡ s.group)
  unfolding build_tree
  build_tree_lem s p v m =
      let (t, e, covers) = rebuild_lem s p v.0 m in
      let rebuilt = record s { relay_tree = some t; last_tree_build = now } in
      let current : IsCurrent rebuilt = (v.0, covers) in
      elim (Option-cases s.relay_tree) [
        | inl a ↦ (rebuilt, t, build_tree-serve s none a ∙ e, covers, current, refl)
        | inr (u, a) ↦ elim (Bool-cases (is_fresh locale_before now s)) [
          | inl f ↦ (
            s,
            u,
            build_tree-serve s (some u) a ∙ ap (serve s (some u)) f,
            subst (CacheCovers s.group.members) a v.1,
            v,
            refl,
          )
          | inr f ↦ (
            rebuilt,
            t,
            build_tree-serve s (some u) a ∙ ap (serve s (some u)) f ∙ e,
            covers,
            current,
            refl,
          )
        ]
      ]

  -- Without members there is nothing to rebuild.
  rebuild_empty :
      (s : GroupState) → s.group.members ≡ [] → rebuild locale_before now s ≡ err no_members
  unfolding rebuild sorted_members keys sort tree_of
  rebuild_empty s e = ground arith

  members_cases : (ms : TextMap GroupMember) → (ms ≡ []) ⊎ ((p : Text) × (has p ms ≡ true))
  unfolding has
  members_cases [] = inl refl
  members_cases ((p, v) ∷ ms) = inr (p, ground arith)

  pub build_tree-IsCurrent :
      (s s' : GroupState) (t : TreeNode)
      → build_tree locale_before now s ≡ ok (s', t)
      → IsCurrent s
      → IsCurrent s'
  build_tree-IsCurrent s s' t e v = elim (members_cases s.group.members) [
    | inr (p, m) ↦
        let (s'', t'', e'', _, w, _) = build_tree_lem s p v m in
        subst IsCurrent
          (ap (λ r. r.0) (ok-injective {E = GroupError} (s'', t'') (s', t) (sym e'' ∙ e))) w
    | inl none_in ↦ elim (Option-cases s.relay_tree) [
      | inl a ↦ absurd (ground (arith, build_tree-serve s none a, rebuild_empty s none_in))
      | inr (u, a) ↦ elim (Bool-cases (is_fresh locale_before now s)) [
        | inl f ↦
            subst IsCurrent
              (ap (λ r. r.0)
                (ok-injective {E = GroupError} (s, u) (s', t)
                  (sym (build_tree-serve s (some u) a ∙ ap (serve s (some u)) f) ∙ e)))
              v
        | inr f ↦ absurd (ground (arith, build_tree-serve s (some u) a, rebuild_empty s none_in))
      ]
    ]
  ]
