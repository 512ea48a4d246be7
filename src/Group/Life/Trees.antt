-- ===== src/Group/Life/Trees.antt =====
-- The cached trees along any sequence of calls.
use meshwhisper.Common.{
  ok-injective, Outcome-cases, ℕ, ◌≡◌, ap, subst, Bool, true, some, Text, arith, Option-cases, inl,
  inr,
}
use meshwhisper.Common.TextMap.{get, has, set}
use meshwhisper.Group.{
  GroupState, GroupManager, GroupError, ok, add_to, add_member, given_or, remove_from,
  remove_member, put_state, require_group_state,
}
use meshwhisper.Group.Keys.{receive_sender_key, rotate_all_sender_keys, put_key, rotate_keys}
use meshwhisper.Group.Life.{
  Change, Reachable, created, joined, left_group, added, removed, ranked, headed, renamed, active,
  grown, start, next, distributed, received, rotated, encrypted,
}
use meshwhisper.Group.Life.Groups.{
  add_to-IsCurrent, remove_from-IsCurrent, touch-IsCurrent, put_key-IsCurrent,
  rotate_keys-IsCurrent,
}
use meshwhisper.Group.Tree.{TreeNode}
use meshwhisper.Group.Routing.{touch, update_activity, build_tree, build_relay_tree}
use meshwhisper.Group.Routing.Trees.{Covers, build_tree_lem, build_tree-IsCurrent}
use meshwhisper.Group.Life.Managers.{
  AllCurrent, put_state-AllCurrent, replace-AllCurrent, set_member_role-AllCurrent,
  leave_group-AllCurrent, create_group-AllCurrent, join_group-AllCurrent, set_admin-AllCurrent,
  set_name-AllCurrent, new_manager-AllCurrent, distribute_sender_key-AllCurrent,
  encrypt_for_group-AllCurrent,
}

module _ (locale_before : Text → Text → Bool) where
  build_relay_tree-AllCurrent :
      (now : ℕ) (group_id : Text) (m m' : GroupManager) (t : TreeNode)
      → build_relay_tree locale_before now group_id m ≡ ok (m', t)
      → AllCurrent m
      → AllCurrent m'
  unfolding build_relay_tree require_group_state
  build_relay_tree-AllCurrent now group_id m m' t e a =
      elim (Option-cases (get group_id m.groups)) [
        | inl n ↦ absurd (ground arith)
        | inr (s, n) ↦ elim (Outcome-cases (build_tree locale_before now s)) [
          | inl (x, b) ↦ absurd (ground arith)
          | inr (r, b) ↦
              subst AllCurrent
                (ap (λ (q : GroupManager × TreeNode). q.0)
                  (ok-injective {E = GroupError} (put_state group_id r.0 m, r.1) (m', t)
                    (ground arith)))
                (put_state-AllCurrent group_id r.0 m a
                  (build_tree-IsCurrent locale_before now s r.0 r.1 b (a group_id s n)))
        ]
      ]

  Change-AllCurrent :
      {m m' : GroupManager} → Change locale_before m m' → AllCurrent m → AllCurrent m'
  unfolding add_member remove_member update_activity receive_sender_key rotate_all_sender_keys
  Change-AllCurrent {m} (created now group_id draw name members model) a =
      create_group-AllCurrent now group_id draw name members model m a
  Change-AllCurrent {m} (joined now group_id key invite) a =
      join_group-AllCurrent now group_id key invite m a
  Change-AllCurrent {m} {m'} (left_group group_id e) a = leave_group-AllCurrent group_id m m' e a
  Change-AllCurrent {m} {m'} (added now group_id peer_id given fresh e) a =
      replace-AllCurrent (add_to now peer_id (given_or given fresh))
        (add_to-IsCurrent now peer_id (given_or given fresh)) group_id m m' e a
  Change-AllCurrent {m} {m'} (removed group_id peer_id e) a =
      replace-AllCurrent (remove_from peer_id) (remove_from-IsCurrent peer_id) group_id m m' e a
  Change-AllCurrent {m} {m'} (ranked group_id peer_id role e) a =
      set_member_role-AllCurrent group_id peer_id role m m' e a
  Change-AllCurrent {m} (headed group_id id) a = set_admin-AllCurrent group_id id m a
  Change-AllCurrent {m} (renamed group_id name) a = set_name-AllCurrent group_id name m a
  Change-AllCurrent {m} {m'} (active now group_id peer_id e) a =
      replace-AllCurrent (touch now peer_id) (touch-IsCurrent now peer_id) group_id m m' e a
  Change-AllCurrent {m} {m'} (distributed {d} group_id key e) a =
      distribute_sender_key-AllCurrent group_id key m m' d e a
  Change-AllCurrent {m} {m'} (received d e) a =
      replace-AllCurrent
        (λ s. record (put_key d.sender_id d.sender_key s) {
          key_iterations = set d.sender_id d.iteration s.key_iterations;
        })
        (put_key-IsCurrent d.sender_id d.sender_key) d.group_id m m' e a
  Change-AllCurrent {m} {m'} (rotated group_id draw e) a =
      replace-AllCurrent (λ s. rotate_keys draw 0 s.group.members s)
        (λ s. rotate_keys-IsCurrent draw 0 s.group.members s) group_id m m' e a
  Change-AllCurrent {m} {m'} (encrypted {c} {id} gcm now group_id nonce plaintext e) a =
      encrypt_for_group-AllCurrent gcm now group_id nonce plaintext m m' c id e a
  Change-AllCurrent {m} {m'} (grown {t} now group_id e) a =
      build_relay_tree-AllCurrent now group_id m m' t e a

  Reachable-AllCurrent :
      {own : Text} {m : GroupManager} → Reachable locale_before own m → AllCurrent m
  Reachable-AllCurrent {own} start = new_manager-AllCurrent own
  Reachable-AllCurrent (next r c) = Change-AllCurrent c (Reachable-AllCurrent r)

  -- In every manager that calls lead to from a new one, for every group with a member, at every time,
  -- `buildRelayTree` returns a tree; its ids are exactly those of the members, each stands in it once,
  -- and no id has more than two children.
  pub reachable_tree :
      {own : Text} {m : GroupManager}
      → Reachable locale_before own m
      → (now : ℕ) (group_id : Text) (s : GroupState) (peer_id : Text)
      → get group_id m.groups ≡ some s
      → has peer_id s.group.members ≡ true
      → (m' : GroupManager) × (t : TreeNode) × (build_relay_tree locale_before now group_id m
          ≡ ok (m', t))
        × Covers s.group.members t
  unfolding build_relay_tree require_group_state
  reachable_tree {own} {m} r now group_id s peer_id known present =
      let (s', t, e, covers, _, _) =
        build_tree_lem locale_before now s peer_id (Reachable-AllCurrent r group_id s known)
          present in
      (put_state group_id s' m, t, ground arith, covers)
