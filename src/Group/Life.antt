-- ===== src/Group/Life.antt =====
-- The life of a group manager: the calls that change it, in any order, as a relation.
pub mod Groups
pub mod Managers
pub mod Trees
use meshwhisper.Common.{ℕ, ◌≡◌, Bool, List, Option, Text}
use meshwhisper.Group.{
  GroupManager, GroupInvite, Role, ok, new_manager, create_group, join_group, leave_group,
  add_member, remove_member, set_admin, set_name, set_member_role,
}
use meshwhisper.Group.Keys.{
  Gcm, SenderKeyDistribution, distribute_sender_key, receive_sender_key, rotate_all_sender_keys,
  encrypt_for_group,
}
use meshwhisper.Group.Tree.{TreeNode}
use meshwhisper.Group.Routing.{update_activity, build_relay_tree}
use meshwhisper.Permissions.{PermissionModel}

module _ (locale_before : Text → Text → Bool) where
  -- One call that returns, at any time and with any random bytes.
  pub data Change (m : GroupManager) : GroupManager → Type 0 where
    created :
        (now : ℕ) (group_id : Text) (draw : ℕ → List ℕ) (name : Text) (members : List Text)
        (model : PermissionModel)
        → Change m (create_group now group_id draw name members model m)
    joined :
        (now : ℕ) (group_id : Text) (key : List ℕ) (invite : GroupInvite)
        → Change m (join_group now group_id key invite m)
    left_group :
        {m' : GroupManager} (group_id : Text) → leave_group group_id m ≡ ok m' → Change m m'
    added :
        {m' : GroupManager} (now : ℕ) (group_id peer_id : Text) (given : Option (List ℕ))
        (fresh : List ℕ)
        → add_member now group_id peer_id given fresh m ≡ ok m'
        → Change m m'
    removed :
        {m' : GroupManager} (group_id peer_id : Text)
        → remove_member group_id peer_id m ≡ ok m'
        → Change m m'
    ranked :
        {m' : GroupManager} (group_id peer_id : Text) (role : Role)
        → set_member_role group_id peer_id role m ≡ ok m'
        → Change m m'
    headed : (group_id new_admin_id : Text) → Change m (set_admin group_id new_admin_id m)
    renamed : (group_id name : Text) → Change m (set_name group_id name m).0
    active :
        {m' : GroupManager} (now : ℕ) (group_id peer_id : Text)
        → update_activity now group_id peer_id m ≡ ok m'
        → Change m m'
    distributed :
        {m' : GroupManager} {d : SenderKeyDistribution} (group_id : Text) (key : List ℕ)
        → distribute_sender_key group_id key m ≡ ok (m', d)
        → Change m m'
    received :
        {m' : GroupManager} (d : SenderKeyDistribution)
        → receive_sender_key d m ≡ ok m'
        → Change m m'
    rotated :
        {m' : GroupManager} (group_id : Text) (draw : ℕ → List ℕ)
        → rotate_all_sender_keys group_id draw m ≡ ok m'
        → Change m m'
    encrypted :
        {m' : GroupManager} {c : List ℕ} {id : Text} (gcm : Gcm) (now : ℕ) (group_id : Text)
        (nonce plaintext : List ℕ)
        → encrypt_for_group gcm now group_id nonce plaintext m ≡ ok (m', c, id)
        → Change m m'
    grown :
        {m' : GroupManager} {t : TreeNode} (now : ℕ) (group_id : Text)
        → build_relay_tree locale_before now group_id m ≡ ok (m', t)
        → Change m m'

  pub data Reachable (own : Text) : GroupManager → Type 0 where
    start : Reachable own (new_manager own)
    next : {m m' : GroupManager} → Reachable own m → Change m m' → Reachable own m'
