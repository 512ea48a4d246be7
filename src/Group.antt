-- ===== src/Group.antt =====
-- src/group/index.ts: `GroupManager`, the groups of one device. This file holds the state and the
-- membership; the children hold the sender keys, the relay tree and the routing. The clock and the
-- random bytes are arguments; `draw n` is the n-th sender key that one call draws. A `throw` is an
-- `err`.
pub mod Tree
pub mod Routing
pub mod Life
pub mod Keys
mod Tests
pub use meshwhisper.Common.{Outcome, ok, err, ◌>>=◌, ◌>>◌}
use meshwhisper.Common.{
  ℕ, ◌+◌, Bool, true, false, List, [], ◌∷◌, Option, none, some, Text, zeros, text_eq, if◌then◌else◌,
  map,
}
use meshwhisper.Common.TextMap.{TextMap, get, has, set, delete, values}
use meshwhisper.Group.Tree.{TreeNode}
use meshwhisper.Permissions.{PermissionModel, open_model}

pub data Role : Type 0 where
  admin member : Role

pub record GroupMember : Type 0 where
  pub id : Text
  pub sender_key : List ℕ
  pub role : Role
  pub joined_at : ℕ

-- The record `Group` of src/types.ts.
pub record GroupInfo : Type 0 where
  pub id : Text
  pub name : Text
  pub members : TextMap GroupMember
  pub tree_root : Text
  pub permission_model : PermissionModel
  pub created_at : ℕ

pub record GroupInvite : Type 0 where
  pub group_id : Text
  pub group_name : Text
  pub invited_by : Text
  pub sender_keys : TextMap (List ℕ)
  pub members : List Text
  pub member_ed_keys : Option (TextMap (List ℕ))

pub record ActivityRecord : Type 0 where
  pub timestamps : List ℕ
  pub last_active : ℕ

pub record GroupState : Type 0 where
  pub group : GroupInfo
  pub sender_keys : TextMap (List ℕ)
  pub key_iterations : TextMap ℕ
  pub activity : TextMap ActivityRecord
  pub relay_tree : Option TreeNode
  pub last_tree_build : ℕ

pub record GroupManager : Type 0 where
  pub local_peer_id : Text
  pub groups : TextMap GroupState

pub data GroupError : Type 0 where
  unknown_group not_a_member no_sender_key ciphertext_too_short encryption_failed decryption_failed
        no_members :
      GroupError

abbrev pub Result {ℓ} : Type ℓ → Type ℓ
Result A = Outcome GroupError A

abbrev pub or_throw {ℓ} : {A : Type ℓ} → Option A → GroupError → Result A
or_throw none e = err e
or_throw (some a) e = ok a

abbrev pub sender_key_length : ℕ
sender_key_length = 32

abbrev pub activity_window_ms : ℕ
activity_window_ms = 300000

unfoldable pub new_manager : Text → GroupManager
new_manager local_peer_id = record { local_peer_id = local_peer_id; groups = [] }

-- `requireGroupState`
unfoldable pub require_group_state : Text → GroupManager → Result GroupState
require_group_state group_id m = or_throw (get group_id m.groups) unknown_group

unfoldable pub put_state : Text → GroupState → GroupManager → GroupManager
put_state group_id s m = record m { groups = set group_id s m.groups }

-- The four entries of a member, written together.
unfoldable pub admit : ℕ → Role → Text → List ℕ → GroupState → GroupState
admit now role peer_id key s = record s {
  group = record s.group {
    members =
        set peer_id (record { id = peer_id; sender_key = key; role = role; joined_at = now })
          s.group.members;
  };
  sender_keys = set peer_id key s.sender_keys;
  key_iterations = set peer_id 0 s.key_iterations;
  activity = set peer_id (record { timestamps = []; last_active = now }) s.activity;
}

unfoldable pub empty_state : ℕ → Text → Text → Text → PermissionModel → GroupState
empty_state now group_id name tree_root model = record {
  group = record {
    id = group_id;
    name = name;
    members = [];
    tree_root = tree_root;
    permission_model = model;
    created_at = now;
  };
  sender_keys = [];
  key_iterations = [];
  activity = [];
  relay_tree = none;
  last_tree_build = 0;
}

-- `for (const peerId of members) { if (peerId === this.localPeerId) continue; … }`
unfoldable pub admit_all : ℕ → Text → (ℕ → List ℕ) → ℕ → List Text → GroupState → GroupState
admit_all now own draw n [] s = s
admit_all now own draw n (peer_id ∷ rest) s =
    admit_all now own draw (if text_eq peer_id own then n else n + 1) rest
      (if text_eq peer_id own then s else admit now member peer_id (draw n) s)

unfoldable pub create_group :
    ℕ → Text → (ℕ → List ℕ) → Text → List Text → PermissionModel → GroupManager → GroupManager
create_group now group_id draw name members model m =
    let own = m.local_peer_id in
    put_state group_id
      (admit_all now own draw 1 members
        (admit now admin own (draw 0) (empty_state now group_id name own model)))
      m

-- One member of the invite; without a key in the invite it has no entry among the sender keys.
unfoldable pub enter_invited : ℕ → GroupInvite → Text → GroupState → GroupState
enter_invited now invite peer_id s =
    let role = if text_eq peer_id invite.invited_by then admin else member in
    elim (get peer_id invite.sender_keys) [
      | some key ↦ admit now role peer_id key s
      | none ↦ record (admit now role peer_id (zeros sender_key_length) s) {
        sender_keys = s.sender_keys;
      }
    ]

unfoldable pub enter_all : ℕ → GroupInvite → List Text → GroupState → GroupState
enter_all now invite [] s = s
enter_all now invite (peer_id ∷ rest) s =
    enter_all now invite rest (enter_invited now invite peer_id s)

unfoldable pub join_group : ℕ → Text → List ℕ → GroupInvite → GroupManager → GroupManager
join_group now group_id own_key invite m =
    let start = empty_state now group_id invite.group_name invite.invited_by open_model in
    let s = enter_all now invite invite.members start in
    put_state group_id
      (if has m.local_peer_id s.group.members
        then s
        else admit now member m.local_peer_id own_key s)
      m

unfoldable pub leave_group : Text → GroupManager → Result GroupManager
leave_group group_id m = do
  _ ← require_group_state group_id m
  ok (record m { groups = delete group_id m.groups })

unfoldable pub get_group : Text → GroupManager → Option GroupInfo
get_group group_id m = elim (get group_id m.groups) [ none ↦ none | some s ↦ some s.group ]

-- The given key, or else the fresh one.
abbrev pub given_or : Option (List ℕ) → List ℕ → List ℕ
given_or none fresh = fresh
given_or (some key) fresh = key

unfoldable pub add_to : ℕ → Text → List ℕ → GroupState → GroupState
add_to now peer_id key s =
    if has peer_id s.group.members
    then s
    else record (admit now member peer_id key s) { relay_tree = none }

unfoldable pub add_member :
    ℕ → Text → Text → Option (List ℕ) → List ℕ → GroupManager → Result GroupManager
add_member now group_id peer_id provided_key fresh_key m = do
  s ← require_group_state group_id m
  ok (put_state group_id (add_to now peer_id (given_or provided_key fresh_key) s) m)

unfoldable pub remove_from : Text → GroupState → GroupState
remove_from peer_id s =
    if has peer_id s.group.members
    then record s {
      group = record s.group { members = delete peer_id s.group.members };
      sender_keys = delete peer_id s.sender_keys;
      key_iterations = delete peer_id s.key_iterations;
      activity = delete peer_id s.activity;
      relay_tree = none;
    }
    else s

unfoldable pub remove_member : Text → Text → GroupManager → Result GroupManager
remove_member group_id peer_id m = do
  s ← require_group_state group_id m
  ok (put_state group_id (remove_from peer_id s) m)

unfoldable pub get_members : Text → GroupManager → Result (List GroupMember)
get_members group_id m = do s ← require_group_state group_id m; ok (values s.group.members)

unfoldable pub get_member_role : Text → Text → GroupManager → Option Role
get_member_role group_id peer_id m = elim (get group_id m.groups) [
  | none ↦ none
  | some s ↦ elim (get peer_id s.group.members) [ none ↦ none | some old ↦ some old.role ]
]

-- `getGroups`
unfoldable pub get_groups : GroupManager → List GroupInfo
get_groups m = map (λ s. s.group) (values m.groups)

unfoldable pub set_member_role : Text → Text → Role → GroupManager → Result GroupManager
set_member_role group_id peer_id role m = do
  s ← require_group_state group_id m
  old ← or_throw (get peer_id s.group.members) not_a_member
  ok (
      put_state group_id
        (record s {
          group = record s.group {
            members = set peer_id (record old { role = role }) s.group.members;
          };
        })
        m)

-- An admin that is not a member is refused; the empty id leaves the group without one.
unfoldable pub make_admin : Text → GroupState → GroupState
make_admin [] s = record s { group = record s.group { tree_root = [] }; relay_tree = none }
make_admin (c ∷ cs) s =
    if has (c ∷ cs) s.group.members
    then record s { group = record s.group { tree_root = c ∷ cs }; relay_tree = none }
    else s

unfoldable pub set_admin : Text → Text → GroupManager → GroupManager
set_admin group_id new_admin_id m = elim (get group_id m.groups) [
  | none ↦ m
  | some s ↦ put_state group_id (make_admin new_admin_id s) m
]

unfoldable pub set_name : Text → Text → GroupManager → GroupManager × Bool
set_name group_id new_name m = elim (get group_id m.groups) [
  | none ↦ (m, false)
  | some s ↦
      if text_eq s.group.name new_name
      then (m, false)
      else (put_state group_id (record s { group = record s.group { name = new_name } }) m, true)
]
