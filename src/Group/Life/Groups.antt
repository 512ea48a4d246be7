-- ===== src/Group/Life/Groups.antt =====
-- The calls on one group, and its cached tree against the members.
use meshwhisper.Common.{
  zeros, ℕ, ◌+◌, ◌≡◌, refl, sym, ◌∙◌, subst, List, [], ◌∷◌, Option, none, some, Text, text_eq,
  arith, if◌then◌else◌, Bool-cases, Option-cases, inl, inr,
}
use meshwhisper.Common.TextMap.{TextMap, get, has, set, Distinct}
use meshwhisper.Common.TextMap.Laws.{has-get, get-set, set-Distinct, delete-Distinct}
use meshwhisper.Group.{
  GroupState, GroupInvite, GroupMember, Role, admit, admit_all, empty_state, enter_invited,
  enter_all, add_to, remove_from, make_admin,
}
use meshwhisper.Group.Keys.{put_key, rotate_keys, or_zero}
use meshwhisper.Group.Tree.{TreeNode}
use meshwhisper.Group.Routing.{touch}
use meshwhisper.Group.Routing.Trees.{CacheCovers, IsCurrent}
use meshwhisper.Permissions.{PermissionModel}

-- A group that no tree is cached for.
abbrev pub IsBare : GroupState → Type 0
IsBare s = Distinct s.group.members × (s.relay_tree ≡ none)

pub IsBare-IsCurrent : (s : GroupState) → IsBare s → IsCurrent s
IsBare-IsCurrent s (d, e) = (d, subst (CacheCovers s.group.members) (sym e) tt)

pub admit-IsBare :
    (now : ℕ) (role : Role) (peer_id : Text) (key : List ℕ) (s : GroupState)
    → IsBare s
    → IsBare (admit now role peer_id key s)
unfolding admit
admit-IsBare now role peer_id key s (d, e) = (
  set-Distinct peer_id (record { id = peer_id; sender_key = key; role = role; joined_at = now })
      s.group.members d,
  e,
)

pub admit_all-IsBare :
    (now : ℕ) (own : Text) (draw : ℕ → List ℕ) (n : ℕ) (members : List Text) (s : GroupState)
    → IsBare s
    → IsBare (admit_all now own draw n members s)
unfolding admit_all
admit_all-IsBare now own draw n [] s v = v
admit_all-IsBare now own draw n (p ∷ ps) s v = elim (Bool-cases (text_eq p own)) [
  | inl e ↦ rw (admit_all, e) (admit_all-IsBare now own draw n ps s v)
  | inr e ↦
      rw (admit_all, e)
        (admit_all-IsBare now own draw (n + 1) ps (admit now Role.member p (draw n) s)
          (admit-IsBare now Role.member p (draw n) s v))
]

pub enter_invited-IsBare :
    (now : ℕ) (invite : GroupInvite) (peer_id : Text) (s : GroupState)
    → IsBare s
    → IsBare (enter_invited now invite peer_id s)
unfolding enter_invited
enter_invited-IsBare now invite peer_id s v = elim (Option-cases (get peer_id invite.sender_keys)) [
  | inl e ↦
      rw (enter_invited, e)
        (admit-IsBare now (if text_eq peer_id invite.invited_by then Role.admin else Role.member)
          peer_id (zeros 32) s v)
  | inr (key, e) ↦
      rw (enter_invited, e)
        (admit-IsBare now (if text_eq peer_id invite.invited_by then Role.admin else Role.member)
          peer_id key s v)
]

pub enter_all-IsBare :
    (now : ℕ) (invite : GroupInvite) (members : List Text) (s : GroupState)
    → IsBare s
    → IsBare (enter_all now invite members s)
unfolding enter_all
enter_all-IsBare now invite [] s v = v
enter_all-IsBare now invite (p ∷ ps) s v =
    enter_all-IsBare now invite ps (enter_invited now invite p s)
      (enter_invited-IsBare now invite p s v)

-- The calls that change one group.
pub add_to-IsCurrent :
    (now : ℕ) (peer_id : Text) (key : List ℕ) (s : GroupState)
    → IsCurrent s
    → IsCurrent (add_to now peer_id key s)
unfolding add_to admit
add_to-IsCurrent now peer_id key s v = elim (Bool-cases (has peer_id s.group.members)) [
  | inl e ↦ rw (add_to, e) v
  | inr e ↦
      rw (add_to, e)
        (
          set-Distinct peer_id
              (record { id = peer_id; sender_key = key; role = Role.member; joined_at = now })
              s.group.members v.0,
          tt,
        )
]

pub remove_from-IsCurrent :
    (peer_id : Text) (s : GroupState) → IsCurrent s → IsCurrent (remove_from peer_id s)
unfolding remove_from
remove_from-IsCurrent peer_id s v = elim (Bool-cases (has peer_id s.group.members)) [
  | inl e ↦ rw (remove_from, e) (delete-Distinct peer_id s.group.members v.0, tt)
  | inr e ↦ rw (remove_from, e) v
]

pub make_admin-IsCurrent : (id : Text) (s : GroupState) → IsCurrent s → IsCurrent (make_admin id s)
unfolding make_admin
make_admin-IsCurrent [] s v = (v.0, tt)
make_admin-IsCurrent (c ∷ cs) s v = elim (Bool-cases (has (c ∷ cs) s.group.members)) [
  | inl e ↦ rw (make_admin, e) (v.0, tt)
  | inr e ↦ rw (make_admin, e) v
]

pub touch-IsCurrent :
    (now : ℕ) (peer_id : Text) (s : GroupState) → IsCurrent s → IsCurrent (touch now peer_id s)
unfolding touch
touch-IsCurrent now peer_id s v = elim (Option-cases (get peer_id s.activity)) [
  | inl e ↦ rw (touch, e) v
  | inr (r, e) ↦ rw (touch, e) v
]

-- Another record for a member leaves the members what they are.
module _ (peer_id : Text) (old new : GroupMember) (s : GroupState)
    (known : get peer_id s.group.members ≡ some old) (v : IsCurrent s) where
  abbrev pub changed : GroupState
  changed = record s { group = record s.group { members = set peer_id new s.group.members } }

  has-changed : (j : Text) → has j s.group.members ≡ has j changed.group.members
  has-changed j = ground (
    arith,
    has-get j s.group.members,
    has-get j changed.group.members,
    get-set j peer_id new s.group.members,
  )

  CacheCovers-changed :
      (o : Option TreeNode) → CacheCovers s.group.members o → CacheCovers changed.group.members o
  CacheCovers-changed none c = tt
  CacheCovers-changed (some t) c = record {
    members_in = λ j. c.members_in j ∙ has-changed j;
    once = c.once;
    binary = c.binary;
  }

  pub changed-IsCurrent : IsCurrent changed
  changed-IsCurrent =
      (set-Distinct peer_id new s.group.members v.0, CacheCovers-changed s.relay_tree v.1)

pub empty_state-IsBare :
    (now : ℕ) (group_id name root : Text) (model : PermissionModel)
    → IsBare (empty_state now group_id name root model)
unfolding empty_state
empty_state-IsBare now group_id name root model = (tt, refl)

pub put_key-IsCurrent :
    (peer_id : Text) (key : List ℕ) (s : GroupState)
    → IsCurrent s
    → IsCurrent (put_key peer_id key s)
unfolding put_key
put_key-IsCurrent peer_id key s v = elim (Option-cases (get peer_id s.group.members)) [
  | inl e ↦ rw (put_key, e) v
  | inr (old, e) ↦
      rw (put_key, e) (changed-IsCurrent peer_id old (record old { sender_key = key }) s e v)
]

pub rotate_keys-IsCurrent :
    (draw : ℕ → List ℕ) (n : ℕ) (members : TextMap GroupMember) (s : GroupState)
    → IsCurrent s
    → IsCurrent (rotate_keys draw n members s)
unfolding rotate_keys
rotate_keys-IsCurrent draw n [] s v = v
rotate_keys-IsCurrent draw n ((peer_id, old) ∷ rest) s v =
    rotate_keys-IsCurrent draw (n + 1) rest
      (record (put_key peer_id (draw n) s) {
        key_iterations = set peer_id (or_zero (get peer_id s.key_iterations) + 1) s.key_iterations;
      })
      (put_key-IsCurrent peer_id (draw n) s v)
