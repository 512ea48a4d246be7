-- ===== src/Group/Life/Managers.antt =====
-- The calls on a manager, and the cached trees of its groups against their members.
use meshwhisper.Common.{
  ◌++◌, ok-injective, ℕ, ◌≡◌, ap, subst, List, some, Text, text_eq, text_discrete, arith,
  Bool-cases, Option-cases, inl, inr,
}
use meshwhisper.Common.TextMap.{get, has, delete}
use meshwhisper.Common.TextMap.Laws.{get-set, get-delete}
use meshwhisper.Group.{
  GroupState, GroupManager, GroupInvite, GroupError, Role, ok, ◌>>=◌, admit, admit_all, empty_state,
  enter_all, new_manager, create_group, join_group, leave_group, make_admin, set_admin, set_name,
  set_member_role, put_state, require_group_state,
}
use meshwhisper.Group.Keys.{
  Gcm, SenderKeyDistribution, distribute_sender_key, encrypt_for_group, put_key, or_zero,
}
use meshwhisper.Group.Life.Groups.{
  IsBare, IsBare-IsCurrent, admit-IsBare, admit_all-IsBare, enter_all-IsBare, empty_state-IsBare,
  make_admin-IsCurrent, touch-IsCurrent, put_key-IsCurrent, changed, changed-IsCurrent,
}
use meshwhisper.Group.Routing.{touch}
use meshwhisper.Group.Routing.Trees.{IsCurrent}
use meshwhisper.Permissions.{PermissionModel, open_model}
use mathlib.Core.Option.{some-injective}

-- Every group of the manager.
abbrev pub AllCurrent : GroupManager → Type 0
AllCurrent m = (group_id : Text) (s : GroupState) → get group_id m.groups ≡ some s → IsCurrent s

pub put_state-AllCurrent :
    (group_id : Text) (s : GroupState) (m : GroupManager)
    → AllCurrent m
    → IsCurrent s
    → AllCurrent (put_state group_id s m)
unfolding put_state
put_state-AllCurrent group_id s m a v j u e = elim (text_discrete group_id j) [
  | yes p ↦ subst IsCurrent (some-injective s u (ground (arith, get-set j group_id s m.groups))) v
  | no p ↦ a j u (ground (arith, get-set j group_id s m.groups))
]

-- A call that looks a group up and replaces it.
pub replace-AllCurrent :
    (f : GroupState → GroupState)
    → ((s : GroupState) → IsCurrent s → IsCurrent (f s))
    → (group_id : Text) (m m' : GroupManager)
    → (require_group_state group_id m >>= (λ s. ok (put_state group_id (f s) m))) ≡ ok m'
    → AllCurrent m
    → AllCurrent m'
unfolding require_group_state
replace-AllCurrent f keeps group_id m m' e a = elim (Option-cases (get group_id m.groups)) [
  | inl n ↦ absurd (ground arith)
  | inr (s, n) ↦
      subst AllCurrent
        (ok-injective {E = GroupError} (put_state group_id (f s) m) m' (ground arith))
        (put_state-AllCurrent group_id (f s) m a (keeps s (a group_id s n)))
]

pub set_member_role-AllCurrent :
    (group_id peer_id : Text) (role : Role) (m m' : GroupManager)
    → set_member_role group_id peer_id role m ≡ ok m'
    → AllCurrent m
    → AllCurrent m'
unfolding set_member_role require_group_state
set_member_role-AllCurrent group_id peer_id role m m' e a =
    elim (Option-cases (get group_id m.groups)) [
      | inl n ↦ absurd (ground arith)
      | inr (s, n) ↦ elim (Option-cases (get peer_id s.group.members)) [
        | inl k ↦ absurd (ground arith)
        | inr (old, k) ↦
            subst AllCurrent
              (ok-injective {E = GroupError}
                (put_state group_id
                  (changed peer_id old (record old { role = role }) s k (a group_id s n)) m)
                m' (ground arith))
              (put_state-AllCurrent group_id
                (changed peer_id old (record old { role = role }) s k (a group_id s n)) m a
                (changed-IsCurrent peer_id old (record old { role = role }) s k (a group_id s n)))
      ]
    ]

pub leave_group-AllCurrent :
    (group_id : Text) (m m' : GroupManager)
    → leave_group group_id m ≡ ok m'
    → AllCurrent m
    → AllCurrent m'
unfolding leave_group require_group_state
leave_group-AllCurrent group_id m m' e a j u h = elim (Option-cases (get group_id m.groups)) [
  | inl n ↦ absurd (ground arith)
  | inr (s, n) ↦
      let k =
        ok-injective {E = GroupError} (record m { groups = delete group_id m.groups }) m'
          (ground arith) in
      a j u (ground (arith, get-delete j group_id m.groups, ap (λ x. get j x.groups) k))
]

pub create_group-AllCurrent :
    (now : ℕ) (group_id : Text) (draw : ℕ → List ℕ) (name : Text) (members : List Text)
    (model : PermissionModel) (m : GroupManager)
    → AllCurrent m
    → AllCurrent (create_group now group_id draw name members model m)
unfolding create_group
create_group-AllCurrent now group_id draw name members model m a =
    let own = m.local_peer_id in
    let first = admit now Role.admin own (draw 0) (empty_state now group_id name own model) in
    let whole = admit_all now own draw 1 members first in
    put_state-AllCurrent group_id whole m a (
      IsBare-IsCurrent whole (
        admit_all-IsBare now own draw 1 members first (
          admit-IsBare now Role.admin own (draw 0) (empty_state now group_id name own model)
            (empty_state-IsBare now group_id name own model))))

pub join_group-AllCurrent :
    (now : ℕ) (group_id : Text) (key : List ℕ) (invite : GroupInvite) (m : GroupManager)
    → AllCurrent m
    → AllCurrent (join_group now group_id key invite m)
unfolding join_group
join_group-AllCurrent now group_id key invite m a =
    let begin = empty_state now group_id invite.group_name invite.invited_by open_model in
    let s = enter_all now invite invite.members begin in
    let v : IsBare s =
      enter_all-IsBare now invite invite.members begin
        (empty_state-IsBare now group_id invite.group_name invite.invited_by open_model) in
    elim (Bool-cases (has m.local_peer_id s.group.members)) [
      | inl e ↦ rw (join_group, e) (put_state-AllCurrent group_id s m a (IsBare-IsCurrent s v))
      | inr e ↦
          let whole = admit now Role.member m.local_peer_id key s in
          rw (join_group, e)
            (put_state-AllCurrent group_id whole m a
              (IsBare-IsCurrent whole (admit-IsBare now Role.member m.local_peer_id key s v)))
    ]

pub set_admin-AllCurrent :
    (group_id id : Text) (m : GroupManager) → AllCurrent m → AllCurrent (set_admin group_id id m)
unfolding set_admin
set_admin-AllCurrent group_id id m a = elim (Option-cases (get group_id m.groups)) [
  | inl n ↦ rw (set_admin, n) a
  | inr (s, n) ↦
      rw (set_admin, n)
        (put_state-AllCurrent group_id (make_admin id s) m a
          (make_admin-IsCurrent id s (a group_id s n)))
]

pub set_name-AllCurrent :
    (group_id name : Text) (m : GroupManager)
    → AllCurrent m
    → AllCurrent (set_name group_id name m).0
unfolding set_name
set_name-AllCurrent group_id name m a = elim (Option-cases (get group_id m.groups)) [
  | inl n ↦ rw (set_name, n) a
  | inr (s, n) ↦ elim (Bool-cases (text_eq s.group.name name)) [
    | inl e ↦ rw (set_name, n, e) a
    | inr e ↦
        rw (set_name, n, e)
          (put_state-AllCurrent group_id (record s { group = record s.group { name = name } }) m a
            (a group_id s n))
  ]
]

pub new_manager-AllCurrent : (own : Text) → AllCurrent (new_manager own)
unfolding new_manager get
new_manager-AllCurrent own group_id s h = absurd (ground arith)

pub distribute_sender_key-AllCurrent :
    (group_id : Text) (key : List ℕ) (m m' : GroupManager) (d : SenderKeyDistribution)
    → distribute_sender_key group_id key m ≡ ok (m', d)
    → AllCurrent m
    → AllCurrent m'
unfolding distribute_sender_key require_group_state
distribute_sender_key-AllCurrent group_id key m m' d e a =
    elim (Option-cases (get group_id m.groups)) [
      | inl n ↦ absurd (ground arith)
      | inr (s, n) ↦
          let made : SenderKeyDistribution = record {
            group_id = group_id;
            sender_id = m.local_peer_id;
            sender_key = key;
            iteration = or_zero (get m.local_peer_id s.key_iterations);
          } in
          subst AllCurrent
            (ap (λ (q : GroupManager × SenderKeyDistribution). q.0)
              (ok-injective {E = GroupError}
                (put_state group_id (put_key m.local_peer_id key s) m, made) (m', d)
                (ground arith)))
            (put_state-AllCurrent group_id (put_key m.local_peer_id key s) m a
              (put_key-IsCurrent m.local_peer_id key s (a group_id s n)))
    ]

pub encrypt_for_group-AllCurrent :
    (gcm : Gcm) (now : ℕ) (group_id : Text) (nonce plaintext : List ℕ) (m m' : GroupManager)
    (c : List ℕ) (id : Text)
    → encrypt_for_group gcm now group_id nonce plaintext m ≡ ok (m', c, id)
    → AllCurrent m
    → AllCurrent m'
unfolding encrypt_for_group require_group_state
encrypt_for_group-AllCurrent gcm now group_id nonce plaintext m m' c id e a =
    elim (Option-cases (get group_id m.groups)) [
      | inl n ↦ absurd (ground arith)
      | inr (s, n) ↦ elim (Option-cases (get m.local_peer_id s.sender_keys)) [
        | inl k ↦ absurd (ground arith)
        | inr (key, k) ↦ elim (Option-cases (gcm.encrypt key nonce plaintext)) [
          | inl f ↦ absurd (ground arith)
          | inr (sealed, f) ↦
              subst AllCurrent
                (ap (λ (q : GroupManager × List ℕ × Text). q.0)
                  (ok-injective {E = GroupError}
                    (
                      put_state group_id (touch now m.local_peer_id s) m,
                      nonce ++ sealed,
                      m.local_peer_id,
                    )
                    (m', c, id) (ground arith)))
                (put_state-AllCurrent group_id (touch now m.local_peer_id s) m a
                  (touch-IsCurrent now m.local_peer_id s (a group_id s n)))
        ]
      ]
    ]
