-- ===== src/Group/Tests.antt =====
-- Runs of the group manager at concrete values.
use meshwhisper.Common.{
  ℕ, ◌+◌, ◌==◌, if◌then◌else◌, ◌++◌, none, Option, zeros, length-zeros, ◌≡◌, ◌≢◌, refl, Bool, true,
  false, not, ◌&&◌, List, [], ◌∷◌, some, Text, text, text_eq, mem, AllDistinct, length, leb, ok,
  arith, drop,
}
use meshwhisper.Common.TextMap.{TextMap, get, has, set, keys}
use meshwhisper.Group.{
  GroupState, GroupManager, GroupMember, Role, new_manager, create_group, put_state, admit,
  admit_all, empty_state,
}
use meshwhisper.Group.Keys.{
  Gcm, SenderKeyDistribution, distribute_sender_key, receive_sender_key, encrypt_for_group,
  decrypt_from_group,
}
use meshwhisper.Group.Keys.Delivery.{distributed_key_opens}
use meshwhisper.Group.Life.{created, start, next}
use meshwhisper.Group.Life.Trees.{reachable_tree}
use meshwhisper.Group.Routing.{build_relay_tree, route_in_tree}
use meshwhisper.Group.Routing.Trees.{Covers}
use meshwhisper.Group.Routing.Reach.{root_reaches_all, root_is_missed}
use meshwhisper.Group.Tree.{
  TreeNode, node, leaf, child, peer_of, ids, ids_below, child_count, find_node, find_below, count,
  children_of,
}
use meshwhisper.Permissions.{open_model}

abbrev ann : Text
ann = text "ann"

abbrev bob : Text
bob = text "bob"

abbrev cat : Text
cat = text "cat"

abbrev club : Text
club = text "club"

abbrev by_length : Text → Text → Bool
by_length a b = leb (length a) (length b)

abbrev key_of : ℕ → List ℕ
key_of n = n ∷ []

abbrev one_group : GroupManager
one_group = create_group 10 club key_of (text "Club") (bob ∷ cat ∷ []) open_model (new_manager ann)

abbrev one_state : GroupState
one_state =
    admit_all 10 ann key_of 1 (bob ∷ cat ∷ [])
      (admit 10 Role.admin ann (key_of 0) (empty_state 10 club (text "Club") ann open_model))

one_group_known : get club one_group.groups ≡ some one_state
unfolding create_group put_state get set new_manager
one_group_known = refl

one_group_has : has bob one_state.group.members ≡ true
unfolding admit_all admit empty_state has set
one_group_has = refl

reachable_tree_example :
    (m' : GroupManager) × (t : TreeNode) × (build_relay_tree by_length 50 club one_group
      ≡ ok (m', t))
    × Covers one_state.group.members t
reachable_tree_example =
    reachable_tree by_length {own = ann} {m = one_group}
      (next start (created 10 club key_of (text "Club") (bob ∷ cat ∷ []) open_model)) 50 club
      one_state bob one_group_known one_group_has

abbrev member_named : Text → GroupMember
member_named id = record { id = id; sender_key = []; role = Role.member; joined_at = 0 }

abbrev two_members : TextMap GroupMember
two_members = (ann, member_named ann) ∷ (bob, member_named bob) ∷ []

abbrev two_nodes : TreeNode
two_nodes = node ann 0 0 (child (node bob 0 0 leaf) leaf)

two_nodes_cover : Covers two_members two_nodes
unfolding ids ids_below mem has child_count find_node find_below count children_of
two_nodes_cover = record {
  members_in = λ j. refl;
  once = (refl, (refl, tt));
  binary = λ j. ground arith;
}

two_nodes_root : peer_of two_nodes ≡ ann
unfolding peer_of
two_nodes_root = refl

bob_below : bob ≢ peer_of two_nodes
unfolding peer_of
bob_below e = absurd (ground arith)

root_reaches_all_example :
    ((j : Text)
      → mem j (keys (route_in_tree ann ann (1 ∷ []) two_nodes))
        ≡ (has j two_members && not (text_eq j ann)))
    × AllDistinct (keys (route_in_tree ann ann (1 ∷ []) two_nodes))
root_reaches_all_example =
    root_reaches_all ann (1 ∷ []) two_members two_nodes two_nodes_cover two_nodes_root

root_is_missed_example :
    mem (peer_of two_nodes) (keys (route_in_tree bob bob (1 ∷ []) two_nodes)) ≡ false
root_is_missed_example = root_is_missed bob (1 ∷ []) two_members two_nodes two_nodes_cover bob_below

-- The tag in front of the plain text; only 32-byte keys and 12-byte nonces are taken.
abbrev toy_seal : List ℕ → List ℕ → List ℕ → Option (List ℕ)
toy_seal key nonce plaintext =
    if (length key == 32) && (length nonce == 12) then some (zeros 16 ++ plaintext) else none

abbrev toy_open : List ℕ → List ℕ → List ℕ → Option (List ℕ)
toy_open key nonce sealed =
    if (length key == 32) && (length nonce == 12) then some (drop 16 sealed) else none

toy_sealed :
    (key nonce plaintext : List ℕ)
    → length key ≡ 32
    → length nonce ≡ 12
    → (c : List ℕ) × (toy_seal key nonce plaintext ≡ some c)
      × (length c ≡ length plaintext + 16)
      × (toy_open key nonce c ≡ some plaintext)
unfolding zeros
toy_sealed key nonce plaintext k n =
    (zeros 16 ++ plaintext, rw (k, n) refl, omega arith, rw (k, n) refl)

abbrev toy_gcm : Gcm
toy_gcm = record { encrypt = toy_seal; decrypt = toy_open; sealed = toy_sealed }

abbrev toy_nonce : List ℕ
toy_nonce = 9 ∷ 9 ∷ 9 ∷ 9 ∷ 9 ∷ 9 ∷ 9 ∷ 9 ∷ 9 ∷ 9 ∷ 9 ∷ 9 ∷ []

abbrev bobs_group : GroupManager
bobs_group = put_state club one_state (new_manager bob)

bobs_group_known : get club bobs_group.groups ≡ some one_state
unfolding put_state get set new_manager
bobs_group_known = refl

distributed_key_opens_example :
    (sender' : GroupManager) × (d : SenderKeyDistribution) × (receiver' : GroupManager)
    × (sender'' : GroupManager) × (ciphertext : List ℕ) × (id : Text) × (distribute_sender_key club
          (zeros 32)
          one_group
        ≡ ok (sender', d))
    × (receive_sender_key d bobs_group ≡ ok receiver')
    × (encrypt_for_group toy_gcm 60 club toy_nonce (1 ∷ 2 ∷ []) sender'
        ≡ ok (sender'', ciphertext, id))
    × (decrypt_from_group toy_gcm club id ciphertext receiver' ≡ ok (1 ∷ 2 ∷ []))
distributed_key_opens_example =
    distributed_key_opens toy_gcm 60 club (zeros 32) toy_nonce (1 ∷ 2 ∷ []) one_group bobs_group
      one_state one_state one_group_known bobs_group_known (length-zeros 32) refl
