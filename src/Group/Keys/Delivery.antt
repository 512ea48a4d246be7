-- ===== src/Group/Keys/Delivery.antt =====
-- The way of a sender key, and of a message that is sealed with it, from one manager to another.
use meshwhisper.Common.{
  ℕ, ◌+◌, ◌≡◌, refl, subst, false, List, ◌++◌, some, Text, length, length-append, take, drop,
  take_append, drop_append, ltb, arith,
}
use meshwhisper.Common.TextMap.{get, set}
use meshwhisper.Common.TextMap.Laws.{get-set}
use meshwhisper.Group.{GroupState, GroupManager, ok, require_group_state, put_state}
use meshwhisper.Group.Routing.{touch}
use meshwhisper.Group.Keys.{
  Gcm, SenderKeyDistribution, put_key, distribute_sender_key, receive_sender_key, encrypt_for_group,
  decrypt_from_group, or_zero,
}

module _ (group_id : Text) (m : GroupManager) (s : GroupState)
    (known : get group_id m.groups ≡ some s) where
  distribute_sender_key_known :
      (key : List ℕ)
      → distribute_sender_key group_id key m
        ≡ ok (
          put_state group_id (put_key m.local_peer_id key s) m,
          record {
            group_id = group_id;
            sender_id = m.local_peer_id;
            sender_key = key;
            iteration = or_zero (get m.local_peer_id s.key_iterations);
          },
        )
  unfolding distribute_sender_key require_group_state
  distribute_sender_key_known key = rw (distribute_sender_key, require_group_state, known) refl

  receive_sender_key_known :
      (id : Text) (key : List ℕ) (n : ℕ)
      → receive_sender_key
          (record { group_id = group_id; sender_id = id; sender_key = key; iteration = n })
          m
        ≡ ok (
            put_state group_id
              (record (put_key id key s) { key_iterations = set id n s.key_iterations })
              m)
  unfolding receive_sender_key require_group_state
  receive_sender_key_known id key n = rw (receive_sender_key, require_group_state, known) refl

  module _ (gcm : Gcm) (key nonce plaintext c : List ℕ) where
    encrypt_for_group_known :
        (now : ℕ)
        → get m.local_peer_id s.sender_keys ≡ some key
        → gcm.encrypt key nonce plaintext ≡ some c
        → encrypt_for_group gcm now group_id nonce plaintext m
          ≡ ok (put_state group_id (touch now m.local_peer_id s) m, nonce ++ c, m.local_peer_id)
    unfolding encrypt_for_group require_group_state
    encrypt_for_group_known now k e = rw (encrypt_for_group, require_group_state, known, k, e) refl

    decrypt_from_group_known :
        (id : Text)
        → get id s.sender_keys ≡ some key
        → length nonce ≡ 12
        → length c ≡ length plaintext + 16
        → gcm.decrypt key nonce c ≡ some plaintext
        → decrypt_from_group gcm group_id id (nonce ++ c) m ≡ ok plaintext
    unfolding decrypt_from_group require_group_state
    decrypt_from_group_known id k l n e =
        let long : ltb (length (nonce ++ c)) 28 ≡ false = ground (arith, length-append nonce c) in
        let front : take 12 (nonce ++ c) ≡ nonce =
          subst (λ n. take n (nonce ++ c) ≡ nonce) l (take_append nonce c) in
        let back : drop 12 (nonce ++ c) ≡ c =
          subst (λ n. drop n (nonce ++ c) ≡ c) l (drop_append nonce c) in
        rw (decrypt_from_group, require_group_state, known, k, long, front, back, e) refl

get-put_state :
    (group_id : Text) (s : GroupState) (m : GroupManager)
    → get group_id (put_state group_id s m).groups ≡ some s
unfolding put_state
get-put_state group_id s m = ground (arith, get-set group_id group_id s m.groups)

get-put_key :
    (id : Text) (key : List ℕ) (s : GroupState) → get id (put_key id key s).sender_keys ≡ some key
unfolding put_key
get-put_key id key s = ground (arith, get-set id id key s.sender_keys)

module _ (gcm : Gcm) where
  -- When both sides know the group, the key has 32 bytes and the nonce 12: the sender distributes the
  -- key, the receiver takes the distribution in, the sender encrypts any text, and the receiver
  -- decrypts what was sealed to that text; none of the four calls fails.
  pub distributed_key_opens :
      (now : ℕ) (group_id : Text) (key nonce plaintext : List ℕ) (sender receiver : GroupManager)
      (s r : GroupState)
      → get group_id sender.groups ≡ some s
      → get group_id receiver.groups ≡ some r
      → length key ≡ 32
      → length nonce ≡ 12
      → (sender' : GroupManager) × (d : SenderKeyDistribution) × (receiver' : GroupManager)
        × (sender'' : GroupManager) × (ciphertext : List ℕ) × (id : Text) × (distribute_sender_key
              group_id key sender
            ≡ ok (sender', d))
        × (receive_sender_key d receiver ≡ ok receiver')
        × (encrypt_for_group gcm now group_id nonce plaintext sender'
            ≡ ok (sender'', ciphertext, id))
        × (decrypt_from_group gcm group_id id ciphertext receiver' ≡ ok plaintext)
  unfolding put_state
  distributed_key_opens now group_id key nonce plaintext sender receiver s r ks kr n32 l =
      let own = sender.local_peer_id in
      let (c, e, size, opens) = gcm.sealed key nonce plaintext n32 l in
      let n = or_zero (get own s.key_iterations) in
      let s' = put_key own key s in
      let r' = record (put_key own key r) { key_iterations = set own n r.key_iterations } in
      let sender' = put_state group_id s' sender in
      let receiver' = put_state group_id r' receiver in
      (
        sender',
        record { group_id = group_id; sender_id = own; sender_key = key; iteration = n },
        receiver',
        put_state group_id (touch now own s') sender',
        nonce ++ c,
        own,
        distribute_sender_key_known group_id sender s ks key,
        receive_sender_key_known group_id receiver r kr own key n,
        encrypt_for_group_known group_id sender' s' (get-put_state group_id s' sender) gcm key nonce
            plaintext c now (get-put_key own key s) e,
        decrypt_from_group_known group_id receiver' r' (get-put_state group_id r' receiver) gcm key
            nonce plaintext c own (get-put_key own key r) l size opens,
      )
