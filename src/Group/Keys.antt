-- ===== src/Group/Keys.antt =====
-- The sender keys of a group and the encryption with them. AES-GCM is a parameter, `Gcm`, with the
-- documented behaviour that the code relies on.
pub mod Delivery
use meshwhisper.Common.{
  ℕ, ◌+◌, ◌≡◌, List, [], ◌∷◌, ◌++◌, Option, none, some, Text, length, take, drop, ltb,
  if◌then◌else◌,
}
use meshwhisper.Common.TextMap.{TextMap, get, set}
use meshwhisper.Group.{
  GroupMember, GroupState, GroupManager, Result, ok, err, ◌>>=◌, or_throw, require_group_state,
  put_state, no_sender_key, ciphertext_too_short, encryption_failed, decryption_failed,
  sender_key_length,
}
use meshwhisper.Group.Routing.{touch}

abbrev pub gcm_nonce_length : ℕ
gcm_nonce_length = 12

abbrev pub gcm_tag_length : ℕ
gcm_tag_length = 16

-- `gcm(key, nonce).encrypt(plaintext)` and `.decrypt(sealed)`. Both throw, `none` here, on a key that
-- is no AES key (16, 24 or 32 bytes) or on a nonce that they refuse; decryption throws on a bad tag
-- too. With a 32-byte key and a 12-byte nonce, as the code uses them, encryption gives a text that is
-- 16 bytes longer, and that decrypts to the plaintext.
pub record Gcm : Type 0 where
  pub encrypt : List ℕ → List ℕ → List ℕ → Option (List ℕ)
  pub decrypt : List ℕ → List ℕ → List ℕ → Option (List ℕ)
  pub sealed :
      (key nonce plaintext : List ℕ)
      → length key ≡ sender_key_length
      → length nonce ≡ gcm_nonce_length
      → (c : List ℕ) × (encrypt key nonce plaintext ≡ some c)
        × (length c ≡ length plaintext + gcm_tag_length)
        × (decrypt key nonce c ≡ some plaintext)

pub record SenderKeyDistribution : Type 0 where
  pub group_id : Text
  pub sender_id : Text
  pub sender_key : List ℕ
  pub iteration : ℕ

-- `keyIterations.get(id) ?? 0`
abbrev pub or_zero : Option ℕ → ℕ
or_zero none = 0
or_zero (some n) = n

-- `senderKeys.set(id, key)`, and the member's own field when there is one.
unfoldable pub put_key : Text → List ℕ → GroupState → GroupState
put_key peer_id key s = record s {
  sender_keys = set peer_id key s.sender_keys;
  group = record s.group {
    members = elim (get peer_id s.group.members) [
      | none ↦ s.group.members
      | some old ↦ set peer_id (record old { sender_key = key }) s.group.members
    ];
  };
}

unfoldable pub distribute_sender_key :
    Text → List ℕ → GroupManager → Result (GroupManager × SenderKeyDistribution)
distribute_sender_key group_id sender_key m = do
  s ← require_group_state group_id m
  ok (
    put_state group_id (put_key m.local_peer_id sender_key s) m,
    record {
      group_id = group_id;
      sender_id = m.local_peer_id;
      sender_key = sender_key;
      iteration = or_zero (get m.local_peer_id s.key_iterations);
    },
  )

unfoldable pub receive_sender_key : SenderKeyDistribution → GroupManager → Result GroupManager
receive_sender_key d m = do
  s ← require_group_state d.group_id m
  ok (
      put_state d.group_id
        (record (put_key d.sender_id d.sender_key s) {
          key_iterations = set d.sender_id d.iteration s.key_iterations;
        })
        m)

-- One fresh key for each of the members; the keys come from the random source one after the other.
unfoldable pub rotate_keys : (ℕ → List ℕ) → ℕ → TextMap GroupMember → GroupState → GroupState
rotate_keys draw n [] s = s
rotate_keys draw n ((peer_id, old) ∷ rest) s =
    rotate_keys draw (n + 1) rest (record (put_key peer_id (draw n) s) {
      key_iterations = set peer_id (or_zero (get peer_id s.key_iterations) + 1) s.key_iterations;
    })

unfoldable pub rotate_all_sender_keys : Text → (ℕ → List ℕ) → GroupManager → Result GroupManager
rotate_all_sender_keys group_id draw m = do
  s ← require_group_state group_id m
  ok (put_state group_id (rotate_keys draw 0 s.group.members s) m)

unfoldable pub get_sender_key : Text → Text → GroupManager → Option (List ℕ)
get_sender_key group_id member_id m = elim (get group_id m.groups) [
  | none ↦ none
  | some s ↦ get member_id s.sender_keys
]

module _ (gcm : Gcm) where
  -- The nonce, then the sealed text; the sending counts as activity.
  unfoldable pub encrypt_for_group :
      ℕ → Text → List ℕ → List ℕ → GroupManager → Result (GroupManager × List ℕ × Text)
  encrypt_for_group now group_id nonce plaintext m = do
    s ← require_group_state group_id m
    key ← or_throw (get m.local_peer_id s.sender_keys) no_sender_key
    c ← or_throw (gcm.encrypt key nonce plaintext) encryption_failed
    ok (put_state group_id (touch now m.local_peer_id s) m, nonce ++ c, m.local_peer_id)

  unfoldable pub decrypt_from_group : Text → Text → List ℕ → GroupManager → Result (List ℕ)
  decrypt_from_group group_id sender_id ciphertext m = do
    s ← require_group_state group_id m
    key ← or_throw (get sender_id s.sender_keys) no_sender_key
    _ ←
        (if ltb (length ciphertext) (gcm_nonce_length + gcm_tag_length)
          then err ciphertext_too_short
          else ok (tt {0}))
    or_throw (gcm.decrypt key (take gcm_nonce_length ciphertext) (drop gcm_nonce_length ciphertext))
        decryption_failed
