-- ===== src/Ratchet/Tests.antt =====
-- A toy instance of the primitives, and the witnesses of the theorems on the ratchet.
use meshwhisper.Common.{
  ℕ, zero, suc, ◌+◌, ◌≤◌, ◌<◌, ◌≡◌, refl, List, [], ◌∷◌, length, none, some, arith, ap, if_pos,
  text_discrete,
}
use meshwhisper.Common.TextMap.{get, delete}
use meshwhisper.Ratchet.{
  Crypto, RatchetState, ok, err, too_many_skipped, skipped_key_id, init_sender, init_receiver,
  generate_dh_key_pair, ratchet_decrypt, remote_key_changed, dh,
}
use meshwhisper.Ratchet.Chain.{chain_at, message_key}
use meshwhisper.Ratchet.Session.{transmit, Sends, Follows, header_of, sealed}
use meshwhisper.Ratchet.Messages.{transmit_ahead, transmit_far, decrypt_late}
use meshwhisper.Ratchet.Opening.{transmit_first}
use meshwhisper.Ratchet.Turns.{Ahead, turn_chain, turn_root, transmit_turn}

zeros : ℕ → List ℕ
zeros zero = []
zeros (suc n) = 0 ∷ zeros n

length-zeros : (n : ℕ) → length (zeros n) ≡ n
unfolding zeros
length-zeros zero = refl
length-zeros (suc n) = ap suc (length-zeros n)

-- Keys are their own public keys, all derived keys are zeros, and nothing is encrypted.
abbrev toy : Crypto
toy = record {
  public_key = λ a. a;
  shared_secret = λ a b. [];
  shared_secret_comm = λ a b. refl;
  blake3 = λ input n. zeros n;
  blake3_keyed = λ key input n. zeros n;
  length-blake3 = λ input n. length-zeros n;
  gcm_encrypt = λ key nonce plaintext. plaintext;
  gcm_decrypt = λ key nonce ciphertext. some ciphertext;
  gcm_decrypt-encrypt = λ key nonce plaintext. refl;
}

-- A receiver at the start of the chain of zeros under the key 9, and senders at message `m` of it.
abbrev receiver : RatchetState
receiver = record {
  dh_sending = generate_dh_key_pair toy (4 ∷ []);
  dh_receiving = some (9 ∷ []);
  root_key = [];
  sending_chain_key = none;
  receiving_chain_key = some (chain_at toy (0 ∷ []) 0);
  send_message_number = 0;
  receive_message_number = 0;
  previous_sending_chain_length = 0;
  skipped_message_keys = [];
}

abbrev sender : ℕ → RatchetState
sender m = record receiver {
  dh_sending = record { private_key = 9 ∷ []; public_key = 9 ∷ [] };
  sending_chain_key = some (chain_at toy (0 ∷ []) m);
  send_message_number = m;
}

receiver-Follows : Follows toy (9 ∷ []) (0 ∷ []) 0 receiver
unfolding get
receiver-Follows = record { remote = refl; chain = refl; number = refl; fresh = λ i h. refl }

sender-Sends : (m : ℕ) → Sends toy (9 ∷ []) (0 ∷ []) m (sender m)
sender-Sends m = record { own_key = refl; chain = refl; number = refl }

transmit_ahead_example :
    (s' : RatchetState) × (r' : RatchetState) × (transmit toy [] (sender 2) receiver (5 ∷ [])
      ≡ ok (s', r', 5 ∷ []))
    × Sends toy (9 ∷ []) (0 ∷ []) (2 + 1) s'
    × Follows toy (9 ∷ []) (0 ∷ []) (2 + 1) r'
    × ((i : ℕ)
        → 0 ≤ i
        → i < 2
        → get (skipped_key_id (9 ∷ []) i) r'.skipped_message_keys
          ≡ some (message_key toy (0 ∷ []) i))
transmit_ahead_example =
    transmit_ahead toy [] (9 ∷ []) (0 ∷ []) 0 2 (sender 2) receiver (5 ∷ []) (omega arith, tt)
      (sender-Sends 2) receiver-Follows (omega arith) (omega arith)

transmit_far_example : transmit toy [] (sender 2001) receiver (5 ∷ []) ≡ err too_many_skipped
transmit_far_example =
    transmit_far toy [] (9 ∷ []) (0 ∷ []) 0 2001 (sender 2001) receiver (5 ∷ []) (omega arith, tt)
      (sender-Sends 2001) receiver-Follows (omega arith)

abbrev overtaken : RatchetState
overtaken = record receiver {
  skipped_message_keys = (skipped_key_id (9 ∷ []) 0, message_key toy (0 ∷ []) 0) ∷ [];
}

overtaken_key :
    get (skipped_key_id (9 ∷ []) 0) overtaken.skipped_message_keys
    ≡ some (message_key toy (0 ∷ []) 0)
unfolding get skipped_key_id
overtaken_key =
    if_pos (text_discrete (skipped_key_id (9 ∷ []) 0) (skipped_key_id (9 ∷ []) 0)) refl _ _

decrypt_late_example :
    ratchet_decrypt toy [] overtaken
      (header_of toy (sender 0) (9 ∷ []) 0)
      (sealed toy (0 ∷ []) 0 (5 ∷ []))
    ≡ ok (
      record overtaken {
        skipped_message_keys = delete (skipped_key_id (9 ∷ []) 0) overtaken.skipped_message_keys;
      },
      5 ∷ [],
    )
decrypt_late_example =
    decrypt_late toy [] (9 ∷ []) (0 ∷ []) 0 (sender 0) overtaken (5 ∷ []) overtaken_key

transmit_first_example :
    (s' : RatchetState) × (r' : RatchetState) × (ck : List ℕ) × (transmit toy
        (6 ∷ [])
        (init_sender toy (9 ∷ []) (1 ∷ []) (4 ∷ []))
        (init_receiver toy (1 ∷ []) (generate_dh_key_pair toy (4 ∷ [])))
        (5 ∷ [])
      ≡ ok (s', r', 5 ∷ []))
    × Sends toy (9 ∷ []) ck 1 s'
    × Follows toy (9 ∷ []) ck 1 r'
transmit_first_example = transmit_first toy (9 ∷ []) (4 ∷ []) (6 ∷ []) (1 ∷ []) (5 ∷ [])

-- The two sides of a new session, before the first message.
abbrev behind : RatchetState
behind = init_receiver toy (1 ∷ []) (generate_dh_key_pair toy (4 ∷ []))

abbrev ahead : RatchetState
ahead = init_sender toy (9 ∷ []) (1 ∷ []) (4 ∷ [])

start-Ahead : Ahead toy (4 ∷ []) (9 ∷ []) behind ahead
unfolding init_receiver init_sender generate_dh_key_pair turn_chain turn_root dh get
start-Ahead = record {
  own = refl;
  other = refl;
  chain = refl;
  root = refl;
  number = refl;
  complete = omega arith;
  fresh = λ i. refl;
}

transmit_turn_example :
    (ahead' : RatchetState) × (behind' : RatchetState) × (transmit toy
        (6 ∷ [])
        ahead
        behind
        (5 ∷ [])
      ≡ ok (ahead', behind', 5 ∷ []))
    × Ahead toy (9 ∷ []) (6 ∷ []) ahead' behind'
unfolding init_receiver init_sender remote_key_changed get
transmit_turn_example =
    transmit_turn toy (4 ∷ []) (9 ∷ []) (6 ∷ []) behind ahead (5 ∷ []) start-Ahead refl
      (omega arith) (λ i. refl)
