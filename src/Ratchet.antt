-- ===== src/Ratchet.antt =====
-- src/ratchet/index.ts: the Double Ratchet. The primitives of the @noble packages are a parameter,
-- `Crypto`, with the documented behaviour that the code relies on; the random secret of a new key
-- pair is an argument.
pub mod Chain
pub mod Session
pub mod Messages
pub mod Opening
pub mod Turns
mod Tests
use meshwhisper.Bytes.{hash_to_hex, bytes_equal}
pub use meshwhisper.Common.{Outcome, ok, err, ◌>>=◌}
use meshwhisper.Common.{
  ℕ, zero, suc, ◌+◌, ◌-◌, ◌/◌, ◌%◌, ◌≡◌, Bool, true, false, List, [], ◌∷◌, ◌++◌, length, take, drop,
  Option, none, some, Text, ltb, if◌then◌else◌,
}
use meshwhisper.Common.TextMap.{TextMap, get, set, delete}

pub record Crypto : Type 0 where
  -- `x25519.getPublicKey` and `x25519.getSharedSecret(private, public)`
  pub public_key : List ℕ → List ℕ
  pub shared_secret : List ℕ → List ℕ → List ℕ
  pub shared_secret_comm :
      (a b : List ℕ) → shared_secret a (public_key b) ≡ shared_secret b (public_key a)
  -- `blake3(input, { dkLen })` and `blake3(input, { dkLen, key })`
  pub blake3 : List ℕ → ℕ → List ℕ
  pub blake3_keyed : List ℕ → List ℕ → ℕ → List ℕ
  pub length-blake3 : (input : List ℕ) (n : ℕ) → length (blake3 input n) ≡ n
  -- `gcm(key, nonce).encrypt` and `.decrypt`, which throws on a bad tag
  pub gcm_encrypt : List ℕ → List ℕ → List ℕ → List ℕ
  pub gcm_decrypt : List ℕ → List ℕ → List ℕ → Option (List ℕ)
  pub gcm_decrypt-encrypt :
      (key nonce plaintext : List ℕ)
      → gcm_decrypt key nonce (gcm_encrypt key nonce plaintext) ≡ some plaintext

abbrev pub max_skip : ℕ
max_skip = 2000

abbrev pub key_length : ℕ
key_length = 32

abbrev pub gcm_nonce_length : ℕ
gcm_nonce_length = 12

pub record KeyPair : Type 0 where
  pub private_key : List ℕ
  pub public_key : List ℕ

pub record RatchetHeader : Type 0 where
  pub dh_public_key : List ℕ
  pub previous_chain_length : ℕ
  pub message_number : ℕ

pub record RatchetState : Type 0 where
  pub dh_sending : KeyPair
  pub dh_receiving : Option (List ℕ)
  pub root_key : List ℕ
  pub sending_chain_key : Option (List ℕ)
  pub receiving_chain_key : Option (List ℕ)
  pub send_message_number : ℕ
  pub receive_message_number : ℕ
  pub previous_sending_chain_length : ℕ
  pub skipped_message_keys : TextMap (List ℕ)

pub data RatchetError : Type 0 where
  no_sending_chain too_many_skipped no_receiving_chain decryption_failed : RatchetError

abbrev pub Result {ℓ} : Type ℓ → Type ℓ
Result A = Outcome RatchetError A

abbrev pub or_fail {ℓ} : {A : Type ℓ} → Option A → RatchetError → Result A
or_fail none e = err e
or_fail (some a) e = ok a

-- A number in a template string, in decimal. The fuel bounds the number of digits.
unfoldable pub decimal_from : ℕ → ℕ → Text
decimal_from zero n = []
decimal_from (suc fuel) n =
    let front = decimal_from fuel (n / 10) in
    let digit = (b'0' + n % 10) ∷ [] in if ltb n 10 then digit else front ++ digit

unfoldable pub decimal : ℕ → Text
decimal n = decimal_from (suc n) n

-- `hex + ':' + messageNumber`
unfoldable pub skipped_key_id : List ℕ → ℕ → Text
skipped_key_id dh_public_key message_number =
    hash_to_hex dh_public_key ++ (b':' ∷ decimal message_number)

module _ (c : Crypto) where
  unfoldable pub generate_dh_key_pair : List ℕ → KeyPair
  generate_dh_key_pair secret = record { private_key = secret; public_key = c.public_key secret }

  unfoldable pub dh : KeyPair → List ℕ → List ℕ
  dh pair public = c.shared_secret pair.private_key public

  -- The new root key and the chain key.
  unfoldable pub kdf_root_step : List ℕ → List ℕ → List ℕ × List ℕ
  kdf_root_step root_key dh_output =
      let output = c.blake3_keyed root_key (root_key ++ dh_output) 64 in
      (take key_length output, take key_length (drop key_length output))

  -- The new chain key and the message key.
  unfoldable pub kdf_chain_step : List ℕ → List ℕ × List ℕ
  kdf_chain_step chain_key = (c.blake3 (chain_key ++ 2 ∷ []) 32, c.blake3 (chain_key ++ 1 ∷ []) 32)

  -- `while (n < until)`; the first argument is the number of rounds.
  unfoldable pub skip_keys : ℕ → List ℕ → ℕ → List ℕ → TextMap (List ℕ) → List ℕ × TextMap (List ℕ)
  skip_keys zero dh_receiving n chain_key skipped = (chain_key, skipped)
  skip_keys (suc k) dh_receiving n chain_key skipped =
      skip_keys k dh_receiving (n + 1) (kdf_chain_step chain_key).0
        (set (skipped_key_id dh_receiving n) (kdf_chain_step chain_key).1 skipped)

  abbrev pub or_empty : Option (List ℕ) → List ℕ
  or_empty none = []
  or_empty (some k) = k

  -- `state.dhReceiving!` stands only where it is set.
  unfoldable pub skip_message_keys : RatchetState → ℕ → Result RatchetState
  skip_message_keys s until = elim s.receiving_chain_key [
    | none ↦ ok s
    | some chain_key ↦
        let n = s.receive_message_number in
        let r =
          skip_keys (until - n) (or_empty s.dh_receiving) n chain_key s.skipped_message_keys in
        if ltb max_skip (until - n)
        then err too_many_skipped
        else ok (record s {
          receiving_chain_key = some r.0;
          receive_message_number = n + (until - n);
          skipped_message_keys = r.1;
        })
  ]

  unfoldable pub dh_ratchet_step : List ℕ → RatchetState → List ℕ → RatchetState
  dh_ratchet_step secret s remote_public_key =
      let receiving = kdf_root_step s.root_key (dh s.dh_sending remote_public_key) in
      let pair = generate_dh_key_pair secret in
      let sending = kdf_root_step receiving.0 (dh pair remote_public_key) in
      record s {
        dh_sending = pair;
        dh_receiving = some remote_public_key;
        root_key = sending.0;
        sending_chain_key = some sending.1;
        receiving_chain_key = some receiving.1;
        send_message_number = 0;
        receive_message_number = 0;
        previous_sending_chain_length = s.send_message_number;
      }

  unfoldable pub aes_encrypt : List ℕ → List ℕ → List ℕ
  aes_encrypt message_key plaintext =
      let nonce = c.blake3 message_key gcm_nonce_length in
      nonce ++ c.gcm_encrypt message_key nonce plaintext

  unfoldable pub aes_decrypt : List ℕ → List ℕ → Option (List ℕ)
  aes_decrypt message_key nonce_and_ciphertext =
      c.gcm_decrypt message_key (take gcm_nonce_length nonce_and_ciphertext)
        (drop gcm_nonce_length nonce_and_ciphertext)

  unfoldable pub init_sender : List ℕ → List ℕ → List ℕ → RatchetState
  init_sender secret shared_secret remote_public_key =
      let pair = generate_dh_key_pair secret in
      let first = kdf_root_step shared_secret (dh pair remote_public_key) in
      record {
        dh_sending = pair;
        dh_receiving = some remote_public_key;
        root_key = first.0;
        sending_chain_key = some first.1;
        receiving_chain_key = none;
        send_message_number = 0;
        receive_message_number = 0;
        previous_sending_chain_length = 0;
        skipped_message_keys = [];
      }

  unfoldable pub init_receiver : List ℕ → KeyPair → RatchetState
  init_receiver shared_secret local_key_pair = record {
    dh_sending = local_key_pair;
    dh_receiving = none;
    root_key = shared_secret;
    sending_chain_key = none;
    receiving_chain_key = none;
    send_message_number = 0;
    receive_message_number = 0;
    previous_sending_chain_length = 0;
    skipped_message_keys = [];
  }

  -- The new state, the header and the ciphertext.
  unfoldable pub ratchet_encrypt :
      RatchetState → List ℕ → Result (RatchetState × RatchetHeader × List ℕ)
  ratchet_encrypt s plaintext = do
    chain_key ← or_fail s.sending_chain_key no_sending_chain
    ok (
      record s {
        sending_chain_key = some (kdf_chain_step chain_key).0;
        send_message_number = s.send_message_number + 1;
      },
      record {
        dh_public_key = s.dh_sending.public_key;
        previous_chain_length = s.previous_sending_chain_length;
        message_number = s.send_message_number;
      },
      aes_encrypt (kdf_chain_step chain_key).1 plaintext,
    )

  -- `dhReceiving === null || !bytesEqual(header.dhPublicKey, dhReceiving)`
  unfoldable pub remote_key_changed : Option (List ℕ) → List ℕ → Bool
  remote_key_changed none key = true
  remote_key_changed (some old) key = if bytes_equal key old then false else true

  -- Step 2: what is left of the old receiving chain is skipped (`skip_message_keys` does nothing
  -- where there is none), then the ratchet turns.
  unfoldable pub follow_remote : List ℕ → RatchetState → RatchetHeader → Result RatchetState
  follow_remote secret s header = do
    left ← elim s.dh_receiving [
      | none ↦ ok s
      | some _ ↦ skip_message_keys s header.previous_chain_length
    ]
    ok (dh_ratchet_step secret left header.dh_public_key)

  -- Step 4, on the chain that step 3 has brought to the message.
  unfoldable pub open_message : RatchetState → List ℕ → Result (RatchetState × List ℕ)
  open_message s ciphertext = do
    chain_key ← or_fail s.receiving_chain_key no_receiving_chain
    plaintext ← or_fail (aes_decrypt (kdf_chain_step chain_key).1 ciphertext) decryption_failed
    ok (
      record s {
        receiving_chain_key = some (kdf_chain_step chain_key).0;
        receive_message_number = s.receive_message_number + 1;
      },
      plaintext,
    )

  unfoldable pub open_on_chain :
      List ℕ → RatchetState → RatchetHeader → List ℕ → Result (RatchetState × List ℕ)
  open_on_chain secret s header ciphertext = do
    followed ←
        if remote_key_changed s.dh_receiving header.dh_public_key
        then follow_remote secret s header
        else ok s
    ready ← skip_message_keys followed header.message_number
    open_message ready ciphertext

  unfoldable pub open_skipped :
      RatchetState → Text → List ℕ → List ℕ → Result (RatchetState × List ℕ)
  open_skipped s id key ciphertext = do
    plaintext ← or_fail (aes_decrypt key ciphertext) decryption_failed
    ok (record s { skipped_message_keys = delete id s.skipped_message_keys }, plaintext)

  unfoldable pub ratchet_decrypt :
      List ℕ → RatchetState → RatchetHeader → List ℕ → Result (RatchetState × List ℕ)
  ratchet_decrypt secret s header ciphertext =
      let id = skipped_key_id header.dh_public_key header.message_number in
      elim (get id s.skipped_message_keys) [
        | some key ↦ open_skipped s id key ciphertext
        | none ↦ open_on_chain secret s header ciphertext
      ]
