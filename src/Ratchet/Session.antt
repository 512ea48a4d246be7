-- ===== src/Ratchet/Session.antt =====
-- A sender and a receiver on one sending chain, and what `ratchetDecrypt` does with a message of it.
use meshwhisper.Bytes.{Bytes}
use meshwhisper.Bytes.Laws.{bytes_equal_iff}
use meshwhisper.Common.{
  ℕ, zero, suc, ◌+◌, ◌-◌, ◌<◌, ◌≤◌, ◌≡◌, refl, sym, ap, ◌∙◌, true, false, List, none, some, ltb,
  if◌then◌else◌, arith,
}
use meshwhisper.Common.TextMap.{TextMap, get}
use meshwhisper.Ratchet.{
  Crypto, RatchetHeader, RatchetState, Result, ok, err, ◌>>=◌, skipped_key_id, kdf_chain_step,
  skip_keys, skip_message_keys, aes_encrypt, ratchet_encrypt, ratchet_decrypt, open_message,
  open_on_chain, remote_key_changed, too_many_skipped,
}
use meshwhisper.Ratchet.Chain.{
  chain_at, message_key, skipped_key_id_injective, skip_keys-chain, skip_keys_other,
  skip_keys_stored, aes_decrypt-encrypt,
}

module _ (c : Crypto) where
  remote_key_same : (key : List ℕ) → Bytes key → remote_key_changed c (some key) key ≡ false
  unfolding remote_key_changed
  remote_key_same key h = rw ((bytes_equal_iff key key h h).1 refl) refl

  -- One message: `s` encrypts it and `r` decrypts it.
  unfoldable pub transmit :
      List ℕ → RatchetState → RatchetState → List ℕ → Result (RatchetState × RatchetState × List ℕ)
  transmit secret s r plaintext = do
    (s', header, ciphertext) ← ratchet_encrypt c s plaintext
    (r', opened) ← ratchet_decrypt c secret r header ciphertext
    ok (s', r', opened)

  -- The receiver `r` is at message `n` of the chain that starts at `ck`, under the ratchet key
  -- `key`, and has no key stored for a message from `n` on.
  pub record Follows (key ck : List ℕ) (n : ℕ) (r : RatchetState) : Type 0 where
    pub remote : r.dh_receiving ≡ some key
    pub chain : r.receiving_chain_key ≡ some (chain_at c ck n)
    pub number : r.receive_message_number ≡ n
    pub fresh : (i : ℕ) → n ≤ i → get (skipped_key_id key i) r.skipped_message_keys ≡ none

  -- The sender `s` is at message `m` of that chain.
  pub record Sends (key ck : List ℕ) (m : ℕ) (s : RatchetState) : Type 0 where
    pub own_key : s.dh_sending.public_key ≡ key
    pub chain : s.sending_chain_key ≡ some (chain_at c ck m)
    pub number : s.send_message_number ≡ m

  -- The header and the ciphertext of message `m`.
  abbrev pub header_of : RatchetState → List ℕ → ℕ → RatchetHeader
  header_of s key m = record {
    dh_public_key = key;
    previous_chain_length = s.previous_sending_chain_length;
    message_number = m;
  }

  abbrev pub sealed : List ℕ → ℕ → List ℕ → List ℕ
  sealed ck m plaintext = aes_encrypt c (message_key c ck m) plaintext

  abbrev pub advanced : RatchetState → List ℕ → ℕ → RatchetState
  advanced s ck m = record s {
    sending_chain_key = some (chain_at c ck (suc m));
    send_message_number = m + 1;
  }

  pub ratchet_encrypt_lem :
      (key ck : List ℕ) (m : ℕ) (s : RatchetState) (plaintext : List ℕ)
      → Sends key ck m s
      → ratchet_encrypt c s plaintext
        ≡ ok (advanced s ck m, header_of s key m, sealed ck m plaintext)
  unfolding ratchet_encrypt chain_at message_key
  ratchet_encrypt_lem key ck m s plaintext h = rw (h.chain, h.own_key, h.number) refl

  -- The state that has skipped up to message `m`.
  abbrev pub skipped_to : List ℕ → List ℕ → ℕ → ℕ → RatchetState → RatchetState
  skipped_to key ck n m r = record r {
    receiving_chain_key =
        some (skip_keys c (m - n) key n (chain_at c ck n) r.skipped_message_keys).0;
    receive_message_number = n + (m - n);
    skipped_message_keys = (skip_keys c (m - n) key n (chain_at c ck n) r.skipped_message_keys).1;
  }

  pub skip_message_keys_lem :
      (key ck : List ℕ) (n m : ℕ) (r : RatchetState)
      → Follows key ck n r
      → skip_message_keys c r m
        ≡ (if ltb 2000 (m - n) then err too_many_skipped else ok (skipped_to key ck n m r))
  unfolding skip_message_keys
  skip_message_keys_lem key ck n m r h = rw (h.remote, h.chain, h.number) refl

  -- The state after message `m` has been opened.
  abbrev pub opened_to : List ℕ → List ℕ → ℕ → ℕ → RatchetState → RatchetState
  opened_to key ck n m r = record (skipped_to key ck n m r) {
    receiving_chain_key = some (chain_at c ck (suc m));
    receive_message_number = m + 1;
  }

  plus_suc : (n k : ℕ) → suc (n + k) ≡ n + suc k
  plus_suc n k = omega arith

  chain_at_add : (ck : List ℕ) (n k : ℕ) → chain_at c (chain_at c ck n) k ≡ chain_at c ck (n + k)
  unfolding chain_at
  chain_at_add ck n zero = ap (chain_at c ck) (omega arith)
  chain_at_add ck n (suc k) =
      ap (λ z. (kdf_chain_step c z).0) (chain_at_add ck n k) ∙ ap (chain_at c ck) (plus_suc n k)

  skipped_chain :
      (key ck : List ℕ) (n m : ℕ) (skipped : TextMap (List ℕ))
      → n ≤ m
      → (skip_keys c (m - n) key n (chain_at c ck n) skipped).0 ≡ chain_at c ck m
  skipped_chain key ck n m skipped h =
      skip_keys-chain c (m - n) key n (chain_at c ck n) skipped
      ∙ chain_at_add ck n (m - n)
      ∙ ap (chain_at c ck) (omega arith)

  pub open_message_lem :
      (key ck : List ℕ) (n m : ℕ) (r : RatchetState) (plaintext : List ℕ)
      → n ≤ m
      → open_message c (skipped_to key ck n m r) (sealed ck m plaintext)
        ≡ ok (opened_to key ck n m r, plaintext)
  unfolding open_message chain_at message_key
  open_message_lem key ck n m r plaintext h =
      let number : n + (m - n) ≡ m = omega arith in
      rw
        (
          skipped_chain key ck n m r.skipped_message_keys h,
          aes_decrypt-encrypt c (message_key c ck m) plaintext,
          number,
        )
        refl

  remote_known :
      (key ck : List ℕ) (n : ℕ) (r : RatchetState)
      → Bytes key
      → Follows key ck n r
      → remote_key_changed c r.dh_receiving key ≡ false
  remote_known key ck n r b h = rw h.remote (remote_key_same key b)

  -- A message from `n` on, at most 2000 away, is opened on the chain.
  pub ratchet_decrypt_ahead :
      (secret key ck : List ℕ) (n m : ℕ) (s r : RatchetState) (plaintext : List ℕ)
      → Bytes key
      → Follows key ck n r
      → n ≤ m
      → m ≤ n + 2000
      → ratchet_decrypt c secret r (header_of s key m) (sealed ck m plaintext)
        ≡ ok (opened_to key ck n m r, plaintext)
  unfolding ratchet_decrypt open_on_chain
  ratchet_decrypt_ahead secret key ck n m s r plaintext b h le near =
      let within : ltb 2000 (m - n) ≡ false = ground arith in
      rw
        (
          h.fresh m le,
          ratchet_decrypt,
          open_on_chain,
          remote_known key ck n r b h,
          skip_message_keys_lem key ck n m r h,
          within,
        )
        (open_message_lem key ck n m r plaintext le)

  -- A message more than 2000 away is refused.
  pub ratchet_decrypt_far :
      (secret key ck : List ℕ) (n m : ℕ) (s r : RatchetState) (ciphertext : List ℕ)
      → Bytes key
      → Follows key ck n r
      → n + 2000 < m
      → ratchet_decrypt c secret r (header_of s key m) ciphertext ≡ err too_many_skipped
  unfolding ratchet_decrypt open_on_chain
  ratchet_decrypt_far secret key ck n m s r ciphertext b h far =
      let beyond : ltb 2000 (m - n) ≡ true = ground arith in
      rw
        (
          h.fresh m (omega arith),
          ratchet_decrypt,
          open_on_chain,
          remote_known key ck n r b h,
          skip_message_keys_lem key ck n m r h,
          beyond,
        )
        refl

  pub opened_to-Follows :
      (key ck : List ℕ) (n m : ℕ) (r : RatchetState)
      → Follows key ck n r
      → n ≤ m
      → Follows key ck (m + 1) (opened_to key ck n m r)
  opened_to-Follows key ck n m r h le = record {
    remote = h.remote;
    chain = ap (λ k. some (chain_at c ck k)) (omega arith);
    number = refl;
    fresh = λ i l.
        skip_keys_other c (m - n) key n (chain_at c ck n) r.skipped_message_keys
          (skipped_key_id key i)
          (λ j lt e. absurd (omega (arith, skipped_key_id_injective key i (n + j) e)))
        ∙ h.fresh i (omega arith);
  }

  pub stored_key :
      (key ck : List ℕ) (n m : ℕ) (r : RatchetState) (i : ℕ)
      → n ≤ i
      → i < m
      → get (skipped_key_id key i) (opened_to key ck n m r).skipped_message_keys
        ≡ some (message_key c ck i)
  unfolding message_key
  stored_key key ck n m r i from to =
      let place : n + (i - n) ≡ i = omega arith in
      ap (λ j. get (skipped_key_id key j) (opened_to key ck n m r).skipped_message_keys) (sym place)
      ∙ skip_keys_stored c (m - n) key n (chain_at c ck n) r.skipped_message_keys (i - n)
          (omega arith)
      ∙ ap (λ k. some (kdf_chain_step c k).1) (chain_at_add ck n (i - n) ∙ ap (chain_at c ck) place)
