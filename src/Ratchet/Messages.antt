-- ===== src/Ratchet/Messages.antt =====
-- Messages in order, messages ahead, late messages, and the limit on what may be skipped.
use meshwhisper.Bytes.{Bytes}
use meshwhisper.Common.{ℕ, ◌+◌, ◌<◌, ◌≤◌, ◌≡◌, refl, ap, List, some, arith}
use meshwhisper.Common.TextMap.{get, delete}
use meshwhisper.Ratchet.{
  Crypto, RatchetState, ok, err, skipped_key_id, ratchet_decrypt, open_skipped, too_many_skipped,
}
use meshwhisper.Ratchet.Chain.{chain_at, message_key, aes_decrypt-encrypt}
use meshwhisper.Ratchet.Session.{
  transmit, Follows, Sends, header_of, sealed, advanced, opened_to, ratchet_encrypt_lem,
  ratchet_decrypt_ahead, ratchet_decrypt_far, opened_to-Follows, stored_key,
}

module _ (c : Crypto) where
  -- A message of a chain that the receiver follows is opened, in order or up to 2000 messages
  -- ahead, where the ratchet key is a byte array: the two sides go on behind it in step, and the
  -- keys of the messages that it overtook are stored.
  pub transmit_ahead :
      (secret key ck : List ℕ) (n m : ℕ) (s r : RatchetState) (plaintext : List ℕ)
      → Bytes key
      → Sends c key ck m s
      → Follows c key ck n r
      → n ≤ m
      → m ≤ n + 2000
      → (s' : RatchetState) × (r' : RatchetState) × (transmit c secret s r plaintext
          ≡ ok (s', r', plaintext))
        × Sends c key ck (m + 1) s'
        × Follows c key ck (m + 1) r'
        × ((i : ℕ)
            → n ≤ i
            → i < m
            → get (skipped_key_id key i) r'.skipped_message_keys ≡ some (message_key c ck i))
  unfolding transmit
  transmit_ahead secret key ck n m s r plaintext b sends follows le near = (
    advanced c s ck m,
    opened_to c key ck n m r,
    rw
        (
          ratchet_encrypt_lem c key ck m s plaintext sends,
          ratchet_decrypt_ahead c secret key ck n m s r plaintext b follows le near,
        )
        refl,
    record {
      own_key = sends.own_key;
      chain = ap (λ k. some (chain_at c ck k)) (omega arith);
      number = refl;
    },
    opened_to-Follows c key ck n m r follows le,
    λ i from to. stored_key c key ck n m r i from to,
  )

  -- A message more than 2000 ahead of a receiver that follows the chain, under a ratchet key that
  -- is a byte array, is refused.
  pub transmit_far :
      (secret key ck : List ℕ) (n m : ℕ) (s r : RatchetState) (plaintext : List ℕ)
      → Bytes key
      → Sends c key ck m s
      → Follows c key ck n r
      → n + 2000 < m
      → transmit c secret s r plaintext ≡ err too_many_skipped
  unfolding transmit
  transmit_far secret key ck n m s r plaintext b sends follows far =
      rw
        (
          ratchet_encrypt_lem c key ck m s plaintext sends,
          ratchet_decrypt_far c secret key ck n m s r (sealed c ck m plaintext) b follows far,
        )
        refl

  -- A message of the chain whose key the receiver has stored is opened with that key, which is then
  -- forgotten; the chain and the other stored keys stay.
  pub decrypt_late :
      (secret key ck : List ℕ) (i : ℕ) (s r : RatchetState) (plaintext : List ℕ)
      → get (skipped_key_id key i) r.skipped_message_keys ≡ some (message_key c ck i)
      → ratchet_decrypt c secret r (header_of c s key i) (sealed c ck i plaintext)
        ≡ ok (
          record r { skipped_message_keys = delete (skipped_key_id key i) r.skipped_message_keys },
          plaintext,
        )
  unfolding ratchet_decrypt open_skipped
  decrypt_late secret key ck i s r plaintext stored =
      rw
        (
          stored,
          ratchet_decrypt,
          open_skipped,
          aes_decrypt-encrypt c (message_key c ck i) plaintext,
        )
        refl
