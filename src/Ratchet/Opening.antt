-- ===== src/Ratchet/Opening.antt =====
-- The first message of a session, between `initSender` and `initReceiver`.
use meshwhisper.Common.{ℕ, ◌≡◌, refl, ap, List, some, arith}
use meshwhisper.Common.TextMap.{get}
use meshwhisper.Ratchet.{
  Crypto, RatchetState, ok, ratchet_decrypt, open_on_chain, remote_key_changed, init_sender,
  init_receiver, generate_dh_key_pair, dh, kdf_root_step, follow_remote, dh_ratchet_step,
}
use meshwhisper.Ratchet.Chain.{chain_at}
use meshwhisper.Ratchet.Session.{
  transmit, Follows, Sends, header_of, sealed, advanced, opened_to, ratchet_encrypt_lem,
  skip_message_keys_lem, open_message_lem, opened_to-Follows,
}

module _ (c : Crypto) where
  -- The chain key that both sides of a new session derive.
  unfoldable first_chain : List ℕ → List ℕ → List ℕ → List ℕ
  first_chain own remote shared =
      (kdf_root_step c shared (c.shared_secret own (c.public_key remote))).1

  init_sender-Sends :
      (own remote shared : List ℕ)
      → Sends c
          (c.public_key own)
          (first_chain own remote shared)
          0
          (init_sender c own shared (c.public_key remote))
  unfolding first_chain init_sender chain_at generate_dh_key_pair dh
  init_sender-Sends own remote shared = record { own_key = refl; chain = refl; number = refl }

  -- The receiver of a new session, when the first message has turned its ratchet.
  abbrev turned : List ℕ → List ℕ → List ℕ → List ℕ → RatchetState
  turned own remote secret shared =
      dh_ratchet_step c secret (init_receiver c shared (generate_dh_key_pair c remote))
        (c.public_key own)

  turned-Follows :
      (own remote secret shared : List ℕ)
      → Follows c
          (c.public_key own)
          (first_chain own remote shared)
          0
          (turned own remote secret shared)
  unfolding first_chain init_receiver dh_ratchet_step chain_at generate_dh_key_pair dh
  turned-Follows own remote secret shared = record {
    remote = refl;
    chain = ap (λ z. some (kdf_root_step c shared z).1) (c.shared_secret_comm remote own);
    number = refl;
    fresh = λ i l. unfold get in refl;
  }

  ratchet_decrypt_first :
      (own remote secret shared : List ℕ) (s : RatchetState) (plaintext : List ℕ)
      → ratchet_decrypt c secret
          (init_receiver c shared (generate_dh_key_pair c remote))
          (header_of c s (c.public_key own) 0)
          (sealed c (first_chain own remote shared) 0 plaintext)
        ≡ ok (
          opened_to c
              (c.public_key own)
              (first_chain own remote shared)
              0
              0
              (turned own remote secret shared),
          plaintext,
        )
  unfolding ratchet_decrypt open_on_chain init_receiver follow_remote remote_key_changed get
  ratchet_decrypt_first own remote secret shared s plaintext =
      rw
        (skip_message_keys_lem c (c.public_key own) (first_chain own remote shared) 0 0
          (turned own remote secret shared) (turned-Follows own remote secret shared))
        (open_message_lem c (c.public_key own) (first_chain own remote shared) 0 0
          (turned own remote secret shared) plaintext (omega arith))

  -- The first message of a session, from `initSender` with the receiver's public key to
  -- `initReceiver` with its key pair and the same shared secret, is opened; after it the receiver
  -- follows the sender's chain.
  pub transmit_first :
      (own remote secret shared : List ℕ) (plaintext : List ℕ)
      → (s' : RatchetState) × (r' : RatchetState) × (ck : List ℕ) × (transmit c secret
            (init_sender c own shared (c.public_key remote))
            (init_receiver c shared (generate_dh_key_pair c remote))
            plaintext
          ≡ ok (s', r', plaintext))
        × Sends c (c.public_key own) ck 1 s'
        × Follows c (c.public_key own) ck 1 r'
  unfolding transmit
  transmit_first own remote secret shared plaintext =
      let key = c.public_key own in
      let ck = first_chain own remote shared in
      let sender = init_sender c own shared (c.public_key remote) in
      let sends = init_sender-Sends own remote shared in
      let follows = turned-Follows own remote secret shared in
      (
        advanced c sender ck 0,
        opened_to c key ck 0 0 (turned own remote secret shared),
        ck,
        rw
            (
              ratchet_encrypt_lem c key ck 0 sender plaintext sends,
              ratchet_decrypt_first own remote secret shared sender plaintext,
            )
            refl,
        record { own_key = sends.own_key; chain = refl; number = refl },
        opened_to-Follows c key ck 0 0 (turned own remote secret shared) follows (omega arith),
      )
