-- ===== src/Ratchet/Turns.antt =====
-- The Diffie-Hellman ratchet: the two sides agree on the root key from turn to turn.
use meshwhisper.Common.{
  ℕ, ◌+◌, ◌-◌, ◌≤◌, ◌≡◌, refl, sym, ap, ◌∙◌, true, List, none, some, Option-cases, inl, inr, arith,
}
use meshwhisper.Common.TextMap.{get}
use meshwhisper.Ratchet.{
  Crypto, RatchetHeader, RatchetState, ok, skipped_key_id, skip_keys, skip_message_keys,
  ratchet_decrypt, open_on_chain, remote_key_changed, generate_dh_key_pair, dh, kdf_root_step,
  follow_remote, dh_ratchet_step,
}
use meshwhisper.Ratchet.Chain.{chain_at}
use meshwhisper.Ratchet.Session.{
  transmit, Sends, Follows, header_of, sealed, advanced, opened_to, ratchet_encrypt_lem,
  skip_message_keys_lem, open_message_lem,
}

module _ (c : Crypto) where
  -- The chain that the root key `root` and the two keys give.
  unfoldable pub turn_chain : List ℕ → List ℕ → List ℕ → List ℕ
  turn_chain root own remote = (kdf_root_step c root (c.shared_secret own (c.public_key remote))).1

  unfoldable pub turn_root : List ℕ → List ℕ → List ℕ → List ℕ
  turn_root root own remote = (kdf_root_step c root (c.shared_secret own (c.public_key remote))).0

  -- `ahead`, with the secret `b`, has turned its ratchet against the public key of `a`; `behind`,
  -- with the secret `a`, has not heard of it. Nothing is left in `behind`'s old chain, and no key
  -- is stored for the new one.
  pub record Ahead (a b : List ℕ) (behind ahead : RatchetState) : Type 0 where
    pub own : behind.dh_sending ≡ generate_dh_key_pair c a
    pub other : ahead.dh_sending ≡ generate_dh_key_pair c b
    pub chain : ahead.sending_chain_key ≡ some (turn_chain behind.root_key b a)
    pub root : ahead.root_key ≡ turn_root behind.root_key b a
    pub number : ahead.send_message_number ≡ 0
    pub complete : ahead.previous_sending_chain_length ≤ behind.receive_message_number
    pub fresh : (i : ℕ) → get (skipped_key_id (c.public_key b) i) behind.skipped_message_keys ≡ none

  skip_message_keys_nothing :
      (s : RatchetState) (until : ℕ) (chain_key : List ℕ)
      → s.receiving_chain_key ≡ some chain_key
      → until ≤ s.receive_message_number
      → skip_message_keys c s until ≡ ok (record s { receiving_chain_key = some chain_key })
  unfolding skip_message_keys skip_keys
  skip_message_keys_nothing s until chain_key e h =
      let nothing : until - s.receive_message_number ≡ 0 = omega arith in
      let number : s.receive_message_number + (until - s.receive_message_number)
          ≡ s.receive_message_number =
        omega arith in
      rw (e, number, nothing) refl

  -- Nothing is skipped where the chain is there already.
  skip_message_keys_done :
      (s : RatchetState) (until : ℕ)
      → until ≤ s.receive_message_number
      → skip_message_keys c s until ≡ ok s
  unfolding skip_message_keys skip_keys
  skip_message_keys_done s until h = elim (Option-cases s.receiving_chain_key) [
    | inl e ↦ simp (e, skip_message_keys) refl
    | inr (chain_key, e) ↦
        skip_message_keys_nothing s until chain_key e h
        ∙ ap (λ k. ok (record s { receiving_chain_key = k })) (sym e)
  ]

  follow_remote_lem :
      (secret : List ℕ) (s : RatchetState) (header : RatchetHeader)
      → header.previous_chain_length ≤ s.receive_message_number
      → follow_remote c secret s header ≡ ok (dh_ratchet_step c secret s header.dh_public_key)
  unfolding follow_remote
  follow_remote_lem secret s header h = elim (Option-cases s.dh_receiving) [
    | inl e ↦ simp (e, follow_remote) refl
    | inr (old, e) ↦
        simp (e, follow_remote, skip_message_keys_done s header.previous_chain_length h) refl
  ]

  -- What the receiver has turned to.
  abbrev pub turned_to : List ℕ → List ℕ → RatchetState → RatchetState
  turned_to secret b s = dh_ratchet_step c secret s (c.public_key b)

  turned_to-Follows :
      (a b secret : List ℕ) (behind ahead : RatchetState)
      → Ahead a b behind ahead
      → Follows c (c.public_key b) (turn_chain behind.root_key b a) 0 (turned_to secret b behind)
  unfolding turn_chain dh_ratchet_step chain_at generate_dh_key_pair dh
  turned_to-Follows a b secret behind ahead h = record {
    remote = refl;
    chain =
        rw h.own (ap (λ z. some (kdf_root_step c behind.root_key z).1) (c.shared_secret_comm a b));
    number = refl;
    fresh = λ i l. h.fresh i;
  }

  ratchet_decrypt_turn :
      (a b secret : List ℕ) (behind ahead : RatchetState) (plaintext : List ℕ)
      → Ahead a b behind ahead
      → remote_key_changed c behind.dh_receiving (c.public_key b) ≡ true
      → ratchet_decrypt c secret behind
          (header_of c ahead (c.public_key b) 0)
          (sealed c (turn_chain behind.root_key b a) 0 plaintext)
        ≡ ok (
          opened_to c
              (c.public_key b)
              (turn_chain behind.root_key b a)
              0
              0
              (turned_to secret b behind),
          plaintext,
        )
  unfolding ratchet_decrypt open_on_chain follow_remote
  ratchet_decrypt_turn a b secret behind ahead plaintext h changed =
      let chain = turn_chain behind.root_key b a in
      let turn =
        skip_message_keys_lem c (c.public_key b) chain 0 0 (turned_to secret b behind)
          (turned_to-Follows a b secret behind ahead h) in
      let message =
        open_message_lem c (c.public_key b) chain 0 0 (turned_to secret b behind) plaintext
          (omega arith) in
      rw
        (
          h.fresh 0,
          ratchet_decrypt,
          open_on_chain,
          changed,
          follow_remote_lem secret behind (header_of c ahead (c.public_key b) 0) h.complete,
          turn,
        )
        message

  root_agrees :
      (a b : List ℕ) (behind ahead : RatchetState)
      → Ahead a b behind ahead
      → (kdf_root_step c behind.root_key (dh c behind.dh_sending (c.public_key b))).0
        ≡ ahead.root_key
  unfolding turn_root dh generate_dh_key_pair
  root_agrees a b behind ahead h =
      rw h.own (ap (λ z. (kdf_root_step c behind.root_key z).0) (c.shared_secret_comm a b))
      ∙ sym h.root

  -- Root-key agreement from turn to turn. `ahead` has turned its ratchet against the key of
  -- `behind`, which has received its old chain to the end, holds another remote key and stores none
  -- for the new one; then the first message of `ahead` is opened by `behind`, which turns its own
  -- ratchet by a new secret, and the two stand as before with the roles exchanged, provided that
  -- `ahead` has received all that `behind` sent and stores no key for the key of that secret.
  pub transmit_turn :
      (a b secret : List ℕ) (behind ahead : RatchetState) (plaintext : List ℕ)
      → Ahead a b behind ahead
      → remote_key_changed c behind.dh_receiving (c.public_key b) ≡ true
      → behind.send_message_number ≤ ahead.receive_message_number
      → ((i : ℕ) → get (skipped_key_id (c.public_key secret) i) ahead.skipped_message_keys ≡ none)
      → (ahead' : RatchetState) × (behind' : RatchetState) × (transmit c secret ahead behind
            plaintext
          ≡ ok (ahead', behind', plaintext))
        × Ahead b secret ahead' behind'
  unfolding transmit turn_chain turn_root dh_ratchet_step generate_dh_key_pair dh chain_at
      kdf_root_step
  transmit_turn a b secret behind ahead plaintext h changed arrived fresh =
      let key = c.public_key b in
      let chain = turn_chain behind.root_key b a in
      let sends : Sends c key chain 0 ahead = record {
        own_key = ap (λ p. p.public_key) h.other;
        chain = h.chain;
        number = h.number;
      } in
      (
        advanced c ahead chain 0,
        opened_to c key chain 0 0 (turned_to secret b behind),
        rw
            (
              ratchet_encrypt_lem c key chain 0 ahead plaintext sends,
              ratchet_decrypt_turn a b secret behind ahead plaintext h changed,
            )
            refl,
        record {
          own = h.other;
          other = refl;
          chain =
              ap (λ r. some (kdf_root_step c r (c.shared_secret secret key)).1)
                (root_agrees a b behind ahead h);
          root =
              ap (λ r. (kdf_root_step c r (c.shared_secret secret key)).0)
                (root_agrees a b behind ahead h);
          number = refl;
          complete = arrived;
          fresh = fresh;
        },
      )
