-- ===== src/Handshake/Agreement.antt =====
-- The two sides of the key agreement derive one secret.
use meshwhisper.Common.{
  ℕ, ◌≡◌, refl, sym, ap, Bool, true, false, List, ◌++◌, Option, none, some, if◌then◌else◌,
}
use mathlib.Core.Path.{ap₂}
use meshwhisper.Handshake.{
  Primitives, KeyPair, PreKeyBundle, KeyExchangeResult, key_pair, generate_pre_key_bundle,
  verify_pre_key_bundle, one_time_part, finish_initiate, initiate_key_exchange, one_time_answer,
  finish_complete, complete_key_exchange,
}

abbrev pub when {ℓ} : {A : Type ℓ} → Bool → A → Option A
when true a = some a
when false a = none

module _ (x : Primitives) where
  -- The bundle that is handed out, with or without its one-time pre-key and its KEM key.
  abbrev pub published : Bool → Bool → PreKeyBundle → PreKeyBundle
  published one_time pq b = record {
    identity_key = b.identity_key;
    signed_pre_key = b.signed_pre_key;
    signed_pre_key_signature = b.signed_pre_key_signature;
    one_time_pre_key = if one_time then b.one_time_pre_key else none;
    pq_public_key = if pq then b.pq_public_key else none;
  }

  -- The identity's pair of a secret.
  abbrev pub identity_pair : List ℕ → KeyPair
  identity_pair secret = record { public_key = x.identity_public secret; private_key = secret }

  -- The joined parts, as each side computes them.
  module _ (alice bob signed one_time_secret ephemeral : List ℕ) where
    same_parts :
        (one_time : Bool)
        → x.shared_secret (x.to_montgomery_secret alice) (x.dh_public signed)
            ++ (x.shared_secret ephemeral (x.to_montgomery (x.identity_public bob))
                ++ (x.shared_secret ephemeral (x.dh_public signed)
                    ++ one_time_part x ephemeral (when one_time (x.dh_public one_time_secret))))
          ≡ x.shared_secret signed (x.to_montgomery (x.identity_public alice))
            ++ (x.shared_secret (x.to_montgomery_secret bob) (x.dh_public ephemeral)
                ++ (x.shared_secret signed (x.dh_public ephemeral)
                    ++ one_time_answer x
                        (when one_time (key_pair x one_time_secret))
                        (x.dh_public ephemeral)))
    unfolding one_time_part one_time_answer key_pair
    same_parts true =
        rw
          (
            x.to_montgomery-identity_public alice,
            x.to_montgomery-identity_public bob,
            x.shared_secret_comm (x.to_montgomery_secret alice) signed,
            x.shared_secret_comm ephemeral (x.to_montgomery_secret bob),
            x.shared_secret_comm ephemeral signed,
            x.shared_secret_comm ephemeral one_time_secret,
          )
          refl
    same_parts false =
        rw
          (
            x.to_montgomery-identity_public alice,
            x.to_montgomery-identity_public bob,
            x.shared_secret_comm (x.to_montgomery_secret alice) signed,
            x.shared_secret_comm ephemeral (x.to_montgomery_secret bob),
            x.shared_secret_comm ephemeral signed,
          )
          refl

  -- What the initiator sends, with its secret.
  abbrev result :
      (alice bob signed one_time_secret pq_secret ephemeral random : List ℕ)
      → Bool
      → Bool
      → KeyExchangeResult
  result alice bob signed one_time_secret pq_secret ephemeral random one_time pq =
      let b =
        published one_time pq
          (generate_pre_key_bundle x (identity_pair bob) signed one_time_secret pq_secret).bundle in
      finish_initiate x ephemeral random b (
        x.shared_secret (x.to_montgomery_secret alice) b.signed_pre_key
        ++ (x.shared_secret ephemeral (x.to_montgomery b.identity_key)
            ++ (x.shared_secret ephemeral b.signed_pre_key
                ++ one_time_part x ephemeral b.one_time_pre_key)))

  -- With a bundle that `generatePreKeyBundle` made, published with or without its one-time pre-key
  -- and its KEM key, the initiator's exchange does not throw, and the responder derives the same
  -- secret from what the initiator sends.
  pub complete-initiate :
      (alice bob signed one_time_secret pq_secret ephemeral random : List ℕ) (one_time pq : Bool)
      → let g = generate_pre_key_bundle x (identity_pair bob) signed one_time_secret pq_secret in
        (r : KeyExchangeResult) × (initiate_key_exchange x alice ephemeral random
            (published one_time pq g.bundle)
          ≡ some r)
        × (r.used_one_time_pre_key ≡ one_time)
        × (complete_key_exchange x bob g.signed_pre_key_pair
              (when r.used_one_time_pre_key g.one_time_pre_key_pair)
              (x.identity_public alice)
              r.ephemeral_public_key
              r.pq_ciphertext
              (some g.pq_secret_key)
            ≡ r.shared_secret)
  unfolding generate_pre_key_bundle initiate_key_exchange complete_key_exchange
      verify_pre_key_bundle finish_initiate finish_complete key_pair one_time_part one_time_answer
  complete-initiate alice bob signed one_time_secret pq_secret ephemeral random true true = (
    result alice bob signed one_time_secret pq_secret ephemeral random true true,
    rw (x.verify-sign (x.dh_public signed) bob) refl,
    refl,
    ap₂ (λ p s. x.derive_pqxdh (p ++ s))
        (sym (same_parts alice bob signed one_time_secret ephemeral true))
        (x.decapsulate-encapsulate pq_secret random),
  )
  complete-initiate alice bob signed one_time_secret pq_secret ephemeral random true false = (
    result alice bob signed one_time_secret pq_secret ephemeral random true false,
    rw (x.verify-sign (x.dh_public signed) bob) refl,
    refl,
    ap x.derive (sym (same_parts alice bob signed one_time_secret ephemeral true)),
  )
  complete-initiate alice bob signed one_time_secret pq_secret ephemeral random false true = (
    result alice bob signed one_time_secret pq_secret ephemeral random false true,
    rw (x.verify-sign (x.dh_public signed) bob) refl,
    refl,
    ap₂ (λ p s. x.derive_pqxdh (p ++ s))
        (sym (same_parts alice bob signed one_time_secret ephemeral false))
        (x.decapsulate-encapsulate pq_secret random),
  )
  complete-initiate alice bob signed one_time_secret pq_secret ephemeral random false false = (
    result alice bob signed one_time_secret pq_secret ephemeral random false false,
    rw (x.verify-sign (x.dh_public signed) bob) refl,
    refl,
    ap x.derive (sym (same_parts alice bob signed one_time_secret ephemeral false)),
  )
