-- ===== src/Handshake/Tests.antt =====
-- A toy instance of the primitives, and the witness of the agreement.
use meshwhisper.Common.{
  ◌≡◌, refl, true, List, [], ◌∷◌, ◌++◌, none, some, ℕ, zeros, length-zeros, ok,
}
use meshwhisper.Handshake.{
  PreKeyBundle, Primitives, KeyExchangeResult, generate_pre_key_bundle, initiate_key_exchange,
  complete_key_exchange,
}
use meshwhisper.Handshake.Serialization.{
  serialize_pre_key_bundle, deserialize_pre_key_bundle, read_bundle,
}
use meshwhisper.Handshake.Serialization.RoundTrip.{deserialize-serialize}
use meshwhisper.Handshake.Serialization.Sizes.{IsSized, deserialize-IsSized}
use meshwhisper.Handshake.Agreement.{when, published, identity_pair, complete-initiate}

-- Keys are their own public keys, and the secrets of two sides are empty.
abbrev toy_primitives : Primitives
toy_primitives = record {
  dh_public = λ a. a;
  shared_secret = λ a b. [];
  shared_secret_comm = λ a b. refl;
  identity_public = λ a. a;
  sign = λ message secret. message;
  verify = λ signature message key. true;
  verify-sign = λ message secret. refl;
  to_montgomery = λ a. a;
  to_montgomery_secret = λ a. a;
  to_montgomery-identity_public = λ a. refl;
  kem_public = λ a. a;
  encapsulate = λ public random. (random, random);
  decapsulate = λ ciphertext secret. ciphertext;
  decapsulate-encapsulate = λ secret random. refl;
  derive = λ input. input;
  derive_pqxdh = λ input. 1 ∷ input;
}

complete-initiate_example :
    let g =
      generate_pre_key_bundle toy_primitives
        (identity_pair toy_primitives (2 ∷ []))
        (3 ∷ [])
        (4 ∷ [])
        (5 ∷ []) in
    (r : KeyExchangeResult) × (initiate_key_exchange toy_primitives
        (1 ∷ [])
        (6 ∷ [])
        (7 ∷ [])
        (published toy_primitives true true g.bundle)
      ≡ some r)
    × (r.used_one_time_pre_key ≡ true)
    × (complete_key_exchange toy_primitives
          (2 ∷ [])
          g.signed_pre_key_pair
          (when r.used_one_time_pre_key g.one_time_pre_key_pair)
          (1 ∷ [])
          r.ephemeral_public_key
          r.pq_ciphertext
          (some g.pq_secret_key)
        ≡ r.shared_secret)
complete-initiate_example =
    complete-initiate toy_primitives (1 ∷ []) (2 ∷ []) (3 ∷ []) (4 ∷ []) (5 ∷ []) (6 ∷ []) (7 ∷ [])
      true true

abbrev sized_bundle : PreKeyBundle
sized_bundle = record {
  identity_key = zeros 32;
  signed_pre_key = zeros 32;
  signed_pre_key_signature = zeros 64;
  one_time_pre_key = some (zeros 32);
  pq_public_key = none;
}

deserialize-serialize_example :
    (d : List ℕ) × (serialize_pre_key_bundle sized_bundle ≡ ok d)
    × ((rest : List ℕ) → deserialize_pre_key_bundle (d ++ rest) ≡ ok sized_bundle)
deserialize-serialize_example =
    deserialize-serialize sized_bundle (length-zeros 32) (length-zeros 32) (length-zeros 64) tt
      (length-zeros 32)

abbrev sized_bytes : List ℕ
sized_bytes = 1 ∷ 1 ∷ zeros 160

sized_bytes_read : deserialize_pre_key_bundle sized_bytes ≡ ok sized_bundle
unfolding deserialize_pre_key_bundle read_bundle zeros
sized_bytes_read = refl

deserialize-IsSized_example : IsSized sized_bundle
deserialize-IsSized_example = deserialize-IsSized sized_bytes sized_bundle sized_bytes_read
