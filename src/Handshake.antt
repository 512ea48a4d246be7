-- ===== src/Handshake.antt =====
-- src/x3dh/index.ts: the key agreement X3DH with its post-quantum extension. The primitives of the
-- @noble packages are a parameter, `Primitives`, with the documented behaviour that the code relies
-- on; random secrets are arguments.
pub mod Agreement
pub mod Serialization
mod Tests
use meshwhisper.Common.{
  ℕ, zero, suc, ℤ, pos, negsuc, ◌≡◌, Bool, true, false, List, [], ◌∷◌, ◌++◌, Option, none, some,
  if◌then◌else◌,
}

pub record Primitives : Type 0 where
  -- `x25519.getPublicKey` and `x25519.getSharedSecret(private, public)`
  pub dh_public : List ℕ → List ℕ
  pub shared_secret : List ℕ → List ℕ → List ℕ
  pub shared_secret_comm :
      (a b : List ℕ) → shared_secret a (dh_public b) ≡ shared_secret b (dh_public a)
  -- Ed25519 keys, their signatures, and their conversion to X25519 keys
  pub identity_public : List ℕ → List ℕ
  pub sign : List ℕ → List ℕ → List ℕ
  pub verify : List ℕ → List ℕ → List ℕ → Bool
  pub verify-sign :
      (message secret : List ℕ)
      → verify (sign message secret) message (identity_public secret) ≡ true
  pub to_montgomery : List ℕ → List ℕ
  pub to_montgomery_secret : List ℕ → List ℕ
  pub to_montgomery-identity_public :
      (secret : List ℕ)
      → to_montgomery (identity_public secret) ≡ dh_public (to_montgomery_secret secret)
  -- ML-KEM-768: the public key of a secret key, the ciphertext and the secret that it carries
  pub kem_public : List ℕ → List ℕ
  pub encapsulate : List ℕ → List ℕ → List ℕ × List ℕ
  pub decapsulate : List ℕ → List ℕ → List ℕ
  pub decapsulate-encapsulate :
      (secret random : List ℕ)
      → decapsulate (encapsulate (kem_public secret) random).0 secret
        ≡ (encapsulate (kem_public secret) random).1
  -- `blake3(input)` and `blake3(input, { context: PQXDH_KDF_CONTEXT })`
  pub derive : List ℕ → List ℕ
  pub derive_pqxdh : List ℕ → List ℕ

-- A key pair of any kind; what it is for, its `keyType`, is in the type here.
pub record KeyPair : Type 0 where
  pub public_key : List ℕ
  pub private_key : List ℕ

pub record DhKeyPair : Type 0 where
  pub public_key : List ℕ
  pub private_key : List ℕ

-- The number `count`: an integer, or one that `Number.isInteger` refuses.
pub data Count : Type 0 where
  integer : ℤ → Count
  no_integer : Count

pub record PreKeyBundle : Type 0 where
  pub identity_key : List ℕ
  pub signed_pre_key : List ℕ
  pub signed_pre_key_signature : List ℕ
  pub one_time_pre_key : Option (List ℕ)
  pub pq_public_key : Option (List ℕ)

pub record GeneratedPreKeyBundle : Type 0 where
  pub bundle : PreKeyBundle
  pub signed_pre_key_pair : DhKeyPair
  pub one_time_pre_key_pair : DhKeyPair
  pub pq_secret_key : List ℕ

pub record KeyExchangeResult : Type 0 where
  pub shared_secret : List ℕ
  pub ephemeral_public_key : List ℕ
  pub used_one_time_pre_key : Bool
  pub pq_ciphertext : Option (List ℕ)

abbrev pub is_given : Option (List ℕ) → Bool
is_given none = false
is_given (some _) = true

module _ (x : Primitives) where
  unfoldable pub key_pair : List ℕ → DhKeyPair
  key_pair secret = record { public_key = x.dh_public secret; private_key = secret }

  -- The identity's pair, then the random secrets of the two pre-keys and of the KEM.
  unfoldable pub generate_pre_key_bundle :
      KeyPair → List ℕ → List ℕ → List ℕ → GeneratedPreKeyBundle
  unfolding key_pair
  generate_pre_key_bundle identity signed_secret one_time_secret pq_secret = record {
    bundle = record {
      identity_key = identity.public_key;
      signed_pre_key = x.dh_public signed_secret;
      signed_pre_key_signature = x.sign (x.dh_public signed_secret) identity.private_key;
      one_time_pre_key = some (x.dh_public one_time_secret);
      pq_public_key = some (x.kem_public pq_secret);
    };
    signed_pre_key_pair = key_pair signed_secret;
    one_time_pre_key_pair = key_pair one_time_secret;
    pq_secret_key = pq_secret;
  }

  -- The loop of `generateOneTimePreKeys`: the secret of the pair `i` is the random source's `i`th.
  unfoldable pub draw_key_pairs : (ℕ → List ℕ) → ℕ → ℕ → List DhKeyPair
  draw_key_pairs draw i zero = []
  draw_key_pairs draw i (suc count) = key_pair (draw i) ∷ draw_key_pairs draw (suc i) count

  -- `none` is the exception for a negative count or one that is no integer. The identity's pair is
  -- not read.
  unfoldable pub generate_one_time_pre_keys :
      KeyPair → (ℕ → List ℕ) → Count → Option (List DhKeyPair)
  generate_one_time_pre_keys identity draw (integer (pos count)) =
      some (draw_key_pairs draw 0 count)
  generate_one_time_pre_keys identity draw (integer (negsuc n)) = none
  generate_one_time_pre_keys identity draw no_integer = none

  unfoldable pub verify_pre_key_bundle : PreKeyBundle → Bool
  verify_pre_key_bundle b = x.verify b.signed_pre_key_signature b.signed_pre_key b.identity_key

  -- The exchange with the one-time pre-key, where there is one.
  unfoldable pub one_time_part : List ℕ → Option (List ℕ) → List ℕ
  one_time_part ephemeral none = []
  one_time_part ephemeral (some public) = x.shared_secret ephemeral public

  -- The end of `initiateKeyExchange`, on the joined parts.
  unfoldable pub finish_initiate : List ℕ → List ℕ → PreKeyBundle → List ℕ → KeyExchangeResult
  finish_initiate ephemeral random b parts = elim b.pq_public_key [
    | none ↦ record {
      shared_secret = x.derive parts;
      ephemeral_public_key = x.dh_public ephemeral;
      used_one_time_pre_key = is_given b.one_time_pre_key;
      pq_ciphertext = none;
    }
    | some pq ↦ record {
      shared_secret = x.derive_pqxdh (parts ++ (x.encapsulate pq random).1);
      ephemeral_public_key = x.dh_public ephemeral;
      used_one_time_pre_key = is_given b.one_time_pre_key;
      pq_ciphertext = some (x.encapsulate pq random).0;
    }
  ]

  -- `none` is the exception for a bundle whose signature does not verify.
  unfoldable pub initiate_key_exchange :
      List ℕ → List ℕ → List ℕ → PreKeyBundle → Option KeyExchangeResult
  initiate_key_exchange alice_secret ephemeral random b =
      let dh1 = x.shared_secret (x.to_montgomery_secret alice_secret) b.signed_pre_key in
      let dh2 = x.shared_secret ephemeral (x.to_montgomery b.identity_key) in
      let dh3 = x.shared_secret ephemeral b.signed_pre_key in
      if verify_pre_key_bundle b
      then some (
          finish_initiate ephemeral random b
            (dh1 ++ (dh2 ++ (dh3 ++ one_time_part ephemeral b.one_time_pre_key))))
      else none

  unfoldable pub one_time_answer : Option DhKeyPair → List ℕ → List ℕ
  one_time_answer none ephemeral_key = []
  one_time_answer (some pair) ephemeral_key = x.shared_secret pair.private_key ephemeral_key

  unfoldable pub finish_complete : Option (List ℕ) → Option (List ℕ) → List ℕ → List ℕ
  finish_complete (some ciphertext) (some secret) parts =
      x.derive_pqxdh (parts ++ x.decapsulate ciphertext secret)
  finish_complete (some ciphertext) none parts = x.derive parts
  finish_complete none secret parts = x.derive parts

  unfoldable pub complete_key_exchange :
      List ℕ
      → DhKeyPair
      → Option DhKeyPair
      → List ℕ
      → List ℕ
      → Option (List ℕ)
      → Option (List ℕ)
      → List ℕ
  complete_key_exchange bob_secret signed one_time alice_key ephemeral_key ciphertext pq_secret =
      let dh1 = x.shared_secret signed.private_key (x.to_montgomery alice_key) in
      let dh2 = x.shared_secret (x.to_montgomery_secret bob_secret) ephemeral_key in
      let dh3 = x.shared_secret signed.private_key ephemeral_key in
      finish_complete ciphertext pq_secret
        (dh1 ++ (dh2 ++ (dh3 ++ one_time_answer one_time ephemeral_key)))
