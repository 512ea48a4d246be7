-- ===== src/Ratchet/Chain.antt =====
-- The symmetric chain: the keys that skipping stores, the names that they are stored under, and
-- the encryption with one message key.
use meshwhisper.Bytes.{hash_to_hex}
use meshwhisper.Common.{
  ℕ, zero, suc, ◌+◌, ◌-◌, ◌*◌, ◌/◌, ◌%◌, ◌<◌, ◌≡◌, ◌≢◌, refl, sym, ap, ◌∙◌, List, [], ◌∷◌, ◌++◌,
  drop, some, Text, ltb, arith, text_discrete, take_append_of_length, drop_append_of_length,
  Bool-cases, inl, inr, if_neg, if_pos,
}
use mathlib.Core.Path.{ap₂}
use native.Mathlib.Nat.{add_assoc}
use meshwhisper.Common.TextMap.{TextMap, get, set}
use meshwhisper.Common.TextMap.Laws.{get-set}
use meshwhisper.Ratchet.{
  Crypto, decimal_from, decimal, skipped_key_id, kdf_chain_step, skip_keys, aes_encrypt,
  aes_decrypt,
}

-- Reading a decimal numeral back.
read : ℕ → Text → ℕ
read acc [] = acc
read acc (d ∷ ds) = read (acc * 10 + (d - b'0')) ds

read-append :
    (acc : ℕ) (xs : Text) (d : ℕ) → read acc (xs ++ (d ∷ [])) ≡ read acc xs * 10 + (d - b'0')
unfolding read
read-append acc [] d = refl
read-append acc (x ∷ xs) d = read-append (acc * 10 + (x - b'0')) xs d

read-decimal_from : (fuel n : ℕ) → n < fuel → read 0 (decimal_from fuel n) ≡ n
unfolding decimal_from
read-decimal_from zero n h = elim h [ ]
read-decimal_from (suc fuel) n h = elim (Bool-cases (ltb n 10)) [
  | inl small ↦ rw small (unfold read in (ground arith))
  | inr large ↦
      rw
        (
          large,
          read-append 0 (decimal_from fuel (n / 10)) (b'0' + n % 10),
          read-decimal_from fuel (n / 10) (ground arith),
        )
        (omega arith)
]

decimal_injective : (m n : ℕ) → decimal m ≡ decimal n → m ≡ n
unfolding decimal
decimal_injective m n e =
    sym (read-decimal_from (suc m) m (omega arith))
    ∙ ap (read 0) e
    ∙ read-decimal_from (suc n) n (omega arith)

append_injective : (xs ys zs : Text) → xs ++ ys ≡ xs ++ zs → ys ≡ zs
append_injective [] ys zs e = e
append_injective (x ∷ xs) ys zs e = append_injective xs ys zs (ap (drop 1) e)

-- Two messages under one ratchet key have different key ids.
pub skipped_key_id_injective :
    (key : List ℕ) (m n : ℕ) → skipped_key_id key m ≡ skipped_key_id key n → m ≡ n
unfolding skipped_key_id
skipped_key_id_injective key m n e =
    decimal_injective m n
      (ap (drop 1) (append_injective (hash_to_hex key) (b':' ∷ decimal m) (b':' ∷ decimal n) e))

module _ (c : Crypto) where
  -- The chain key after `i` messages, and the key of message `i`.
  unfoldable pub chain_at : List ℕ → ℕ → List ℕ
  chain_at ck zero = ck
  chain_at ck (suc i) = (kdf_chain_step c (chain_at ck i)).0

  unfoldable pub message_key : List ℕ → ℕ → List ℕ
  message_key ck i = (kdf_chain_step c (chain_at ck i)).1

  chain_at-shift : (ck : List ℕ) (i : ℕ) → chain_at (chain_at ck 1) i ≡ chain_at ck (suc i)
  unfolding chain_at
  chain_at-shift ck zero = refl
  chain_at-shift ck (suc i) = ap (λ k. (kdf_chain_step c k).0) (chain_at-shift ck i)

  -- Skipping `k` messages leaves the chain at key `k`.
  pub skip_keys-chain :
      (k : ℕ) (key : List ℕ) (n : ℕ) (ck : List ℕ) (skipped : TextMap (List ℕ))
      → (skip_keys c k key n ck skipped).0 ≡ chain_at ck k
  unfolding skip_keys chain_at
  skip_keys-chain zero key n ck skipped = refl
  skip_keys-chain (suc k) key n ck skipped =
      skip_keys-chain k key (n + 1) (kdf_chain_step c ck).0 _ ∙ chain_at-shift ck k

  -- It leaves alone what is stored under other names.
  pub skip_keys_other :
      (k : ℕ) (key : List ℕ) (n : ℕ) (ck : List ℕ) (skipped : TextMap (List ℕ)) (id : Text)
      → ((i : ℕ) → i < k → id ≢ skipped_key_id key (n + i))
      → get id (skip_keys c k key n ck skipped).1 ≡ get id skipped
  unfolding skip_keys
  skip_keys_other zero key n ck skipped id h = refl
  skip_keys_other (suc k) key n ck skipped id h =
      skip_keys_other k key (n + 1) (kdf_chain_step c ck).0 _ id
        (λ i l. rw (add_assoc n 1 i) (h (1 + i) (omega arith)))
      ∙ get-set id (skipped_key_id key n) _ skipped
      ∙ if_neg (text_discrete (skipped_key_id key n) id)
          (λ e. h 0 (omega arith) (sym e ∙ ap (skipped_key_id key) (omega arith))) _ _

  -- It stores the key of each skipped message under its own name.
  pub skip_keys_stored :
      (k : ℕ) (key : List ℕ) (n : ℕ) (ck : List ℕ) (skipped : TextMap (List ℕ)) (i : ℕ)
      → i < k
      → get (skipped_key_id key (n + i)) (skip_keys c k key n ck skipped).1
        ≡ some (message_key ck i)
  unfolding skip_keys message_key chain_at
  skip_keys_stored zero key n ck skipped i h = absurd (omega arith)
  skip_keys_stored (suc k) key n ck skipped zero h =
      skip_keys_other k key (n + 1) (kdf_chain_step c ck).0 _ (skipped_key_id key (n + 0))
        (λ i l e. absurd (omega (arith, skipped_key_id_injective key (n + 0) (n + 1 + i) e)))
      ∙ get-set (skipped_key_id key (n + 0)) (skipped_key_id key n) _ skipped
      ∙ if_pos (text_discrete (skipped_key_id key n) (skipped_key_id key (n + 0)))
          (ap (skipped_key_id key) (omega arith)) _ _
  skip_keys_stored (suc k) key n ck skipped (suc i) h =
      ap (λ m. get (skipped_key_id key m) (skip_keys c (suc k) key n ck skipped).1) (omega arith)
      ∙ skip_keys_stored k key (n + 1) (kdf_chain_step c ck).0
          (set (skipped_key_id key n) (kdf_chain_step c ck).1 skipped) i (omega arith)
      ∙ ap (λ z. some (kdf_chain_step c z).1) (chain_at-shift ck i)

  -- What is encrypted with a message key is decrypted with it.
  pub aes_decrypt-encrypt :
      (key plaintext : List ℕ) → aes_decrypt c key (aes_encrypt c key plaintext) ≡ some plaintext
  unfolding aes_decrypt aes_encrypt
  aes_decrypt-encrypt key plaintext =
      ap₂ (λ n t. c.gcm_decrypt key n t)
        (take_append_of_length 12 (c.blake3 key 12) (c.gcm_encrypt key (c.blake3 key 12) plaintext)
          (c.length-blake3 key 12))
        (drop_append_of_length 12 0 (c.blake3 key 12)
          (c.gcm_encrypt key (c.blake3 key 12) plaintext) (c.length-blake3 key 12))
      ∙ c.gcm_decrypt-encrypt key (c.blake3 key 12) plaintext
