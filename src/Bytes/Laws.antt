-- ===== src/Bytes/Laws.antt =====
-- The hex form is injective on bytes, and the comparison decides equality.
use Prim.Native.Nat.{bit_or}
use meshwhisper.Common.{
  if◌then◌else◌, false, ℕ, zero, suc, ◌/◌, ◌%◌, ◌≡◌, ◌<◌, ◌↔◌, Bool, true, not, ◌&&◌, ◌||◌, List,
  [], ◌∷◌, length, arith, ltb, ◌==◌, bit_xor, refl,
}
use meshwhisper.Bytes.{Bytes, hex_digit, hash_to_hex, fold_diff, bytes_equal}

hex_digit_injective : (a b : ℕ) → a < 16 → b < 16 → hex_digit a ≡ hex_digit b → a ≡ b
unfolding hex_digit
hex_digit_injective a b h k e = ground arith

byte_injective :
    (a b : ℕ)
    → a < 256
    → b < 256
    → hex_digit (a / 16) ≡ hex_digit (b / 16)
    → hex_digit (a % 16) ≡ hex_digit (b % 16)
    → a ≡ b
byte_injective a b h k p q = omega (
  arith,
  hex_digit_injective (a / 16) (b / 16) (omega arith) (omega arith) p,
  hex_digit_injective (a % 16) (b % 16) (omega arith) (omega arith) q,
)

-- Two byte arrays with one hex form are equal: no two destinations share a map key.
pub hash_to_hex_injective :
    (a b : List ℕ) → Bytes a → Bytes b → hash_to_hex a ≡ hash_to_hex b → a ≡ b
unfolding hash_to_hex
hash_to_hex_injective [] [] h k e = refl
hash_to_hex_injective [] (y ∷ b) h k e = absurd (cc)
hash_to_hex_injective (x ∷ a) [] h k e = absurd (cc)
hash_to_hex_injective (x ∷ a) (y ∷ b) h k e =
    cc (byte_injective x y h.0 k.0 (cc) (cc), hash_to_hex_injective a b h.1 k.1 (cc))

-- A property tested on the bytes below `bound`, from the highest down.
passes : (ℕ → Bool) → ℕ → Bool
passes test zero = true
passes test (suc bound) = if test bound then passes test bound else false

test-of_passes :
    (test : ℕ → Bool) (byte bound : ℕ) → byte < bound → passes test bound ≡ true → test byte ≡ true
unfolding passes
test-of_passes test byte zero below all = absurd (omega arith)
test-of_passes test byte (suc bound) below all = ground (arith, test-of_passes test byte bound)

-- On one byte: a difference is 0 exactly between equal bytes, stays a byte, and is kept by `|=`.
good : ℕ → ℕ → Bool
good x y =
    ltb (bit_xor x y) 256
    && (ltb (bit_or x y) 256
        && ((bit_xor x y == 0 && x == y) || (not (bit_xor x y == 0) && not (x == y)))
        && ((bit_or x y == 0 && (x == 0 && y == 0))
            || (not (bit_or x y == 0) && not (x == 0 && y == 0))))

good_table : passes (λ x. passes (good x) 256) 256 ≡ true
unfolding passes good
good_table = refl

good_lem : (x y : ℕ) → x < 256 → y < 256 → good x y ≡ true
good_lem x y h k =
    test-of_passes (good x) y 256 k (test-of_passes (λ z. passes (good z) 256) x 256 h good_table)

diff_zero :
    (x y diff : ℕ)
    → x < 256
    → y < 256
    → diff < 256
    → (bit_or diff (bit_xor x y) < 256)
      × (bit_or diff (bit_xor x y) ≡ 0 → (diff ≡ 0) × (x ≡ y))
      × (diff ≡ 0 → x ≡ y → bit_or diff (bit_xor x y) ≡ 0)
unfolding good
diff_zero x y diff hx hy hd =
    let below : bit_xor x y < 256 = ground (arith, good_lem x y hx hy) in
    (
      ground (arith, good_lem diff (bit_xor x y) hd below),
      λ e. ground (arith, good_lem x y hx hy, good_lem diff (bit_xor x y) hd below),
      λ e f. ground (arith, good_lem x y hx hy, good_lem diff (bit_xor x y) hd below),
    )

fold_diff-zero :
    (diff : ℕ) (a b : List ℕ)
    → Bytes a
    → Bytes b
    → diff < 256
    → length a ≡ length b
    → fold_diff diff a b ≡ 0
    → (diff ≡ 0) × (a ≡ b)
unfolding fold_diff
fold_diff-zero diff [] [] h k l n e = (e, refl)
fold_diff-zero diff [] (y ∷ b) h k l n e = absurd (omega arith)
fold_diff-zero diff (x ∷ a) [] h k l n e = absurd (omega arith)
fold_diff-zero diff (x ∷ a) (y ∷ b) h k l n e =
    let (below, from, to) = diff_zero x y diff h.0 k.0 l in
    let (zero_diff, tails) =
      fold_diff-zero (bit_or diff (bit_xor x y)) a b h.1 k.1 below (omega arith) e in
    ((from zero_diff).0, cc ((from zero_diff).1, tails))

fold_diff_self : (diff : ℕ) (a : List ℕ) → Bytes a → diff ≡ 0 → fold_diff diff a a ≡ 0
unfolding fold_diff
fold_diff_self diff [] h e = e
fold_diff_self diff (x ∷ a) h e =
    fold_diff_self (bit_or diff (bit_xor x x)) a h.1
      ((diff_zero x x diff h.0 h.0 (omega arith)).2 e refl)

-- On byte arrays the comparison is true exactly when they are equal.
pub bytes_equal_iff : (a b : List ℕ) → Bytes a → Bytes b → (bytes_equal a b ≡ true) ↔ (a ≡ b)
unfolding bytes_equal
bytes_equal_iff a b ha hb = (
  (λ e. (fold_diff-zero 0 a b ha hb (omega arith) (ground arith) (ground arith)).1),
  (λ e. rw e (ground (arith, fold_diff_self 0 b hb refl))),
)
