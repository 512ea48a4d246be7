-- ===== src/Bytes.antt =====
-- The byte-array helpers that src/routing/index.ts, src/relay/index.ts, src/ratchet/index.ts and
-- src/namespace/index.ts each define: the hex form that serves as a map key, and the comparison
-- that folds the differences of all bytes.
pub mod Laws
use Prim.Native.Nat.{bit_or}
use meshwhisper.Common.{
  ℕ, ◌+◌, ◌-◌, ◌/◌, ◌%◌, ◌<◌, Bool, false, List, [], ◌∷◌, length, All, Text, ltb, ◌==◌, bit_xor,
  if◌then◌else◌,
}

abbrev pub Bytes : List ℕ → Type 0
Bytes = All (λ b. b < 256)

-- A hexadecimal digit in lower case, as a code unit.
unfoldable pub hex_digit : ℕ → ℕ
hex_digit n = if ltb n 10 then b'0' + n else b'a' + (n - 10)

-- `hash.map(b => b.toString(16).padStart(2, '0')).join('')`
unfoldable pub hash_to_hex : List ℕ → Text
unfolding hex_digit
hash_to_hex [] = []
hash_to_hex (b ∷ bs) = hex_digit (b / 16) ∷ hex_digit (b % 16) ∷ hash_to_hex bs

-- `diff |= a[i] ^ b[i]` over all positions
unfoldable pub fold_diff : ℕ → List ℕ → List ℕ → ℕ
fold_diff diff [] b = diff
fold_diff diff (x ∷ a) [] = diff
fold_diff diff (x ∷ a) (y ∷ b) = fold_diff (bit_or diff (bit_xor x y)) a b

unfoldable pub bytes_equal : List ℕ → List ℕ → Bool
unfolding fold_diff
bytes_equal a b = if length a == length b then fold_diff 0 a b == 0 else false
