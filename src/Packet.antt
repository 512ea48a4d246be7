-- ===== src/Packet.antt =====
-- src/packet/index.ts and the packet types of src/types.ts: the binary packet codec and the
-- packet builders. A `Uint8Array` is the list of its bytes.
-- The checks by `instanceof` always pass in the typed model, and so does `Number.isInteger`.
-- A `throw` is `err` with the case that it reports.
pub mod Frame
pub mod RoundTrip
pub mod Builders
mod Tests
pub use meshwhisper.Common.{Outcome, ok, err, ◌>>=◌, ◌>>◌}
use meshwhisper.Common.{
  ℕ, ◌+◌, ◌*◌, ◌%◌, ◌/◌, Bool, true, false, not, List, [], ◌∷◌, ◌++◌, length, take, drop, get_elem?,
  ltb, ◌==◌, Option, none, some,
}

abbrev pub protocol_version : ℕ
protocol_version = 1

abbrev pub header_size : ℕ
header_size = 29

abbrev pub max_ttl : ℕ
max_ttl = 7

abbrev pub max_payload_size : ℕ
max_payload_size = 65535

-- The enum `PacketFlags`, by its wire values.
pub data PacketFlags : Type 0 where
  data_flag ack chaff handshake route_request route_offer : PacketFlags

unfoldable pub flag_value : PacketFlags → ℕ
flag_value data_flag = 1
flag_value ack = 2
flag_value chaff = 3
flag_value handshake = 4
flag_value route_request = 5
flag_value route_offer = 6

-- The fields of a packet that travel. The source's type has one more, the optional `homeRelay`: a
-- hint for the relay transport that no byte of the encoding carries.
pub record Packet : Type 0 where
  pub version : ℕ
  pub flags : ℕ
  pub dest_hash : List ℕ
  pub sender_ephemeral_id : List ℕ
  pub ttl : ℕ
  pub payload_length : ℕ
  pub encrypted_payload : List ℕ

pub data PacketError : Type 0 where
  unsupported_version invalid_flags wrong_length ttl_range payload_too_large too_short : PacketError
  truncated : PacketError

abbrev pub Result {ℓ} : Type ℓ → Type ℓ
Result A = Outcome PacketError A

-- `if (!ok) throw e`
abbrev pub require : Bool → PacketError → Result (Unit {0})
require true e = ok tt
require false e = err e

-- `valid.includes(flags)`
unfoldable pub includes : List ℕ → ℕ → Bool
includes [] flags = false
includes (f ∷ fs) flags = elim (f == flags) [ true ↦ true | false ↦ includes fs flags ]

unfoldable pub assert_valid_flags : ℕ → Result (Unit {0})
unfolding includes flag_value
assert_valid_flags flags =
    require
      (includes
        (flag_value data_flag
          ∷ flag_value ack
          ∷ flag_value chaff
          ∷ flag_value handshake
          ∷ flag_value route_request
          ∷ flag_value route_offer
          ∷ [])
        flags)
      invalid_flags

abbrev pub assert_uint8_array : List ℕ → ℕ → Result (Unit {0})
assert_uint8_array value expected_len = require (length value == expected_len) wrong_length

-- `setUint16(…, false)` and `getUint16(…, false)`: two bytes, the high one first.
unfoldable pub put_u16 : ℕ → List ℕ
put_u16 n = (n / 256) % 256 ∷ n % 256 ∷ []

-- The byte at an offset; past the end it is not read, since the length is checked first.
abbrev pub or_zero : Option ℕ → ℕ
or_zero none = 0
or_zero (some b) = b

abbrev pub byte_at : List ℕ → ℕ → ℕ
byte_at d i = or_zero (get_elem? d i)

unfoldable pub get_u16 : List ℕ → ℕ → ℕ
get_u16 d i = byte_at d i * 256 + byte_at d (i + 1)

-- `slice(first, last)`
abbrev pub slice : List ℕ → ℕ → ℕ → List ℕ
slice d first n = take n (drop first d)

unfoldable pub encode_packet : Packet → Result (List ℕ)
unfolding put_u16
encode_packet p = do
  require (p.version == protocol_version) unsupported_version
  assert_valid_flags p.flags
  assert_uint8_array p.dest_hash 8
  assert_uint8_array p.sender_ephemeral_id 16
  require (not (ltb max_ttl p.ttl)) ttl_range
  require (not (ltb max_payload_size (length p.encrypted_payload))) payload_too_large
  ok (
      (p.version ∷ p.flags ∷ [])
      ++ (p.dest_hash
          ++ (p.sender_ephemeral_id
              ++ ((p.ttl ∷ put_u16 (length p.encrypted_payload)) ++ p.encrypted_payload))))

unfoldable pub decode_packet : List ℕ → Result Packet
decode_packet d = do
  require (not (ltb (length d) header_size)) too_short
  require (byte_at d 0 == protocol_version) unsupported_version
  assert_valid_flags (byte_at d 1)
  require (not (ltb max_ttl (byte_at d 26))) ttl_range
  require (not (ltb (length d) (header_size + get_u16 d 27))) truncated
  ok (record {
    version = byte_at d 0;
    flags = byte_at d 1;
    dest_hash = slice d 2 8;
    sender_ephemeral_id = slice d 10 16;
    ttl = byte_at d 26;
    payload_length = get_u16 d 27;
    encrypted_payload = slice d header_size (get_u16 d 27);
  })
