-- ===== src/Packet/Builders.antt =====
-- The packet builders of src/packet/index.ts. Random bytes are arguments: `create_chaff_packet`
-- takes the eight bytes of the destination, the byte that picks the length, and the generator of
-- the payload.
use meshwhisper.Common.{
  ℕ, ◌+◌, ◌%◌, ◌/◌, ◌≤◌, ◌≡◌, refl, List, length, arith, not, ltb, append-nil, ap, ◌∙◌, sym, [],
}
use meshwhisper.Packet.{
  Packet, PacketFlags, data_flag, ack, chaff, handshake, route_request, route_offer, flag_value,
  Result, ok, require, ttl_range, payload_too_large, max_ttl, max_payload_size, protocol_version,
  ◌>>◌, assert_uint8_array, assert_valid_flags, encode_packet, decode_packet,
}
use meshwhisper.Packet.RoundTrip.{encode-frame, decode-encode}

unfoldable pub build_packet : ℕ → List ℕ → List ℕ → List ℕ → ℕ → Result Packet
build_packet flags dest_hash sender_eph_id encrypted_payload ttl = do
  assert_uint8_array dest_hash 8
  assert_uint8_array sender_eph_id 16
  require (not (ltb max_ttl ttl)) ttl_range
  require (not (ltb max_payload_size (length encrypted_payload))) payload_too_large
  ok (record {
    version = protocol_version;
    flags = flags;
    dest_hash = dest_hash;
    sender_ephemeral_id = sender_eph_id;
    ttl = ttl;
    payload_length = length encrypted_payload;
    encrypted_payload = encrypted_payload;
  })

unfoldable pub create_data_packet : List ℕ → List ℕ → List ℕ → ℕ → Result Packet
unfolding build_packet flag_value
create_data_packet dest_hash sender_eph_id payload ttl =
    build_packet (flag_value data_flag) dest_hash sender_eph_id payload ttl

unfoldable pub create_ack_packet : List ℕ → List ℕ → List ℕ → Result Packet
unfolding build_packet flag_value
create_ack_packet dest_hash sender_eph_id ack_payload =
    build_packet (flag_value ack) dest_hash sender_eph_id ack_payload 0

unfoldable pub create_chaff_packet : List ℕ → List ℕ → ℕ → (ℕ → List ℕ) → Result Packet
unfolding build_packet flag_value
create_chaff_packet sender_eph_id dest_hash pick random =
    build_packet (flag_value chaff) dest_hash sender_eph_id (random (32 + pick % 225)) 0

unfoldable pub create_route_request_packet : List ℕ → List ℕ → List ℕ → Result Packet
unfolding build_packet flag_value
create_route_request_packet dest_hash sender_eph_id request_payload =
    build_packet (flag_value route_request) dest_hash sender_eph_id request_payload max_ttl

unfoldable pub create_route_offer_packet : List ℕ → List ℕ → List ℕ → Result Packet
unfolding build_packet flag_value
create_route_offer_packet dest_hash sender_eph_id offer_payload =
    build_packet (flag_value route_offer) dest_hash sender_eph_id offer_payload max_ttl

unfoldable pub create_handshake_packet : List ℕ → List ℕ → List ℕ → Result Packet
unfolding build_packet flag_value
create_handshake_packet dest_hash sender_eph_id handshake_payload =
    build_packet (flag_value handshake) dest_hash sender_eph_id handshake_payload max_ttl

flags_valid : (f : PacketFlags) → assert_valid_flags (flag_value f) ≡ ok tt
unfolding assert_valid_flags
flags_valid data_flag = refl
flags_valid ack = refl
flags_valid chaff = refl
flags_valid handshake = refl
flags_valid route_request = refl
flags_valid route_offer = refl

build_inversion :
    (flags : ℕ) (dh se pay : List ℕ) (ttl : ℕ) {p : Packet}
    → build_packet flags dh se pay ttl ≡ ok p
    → (p.version ≡ 1)
      × (p.flags ≡ flags)
      × (length p.dest_hash ≡ 8)
      × (length p.sender_ephemeral_id ≡ 16)
      × (p.ttl ≤ 7)
      × (length p.encrypted_payload ≤ 65535)
      × (p ≡ record p { payload_length = length p.encrypted_payload })
unfolding build_packet
build_inversion flags dh se pay ttl h = ground arith

-- A packet that `build_packet` makes with a flag of the protocol survives the wire unchanged.
pub decode-build :
    (f : PacketFlags) (dh se pay : List ℕ) (ttl : ℕ) (p : Packet)
    → build_packet (flag_value f) dh se pay ttl ≡ ok p
    → (bs : List ℕ) × (encode_packet p ≡ ok bs) × (decode_packet bs ≡ ok p)
decode-build f dh se pay ttl p h =
    let (v, fl, eight, sixteen, t, small, n) = build_inversion (flag_value f) dh se pay ttl h in
    let size = length p.encrypted_payload in
    let e =
      encode-frame p (size / 256) (size % 256) v (rw fl (flags_valid f)) eight sixteen t
        (omega arith) (omega arith) (omega arith) in
    (_, e, ap decode_packet (sym (append-nil _)) ∙ decode-encode p _ [] e ∙ ap ok (sym n))

-- A chaff packet, with random bytes of the lengths asked for, is always built; it carries 32 to
-- 256 payload bytes and is not relayed.
pub create_chaff_packet-bounds :
    (se dh : List ℕ) (pick : ℕ) (random : ℕ → List ℕ)
    → length se ≡ 16
    → length dh ≡ 8
    → ((n : ℕ) → length (random n) ≡ n)
    → (p : Packet) × (create_chaff_packet se dh pick random ≡ ok p)
      × (32 ≤ p.payload_length)
      × (p.payload_length ≤ 256)
      × (p.ttl ≡ 0)
unfolding create_chaff_packet
create_chaff_packet-bounds se dh pick random hs hd hr = (
  record {
    version = 1;
    flags = 3;
    dest_hash = dh;
    sender_ephemeral_id = se;
    ttl = 0;
    payload_length = length (random (32 + pick % 225));
    encrypted_payload = random (32 + pick % 225);
  },
  ground (arith, hr (32 + pick % 225)),
  omega (arith, hr (32 + pick % 225)),
  omega (arith, hr (32 + pick % 225)),
  refl,
)
