-- ===== src/Packet/RoundTrip.antt =====
-- Encoding and decoding are inverse to one another, on every input that they accept.
use meshwhisper.Common.{
  ℕ, ◌+◌, ◌*◌, ◌/◌, ◌%◌, ◌≤◌, ◌<◌, ◌≡◌, ap, ◌∙◌, List, [], ◌∷◌, ◌++◌, length, take, drop, arith,
  zero, suc, append_assoc, length-append, length-drop, length-take, take_append, take-drop,
}
use meshwhisper.Bytes.{Bytes}
use meshwhisper.Packet.{
  Packet, ok, header_size, assert_valid_flags, encode_packet, decode_packet, put_u16, get_u16,
  byte_at, slice,
}
use meshwhisper.Packet.Frame.{
  frame, frame_of_length, length-frame, ttl-frame, length_bytes-frame, dest_hash-frame,
  sender-frame, payload-frame,
}

-- What `encode_packet` accepts, and the bytes that it writes.
pub encode_inversion :
    (p : Packet) {bs : List ℕ}
    → encode_packet p ≡ ok bs
    → (p.version ≡ 1)
      × (assert_valid_flags p.flags ≡ ok tt)
      × (length p.dest_hash ≡ 8)
      × (length p.sender_ephemeral_id ≡ 16)
      × (p.ttl ≤ 7)
      × (length p.encrypted_payload ≤ 65535)
      × (bs
          ≡ frame p.version p.flags p.dest_hash p.sender_ephemeral_id p.ttl
              ((length p.encrypted_payload / 256) % 256)
              (length p.encrypted_payload % 256)
              p.encrypted_payload)
unfolding encode_packet put_u16
encode_inversion p h = ground arith

decode-frame :
    (v f : ℕ) (dh se : List ℕ) (t h l : ℕ) (rest : List ℕ)
    → v ≡ 1
    → assert_valid_flags f ≡ ok tt
    → length dh ≡ 8
    → length se ≡ 16
    → t ≤ 7
    → h * 256 + l ≤ length rest
    → decode_packet (frame v f dh se t h l rest)
      ≡ ok (record {
        version = v;
        flags = f;
        dest_hash = dh;
        sender_ephemeral_id = se;
        ttl = t;
        payload_length = h * 256 + l;
        encrypted_payload = take (h * 256 + l) rest;
      })
unfolding decode_packet
decode-frame v f dh se t h l rest hv hf eight sixteen ht hl = ground (
  arith,
  length-frame v f dh se t h l rest eight sixteen,
  ttl-frame v f dh se t h l rest eight sixteen,
  length_bytes-frame v f dh se t h l rest eight sixteen,
  dest_hash-frame v f dh se t h l rest eight sixteen,
  sender-frame v f dh se t h l rest eight sixteen,
  payload-frame v f dh se t h l rest eight sixteen,
)

-- Decoding what `encode_packet` wrote gives the packet back, its `payloadLength` set to the
-- payload's length, whatever bytes follow in the buffer.
pub decode-encode :
    (p : Packet) (bs extra : List ℕ)
    → encode_packet p ≡ ok bs
    → decode_packet (bs ++ extra) ≡ ok (record p { payload_length = length p.encrypted_payload })
decode-encode p bs extra h =
    let (v, f, eight, sixteen, t, small, e) = encode_inversion p h in
    let n = length p.encrypted_payload in
    let exact : ((n / 256) % 256) * 256 + n % 256 ≡ n = omega arith in
    let framed : bs ++ extra
        ≡ frame p.version p.flags p.dest_hash p.sender_ephemeral_id p.ttl ((n / 256) % 256)
            (n % 256) (p.encrypted_payload ++ extra) =
      rw e (simp append_assoc) in
    ap decode_packet framed
    ∙ decode-frame _ _ _ _ _ _ _ _ v f eight sixteen t
        (omega (arith, length-append p.encrypted_payload extra))
    ∙ rw exact
        (ap (λ c. ok (record p { payload_length = n; encrypted_payload = c })) (take_append _ _))

-- What `decode_packet` accepts, and the packet that it returns.
decode_inversion :
    (d : List ℕ) {p : Packet}
    → decode_packet d ≡ ok p
    → (header_size ≤ length d)
      × (byte_at d 0 ≡ 1)
      × (assert_valid_flags (byte_at d 1) ≡ ok tt)
      × (byte_at d 26 ≤ 7)
      × (header_size + get_u16 d 27 ≤ length d)
      × (p ≡ record {
        version = byte_at d 0;
        flags = byte_at d 1;
        dest_hash = slice d 2 8;
        sender_ephemeral_id = slice d 10 16;
        ttl = byte_at d 26;
        payload_length = get_u16 d 27;
        encrypted_payload = take (get_u16 d 27) (drop header_size d);
      })
unfolding decode_packet
decode_inversion d h = ground arith

Bytes-byte_at : (d : List ℕ) (i : ℕ) → Bytes d → byte_at d i < 256
Bytes-byte_at [] i b = omega arith
Bytes-byte_at (x ∷ d) zero b = b.0
Bytes-byte_at (x ∷ d) (suc i) b = Bytes-byte_at d i b.1

pub encode-frame :
    (p : Packet) (h l : ℕ)
    → p.version ≡ 1
    → assert_valid_flags p.flags ≡ ok tt
    → length p.dest_hash ≡ 8
    → length p.sender_ephemeral_id ≡ 16
    → p.ttl ≤ 7
    → h < 256
    → l < 256
    → length p.encrypted_payload ≡ h * 256 + l
    → encode_packet p
      ≡ ok (frame p.version p.flags p.dest_hash p.sender_ephemeral_id p.ttl h l p.encrypted_payload)
unfolding encode_packet put_u16
encode-frame p h l v f eight sixteen t hb lb n = ground arith

length-slice : (d : List ℕ) (first n : ℕ) → first + n ≤ length d → length (slice d first n) ≡ n
length-slice d first n h = length-take n (drop first d) (omega (arith, length-drop first d))

-- A buffer of bytes that `decode_packet` accepts is the encoding of the packet that it returns,
-- followed by bytes that are not read.
pub encode-decode :
    (d : List ℕ) (p : Packet)
    → Bytes d
    → decode_packet d ≡ ok p
    → (bs extra : List ℕ) × (encode_packet p ≡ ok bs) × (d ≡ bs ++ extra)
unfolding get_u16
encode-decode d p b h =
    let (long, v, f, t, fits, e) = decode_inversion d h in
    let rest = drop header_size d in
    let n = get_u16 d 27 in
    let enough : n ≤ length rest = omega (arith, length-drop header_size d) in
    (
      frame (byte_at d 0) (byte_at d 1) (slice d 2 8) (slice d 10 16) (byte_at d 26) (byte_at d 27)
          (byte_at d 28) (take n rest),
      drop n rest,
      rw e (
          encode-frame _ (byte_at d 27) (byte_at d 28) v f (length-slice d 2 8 (omega arith))
            (length-slice d 10 16 (omega arith)) t (Bytes-byte_at d 27 b) (Bytes-byte_at d 28 b)
            (length-take n rest enough)),
      frame_of_length d long ∙ simp (append_assoc, take-drop),
    )
