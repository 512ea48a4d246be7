-- ===== src/Packet/Tests.antt =====
-- Small packets and hashes, and the witnesses of the theorems on the codec.
use meshwhisper.Bytes.{Bytes}
use meshwhisper.Common.{
  ℕ, zero, suc, ◌≡◌, refl, Bool, true, false, List, [], ◌∷◌, ◌++◌, length, arith, ap, ltb,
  if◌then◌else◌,
}
use meshwhisper.Packet.{Packet, ok, encode_packet, decode_packet, assert_valid_flags}
use meshwhisper.Packet.RoundTrip.{decode-encode, encode-decode}

abbrev eight : List ℕ
eight = 1 ∷ 2 ∷ 3 ∷ 4 ∷ 5 ∷ 6 ∷ 7 ∷ 8 ∷ []

abbrev sample : Packet
sample = record {
  version = 1;
  flags = 1;
  dest_hash = eight;
  sender_ephemeral_id = eight ++ eight;
  ttl = 3;
  payload_length = 2;
  encrypted_payload = 9 ∷ 10 ∷ [];
}

abbrev wire : List ℕ
wire = 1 ∷ 1 ∷ (eight ++ (eight ++ eight)) ++ 3 ∷ 0 ∷ 2 ∷ 9 ∷ 10 ∷ []

encode_sample : encode_packet sample ≡ ok wire
unfolding encode_packet assert_valid_flags
encode_sample = refl

decode-encode_example :
    decode_packet (wire ++ 77 ∷ [])
    ≡ ok (record sample { payload_length = length sample.encrypted_payload })
decode-encode_example = decode-encode sample wire (77 ∷ []) encode_sample

are_bytes : List ℕ → Bool
are_bytes [] = true
are_bytes (x ∷ bs) = if ltb x 256 then are_bytes bs else false

are_bytes-Bytes : (bs : List ℕ) → are_bytes bs ≡ true → Bytes bs
unfolding are_bytes
are_bytes-Bytes [] e = tt
are_bytes-Bytes (x ∷ bs) e = (ground arith, are_bytes-Bytes bs (ground arith))

wire-Bytes : Bytes wire
unfolding are_bytes
wire-Bytes = are_bytes-Bytes wire refl

encode-decode_example : (bs extra : List ℕ) × (encode_packet sample ≡ ok bs) × (wire ≡ bs ++ extra)
encode-decode_example =
    encode-decode wire sample wire-Bytes (decode-encode sample wire [] encode_sample)

zeros : ℕ → List ℕ
zeros zero = []
zeros (suc n) = 0 ∷ zeros n

length-zeros : (n : ℕ) → length (zeros n) ≡ n
unfolding zeros
length-zeros zero = refl
length-zeros (suc n) = ap suc (length-zeros n)

abbrev two_bytes : List ℕ
two_bytes = 255 ∷ 0 ∷ []
