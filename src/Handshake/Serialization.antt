-- ===== src/Handshake/Serialization.antt =====
-- src/x3dh/index.ts: the binary form of a pre-key bundle. A write into the byte array fails when it
-- does not fit, as `Uint8Array.set` does; each `throw` is an `err`.
pub mod Parts
pub mod RoundTrip
pub mod Sizes
pub use meshwhisper.Common.{Outcome, ok, err, ◌>>=◌, ◌>>◌}
use meshwhisper.Common.{
  ℕ, ◌+◌, ◌%◌, Bool, true, false, not, ◌&&◌, List, [], ◌∷◌, ◌++◌, Option, none, some, length, take,
  drop, ltb, ◌==◌, if◌then◌else◌, zeros,
}
use meshwhisper.Handshake.{PreKeyBundle, is_given}

abbrev pub bundle_version_classical : ℕ
bundle_version_classical = 1

abbrev pub bundle_version_pqxdh : ℕ
bundle_version_pqxdh = 2

abbrev pub key_length : ℕ
key_length = 32

abbrev pub signature_length : ℕ
signature_length = 64

abbrev pub pq_public_key_length : ℕ
pq_public_key_length = 1184

pub data BundleError : Type 0 where
  out_of_range missing_header unsupported_version too_short : BundleError

abbrev pub Result {ℓ} : Type ℓ → Type ℓ
Result A = Outcome BundleError A

-- `data.set(bytes, off)`
unfoldable pub set_bytes : ℕ → List ℕ → List ℕ → Result (List ℕ)
set_bytes off bytes d =
    if ltb (length d) (off + length bytes)
    then err out_of_range
    else ok (take off d ++ bytes ++ drop (off + length bytes) d)

unfoldable pub set_optional : ℕ → Option (List ℕ) → List ℕ → Result (List ℕ)
set_optional off none d = ok d
set_optional off (some bytes) d = set_bytes off bytes d

-- The room of a part that may be there.
abbrev pub room : Bool → ℕ → ℕ
room true n = n
room false n = 0

abbrev pub bundle_size : Bool → Bool → ℕ
bundle_size has_pq has_opk =
    1
    + 1
    + key_length
    + key_length
    + signature_length
    + room has_pq pq_public_key_length
    + room has_opk key_length

unfoldable pub serialize_pre_key_bundle : PreKeyBundle → Result (List ℕ)
serialize_pre_key_bundle b = do
  let has_pq = is_given b.pq_public_key
  let has_opk = is_given b.one_time_pre_key
  d ←
      set_bytes 0 ((if has_pq then bundle_version_pqxdh else bundle_version_classical) ∷ [])
        (zeros (bundle_size has_pq has_opk))
  d ← set_bytes 1 ((if has_opk then 1 else 0) ∷ []) d
  d ← set_bytes 2 b.identity_key d
  d ← set_bytes 34 b.signed_pre_key d
  d ← set_bytes 66 b.signed_pre_key_signature d
  d ← set_optional 130 b.pq_public_key d
  set_optional (130 + room has_pq pq_public_key_length) b.one_time_pre_key d

-- `data.slice(off, off + n)`
abbrev pub slice : ℕ → ℕ → List ℕ → List ℕ
slice off n d = take n (drop off d)

-- `flags & 0x01`
abbrev pub has_one_time : ℕ → Bool
has_one_time flags = flags % 2 == 1

-- The part behind the header.
unfoldable pub read_bundle : Bool → Bool → List ℕ → Result PreKeyBundle
read_bundle has_pq has_opk d =
    if ltb (length d) (bundle_size has_pq has_opk)
    then err too_short
    else ok (record {
      identity_key = slice 2 key_length d;
      signed_pre_key = slice 34 key_length d;
      signed_pre_key_signature = slice 66 signature_length d;
      pq_public_key = if has_pq then some (slice 130 pq_public_key_length d) else none;
      one_time_pre_key =
          if has_opk
          then some (slice (130 + room has_pq pq_public_key_length) key_length d)
          else none;
    })

unfoldable pub deserialize_pre_key_bundle : List ℕ → Result PreKeyBundle
deserialize_pre_key_bundle [] = err missing_header
deserialize_pre_key_bundle (version ∷ []) = err missing_header
deserialize_pre_key_bundle (version ∷ flags ∷ rest) =
    let whole =
      read_bundle (version == bundle_version_pqxdh) (has_one_time flags) (version ∷ flags ∷ rest) in
    if not (version == bundle_version_classical) && not (version == bundle_version_pqxdh)
    then err unsupported_version
    else whole
