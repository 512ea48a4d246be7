-- ===== src/Handshake/Serialization/Sizes.antt =====
-- What `deserializePreKeyBundle` accepts.
use meshwhisper.Common.{
  ℕ, ◌+◌, ◌≤◌, ◌≡◌, subst, Bool, true, false, List, [], ◌∷◌, none, some, length, length-take,
  length-drop, drop, ltb, ltb→le, ◌==◌, if◌then◌else◌, arith, ok, ok-injective, Bool-cases, inl,
  inr,
}
use meshwhisper.Handshake.{PreKeyBundle}
use meshwhisper.Handshake.Serialization.{
  BundleError, room, slice, bundle_size, has_one_time, read_bundle, deserialize_pre_key_bundle,
}
use meshwhisper.Handshake.Serialization.Parts.{HasLength}

-- Every part has the length of its kind.
abbrev pub IsSized : PreKeyBundle → Type 0
IsSized b =
    (length b.identity_key ≡ 32)
    × (length b.signed_pre_key ≡ 32)
    × (length b.signed_pre_key_signature ≡ 64)
    × HasLength 1184 b.pq_public_key
    × HasLength 32 b.one_time_pre_key

length-slice : (off n : ℕ) (d : List ℕ) → off + n ≤ length d → length (slice off n d) ≡ n
length-slice off n d h = length-take n (drop off d) (omega (arith, length-drop off d))

optional-HasLength :
    (p : Bool) (off n : ℕ) (d : List ℕ)
    → off + room p n ≤ length d
    → HasLength n (if p then some (slice off n d) else none)
optional-HasLength true off n d h = length-slice off n d h
optional-HasLength false off n d h = tt

read_bundle-IsSized :
    (p q : Bool) (d : List ℕ) (b : PreKeyBundle) → read_bundle p q d ≡ ok b → IsSized b
unfolding read_bundle
read_bundle-IsSized p q d b e = elim (Bool-cases (ltb (length d) (bundle_size p q))) [
  | inl short ↦ absurd (ground arith)
  | inr long ↦
      let enough : 130 + room p 1184 + room q 32 ≤ length d =
        ltb→le (length d) (bundle_size p q) long in
      let read : PreKeyBundle = record {
        identity_key = slice 2 32 d;
        signed_pre_key = slice 34 32 d;
        signed_pre_key_signature = slice 66 64 d;
        pq_public_key = if p then some (slice 130 1184 d) else none;
        one_time_pre_key = if q then some (slice (130 + room p 1184) 32 d) else none;
      } in
      subst IsSized (ok-injective {E = BundleError} read b (ground arith)) (
        length-slice 2 32 d (omega (arith, enough)),
        length-slice 34 32 d (omega (arith, enough)),
        length-slice 66 64 d (omega (arith, enough)),
        optional-HasLength p 130 1184 d (omega (arith, enough)),
        optional-HasLength q (130 + room p 1184) 32 d (omega (arith, enough)),
      )
]

-- Whatever bytes are deserialized without an error, every part of the bundle has the length of its kind.
pub deserialize-IsSized :
    (d : List ℕ) (b : PreKeyBundle) → deserialize_pre_key_bundle d ≡ ok b → IsSized b
unfolding deserialize_pre_key_bundle
deserialize-IsSized [] b e = absurd (ground arith)
deserialize-IsSized (version ∷ []) b e = absurd (ground arith)
deserialize-IsSized (version ∷ flags ∷ rest) b e =
    read_bundle-IsSized (version == 2) (has_one_time flags) (version ∷ flags ∷ rest) b
      (ground arith)
