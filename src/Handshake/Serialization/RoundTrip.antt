-- ===== src/Handshake/Serialization/RoundTrip.antt =====
-- Reading back what was written.
use meshwhisper.Common.{
  ℕ, ◌+◌, ◌≡◌, refl, ap, ◌∙◌, Bool, true, false, List, [], ◌∷◌, ◌++◌, none, some, length,
  append_assoc, append-nil, length-append, zeros, ltb, if◌then◌else◌, arith, ok, err,
}
use meshwhisper.Handshake.{PreKeyBundle, is_given}
use meshwhisper.Handshake.Serialization.Parts.{
  HasLength, bytes_of, length-bytes_of, set_bytes_next, set_optional_next, slice_here, slice_skip,
  optional_here,
}
use meshwhisper.Handshake.Serialization.{
  too_short, set_bytes, set_optional, room, slice, bundle_size, serialize_pre_key_bundle,
  read_bundle, deserialize_pre_key_bundle, Result,
}

-- The layout.
abbrev layout : ℕ → ℕ → PreKeyBundle → List ℕ → List ℕ
layout version flags b rest =
    version
    ∷ flags
    ∷ (b.identity_key
        ++ (b.signed_pre_key
            ++ (b.signed_pre_key_signature
                ++ (bytes_of b.pq_public_key ++ (bytes_of b.one_time_pre_key ++ rest)))))

-- The header says which parts are there.
deserialize_header :
    (p q : Bool) (r : List ℕ)
    → deserialize_pre_key_bundle ((if p then 2 else 1) ∷ (if q then 1 else 0) ∷ r)
      ≡ read_bundle p q ((if p then 2 else 1) ∷ (if q then 1 else 0) ∷ r)
unfolding deserialize_pre_key_bundle
deserialize_header true true r = refl
deserialize_header true false r = refl
deserialize_header false true r = refl
deserialize_header false false r = refl

module _ (b : PreKeyBundle) (ik : length b.identity_key ≡ 32) (spk : length b.signed_pre_key ≡ 32)
    (sig : length b.signed_pre_key_signature ≡ 64) (pq : HasLength 1184 b.pq_public_key)
    (opk : HasLength 32 b.one_time_pre_key) where
  abbrev version : ℕ
  version = if is_given b.pq_public_key then 2 else 1

  abbrev flags : ℕ
  flags = if is_given b.one_time_pre_key then 1 else 0

  serialize_lem : serialize_pre_key_bundle b ≡ ok (layout version flags b [])
  unfolding serialize_pre_key_bundle zeros
  serialize_lem =
      let a = room (is_given b.pq_public_key) 1184 in
      let c = room (is_given b.one_time_pre_key) 32 in
      let f1 = version ∷ [] in
      let f2 = version ∷ flags ∷ [] in
      let f3 = f2 ++ b.identity_key in
      let f4 = f3 ++ b.signed_pre_key in
      let f5 = f4 ++ b.signed_pre_key_signature in
      let f6 = f5 ++ bytes_of b.pq_public_key in
      let f7 = f6 ++ bytes_of b.one_time_pre_key in
      let n3 : length f3 ≡ 34 = omega (arith, ik) in
      let n4 : length f4 ≡ 66 = omega (arith, n3, spk, length-append f3 b.signed_pre_key) in
      let n5 : length f5 ≡ 130 =
        omega (arith, n4, sig, length-append f4 b.signed_pre_key_signature) in
      let n6 : length f6 ≡ 130 + a = omega (
        arith,
        n5,
        length-append f5 (bytes_of b.pq_public_key),
        length-bytes_of 1184 b.pq_public_key pq,
      ) in
      let e1 : set_bytes 0 f1 (zeros (130 + a + c)) ≡ ok (f1 ++ zeros (129 + a + c)) =
        set_bytes_next [] f1 0 (130 + a + c) 1 (129 + a + c) refl refl (omega arith) in
      let e2 : set_bytes 1 (flags ∷ []) (f1 ++ zeros (129 + a + c))
          ≡ ok (f2 ++ zeros (128 + a + c)) =
        set_bytes_next f1 (flags ∷ []) 1 (129 + a + c) 1 (128 + a + c) refl refl (omega arith) in
      let e3 : set_bytes 2 b.identity_key (f2 ++ zeros (128 + a + c))
          ≡ ok (f3 ++ zeros (96 + a + c)) =
        set_bytes_next f2 b.identity_key 2 (128 + a + c) 32 (96 + a + c) refl ik (omega arith) in
      let e4 : set_bytes 34 b.signed_pre_key (f3 ++ zeros (96 + a + c))
          ≡ ok (f4 ++ zeros (64 + a + c)) =
        set_bytes_next f3 b.signed_pre_key 34 (96 + a + c) 32 (64 + a + c) n3 spk (omega arith) in
      let e5 : set_bytes 66 b.signed_pre_key_signature (f4 ++ zeros (64 + a + c))
          ≡ ok (f5 ++ zeros (a + c)) =
        set_bytes_next f4 b.signed_pre_key_signature 66 (64 + a + c) 64 (a + c) n4 sig
          (omega arith) in
      let e6 : set_optional 130 b.pq_public_key (f5 ++ zeros (a + c)) ≡ ok (f6 ++ zeros c) =
        set_optional_next f5 b.pq_public_key 130 (a + c) 1184 c n5 pq (omega arith) in
      let e7 : set_optional (130 + a) b.one_time_pre_key (f6 ++ zeros c) ≡ ok (f7 ++ zeros 0) =
        set_optional_next f6 b.one_time_pre_key (130 + a) c 32 0 n6 opk (omega arith) in
      let e8 : f7 ++ zeros 0 ≡ layout version flags b [] =
        append_assoc f6 (bytes_of b.one_time_pre_key) []
        ∙ append_assoc f5 (bytes_of b.pq_public_key) (bytes_of b.one_time_pre_key ++ [])
        ∙ append_assoc f4 b.signed_pre_key_signature
            (bytes_of b.pq_public_key ++ (bytes_of b.one_time_pre_key ++ []))
        ∙ append_assoc f3 b.signed_pre_key (
            b.signed_pre_key_signature
            ++ (bytes_of b.pq_public_key ++ (bytes_of b.one_time_pre_key ++ [])))
        ∙ append_assoc f2 b.identity_key (
            b.signed_pre_key
            ++ (b.signed_pre_key_signature
                ++ (bytes_of b.pq_public_key ++ (bytes_of b.one_time_pre_key ++ [])))) in
      rw (serialize_pre_key_bundle, e1, e2, e3, e4, e5, e6, e7) (ap {B = Result (List ℕ)} ok e8)

  length-layout :
      (rest : List ℕ)
      → length (layout version flags b rest)
        ≡ bundle_size (is_given b.pq_public_key) (is_given b.one_time_pre_key) + length rest
  length-layout rest =
      let r5 = bytes_of b.one_time_pre_key ++ rest in
      let r4 = bytes_of b.pq_public_key ++ r5 in
      let r3 = b.signed_pre_key_signature ++ r4 in
      let r2 = b.signed_pre_key ++ r3 in
      omega (
        arith,
        ik,
        spk,
        sig,
        length-append b.identity_key r2,
        length-append b.signed_pre_key r3,
        length-append b.signed_pre_key_signature r4,
        length-append (bytes_of b.pq_public_key) r5,
        length-append (bytes_of b.one_time_pre_key) rest,
        length-bytes_of 1184 b.pq_public_key pq,
        length-bytes_of 32 b.one_time_pre_key opk,
      )

  read_lem :
      (rest : List ℕ)
      → read_bundle
          (is_given b.pq_public_key)
          (is_given b.one_time_pre_key)
          (layout version flags b rest)
        ≡ ok b
  unfolding read_bundle
  read_lem rest =
      let whole = layout version flags b rest in
      let a = room (is_given b.pq_public_key) 1184 in
      let r5 = bytes_of b.one_time_pre_key ++ rest in
      let r4 = bytes_of b.pq_public_key ++ r5 in
      let r3 = b.signed_pre_key_signature ++ r4 in
      let r2 = b.signed_pre_key ++ r3 in
      let behind : (off n : ℕ) → slice (off + 34) n whole ≡ slice off n r2 = λ off n.
        slice_skip (version ∷ flags ∷ b.identity_key) r2 34 (off + 34) off n (omega (arith, ik))
          refl in
      let behind_spk : (off n : ℕ) → slice (off + 66) n whole ≡ slice off n r3 = λ off n.
        ap (λ k. slice k n whole) (omega arith)
        ∙ behind (off + 32) n
        ∙ slice_skip b.signed_pre_key r3 32 (off + 32) off n spk refl in
      let behind_sig : (off n : ℕ) → slice (off + 130) n whole ≡ slice off n r4 = λ off n.
        ap (λ k. slice k n whole) (omega arith)
        ∙ behind_spk (off + 64) n
        ∙ slice_skip b.signed_pre_key_signature r4 64 (off + 64) off n sig refl in
      let long : ltb (length whole)
            (bundle_size (is_given b.pq_public_key) (is_given b.one_time_pre_key))
          ≡ false =
        ground (arith, length-layout rest) in
      let s1 : slice 2 32 whole ≡ b.identity_key = slice_here b.identity_key r2 32 ik in
      let s2 : slice 34 32 whole ≡ b.signed_pre_key =
        behind 0 32 ∙ slice_here b.signed_pre_key r3 32 spk in
      let s3 : slice 66 64 whole ≡ b.signed_pre_key_signature =
        behind_spk 0 64 ∙ slice_here b.signed_pre_key_signature r4 64 sig in
      let s4 : slice 130 1184 whole ≡ slice 0 1184 r4 = behind_sig 0 1184 in
      let s5 : slice (130 + a) 32 whole ≡ slice 0 32 r5 =
        ap (λ k. slice k 32 whole) (omega arith)
        ∙ behind_sig a 32
        ∙ slice_skip (bytes_of b.pq_public_key) r5 a a 0 32
            (length-bytes_of 1184 b.pq_public_key pq) (omega arith) in
      let p4 : (if is_given b.pq_public_key then some (slice 130 1184 whole) else none)
          ≡ b.pq_public_key =
        ap (λ d. if is_given b.pq_public_key then some d else none) s4
        ∙ optional_here b.pq_public_key r5 1184 pq in
      let p5 : (if is_given b.one_time_pre_key then some (slice (130 + a) 32 whole) else none)
          ≡ b.one_time_pre_key =
        ap (λ d. if is_given b.one_time_pre_key then some d else none) s5
        ∙ optional_here b.one_time_pre_key rest 32 opk in
      ap
        (λ t.
          if t
          then err too_short
          else ok (record {
            identity_key = slice 2 32 whole;
            signed_pre_key = slice 34 32 whole;
            signed_pre_key_signature = slice 66 64 whole;
            pq_public_key = if is_given b.pq_public_key then some (slice 130 1184 whole) else none;
            one_time_pre_key =
                if is_given b.one_time_pre_key then some (slice (130 + a) 32 whole) else none;
          }))
        long
      ∙ (λ i. ok (record {
        identity_key = s1 i;
        signed_pre_key = s2 i;
        signed_pre_key_signature = s3 i;
        pq_public_key = p4 i;
        one_time_pre_key = p5 i;
      }))

  whole : (rest : List ℕ) → layout version flags b [] ++ rest ≡ layout version flags b rest
  whole rest = simp (append_assoc, append-nil)

  -- Every bundle whose parts have the lengths of their kinds is serialized without an error, and the
  -- bytes, with any others behind them, are read back to that bundle.
  pub deserialize-serialize :
      (d : List ℕ) × (serialize_pre_key_bundle b ≡ ok d)
      × ((rest : List ℕ) → deserialize_pre_key_bundle (d ++ rest) ≡ ok b)
  deserialize-serialize = (
    layout version flags b [],
    serialize_lem,
    λ rest.
        ap deserialize_pre_key_bundle (whole rest)
        ∙ deserialize_header (is_given b.pq_public_key) (is_given b.one_time_pre_key) (
            b.identity_key
            ++ (b.signed_pre_key
                ++ (b.signed_pre_key_signature
                    ++ (bytes_of b.pq_public_key ++ (bytes_of b.one_time_pre_key ++ rest)))))
        ∙ read_lem rest,
  )
