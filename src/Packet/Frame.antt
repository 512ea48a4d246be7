-- ===== src/Packet/Frame.antt =====
-- The wire layout as a list: version, flags, 8 + 16 bytes, ttl, two length bytes, payload.
use meshwhisper.Common.{
  ℕ, ◌+◌, ◌*◌, ◌≤◌, ◌≡◌, refl, sym, ap, ◌∙◌, List, ◌∷◌, ◌++◌, length, take, drop, arith, get_elem?,
  length-append, length-drop, take-drop, take_append_of_length, drop_append_of_length, drop-drop,
  get_elem?-drop,
}
use meshwhisper.Packet.{or_zero, byte_at, slice, get_u16, header_size}

abbrev pub frame : ℕ → ℕ → List ℕ → List ℕ → ℕ → ℕ → ℕ → List ℕ → List ℕ
frame v f dh se t h l rest = v ∷ f ∷ (dh ++ (se ++ (t ∷ h ∷ l ∷ rest)))

module _ (v f : ℕ) (dh se : List ℕ) (t h l : ℕ) (rest : List ℕ) (eight : length dh ≡ 8)
    (sixteen : length se ≡ 16) where
  abbrev d : List ℕ
  d = frame v f dh se t h l rest

  tail_lem : (m : ℕ) → drop (26 + m) d ≡ drop m (t ∷ h ∷ l ∷ rest)
  tail_lem m =
      ap (λ k. drop k d) (omega arith)
      ∙ sym (drop-drop 2 (24 + m) d)
      ∙ ap (λ k. drop k (dh ++ (se ++ (t ∷ h ∷ l ∷ rest)))) (omega arith)
      ∙ drop_append_of_length 8 (16 + m) dh _ eight
      ∙ drop_append_of_length 16 m se _ sixteen

  pub length-frame : length d ≡ header_size + length rest
  length-frame =
      omega
        (arith, length-append dh (se ++ (t ∷ h ∷ l ∷ rest)), length-append se (t ∷ h ∷ l ∷ rest))

  byte_lem : (m : ℕ) → byte_at d (26 + m) ≡ byte_at (t ∷ h ∷ l ∷ rest) m
  byte_lem m = ap or_zero (sym (get_elem?-drop 26 m d) ∙ ap (λ r. get_elem? r m) (tail_lem 0))

  pub ttl-frame : byte_at d 26 ≡ t
  ttl-frame = byte_lem 0

  pub length_bytes-frame : get_u16 d 27 ≡ h * 256 + l
  unfolding get_u16
  length_bytes-frame = rw (byte_lem 1, byte_lem 2)

  pub dest_hash-frame : slice d 2 8 ≡ dh
  dest_hash-frame = take_append_of_length 8 dh _ eight

  pub sender-frame : slice d 10 16 ≡ se
  sender-frame =
      ap (take 16) (drop_append_of_length 8 0 dh (se ++ (t ∷ h ∷ l ∷ rest)) eight)
      ∙ take_append_of_length 16 se _ sixteen

  pub payload-frame : drop header_size d ≡ rest
  payload-frame = tail_lem 3

three : (xs : List ℕ) → 3 ≤ length xs → xs ≡ byte_at xs 0 ∷ byte_at xs 1 ∷ byte_at xs 2 ∷ drop 3 xs
three (a ∷ b ∷ c ∷ xs) h = refl
three xs h = absurd (omega arith)

-- A buffer of at least the header's size has this layout.
pub frame_of_length :
    (d : List ℕ)
    → header_size ≤ length d
    → d
      ≡ frame
          (byte_at d 0)
          (byte_at d 1)
          (slice d 2 8)
          (slice d 10 16)
          (byte_at d 26)
          (byte_at d 27)
          (byte_at d 28)
          (drop header_size d)
frame_of_length (v ∷ f ∷ r) long =
    ap (λ x. v ∷ f ∷ x)
      (sym (take-drop 8 r)
        ∙ ap (◌++◌ (take 8 r)) (
            sym (take-drop 16 (drop 8 r))
            ∙ ap (◌++◌ (take 16 (drop 8 r))) (drop-drop 8 16 r ∙ last)))
  where
    at : (m : ℕ) → byte_at (drop 24 r) m ≡ byte_at r (24 + m)
    at m = ap or_zero (get_elem?-drop 24 m r)

    last : drop 24 r ≡ byte_at r 24 ∷ byte_at r 25 ∷ byte_at r 26 ∷ drop 27 r
    last =
        three (drop 24 r) (omega (arith, length-drop 24 r))
        ∙ rw (at 0, at 1, at 2, drop-drop 24 3 r)
frame_of_length d long = absurd (omega arith)
