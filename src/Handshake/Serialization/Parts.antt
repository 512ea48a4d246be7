-- ===== src/Handshake/Serialization/Parts.antt =====
-- One part of the binary form: its write, and its place when it is read.
use meshwhisper.Common.{
  ℕ, ◌+◌, ◌≡◌, refl, sym, ap, ◌∙◌, subst, false, List, [], ◌++◌, Option, none, some, length, take,
  drop, append-nil, length-append, take_append, drop_prefix, drop-zeros, length-zeros, zeros, ltb,
  if◌then◌else◌, arith, ok,
}
use meshwhisper.Handshake.{is_given}
use meshwhisper.Handshake.Serialization.{set_bytes, set_optional, room, slice}

-- A part of `n` bytes, where it is given.
abbrev pub HasLength : ℕ → Option (List ℕ) → Type 0
HasLength n none = Unit
HasLength n (some bytes) = length bytes ≡ n

abbrev pub bytes_of : Option (List ℕ) → List ℕ
bytes_of none = []
bytes_of (some bytes) = bytes

pub length-bytes_of :
    (n : ℕ) (o : Option (List ℕ)) → HasLength n o → length (bytes_of o) ≡ room (is_given o) n
length-bytes_of n none h = refl
length-bytes_of n (some bytes) h = h

-- A write at the end of what is already written.
pub set_bytes_next :
    (front bytes : List ℕ) (off n k m : ℕ)
    → length front ≡ off
    → length bytes ≡ k
    → n ≡ m + k
    → set_bytes off bytes (front ++ zeros n) ≡ ok ((front ++ bytes) ++ zeros m)
unfolding set_bytes
set_bytes_next front bytes off n k m f b total =
    let fits : ltb (length (front ++ zeros n)) (off + length bytes) ≡ false =
      ground (arith, length-append front (zeros n), length-zeros n) in
    let before : take off (front ++ zeros n) ≡ front =
      subst (λ i. take i (front ++ zeros n) ≡ front) f (take_append front (zeros n)) in
    let after : drop (off + length bytes) (front ++ zeros n) ≡ zeros m =
      drop_prefix front (zeros n) k (off + length bytes) (omega (arith, f, b))
      ∙ drop-zeros k m n total in
    rw (set_bytes, fits, before, after) refl

pub set_optional_next :
    (front : List ℕ) (o : Option (List ℕ)) (off n k m : ℕ)
    → length front ≡ off
    → HasLength k o
    → n ≡ m + room (is_given o) k
    → set_optional off o (front ++ zeros n) ≡ ok ((front ++ bytes_of o) ++ zeros m)
unfolding set_optional
set_optional_next front none off n k m f b total =
    let same : n ≡ m = omega (arith, total) in
    ap (λ i. ok (front ++ zeros i)) same ∙ ap (λ xs. ok (xs ++ zeros m)) (sym (append-nil front))
set_optional_next front (some bytes) off n k m f b total =
    set_bytes_next front bytes off n k m f b total

pub slice_here : (a r : List ℕ) (n : ℕ) → length a ≡ n → slice 0 n (a ++ r) ≡ a
slice_here a r n e = subst (λ k. take k (a ++ r) ≡ a) e (take_append a r)

pub slice_skip :
    (a r : List ℕ) (k off rest n : ℕ)
    → length a ≡ k
    → off ≡ rest + k
    → slice off n (a ++ r) ≡ slice rest n r
slice_skip a r k off rest n e f = ap (take n) (drop_prefix a r rest off (omega (arith, e, f)))

pub optional_here :
    (o : Option (List ℕ)) (r : List ℕ) (n : ℕ)
    → HasLength n o
    → (if is_given o then some (slice 0 n (bytes_of o ++ r)) else none) ≡ o
optional_here none r n h = refl
optional_here (some bytes) r n h = ap some (slice_here bytes r n h)
