-- ===== src/Routing/Seen/Rotation.antt =====
-- The ring of `SeenPacketSet` when the place at the cursor is overwritten.
use meshwhisper.Common.{
  ℕ, zero, suc, ◌+◌, ◌%◌, ◌<◌, ◌≡◌, refl, sym, ap, ◌∙◌, List, [], ◌∷◌, ◌++◌, length, length-append,
  take, drop, get_elem?, set_elem, arith, append_assoc, append-nil, drop_append, take_append,
  drop_append_of_length, take_append_of_length, some, Text,
}
use native.Mathlib.Nat.{mod-eq_of_lt, mod_self}
use mathlib.Core.Path.{ap₂}

split :
    (c : ℕ) (ring : List Text)
    → c < length ring
    → (xs : List Text) × (y : Text) × (ys : List Text) × (ring ≡ xs ++ (y ∷ ys)) × (length xs ≡ c)
split c [] h = absurd (omega arith)
split zero (y ∷ ring) h = ([], y, ring, refl, refl)
split (suc c) (z ∷ ring) h =
    let (xs, y, ys, e, n) = split c ring (omega arith) in (z ∷ xs, y, ys, ap (◌∷◌ z) e, ap suc n)

module _ (fp y : Text) where
  set_elem_lem : (xs ys : List Text) → set_elem (xs ++ (y ∷ ys)) (length xs) fp ≡ xs ++ (fp ∷ ys)
  set_elem_lem [] ys = refl
  set_elem_lem (x ∷ xs) ys = ap (◌∷◌ x) (set_elem_lem xs ys)

  get_elem?_lem : (xs ys : List Text) → get_elem? (xs ++ (y ∷ ys)) (length xs) ≡ some y
  get_elem?_lem [] ys = refl
  get_elem?_lem (x ∷ xs) ys = get_elem?_lem xs ys

-- The place behind `xs` in the ring `xs ++ y ∷ ys` is overwritten.
rotate_split :
    (xs ys : List Text) (fp y : Text) (n : ℕ)
    → length (xs ++ (y ∷ ys)) ≡ n
    → drop ((length xs + 1) % n) (xs ++ (fp ∷ ys)) ++ take ((length xs + 1) % n) (xs ++ (fp ∷ ys))
      ≡ (ys ++ xs) ++ (fp ∷ [])
rotate_split xs [] fp y n h =
    let wrap : (length xs + 1) % n ≡ 0 =
      (rw (← h, length-append xs (y ∷ [])) (omega (arith, mod_self (length xs + 1)))) in
    rw wrap (append-nil (xs ++ (fp ∷ [])))
rotate_split xs (z ∷ zs) fp y n h =
    let stay : (length xs + 1) % n ≡ length xs + 1 =
      mod-eq_of_lt (omega (arith, length-append xs (y ∷ z ∷ zs))) in
    rw stay (
      ap₂ ◌++◌ (drop_append_of_length (length xs) 1 xs (fp ∷ z ∷ zs) refl) (
        ap (take (length xs + 1)) (sym (append_assoc xs (fp ∷ []) (z ∷ zs)))
        ∙ take_append_of_length (length xs + 1) (xs ++ (fp ∷ [])) (z ∷ zs)
            (omega (arith, length-append xs (fp ∷ []))))
      ∙ sym (append_assoc (z ∷ zs) xs (fp ∷ [])))

-- Replacing the place at the cursor and moving it on takes the oldest place off the front and puts
-- the new text at the end.
pub rotate :
    (c n : ℕ) (ring : List Text) (fp x : Text) (r : List Text)
    → length ring ≡ n
    → c < n
    → drop c ring ++ take c ring ≡ x ∷ r
    → (get_elem? ring c ≡ some x)
      × (drop ((c + 1) % n) (set_elem ring c fp) ++ take ((c + 1) % n) (set_elem ring c fp)
          ≡ r ++ (fp ∷ []))
rotate c n ring fp x r h k e =
    let (xs, y, ys, q, m) = split c ring (omega arith) in
    let front : (y ∷ ys) ++ xs ≡ x ∷ r =
      rw (← m, q, drop_append xs (y ∷ ys), take_append xs (y ∷ ys)) at e in
    (
      rw (q, ← m) (get_elem?_lem fp y xs ys ∙ cc),
      rw (q, ← m, set_elem_lem fp y xs ys)
          (rotate_split xs ys fp y n (rw q at h) ∙ ap (λ z. z ++ (fp ∷ [])) (ap (drop 1) front)),
    )

pub length-set_elem :
    (ring : List Text) (c : ℕ) (fp : Text) → length (set_elem ring c fp) ≡ length ring
length-set_elem [] c fp = refl
length-set_elem (x ∷ ring) zero fp = refl
length-set_elem (x ∷ ring) (suc c) fp = ap suc (length-set_elem ring c fp)
