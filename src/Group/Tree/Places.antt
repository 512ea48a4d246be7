-- ===== src/Group/Tree/Places.antt =====
-- Places in the queue of the insertion loop.
use meshwhisper.Common.{
  ℕ, zero, suc, ◌<◌, ◌≡◌, refl, ap, true, List, [], ◌∷◌, ◌++◌, none, some, Text, mem, AllDistinct,
  arith, if◌then◌else◌, length, get_elem?, ltb,
}

pub mem-get_elem? : (q : List Text) (i : ℕ) (a : Text) → get_elem? q i ≡ some a → mem a q ≡ true
unfolding mem
mem-get_elem? [] i a h = cc
mem-get_elem? (x ∷ q) zero a h = ground arith
mem-get_elem? (x ∷ q) (suc i) a h = ground (arith, mem-get_elem? q i a h)

-- One text stands at one place of a list without repetitions.
pub get_elem?_injective :
    (q : List Text) (i j : ℕ) (a : Text)
    → AllDistinct q
    → get_elem? q i ≡ some a
    → get_elem? q j ≡ some a
    → i ≡ j
get_elem?_injective [] i j a d h k = cc
get_elem?_injective (x ∷ q) zero zero a d h k = refl
get_elem?_injective (x ∷ q) zero (suc j) a d h k = ground (arith, mem-get_elem? q j a k)
get_elem?_injective (x ∷ q) (suc i) zero a d h k = ground (arith, mem-get_elem? q i a h)
get_elem?_injective (x ∷ q) (suc i) (suc j) a d h k = ap suc (get_elem?_injective q i j a d.1 h k)

pub get_elem?-below : (q : List Text) (i : ℕ) → i < length q → (a : Text) × (get_elem? q i ≡ some a)
get_elem?-below [] i h = absurd (omega arith)
get_elem?-below (x ∷ q) zero h = (x, refl)
get_elem?-below (x ∷ q) (suc i) h = get_elem?-below q i (omega arith)

pub get_elem?-append_inv :
    (q : List Text) (c : Text) (i : ℕ) (a : Text)
    → get_elem? (q ++ c ∷ []) i ≡ some a
    → (if ltb i (length q) then get_elem? q i else (if ltb (length q) i then none else some c))
      ≡ some a
get_elem?-append_inv [] c zero a h = h
get_elem?-append_inv [] c (suc i) a h = cc
get_elem?-append_inv (x ∷ q) c zero a h = ground arith
get_elem?-append_inv (x ∷ q) c (suc i) a h = ground (arith, get_elem?-append_inv q c i a h)

pub get_elem?-append_left :
    (q : List Text) (c : Text) (i : ℕ) (a : Text)
    → get_elem? q i ≡ some a
    → get_elem? (q ++ c ∷ []) i ≡ some a
get_elem?-append_left [] c i a h = cc
get_elem?-append_left (x ∷ q) c zero a h = h
get_elem?-append_left (x ∷ q) c (suc i) a h = get_elem?-append_left q c i a h
