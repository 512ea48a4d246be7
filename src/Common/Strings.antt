-- ===== src/Common/Strings.antt =====
-- A JavaScript string is its sequence of UTF-16 code units; `text` reads a literal.
use Prim.Native.Nat.{ℕ}
use Prim.Native.Char.{code}
use Prim.Native.String.{String}
use mathlib.Core.Bool.{Bool, true, false, ◌||◌}
use mathlib.Core.List.{List, [], ◌∷◌, ◌++◌}
use mathlib.Core.Logic.{ite}
use mathlib.Core.Path.{◌≡◌, refl}
use native.Mathlib.Omega.{arith}
use native.Mathlib.Decide.{ℕ_discrete}

abbrev pub Text : Type 0
Text = List ℕ

abbrev pub text : String → Text
text String.[] = []
text (String.◌∷◌ c s) = code c ∷ text s

cons_discrete : (x y : ℕ) (xs ys : Text) → Dec (x ≡ y) → Dec (xs ≡ ys) → Dec (x ∷ xs ≡ y ∷ ys)
cons_discrete x y xs ys (yes p) (yes q) = yes (cc)
cons_discrete x y xs ys (no p) d = no (λ e. p (cc))
cons_discrete x y xs ys (yes p) (no q) = no (λ e. q (cc))

-- `===` on strings.
unfoldable pub text_discrete : Discrete Text
unfolding cons_discrete ℕ_discrete
text_discrete [] [] = yes (λ i. [])
text_discrete [] (y ∷ ys) = no (λ e. cc)
text_discrete (x ∷ xs) [] = no (λ e. cc)
text_discrete (x ∷ xs) (y ∷ ys) = cons_discrete x y xs ys (ℕ_discrete x y) (text_discrete xs ys)

abbrev pub text_eq : Text → Text → Bool
text_eq a b = ite (text_discrete a b) true false

unfoldable pub mem : Text → List Text → Bool
unfolding text_discrete
mem x [] = false
mem x (y ∷ ys) = ite (text_discrete y x) true (mem x ys)

abbrev pub AllDistinct : List Text → Type 0
AllDistinct [] = Unit
AllDistinct (x ∷ xs) = (mem x xs ≡ false) × AllDistinct xs

-- `indexOf(id)` and `splice(idx, 1)`: the first occurrence goes.
unfoldable pub remove_first : Text → List Text → List Text
unfolding text_discrete
remove_first id [] = []
remove_first id (x ∷ xs) = ite (text_discrete x id) xs (x ∷ remove_first id xs)

pub mem-append : (x : Text) (xs ys : List Text) → mem x (xs ++ ys) ≡ (mem x xs || mem x ys)
unfolding mem
mem-append x [] ys = refl
mem-append x (y ∷ xs) ys = ground (arith, mem-append x xs ys)

pub remove_first_absent : (k : Text) (xs : List Text) → mem k xs ≡ false → remove_first k xs ≡ xs
unfolding mem remove_first
remove_first_absent k [] h = refl
remove_first_absent k (x ∷ xs) h = ground (arith, remove_first_absent k xs)

pub mem-remove_first :
    (j k : Text) (xs : List Text)
    → AllDistinct xs
    → mem j (remove_first k xs) ≡ ite (text_discrete k j) false (mem j xs)
unfolding mem remove_first
mem-remove_first j k [] d = ground arith
mem-remove_first j k (x ∷ xs) d = ground (arith, mem-remove_first j k xs d.1)

pub remove_first-AllDistinct :
    (k : Text) (xs : List Text) → AllDistinct xs → AllDistinct (remove_first k xs)
unfolding remove_first
remove_first-AllDistinct k [] d = tt
remove_first-AllDistinct k (x ∷ xs) d =
    ground (arith, remove_first-AllDistinct k xs d.1, mem-remove_first x k xs d.1)

pub append-AllDistinct :
    (k : Text) (xs : List Text) → AllDistinct xs → mem k xs ≡ false → AllDistinct (xs ++ k ∷ [])
unfolding mem
append-AllDistinct k [] d h = ground arith
append-AllDistinct k (x ∷ xs) d h =
    ground (arith, append-AllDistinct k xs d.1, mem-append x xs (k ∷ []))

pub append-AllDistinct_of_disjoint :
    (xs ys : List Text)
    → AllDistinct xs
    → AllDistinct ys
    → ((j : Text) → mem j xs ≡ true → mem j ys ≡ false)
    → AllDistinct (xs ++ ys)
unfolding mem
append-AllDistinct_of_disjoint [] ys d e h = e
append-AllDistinct_of_disjoint (x ∷ xs) ys d e h = (
  ground (arith, mem-append x xs ys, h x (ground arith)),
  append-AllDistinct_of_disjoint xs ys d.1 e (λ j m. h j (ground arith)),
)

pub append-AllDistinct_inv :
    (xs ys : List Text)
    → AllDistinct (xs ++ ys)
    → AllDistinct xs × AllDistinct ys × ((j : Text) → mem j xs ≡ true → mem j ys ≡ false)
unfolding mem
append-AllDistinct_inv [] ys d = (tt, d, λ j m. absurd (cc))
append-AllDistinct_inv (x ∷ xs) ys d =
    let (dx, dy, apart) = append-AllDistinct_inv xs ys d.1 in
    (
      (ground (arith, mem-append x xs ys), dx),
      dy,
      λ j m. ground (arith, mem-append x xs ys, apart j),
    )
