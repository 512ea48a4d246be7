-- ===== src/Common/Sorting.antt =====
-- `Array.prototype.sort` with a comparison: a stable sort, here by insertion. `before x y` says that
-- the comparison of `x` with `y` is negative.
use Prim.Native.Nat.{ℕ, zero, suc}
use mathlib.Core.Bool.{Bool, true, false}
use mathlib.Core.List.{List, [], ◌∷◌, Perm}
use mathlib.Core.List.Perm
use mathlib.Core.Logic.{inl, inr}
use mathlib.Core.Path.{◌≡◌, refl, ◌∙◌}
use native.Mathlib.Omega.{arith}
use meshwhisper.Common.Lists.{All, All-imp, take, drop, length}
use meshwhisper.Common.Strings.{Text, mem, AllDistinct}
use meshwhisper.Common.Tests.{if◌then◌else◌, Bool-cases}

module _ {ℓ} {A : Type ℓ} (before : A → A → Bool) where
  unfoldable pub insert_sorted : A → List A → List A
  insert_sorted x [] = x ∷ []
  insert_sorted x (y ∷ ys) = if before y x then y ∷ insert_sorted x ys else x ∷ y ∷ ys

  unfoldable pub sort : List A → List A
  unfolding insert_sorted
  sort [] = []
  sort (x ∷ xs) = insert_sorted x (sort xs)

  insert_sorted-perm : (x : A) (xs : List A) → Perm (insert_sorted x xs) (x ∷ xs)
  unfolding insert_sorted
  insert_sorted-perm x [] = Perm.refl (x ∷ [])
  insert_sorted-perm x (y ∷ ys) = elim (Bool-cases (before y x)) [
    | inl b ↦ rw b (Perm.trans (Perm.cons y (insert_sorted-perm x ys)) (Perm.swap x y ys))
    | inr b ↦ rw b (Perm.refl (x ∷ y ∷ ys))
  ]

  -- Sorting keeps the elements, each as often.
  pub sort-perm : (xs : List A) → Perm (sort xs) xs
  unfolding sort
  sort-perm [] = Perm.refl []
  sort-perm (x ∷ xs) = Perm.trans (insert_sorted-perm x (sort xs)) (Perm.cons x (sort-perm xs))

  All-insert_sorted_inv {κ} :
      (P : A → Type κ) (x : A) (ys : List A) → All P (insert_sorted x ys) → P x × All P ys
  unfolding insert_sorted
  All-insert_sorted_inv P x [] h = h
  All-insert_sorted_inv P x (y ∷ ys) h = elim (Bool-cases (before y x)) [
    | inl b ↦
        let (k, rest) = All-insert_sorted_inv P x ys (rw b at h).1 in (k, ((rw b at h).0, rest))
    | inr b ↦ rw b at h
  ]

  -- What holds of all of the sorted list holds of all of the list.
  pub All-sort_inv {κ} : (P : A → Type κ) (xs : List A) → All P (sort xs) → All P xs
  unfolding sort
  All-sort_inv P [] h = tt
  All-sort_inv P (x ∷ xs) h =
      let (k, rest) = All-insert_sorted_inv P x (sort xs) h in (k, All-sort_inv P xs rest)

  length-insert_sorted : (x : A) (xs : List A) → length (insert_sorted x xs) ≡ suc (length xs)
  unfolding insert_sorted
  length-insert_sorted x [] = refl
  length-insert_sorted x (y ∷ ys) = ground (arith, length-insert_sorted x ys)

  pub length-sort : (xs : List A) → length (sort xs) ≡ length xs
  unfolding sort
  length-sort [] = refl
  length-sort (x ∷ xs) = omega (arith, length-insert_sorted x (sort xs), length-sort xs)

  -- No element comes before one that stands in front of it.
  abbrev pub IsSorted : List A → Type ℓ
  IsSorted [] = Unit
  IsSorted (x ∷ xs) = All (λ y. before y x ≡ false) xs × IsSorted xs

  module _ (asym : (x y : A) → before x y ≡ true → before y x ≡ false)
      (trans : (x y z : A) → before x y ≡ false → before y z ≡ false → before x z ≡ false) where
    All-insert_sorted :
        (x z : A) (ys : List A)
        → before x z ≡ false
        → All (λ y. before y z ≡ false) ys
        → All (λ y. before y z ≡ false) (insert_sorted x ys)
    unfolding insert_sorted
    All-insert_sorted x z [] h k = (h, tt)
    All-insert_sorted x z (y ∷ ys) h k = ground (arith, All-insert_sorted x z ys h k.1)

    insert_sorted-IsSorted : (x : A) (ys : List A) → IsSorted ys → IsSorted (insert_sorted x ys)
    unfolding insert_sorted
    insert_sorted-IsSorted x [] s = (tt, tt)
    insert_sorted-IsSorted x (y ∷ ys) s = elim (Bool-cases (before y x)) [
      | inl b ↦ rw b (All-insert_sorted x y ys (asym y x b) s.0, insert_sorted-IsSorted x ys s.1)
      | inr b ↦ rw b ((b, All-imp (λ z k. trans z y x k b) ys s.0), s)
    ]

    -- The result is sorted.
    pub sort-IsSorted : (xs : List A) → IsSorted (sort xs)
    unfolding sort
    sort-IsSorted [] = tt
    sort-IsSorted (x ∷ xs) = insert_sorted-IsSorted x (sort xs) (sort-IsSorted xs)

  All-drop {κ} : (P : A → Type κ) (n : ℕ) (xs : List A) → All P xs → All P (drop n xs)
  All-drop P zero xs h = h
  All-drop P (suc n) [] h = tt
  All-drop P (suc n) (x ∷ xs) h = All-drop P n xs h.1

  -- Behind the first `n` elements of a sorted list none comes before one of them.
  pub IsSorted-take-drop :
      (n : ℕ) (xs : List A)
      → IsSorted xs
      → All (λ x. All (λ y. before y x ≡ false) (drop n xs)) (take n xs)
  IsSorted-take-drop zero xs s = tt
  IsSorted-take-drop (suc n) [] s = tt
  IsSorted-take-drop (suc n) (x ∷ xs) s =
      (All-drop (λ y. before y x ≡ false) n xs s.0, IsSorted-take-drop n xs s.1)

-- The same for texts: membership and the absence of repetitions are kept.
module _ (before : Text → Text → Bool) where
  mem-insert_sorted :
      (j x : Text) (ys : List Text) → mem j (insert_sorted before x ys) ≡ mem j (x ∷ ys)
  unfolding insert_sorted mem
  mem-insert_sorted j x [] = refl
  mem-insert_sorted j x (y ∷ ys) = ground (arith, mem-insert_sorted j x ys)

  pub mem-sort : (j : Text) (xs : List Text) → mem j (sort before xs) ≡ mem j xs
  unfolding sort mem
  mem-sort j [] = refl
  mem-sort j (x ∷ xs) = ground (arith, mem-insert_sorted j x (sort before xs), mem-sort j xs)

  insert_sorted-AllDistinct :
      (x : Text) (ys : List Text)
      → AllDistinct ys
      → mem x ys ≡ false
      → AllDistinct (insert_sorted before x ys)
  unfolding insert_sorted mem
  insert_sorted-AllDistinct x [] d h = (refl, tt)
  insert_sorted-AllDistinct x (y ∷ ys) d h = elim (Bool-cases (before y x)) [
    | inl b ↦ rw b (
      ground (arith, mem-insert_sorted y x ys),
      insert_sorted-AllDistinct x ys d.1 (ground arith),
    )
    | inr b ↦ rw b (h, d)
  ]

  pub sort-AllDistinct : (xs : List Text) → AllDistinct xs → AllDistinct (sort before xs)
  unfolding sort
  sort-AllDistinct [] d = tt
  sort-AllDistinct (x ∷ xs) d =
      insert_sorted-AllDistinct x (sort before xs) (sort-AllDistinct xs d.1) (mem-sort x xs ∙ d.0)
