-- ===== src/Common/TextMap.antt =====
-- A JavaScript `Map` with string keys, in insertion order, and a `Set` of strings as such a map.
pub mod Laws
pub mod Keyed
pub mod Append
use Prim.Native.Nat.{ℕ, ◌+◌}
use mathlib.Core.Bool.{Bool, true, false}
use mathlib.Core.List.{List, [], ◌∷◌}
use mathlib.Core.Logic.{ite}
use mathlib.Core.Option.{Option, none, some}
use mathlib.Core.Path.{◌≡◌}
use meshwhisper.Common.Lists.{length}
use meshwhisper.Common.Strings.{Text, text_discrete}

abbrev pub TextMap {ℓ} : Type ℓ → Type ℓ
TextMap V = List (Text × V)

module _ {ℓ} {V : Type ℓ} where
  unfoldable pub get : Text → TextMap V → Option V
  unfolding text_discrete
  get k [] = none
  get k ((j, v) ∷ m) = ite (text_discrete j k) (some v) (get k m)

  unfoldable pub has : Text → TextMap V → Bool
  unfolding text_discrete
  has k [] = false
  has k ((j, v) ∷ m) = ite (text_discrete j k) true (has k m)

  -- A known key keeps its place; a new one goes to the end.
  unfoldable pub set : Text → V → TextMap V → TextMap V
  unfolding text_discrete
  set k v [] = (k, v) ∷ []
  set k v ((j, w) ∷ m) = ite (text_discrete j k) ((j, v) ∷ m) ((j, w) ∷ set k v m)

  unfoldable pub delete : Text → TextMap V → TextMap V
  unfolding text_discrete
  delete k [] = []
  delete k ((j, w) ∷ m) = let rest = delete k m in ite (text_discrete j k) rest ((j, w) ∷ rest)

  unfoldable pub keys : TextMap V → List Text
  keys [] = []
  keys ((j, v) ∷ m) = j ∷ keys m

  unfoldable pub values : TextMap V → List V
  values [] = []
  values ((j, v) ∷ m) = v ∷ values m

  abbrev pub size : TextMap V → ℕ
  size = length

  -- Keeps the entries that pass a test: a loop that deletes the others as it goes.
  unfoldable pub keep_entries : (Text → V → Bool) → TextMap V → TextMap V
  keep_entries p [] = []
  keep_entries p ((j, v) ∷ m) =
      let rest = keep_entries p m in elim (p j v) [ true ↦ (j, v) ∷ rest | false ↦ rest ]

  -- The sum of a weight over the values.
  unfoldable pub total : (V → ℕ) → TextMap V → ℕ
  total f [] = 0
  total f ((j, v) ∷ m) = f v + total f m

  -- No key stands twice.
  abbrev pub Distinct : TextMap V → Type ℓ
  Distinct [] = Unit
  Distinct ((k, v) ∷ m) = (get k m ≡ none) × Distinct m
