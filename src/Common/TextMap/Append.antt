-- ===== src/Common/TextMap/Append.antt =====
-- Maps put together from two parts.
use mathlib.Core.List.{[], ◌∷◌, ◌++◌}
use mathlib.Core.Option.{none, some}
use mathlib.Core.Path.{◌≡◌, refl, ap, ◌∙◌}
use native.Mathlib.Omega.{arith}
use meshwhisper.Common.Strings.{Text, text_discrete}
use meshwhisper.Common.TextMap.{TextMap, get, set}

module _ {ℓ} {V : Type ℓ} where
  pub set-append :
      (k : Text) (v : V) (m : TextMap V) → get k m ≡ none → set k v m ≡ m ++ (k, v) ∷ []
  unfolding get set
  set-append k v [] h = refl
  set-append k v ((j, w) ∷ m) h = ground (arith, set-append k v m)

  pub get-append : (k : Text) (m n : TextMap V) → get k m ≡ none → get k (m ++ n) ≡ get k n
  unfolding get
  get-append k [] n h = refl
  get-append k ((j, w) ∷ m) n h = ground (arith, get-append k m n)

  -- An entry behind the first part is replaced in its place.
  pub set-append_there :
      (k : Text) (v w : V) (m n : TextMap V)
      → get k m ≡ none
      → set k v (m ++ (k, w) ∷ n) ≡ m ++ (k, v) ∷ n
  unfolding get set
  set-append_there k v w [] n h = ground arith
  set-append_there k v w ((j, x) ∷ m) n h = ground (arith, set-append_there k v w m n)

  -- What is in neither part of a map is in neither when the second's first entry moves to the first.
  pub shift_apart :
      (j : Text) (v w : V) (m done : TextMap V)
      → get j m ≡ none
      → ((k : Text) (x : V) → get k ((j, v) ∷ m) ≡ some x → get k done ≡ none)
      → (k : Text) (x : V) → get k m ≡ some x
      → get k (done ++ (j, w) ∷ []) ≡ none
  unfolding get
  shift_apart j v w m done n h k x g = elim (text_discrete j k) [
    | yes p ↦ absurd (ground (arith, n, ap (λ t. get t m) p))
    | no p ↦ get-append k done ((j, w) ∷ []) (h k x (ground arith)) ∙ ground arith
  ]
