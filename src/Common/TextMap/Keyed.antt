-- ===== src/Common/TextMap/Keyed.antt =====
-- Maps whose values know their keys.
use mathlib.Core.Bool.{Bool}
use mathlib.Core.List.{[], ◌∷◌}
use mathlib.Core.Logic.{ite, inl, inr}
use mathlib.Core.Option.{some, some-injective}
use mathlib.Core.Path.{◌≡◌, sym, ap, ◌∙◌}
use native.Mathlib.Omega.{arith}
use meshwhisper.Common.Strings.{Text, text_discrete}
use meshwhisper.Common.Tests.{Bool-cases}
use meshwhisper.Common.TextMap.{TextMap, get, set, delete, keep_entries}

module _ {ℓ} {V : Type ℓ} (key_of : V → Text) where
  -- Every value stands under its own key.
  abbrev pub IsKeyed : TextMap V → Type 0
  IsKeyed [] = Unit
  IsKeyed ((k, v) ∷ m) = (key_of v ≡ k) × IsKeyed m

  pub key_of-get : (k : Text) (m : TextMap V) (v : V) → IsKeyed m → get k m ≡ some v → key_of v ≡ k
  unfolding get
  key_of-get k [] v h e = absurd (ground arith)
  key_of-get k ((j, w) ∷ m) v h e = elim (text_discrete j k) [
    | yes q ↦ ap key_of (sym (some-injective w v (ground arith))) ∙ h.0 ∙ q
    | no q ↦ key_of-get k m v h.1 (ground arith)
  ]

  pub set-IsKeyed :
      (k : Text) (v : V) (m : TextMap V) → key_of v ≡ k → IsKeyed m → IsKeyed (set k v m)
  unfolding set
  set-IsKeyed k v [] p h = (p, tt)
  set-IsKeyed k v ((j, w) ∷ m) p h =
      elim (text_discrete j k) as (λ d. IsKeyed (ite d ((j, v) ∷ m) ((j, w) ∷ set k v m))) [
        | yes q ↦ (p ∙ sym q, h.1)
        | no q ↦ (h.0, set-IsKeyed k v m p h.1)
      ]

  pub delete-IsKeyed : (k : Text) (m : TextMap V) → IsKeyed m → IsKeyed (delete k m)
  unfolding delete
  delete-IsKeyed k [] h = tt
  delete-IsKeyed k ((j, w) ∷ m) h =
      elim (text_discrete j k) as (λ d. IsKeyed (ite d (delete k m) ((j, w) ∷ delete k m))) [
        | yes q ↦ delete-IsKeyed k m h.1
        | no q ↦ (h.0, delete-IsKeyed k m h.1)
      ]

  pub keep_entries-IsKeyed :
      (p : Text → V → Bool) (m : TextMap V) → IsKeyed m → IsKeyed (keep_entries p m)
  unfolding keep_entries
  keep_entries-IsKeyed p [] h = tt
  keep_entries-IsKeyed p ((j, w) ∷ m) h = elim (Bool-cases (p j w)) [
    | inl e ↦ rw (keep_entries, e) (h.0, keep_entries-IsKeyed p m h.1)
    | inr e ↦ rw (keep_entries, e) (keep_entries-IsKeyed p m h.1)
  ]
