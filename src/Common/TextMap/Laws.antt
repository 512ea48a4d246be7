-- ===== src/Common/TextMap/Laws.antt =====
-- The laws of the maps.
use Prim.Native.Nat.{ℕ, ◌+◌, ◌≤◌}
use mathlib.Core.Bool.{Bool, true, false}
use mathlib.Core.List.{[], ◌∷◌}
use mathlib.Core.Logic.{ite}
use mathlib.Core.Option.{Option, none, some}
use mathlib.Core.Path.{◌≡◌, refl}
use native.Mathlib.Omega.{arith}
use meshwhisper.Common.Lists.{length}
use meshwhisper.Common.Strings.{Text, text_discrete, mem, AllDistinct}
use meshwhisper.Common.TextMap.{
  TextMap, keys, values, get, has, set, delete, keep_entries, total, size, Distinct,
}

abbrev pub is_some {ℓ} : {A : Type ℓ} → Option A → Bool
is_some none = false
is_some (some a) = true

module _ {ℓ} {V : Type ℓ} where
  pub has-get : (k : Text) (m : TextMap V) → has k m ≡ is_some (get k m)
  unfolding get has
  has-get k [] = refl
  has-get k ((j, v) ∷ m) = ground (arith, has-get k m)

  pub get-set :
      (j k : Text) (v : V) (m : TextMap V)
      → get j (set k v m) ≡ ite (text_discrete k j) (some v) (get j m)
  unfolding get set
  get-set j k v [] = refl
  get-set j k v ((i, w) ∷ m) = ground (arith, get-set j k v m)

  pub get-delete :
      (j k : Text) (m : TextMap V) → get j (delete k m) ≡ ite (text_discrete k j) none (get j m)
  unfolding get delete
  get-delete j k [] = ground arith
  get-delete j k ((i, w) ∷ m) = ground (arith, get-delete j k m)

  pub delete_absent : (k : Text) (m : TextMap V) → get k m ≡ none → delete k m ≡ m
  unfolding get delete
  delete_absent k [] h = refl
  delete_absent k ((j, v) ∷ m) h = ground (arith, delete_absent k m)

  pub get-keep_entries-none :
      (p : Text → V → Bool) (k : Text) (m : TextMap V)
      → get k m ≡ none
      → get k (keep_entries p m) ≡ none
  unfolding get keep_entries
  get-keep_entries-none p k [] h = refl
  get-keep_entries-none p k ((j, v) ∷ m) h = ground (arith, get-keep_entries-none p k m)

  pub get-keep_entries :
      (p : Text → V → Bool) (k : Text) (m : TextMap V) (v : V)
      → Distinct m
      → get k m ≡ some v
      → get k (keep_entries p m) ≡ (elim (p k v) [ true ↦ some v | false ↦ none ])
  unfolding get keep_entries
  get-keep_entries p k [] v d h = cc
  get-keep_entries p k ((j, w) ∷ m) v d h =
      ground (arith, get-keep_entries p k m v d.1, get-keep_entries-none p k m)

  pub get-keep_entries-some :
      (p : Text → V → Bool) (k : Text) (m : TextMap V) (v : V)
      → Distinct m
      → get k (keep_entries p m) ≡ some v
      → (get k m ≡ some v) × (p k v ≡ true)
  unfolding get keep_entries
  get-keep_entries-some p k [] v d h = cc
  get-keep_entries-some p k ((j, w) ∷ m) v d h =
      ground (arith, get-keep_entries-some p k m v d.1, get-keep_entries-none p k m)

  pub set-Distinct : (k : Text) (v : V) (m : TextMap V) → Distinct m → Distinct (set k v m)
  unfolding set get
  set-Distinct k v [] d = ground arith
  set-Distinct k v ((j, w) ∷ m) d = ground (arith, set-Distinct k v m d.1, get-set j k v m)

  pub delete-Distinct : (k : Text) (m : TextMap V) → Distinct m → Distinct (delete k m)
  unfolding delete
  delete-Distinct k [] d = tt
  delete-Distinct k ((j, w) ∷ m) d = ground (arith, delete-Distinct k m d.1, get-delete j k m)

  pub keep_entries-Distinct :
      (p : Text → V → Bool) (m : TextMap V) → Distinct m → Distinct (keep_entries p m)
  unfolding keep_entries
  keep_entries-Distinct p [] d = tt
  keep_entries-Distinct p ((j, w) ∷ m) d =
      ground (arith, keep_entries-Distinct p m d.1, get-keep_entries-none p j m)

  pub total-set_new :
      (f : V → ℕ) (k : Text) (v : V) (m : TextMap V)
      → get k m ≡ none
      → total f (set k v m) ≡ total f m + f v
  unfolding get set total
  total-set_new f k v [] h = omega arith
  total-set_new f k v ((j, w) ∷ m) h = ground (arith, total-set_new f k v m)

  pub total-delete :
      (f : V → ℕ) (k : Text) (v : V) (m : TextMap V)
      → Distinct m
      → get k m ≡ some v
      → total f (delete k m) + f v ≡ total f m
  unfolding get delete total
  total-delete f k v [] d h = cc
  total-delete f k v ((j, w) ∷ m) d h = ground (arith, total-delete f k v m d.1, delete_absent k m)

  pub get-le-total :
      (f : V → ℕ) (k : Text) (v : V) (m : TextMap V) → get k m ≡ some v → f v ≤ total f m
  unfolding get total
  get-le-total f k v [] h = cc
  get-le-total f k v ((j, w) ∷ m) h = ground (arith, get-le-total f k v m)

  pub size-set_new :
      (k : Text) (v : V) (m : TextMap V) → get k m ≡ none → size (set k v m) ≡ size m + 1
  unfolding get set
  size-set_new k v [] h = omega arith
  size-set_new k v ((j, w) ∷ m) h = ground (arith, size-set_new k v m)

  pub size-set_old :
      (k : Text) (v w : V) (m : TextMap V) → get k m ≡ some w → size (set k v m) ≡ size m
  unfolding get set
  size-set_old k v w [] h = cc
  size-set_old k v w ((j, x) ∷ m) h = ground (arith, size-set_old k v w m)

  pub size-delete :
      (k : Text) (v : V) (m : TextMap V)
      → Distinct m
      → get k m ≡ some v
      → size (delete k m) + 1 ≡ size m
  unfolding get delete
  size-delete k v [] d h = cc
  size-delete k v ((j, w) ∷ m) d h = ground (arith, size-delete k v m d.1, delete_absent k m)

  pub mem-keys : (k : Text) (m : TextMap V) → mem k (keys m) ≡ has k m
  unfolding mem keys has
  mem-keys k [] = refl
  mem-keys k ((j, v) ∷ m) = ground (arith, mem-keys k m)

  pub keys-AllDistinct : (m : TextMap V) → Distinct m → AllDistinct (keys m)
  unfolding keys
  keys-AllDistinct [] d = tt
  keys-AllDistinct ((j, v) ∷ m) d =
      ground (arith, keys-AllDistinct m d.1, mem-keys j m, has-get j m)

  pub length-values : (m : TextMap V) → length (values m) ≡ size m
  unfolding values
  length-values [] = refl
  length-values ((j, v) ∷ m) = omega (arith, length-values m)
