-- ===== src/Common/Results.antt =====
-- Results of code that throws: a value, or the error thrown.
use mathlib.Core.Logic.{◌⊎◌, inl, inr}
use mathlib.Core.Path.{◌≡◌, refl, ap}

pub data Outcome {ℓ} (E : Type 0) (A : Type ℓ) : Type ℓ where
  err : E → Outcome E A
  ok : A → Outcome E A

infixl 5 ◌>>=◌ ◌>>◌
abbrev pub ◌>>=◌ {ℓ κ} :
    {E : Type 0} {A : Type ℓ} {B : Type κ} (attempt : Outcome E A) (next : A → Outcome E B)
    → Outcome E B
err e >>= next = err e
ok a >>= next = next a

-- A check, and then the rest.
abbrev pub ◌>>◌ {ℓ} :
    {E : Type 0} {B : Type ℓ} (check : Outcome E (Unit {0})) (rest : Outcome E B) → Outcome E B
err e >> rest = err e
ok _ >> rest = rest

get_ok {ℓ} : {E : Type 0} {A : Type ℓ} → A → Outcome E A → A
get_ok a (err e) = a
get_ok a (ok b) = b

pub ok-injective {ℓ} :
    {E : Type 0} {A : Type ℓ} (a b : A) → ◌≡◌ {A = Outcome E A} (ok a) (ok b) → a ≡ b
unfolding get_ok
ok-injective a b p = ap (get_ok a) p

pub Outcome-cases {ℓ} :
    {E : Type 0} {A : Type ℓ} (o : Outcome E A) → ((e : E) × (o ≡ err e)) ⊎ ((a : A) × (o ≡ ok a))
Outcome-cases (err e) = inl (e, refl)
Outcome-cases (ok a) = inr (a, refl)
