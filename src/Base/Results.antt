-- ===== src/Base/Results.antt =====
-- The result of code that may return early with an answer `E`, or throw.
use mathlib.Core.Path.{◌≡◌, refl}
use mathlib.Core.Logic.{◌⊎◌, inl, inr}
use mathlib.Core.Bool.{Bool, true, false}

pub data Exec {ℓ κ} (E : Type ℓ) (A : Type κ) : Type (ℓ ⊔ κ) where
  returned : A → Exec E A
  rejected : E → Exec E A
  thrown : Exec E A

infixl 5 ◌>>=◌ ◌>>◌
abbrev pub ◌>>=◌ {ℓ κ} : {E : Type κ} {A B : Type ℓ} → Exec E A → (A → Exec E B) → Exec E B
returned a >>= f = f a
rejected e >>= f = rejected e
thrown >>= f = thrown

abbrev pub ◌>>◌ {ℓ κ} : {E : Type κ} {A B : Type ℓ} → Exec E A → Exec E B → Exec E B
m >> k = m >>= λ _. k

-- `if (!test) return e`
abbrev pub require {κ} : {E : Type κ} → Bool → E → Exec E (Unit {0})
require true e = returned tt
require false e = rejected e

-- A part that ended without an answer, read at another result type.
abbrev pub map_rejected {ℓ κ μ} :
    {E : Type κ} {F : Type μ} {A : Type ℓ} → (E → F) → Exec E A → Exec F A
map_rejected f (returned a) = returned a
map_rejected f (rejected e) = rejected (f e)
map_rejected f thrown = thrown

pub >>=-eq-returned {ℓ κ} :
    {E : Type κ} {A B : Type ℓ} (m : Exec E A) (f : A → Exec E B) {b : B}
    → (m >>= f) ≡ returned b
    → (a : A) × (m ≡ returned a) × (f a ≡ returned b)
>>=-eq-returned (returned a) f h = (a, refl, h)
>>=-eq-returned (rejected e) f h = cc
>>=-eq-returned thrown f h = cc

pub Exec-cases {ℓ κ} :
    {E : Type κ} {A : Type ℓ} (m : Exec E A)
    → ((a : A) × (m ≡ returned a)) ⊎ (((e : E) × (m ≡ rejected e)) ⊎ (m ≡ thrown))
Exec-cases (returned a) = inl (a, refl)
Exec-cases (rejected e) = inr (inl (e, refl))
Exec-cases thrown = inr (inr refl)

pub returned-injective {ℓ κ} :
    {E : Type κ} {A : Type ℓ} {a b : A} → ◌≡◌ {A = Exec E A} (returned a) (returned b) → a ≡ b
returned-injective e = cc
