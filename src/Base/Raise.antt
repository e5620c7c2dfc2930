-- ===== src/Base/Raise.antt =====
-- Code that may raise: a value or an error of the component's own type.
use mathlib.Core.Path.{◌≡◌, refl}
use mathlib.Core.Logic.{◌⊎◌, inl, inr}
use mathlib.Core.Bool.{Bool, true, false}

pub data Result {ℓ κ} (E : Type ℓ) (A : Type κ) : Type (ℓ ⊔ κ) where
  ok : A → Result E A
  err : E → Result E A

module _ {ℓ} {E : Type ℓ} where
  -- `if test: raise e`
  abbrev pub raise_if : Bool → E → Result E (Unit {0})
  raise_if false e = ok tt
  raise_if true e = err e

  infixl 5 ◌>>=◌
  abbrev pub ◌>>=◌ {κ μ} :
      {First : Type κ} {Rest : Type μ} → Result E First → (First → Result E Rest) → Result E Rest
  err raised >>= rest = err raised
  ok value >>= rest = rest value

  infixl 5 ◌>>◌
  abbrev pub ◌>>◌ {κ μ} :
      {First : Type κ} {Rest : Type μ} → Result E First → Result E Rest → Result E Rest
  first >> rest = first >>= λ _. rest

  pub Result-cases {κ} :
      {A : Type κ} (r : Result E A) → ((a : A) × (r ≡ ok a)) ⊎ ((e : E) × (r ≡ err e))
  Result-cases (ok a) = inl (a, refl)
  Result-cases (err e) = inr (e, refl)

  -- A chain that returns has steps that return.
  pub >>=-eq-ok {κ μ} :
      {First : Type κ} {Rest : Type μ} (first : Result E First) (rest : First → Result E Rest)
      {final : Rest}
      → (first >>= rest) ≡ ok final
      → (value : First) × (first ≡ ok value) × (rest value ≡ ok final)
  >>=-eq-ok (err raised) rest returned = absurd cc
  >>=-eq-ok (ok value) rest returned = (value, refl, returned)

  pub ok-injective {κ} : {A : Type κ} {a b : A} → ◌≡◌ {A = Result E A} (ok a) (ok b) → a ≡ b
  ok-injective e = cc
