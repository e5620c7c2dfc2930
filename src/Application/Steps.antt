-- ===== src/Application/Steps.antt =====
-- What the steps of a load of server/msx_application.py return, from what their parts return.
use msx_ai.Base.{ℕ, ◌≡◌, refl, sym, ap, ◌∙◌, Result, ok, err, ok-injective, if◌then◌else◌}
use msx_ai.Application.{ApplicationError}
use msx_ai.Application.Loader.{LoadError, raised, Method, Load, using, ◌then◌, done}

module _ {B : Type 0} where
  -- A step that returns has steps that return.
  pub then-Returns :
      {A C : Type 0} (first : Load B A) (rest : A → Load B C) (b t : B) (c : C)
      → (first then rest) b ≡ (ok c, t)
      → (a : A) × (u : B) × (first b ≡ (ok a, u)) × (rest a u ≡ (ok c, t))
  unfolding ◌then◌
  then-Returns {A} {C} first rest b t c e = go (first b).0 (first b).1 refl e
    where
      go :
          (r : Result LoadError A) (u : B)
          → first b ≡ (r, u)
          → (elim r as (λ _. Result LoadError C × B) [ ok a ↦ rest a u | err x ↦ (err x, u) ])
            ≡ (ok c, t)
          → (a : A) × (v : B) × (first b ≡ (ok a, v)) × (rest a v ≡ (ok c, t))
      go (ok a) u h k = (a, u, h, k)
      go (err x) u h k = absurd cc

  pub then-did :
      {A C : Type 0} (first : Load B A) (rest : A → Load B C) (b t : B) (a : A)
      → first b ≡ (ok a, t)
      → (first then rest) b ≡ rest a t
  unfolding ◌then◌
  then-did {A} {C} first rest b t a e =
      ap
        (λ (p : Result LoadError A × B). elim p.0 as (λ _. Result LoadError C × B) [
          | ok y ↦ rest y p.1
          | err z ↦ (err z, p.1)
        ])
        e

  pub using-Returns :
      {A : Type 0} (method : Method B A) (b t : B) (a : A)
      → using method b ≡ (ok a, t)
      → method b ≡ (ok a, t)
  unfolding using
  using-Returns {A} method b t a e = go (method b).0 (method b).1 refl e
    where
      go :
          (r : Result ℕ A) (u : B)
          → method b ≡ (r, u)
          → (elim r as (λ _. Result LoadError A × B) [
            | ok x ↦ (ok x, u)
            | err y ↦ (err (raised y), u)
          ])
            ≡ (ok a, t)
          → method b ≡ (ok a, t)
      go (ok x) u h k =
          let same : x ≡ a = ok-injective (ap (λ (p : Result LoadError A × B). p.0) k) in
          let left : u ≡ t = ap (λ (p : Result LoadError A × B). p.1) k in
          h ∙ ap (λ y. (ok y, u)) same ∙ ap (λ v. (ok a, v)) left
      go (err y) u h k = absurd cc

  pub left_alone :
      (b t : B) → ◌≡◌ {A = Result LoadError (Unit {0}) × B} (ok tt, b) (ok tt, t) → t ≡ b
  left_alone b t e = sym (ap (λ (p : Result LoadError (Unit {0}) × B). p.1) e)

  pub done-Returns :
      {A : Type 0} (r : Result ApplicationError A) (b t : B) (a : A)
      → done r b ≡ (ok a, t)
      → (r ≡ ok a) × (t ≡ b)
  unfolding done
  done-Returns {A} (ok x) b t a e = (
    ap ok (ok-injective (ap (λ (p : Result LoadError A × B). p.0) e)),
    sym (ap (λ (p : Result LoadError A × B). p.1) e),
  )
  done-Returns (err y) b t a e = absurd cc
