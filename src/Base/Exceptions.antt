-- ===== src/Base/Exceptions.antt =====
-- Python's exceptions as values: a call returns, or raises an exception of the type `X`.
use mathlib.Core.Path.{◌≡◌, refl}
use mathlib.Core.Logic.{◌⊎◌, inl, inr}

pub data Result {ℓ κ} (X : Type ℓ) (R : Type κ) : Type (ℓ ⊔ κ) where
  ok : R → Result X R
  err : X → Result X R

module _ {ℓ κ} {X : Type ℓ} {R : Type κ} where
  -- The rest of a function behind a call that may raise
  infixl 5 ◌>>=◌
  abbrev pub ◌>>=◌ {μ} : {S : Type μ} → Result X R → (R → Result X S) → Result X S
  err raised >>= rest = err raised
  ok value >>= rest = rest value

  -- Inversion of a bind that returns.
  pub >>=-eq-ok {μ} :
      {S : Type μ} (call : Result X R) (rest : R → Result X S) {s : S}
      → (call >>= rest) ≡ ok s
      → (r : R) × (call ≡ ok r) × (rest r ≡ ok s)
  >>=-eq-ok (err raised) rest h = cc
  >>=-eq-ok (ok value) rest h = (value, refl, h)

  pub Result-cases :
      (call : Result X R) → ((r : R) × (call ≡ ok r)) ⊎ ((raised : X) × (call ≡ err raised))
  Result-cases (err raised) = inr (raised, refl)
  Result-cases (ok value) = inl (value, refl)

  pub ok-injective : {r s : R} → ◌≡◌ {A = Result X R} (ok r) (ok s) → r ≡ s
  ok-injective h = cc

  pub ok_or_err {μ} :
      {C : Type μ} {r : R} {raised : X} {call : Result X R} → call ≡ err raised → call ≡ ok r → C
  ok_or_err h g = cc
