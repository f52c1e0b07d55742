-- ===== src/Base/Found.antt =====
-- What the searches and the filters of Python leave.
use mathlib.Core.Path.{◌≡◌, ap, ◌∙◌}
use mathlib.Core.Bool.{Bool, true}
use mathlib.Core.List.{List, [], ◌∷◌}
use mathlib.Core.Option.{some}
use mathlib.Core.Logic.{inl, inr}
use native.Mathlib.Omega.{arith}
use tapis_workflows.Base.Equality.{Bool-cases}
use tapis_workflows.Base.Lists.{filter, find?, All, In}

module _ {A : Type 0} where
  pub find?-In : (p : A → Bool) (xs : List A) (x : A) → find? p xs ≡ some x → In x xs × (p x ≡ true)
  find?-In p [] x e = cc
  find?-In p (y ∷ xs) x e = elim (Bool-cases (p y)) [
    | inl yes_ ↦ let same : x ≡ y = ground arith in (inl same, ap p same ∙ yes_)
    | inr no_ ↦ let (i, holds) = find?-In p xs x (rw no_ at e) in (inr i, holds)
  ]

  pub filter-All : (p : A → Bool) (xs : List A) → All (λ x. p x ≡ true) (filter p xs)
  filter-All p [] = tt
  filter-All p (x ∷ xs) = elim (Bool-cases (p x)) [
    | inl yes_ ↦ rw yes_ (yes_, filter-All p xs)
    | inr no_ ↦ rw no_ (filter-All p xs)
  ]
