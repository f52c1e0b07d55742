-- ===== src/Base/Count.antt =====
-- How often an element stands in a list, as a native number: lists are compared as multisets.
use Prim.Native.Nat.{ℕ, ◌+◌, ◌<◌}
use mathlib.Core.Path.{◌≡◌, refl}
use mathlib.Core.Bool.{true, false}
use mathlib.Core.List.{List, [], ◌∷◌, ◌++◌}
use native.Mathlib.Omega.{arith}
use tapis_workflows.Base.Equality.{Eq, ◌==◌, contains, if◌then◌else◌}

module _ {ℓ} {A : Type ℓ} ⦃e : Eq A⦄ where
  abbrev pub count : A → List A → ℕ
  count a [] = 0
  count a (x ∷ xs) = (if a == x then 1 else 0) + count a xs

  pub count-append : (a : A) (xs ys : List A) → count a (xs ++ ys) ≡ count a xs + count a ys
  count-append a [] ys = omega arith
  count-append a (x ∷ xs) ys = omega (arith, count-append a xs ys)

  pub count_pos_of_contains : (a : A) (xs : List A) → contains xs a ≡ true → 0 < count a xs
  count_pos_of_contains a [] h = cc
  count_pos_of_contains a (x ∷ xs) h = ground (arith, count_pos_of_contains a xs)

  pub contains_of_count_pos : (a : A) (xs : List A) → 0 < count a xs → contains xs a ≡ true
  contains_of_count_pos a [] h = absurd (omega arith)
  contains_of_count_pos a (x ∷ xs) h = ground (arith, contains_of_count_pos a xs)

  pub count_zero_of_absent : (a : A) (xs : List A) → contains xs a ≡ false → count a xs ≡ 0
  count_zero_of_absent a [] h = refl
  count_zero_of_absent a (x ∷ xs) h = ground (arith, count_zero_of_absent a xs)
