-- ===== src/Value.antt =====
-- The Python values that an operand, an argument or an input may hold (the schema's `Value`, less
-- its floats), with what `==`, `in` and the functions of the module `operator` do on them.
pub mod Orders
use Prim.Native.Char.{code}
use Prim.Native.Nat.{compare, Ordering}
use tapis_workflows.Base.{
  ℕ, String, Bool, true, false, not, ◌||◌, Option, none, some, List, [], ◌∷◌, Result, ok, err, ltb,
  ◌==◌, string_eq, nat_eq, if◌then◌else◌,
}

-- `negsuc n` is -(n + 1).
pub data ℤ : Type 0 where
  pos : ℕ → ℤ
  negsuc : ℕ → ℤ

pub data Value : Type 0 where
  none_value : Value
  str : String → Value
  int : ℤ → Value
  bool : Bool → Value
  bytes : List ℕ → Value

abbrev pub Order : Type 0
Order = Ordering

unfoldable pub compare_ℤ : ℤ → ℤ → Order
compare_ℤ (pos a) (pos b) = compare a b
compare_ℤ (pos a) (negsuc b) = Ordering.gt
compare_ℤ (negsuc a) (pos b) = Ordering.lt
compare_ℤ (negsuc a) (negsuc b) = compare b a

-- Lexicographic order, of the bytes of `bytes` and of the code points of `str`.
unfoldable pub compare_list : List ℕ → List ℕ → Order
compare_list [] [] = Ordering.eq
compare_list [] (b ∷ bs) = Ordering.lt
compare_list (a ∷ as') [] = Ordering.gt
compare_list (a ∷ as') (b ∷ bs) =
    let rest = compare_list as' bs in
    elim (compare a b) [
      | Ordering.lt ↦ Ordering.lt
      | Ordering.eq ↦ rest
      | Ordering.gt ↦ Ordering.gt
    ]

abbrev pub codes : String → List ℕ
codes String.[] = []
codes (String.◌∷◌ c s) = code c ∷ codes s

-- A `bool` is an `int` in Python.
abbrev pub number : Value → Option ℤ
number (int n) = some n
number (bool true) = some (pos 1)
number (bool false) = some (pos 0)
number _ = none

abbrev pub compare_numbers : Option ℤ → Option ℤ → Option Order
compare_numbers (some a) (some b) = some (compare_ℤ a b)
compare_numbers _ _ = none

-- The order of two values, if Python orders them; else `<` and its like raise a `TypeError`.
unfoldable pub order : Value → Value → Option Order
unfolding compare_ℤ compare_list
order (str s) (str t) = some (compare_list (codes s) (codes t))
order (bytes s) (bytes t) = some (compare_list s t)
order a b = compare_numbers (number a) (number b)

abbrev pub is_eq : Order → Bool
is_eq Ordering.eq = true
is_eq _ = false

-- `a == b`, which never raises.
unfoldable pub equal : Value → Value → Bool
unfolding order
equal none_value none_value = true
equal a b = elim (order a b) [ none ↦ false | some o ↦ is_eq o ]

-- `needle in haystack`
unfoldable pub is_in : Value → List Value → Bool
unfolding equal
is_in needle [] = false
is_in needle (v ∷ haystack) = equal needle v || is_in needle haystack

pub data Comparison : Type 0 where
  eq ne gt lt ge le : Comparison

abbrev pub holds : Comparison → Order → Bool
holds eq o = is_eq o
holds ne o = not (is_eq o)
holds gt Ordering.gt = true
holds gt _ = false
holds lt Ordering.lt = true
holds lt _ = false
holds ge Ordering.lt = false
holds ge _ = true
holds le Ordering.gt = false
holds le _ = true

abbrev pub ordered : Comparison → Option Order → Option Bool
ordered c none = none
ordered c (some o) = some (holds c o)

-- `getattr(operatorlib, operator)(a, b)`; `none` is the `TypeError`.
unfoldable pub operate : Comparison → Value → Value → Option Bool
unfolding equal
operate eq a b = some (equal a b)
operate ne a b = some (not (equal a b))
operate gt a b = ordered gt (order a b)
operate lt a b = ordered lt (order a b)
operate ge a b = ordered ge (order a b)
operate le a b = ordered le (order a b)
