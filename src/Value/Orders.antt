-- ===== src/Value/Orders.antt =====
-- The comparison operators agree with one another.
use Prim.Native.Nat.{compare, Ordering}
use tapis_workflows.Base.{
  ℕ, ◌≡◌, refl, ap, Bool, not, Option, none, some, List, [], ◌∷◌, arith, string_eq,
}
use tapis_workflows.Value.{
  ℤ, pos, negsuc, Value, none_value, str, int, bool, bytes, Order, compare_ℤ, compare_list, codes,
  number, compare_numbers, order, equal, eq, ne, gt, lt, ge, le, ordered, operate,
}

abbrev flip : Order → Order
flip Ordering.lt = Ordering.gt
flip Ordering.eq = Ordering.eq
flip Ordering.gt = Ordering.lt

abbrev flip_option : Option Order → Option Order
flip_option none = none
flip_option (some o) = some (flip o)

compare-flip : (a b : ℕ) → compare b a ≡ flip (compare a b)
compare-flip a b = ground arith

compare_ℤ-flip : (a b : ℤ) → compare_ℤ b a ≡ flip (compare_ℤ a b)
unfolding compare_ℤ
compare_ℤ-flip (pos a) (pos b) = compare-flip a b
compare_ℤ-flip (pos a) (negsuc b) = refl
compare_ℤ-flip (negsuc a) (pos b) = refl
compare_ℤ-flip (negsuc a) (negsuc b) = compare-flip b a

compare_list-flip : (a b : List ℕ) → compare_list b a ≡ flip (compare_list a b)
unfolding compare_list
compare_list-flip [] [] = refl
compare_list-flip [] (b ∷ bs) = refl
compare_list-flip (a ∷ as') [] = refl
compare_list-flip (a ∷ as') (b ∷ bs) = ground (arith, compare_list-flip as' bs)

compare_numbers-flip : (a b : Option ℤ) → compare_numbers b a ≡ flip_option (compare_numbers a b)
compare_numbers-flip none none = refl
compare_numbers-flip none (some b) = refl
compare_numbers-flip (some a) none = refl
compare_numbers-flip (some a) (some b) = ap some (compare_ℤ-flip a b)

order-flip : (a b : Value) → order b a ≡ flip_option (order a b)
unfolding order
order-flip (str s) (str t) = ap some (compare_list-flip (codes s) (codes t))
order-flip (bytes s) (bytes t) = ap some (compare_list-flip s t)
order-flip none_value (str t) = refl
order-flip (int n) (str t) = refl
order-flip (bool b) (str t) = compare_numbers-flip (number (bool b)) none
order-flip a b = compare_numbers-flip (number a) (number b)

abbrev pub negated : Option Bool → Option Bool
negated none = none
negated (some b) = some (not b)

operate_laws_at :
    (o : Option Order) (a b : Value)
    → (ordered gt o ≡ ordered lt (flip_option o))
      × (ordered ge o ≡ ordered le (flip_option o))
      × (ordered ge o ≡ negated (ordered lt o))
      × (ordered le o ≡ negated (ordered gt o))
      × (some (not (equal a b)) ≡ negated (some (equal a b)))
operate_laws_at none a b = (refl, refl, refl, refl, refl)
operate_laws_at (some Ordering.lt) a b = (refl, refl, refl, refl, refl)
operate_laws_at (some Ordering.eq) a b = (refl, refl, refl, refl, refl)
operate_laws_at (some Ordering.gt) a b = (refl, refl, refl, refl, refl)

-- `gt` is `lt` with the operands exchanged, and `ge` is `le` so; `ge` and `le` are the negations of `lt`
-- and `gt`, and `ne` that of `eq`. Where one of two such operators raises, so does the other.
pub operate_laws :
    (a b : Value)
    → (operate gt a b ≡ operate lt b a)
      × (operate ge a b ≡ operate le b a)
      × (operate ge a b ≡ negated (operate lt a b))
      × (operate le a b ≡ negated (operate gt a b))
      × (operate ne a b ≡ negated (operate eq a b))
unfolding operate
operate_laws a b = rw (order-flip a b) (operate_laws_at (order a b) a b)
