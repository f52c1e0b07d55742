-- ===== src/Expressions/Connectives.antt =====
-- The logical operators, and how an evaluation fails.
use tapis_workflows.Base.{
  ◌≡◌, ◌≢◌, refl, ap, Bool, true, false, not, ◌&&◌, ◌||◌, List, [], ◌∷◌, map, ok, err, ◌>>=◌, arith,
  all, any,
}
use tapis_workflows.ValueFrom.{Sources}
use tapis_workflows.Expressions.Syntax.{
  Condition, comparison, membership, negation, logical, Conditions, and, or, xor, nand, nor, xnor,
  LogicalOperator,
}
use tapis_workflows.Expressions.{
  unresolved, eval_error, type_error, Eval, connect, rethrow, evaluate, evaluate_each,
}

all-map-not : (bs : List Bool) → all (map not bs) ≡ not (any bs)
unfolding all any
all-map-not [] = refl
all-map-not (b ∷ bs) = ground (arith, all-map-not bs)

any-map-not : (bs : List Bool) → any (map not bs) ≡ not (all bs)
unfolding all any
any-map-not [] = refl
any-map-not (b ∷ bs) = ground (arith, any-map-not bs)

-- `xor` asks for an operand that holds and one that does not; `xnor` is its negation, `nand` that of
-- `and`, and `nor` that of `or`. For two operands, `xor` is the exclusive or of them.
pub connect_laws :
    (bs : List Bool) (a b : Bool)
    → (connect xor bs ≡ (any bs && any (map not bs)))
      × (connect xnor bs ≡ not (connect xor bs))
      × (connect nand bs ≡ not (connect and bs))
      × (connect nor bs ≡ not (connect or bs))
      × (connect xor (a ∷ b ∷ []) ≡ (a && not b || not a && b))
unfolding connect all any
connect_laws bs a b = (
  ground (arith, all-map-not bs, any-map-not bs),
  ground (arith, all-map-not bs),
  refl,
  all-map-not bs,
  ground arith,
)

-- An `OperandResolutionError` never leaves `evaluate`.
rethrow-ne_unresolved : (r : Eval Bool) → rethrow r ≢ err unresolved
rethrow-ne_unresolved (ok b) = ground arith
rethrow-ne_unresolved (err unresolved) = ground arith
rethrow-ne_unresolved (err eval_error) = ground arith
rethrow-ne_unresolved (err type_error) = ground arith

-- `evaluate` never raises the `OperandResolutionError` of its operands.
pub evaluate-ne_unresolved : (s : Sources) (c : Condition) → evaluate s c ≢ err unresolved
unfolding evaluate
evaluate-ne_unresolved s (comparison c a b) = rethrow-ne_unresolved _
evaluate-ne_unresolved s (membership needle haystack) = rethrow-ne_unresolved _
evaluate-ne_unresolved s (negation c) = rethrow-ne_unresolved _
evaluate-ne_unresolved s (logical op cs) = rethrow-ne_unresolved _

rethrow-negated :
    (op op' : LogicalOperator)
    → ((bs : List Bool) → connect op bs ≡ not (connect op' bs))
    → (r : Eval (List Bool))
    → rethrow (r >>= λ bs. ok (connect op bs))
      ≡ rethrow (rethrow (r >>= λ bs. ok (connect op' bs)) >>= λ b. ok (not b))
rethrow-negated op op' h (ok bs) = ap ok (h bs)
rethrow-negated op op' h (err unresolved) = refl
rethrow-negated op op' h (err eval_error) = refl
rethrow-negated op op' h (err type_error) = refl

rethrow-twice :
    (r : Eval Bool)
    → r ≢ err unresolved
    → rethrow (rethrow (r >>= λ b. ok (not b)) >>= λ b. ok (not b)) ≡ r
rethrow-twice (ok true) h = refl
rethrow-twice (ok false) h = refl
rethrow-twice (err unresolved) h = absurd (h refl)
rethrow-twice (err eval_error) h = refl
rethrow-twice (err type_error) h = refl

-- The negated operators are the negations of the others in every state, errors included, and a double
-- negation is no change.
pub evaluate_negations :
    (s : Sources) (cs : Conditions) (c : Condition)
    → (evaluate s (logical nand cs) ≡ evaluate s (negation (logical and cs)))
      × (evaluate s (logical nor cs) ≡ evaluate s (negation (logical or cs)))
      × (evaluate s (logical xnor cs) ≡ evaluate s (negation (logical xor cs)))
      × (evaluate s (negation (negation c)) ≡ evaluate s c)
unfolding evaluate
evaluate_negations s cs c = (
  rethrow-negated nand and (λ bs. (connect_laws bs true true).2) (evaluate_each s cs),
  rethrow-negated nor or (λ bs. (connect_laws bs true true).3) (evaluate_each s cs),
  rethrow-negated xnor xor (λ bs. (connect_laws bs true true).1) (evaluate_each s cs),
  rethrow-twice (evaluate s c) (evaluate-ne_unresolved s c),
)
