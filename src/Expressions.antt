-- ===== src/Expressions.antt =====
-- core/expressions: OperandResolver.py and ConditionalExpressionEvaluator.py.
pub mod Syntax
pub mod Connectives
pub mod Verdicts
use tapis_workflows.Base.{
  Bool, true, false, not, ◌&&◌, ◌||◌, Option, none, some, List, [], ◌∷◌, map, Result, ok, err,
  ◌>>=◌, all, any,
}
use tapis_workflows.Value.{Value, none_value, Comparison, operate, is_in}
use tapis_workflows.ValueFrom.{
  Sources, get_task_output_value_by_id, get_arg_value_by_key, get_env_value_by_key,
}
use Syntax.{
  ValueFrom, env, args, task_output, host, secret, Operand, literal, from, LogicalOperator, and, or,
  xor, nand, nor, xnor, Operands, no_operands, operand, Condition, comparison, membership, negation,
  logical, Conditions, no_conditions, condition,
}

pub data EvalError : Type 0 where
  -- `OperandResolutionError`
  unresolved : EvalError
  -- `ConditionalExpressionEvalError`
  eval_error : EvalError
  -- the `TypeError` of an order between values that Python does not order
  type_error : EvalError

abbrev pub Eval : Type 0 → Type 0
Eval A = Result EvalError A

-- `OperandResolver.resolve`
unfoldable pub resolve : Sources → Operand → Eval Value
unfolding get_task_output_value_by_id
resolve s (literal v) = ok v
resolve s (from (task_output task_id output_id)) =
    elim (get_task_output_value_by_id s task_id output_id) [ ok v ↦ ok v | err e ↦ err unresolved ]
resolve s (from (args key)) = ok (get_arg_value_by_key s key)
resolve s (from (env key)) = ok (get_env_value_by_key s key)
resolve s (from host) = ok none_value
resolve s (from secret) = ok none_value

-- `[self._operand_resolver.resolve(operand) for operand in operands]`
unfoldable pub resolve_each : Sources → Operands → Eval (List Value)
unfolding resolve
resolve_each s no_operands = ok []
resolve_each s (operand o os) = do v ← resolve s o; vs ← resolve_each s os; ok (v ∷ vs)

abbrev pub or_type_error : Option Bool → Eval Bool
or_type_error none = err type_error
or_type_error (some b) = ok b

-- `_comparison`
unfoldable pub compare_operands : Sources → Comparison → Operand → Operand → Eval Bool
unfolding resolve operate
compare_operands s c a b = do x ← resolve s a; y ← resolve s b; or_type_error (operate c x y)

-- `_membership`
unfoldable pub find_operand : Sources → Operand → Operands → Eval Bool
unfolding resolve_each is_in
find_operand s needle haystack = do
  v ← resolve s needle
  vs ← resolve_each s haystack
  ok (is_in v vs)

-- The last part of `_logical`
unfoldable pub connect : LogicalOperator → List Bool → Bool
unfolding all any
connect and evaluations = all evaluations
connect or evaluations = any evaluations
connect xor evaluations = not (all evaluations) && not (all (map not evaluations))
connect nand evaluations = not (all evaluations)
connect nor evaluations = all (map not evaluations)
connect xnor evaluations = all evaluations || all (map not evaluations)

-- `except OperandResolutionError as e: raise ConditionalExpressionEvalError(...)`
abbrev pub rethrow : Eval Bool → Eval Bool
rethrow (err unresolved) = err eval_error
rethrow (err eval_error) = err eval_error
rethrow (err type_error) = err type_error
rethrow (ok b) = ok b

unfoldable mutual
  unfolding compare_operands find_operand connect

  -- `evaluate`
  pub evaluate : Sources → Condition → Eval Bool
  evaluate s (comparison c a b) = rethrow (compare_operands s c a b)
  evaluate s (membership needle haystack) = rethrow (find_operand s needle haystack)
  evaluate s (negation c) = rethrow (do b ← evaluate s c; ok (not b))
  evaluate s (logical op cs) = rethrow (do bs ← evaluate_each s cs; ok (connect op bs))

  -- `for condition in conditions: evaluations.append(self.evaluate(condition))`
  pub evaluate_each : Sources → Conditions → Eval (List Bool)
  evaluate_each s no_conditions = ok []
  evaluate_each s (condition c cs) = do b ← evaluate s c; bs ← evaluate_each s cs; ok (b ∷ bs)

-- `evaluate_all`
unfoldable pub evaluate_all : Sources → Conditions → Eval Bool
unfolding evaluate all
evaluate_all s cs = do bs ← evaluate_each s cs; ok (all bs)
