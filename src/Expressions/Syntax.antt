-- ===== src/Expressions/Syntax.antt =====
-- The conditions of a task, as the schema of owe_python_sdk/schema.py admits them. A condition is a
-- dict with a single key, its operator.
use tapis_workflows.Base.{String}
use tapis_workflows.Value.{Value, Comparison}

-- A dict with a single key that says where a value comes from.
pub data ValueFrom : Type 0 where
  env : String → ValueFrom
  args : String → ValueFrom
  task_output : (task_id output_id : String) → ValueFrom
  host secret : ValueFrom

pub data Operand : Type 0 where
  literal : Value → Operand
  from : ValueFrom → Operand

pub data LogicalOperator : Type 0 where
  and or xor nand nor xnor : LogicalOperator

pub data Operands : Type 0 where
  no_operands : Operands
  operand : Operand → Operands → Operands

mutual
  pub data Condition : Type 0 where
    comparison : Comparison → Operand → Operand → Condition
    membership : (needle : Operand) (haystack : Operands) → Condition
    negation : Condition → Condition
    logical : LogicalOperator → Conditions → Condition

  pub data Conditions : Type 0 where
    no_conditions : Conditions
    condition : Condition → Conditions → Conditions
