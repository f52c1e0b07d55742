-- ===== src/Task.antt =====
-- The tasks of a pipeline as the engine holds them, and the result of a task.
use tapis_workflows.Base.{
  zero, String, Bool, true, false, Option, List, [], ◌∷◌, ◌==◌, string_eq, find?,
}
use tapis_workflows.Base.Dict.{Dict}
use tapis_workflows.Value.{ℤ, pos, negsuc, Value}
use tapis_workflows.Expressions.Syntax.{ValueFrom, Conditions}

-- `TaskDependency`
pub record Dependency : Type 0 where
  pub id : String
  pub can_fail : Bool
  pub can_skip : Bool

-- `TaskInputSpec`: `none` is `None`.
pub record TaskInput : Type 0 where
  pub required : Bool
  pub value : Option Value
  pub value_from : Option ValueFrom

-- The fields of a task that the engine's own logic reads. `can_fail`, `input_dir` and `output_dir` are
-- set by the workflow executor.
pub record Task : Type 0 where
  pub id : String
  pub depends_on : List Dependency
  pub conditions : Conditions
  pub input : Dict String TaskInput
  pub can_fail : Bool
  pub input_dir : String
  pub output_dir : String

abbrev pub ids : List Task → List String
ids [] = []
ids (t ∷ tasks) = t.id ∷ ids tasks

-- `next(filter(lambda t: t.id == task_id, tasks), None)`
abbrev pub task_by_id : String → List Task → Option Task
task_by_id id tasks = find? (λ t. t.id == id) tasks

-- `TaskResult`: `success` and `skipped` are functions of `status`. The errors and the output files,
-- which no decision depends on, are left out.
pub record TaskResult : Type 0 where
  pub status : ℤ
  pub success : Bool
  pub skipped : Bool

abbrev pub is_zero : ℤ → Bool
is_zero (pos zero) = true
is_zero _ = false

abbrev pub is_negative : ℤ → Bool
is_negative (pos n) = false
is_negative (negsuc n) = true

-- `TaskResult.__init__`
abbrev pub task_result : ℤ → TaskResult
task_result status = record {
  status = status;
  success = is_zero status;
  skipped = is_negative status;
}
