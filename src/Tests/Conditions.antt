-- ===== src/Tests/Conditions.antt =====
-- Conditions, inputs, parameters and the start of a task.
use tapis_workflows.Base.{
  ℕ, ◌+◌, String, ◌≡◌, ◌↔◌, refl, Bool, true, false, none, some, [], ◌∷◌, Result, ok, err,
  string_eq,
}
use tapis_workflows.Base.Dict.{Dict}
use tapis_workflows.Value.{ℤ, pos, Value, int, none_value, eq, gt}
use tapis_workflows.ValueFrom.{Sources}
use tapis_workflows.Task.{Task}
use tapis_workflows.Expressions.Syntax.{
  literal, from, Condition, comparison, no_conditions, condition, args, task_output,
}
use tapis_workflows.Expressions.{eval_error, evaluate}
use tapis_workflows.Params.{params_validator, IsMissing, params_validator_lem}

abbrev sources : Sources
sources = record { tasks = []; args = ("size", int (pos 4)) ∷ []; env = []; files = λ path. none }

abbrev big : Condition
big = comparison gt (from (args "size")) (literal (int (pos 3)))

abbrev lost : Condition
lost = comparison eq (from (task_output "gone" "log")) (literal none_value)

lost_raises : evaluate sources lost ≡ err eval_error
unfolding evaluate string_eq
lost_raises = refl

params_validator_lem_example :
    (params_validator (("size", true) ∷ ("name", true) ∷ []) sources.args).0 ≡ true
    ↔ ((a : String) → ¬ IsMissing (("size", true) ∷ ("name", true) ∷ []) sources.args a)
params_validator_lem_example =
    (params_validator_lem (("size", true) ∷ ("name", true) ∷ []) sources.args).0

abbrev text : Value → String
text v = "4"

abbrev any_path : String → Bool
any_path path = true

abbrev resize : Task
resize = record {
  id = "resize";
  depends_on = [];
  conditions = condition big no_conditions;
  input = ("SIZE", record { required = true; value = none; value_from = some (args "size") }) ∷ [];
  can_fail = false;
  input_dir = "/work/input";
  output_dir = "/work/output";
}

-- An executor is a number that is added to the world, which is a number too.
abbrev succeed : ℕ → ℕ → ℕ × Result String ℤ
succeed executor w = (executor + w, ok (pos 0))

abbrev executors : Dict String ℕ
executors = ("run.resize", 5) ∷ []
