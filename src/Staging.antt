-- ===== src/Staging.antt =====
-- core/tasks/TaskInputFileStagingService.py: the input files of a task.
pub mod Files
use tapis_workflows.Base.{
  String, Bool, true, false, Option, none, some, List, [], ◌∷◌, ◌++◌, Result, ok, err, ◌>>=◌,
  if◌then◌else◌,
}
use tapis_workflows.Base.Dict.{Dict}
use tapis_workflows.Value.{Value, none_value, str}
use tapis_workflows.Expressions.Syntax.{ValueFrom, env, args, task_output, host, secret}
use tapis_workflows.Task.{Task, TaskInput}
use tapis_workflows.ValueFrom.{
  Sources, path_join, get_task_output_value_by_id, get_arg_value_by_key, get_env_value_by_key,
}

pub data StagingError : Type 0 where
  -- "No output found for task ..."
  no_output : (task_id output_id : String) → StagingError
  -- "Error while staging input: ..."
  not_written : StagingError
  -- the `AttributeError` of an input with neither a value nor a source
  no_source : StagingError

-- What the code writes to a file: the path, and the contents.
abbrev pub File : Type 0
File = String × String

-- `is_writable` says which paths `open` opens, and `text` is `str` of a value.
module _ (is_writable : String → Bool) (text : Value → String) where
  -- `_create_input_`
  unfoldable pub create_input : Task → String → Value → Result StagingError File
  unfolding path_join
  create_input task input_id value =
      let path = path_join task.input_dir input_id in
      if is_writable path
      then ok (path, elim value [ none_value ↦ "" | v ↦ text v ])
      else err not_written

  -- The value of an input that has none itself. The values of `args` and `env` are read without an
  -- exception, and the other sources are not read.
  unfoldable pub value_of_source : Sources → Bool → ValueFrom → Result StagingError Value
  unfolding get_task_output_value_by_id
  value_of_source s required (task_output task_id output_id) =
      elim (get_task_output_value_by_id s task_id output_id) [
        | ok v ↦ ok v
        | err e ↦ if required then err (no_output task_id output_id) else ok none_value
      ]
  value_of_source s required (args key) = ok (get_arg_value_by_key s key)
  value_of_source s required (env key) = ok (get_env_value_by_key s key)
  value_of_source s required host = ok none_value
  value_of_source s required secret = ok none_value

  abbrev pub from_source : Sources → TaskInput → Result StagingError Value
  from_source s input = elim input.value_from [
    | none ↦ err no_source
    | some source ↦ value_of_source s input.required source
  ]

  -- The body of the loop of `stage`, for one input
  unfoldable pub stage_input : Sources → Task → String → TaskInput → Result StagingError File
  unfolding create_input value_of_source
  stage_input s task input_id input = elim input.value [
    | none ↦ from_source s input >>= create_input task input_id
    | some none_value ↦ from_source s input >>= create_input task input_id
    | some v ↦ create_input task input_id v
  ]

  -- The loop of `stage`
  unfoldable pub stage_inputs :
      Sources → Task → Dict String TaskInput → Result StagingError (List File)
  unfolding stage_input
  stage_inputs s task [] = ok []
  stage_inputs s task ((input_id, input) ∷ inputs) = do
    file ← stage_input s task input_id input
    files ← stage_inputs s task inputs
    ok (file ∷ files)

  -- `stage`
  unfoldable pub stage : Sources → Task → Result StagingError (List File)
  unfolding stage_inputs
  stage s task = stage_inputs s task task.input
