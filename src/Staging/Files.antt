-- ===== src/Staging/Files.antt =====
-- Which inputs are staged, and what the files hold.
use tapis_workflows.Base.{
  String, ◌≡◌, Bool, true, false, not, ◌&&◌, ◌||◌, Option, none, some, List, [], ◌∷◌, ok, err,
}
use tapis_workflows.Base.Dict.{Dict}
use tapis_workflows.Value.{Value, none_value}
use tapis_workflows.Expressions.Syntax.{ValueFrom, env, args, task_output, host, secret}
use tapis_workflows.Task.{Task, TaskInput}
use tapis_workflows.ValueFrom.{
  Sources, path_join, get_task_output_value_by_id, get_arg_value_by_key, get_env_value_by_key,
}
use tapis_workflows.Staging.{StagingError, File, stage_input}

-- The value of a source, `None` for one that cannot be read
abbrev pub source_value : Sources → ValueFrom → Value
source_value s (task_output task_id output_id) =
    elim (get_task_output_value_by_id s task_id output_id) [ ok v ↦ v | err e ↦ none_value ]
source_value s (args key) = get_arg_value_by_key s key
source_value s (env key) = get_env_value_by_key s key
source_value s host = none_value
source_value s secret = none_value

abbrev pub is_readable : Sources → ValueFrom → Bool
is_readable s (task_output task_id output_id) =
    elim (get_task_output_value_by_id s task_id output_id) [ ok v ↦ true | err e ↦ false ]
is_readable s _ = true

abbrev from_value_from : Sources → Option ValueFrom → Value
from_value_from s none = none_value
from_value_from s (some source) = source_value s source

-- The value that an input stands for: its own, or that of its source
abbrev pub input_value : Sources → TaskInput → Value
input_value s input = elim input.value [
  | none ↦ from_value_from s input.value_from
  | some none_value ↦ from_value_from s input.value_from
  | some v ↦ v
]

-- An input with no value has a source, which can be read if the input is required.
abbrev source_serves : Sources → TaskInput → Bool
source_serves s input = elim input.value_from [
  | none ↦ false
  | some source ↦ not input.required || is_readable s source
]

abbrev pub is_stageable : Sources → TaskInput → Bool
is_stageable s input = elim input.value [
  | none ↦ source_serves s input
  | some none_value ↦ source_serves s input
  | some v ↦ true
]

abbrev pub all_stageable : Sources → Dict String TaskInput → Bool
all_stageable s [] = true
all_stageable s ((id, input) ∷ inputs) = is_stageable s input && all_stageable s inputs

module _ (is_writable : String → Bool) (text : Value → String) where
  abbrev pub contents : Value → String
  contents none_value = ""
  contents v = text v

  abbrev pub files_of : Sources → Task → Dict String TaskInput → List File
  files_of s task [] = []
  files_of s task ((id, input) ∷ inputs) =
      (path_join task.input_dir id, contents (input_value s input)) ∷ files_of s task inputs

  -- An input is staged exactly when it has a value, or a source that serves.
  abbrev Staged : Sources → Task → String → TaskInput → Type 0
  Staged s task id input =
      (is_stageable s input ≡ true
        → stage_input is_writable text s task id input
          ≡ ok (path_join task.input_dir id, contents (input_value s input)))
      × (is_stageable s input ≡ false
          → (e : StagingError) × (stage_input is_writable text s task id input ≡ err e))
