-- ===== src/ValueFrom.antt =====
-- Where values come from: core/workflows/ValueFromService.py with the repositories, mappers and data
-- access objects under it.
use text.Mathlib.Text.{starts_with}
use tapis_workflows.Base.{
  String, ◌<>◌, Bool, false, Option, none, some, List, Result, ok, err, ◌==◌, string_eq,
  if◌then◌else◌,
}
use tapis_workflows.Base.Dict.{Dict, lookup}
use tapis_workflows.Value.{Value, none_value, str}
use tapis_workflows.Task.{Task, task_by_id}

-- What the services read: `state.tasks`, `state.ctx.args` and `state.ctx.env` with the `value` of each
-- entry, and the file system, from a path to the contents of a file.
pub record Sources : Type 0 where
  pub tasks : List Task
  pub args : Dict String Value
  pub env : Dict String Value
  pub files : String → Option String

pub data SourceError : Type 0 where
  -- `None` has no attribute `output_dir`
  no_task : String → SourceError
  file_not_found : String → SourceError

ends_with_slash : String → Bool
ends_with_slash String.[] = false
ends_with_slash (String.◌∷◌ c String.[]) = String.◌∷◌ c String.[] == "/"
ends_with_slash (String.◌∷◌ c (String.◌∷◌ d s)) = ends_with_slash (String.◌∷◌ d s)

-- `os.path.join` of two parts
unfoldable pub path_join : String → String → String
unfolding ends_with_slash
path_join a b =
    if starts_with b "/"
    then b
    else if a == ""
    then b
    else if ends_with_slash a
    then a <> b
    else a <> ("/" <> b)

-- `FileSystemDAO.get`
abbrev pub read_file : Sources → String → Result SourceError String
read_file s path = elim (s.files path) [
  | none ↦ err (file_not_found path)
  | some contents ↦ ok contents
]

-- `ValueFromService.get_task_output_value_by_id`
unfoldable pub get_task_output_value_by_id : Sources → String → String → Result SourceError Value
unfolding path_join
get_task_output_value_by_id s task_id output_id = elim (task_by_id task_id s.tasks) [
  | none ↦ err (no_task task_id)
  | some task ↦ elim (read_file s (path_join task.output_dir output_id)) [
    | err e ↦ err e
    | ok contents ↦ ok (str contents)
  ]
]

abbrev pub or_none_value : Option Value → Value
or_none_value none = none_value
or_none_value (some v) = v

-- `ArgMapper.get_value_by_key` and `EnvMapper.get_value_by_key`: a missing key gives `None`.
abbrev pub get_arg_value_by_key : Sources → String → Value
get_arg_value_by_key s key = or_none_value (lookup key s.args)

abbrev pub get_env_value_by_key : Sources → String → Value
get_env_value_by_key s key = or_none_value (lookup key s.env)
