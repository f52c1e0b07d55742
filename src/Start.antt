-- ===== src/Start.antt =====
-- core/workflows/WorkflowExecutor.py, `_start_task`: what the thread of a task does before
-- `_on_task_terminal_state`.
pub mod Execution
use tapis_workflows.Base.{
  String, ◌<>◌, zero, Bool, Option, none, some, true, false, not, ◌&&◌, List, [], ◌∷◌, Result, ok,
  err, ◌>>=◌, ◌==◌, contains, string_eq, if◌then◌else◌,
}
use tapis_workflows.Base.Dict.{Dict, lookup}
use tapis_workflows.Value.{ℤ, pos, negsuc, Value}
use tapis_workflows.Task.{Dependency, Task}
use tapis_workflows.ValueFrom.{Sources}
use tapis_workflows.Expressions.{EvalError, eval_error, unresolved, type_error, evaluate_all}
use tapis_workflows.Staging.{StagingError, File, stage}

-- An exception that `_start_task` does not catch: it ends the thread.
pub data ThreadError : Type 0 where
  condition_raised : EvalError → ThreadError
  staging_raised : StagingError → ThreadError

-- The status of the task's result, and the staged files
pub record Ran : Type 0 where
  pub status : ℤ
  pub staged : List File

-- The loop over `task.depends_on`, up to its `break`
unfoldable pub is_skipped : List String → List Dependency → Bool
is_skipped skipped [] = false
is_skipped skipped (dep ∷ deps) =
    let rest = is_skipped skipped deps in
    if contains skipped dep.id && not dep.can_skip then true else rest

-- `TaskResult(-1)`
abbrev pub passed_over : Ran
passed_over = record { status = negsuc 0; staged = [] }

-- The status of the result that `_start_task` keeps
abbrev pub status_of : Result String ℤ → ℤ
status_of (ok status) = status
status_of (err message) = pos 1

-- `execute` is `executor.execute()`: what it does to the world outside, which `W` stands for, and the
-- status of its result, or an exception. `E` is the type of executors.
module _ {E W : Type 0} (is_writable : String → Bool) (text : Value → String)
    (execute : E → W → W × Result String ℤ) where
  -- `_get_executor`, by the key of the run and the task
  unfoldable pub get_executor : Dict String E → String → Task → Option E
  get_executor executors run_uuid task = lookup (run_uuid <> "." <> task.id) executors

  -- The inner `try`: an executor that is not registered raises `KeyError`, which is caught.
  unfoldable pub execute_task : Dict String E → String → Task → W → W × ℤ
  unfolding get_executor
  execute_task executors run_uuid task w = elim (get_executor executors run_uuid task) [
    | none ↦ (w, pos 1)
    | some executor ↦ let (w', result) = execute executor w in (w', status_of result)
  ]

  -- The part under `if not skip and not expression_error`
  unfoldable pub run_task : Dict String E → String → Sources → Task → W → W × Result ThreadError Ran
  unfolding execute_task
  run_task executors run_uuid s task w = elim (stage is_writable text s task) [
    | err e ↦ (w, err (staging_raised e))
    | ok files ↦
        let (w', status) = execute_task executors run_uuid task w in
        (w', ok (record { status = status; staged = files }))
  ]

  unfoldable pub start_task :
      Dict String E → String → Sources → List String → Task → W → W × Result ThreadError Ran
  unfolding is_skipped run_task evaluate_all
  start_task executors run_uuid s skipped task w =
      if is_skipped skipped task.depends_on
      then (w, ok passed_over)
      else (elim (evaluate_all s task.conditions) [
        | ok true ↦ run_task executors run_uuid s task w
        | ok false ↦ (w, ok passed_over)
        | err eval_error ↦ (w, ok (record { status = pos 1; staged = [] }))
        | err unresolved ↦ (w, err (condition_raised unresolved))
        | err type_error ↦ (w, err (condition_raised type_error))
      ])
