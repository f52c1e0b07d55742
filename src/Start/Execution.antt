-- ===== src/Start/Execution.antt =====
-- When a task is executed, when it is passed over, and when its thread dies.
use tapis_workflows.Base.{
  String, ◌<>◌, ◌≡◌, ◌⊎◌, Bool, true, false, some, List, [], ◌∷◌, Result, ok, contains, string_eq,
}
use tapis_workflows.Base.Dict.{Dict, lookup}
use tapis_workflows.Value.{ℤ, Value}
use tapis_workflows.Task.{Dependency, Task}
use tapis_workflows.ValueFrom.{Sources}
use tapis_workflows.Expressions.Verdicts.{AllHold}
use tapis_workflows.Staging.{File, stage}
use tapis_workflows.Start.{ThreadError, Ran, status_of, start_task}

-- A dependency on a skipped task that may not be skipped
abbrev pub HasSkipped : List String → List Dependency → Type 0
HasSkipped skipped [] = ⊥
HasSkipped skipped (dep ∷ deps) =
    ((contains skipped dep.id ≡ true) × (dep.can_skip ≡ false)) ⊎ HasSkipped skipped deps

module _ {E W : Type 0} (is_writable : String → Bool) (text : Value → String)
    (execute : E → W → W × Result String ℤ) (executors : Dict String E) (run_uuid : String)
    (s : Sources) (skipped : List String) (task : Task) (w : W) where
  abbrev start : W × Result ThreadError Ran
  start = start_task is_writable text execute executors run_uuid s skipped task w

  -- The executor is called once, on the world as it is, and the result is its own.
  abbrev pub executed : E → List File → W × Result ThreadError Ran
  executed executor files = (
    (execute executor w).0,
    ok (record { status = status_of (execute executor w).1; staged = files }),
  )

  -- The cases in which the world changes
  abbrev pub IsExecuted : Type 0
  IsExecuted =
      (¬ HasSkipped skipped task.depends_on)
      × AllHold s task.conditions
      × ((files : List File) × (executor : E) × (stage is_writable text s task ≡ ok files)
          × (lookup (run_uuid <> "." <> task.id) executors ≡ some executor)
          × (start ≡ executed executor files))
