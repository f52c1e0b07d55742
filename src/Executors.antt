-- ===== src/Executors.antt =====
-- core/tasks/executors/Function.py and owe_python_sdk/TaskExecutor.py: how a function task runs as a
-- Kubernetes job. The git repositories, the set-up of the container and the Kubernetes API are
-- arguments; what they answer while the executor polls is a list of ticks.
pub mod Polling
use tapis_workflows.Base.{
  ℕ, zero, suc, ◌<◌, String, Bool, true, false, not, ◌&&◌, ◌||◌, ◌≡◌, Option, none, some, List, [],
  ◌∷◌, ◌++◌, Result, ok, err, ◌>>=◌, filter, ltb, if◌then◌else◌,
}

-- `job.status`: a counter that is not an `int` is `none`.
pub record JobStatus : Type 0 where
  pub active : Option ℕ
  pub failed : Option ℕ
  pub succeeded : Option ℕ

abbrev pub is_some_positive : Option ℕ → Bool
is_some_positive none = false
is_some_positive (some n) = ltb 0 n

abbrev pub is_none : Option ℕ → Bool
is_none none = true
is_none (some n) = false

-- `_job_failed`, `_job_succeeded` and `_job_in_terminal_state`
unfoldable pub job_failed : JobStatus → Bool
job_failed job = is_some_positive job.failed

unfoldable pub job_succeeded : JobStatus → Bool
job_succeeded job = is_some_positive job.succeeded

unfoldable pub job_in_terminal_state : JobStatus → Bool
unfolding job_failed job_succeeded
job_in_terminal_state job = (job_failed job || job_succeeded job) && is_none job.active

-- The state of an executor of resources of the type `R`: those registered, and those that `cleanup` deleted
pub record Executor (R : Type 0) : Type 0 where
  pub resources : List R
  pub deleted : List R
  pub stderr : Option String

-- `_task_result`: the status and the errors; `files` of the result are those of the output directory.
pub record Outcome : Type 0 where
  pub status : ℕ
  pub errors : List String

-- `cleanup`: a deletion that fails is logged.
unfoldable pub cleanup : {R : Type 0} → (R → Bool) → Executor R → Executor R
cleanup deletes x = record x { deleted = x.deleted ++ filter deletes x.resources }

-- One round of the loop: the flag `terminating`, and what the read of the job answers
pub record Tick : Type 0 where
  pub terminating : Bool
  pub read : Result String JobStatus

-- The loop over the repositories. `clone` is `git.Repo.clone_from` into the directory of the repository.
unfoldable pub add_repositories :
    {G D : Type 0} → (G → D → Result String D) → List G → D → Result String D
add_repositories clone [] d = ok d
add_repositories clone (repo ∷ repos) d = clone repo d >>= add_repositories clone repos

module _ {R : Type 0} (deletes : R → Bool) where
  -- The loop of `execute`. `none` is a loop that still waits when the ticks are over.
  unfoldable pub poll : JobStatus → List Tick → Executor R → Option (Executor R × Outcome)
  unfolding cleanup job_in_terminal_state job_succeeded
  poll job [] x =
      if job_in_terminal_state job
      then some (x, record { status = if job_succeeded job then 0 else 1; errors = [] })
      else none
  poll job (tick ∷ ticks) x =
      let next : JobStatus → Option (Executor R × Outcome) = λ job'. poll job' ticks x in
      if job_in_terminal_state job
      then some (x, record { status = if job_succeeded job then 0 else 1; errors = [] })
      else if tick.terminating
      then some (
        record (cleanup deletes x) { stderr = some "Workflow Terminated" },
        record { status = 2; errors = "Workflow Terminated" ∷ [] },
      )
      else (elim tick.read [
        | err e ↦ some (record x { stderr = some e }, record { status = 1; errors = e ∷ [] })
        | ok job' ↦ next job'
      ])

  abbrev pub Run : Type 0
  Run = Option (Executor R × Outcome)

  abbrev pub fails : String → Executor R → Executor R × Outcome
  fails e x = (x, record { status = 1; errors = e ∷ [] })

  -- The job is registered, and then polled.
  unfoldable pub run_job : Result String (R × JobStatus) → List Tick → Executor R → Run
  unfolding poll
  run_job (err e) ticks x = some (fails e x)
  run_job (ok (resource, job)) ticks x =
      poll job ticks (record x { resources = x.resources ++ (resource ∷ []) })

  module _ {D : Type 0} (container : Result String D) (created : Result String (R × JobStatus))
      (ticks : List Tick) where
    unfoldable pub after_clones : Result String D → Executor R → Result String Run
    unfolding run_job
    after_clones (err e) x = ok (some (fails e x))
    after_clones (ok d) x = container >>= λ _. ok (run_job created ticks x)

    -- What `execute` does, with the file system `d`: it raises what the set-up of the container raises.
    unfoldable pub execute :
        {G : Type 0} → (G → D → Result String D) → List G → D → Executor R → Result String Run
    unfolding add_repositories after_clones
    execute clone repositories d x = after_clones (add_repositories clone repositories d) x
