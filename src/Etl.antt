-- ===== src/Etl.antt =====
-- The tasks of an ETL pipeline: the API's views/ETLPipelines.py, `post`. A job of the request becomes a
-- task behind the job before it, and the tasks of the template, which is a file of another repository
-- and a parameter here, follow.
pub mod Ids
pub mod Ranks
pub mod Tasks
use tapis_workflows.Base.{
  ℕ, suc, String, ◌<>◌, Bool, true, false, Option, none, some, List, [], ◌∷◌, ◌++◌, ◌==◌, string_eq,
  nat_eq, if◌then◌else◌,
}
use tapis_workflows.Base.Decimal.{decimal}
use tapis_workflows.Base.Dict.{insert}
use tapis_workflows.Value.{none_value, str, eq, ne}
use tapis_workflows.Expressions.Syntax.{
  args, task_output, literal, from, Condition, comparison, Conditions, no_conditions, condition,
}
use tapis_workflows.Task.{Dependency, Task}

abbrev pub gen_inbound_manifests : String
gen_inbound_manifests = "gen-inbound-manifests"

abbrev pub inbound_status_reduce : String
inbound_status_reduce = "inbound-status-reduce"

-- `f"etl_job_{i}"`
unfoldable pub job_id : ℕ → String
job_id i = "etl_job_" <> decimal i

abbrev pub resubmit_condition : Condition
resubmit_condition = comparison eq (from (args "RESUBMIT_OUTBOUND")) (literal none_value)

abbrev pub no_op_condition : Condition
no_op_condition =
    comparison ne (from (task_output gen_inbound_manifests "ACTIVE_MANIFEST"))
      (literal (str "null"))

-- The conditions of a job: only the first one looks at the manifest.
unfoldable pub job_conditions : ℕ → Conditions
job_conditions i =
    condition resubmit_condition
      (if i == 1 then condition no_op_condition no_conditions else no_conditions)

-- `TapisJobTask`, with the defaults of `TaskDependency`; the engine sets the other fields.
unfoldable pub job_task : ℕ → String → Task
unfolding job_id job_conditions
job_task i last_task_id = record {
  id = job_id i;
  depends_on = record { id = last_task_id; can_fail = false; can_skip = false } ∷ [];
  conditions = job_conditions i;
  input = [];
  can_fail = false;
  input_dir = "";
  output_dir = "";
}

-- The loop over the jobs, from the number `i` on
unfoldable pub job_tasks {ℓ} : {A : Type ℓ} → ℕ → String → List A → List Task
unfolding job_task
job_tasks i last_task_id [] = []
job_tasks i last_task_id (job ∷ jobs) = job_task i last_task_id ∷ job_tasks (suc i) (job_id i) jobs

-- The body of the loop that follows, for one job: the job may fail, and its status is an input.
unfoldable pub add_job : Task → Task → Task
add_job job task = record task {
  depends_on = task.depends_on ++ (record { id = job.id; can_fail = true; can_skip = false } ∷ []);
  input =
      insert (job.id <> "_JOB_STATUS")
        (record { required = true; value = none; value_from = some (task_output job.id "STATUS") })
        task.input;
}

unfoldable pub add_jobs : List Task → Task → Task
unfolding add_job
add_jobs [] task = task
add_jobs (job ∷ jobs) task = add_jobs jobs (add_job job task)

-- The first task with the id `inbound-status-reduce`; `none` is the `StopIteration`.
unfoldable pub update_reduce : List Task → List Task → Option (List Task)
unfolding add_jobs
update_reduce jobs [] = none
update_reduce jobs (task ∷ tasks) =
    let rest = update_reduce jobs tasks in
    if task.id == inbound_status_reduce
    then some (add_jobs jobs task ∷ tasks)
    else (elim rest [ none ↦ none | some tasks' ↦ some (task ∷ tasks') ])

-- The tasks that `post` gives to `TaskService.create`
unfoldable pub etl_tasks {ℓ} : {A : Type ℓ} → List A → List Task → Option (List Task)
unfolding job_tasks update_reduce
etl_tasks jobs template =
    let made = job_tasks 1 gen_inbound_manifests jobs in update_reduce made (made ++ template)
