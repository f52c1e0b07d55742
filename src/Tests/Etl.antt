-- ===== src/Tests/Etl.antt =====
-- An ETL pipeline with two jobs.
use Prim.Native.Char.{Char, code}
use text.Mathlib.TextLemmas.{cons-append, head-eq_of_cons-eq}
use tapis_workflows.Base.{
  ℕ, String, ◌≡◌, ◌≢◌, inl, inr, refl, ap, ◌∙◌, true, false, Option, some, none, List, [], ◌∷◌, ok,
  err, arith, ◌==◌, ◌<◌, Bool-cases, string_eq, nat_eq, contains, if◌then◌else◌,
}
use tapis_workflows.Base.Decimal.{decimal}
use tapis_workflows.Task.{Task, ids}
use tapis_workflows.Expressions.Syntax.{no_conditions}
use tapis_workflows.Dependencies.{Plan, set_tasks, cycle_detected}
use tapis_workflows.Dependencies.Valid.{UniqueIds, AllValid}
use tapis_workflows.Value.{pos}
use tapis_workflows.Run.{
  Run, Reach, started, later, finishes, start_run, finish, pipeline_active, pipeline_completed,
  task_completed,
}
use tapis_workflows.Run.Completion.{IsRank}
use tapis_workflows.Etl.{job_id, job_task, add_jobs, etl_tasks}
use tapis_workflows.Etl.Ranks.{IsNotJob}
use tapis_workflows.Etl.Tasks.{IsTemplate, etl_tasks_lem}

abbrev task : String → List String → Task
task id deps = record {
  id = id;
  depends_on = elim deps [
    | [] ↦ []
    | dep ∷ _ ↦ record { id = dep; can_fail = false; can_skip = false } ∷ []
  ];
  conditions = no_conditions;
  input = [];
  can_fail = false;
  input_dir = "";
  output_dir = "";
}

abbrev template : List Task
template =
    task "gen-inbound-manifests" []
    ∷ task "inbound-status-reduce" ("gen-inbound-manifests" ∷ [])
    ∷ []

abbrev rank : String → ℕ
rank id = if id == "gen-inbound-manifests" then 0 else 1

not_job : (c : Char) (s : String) → code c ≢ 101 → IsNotJob 1 (String.◌∷◌ c s)
unfolding job_id
not_job c s differ k le e =
    differ (ap code (head-eq_of_cons-eq (e ∙ cons-append "e" "tl_job_" (decimal k))))

differ : (◌==◌ {A = String} "gen-inbound-manifests" "inbound-status-reduce") ≡ false
unfolding string_eq
differ = refl

template_unique : UniqueIds template
template_unique a = ground (arith, differ)

template_no_jobs : (a : String) → contains (ids template) a ≡ true → IsNotJob 1 a
template_no_jobs a h = elim (Bool-cases (a == "gen-inbound-manifests")) [
  | inl this ↦
      let same : a ≡ "gen-inbound-manifests" = ground arith in
      rw same (not_job "g" "en-inbound-manifests" (λ e. absurd (omega (arith, e))))
  | inr other ↦
      let same : a ≡ "inbound-status-reduce" = ground arith in
      rw same (not_job "i" "nbound-status-reduce" (λ e. absurd (omega (arith, e))))
]

gen_known : contains (ids template) "gen-inbound-manifests" ≡ true
unfolding string_eq
gen_known = refl

reduce_known : contains (ids template) "inbound-status-reduce" ≡ true
unfolding string_eq
reduce_known = refl

ids_apart : ◌≢◌ {A = String} "gen-inbound-manifests" "inbound-status-reduce"
ids_apart e = ground (arith, differ, e)

in_order : rank "gen-inbound-manifests" < rank "inbound-status-reduce"
unfolding string_eq
in_order = omega arith

template-IsTemplate : IsTemplate rank template
template-IsTemplate = record {
  unique = template_unique;
  valid = (tt, (((ids_apart, gen_known), tt), tt));
  ranked = (tt, ((in_order, tt), tt));
  no_jobs = template_no_jobs;
  has_first = gen_known;
  has_last = reduce_known;
  in_order = in_order;
}

etl_tasks_lem_example :
    (tasks : List Task) × (etl_tasks {A = ℕ} (1 ∷ 2 ∷ []) template ≡ some tasks)
    × UniqueIds tasks
    × AllValid (ids tasks) tasks
    × ((rank' : String → ℕ) × IsRank rank' tasks)
etl_tasks_lem_example = etl_tasks_lem (1 ∷ 2 ∷ []) rank template template-IsTemplate

-- One job, run to its end
abbrev gen : Task
gen = task "gen-inbound-manifests" []

abbrev job : Task
job = record (job_task 1 "gen-inbound-manifests") { can_fail = true }

abbrev reduce : Task
reduce =
    add_jobs (job_task 1 "gen-inbound-manifests" ∷ [])
      (task "inbound-status-reduce" ("gen-inbound-manifests" ∷ []))

abbrev made : List Task
made = job_task 1 "gen-inbound-manifests" ∷ gen ∷ reduce ∷ []

etl_made : etl_tasks {A = ℕ} (1 ∷ []) template ≡ some made
unfolding etl_tasks string_eq nat_eq decimal
etl_made = refl

abbrev plan : Plan
plan = record {
  tasks = job ∷ gen ∷ reduce ∷ [];
  graph =
      ("etl_job_1", "inbound-status-reduce" ∷ [])
      ∷ ("gen-inbound-manifests", "etl_job_1" ∷ "inbound-status-reduce" ∷ [])
      ∷ ("inbound-status-reduce", [])
      ∷ [];
  queue = job ∷ gen ∷ reduce ∷ [];
}

etl_accepted : set_tasks made ≡ ok plan
unfolding set_tasks etl_tasks string_eq nat_eq decimal
etl_accepted = refl

abbrev at_start : Run
at_start = record {
  tasks = job ∷ gen ∷ reduce ∷ [];
  queue = job ∷ reduce ∷ [];
  running = gen ∷ [];
  crashed = [];
  finished = [];
  succeeded = [];
  failed = [];
  skipped = [];
  executors = "etl_job_1" ∷ "gen-inbound-manifests" ∷ "inbound-status-reduce" ∷ [];
  events = pipeline_active ∷ [];
}

abbrev after_gen : Run
after_gen = record at_start {
  queue = reduce ∷ [];
  running = job ∷ [];
  finished = "gen-inbound-manifests" ∷ [];
  succeeded = "gen-inbound-manifests" ∷ [];
  executors = "etl_job_1" ∷ "inbound-status-reduce" ∷ [];
  events = pipeline_active ∷ task_completed "gen-inbound-manifests" ∷ [];
}

abbrev after_job : Run
after_job = record after_gen {
  queue = [];
  running = reduce ∷ [];
  finished = "gen-inbound-manifests" ∷ "etl_job_1" ∷ [];
  succeeded = "gen-inbound-manifests" ∷ "etl_job_1" ∷ [];
  executors = "inbound-status-reduce" ∷ [];
  events =
      pipeline_active ∷ task_completed "gen-inbound-manifests" ∷ task_completed "etl_job_1" ∷ [];
}

abbrev at_end : Run
at_end = record after_job {
  running = [];
  finished = "gen-inbound-manifests" ∷ "etl_job_1" ∷ "inbound-status-reduce" ∷ [];
  succeeded = "gen-inbound-manifests" ∷ "etl_job_1" ∷ "inbound-status-reduce" ∷ [];
  executors = [];
  events =
      pipeline_active
      ∷ task_completed "gen-inbound-manifests"
      ∷ task_completed "etl_job_1"
      ∷ task_completed "inbound-status-reduce"
      ∷ pipeline_completed
      ∷ [];
}

etl_start : start_run plan ≡ ok at_start
unfolding start_run etl_tasks string_eq nat_eq decimal
etl_start = refl

gen_end : finish at_start [] gen [] (pos 0) ≡ ok after_gen
unfolding finish etl_tasks string_eq nat_eq decimal
gen_end = refl

job_end : finish after_gen [] job [] (pos 0) ≡ ok after_job
unfolding finish etl_tasks string_eq nat_eq decimal
job_end = refl

reduce_end : finish after_job [] reduce [] (pos 0) ≡ ok at_end
unfolding finish etl_tasks string_eq nat_eq decimal
reduce_end = refl

abbrev etl_run : Reach plan 3 at_end
etl_run =
    later
      (later (later (started etl_start) (finishes [] gen [] (pos 0) refl gen_end))
        (finishes [] job [] (pos 0) refl job_end))
      (finishes [] reduce [] (pos 0) refl reduce_end)

-- With two jobs and a task behind `inbound-status-reduce`, the cycle check takes the second path to that
-- task for a cycle.
abbrev longer : List Task
longer =
    gen
    ∷ task "inbound-status-reduce" ("gen-inbound-manifests" ∷ [])
    ∷ task "end" ("inbound-status-reduce" ∷ [])
    ∷ []

abbrev or_nil : Option (List Task) → List Task
or_nil none = []
or_nil (some tasks) = tasks

two_jobs_refused : set_tasks (or_nil (etl_tasks {A = ℕ} (1 ∷ 2 ∷ []) longer)) ≡ err cycle_detected
unfolding set_tasks etl_tasks string_eq nat_eq decimal
two_jobs_refused = refl
