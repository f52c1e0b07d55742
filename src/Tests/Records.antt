-- ===== src/Tests/Records.antt =====
-- The runs, the executions and the archives of a pipeline.
use tapis_workflows.Base.{
  ℕ, ◌≡◌, ◌⊎◌, inl, inr, refl, true, false, Option, none, some, [], ◌∷◌, find?, All, ◌==◌,
  string_eq, nat_eq,
}
use tapis_workflows.Api.{Request, done}
use tapis_workflows.Records.{
  Pipeline, PipelineRun, Task, TaskExecution, Archive, Tables, get_runs, get_executions,
  add_pipeline_archive,
}
use tapis_workflows.Records.Access.{IsVisible, runs_access}
use tapis_workflows.Records.Links.{
  IsLinked, create, report, report_run, run, give, serve_all, run_rows_stay,
}

abbrev ada : Request
ada = record { username = "ada"; tenant_id = "dev" }

-- Two groups with a pipeline each; `ada` belongs to the first one only.
abbrev build_task : Task
build_task = record { uuid = 20; pipeline = 2; id = "build" }

abbrev secret_execution : TaskExecution
secret_execution = record {
  uuid = 200;
  task = build_task;
  pipeline_run = 12;
  status = "completed";
  stdout = some "secret";
}

abbrev shelf : Archive
shelf = record { uuid = 5; id = "shelf"; group = 1 }

abbrev tables : Tables
tables = record {
  access = record {
    groups =
        record { uuid = 1; id = "lab"; owner = "ada"; tenant_id = "dev" }
        ∷ record { uuid = 2; id = "other"; owner = "bob"; tenant_id = "dev" }
        ∷ [];
    users = record { group = 1; username = "ada"; is_admin = true } ∷ [];
  };
  pipelines =
      record {
        uuid = 1;
        id = "p";
        group = 1;
        owner = "ada";
        current_run = some 11;
        last_run = none;
      }
      ∷ record { uuid = 2; id = "q"; group = 2; owner = "bob"; current_run = none; last_run = none }
      ∷ [];
  runs =
      record { uuid = 11; pipeline = 1; status = "active"; logs = none }
      ∷ record { uuid = 12; pipeline = 2; status = "active"; logs = none }
      ∷ [];
  tasks = build_task ∷ [];
  executions = secret_execution ∷ [];
  archives = shelf ∷ [];
  pipeline_archives = [];
}

runs_access_example :
    ((p : Pipeline) × IsVisible ada "lab" "p" tables p
      × All
          (λ (r : PipelineRun). r.pipeline ≡ p.uuid)
          (record { uuid = 11; pipeline = 1; status = "active"; logs = none } ∷ []))
unfolding get_runs string_eq nat_eq
runs_access_example = (runs_access ada "lab" "p" tables).0 (some 11) _ refl

listed : get_executions ada "lab" "p" 11 none tables ≡ done []
unfolding get_executions string_eq nat_eq
listed = refl

secret_found :
    find? (λ (x : TaskExecution). x.uuid == 200) tables.executions ≡ some secret_execution
unfolding nat_eq
secret_found = refl

abbrev run_11 : PipelineRun
run_11 = record { uuid = 11; pipeline = 1; status = "active"; logs = none }

abbrev run_12 : PipelineRun
run_12 = record { uuid = 12; pipeline = 2; status = "active"; logs = none }

tables-IsLinked : IsLinked tables
tables-IsLinked = (
  ((run_12, inr (inl refl), refl, refl), tt),
  (λ k e. (run_11, inl refl, current k e, refl), (λ k e. absurd (no_run k e), tt)),
)
  where
    current : (k : ℕ) → (some 11 ≡ some k) ⊎ (◌≡◌ {A = Option ℕ} none (some k)) → 11 ≡ k
    current k (inl e) = cc
    current k (inr e) = cc

    no_run : (k : ℕ) → (◌≡◌ {A = Option ℕ} none (some k)) ⊎ (◌≡◌ {A = Option ℕ} none (some k)) → ⊥
    no_run k (inl e) = cc
    no_run k (inr e) = cc

-- A new run, whose message the broker does not take, and reports on both kinds of rows
run_rows_stay_example : IsLinked (
    serve_all
      (run false (some 13) ada "lab" "p" true
        ∷ create "token" (some "token") 12 (some (201, "build"))
        ∷ report "token" (some "token") 201 "completed" (some none)
        ∷ report_run "token" none 12 "completed" (some none)
        ∷ give ada "lab" "p" "eve"
        ∷ [])
      tables)
run_rows_stay_example =
    run_rows_stay
      (run false (some 13) ada "lab" "p" true
        ∷ create "token" (some "token") 12 (some (201, "build"))
        ∷ report "token" (some "token") 201 "completed" (some none)
        ∷ report_run "token" none 12 "completed" (some none)
        ∷ give ada "lab" "p" "eve"
        ∷ [])
      tables tables-IsLinked

abbrev shelved : Tables
shelved = record tables { pipeline_archives = record { pipeline = 1; archive = shelf } ∷ [] }

shelf_added : add_pipeline_archive ada "lab" "p" (some "shelf") tables ≡ (shelved, done "shelf")
unfolding add_pipeline_archive string_eq nat_eq
shelf_added = refl
