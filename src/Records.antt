-- ===== src/Records.antt =====
-- The runs of pipelines, the executions of their tasks and the archives of a pipeline: the API's views
-- PipelineRuns, TaskExecutions, CreateTaskExecution, UpdateTaskExecutionStatus, UpdatePipelineRunStatus,
-- RunPipeline, ListPipelineArchives, AddPipelineArchive, RemovePipelineArchive, ChangePipelineOwner and
-- Tasks, with services/PipelineDispatcher.py. The tables are lists of rows; the times are left out.
pub mod Access
pub mod Links
pub mod Archives
use tapis_workflows.Base.{
  ℕ, String, Bool, true, false, not, ◌&&◌, ◌||◌, Option, none, some, List, [], ◌∷◌, ◌++◌, map, ◌==◌,
  string_eq, nat_eq, filter, find?, if◌then◌else◌,
}
use tapis_workflows.Api.{
  Db, Group, Request, Refusal, not_found, forbidden, bad_request, conflict, server_error, uncaught,
  Response, done, refused, checked_group,
}

-- `Pipeline`, with its primary key and the keys of two runs
pub record Pipeline : Type 0 where
  pub uuid : ℕ
  pub id : String
  pub group : ℕ
  pub owner : String
  pub current_run : Option ℕ
  pub last_run : Option ℕ

pub record PipelineRun : Type 0 where
  pub uuid : ℕ
  pub pipeline : ℕ
  pub status : String
  pub logs : Option String

-- `Task`: `pipeline` is the foreign key.
pub record Task : Type 0 where
  pub uuid : ℕ
  pub pipeline : ℕ
  pub id : String

-- `TaskExecution`: `task` is the row that its foreign key refers to, and `pipeline_run` is a key.
pub record TaskExecution : Type 0 where
  pub uuid : ℕ
  pub task : Task
  pub pipeline_run : ℕ
  pub status : String
  pub stdout : Option String

pub record Archive : Type 0 where
  pub uuid : ℕ
  pub id : String
  pub group : ℕ

-- `PipelineArchive`: a key, and the row that the other key refers to
pub record PipelineArchive : Type 0 where
  pub pipeline : ℕ
  pub archive : Archive

pub record Tables : Type 0 where
  pub access : Db
  pub pipelines : List Pipeline
  pub runs : List PipelineRun
  pub tasks : List Task
  pub executions : List TaskExecution
  pub archives : List Archive
  pub pipeline_archives : List PipelineArchive

-- The checks that the views of a pipeline begin with; they differ in the answer where it is missing.
unfoldable pub checked_pipeline :
    Refusal → Request → String → String → Tables → Response (Group × Pipeline)
unfolding checked_group
checked_pipeline missing request group_id pipeline_id db =
    elim (checked_group request group_id none db.access) [
      | refused x ↦ refused x
      | done g ↦ elim (find? (λ p. p.group == g.uuid && p.id == pipeline_id) db.pipelines) [
        | none ↦ refused missing
        | some p ↦ done (g, p)
      ]
    ]

-- `PipelineRuns.get` and `PipelineRuns.list`
unfoldable pub get_runs :
    Request → String → String → Option ℕ → Tables → Response (List PipelineRun)
unfolding checked_pipeline
get_runs request group_id pipeline_id uuid db =
    elim (checked_pipeline bad_request request group_id pipeline_id db) [
      | refused x ↦ refused x
      | done (g, p) ↦ elim uuid [
        | none ↦ done (filter (λ r. r.pipeline == p.uuid) db.runs)
        | some k ↦ elim (find? (λ r. r.pipeline == p.uuid && r.uuid == k) db.runs) [
          | none ↦ refused bad_request
          | some r ↦ done (r ∷ [])
        ]
      ]
    ]

-- The checks of `TaskExecutions.get`: the run of the pipeline
unfoldable pub checked_run : Request → String → String → ℕ → Tables → Response PipelineRun
unfolding checked_pipeline
checked_run request group_id pipeline_id run db =
    elim (checked_pipeline bad_request request group_id pipeline_id db) [
      | refused x ↦ refused x
      | done (g, p) ↦ elim (find? (λ r. r.pipeline == p.uuid && r.uuid == run) db.runs) [
        | none ↦ refused bad_request
        | some r ↦ done r
      ]
    ]

-- `TaskExecutions.get` and `TaskExecutions.list`: one execution is looked up by its key alone.
unfoldable pub get_executions :
    Request → String → String → ℕ → Option ℕ → Tables → Response (List TaskExecution)
unfolding checked_run
get_executions request group_id pipeline_id run uuid db =
    elim (checked_run request group_id pipeline_id run db) [
      | refused x ↦ refused x
      | done r ↦ elim uuid [
        | none ↦ done (filter (λ x. x.pipeline_run == r.uuid) db.executions)
        | some k ↦ elim (find? (λ x. x.uuid == k) db.executions) [
          | none ↦ refused not_found
          | some x ↦ done (x ∷ [])
        ]
      ]
    ]

-- `executor_request_is_valid`: the token that the API has, and the header
unfoldable pub executor_request_is_valid : String → Option String → Bool
executor_request_is_valid secret none = false
executor_request_is_valid secret (some token) = token == secret

-- The table refuses a key that it has.
abbrev pub has_execution : ℕ → List TaskExecution → Bool
has_execution k xs = elim (find? (λ x. x.uuid == k) xs) [ none ↦ false | some x ↦ true ]

-- `CreateTaskExecution.post`, with the key and the task of the body
unfoldable pub create_execution :
    String → Option String → ℕ → Option (ℕ × String) → Tables → Tables × Response ℕ
unfolding executor_request_is_valid
create_execution secret header run body db =
    if not (executor_request_is_valid secret header)
    then (db, refused bad_request)
    else (elim body [
      | none ↦ (db, refused bad_request)
      | some (uuid, task_id) ↦ elim (find? (λ r. r.uuid == run) db.runs) [
        | none ↦ (db, refused bad_request)
        | some r ↦ elim (find? (λ t. t.pipeline == r.pipeline && t.id == task_id) db.tasks) [
          | none ↦ (db, refused bad_request)
          | some t ↦ if has_execution uuid db.executions then (db, refused server_error) else (
            record db {
              executions =
                  db.executions
                  ++ (record {
                    uuid = uuid;
                    task = t;
                    pipeline_run = r.uuid;
                    status = "pending";
                    stdout = none;
                  }
                      ∷ []);
            },
            done uuid,
          )
        ]
      ]
    ])

abbrev pub set_execution : ℕ → String → Option String → TaskExecution → TaskExecution
set_execution uuid status stdout x =
    if x.uuid == uuid then record x { status = status; stdout = stdout } else x

-- `UpdateTaskExecutionStatus.patch`
unfoldable pub update_execution :
    String → Option String → ℕ → String → Option (Option String) → Tables → Tables × Response ℕ
unfolding executor_request_is_valid
update_execution secret header uuid status body db =
    if not (executor_request_is_valid secret header)
    then (db, refused bad_request)
    else (elim body [
      | none ↦ (db, refused bad_request)
      | some stdout ↦ (
        record db { executions = map (set_execution uuid status stdout) db.executions },
        done uuid,
      )
    ])

abbrev pub set_run : ℕ → String → Option String → PipelineRun → PipelineRun
set_run uuid status logs r = if r.uuid == uuid then record r { status = status; logs = logs } else r

-- `UpdatePipelineRunStatus.patch`
unfoldable pub update_run :
    String → Option String → ℕ → String → Option (Option String) → Tables → Tables × Response ℕ
unfolding executor_request_is_valid
update_run secret header uuid status body db =
    if not (executor_request_is_valid secret header)
    then (db, refused bad_request)
    else (elim body [
      | none ↦ (db, refused bad_request)
      | some logs ↦ (record db { runs = map (set_run uuid status logs) db.runs }, done uuid)
    ])

-- The `update` of the pipeline: `last_run` is set only where a run was the current one.
abbrev pub set_current : ℕ → ℕ → Option ℕ → Pipeline → Pipeline
set_current uuid run none p = if p.uuid == uuid then record p { current_run = some run } else p
set_current uuid run (some old) p =
    if p.uuid == uuid then record p { current_run = some run; last_run = some old } else p

abbrev pub has_run : ℕ → List PipelineRun → Bool
has_run k rs = elim (find? (λ r. r.uuid == k) rs) [ none ↦ false | some r ↦ true ]

-- `PipelineDispatcher.dispatch`; the broker takes the message, or raises.
unfoldable pub dispatch : Bool → ℕ → Pipeline → Tables → Tables × Response ℕ
dispatch published run pipeline db =
    if has_run run db.runs
    then (db, refused server_error)
    else (let row : PipelineRun = record {
      uuid = run;
      pipeline = pipeline.uuid;
      status = "submitted";
      logs = none;
    } in
        let db' = record db { runs = db.runs ++ (row ∷ []) } in
        elim (find? (λ p. p.uuid == pipeline.uuid) db.pipelines) [
          | none ↦ (db', refused server_error)
          | some p ↦ (
            record db' { pipelines = map (set_current p.uuid run p.current_run) db.pipelines },
            if published then done run else refused server_error,
          )
        ])

-- `RunPipeline.post`: the builder of the request gives the key of the run, or raises, as it does where
-- there is no pipeline.
unfoldable pub run_pipeline :
    Bool → Option ℕ → Request → String → String → Bool → Tables → Tables × Response ℕ
unfolding checked_group dispatch
run_pipeline published built request group_id pipeline_id body db =
    if not body
    then (db, refused bad_request)
    else (elim (checked_group request group_id none db.access) [
      | refused x ↦ (db, refused x)
      | done g ↦ elim (find? (λ p. p.id == pipeline_id && p.group == g.uuid) db.pipelines) [
        | none ↦ (db, refused server_error)
        | some p ↦ elim built [
          | none ↦ (db, refused server_error)
          | some run ↦ dispatch published run p db
        ]
      ]
    ])

abbrev pub archives_of : ℕ → List PipelineArchive → List Archive
archives_of pipeline [] = []
archives_of pipeline (x ∷ xs) =
    let rest = archives_of pipeline xs in if x.pipeline == pipeline then x.archive ∷ rest else rest

-- `ListPipelineArchives.get`
unfoldable pub list_pipeline_archives : Request → String → String → Tables → Response (List Archive)
unfolding checked_pipeline
list_pipeline_archives request group_id pipeline_id db =
    elim (checked_pipeline bad_request request group_id pipeline_id db) [
      | refused x ↦ refused x
      | done (g, p) ↦ done (archives_of p.uuid db.pipeline_archives)
    ]

abbrev pub archive_named : Group → String → Archive → Bool
archive_named g id a = a.group == g.uuid && a.id == id

abbrev pub linked : ℕ → Archive → PipelineArchive → Bool
linked pipeline a x = x.pipeline == pipeline && x.archive.uuid == a.uuid

abbrev pub any_linked : ℕ → Archive → List PipelineArchive → Bool
any_linked pipeline a [] = false
any_linked pipeline a (x ∷ xs) = linked pipeline a x || any_linked pipeline a xs

-- `AddPipelineArchive.post`: a constraint refuses a pair that is there.
unfoldable pub add_pipeline_archive :
    Request → String → String → Option String → Tables → Tables × Response String
unfolding checked_pipeline
add_pipeline_archive request group_id pipeline_id body db =
    elim (checked_pipeline bad_request request group_id pipeline_id db) [
      | refused x ↦ (db, refused x)
      | done (g, p) ↦ elim body [
        | none ↦ (db, refused bad_request)
        | some id ↦ elim (find? (archive_named g id) db.archives) [
          | none ↦ (db, refused not_found)
          | some a ↦
              if any_linked p.uuid a db.pipeline_archives then (db, refused bad_request) else (
                record db {
                  pipeline_archives =
                      db.pipeline_archives ++ (record { pipeline = p.uuid; archive = a } ∷ []);
                },
                done id,
              )
        ]
      ]
    ]

-- `RemovePipelineArchive.delete`: every row of the pipeline and the archive
unfoldable pub remove_pipeline_archive :
    Request → String → String → Option String → Tables → Tables × Response String
unfolding checked_pipeline
remove_pipeline_archive request group_id pipeline_id body db =
    elim (checked_pipeline not_found request group_id pipeline_id db) [
      | refused x ↦ (db, refused x)
      | done (g, p) ↦ elim body [
        | none ↦ (db, refused bad_request)
        | some id ↦ elim (find? (archive_named g id) db.archives) [
          | none ↦ (db, refused not_found)
          | some a ↦ (
            record db {
              pipeline_archives = filter (λ x. not (linked p.uuid a x)) db.pipeline_archives;
            },
            done id,
          )
        ]
      ]
    ]

abbrev pub set_owner : Group → String → String → Pipeline → Pipeline
set_owner g id username p =
    if p.id == id && p.group == g.uuid then record p { owner = username } else p

-- `ChangePipelineOwner.patch`
unfoldable pub change_owner : Request → String → String → String → Tables → Tables × Response String
unfolding checked_pipeline
change_owner request group_id pipeline_id username db =
    elim (checked_pipeline not_found request group_id pipeline_id db) [
      | refused x ↦ (db, refused x)
      | done (g, p) ↦
          if request.username == p.owner
          then (
            record db { pipelines = map (set_owner g pipeline_id username) db.pipelines },
            done username,
          )
          else (db, refused forbidden)
    ]

-- `Tasks.get` and `Tasks.list`
unfoldable pub get_tasks : Request → String → String → Option String → Tables → Response (List Task)
unfolding checked_pipeline
get_tasks request group_id pipeline_id task_id db =
    elim (checked_pipeline bad_request request group_id pipeline_id db) [
      | refused x ↦ refused x
      | done (g, p) ↦ elim task_id [
        | none ↦ done (filter (λ t. t.pipeline == p.uuid) db.tasks)
        | some id ↦ elim (find? (λ t. t.pipeline == p.uuid && t.id == id) db.tasks) [
          | none ↦ refused not_found
          | some t ↦ done (t ∷ [])
        ]
      ]
    ]
