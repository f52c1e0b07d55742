-- ===== src/Views.antt =====
-- The views of pipelines and archives of a group: views/Pipelines.py and views/Archives.py of the API.
-- The creation of a task is an argument: `TaskService.create` returns, or raises. `prepare` gives a
-- body, or `none` where the request is not valid.
pub mod Guards
use tapis_workflows.Base.{
  ℕ, String, Bool, true, false, not, ◌&&◌, ◌||◌, Option, none, some, List, [], ◌∷◌, ◌++◌, Result,
  ok, err, ◌==◌, contains, string_eq, nat_eq, filter, find?, if◌then◌else◌,
}
use tapis_workflows.Api.{
  Db, Group, Request, Refusal, not_found, forbidden, bad_request, conflict, server_error, Response,
  done, refused, checked_group,
}

-- `Pipeline`, `Archive`, `PipelineArchive` and `Task`, with the columns that the views read
pub record Pipeline : Type 0 where
  pub id : String
  pub group : ℕ
  pub owner : String

pub record Archive : Type 0 where
  pub id : String
  pub group : ℕ
  pub owner : String

pub record TaskRow : Type 0 where
  pub pipeline : String
  pub group : ℕ
  pub id : String

pub record Tables : Type 0 where
  pub access : Db
  pub pipelines : List Pipeline
  pub archives : List Archive
  pub tasks : List TaskRow

abbrev pub pipeline_of : Group → String → Pipeline → Bool
pipeline_of g id p = p.id == id && p.group == g.uuid

abbrev pub archive_of : Group → String → Archive → Bool
archive_of g id a = a.id == id && a.group == g.uuid

abbrev pub task_of : Group → String → TaskRow → Bool
task_of g id t = t.pipeline == id && t.group == g.uuid

-- `Pipelines.get` and `Pipelines.list`
unfoldable pub get_pipelines : Request → String → Option String → Tables → Response (List Pipeline)
unfolding checked_group
get_pipelines request group_id id db = elim (checked_group request group_id none db.access) [
  | refused x ↦ refused x
  | done g ↦ elim id [
    | none ↦ done (filter (λ p. p.group == g.uuid) db.pipelines)
    | some name ↦ elim (find? (pipeline_of g name) db.pipelines) [
      | none ↦ refused not_found
      | some p ↦ done (p ∷ [])
    ]
  ]
]

-- The deletion of the row and, by the foreign keys, of its tasks
abbrev pub drop_pipeline : Group → String → Tables → Tables
drop_pipeline g id db = record db {
  pipelines = filter (λ p. not (pipeline_of g id p)) db.pipelines;
  tasks = filter (λ t. not (task_of g id t)) db.tasks;
}

-- `Pipelines.delete`, where the database deletes the tasks
unfoldable pub delete_pipeline : Request → String → String → Tables → Tables × Response String
unfolding checked_group
delete_pipeline request group_id id db = elim (checked_group request group_id none db.access) [
  | refused x ↦ (db, refused x)
  | done g ↦ elim (find? (pipeline_of g id) db.pipelines) [
    | none ↦ (db, refused not_found)
    | some p ↦
        if request.username == p.owner
        then (drop_pipeline g id db, done id)
        else (db, refused forbidden)
  ]
]

-- What `TaskService.create` raises, as the views tell it apart
pub data TaskError : Type 0 where
  invalid database_failed server_failed unexpected : TaskError

-- The answer of the handlers of `build_workflow_pipeline`: `ServerError` leaves the pipeline there.
unfoldable pub failed_task : Group → String → TaskError → Tables → Tables × Response String
failed_task g id invalid db = (drop_pipeline g id db, refused bad_request)
failed_task g id database_failed db = (drop_pipeline g id db, refused bad_request)
failed_task g id server_failed db = (db, refused server_error)
failed_task g id unexpected db = (drop_pipeline g id db, refused server_error)

-- `build_workflow_pipeline`; a task of the body is its id with what `TaskService.create` does.
unfoldable pub build_workflow_pipeline :
    Group → String → List (String × Option TaskError) → Tables → Tables × Response String
unfolding failed_task
build_workflow_pipeline g id [] db = (db, done id)
build_workflow_pipeline g id ((task, some e) ∷ tasks) db = failed_task g id e db
build_workflow_pipeline g id ((task, none) ∷ tasks) db =
    build_workflow_pipeline g id tasks
      (record db { tasks = db.tasks ++ (record { pipeline = id; group = g.uuid; id = task } ∷ []) })

-- The body of a pipeline of the type `workflow`
pub record PipelineBody : Type 0 where
  pub id : String
  pub archive_ids : List String
  pub tasks : List (String × Option TaskError)

-- The loop over the archives: all of them are archives of the group.
unfoldable pub archives_known : Group → List String → Tables → Bool
archives_known g [] db = true
archives_known g (id ∷ archive_ids) db =
    let rest = archives_known g archive_ids db in
    elim (find? (archive_of g id) db.archives) [ none ↦ false | some a ↦ rest ]

abbrev pub any_pipeline : (Pipeline → Bool) → List Pipeline → Bool
any_pipeline p [] = false
any_pipeline p (x ∷ xs) = p x || any_pipeline p xs

-- `Pipelines.post`, of a pipeline of the type `workflow`
unfoldable pub post_pipeline :
    Request → String → Option PipelineBody → Tables → Tables × Response String
unfolding checked_group build_workflow_pipeline archives_known
post_pipeline request group_id body db = elim (checked_group request group_id none db.access) [
  | refused x ↦ (db, refused x)
  | done g ↦ elim body [
    | none ↦ (db, refused bad_request)
    | some b ↦
        if any_pipeline (pipeline_of g b.id) db.pipelines
        then (db, refused conflict)
        else if archives_known g b.archive_ids db
        then build_workflow_pipeline g b.id b.tasks (record db {
          pipelines =
              db.pipelines ++ (record { id = b.id; group = g.uuid; owner = request.username } ∷ []);
        })
        else (db, refused bad_request)
  ]
]

-- `Archives.get` and `Archives.list`
unfoldable pub get_archives : Request → String → Option String → Tables → Response (List Archive)
unfolding checked_group
get_archives request group_id id db = elim (checked_group request group_id none db.access) [
  | refused x ↦ refused x
  | done g ↦ elim id [
    | none ↦ done (filter (λ a. a.group == g.uuid) db.archives)
    | some name ↦ elim (find? (archive_of g name) db.archives) [
      | none ↦ refused not_found
      | some a ↦ done (a ∷ [])
    ]
  ]
]

-- What the service of systems answers for the system of an archive
pub data SystemAnswer : Type 0 where
  unknown_system failed_call : SystemAnswer
  permissions : (may_modify is_owner : Bool) → SystemAnswer

-- `Archives.system`
unfoldable pub create_system_archive :
    SystemAnswer → Request → Group → String → Tables → Tables × Response String
create_system_archive unknown_system request g id db = (db, refused bad_request)
create_system_archive failed_call request g id db = (db, refused server_error)
create_system_archive (permissions may_modify is_owner) request g id db =
    if not may_modify && not is_owner then (db, refused forbidden) else (
      record db {
        archives =
            db.archives ++ (record { id = id; group = g.uuid; owner = request.username } ∷ []);
      },
      done id,
    )

abbrev pub any_archive : (Archive → Bool) → List Archive → Bool
any_archive p [] = false
any_archive p (x ∷ xs) = p x || any_archive p xs

-- `Archives.post`: the body is the id, and whether the archive is one of a system; the other types are
-- not implemented.
unfoldable pub post_archive :
    SystemAnswer → Request → String → Option (String × Bool) → Tables → Tables × Response String
unfolding checked_group create_system_archive
post_archive answer request group_id body db =
    elim (checked_group request group_id none db.access) [
      | refused x ↦ (db, refused x)
      | done g ↦ elim body [
        | none ↦ (db, refused bad_request)
        | some (id, is_system) ↦
            if any_archive (archive_of g id) db.archives
            then (db, refused conflict)
            else if is_system
            then create_system_archive answer request g id db
            else (db, refused bad_request)
      ]
    ]

-- `Archives.delete`
unfoldable pub delete_archive : Request → String → String → Tables → Tables × Response String
unfolding checked_group
delete_archive request group_id id db = elim (checked_group request group_id none db.access) [
  | refused x ↦ (db, refused x)
  | done g ↦ elim (find? (archive_of g id) db.archives) [
    | none ↦ (db, refused not_found)
    | some a ↦ (record db { archives = filter (λ a. not (archive_of g id a)) db.archives }, done id)
  ]
]

-- `build_ci_pipeline`: the task `build` is all that the pipeline has, and every handler deletes it.
unfoldable pub build_ci_pipeline :
    Group → String → Option TaskError → Tables → Tables × Response String
build_ci_pipeline g id none db = (
  record db { tasks = db.tasks ++ (record { pipeline = id; group = g.uuid; id = "build" } ∷ []) },
  done id,
)
build_ci_pipeline g id (some invalid) db = (drop_pipeline g id db, refused bad_request)
build_ci_pipeline g id (some database_failed) db = (drop_pipeline g id db, refused bad_request)
build_ci_pipeline g id (some server_failed) db = (drop_pipeline g id db, refused server_error)
build_ci_pipeline g id (some unexpected) db = (drop_pipeline g id db, refused server_error)
