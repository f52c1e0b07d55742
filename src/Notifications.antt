-- ===== src/Notifications.antt =====
-- contrib/tapis/middleware/event_handlers/notifications/TapisWorkflowsAPIBackend.py: the events of a
-- run become calls of the API. A file is its bytes, by its path; `decode` is what the read of a text file
-- makes of them, and `repr` what `str` makes of bytes.
pub mod Status
use tapis_workflows.Base.{
  ℕ, zero, suc, ◌-◌, ◌<◌, String, ◌<>◌, Bool, true, false, not, ◌&&◌, ◌≡◌, Option, none, some, List,
  [], ◌∷◌, ◌++◌, map, Result, ok, err, ◌>>=◌, length, ltb, if◌then◌else◌,
}

-- The types of events
pub data EventType : Type 0 where
  pipeline_active pipeline_archiving pipeline_completed pipeline_failed pipeline_staging
        pipeline_suspended pipeline_terminated pipeline_skipped :
      EventType
  task_active task_archiving task_backoff task_completed task_failed task_pending task_staging
        task_suspended task_terminated task_skipped :
      EventType
  archiving_failed archiving_completed : EventType

-- The task of an event, or one of the pipeline
pub record TaskInfo : Type 0 where
  pub id : String
  pub execution_uuid : String
  pub output_dir : String

pub record Event : Type 0 where
  pub type : EventType
  pub run_uuid : String
  pub log_file : String
  pub tasks : List TaskInfo
  pub task : TaskInfo
  pub errors : String

-- The calls of the API: stdout and stderr of an execution are given with some states only.
pub data Call : Type 0 where
  update_run_status : String → String → String → Call
  update_execution_status : String → String → String → String → Option (String × String) → Call
  create_execution : String → String → String → Call

pub data HandlerError : Type 0 where
  -- `KeyError` of a type that has no function
  no_handler : HandlerError
  -- a file that is not there
  no_file : String → HandlerError

-- The last elements of a list: `seek` from the end, and `read`
abbrev pub drop : {A : Type 0} → ℕ → List A → List A
drop zero xs = xs
drop (suc n) [] = []
drop (suc n) (x ∷ xs) = drop n xs

-- The offset of `_tail_output` is `max_bytes`, or the size of a smaller file.
unfoldable pub tail_offset : ℕ → ℕ → ℕ
tail_offset max_bytes filesize = if ltb filesize max_bytes then filesize else max_bytes

-- `_tail_output`, as bytes
unfoldable pub tail_bytes : ℕ → List ℕ → List ℕ
unfolding tail_offset
tail_bytes max_bytes bytes = drop (length bytes - tail_offset max_bytes (length bytes)) bytes

-- A file that is opened and read
abbrev pub bytes_of : String → Option (List ℕ) → Result HandlerError (List ℕ)
bytes_of path none = err (no_file path)
bytes_of path (some bytes) = ok bytes

module _ (files : String → Option (List ℕ)) (decode repr : List ℕ → String) where
  abbrev read : String → Result HandlerError (List ℕ)
  read path = bytes_of path (files path)

  -- `_get_logs`
  abbrev pub get_logs : String → Result HandlerError String
  get_logs path = read path >>= λ bytes. ok (decode bytes)

  -- `_tail_output`
  unfoldable pub tail_output : TaskInfo → String → Result HandlerError String
  unfolding tail_bytes
  tail_output task filename =
      read (task.output_dir <> filename) >>= λ bytes. ok (repr (tail_bytes 10000 bytes))

  -- An update of the status of the run
  abbrev pub run_status : Event → String → Result HandlerError (List Call)
  run_status event status =
      get_logs event.log_file >>= λ logs. ok (update_run_status event.run_uuid status logs ∷ [])

  -- One of the execution, without and with its output
  abbrev pub execution_status : Event → String → String → Result HandlerError (List Call)
  execution_status event status message =
      ok (update_execution_status event.run_uuid event.task.execution_uuid status message none ∷ [])

  abbrev pub execution_end : Event → String → String → Result HandlerError (List Call)
  execution_end event status message = do
    stdout ← tail_output event.task ".stdout"
    stderr ← tail_output event.task ".stderr"
    ok (
        update_execution_status event.run_uuid event.task.execution_uuid status message
          (some (stdout, stderr))
        ∷ [])

  abbrev pub create_each : Event → List Call
  create_each event =
      map (λ (t : TaskInfo). create_execution event.run_uuid t.id t.execution_uuid) event.tasks

  -- `handle`, with the functions of `handle_fn_mapping`
  unfoldable pub handle_type : EventType → Event → Result HandlerError (List Call)
  unfolding tail_output
  handle_type pipeline_staging event = run_status event "staging"
  handle_type pipeline_active event =
      run_status event "active" >>= λ calls. ok (calls ++ create_each event)
  handle_type pipeline_archiving event = ok []
  handle_type pipeline_completed event = run_status event "completed"
  handle_type pipeline_failed event = run_status event "failed"
  handle_type pipeline_suspended event = run_status event "suspended"
  handle_type pipeline_terminated event = run_status event "terminated"
  handle_type pipeline_skipped event = err no_handler
  handle_type archiving_failed event = err no_handler
  handle_type archiving_completed event = err no_handler
  handle_type task_active event = execution_status event "active" "Task is Active"
  handle_type task_archiving event = ok []
  handle_type task_backoff event = ok []
  handle_type task_completed event = execution_end event "completed" "Task Completed Successfully"
  handle_type task_failed event = execution_end event "failed" ("Task Failed: " <> event.errors)
  handle_type task_pending event = execution_status event "pending" "Task awaiting execution"
  handle_type task_staging event =
      execution_status event "staging" "Workflow executor preparing to execute task"
  handle_type task_suspended event =
      execution_end event "suspended" "Task Execution has been suspended"
  handle_type task_terminated event =
      execution_end event "terminated" "Task Execution has been terminated"
  handle_type task_skipped event = ok (
      update_execution_status event.run_uuid event.task.execution_uuid "skipped" "Task skipped"
        (some ("", ""))
      ∷ [])

  unfoldable pub handle : Event → Result HandlerError (List Call)
  unfolding handle_type
  handle event = handle_type event.type event
