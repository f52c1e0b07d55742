-- ===== src/Run.antt =====
-- core/workflows/WorkflowExecutor.py: the part of a run that follows `_set_tasks`. A thread of the
-- source is a task in `running`; its last act is `_on_task_terminal_state`, which runs here without
-- another thread in between.
pub mod Ready
pub mod Invariant
pub mod Steps
pub mod Progress
pub mod Completion
pub mod Refinement
use tapis_workflows.Base.{
  ℕ, String, Bool, true, false, not, ◌&&◌, ◌||◌, ◌≡◌, Option, none, some, List, [], ◌∷◌, ◌++◌,
  Result, ok, err, ◌>>=◌, ◌==◌, contains, string_eq, nat_eq, length, if◌then◌else◌,
}
use tapis_workflows.Task.{
  Dependency, Task, TaskResult, ids, task_by_id, task_result, is_negative, is_zero,
}
use tapis_workflows.Value.{ℤ}
use tapis_workflows.Dependencies.{Plan}

pub data RunError : Type 0 where
  -- "Illegal dependency: Task with id ... doesn't exist"
  illegal_dependency : String → RunError
  -- `ValueError` of `queue.index(task)`
  not_in_queue : String → RunError
  -- `KeyError` of `executors[...]`
  no_executor : String → RunError

-- The events of a run that `_on_pipeline_terminal_state` and the callbacks of a task publish.
pub data RunEvent : Type 0 where
  pipeline_active pipeline_completed pipeline_failed : RunEvent
  task_completed task_skipped task_failed : String → RunEvent

-- `self.state`. `running` holds the tasks whose threads were started and have not ended, `crashed` the
-- ids of those whose thread an exception ended, and `events` what was published, oldest first.
pub record Run : Type 0 where
  pub tasks : List Task
  pub queue : List Task
  pub running : List Task
  pub crashed : List String
  pub finished : List String
  pub succeeded : List String
  pub failed : List String
  pub skipped : List String
  pub executors : List String
  pub events : List RunEvent

-- The loop of `_task_is_ready`
unfoldable pub deps_ready : Run → List Dependency → Result RunError Bool
deps_ready s [] = ok true
deps_ready s (dep ∷ deps) =
    let rest = deps_ready s deps in
    elim (task_by_id dep.id s.tasks) [
      | none ↦ err (illegal_dependency dep.id)
      | some dep_task ↦
          if dep_task.can_fail && contains s.failed dep_task.id
          then rest
          else if not (contains s.finished dep_task.id)
          then ok false
          else rest
    ]

-- `_task_is_ready`: the early return for a task without dependencies is the empty loop.
unfoldable pub task_is_ready : Run → Task → Result RunError Bool
unfolding deps_ready
task_is_ready s task = deps_ready s task.depends_on

-- The first loop of `_fetch_ready_tasks`
unfoldable pub collect_ready : Run → List Task → Result RunError (List Task)
unfolding task_is_ready
collect_ready s [] = ok []
collect_ready s (task ∷ queue) = do
  ready ← task_is_ready s task
  rest ← collect_ready s queue
  ok (if ready then task ∷ rest else rest)

-- `queue.pop(queue.index(task))`: tasks are found by their ids.
unfoldable pub pop_task : Task → List Task → Option (List Task)
pop_task task [] = none
pop_task task (t ∷ queue) =
    let rest = pop_task task queue in
    if t.id == task.id
    then some queue
    else (elim rest [ none ↦ none | some queue' ↦ some (t ∷ queue') ])

-- `_remove_from_queue`
unfoldable pub remove_from_queue : Task → List Task → Result RunError (List Task)
unfolding pop_task
remove_from_queue task [] = ok []
remove_from_queue task (t ∷ queue) = elim (pop_task task (t ∷ queue)) [
  | none ↦ err (not_in_queue task.id)
  | some queue' ↦ ok queue'
]

-- The second loop of `_fetch_ready_tasks`
unfoldable pub remove_each : List Task → List Task → Result RunError (List Task)
unfolding remove_from_queue
remove_each [] queue = ok queue
remove_each (task ∷ ready_tasks) queue = remove_from_queue task queue >>= remove_each ready_tasks

-- `_fetch_ready_tasks`: the state, and the tasks for which threads were made.
unfoldable pub fetch_ready_tasks : Run → Result RunError (Run × List Task)
unfolding collect_ready remove_each
fetch_ready_tasks s = do
  ready_tasks ← collect_ready s s.queue
  queue ← remove_each ready_tasks s.queue
  ok (record s { queue = queue }, ready_tasks)

abbrev pub publish : RunEvent → Run → Run
publish e s = record s { events = s.events ++ (e ∷ []) }

-- `_on_task_completed`, `_on_task_skipped` and `_on_task_failed`
unfoldable pub on_task_completed : Task → Run → Run
on_task_completed task s =
    let s' = publish (task_completed task.id) s in
    record s' {
      finished = s'.finished ++ (task.id ∷ []);
      succeeded = s'.succeeded ++ (task.id ∷ []);
    }

unfoldable pub on_task_skipped : Task → Run → Run
on_task_skipped task s =
    let s' = publish (task_skipped task.id) s in
    record s' { finished = s'.finished ++ (task.id ∷ []); skipped = s'.skipped ++ (task.id ∷ []) }

unfoldable pub on_task_failed : Task → Run → Run
on_task_failed task s =
    let s' = publish (task_failed task.id) s in
    record s' { finished = s'.finished ++ (task.id ∷ []); failed = s'.failed ++ (task.id ∷ []) }

-- The choice of the callback in `_on_task_terminal_state`
unfoldable pub callback : Task → TaskResult → Run → Run
unfolding on_task_completed on_task_skipped on_task_failed
callback task result s =
    if not result.success && not result.skipped
    then on_task_failed task s
    else if result.skipped
    then on_task_skipped task s
    else on_task_completed task s

-- `del executors[...]`; `none` is the `KeyError`.
unfoldable pub remove_executor : String → List String → Option (List String)
remove_executor id [] = none
remove_executor id (key ∷ executors) =
    let rest = remove_executor id executors in
    if key == id
    then some executors
    else (elim rest [ none ↦ none | some executors' ↦ some (key ∷ executors') ])

-- `_deregister_executor`
unfoldable pub deregister_executor : Task → Run → Result RunError Run
unfolding remove_executor
deregister_executor task s = elim (remove_executor task.id s.executors) [
  | none ↦ err (no_executor task.id)
  | some executors ↦ ok (record s { executors = executors })
]

abbrev pub is_positive : ℤ → Bool
is_positive status = not (is_negative status) && not (is_zero status)

-- The end of `_on_task_terminal_state`. `_on_pipeline_terminal_state` publishes its event, and leaves
-- the lists of the state as they are.
unfoldable pub next_tasks : Task → TaskResult → Run → Result RunError (Run × List Task)
unfolding fetch_ready_tasks
next_tasks task result s =
    if length s.tasks == length s.finished
    then ok (publish pipeline_completed s, [])
    else if is_positive result.status && not task.can_fail
    then ok (publish pipeline_failed s, [])
    else fetch_ready_tasks s

-- `_on_task_terminal_state`
unfoldable pub on_task_terminal_state : Task → TaskResult → Run → Result RunError (Run × List Task)
unfolding callback deregister_executor next_tasks
on_task_terminal_state task result s =
    deregister_executor task (callback task result s) >>= next_tasks task result

-- `self.state.ready_tasks += unstarted_threads`: the hook `_on_change_ready_task` starts the threads.
abbrev pub start_threads : Run × List Task → Run
start_threads (s, threads) = record s { running = s.running ++ threads }

-- The end of a thread that stands in `running` between `before` and `after`
unfoldable pub finish : Run → List Task → Task → List Task → ℤ → Result RunError Run
unfolding on_task_terminal_state
finish s before task after status = do
  end ← on_task_terminal_state task (task_result status) (record s { running = before ++ after })
  ok (start_threads end)

abbrev pub staged : Plan → Run
staged plan = record {
  tasks = plan.tasks;
  queue = plan.queue;
  running = [];
  crashed = [];
  finished = [];
  succeeded = [];
  failed = [];
  skipped = [];
  executors = ids plan.tasks;
  events = [];
}

-- The end of `start`, for a pipeline that was staged and whose arguments are valid
unfoldable pub start_run : Plan → Result RunError Run
unfolding fetch_ready_tasks
start_run plan = do
  (s, threads) ← fetch_ready_tasks (staged plan)
  ok (start_threads (publish pipeline_active s, threads))

-- What may happen next: a thread ends with a result of any status, or an exception ends it.
pub data Step (s u : Run) : Type 0 where
  finishes :
      (before : List Task) (task : Task) (after : List Task) (status : ℤ)
      → s.running ≡ before ++ (task ∷ after)
      → finish s before task after status ≡ ok u
      → Step s u
  crashes :
      (before : List Task) (task : Task) (after : List Task)
      → s.running ≡ before ++ (task ∷ after)
      → u ≡ record s { running = before ++ after; crashed = task.id ∷ s.crashed }
      → Step s u

-- The states that a run of the plan can reach in a number of steps
pub data Reach (plan : Plan) : ℕ → Run → Type 0 where
  started : {s : Run} → start_run plan ≡ ok s → Reach plan 0 s
  later : {n : ℕ} {s u : Run} → Reach plan n s → Step s u → Reach plan (Prim.Native.Nat.suc n) u
