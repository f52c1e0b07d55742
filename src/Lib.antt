-- ===== src/Lib.antt =====
-- tapis-workflows: a model of the workflow engine and of its API, with proofs.
--
-- The engine runs pipelines of tasks. Its server takes submissions from a queue, gives each one to a
-- workflow executor of a pool and applies the duplicate submission policy; the workflow executor
-- validates the tasks, builds their dependency graph and starts a thread for each task whose
-- dependencies have finished; each thread decides by the skip rule and the conditions of its task
-- whether it stages inputs and calls the task executor, and its end launches the next tasks. Events go
-- through an exchange to subscribers. The API keeps groups, their users and their
-- pipelines, creates the tasks of a pipeline and dispatches its runs to the engine.
--
-- Files, with paths from the root of the repository (engine: src/engine/src, API: src/api/src/backend):
--   Base            shared names, equality, dicts, lists, counting, exceptions as values
--   Graph           engine core/workflows/GraphValidator.py; proofs in Graph/Bounds, Acyclic, Shared
--   Value, ValueFrom, Task    values, their sources (core/workflows/ValueFromService.py with the
--                   repositories under it) and the fields of tasks and results
--   Expressions     engine core/expressions: OperandResolver and ConditionalExpressionEvaluator
--   Dependencies    core/workflows/WorkflowExecutor.py: _set_tasks, _get_initial_tasks
--   Run             the same file: start, _fetch_ready_tasks, _task_is_ready, the callbacks,
--                   _on_task_terminal_state. A run is the relation Reach: the state after a number of
--                   steps, where a step is the end of a thread with any status, or its crash
--   Start           the same file: _start_task, with the call of the task executor as a parameter,
--                   which acts on a world of any type
--   Run/Refinement  a specification that knows only where each task is, and that a run implements
--   State           core/state/ReactiveState.py and Hook.py; the functions of the hooks are an argument
--   Executors       core/tasks/executors/Function.py (execute) and owe_python_sdk/TaskExecutor.py: the
--                   answers of Kubernetes while the executor polls are a list of ticks
--   Notifications   contrib/tapis/middleware/event_handlers/notifications/TapisWorkflowsAPIBackend.py;
--                   in Notifications/Status it gets the events of a run up to the first that resets
--                   the exchange of the executor
--   Schema          owe_python_sdk/schema.py: validators of ids, value sources and image builds
--   Staging         core/tasks/TaskInputFileStagingService.py; the file system is a parameter
--   Params          core/workflows/params_validator.py
--   Pool, Server    core/workers/WorkerPool.py and core/Server.py; Server/Messages and
--                   Server/Settlements for _start_worker, where what the middlewares and the start of
--                   a worker raise is an argument, and so is whether the channel is open;
--                   Server/Keys for _resolve_idempotency_key
--   Events          owe_python_sdk/events/EventExchange.py
--   Api             API services/GroupService.py, views/Groups.py, views/Users.py, models.py
--   Views           API views/Pipelines.py and views/Archives.py
--   Requests        API views/RestrictedAPIView.py (dispatch), services/TapisAPIGateway.py and
--                   helpers/tapis.py; what validates tokens and decodes bodies is a parameter
--   Dispatch        API helpers/PipelineDispatchRequestBuilder.py and utils/parse_directives.py;
--                   Dispatch/Keys composes it with Server/Keys, as the broker does
--   Identities      API views/Identities.py and services/SecretService.py
--   Etl             API views/ETLPipelines.py, post: the tasks that it makes, on a template
--   Container       engine core/ioc/IOCContainer.py
--   Service         API services/Service.py
--   TaskService     API services/TaskService.py: the tables are rows with keys, and a call that leaves
--                   the service gives a key or raises; proofs in TaskService/Growth, Stale, Undo, Restore
--   Records         API views/PipelineRuns.py, TaskExecutions.py, CreateTaskExecution.py,
--                   UpdateTaskExecutionStatus.py, UpdatePipelineRunStatus.py, RunPipeline.py,
--                   ChangePipelineOwner.py, the views of the archives of a pipeline, Tasks.py (get) and
--                   services/PipelineDispatcher.py; what the broker and the builder do is an argument
--   Tests           concrete inputs
--
-- Exceptions are values of the type Result, one error type for each component.
-- GraphValidator.traverse runs on fuel: one more than the number of edges of the graph, and every
-- call that does not end at once marks an edge that was not marked before. So does the text of a
-- number, whose digits are fewer than its fuel. An end of a thread runs without another thread in
-- between: Run does not go through the hooks and the lock of State. In Pool the lock makes check_out
-- one step; check_in takes no lock and is two steps, and Server/Messages takes it without another call
-- in between. There the channel to the broker stays open or closed while a message is handled, and the
-- connection takes the callbacks; a reject over a closed channel raises. The termination of a run, the
-- preparation of directories and loggers, archivers, container builders and the set-up of
-- containers are not modelled: they are input and output. In Events the types of events are named
-- by strings. Of the API the groups, their users, identities, pipelines, archives, tasks, runs
-- and executions are modelled; a database call on groups and runs fails only where a constraint
-- of the model forbids it, and in TaskService it fails where the argument says so; of the
-- validation of bodies only the validators of Schema are modelled.
pub mod Api
pub mod Base
pub mod Container
pub mod Dependencies
pub mod Dispatch
pub mod Etl
pub mod Events
pub mod Executors
pub mod Expressions
pub mod Graph
pub mod Identities
pub mod Notifications
pub mod Params
pub mod Pool
pub mod Records
pub mod Requests
pub mod Run
pub mod Schema
pub mod Server
pub mod Service
pub mod Staging
pub mod Start
pub mod State
pub mod Task
pub mod TaskService
pub mod Tests
pub mod Value
pub mod ValueFrom
pub mod Views
