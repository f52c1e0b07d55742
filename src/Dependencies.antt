-- ===== src/Dependencies.antt =====
-- core/workflows/WorkflowExecutor.py, `_set_tasks` and `_get_initial_tasks`: the tasks of a pipeline
-- are validated, and become the dependency graph and the queue of a run.
pub mod Dependents
pub mod Valid
pub mod Flags
pub mod Keys
pub mod Totality
use tapis_workflows.Base.{
  String, Bool, true, false, not, Option, none, some, List, [], ◌∷◌, ◌++◌, Result, ok, err, ◌>>=◌,
  ◌==◌, contains, string_eq, filter, find?, all, if◌then◌else◌,
}
use tapis_workflows.Base.Dict.{lookup, insert, keys}
use tapis_workflows.Graph.{Graph, Fault, has_cycle}
use tapis_workflows.Task.{Dependency, Task, ids, task_by_id}

-- An entry of the message that `_set_tasks` builds.
pub data InvalidDependency : Type 0 where
  on_itself : (task : String) → InvalidDependency
  on_missing : (task dep : String) → InvalidDependency

pub data SetTasksError : Type 0 where
  invalid_dependencies : List InvalidDependency → SetTasksError
  -- `KeyError` while the graph is built
  no_parent : SetTasksError
  -- "Error resolving can_fail flag for parent task"
  no_flag : SetTasksError
  missing_initial_tasks : SetTasksError
  cycle_detected : SetTasksError
  validator_fault : Fault → SetTasksError

-- What `_set_tasks` leaves in the state.
pub record Plan : Type 0 where
  pub tasks : List Task
  pub graph : Graph
  pub queue : List Task

-- The body of the two nested loops, for one dependency.
abbrev invalid_dep : List String → Task → Dependency → List InvalidDependency
invalid_dep task_ids task dep =
    (if dep.id == task.id then on_itself task.id ∷ [] else [])
    ++ (if contains task_ids dep.id then [] else on_missing task.id dep.id ∷ [])

unfoldable pub invalid_deps_of : List String → Task → List Dependency → List InvalidDependency
invalid_deps_of task_ids task [] = []
invalid_deps_of task_ids task (dep ∷ deps) =
    invalid_dep task_ids task dep ++ invalid_deps_of task_ids task deps

unfoldable pub invalid_deps : List String → List Task → List InvalidDependency
unfolding invalid_deps_of
invalid_deps task_ids [] = []
invalid_deps task_ids (task ∷ tasks) =
    invalid_deps_of task_ids task task.depends_on ++ invalid_deps task_ids tasks

-- `{task.id: [] for task in tasks}`, onto a dict
unfoldable pub empty_graph : List Task → Graph → Graph
empty_graph [] g = g
empty_graph (task ∷ tasks) g = empty_graph tasks (insert task.id [] g)

-- `graph[parent_task.id].append(task.id)`; `none` is the `KeyError`.
unfoldable pub push_dependent : String → String → Graph → Option Graph
push_dependent parent child g = elim (lookup parent g) [
  | none ↦ none
  | some dependents ↦ some (insert parent (dependents ++ (child ∷ [])) g)
]

unfoldable pub push_parents : String → List Dependency → Graph → Option Graph
unfolding push_dependent
push_parents child [] g = some g
push_parents child (parent ∷ parents) g = elim (push_dependent parent.id child g) [
  | none ↦ none
  | some g' ↦ push_parents child parents g'
]

unfoldable pub push_tasks : List Task → Graph → Option Graph
unfolding push_parents
push_tasks [] g = some g
push_tasks (task ∷ tasks) g = elim (push_parents task.id task.depends_on g) [
  | none ↦ none
  | some g' ↦ push_tasks tasks g'
]

unfoldable pub dependency_graph : List Task → Option Graph
unfolding empty_graph push_tasks
dependency_graph tasks = push_tasks tasks (empty_graph tasks [])

-- `next(filter(lambda dep: dep.id == parent_task_id, child_task.depends_on)).can_fail`, for the child
-- task with the id `child`
unfoldable pub child_flag : List Task → String → String → Option Bool
child_flag tasks parent child = elim (task_by_id child tasks) [
  | none ↦ none
  | some task ↦ elim (find? (λ dep. dep.id == parent) task.depends_on) [
    | none ↦ none
    | some dep ↦ some dep.can_fail
  ]
]

unfoldable pub child_flags : List Task → String → List String → Option (List Bool)
unfolding child_flag
child_flags tasks parent [] = some []
child_flags tasks parent (child ∷ children) = elim (child_flag tasks parent child) [
  | none ↦ none
  | some flag ↦ elim (child_flags tasks parent children) [
    | none ↦ none
    | some flags ↦ some (flag ∷ flags)
  ]
]

-- `False if len(parent_can_fail_flags) == 0 else all(parent_can_fail_flags)`
unfoldable pub can_fail_of : List Bool → Bool
unfolding all
can_fail_of [] = false
can_fail_of (flag ∷ flags) = all (flag ∷ flags)

-- `parent_task.can_fail = ...`, on the task that `_get_task_by_id` finds
unfoldable pub set_can_fail : String → Bool → List Task → List Task
set_can_fail id flag [] = []
set_can_fail id flag (task ∷ tasks) =
    let rest = set_can_fail id flag tasks in
    if task.id == id then record task { can_fail = flag } ∷ tasks else task ∷ rest

-- The loop over the dependency graph
unfoldable pub set_flags : Graph → List Task → Option (List Task)
unfolding child_flags can_fail_of set_can_fail
set_flags [] tasks = some tasks
set_flags ((parent, children) ∷ g) tasks = elim (child_flags tasks parent children) [
  | none ↦ none
  | some flags ↦ set_flags g (set_can_fail parent (can_fail_of flags) tasks)
]

abbrev pub is_initial : Task → Bool
is_initial task = elim task.depends_on [ [] ↦ true | _ ↦ false ]

-- `_get_initial_tasks` raises if there is none.
unfoldable pub get_initial_tasks : List Task → Result SetTasksError (List Task)
get_initial_tasks tasks = elim (filter is_initial tasks) [
  | [] ↦ err missing_initial_tasks
  | t ∷ ts ↦ ok (t ∷ ts)
]

abbrev or_raise {ℓ} : {A : Type ℓ} → SetTasksError → Option A → Result SetTasksError A
or_raise e none = err e
or_raise e (some a) = ok a

abbrev require_valid : List InvalidDependency → Result SetTasksError (Unit {0})
require_valid [] = ok tt
require_valid (d ∷ ds) = err (invalid_dependencies (d ∷ ds))

abbrev require_acyclic : Graph → List Task → Result SetTasksError (Unit {0})
require_acyclic g initial_tasks = elim (has_cycle g (ids initial_tasks)) [
  | err e ↦ err (validator_fault e)
  | ok (found, _) ↦ if found then err cycle_detected else ok tt
]

-- `_set_tasks`. Where it raises, the queue of the run stays empty.
unfoldable pub set_tasks : List Task → Result SetTasksError Plan
unfolding invalid_deps dependency_graph set_flags get_initial_tasks has_cycle
set_tasks tasks = do
  valid ← require_valid (invalid_deps (ids tasks) tasks)
  g ← or_raise no_parent (dependency_graph tasks)
  tasks' ← or_raise no_flag (set_flags g tasks)
  initial_tasks ← get_initial_tasks tasks'
  acyclic ← require_acyclic g initial_tasks
  ok (record { tasks = tasks'; graph = g; queue = tasks' })
