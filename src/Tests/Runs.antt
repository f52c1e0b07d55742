-- ===== src/Tests/Runs.antt =====
-- A pipeline of two tasks, `build` and then `test`, run to its end; and the graphs of pipelines.
use tapis_workflows.Base.{
  Option, ℕ, ◌+◌, ◌≤◌, ◌<◌, String, ◌≡◌, ◌≢◌, ◌⊎◌, refl, ap, ◌∙◌, Bool, true, false, none, some,
  List, [], ◌∷◌, ok, err, arith, ◌==◌, string_eq, contains, All, length, count, nat_eq,
  if◌then◌else◌, filter,
}
use tapis_workflows.Base.Dict.{lookup}
use tapis_workflows.Value.{pos}
use tapis_workflows.Task.{Dependency, Task, ids}
use tapis_workflows.Expressions.Syntax.{no_conditions}
use tapis_workflows.Graph.{Graph, has_cycle}
use tapis_workflows.Graph.Bounds.{IsClosed, has_cycle_total}
use tapis_workflows.Graph.Shared.{has_cycle_shared}
use tapis_workflows.Dependencies.{
  Plan, set_tasks, dependency_graph, is_initial, missing_initial_tasks, cycle_detected,
}
use tapis_workflows.Dependencies.Flags.{may_fail}
use tapis_workflows.Dependencies.Totality.{flagged, set_tasks_total, set_tasks_flags}
use tapis_workflows.Dependencies.Dependents.{dependents, dependency_graph_lem}
use tapis_workflows.Dependencies.Valid.{UniqueIds, AllValid, SameButFlags, set_tasks_ok}
use tapis_workflows.Run.{
  Run, RunEvent, Reach, started, later, finishes, start_run, finish, pipeline_active,
  pipeline_completed, task_completed,
}
use tapis_workflows.Run.Ready.{deps_finished}
use tapis_workflows.Run.Invariant.{published, is_completed, is_failed}
use tapis_workflows.Run.Progress.{run_order, run_never_raises, run_bound}
use tapis_workflows.Run.Completion.{run_completes}
use tapis_workflows.Notifications.{EventType, TaskInfo, Event}
use tapis_workflows.Notifications.Status.{tells, calls_of_all, delivered, HasLog, completed_told}
use tapis_workflows.Run.Refinement.{Move, waiting, done, board, run_refines}

abbrev task : String → List Dependency → Task
task id deps = record {
  id = id;
  depends_on = deps;
  conditions = no_conditions;
  input = [];
  can_fail = false;
  input_dir = "";
  output_dir = "";
}

abbrev build : Task
build = task "build" []

abbrev test : Task
test = task "test" (record { id = "build"; can_fail = false; can_skip = false } ∷ [])

abbrev two : List Task
two = build ∷ test ∷ []

abbrev two_plan : Plan
two_plan = record { tasks = two; graph = ("build", "test" ∷ []) ∷ ("test", []) ∷ []; queue = two }

two_accepted : set_tasks two ≡ ok two_plan
unfolding set_tasks string_eq
two_accepted = refl

abbrev at_start : Run
at_start = record {
  tasks = two;
  queue = test ∷ [];
  running = build ∷ [];
  crashed = [];
  finished = [];
  succeeded = [];
  failed = [];
  skipped = [];
  executors = "build" ∷ "test" ∷ [];
  events = pipeline_active ∷ [];
}

abbrev after_build : Run
after_build = record at_start {
  queue = [];
  running = test ∷ [];
  finished = "build" ∷ [];
  succeeded = "build" ∷ [];
  executors = "test" ∷ [];
  events = pipeline_active ∷ task_completed "build" ∷ [];
}

abbrev at_end : Run
at_end = record after_build {
  running = [];
  finished = "build" ∷ "test" ∷ [];
  succeeded = "build" ∷ "test" ∷ [];
  executors = [];
  events =
      pipeline_active ∷ task_completed "build" ∷ task_completed "test" ∷ pipeline_completed ∷ [];
}

two_start : start_run two_plan ≡ ok at_start
unfolding start_run string_eq
two_start = refl

first_end : finish at_start [] build [] (pos 0) ≡ ok after_build
unfolding finish string_eq nat_eq
first_end = refl

second_end : finish after_build [] test [] (pos 0) ≡ ok at_end
unfolding finish string_eq nat_eq
second_end = refl

abbrev two_run : Reach two_plan 2 at_end
two_run =
    later (later (started two_start) (finishes [] build [] (pos 0) refl first_end))
      (finishes [] test [] (pos 0) refl second_end)

differ : (◌==◌ {A = String} "build" "test") ≡ false
unfolding string_eq
differ = refl

two_unique : UniqueIds two
two_unique a = ground (arith, differ)

abbrev rank : String → ℕ
rank id = if id == "test" then 1 else 0

rank_test : rank "build" < rank "test"
unfolding string_eq
rank_test = omega arith

two_quiet : published is_completed at_end.events ≡ true
two_quiet = refl

run_completes_example :
    (at_end.queue ≡ [])
    × (length at_end.finished ≡ length two)
    × (published is_completed at_end.events ≡ true)
run_completes_example =
    (run_completes two two_plan rank two_unique two_accepted (tt, ((rank_test, tt), tt)) two_run).0
      refl refl refl

run_order_example :
    ((a : String)
      → (count a (ids at_end.queue)
            + count a (ids at_end.running)
            + count a at_end.crashed
            + count a at_end.finished
          ≡ count a (ids two))
        × (count a at_end.finished
            ≡ count a at_end.succeeded + count a at_end.failed + count a at_end.skipped))
    × All (λ t. deps_finished at_end.finished t.depends_on ≡ true) at_end.running
run_order_example = run_order two two_plan two_unique two_accepted two_run

run_never_raises_example : (u : Run) × (finish at_start [] build [] (pos 1) ≡ ok u)
run_never_raises_example =
    (run_never_raises two two_plan two_unique two_accepted).1 0 at_start (started two_start) []
      build [] (pos 1) refl

run_bound_example :
    (2 ≡ length at_end.finished + length at_end.crashed)
    × (2 + length at_end.queue + length at_end.running ≡ length two)
    × (2 ≤ length two)
run_bound_example = run_bound two two_plan two_unique two_accepted two_run

set_tasks_ok_example :
    AllValid (ids two) two
    × SameButFlags two two_plan.tasks
    × (two_plan.queue ≡ two_plan.tasks)
    × (dependency_graph two ≡ some two_plan.graph)
    × ((seen : List String) × (has_cycle two_plan.graph (ids (build ∷ [])) ≡ ok (false, seen)))
    × ((build ∷ []) ≢ [])
set_tasks_ok_example = set_tasks_ok two two_plan two_accepted

known : All (λ t. All (λ dep. contains (ids two) dep.id ≡ true) t.depends_on) two
unfolding string_eq
known = (tt, ((refl, tt), tt))

dependency_graph_lem_example :
    (g : Graph) × (dependency_graph two ≡ some g)
    × ((p : String) → lookup p g ≡ (if contains (ids two) p then some (dependents p two) else none))
dependency_graph_lem_example = dependency_graph_lem two known

abbrev diamond : Graph
diamond = ("a", "v" ∷ []) ∷ ("b", "v" ∷ []) ∷ ("v", "d" ∷ []) ∷ ("d", []) ∷ []

at_a : lookup "a" diamond ≡ some ("v" ∷ [])
unfolding string_eq
at_a = refl

at_b : lookup "b" diamond ≡ some ("v" ∷ [])
unfolding string_eq
at_b = refl

at_v : lookup "v" diamond ≡ some ("d" ∷ [])
unfolding string_eq
at_v = refl

has_cycle_shared_example : has_cycle diamond ("a" ∷ "b" ∷ []) ≢ ok (false, [])
has_cycle_shared_example = has_cycle_shared diamond "a" "b" "v" "d" [] [] [] [] [] at_a at_b at_v

two_acyclic : has_cycle two_plan.graph ("build" ∷ []) ≡ ok (false, "build:test" ∷ [])
unfolding has_cycle string_eq
two_acyclic = refl

at_build : lookup "build" two_plan.graph ≡ some ("test" ∷ [])
unfolding string_eq
at_build = refl

build_listed : contains {A = String} ("build" ∷ []) "build" ≡ true
unfolding string_eq
build_listed = refl

at_test : lookup "test" two_plan.graph ≡ some []
unfolding string_eq
at_test = refl

two-IsClosed : IsClosed two_plan.graph
two-IsClosed = record {
  listed = λ v d ds e h.
      let same : d ≡ "test" = ground (arith, e, h) in
      ([], ap (λ x. lookup x two_plan.graph) same ∙ at_test);
}

has_cycle_total_example :
    (b : Bool) × (seen : List String) × (has_cycle two_plan.graph ("build" ∷ []) ≡ ok (b, seen))
has_cycle_total_example =
    has_cycle_total two_plan.graph ("build" ∷ []) two-IsClosed (("test" ∷ [], at_build), tt)

set_tasks_total_example :
    (g : Graph) × (dependency_graph two ≡ some g)
    × (((filter is_initial two ≡ []) × (set_tasks two ≡ err missing_initial_tasks))
        ⊎ ((seen : List String) × (has_cycle g (ids (filter is_initial two)) ≡ ok (true, seen))
            × (set_tasks two ≡ err cycle_detected))
        ⊎ ((seen : List String) × (has_cycle g (ids (filter is_initial two)) ≡ ok (false, seen))
            × (set_tasks two
                ≡ ok (record { tasks = flagged two; graph = g; queue = flagged two }))))
set_tasks_total_example = set_tasks_total two two_unique (set_tasks_ok two two_plan two_accepted).0

set_tasks_flags_example : All (λ t. t.can_fail ≡ may_fail t.id two) two_plan.tasks
set_tasks_flags_example = set_tasks_flags two two_plan two_unique two_accepted

run_refines_example :
    Move two (board at_start) (board after_build)
    × (published is_failed at_start.events ≡ false
        → All
            (λ t.
              board at_start t.id ≡ waiting
              → All (λ dep. board at_start dep.id ≡ done) t.depends_on
              → ⊥)
            two)
run_refines_example =
    run_refines two two_plan two_unique two_accepted (started two_start)
      (finishes [] build [] (pos 0) refl first_end)

abbrev files : String → Option (List ℕ)
files path = some []

abbrev as_text : List ℕ → String
as_text bytes = ""

abbrev info : TaskInfo
info = record { id = "build"; execution_uuid = "x"; output_dir = "/out/" }

abbrev about : RunEvent → Event
about e = record {
  type = EventType.pipeline_active;
  run_uuid = "r";
  log_file = "/log";
  tasks = info ∷ [];
  task = info;
  errors = "";
}

log_there : HasLog files as_text as_text about
log_there e = ([], refl)

completed_told_example :
    tells files as_text as_text about "completed"
      (calls_of_all files as_text as_text about (delivered at_end.events))
    ≡ true
unfolding string_eq nat_eq
completed_told_example =
    (completed_told files as_text as_text about two two_plan log_there two_unique two_accepted
        two_run).1
      refl refl
