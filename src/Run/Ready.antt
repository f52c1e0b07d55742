-- ===== src/Run/Ready.antt =====
-- `_fetch_ready_tasks` against its meaning: it parts the queue into the tasks whose dependencies have
-- all finished and the others.
use mathlib.Core.List.{append_assoc}
use tapis_workflows.Base.{
  ◌+◌, ◌≤◌, String, ◌≡◌, refl, ap, Bool, true, not, ◌&&◌, some, List, [], ◌∷◌, ◌++◌, ok, arith,
  contains, string_eq, filter, All, count, count-append, Bool-cases, inl, inr,
}
use tapis_workflows.Task.{Dependency, Task, ids, task_by_id}
use tapis_workflows.Dependencies.Dependents.{AllKnown}
use tapis_workflows.Run.{
  Run, deps_ready, collect_ready, pop_task, remove_from_queue, remove_each, fetch_ready_tasks,
}

-- All dependencies have finished.
abbrev pub deps_finished : List String → List Dependency → Bool
deps_finished finished [] = true
deps_finished finished (dep ∷ deps) = contains finished dep.id && deps_finished finished deps

abbrev pub is_ready : Run → Task → Bool
is_ready s task = deps_finished s.finished task.depends_on

abbrev pub is_waiting : Run → Task → Bool
is_waiting s task = not (is_ready s task)

-- A task that failed has finished.
abbrev pub FailedFinished : Run → Type 0
FailedFinished s = (a : String) → contains s.failed a ≡ true → contains s.finished a ≡ true

task_by_id_known :
    (id : String) (tasks : List Task)
    → contains (ids tasks) id ≡ true
    → (t : Task) × (task_by_id id tasks ≡ some t) × (t.id ≡ id)
task_by_id_known id [] h = cc
task_by_id_known id (t ∷ tasks) h = elim (string_eq.dec t.id id) [
  | yes e ↦ (t, ground arith, e)
  | no n ↦
      let (u, found, same) = task_by_id_known id tasks (ground arith) in (u, ground arith, same)
]

deps_ready_lem :
    (s : Run) (deps : List Dependency)
    → FailedFinished s
    → AllKnown (ids s.tasks) deps
    → deps_ready s deps ≡ ok (deps_finished s.finished deps)
unfolding deps_ready
deps_ready_lem s [] h k = refl
deps_ready_lem s (d ∷ deps) h k =
    let (t, found, same) = task_by_id_known d.id s.tasks k.0 in
    rw (deps_ready, found, same) (ground (arith, deps_ready_lem s deps h k.1, h d.id))

collect_ready_lem :
    (s : Run) (queue : List Task)
    → FailedFinished s
    → All (λ t. AllKnown (ids s.tasks) t.depends_on) queue
    → collect_ready s queue ≡ ok (filter (is_ready s) queue)
unfolding collect_ready
collect_ready_lem s [] h k = refl
collect_ready_lem s (t ∷ queue) h k =
    rw (deps_ready_lem s t.depends_on h k.0, collect_ready_lem s queue h k.1)

pub ids-append : (ts us : List Task) → ids (ts ++ us) ≡ ids ts ++ ids us
ids-append [] us = refl
ids-append (t ∷ ts) us = ap (λ l. t.id ∷ l) (ids-append ts us)

pub count-ids-append :
    (a : String) (ts us : List Task)
    → count a (ids (ts ++ us)) ≡ count a (ids ts) + count a (ids us)
count-ids-append a ts us = rw ids-append (count-append a (ids ts) (ids us))

pop_task_lem :
    (t : Task) (kept queue : List Task)
    → count t.id (ids kept) ≡ 0
    → pop_task t (kept ++ (t ∷ queue)) ≡ some (kept ++ queue)
unfolding pop_task
pop_task_lem t [] queue h = ground arith
pop_task_lem t (k ∷ kept) queue h = ground (arith, pop_task_lem t kept queue)

remove_from_queue_lem :
    (t : Task) (queue queue' : List Task)
    → pop_task t queue ≡ some queue'
    → remove_from_queue t queue ≡ ok queue'
unfolding remove_from_queue
remove_from_queue_lem t [] queue' e = ground arith
remove_from_queue_lem t (x ∷ queue) queue' e = ground arith

abbrev Unique : List Task → Type 0
Unique ts = (a : String) → count a (ids ts) ≤ 1

Unique-head :
    (kept queue : List Task) (t : Task) → Unique (kept ++ (t ∷ queue)) → count t.id (ids kept) ≡ 0
Unique-head kept queue t h = ground (arith, h t.id, count-ids-append t.id kept (t ∷ queue))

Unique-tail :
    (kept queue : List Task) (t : Task) → Unique (kept ++ (t ∷ queue)) → Unique (kept ++ queue)
Unique-tail kept queue t h a =
    ground (arith, h a, count-ids-append a kept (t ∷ queue), count-ids-append a kept queue)

remove_each_lem :
    (p : Task → Bool) (kept queue : List Task)
    → Unique (kept ++ queue)
    → remove_each (filter p queue) (kept ++ queue) ≡ ok (kept ++ filter (λ t. not (p t)) queue)
unfolding remove_each
remove_each_lem p kept [] h = refl
remove_each_lem p kept (t ∷ queue) h = elim (Bool-cases (p t)) [
  | inl e ↦
      rw
        (
          e,
          remove_from_queue_lem t (kept ++ (t ∷ queue)) (kept ++ queue)
              (pop_task_lem t kept queue (Unique-head kept queue t h)),
        )
        (remove_each_lem p kept queue (Unique-tail kept queue t h))
  | inr e ↦
      let ih =
        remove_each_lem p (kept ++ (t ∷ [])) queue
          (λ a. rw (append_assoc kept (t ∷ []) queue) (h a)) in
      rw e (simp append_assoc at ih)
]

-- With unique ids and dependencies that are all tasks of the run, `_fetch_ready_tasks` returns the
-- queued tasks whose dependencies have all finished, and leaves the others in the queue, in order.
pub fetch_ready_tasks_lem :
    (s : Run)
    → FailedFinished s
    → All (λ t. AllKnown (ids s.tasks) t.depends_on) s.queue
    → ((a : String) → count a (ids s.queue) ≤ 1)
    → fetch_ready_tasks s
      ≡ ok (record s { queue = filter (is_waiting s) s.queue }, filter (is_ready s) s.queue)
unfolding fetch_ready_tasks
fetch_ready_tasks_lem s h k u =
    rw (collect_ready_lem s s.queue h k, remove_each_lem (is_ready s) [] s.queue u)
