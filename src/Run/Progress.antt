-- ===== src/Run/Progress.antt =====
-- What a run of a validated pipeline does as a whole: its order, its length and its end.
use tapis_workflows.Base.{
  ℕ, suc, ◌+◌, ◌≤◌, ◌<◌, String, ◌≡◌, ◌≢◌, refl, ap, ◌∙◌, subst, true, List, [], ◌∷◌, ◌++◌, ok,
  arith, string_eq, filter, All, All-map, length, count,
}
use tapis_workflows.Value.{ℤ}
use tapis_workflows.Task.{Task, ids}
use tapis_workflows.Dependencies.{Plan, is_initial, set_tasks}
use tapis_workflows.Dependencies.Valid.{
  AllValid, SameButFlags, UniqueIds, SameButFlags-ids, set_tasks_ok,
}
use tapis_workflows.Dependencies.Dependents.{AllKnown}
use tapis_workflows.Run.{Run, Reach, finish, start_run}
use tapis_workflows.Run.Ready.{deps_finished}
use tapis_workflows.Run.Steps.{IsPlan, start_run-Inv, finish-Inv, Reach-Inv}

SameButFlags-known :
    (known : List String) (ts us : List Task)
    → SameButFlags ts us
    → AllValid known ts
    → All (λ t. AllKnown known t.depends_on) us
SameButFlags-known known [] [] h v = tt
SameButFlags-known known [] (u ∷ us) h v = absurd h
SameButFlags-known known (t ∷ ts) [] h v = absurd h
SameButFlags-known known (t ∷ ts) (u ∷ us) h v = (
  subst (λ deps. AllKnown known deps) (ap (λ (x : Task). x.depends_on) h.0)
      (All-map t.depends_on (λ _ ok_dep. ok_dep.1) v.0),
  SameButFlags-known known ts us h.1 v.1,
)

some_initial : (tasks : List Task) → filter is_initial tasks ≢ [] → 0 < length tasks
some_initial [] h = absurd (h refl)
some_initial (t ∷ tasks) h = omega arith

-- What `_set_tasks` leaves in the state is what a run relies on, if no two tasks have one id.
pub set_tasks-IsPlan :
    (tasks : List Task) (plan : Plan) → UniqueIds tasks → set_tasks tasks ≡ ok plan → IsPlan plan
set_tasks-IsPlan tasks plan unique e =
    let (valid, same, queued, built, acyclic, initial) = set_tasks_ok tasks plan e in
    let same_ids = SameButFlags-ids tasks plan.tasks same in
    record {
      distinct = rw same_ids unique;
      queued = queued;
      known = rw same_ids (SameButFlags-known (ids tasks) tasks plan.tasks same valid);
      inhabited = some_initial plan.tasks initial;
    }

-- In a pipeline that `_set_tasks` accepts, with unique ids: whatever the threads do, each task stands at
-- every moment in exactly one of the queue, the running tasks, the crashed ones and the finished ones;
-- each finished task is in exactly one of the lists of the succeeded, the failed and the skipped; and
-- the dependencies of every running task have all finished.
pub run_order :
    (tasks : List Task) (plan : Plan) {n : ℕ} {s : Run}
    → UniqueIds tasks
    → set_tasks tasks ≡ ok plan
    → Reach plan n s
    → ((a : String)
        → (count a (ids s.queue) + count a (ids s.running) + count a s.crashed + count a s.finished
            ≡ count a (ids tasks))
          × (count a s.finished ≡ count a s.succeeded + count a s.failed + count a s.skipped))
      × All (λ t. deps_finished s.finished t.depends_on ≡ true) s.running
run_order tasks plan unique e r =
    let same = (set_tasks_ok tasks plan e).1 in
    let (inv, _, kept, _) = Reach-Inv plan (set_tasks-IsPlan tasks plan unique e) r in
    (
      λ a. (
        inv.parted a
            ∙ ap (λ (l : List Task). count a (ids l)) kept
            ∙ ap (λ l. count a l) (SameButFlags-ids tasks plan.tasks same),
        inv.outcomes a,
      ),
      inv.waited,
    )

-- A run of such a pipeline starts without an exception, and in every state that it reaches each of its
-- threads can end with any status: the callback, the removal of the executor and the launch of the
-- next tasks raise nothing.
pub run_never_raises :
    (tasks : List Task) (plan : Plan)
    → UniqueIds tasks
    → set_tasks tasks ≡ ok plan
    → ((s : Run) × (start_run plan ≡ ok s))
      × ((n : ℕ) (s : Run)
          → Reach plan n s
          → (before : List Task) (t : Task) (after : List Task) (status : ℤ)
          → s.running ≡ before ++ (t ∷ after)
          → (u : Run) × (finish s before t after status ≡ ok u))
run_never_raises tasks plan unique e =
    let p = set_tasks-IsPlan tasks plan unique e in
    let first = start_run-Inv plan p in
    (
      (first.0, first.1),
      λ n s r before t after status split.
          let (inv, told, _, _) = Reach-Inv plan p r in
          let end = finish-Inv before t after status inv told split in (end.0, end.1),
    )

pub SameButFlags-length : (ts us : List Task) → SameButFlags ts us → length us ≡ length ts
SameButFlags-length [] [] h = refl
SameButFlags-length [] (u ∷ us) h = absurd h
SameButFlags-length (t ∷ ts) [] h = absurd h
SameButFlags-length (t ∷ ts) (u ∷ us) h = ap suc (SameButFlags-length ts us h.1)

-- After `n` steps of a run, `n` tasks have finished or crashed, and the others are queued or run: a run
-- makes at most as many steps as the pipeline has tasks.
pub run_bound :
    (tasks : List Task) (plan : Plan) {n : ℕ} {s : Run}
    → UniqueIds tasks
    → set_tasks tasks ≡ ok plan
    → Reach plan n s
    → (n ≡ length s.finished + length s.crashed)
      × (n + length s.queue + length s.running ≡ length tasks)
      × (n ≤ length tasks)
run_bound tasks plan {s = s} unique e r =
    let same = (set_tasks_ok tasks plan e).1 in
    let (inv, _, kept, steps) = Reach-Inv plan (set_tasks-IsPlan tasks plan unique e) r in
    let total = ap (λ (l : List Task). length l) kept ∙ SameButFlags-length tasks plan.tasks same in
    (
      omega (arith, steps),
      omega (arith, steps, inv.sized, total),
      omega (arith, steps, inv.sized, total),
    )
