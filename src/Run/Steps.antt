-- ===== src/Run/Steps.antt =====
-- The steps of a run keep its invariant, and none of them raises.
use mathlib.Core.List.{append-nil}
use tapis_workflows.Base.{
  ℕ, suc, ◌+◌, ◌≤◌, ◌<◌, String, ◌≡◌, ◌≢◌, ◌↔◌, refl, sym, ap, ◌∙◌, subst, true, false, not, ◌&&◌,
  List, [], ◌∷◌, ◌++◌, ok, ok-injective, arith, ◌==◌, nat_eq, string_eq, filter, All, length,
  length-append, count, Bool-cases, inl, inr,
}
use tapis_workflows.Value.{ℤ}
use tapis_workflows.Task.{Task, TaskResult, ids, task_result}
use tapis_workflows.Dependencies.{Plan}
use tapis_workflows.Dependencies.Dependents.{AllKnown}
use tapis_workflows.Run.{
  Run, pipeline_active, pipeline_completed, pipeline_failed, Step, finishes, crashes, Reach,
  started, later, on_task_terminal_state, publish, start_threads, next_tasks, finish, staged,
  start_run, is_positive,
}
use tapis_workflows.Run.Ready.{is_ready, is_waiting, count-ids-append}
use tapis_workflows.Run.Invariant.{
  Inv, end_of_task, publish-Inv, fetch_ready_tasks-Inv, All-filter, published, published-append,
  is_completed, is_failed, All-without, count-parts,
}

-- What a run relies on: `set_tasks` gives it.
pub record IsPlan (plan : Plan) : Type 0 where
  pub distinct : (a : String) → count a (ids plan.tasks) ≤ 1
  pub queued : plan.queue ≡ plan.tasks
  pub known : All (λ t. AllKnown (ids plan.tasks) t.depends_on) plan.tasks
  pub inhabited : 0 < length plan.tasks

-- What the events of a run say about it.
pub record Told (s : Run) : Type 0 where
  pub inhabited : 0 < length s.tasks
  pub completed : (published is_completed s.events ≡ true) ↔ (length s.finished ≡ length s.tasks)
  pub waiting : published is_failed s.events ≡ false → All (λ t. is_waiting s t ≡ true) s.queue

staged-Inv : (plan : Plan) → IsPlan plan → Inv (staged plan)
staged-Inv plan p = record {
  distinct = p.distinct;
  parted = λ a. rw p.queued (omega arith);
  sized = rw p.queued (omega arith);
  outcomes = λ a. omega arith;
  executors = λ a. rw p.queued (omega arith);
  known = rw p.queued p.known;
  drawn = λ P h. rw p.queued h;
  launched = λ _ _. tt;
  waited = tt;
}

pub start_run-Inv :
    (plan : Plan)
    → IsPlan plan
    → (s : Run) × (start_run plan ≡ ok s)
      × Inv s
      × Told s
      × (s.tasks ≡ plan.tasks)
      × (length s.crashed + length s.finished ≡ 0)
unfolding start_run
start_run-Inv plan p =
    let (fetched, inv) = fetch_ready_tasks-Inv (staged-Inv plan p) in
    (
      _,
      rw fetched refl,
      publish-Inv pipeline_active inv,
      record {
        inhabited = p.inhabited;
        completed = (λ e. cc, λ e. absurd (omega (arith, p.inhabited)));
        waiting = λ _. All-filter (is_waiting (staged plan)) plan.queue;
      },
      refl,
      omega arith,
    )

-- `next_tasks` returns, and what it leaves behind.
record Next (u : Run) (end : Run × List Task) : Type 1 where
  inv : Inv (start_threads end)
  told : Told (start_threads end)
  tasks : end.0.tasks ≡ u.tasks
  finished : end.0.finished ≡ u.finished
  crashed : end.0.crashed ≡ u.crashed
  shrinks : (a : String) → count a (ids end.0.queue) ≤ count a (ids u.queue)

no_tasks : (ts : List Task) → length ts ≡ 0 → ts ≡ []
no_tasks [] e = refl
no_tasks (t ∷ ts) e = absurd (omega (arith, e))

nothing_queued : {u : Run} → Inv u → length u.tasks ≡ length u.finished → u.queue ≡ []
nothing_queued {u} inv e = no_tasks u.queue (omega (arith, inv.sized))

nothing_started : (u : Run) → start_threads (u, []) ≡ u
nothing_started u = rw append-nil

next_tasks-Next :
    (t : Task) (r : TaskResult) {u : Run}
    → Inv u
    → 0 < length u.tasks
    → published is_completed u.events ≡ false
    → (end : Run × List Task) × (next_tasks t r u ≡ ok end) × Next u end
unfolding next_tasks
next_tasks-Next t r {u} inv some_task quiet =
    elim (Bool-cases (length u.tasks == length u.finished)) [
      | inl all ↦
          let same : length u.tasks ≡ length u.finished = ground arith in
          let e = nothing_started (publish pipeline_completed u) in
          (
            (publish pipeline_completed u, []),
            rw all refl,
            record {
              inv = rw e (publish-Inv pipeline_completed inv);
              told = rw e (record {
                inhabited = some_task;
                completed = (
                  λ _. sym same,
                  λ _.
                      ground
                        (arith, published-append is_completed u.events (pipeline_completed ∷ [])),
                );
                waiting = λ _. rw (nothing_queued inv same) tt;
              });
              tasks = refl;
              finished = refl;
              crashed = refl;
              shrinks = λ _. omega arith;
            },
          )
      | inr more ↦
          let differ : length u.tasks ≢ length u.finished = λ e. ground arith in
          elim (Bool-cases (is_positive r.status && not t.can_fail)) [
            | inl fails ↦
                let e = nothing_started (publish pipeline_failed u) in
                (
                  (publish pipeline_failed u, []),
                  rw (more, fails) refl,
                  record {
                    inv = rw e (publish-Inv pipeline_failed inv);
                    told = rw e (record {
                      inhabited = some_task;
                      completed = (
                        λ h. absurd (
                            ground (
                              arith,
                              published-append is_completed u.events (pipeline_failed ∷ []),
                            )),
                        λ h. absurd (differ (sym h)),
                      );
                      waiting = λ h. absurd (
                          ground
                            (arith, published-append is_failed u.events (pipeline_failed ∷ [])));
                    });
                    tasks = refl;
                    finished = refl;
                    crashed = refl;
                    shrinks = λ _. omega arith;
                  },
                )
            | inr goes_on ↦
                let (fetched, inv') = fetch_ready_tasks-Inv inv in
                (
                  (record u { queue = filter (is_waiting u) u.queue }, filter (is_ready u) u.queue),
                  rw (more, goes_on) fetched,
                  record {
                    inv = inv';
                    told = record {
                      inhabited = some_task;
                      completed = (λ h. cc, λ h. absurd (differ (sym h)));
                      waiting = λ _. All-filter (is_waiting u) u.queue;
                    };
                    tasks = refl;
                    finished = refl;
                    crashed = refl;
                    shrinks = λ a. omega (arith, count-parts (is_ready u) a u.queue);
                  },
                )
          ]
    ]

-- The end of a thread of a state in which the invariant holds raises nothing, whatever the result.
pub finish-Inv :
    {s : Run} (before : List Task) (t : Task) (after : List Task) (status : ℤ)
    → Inv s
    → Told s
    → s.running ≡ before ++ (t ∷ after)
    → (u : Run) × (finish s before t after status ≡ ok u)
      × Inv u
      × Told u
      × (u.tasks ≡ s.tasks)
      × (u.finished ≡ s.finished ++ (t.id ∷ []))
      × (u.crashed ≡ s.crashed)
      × ((a : String) → count a (ids u.queue) ≤ count a (ids s.queue))
      × (length u.crashed + length u.finished ≡ suc (length s.crashed + length s.finished))
unfolding finish on_task_terminal_state
finish-Inv {s} before t after status inv told split =
    let (u, ended, inv₁, tasks, queue, finished, crashed, events) =
      end_of_task s before t after (task_result status) inv split in
    let runs = ap (λ (l : List Task). length l) split ∙ length-append before (t ∷ after) in
    let not_all : length s.finished ≢ length s.tasks = λ e. omega (arith, inv.sized, runs) in
    let quiet : published is_completed s.events ≡ false =
      elim (Bool-cases (published is_completed s.events)) [
        | inl e ↦ absurd (not_all (told.completed.0 e))
        | inr e ↦ e
      ] in
    let (end, found, next) =
      next_tasks-Next t (task_result status) inv₁ (rw tasks told.inhabited) (events ∙ quiet) in
    (
      start_threads end,
      rw (ended, found) refl,
      next.inv,
      next.told,
      next.tasks ∙ tasks,
      next.finished ∙ finished,
      next.crashed ∙ crashed,
      λ a. omega (arith, next.shrinks a, ap (λ (l : List Task). count a (ids l)) queue),
      rw (next.crashed, next.finished, crashed, finished)
          (omega (arith, length-append s.finished (t.id ∷ []))),
    )

-- A crash keeps the invariant as well: the task of the thread is lost.
crash-Inv :
    {s : Run} (before : List Task) (t : Task) (after : List Task)
    → Inv s
    → s.running ≡ before ++ (t ∷ after)
    → Inv (record s { running = before ++ after; crashed = t.id ∷ s.crashed })
crash-Inv {s} before t after inv split =
    let runs : (a : String)
        → count a (ids s.running) ≡ count a (ids before) + count a (ids (t ∷ after)) =
      λ a. ap (λ l. count a (ids l)) split ∙ count-ids-append a before (t ∷ after) in
    record {
      distinct = inv.distinct;
      parted = λ a. omega (arith, inv.parted a, runs a, count-ids-append a before after);
      sized = omega (
        arith,
        inv.sized,
        ap (λ (l : List Task). length l) split,
        length-append before (t ∷ after),
        length-append before after,
      );
      outcomes = inv.outcomes;
      executors = λ a. omega (arith, inv.executors a, runs a, count-ids-append a before after);
      known = inv.known;
      drawn = inv.drawn;
      launched = λ P h. All-without P before t after (rw split at inv.launched P h);
      waited = All-without (λ t. is_ready s t ≡ true) before t after (rw split at inv.waited);
    }

pub Step-Inv :
    {s u : Run}
    → Inv s
    → Told s
    → Step s u
    → Inv u
      × Told u
      × (u.tasks ≡ s.tasks)
      × (length u.crashed + length u.finished ≡ suc (length s.crashed + length s.finished))
Step-Inv {s} {u} inv told (finishes before t after status split done) =
    let (v, found, inv', told', tasks, _, _, _, moved) =
      finish-Inv before t after status inv told split in
    subst
      (λ (w : Run).
        Inv w
        × Told w
        × (w.tasks ≡ s.tasks)
        × (length w.crashed + length w.finished ≡ suc (length s.crashed + length s.finished)))
      (ok-injective (sym found ∙ done)) (inv', told', tasks, moved)
Step-Inv {s} {u} inv told (crashes before t after split e) = rw e (
  crash-Inv before t after inv split,
  record { inhabited = told.inhabited; completed = told.completed; waiting = told.waiting },
  refl,
  omega arith,
)

pub Reach-Inv :
    (plan : Plan) {n : ℕ} {s : Run}
    → IsPlan plan
    → Reach plan n s
    → Inv s × Told s × (s.tasks ≡ plan.tasks) × (length s.crashed + length s.finished ≡ n)
Reach-Inv plan p (started e) =
    let (u, found, inv, told, tasks, none_yet) = start_run-Inv plan p in
    subst
      (λ (w : Run).
        Inv w × Told w × (w.tasks ≡ plan.tasks) × (length w.crashed + length w.finished ≡ 0))
      (ok-injective (sym found ∙ e)) (inv, told, tasks, none_yet)
Reach-Inv plan p (later r step) =
    let (inv, told, tasks, steps) = Reach-Inv plan p r in
    let (inv', told', tasks', moved) = Step-Inv inv told step in
    (inv', told', tasks' ∙ tasks, omega (arith, moved, steps))
