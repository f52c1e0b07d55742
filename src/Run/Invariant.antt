-- ===== src/Run/Invariant.antt =====
-- What holds in every state of a run: where each task is, and that no dependency was overtaken.
use tapis_workflows.Base.{
  ℕ, ◌+◌, ◌≤◌, ◌<◌, String, ◌≡◌, refl, ap, ◌∙◌, Bool, true, false, not, ◌||◌, some, List, [], ◌∷◌,
  ◌++◌, ok, arith, ◌==◌, contains-append, string_eq, filter, All, All-append, length, length-append,
  count, count-append, count_pos_of_contains, contains_of_count_pos, Bool-cases, inl, inr,
  if◌then◌else◌,
}
use tapis_workflows.Task.{Dependency, Task, TaskResult, ids}
use tapis_workflows.Dependencies.Dependents.{AllKnown}
use tapis_workflows.Run.{
  Run, RunEvent, pipeline_completed, pipeline_failed, task_completed, task_skipped, task_failed,
  callback, remove_executor, deregister_executor, fetch_ready_tasks, publish, start_threads,
}
use tapis_workflows.Run.Ready.{
  deps_finished, is_ready, is_waiting, FailedFinished, fetch_ready_tasks_lem, count-ids-append,
}

pub record Inv (s : Run) : Type 1 where
  -- No two tasks have one id.
  pub distinct : (a : String) → count a (ids s.tasks) ≤ 1
  -- Every task is queued, or runs, or has crashed, or has finished, and only one of these.
  pub parted :
      (a : String)
      → count a (ids s.queue) + count a (ids s.running) + count a s.crashed + count a s.finished
        ≡ count a (ids s.tasks)
  pub sized :
      length s.queue + length s.running + length s.crashed + length s.finished ≡ length s.tasks
  -- Every finished task has succeeded, or has failed, or was skipped, and only one of these.
  pub outcomes :
      (a : String) → count a s.finished ≡ count a s.succeeded + count a s.failed + count a s.skipped
  pub executors :
      (a : String)
      → count a s.executors ≡ count a (ids s.queue) + count a (ids s.running) + count a s.crashed
  pub known : All (λ t. AllKnown (ids s.tasks) t.depends_on) s.queue
  -- The queued tasks are tasks of the run.
  pub drawn : (P : Task → Type 0) → All P s.tasks → All P s.queue
  -- The running tasks are tasks of the run.
  pub launched : (P : Task → Type 0) → All P s.tasks → All P s.running
  -- All dependencies of a running task have finished.
  pub waited : All (λ t. is_ready s t ≡ true) s.running

pub Inv-FailedFinished : {s : Run} → Inv s → FailedFinished s
Inv-FailedFinished {s} inv a h =
    contains_of_count_pos a s.finished
      (omega (arith, inv.outcomes a, count_pos_of_contains a s.failed h))

abbrev one_if : String → String → ℕ
one_if a b = if a == b then 1 else 0

one_if_self : (a : String) → one_if a a ≡ 1
one_if_self a = ground arith

remove_executor_lem :
    (id : String) (keys : List String)
    → 0 < count id keys
    → (keys' : List String) × (remove_executor id keys ≡ some keys')
      × ((a : String) → count a keys' + one_if a id ≡ count a keys)
unfolding remove_executor
remove_executor_lem id [] h = absurd (omega arith)
remove_executor_lem id (k ∷ keys) h = elim (string_eq.dec k id) [
  | yes e ↦ (keys, ground arith, λ a. ground arith)
  | no n ↦
      let (keys', found, same) = remove_executor_lem id keys (ground arith) in
      (k ∷ keys', ground arith, λ a. ground (arith, same a))
]

-- An event that passes the test was published.
abbrev pub published : (RunEvent → Bool) → List RunEvent → Bool
published p [] = false
published p (e ∷ es) = p e || published p es

pub published-append :
    (p : RunEvent → Bool) (es fs : List RunEvent)
    → published p (es ++ fs) ≡ (published p es || published p fs)
published-append p [] fs = refl
published-append p (e ∷ es) fs = ground (arith, published-append p es fs)

abbrev pub is_completed : RunEvent → Bool
is_completed pipeline_completed = true
is_completed _ = false

abbrev pub is_failed : RunEvent → Bool
is_failed pipeline_failed = true
is_failed _ = false

-- What the callback of a task changes.
pub record Ended (s u : Run) (t : Task) : Type 0 where
  pub tasks : u.tasks ≡ s.tasks
  pub queue : u.queue ≡ s.queue
  pub running : u.running ≡ s.running
  pub crashed : u.crashed ≡ s.crashed
  pub executors : u.executors ≡ s.executors
  pub finished : u.finished ≡ s.finished ++ (t.id ∷ [])
  pub outcomes :
      (a : String)
      → count a u.succeeded + count a u.failed + count a u.skipped
        ≡ count a s.succeeded + count a s.failed + count a s.skipped + one_if a t.id
  pub events : published is_completed u.events ≡ published is_completed s.events

callback-Ended : (t : Task) (r : TaskResult) (s : Run) → Ended s (callback t r s) t
unfolding callback
callback-Ended t r s = record {
  tasks = ground arith;
  queue = ground arith;
  running = ground arith;
  crashed = ground arith;
  executors = ground arith;
  finished = ground arith;
  outcomes = λ a. ground (
    arith,
    count-append a s.succeeded (t.id ∷ []),
    count-append a s.failed (t.id ∷ []),
    count-append a s.skipped (t.id ∷ []),
  );
  events = ground (
    arith,
    published-append is_completed s.events (task_completed t.id ∷ []),
    published-append is_completed s.events (task_skipped t.id ∷ []),
    published-append is_completed s.events (task_failed t.id ∷ []),
  );
}

deps_finished-append :
    (finished : List String) (x : String) (deps : List Dependency)
    → deps_finished finished deps ≡ true
    → deps_finished (finished ++ (x ∷ [])) deps ≡ true
deps_finished-append finished x [] h = refl
deps_finished-append finished x (d ∷ deps) h =
    ground (arith, deps_finished-append finished x deps, contains-append finished (x ∷ []) d.id)

pub All-without {ℓ κ} :
    {A : Type ℓ} (P : A → Type κ) (xs : List A) (x : A) (ys : List A)
    → All P (xs ++ (x ∷ ys))
    → All P (xs ++ ys)
All-without P [] x ys h = h.1
All-without P (z ∷ xs) x ys h = (h.0, All-without P xs x ys h.1)

All-finished :
    (finished : List String) (x : String) (ts : List Task)
    → All (λ t. deps_finished finished t.depends_on ≡ true) ts
    → All (λ t. deps_finished (finished ++ (x ∷ [])) t.depends_on ≡ true) ts
All-finished finished x [] h = tt
All-finished finished x (t ∷ ts) h =
    (deps_finished-append finished x t.depends_on h.0, All-finished finished x ts h.1)

-- The callback and the removal of the executor go through, and keep the invariant.
pub end_of_task :
    (s : Run) (before : List Task) (t : Task) (after : List Task) (r : TaskResult)
    → Inv s
    → s.running ≡ before ++ (t ∷ after)
    → (u : Run) × (deregister_executor t (callback t r (record s { running = before ++ after }))
        ≡ ok u)
      × Inv u
      × (u.tasks ≡ s.tasks)
      × (u.queue ≡ s.queue)
      × (u.finished ≡ s.finished ++ (t.id ∷ []))
      × (u.crashed ≡ s.crashed)
      × (published is_completed u.events ≡ published is_completed s.events)
unfolding deregister_executor
end_of_task s before t after r inv split =
    let s₁ : Run = record s { running = before ++ after } in
    let v = callback t r s₁ in
    let m = callback-Ended t r s₁ in
    let runs : (a : String)
        → count a (ids s.running) ≡ count a (ids before) + (one_if a t.id + count a (ids after)) =
      λ a. ap (λ l. count a (ids l)) split ∙ count-ids-append a before (t ∷ after) in
    let (keys, found, less) =
      remove_executor_lem t.id v.executors
        (rw m.executors (omega (arith, inv.executors t.id, runs t.id, one_if_self t.id))) in
    (
      record v { executors = keys },
      rw (found, deregister_executor),
      record {
        distinct = rw m.tasks inv.distinct;
        parted = λ a.
            rw (m.tasks, m.queue, m.running, m.crashed, m.finished)
              (omega (
                arith,
                inv.parted a,
                runs a,
                count-ids-append a before after,
                count-append a s.finished (t.id ∷ []),
              ));
        sized =
            rw (m.tasks, m.queue, m.running, m.crashed, m.finished)
              (omega (
                arith,
                inv.sized,
                ap (λ (l : List Task). length l) split,
                length-append before (t ∷ after),
                length-append before after,
                length-append s.finished (t.id ∷ []),
              ));
        outcomes = λ a.
            rw m.finished
              (omega (arith, inv.outcomes a, m.outcomes a, count-append a s.finished (t.id ∷ [])));
        executors = λ a.
            rw (m.queue, m.running, m.crashed)
              (omega (
                arith,
                less a,
                ap (λ l. count a l) m.executors,
                inv.executors a,
                runs a,
                count-ids-append a before after,
              ));
        known = rw (m.tasks, m.queue) inv.known;
        drawn = rw (m.tasks, m.queue) inv.drawn;
        launched = λ P h.
            rw m.running
              (All-without P before t after (rw split at inv.launched P (rw m.tasks at h)));
        waited =
            rw (m.running, m.finished)
              (All-finished s.finished t.id (before ++ after)
                (All-without (λ t. is_ready s t ≡ true) before t after (rw split at inv.waited)));
      },
      m.tasks,
      m.queue,
      m.finished,
      m.crashed,
      m.events,
    )

-- Publishing an event keeps the invariant.
pub publish-Inv : (e : RunEvent) {s : Run} → Inv s → Inv (publish e s)
publish-Inv e inv = record {
  distinct = inv.distinct;
  parted = inv.parted;
  sized = inv.sized;
  outcomes = inv.outcomes;
  executors = inv.executors;
  known = inv.known;
  drawn = inv.drawn;
  launched = inv.launched;
  waited = inv.waited;
}

module _ (p : Task → Bool) where
  pub count-parts :
      (a : String) (ts : List Task)
      → count a (ids (filter (λ t. not (p t)) ts)) + count a (ids (filter p ts)) ≡ count a (ids ts)
  count-parts a [] = omega arith
  count-parts a (t ∷ ts) = ground (arith, count-parts a ts)

  pub length-parts :
      (ts : List Task) → length (filter (λ t. not (p t)) ts) + length (filter p ts) ≡ length ts
  length-parts [] = omega arith
  length-parts (t ∷ ts) = ground (arith, length-parts ts)

  pub All-filter : (ts : List Task) → All (λ t. p t ≡ true) (filter p ts)
  All-filter [] = tt
  All-filter (t ∷ ts) = elim (Bool-cases (p t)) [
    | inl e ↦ rw e (e, All-filter ts)
    | inr e ↦ rw e (All-filter ts)
  ]

  pub All-of-filter {κ} : (P : Task → Type κ) (ts : List Task) → All P ts → All P (filter p ts)
  All-of-filter P [] h = tt
  All-of-filter P (t ∷ ts) h = elim (Bool-cases (p t)) [
    | inl e ↦ rw e (h.0, All-of-filter P ts h.1)
    | inr e ↦ rw e (All-of-filter P ts h.1)
  ]

-- `_fetch_ready_tasks` raises nothing, and keeps the invariant when the threads are started.
pub fetch_ready_tasks-Inv :
    {s : Run}
    → Inv s
    → let u : Run = record s { queue = filter (is_waiting s) s.queue } in
      let threads : List Task = filter (is_ready s) s.queue in
      (fetch_ready_tasks s ≡ ok (u, threads)) × Inv (start_threads (u, threads))
fetch_ready_tasks-Inv {s} inv = (
  fetch_ready_tasks_lem s (Inv-FailedFinished inv) inv.known
      (λ a. omega (arith, inv.parted a, inv.distinct a)),
  record {
    distinct = inv.distinct;
    parted = λ a. omega (
      arith,
      inv.parted a,
      count-parts (is_ready s) a s.queue,
      count-ids-append a s.running (filter (is_ready s) s.queue),
    );
    sized = omega (
      arith,
      inv.sized,
      length-parts (is_ready s) s.queue,
      length-append s.running (filter (is_ready s) s.queue),
    );
    outcomes = inv.outcomes;
    executors = λ a. omega (
      arith,
      inv.executors a,
      count-parts (is_ready s) a s.queue,
      count-ids-append a s.running (filter (is_ready s) s.queue),
    );
    known =
        All-of-filter (is_waiting s) (λ t. AllKnown (ids s.tasks) t.depends_on) s.queue inv.known;
    drawn = λ P h. All-of-filter (is_waiting s) P s.queue (inv.drawn P h);
    launched = λ P h.
        All-append P s.running (filter (is_ready s) s.queue) (inv.launched P h)
          (All-of-filter (is_ready s) P s.queue (inv.drawn P h));
    waited =
        All-append (λ t. is_ready s t ≡ true) s.running (filter (is_ready s) s.queue) inv.waited
          (All-filter (is_ready s) s.queue);
  },
)
