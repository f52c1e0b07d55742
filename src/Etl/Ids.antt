-- ===== src/Etl/Ids.antt =====
-- The ids of the tasks of an ETL pipeline.
use tapis_workflows.Base.{
  ℕ, suc, ◌+◌, ◌≤◌, String, ◌≡◌, ◌≢◌, ◌⊎◌, inl, inr, refl, sym, ap, ◌∙◌, true, false, some, List,
  [], ◌∷◌, ◌++◌, arith, ◌==◌, string_eq, contains, All, All-append, count, count-append,
  count_zero_of_absent, Bool-cases,
}
use tapis_workflows.Task.{Task, Dependency, ids}
use tapis_workflows.Dependencies.Valid.{UniqueIds, AllValid}
use tapis_workflows.Etl.{
  inbound_status_reduce, job_id, job_task, job_tasks, add_job, add_jobs, update_reduce,
}
use tapis_workflows.Etl.Ranks.{IsNotJob, IsNotJob-suc, job-IsNotJob}

-- The dependency on a job
abbrev pub on_job : Task → Dependency
on_job job = record { id = job.id; can_fail = true; can_skip = false }

pub add_jobs-id : (jobs : List Task) (task : Task) → (add_jobs jobs task).id ≡ task.id
unfolding add_jobs add_job
add_jobs-id [] task = refl
add_jobs-id (job ∷ jobs) task = add_jobs-id jobs (add_job job task)

pub add_jobs-All :
    (P : Dependency → Type 0) (jobs : List Task) (task : Task)
    → All P task.depends_on
    → All (λ job. P (on_job job)) jobs
    → All P (add_jobs jobs task).depends_on
unfolding add_jobs add_job
add_jobs-All P [] task h k = h
add_jobs-All P (job ∷ jobs) task h k =
    add_jobs-All P jobs (add_job job task)
      (All-append P task.depends_on (on_job job ∷ []) h (k.0, tt)) k.1

-- `update_reduce` finds its task, keeps the ids, and changes that task only.
pub update_reduce_lem :
    (jobs tasks : List Task)
    → contains (ids tasks) inbound_status_reduce ≡ true
    → (tasks' : List Task) × (update_reduce jobs tasks ≡ some tasks')
      × (ids tasks' ≡ ids tasks)
      × ((P : Task → Type 0)
          → All P tasks
          → ((task : Task) → task.id ≡ inbound_status_reduce → P task → P (add_jobs jobs task))
          → All P tasks')
unfolding update_reduce
update_reduce_lem jobs [] there = cc
update_reduce_lem jobs (task ∷ tasks) there = elim (Bool-cases (task.id == inbound_status_reduce)) [
  | inl yes_ ↦ (
    add_jobs jobs task ∷ tasks,
    rw (update_reduce, yes_) refl,
    ap (λ x. x ∷ ids tasks) (add_jobs-id jobs task),
    λ P h change. (change task (ground arith) h.0, h.1),
  )
  | inr no_ ↦
      let (tasks', made, same, keep) = update_reduce_lem jobs tasks (ground arith) in
      (
        task ∷ tasks',
        rw (update_reduce, no_, made) refl,
        ap (λ xs. task.id ∷ xs) same,
        λ P h change. (h.0, keep P h.1 change),
      )
]

-- The ids of the jobs are those from the number `i` on, each of them once.
count_jobs :
    {A : Type 0} (jobs : List A) (i : ℕ) (last a : String)
    → (count a (ids (job_tasks i last jobs)) ≡ 0)
      ⊎ ((count a (ids (job_tasks i last jobs)) ≡ 1) × ((k : ℕ) × (i ≤ k) × (a ≡ job_id k)))
unfolding job_tasks job_task
count_jobs [] i last a = inl refl
count_jobs (job ∷ jobs) i last a = elim (count_jobs jobs (suc i) (job_id i) a) [
  | inr (one, (k, le, same)) ↦ inr (
    let apart : a ≢ job_id i = λ e. job-IsNotJob i k le (sym e ∙ same) in
        ground (arith, one, apart),
    (k, omega arith, same),
  )
  | inl none_ ↦ elim (Bool-cases (a == job_id i)) [
    | inr other ↦ inl (ground (arith, none_, other))
    | inl this ↦ inr (ground (arith, none_, this), (i, omega arith, ground arith))
  ]
]

-- The tasks of the template do not have the ids of jobs.
abbrev pub NoJobs : List Task → Type 0
NoJobs template = (a : String) → contains (ids template) a ≡ true → IsNotJob 1 a

pub ids-append : (ts us : List Task) → ids (ts ++ us) ≡ ids ts ++ ids us
ids-append [] us = refl
ids-append (t ∷ ts) us = ap (λ xs. t.id ∷ xs) (ids-append ts us)

pub jobs-UniqueIds :
    {A : Type 0} (jobs : List A) (last : String) (template : List Task)
    → UniqueIds template
    → NoJobs template
    → UniqueIds (job_tasks 1 last jobs ++ template)
jobs-UniqueIds jobs last template unique apart a =
    let made = job_tasks 1 last jobs in
    let total : count a (ids (made ++ template)) ≡ count a (ids made) + count a (ids template) =
      ap (λ xs. count a xs) (ids-append made template) ∙ count-append a (ids made) (ids template) in
    elim (count_jobs jobs 1 last a) [
      | inl none_ ↦ omega (arith, total, none_, unique a)
      | inr (one, (k, le, same)) ↦ elim (Bool-cases (contains (ids template) a)) [
        | inl there ↦ absurd (apart a there k le same)
        | inr absent ↦ omega (arith, total, one, count_zero_of_absent a (ids template) absent)
      ]
    ]

-- A job depends on what comes before it only.
pub jobs-AllValid :
    {A : Type 0} (jobs : List A) (i : ℕ) (last : String) (known : List String)
    → IsNotJob i last
    → contains known last ≡ true
    → All (λ (t : Task). contains known t.id ≡ true) (job_tasks i last jobs)
    → AllValid known (job_tasks i last jobs)
unfolding job_tasks job_task
jobs-AllValid [] i last known apart there h = tt
jobs-AllValid (job ∷ jobs) i last known apart there h = (
  ((apart i (omega arith), there), tt),
  jobs-AllValid jobs (suc i) (job_id i) known (job-IsNotJob i) h.0 h.1,
)

pub jobs_apart :
    {A : Type 0} (jobs : List A) (i : ℕ) (last a : String)
    → IsNotJob i a
    → All (λ (t : Task). t.id ≢ a) (job_tasks i last jobs)
unfolding job_tasks job_task
jobs_apart [] i last a h = tt
jobs_apart (job ∷ jobs) i last a h =
    (λ e. h i (omega arith) (sym e), jobs_apart jobs (suc i) (job_id i) a (IsNotJob-suc i a h))
