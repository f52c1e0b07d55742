-- ===== src/Etl/Tasks.antt =====
-- The pipeline that `post` makes is one that the engine can run.
use tapis_workflows.Base.{
  ℕ, ◌<◌, String, ◌≡◌, ◌≢◌, sym, ap, ◌∙◌, true, false, Option, some, List, [], ◌∷◌, ◌++◌, arith,
  string_eq, contains, contains-append, All, All-append, length, ok, All-map,
}
use tapis_workflows.Task.{Task, Dependency, ids}
use tapis_workflows.Dependencies.Valid.{UniqueIds, IsValidDep, AllValid}
use tapis_workflows.Dependencies.{Plan, set_tasks}
use tapis_workflows.Run.{Run, Reach}
use tapis_workflows.Run.Invariant.{published, is_completed, is_failed}
use tapis_workflows.Run.Completion.{IsRank, run_completes}
use tapis_workflows.Etl.{
  gen_inbound_manifests, inbound_status_reduce, job_tasks, add_jobs, etl_tasks,
}
use tapis_workflows.Etl.Ids.{
  add_jobs-id, jobs_apart, add_jobs-All, update_reduce_lem, NoJobs, ids-append, jobs-UniqueIds,
  jobs-AllValid,
}
use tapis_workflows.Etl.Ranks.{IsNotJob, chain}

-- The template is a pipeline without a cycle that has the two tasks between which the jobs go, and has
-- them in that order.
pub record IsTemplate (rank : String → ℕ) (template : List Task) : Type 0 where
  pub unique : UniqueIds template
  pub valid : AllValid (ids template) template
  pub ranked : IsRank rank template
  pub no_jobs : NoJobs template
  pub has_first : contains (ids template) gen_inbound_manifests ≡ true
  pub has_last : contains (ids template) inbound_status_reduce ≡ true
  pub in_order : rank gen_inbound_manifests < rank inbound_status_reduce

All-zip :
    {A : Type 0} (P Q : A → Type 0) (xs : List A) → All P xs → All Q xs → All (λ x. P x × Q x) xs
All-zip P Q [] h k = tt
All-zip P Q (x ∷ xs) h k = ((h.0, k.0), All-zip P Q xs h.1 k.1)

own_ids : (ts : List Task) → All (λ t. contains (ids ts) t.id ≡ true) ts
own_ids [] = tt
own_ids (t ∷ ts) = (ground arith, All-map ts (λ u h. ground (arith, h)) (own_ids ts))

-- The order of the template under the new ranks
template-IsRank :
    (rank rank' : String → ℕ) (template : List Task)
    → IsTemplate rank template
    → ((a b : String) → IsNotJob 1 a → IsNotJob 1 b → rank a < rank b → rank' a < rank' b)
    → IsRank rank' template
template-IsRank rank rank' template t mono =
    All-map template
      (λ task h.
        All-map task.depends_on
          (λ dep k. mono dep.id task.id (t.no_jobs dep.id k.0.1) (t.no_jobs task.id h.1) k.1)
          (All-zip (IsValidDep (ids template) task) (λ dep. rank dep.id < rank task.id)
            task.depends_on h.0.0 h.0.1))
      (All-zip
        (λ task.
          All (IsValidDep (ids template) task) task.depends_on
          × All (λ (dep : Dependency). rank dep.id < rank task.id) task.depends_on)
        (λ task. contains (ids template) task.id ≡ true) template
        (All-zip (λ task. All (IsValidDep (ids template) task) task.depends_on)
          (λ task. All (λ (dep : Dependency). rank dep.id < rank task.id) task.depends_on) template
          t.valid t.ranked)
        (own_ids template))

-- Ids of the template are ids of the pipeline, and so are those of the jobs.
known_left :
    (ts us : List Task) (a : String)
    → contains (ids ts) a ≡ true
    → contains (ids (ts ++ us)) a ≡ true
known_left ts us a h =
    ap (λ xs. contains xs a) (ids-append ts us)
    ∙ contains-append (ids ts) (ids us) a
    ∙ ground (arith, h)

known_right :
    (ts us : List Task) (a : String)
    → contains (ids us) a ≡ true
    → contains (ids (ts ++ us)) a ≡ true
known_right ts us a h =
    ap (λ xs. contains xs a) (ids-append ts us)
    ∙ contains-append (ids ts) (ids us) a
    ∙ ground (arith, h)

module _ {A : Type 0} (jobs : List A) (rank : String → ℕ) (template : List Task)
    (t : IsTemplate rank template) where
  abbrev made : List Task
  made = job_tasks 1 gen_inbound_manifests jobs

  abbrev all_ids : List String
  all_ids = ids (made ++ template)

  jobs_known : All (λ (job : Task). contains all_ids job.id ≡ true) made
  jobs_known = All-map made (λ job h. known_left made template job.id h) (own_ids made)

  tasks-AllValid : AllValid all_ids (made ++ template)
  tasks-AllValid =
      All-append (λ task. All (IsValidDep all_ids task) task.depends_on) made template
        (jobs-AllValid jobs 1 gen_inbound_manifests all_ids
          (t.no_jobs gen_inbound_manifests t.has_first)
          (known_right made template gen_inbound_manifests t.has_first) jobs_known)
        (All-map template
          (λ task h.
            All-map task.depends_on (λ dep k. (k.0, known_right made template dep.id k.1)) h)
          t.valid)

  -- The dependencies that the task `inbound-status-reduce` gets
  reduce-AllValid :
      (task : Task)
      → task.id ≡ inbound_status_reduce
      → All (IsValidDep all_ids task) task.depends_on
      → All (IsValidDep all_ids (add_jobs made task)) (add_jobs made task).depends_on
  reduce-AllValid task named h =
      let same : (add_jobs made task).id ≡ inbound_status_reduce = add_jobs-id made task ∙ named in
      let apart =
        jobs_apart jobs 1 gen_inbound_manifests inbound_status_reduce
          (t.no_jobs inbound_status_reduce t.has_last) in
      add_jobs-All (IsValidDep all_ids (add_jobs made task)) made task
        (All-map task.depends_on (λ dep k. ((λ e. k.0 (e ∙ same ∙ sym named)), k.1)) h)
        (All-map made (λ job k. ((λ e. k.0 (e ∙ same)), k.1))
          (All-zip (λ (job : Task). job.id ≢ inbound_status_reduce)
            (λ (job : Task). contains all_ids job.id ≡ true) made apart jobs_known))

  reduce-IsRank :
      (rank' : String → ℕ) (task : Task)
      → All (λ (job : Task). rank' job.id < rank' inbound_status_reduce) made
      → task.id ≡ inbound_status_reduce
      → All (λ (dep : Dependency). rank' dep.id < rank' task.id) task.depends_on
      → All
          (λ (dep : Dependency). rank' dep.id < rank' (add_jobs made task).id)
          (add_jobs made task).depends_on
  reduce-IsRank rank' task below named h =
      let same : (add_jobs made task).id ≡ inbound_status_reduce = add_jobs-id made task ∙ named in
      rw same (
        add_jobs-All (λ (dep : Dependency). rank' dep.id < rank' inbound_status_reduce) made task
          (rw named at h) below)

-- For a template without a cycle, whose ids are not those of jobs and which has the tasks
-- `gen-inbound-manifests` and `inbound-status-reduce`, the second one of a higher rank than the first:
-- whatever jobs the request has, the tasks of an ETL pipeline are made, their ids are unique, every
-- dependency is on another one of them, and they have no cycle.
pub etl_tasks_lem :
    {A : Type 0} (jobs : List A) (rank : String → ℕ) (template : List Task)
    → IsTemplate rank template
    → (tasks : List Task) × (etl_tasks jobs template ≡ some tasks)
      × UniqueIds tasks
      × AllValid (ids tasks) tasks
      × ((rank' : String → ℕ) × IsRank rank' tasks)
unfolding etl_tasks
etl_tasks_lem jobs rank template t =
    let first = job_tasks 1 gen_inbound_manifests jobs in
    let (rank', mono, ranked, below) =
      chain jobs 1 gen_inbound_manifests inbound_status_reduce rank
        (t.no_jobs gen_inbound_manifests t.has_first) (t.no_jobs inbound_status_reduce t.has_last)
        t.in_order in
    let (tasks, e, same, keep) =
      update_reduce_lem first (first ++ template)
        (known_right first template inbound_status_reduce t.has_last) in
    (
      tasks,
      e,
      λ a. rw same (jobs-UniqueIds jobs gen_inbound_manifests template t.unique t.no_jobs a),
      rw same (
          keep (λ task. All (IsValidDep (ids (first ++ template)) task) task.depends_on)
            (tasks-AllValid jobs rank template t) (reduce-AllValid jobs rank template t)),
      (
        rank',
        keep (λ task. All (λ (dep : Dependency). rank' dep.id < rank' task.id) task.depends_on)
            (All-append
              (λ task. All (λ (dep : Dependency). rank' dep.id < rank' task.id) task.depends_on)
              first template ranked (template-IsRank rank rank' template t mono))
            (λ task named h. reduce-IsRank jobs rank template t rank' task below named h),
      ),
    )

some-eq : {xs ys : List Task} → ◌≡◌ {A = Option (List Task)} (some xs) (some ys) → xs ≡ ys
some-eq e = cc

-- If `_set_tasks` accepts the tasks of an ETL pipeline with such a template, then in every reachable
-- state of its run in which no thread is left, none has crashed and the failure of the pipeline was not
-- published, every task has finished, and the completion was published.
pub etl_run_completes :
    {A : Type 0} (jobs : List A) (rank : String → ℕ) (template tasks : List Task) (plan : Plan)
    {n : ℕ} {s : Run}
    → IsTemplate rank template
    → etl_tasks jobs template ≡ some tasks
    → set_tasks tasks ≡ ok plan
    → Reach plan n s
    → s.running ≡ []
    → s.crashed ≡ []
    → published is_failed s.events ≡ false
    → (s.queue ≡ []) × (length s.finished ≡ length tasks) × (published is_completed s.events ≡ true)
etl_run_completes jobs rank template tasks plan t e accepted r still alive good =
    let (tasks', e', unique, _, (rank', ranked)) = etl_tasks_lem jobs rank template t in
    let same : tasks ≡ tasks' = some-eq (sym e ∙ e') in
    (run_completes tasks plan rank' (rw same unique) accepted (rw same ranked) r).0 still alive good
