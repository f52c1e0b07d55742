-- ===== src/Records/Links.antt =====
-- The rows of runs, executions and pipelines stay consistent.
use tapis_workflows.Base.{
  find?-In, ℕ, String, ◌≡◌, ◌⊎◌, inl, inr, refl, sym, ap, Bool, true, false, ◌&&◌, Option, none,
  some, List, [], ◌∷◌, ◌++◌, map, arith, ◌==◌, string_eq, nat_eq, find?, All, All-append, All-map,
  In, Bool-cases, Option-cases,
}
use tapis_workflows.Api.{Group, Request, not_found, checked_group}
use tapis_workflows.Api.Owners.{Response-cases}
use tapis_workflows.Records.{
  Pipeline, PipelineRun, Task, TaskExecution, Tables, checked_pipeline, executor_request_is_valid,
  has_execution, create_execution, set_execution, update_execution, set_run, update_run,
  set_current, has_run, dispatch, run_pipeline, set_owner, change_owner,
}

-- The run with the key `k` is there, and is one of the pipeline with the key `q`.
abbrev pub HasRun : List PipelineRun → ℕ → ℕ → Type 0
HasRun runs k q = (r : PipelineRun) × In r runs × (r.uuid ≡ k) × (r.pipeline ≡ q)

-- The task of an execution is one of the pipeline of its run.
abbrev pub IsLinkedExecution : List PipelineRun → TaskExecution → Type 0
IsLinkedExecution runs x = HasRun runs x.pipeline_run x.task.pipeline

-- The current and the last run of a pipeline are runs of that pipeline.
abbrev pub IsLinkedPipeline : List PipelineRun → Pipeline → Type 0
IsLinkedPipeline runs p =
    (k : ℕ) → (p.current_run ≡ some k) ⊎ (p.last_run ≡ some k) → HasRun runs k p.uuid

abbrev pub IsLinked : Tables → Type 0
IsLinked db =
    All (IsLinkedExecution db.runs) db.executions × All (IsLinkedPipeline db.runs) db.pipelines

In-append_left : {A : Type 0} (x : A) (xs ys : List A) → In x xs → In x (xs ++ ys)
In-append_left x [] ys i = absurd i
In-append_left x (y ∷ xs) ys (inl e) = inl e
In-append_left x (y ∷ xs) ys (inr i) = inr (In-append_left x xs ys i)

In-append_last : {A : Type 0} (x : A) (xs : List A) → In x (xs ++ (x ∷ []))
In-append_last x [] = inl refl
In-append_last x (y ∷ xs) = inr (In-append_last x xs)

All-In : {A : Type 0} (P : A → Type 0) (xs : List A) (x : A) → All P xs → In x xs → P x
All-In P [] x h i = absurd i
All-In P (y ∷ xs) x h (inl same) = rw same h.0
All-In P (y ∷ xs) x h (inr i) = All-In P xs x h.1 i

All-update :
    {A : Type 0} (P : A → Type 0) (f : A → A) (xs : List A)
    → ((x : A) → P x → P (f x))
    → All P xs
    → All P (map f xs)
All-update P f [] keep h = tt
All-update P f (x ∷ xs) keep h = (keep x h.0, All-update P f xs keep h.1)

In-map : {A : Type 0} (f : A → A) (x : A) (xs : List A) → In x xs → In (f x) (map f xs)
In-map f x [] i = absurd i
In-map f x (y ∷ xs) (inl e) = inl (ap f e)
In-map f x (y ∷ xs) (inr i) = inr (In-map f x xs i)

-- More runs, and runs with another status
HasRun-append :
    (runs : List PipelineRun) (r : PipelineRun) (k q : ℕ)
    → HasRun runs k q
    → HasRun (runs ++ (r ∷ [])) k q
HasRun-append runs r k q (x, i, same, of) = (x, In-append_left x runs (r ∷ []) i, same, of)

HasRun-set_run :
    (uuid : ℕ) (status : String) (logs : Option String) (runs : List PipelineRun) (k q : ℕ)
    → HasRun runs k q
    → HasRun (map (set_run uuid status logs) runs) k q
HasRun-set_run uuid status logs runs k q (x, i, same, of) = (
  set_run uuid status logs x,
  In-map (set_run uuid status logs) x runs i,
  ground arith,
  ground arith,
)

module _ (runs runs' : List PipelineRun)
    (more : (k q : ℕ) → HasRun runs k q → HasRun runs' k q) where
  executions-more :
      (xs : List TaskExecution) → All (IsLinkedExecution runs) xs → All (IsLinkedExecution runs') xs
  executions-more xs h = All-map xs (λ x l. more x.pipeline_run x.task.pipeline l) h

  pipelines-more :
      (ps : List Pipeline) → All (IsLinkedPipeline runs) ps → All (IsLinkedPipeline runs') ps
  pipelines-more ps h = All-map ps (λ p l k e. more k p.uuid (l k e)) h

create_execution-IsLinked :
    (secret : String) (header : Option String) (run : ℕ) (body : Option (ℕ × String)) (db : Tables)
    → IsLinked db
    → IsLinked (create_execution secret header run body db).0
unfolding create_execution
create_execution-IsLinked secret header run body db l =
    elim (Bool-cases (executor_request_is_valid secret header)) [
      | inr denied ↦ rw (create_execution, denied) l
      | inl allowed ↦ elim (Option-cases body) [
        | inl invalid ↦ rw (create_execution, allowed, invalid) l
        | inr ((uuid, task_id), given) ↦
            let q = λ (r : PipelineRun). r.uuid == run in
            elim (Option-cases (find? q db.runs)) [
              | inl missing ↦ rw (create_execution, allowed, given, missing) l
              | inr (r, found) ↦
                  let o = λ (t : Task). t.pipeline == r.pipeline && t.id == task_id in
                  elim (Option-cases (find? o db.tasks)) [
                    | inl missing ↦ rw (create_execution, allowed, given, found, missing) l
                    | inr (t, known) ↦ elim (Bool-cases (has_execution uuid db.executions)) [
                      | inl taken ↦ rw (create_execution, allowed, given, found, known, taken) l
                      | inr free ↦
                          let (_, holds) = find?-In o db.tasks t known in
                          let (i, _) = find?-In q db.runs r found in
                          let of : r.pipeline ≡ t.pipeline = ground arith in
                          let x : TaskExecution = record {
                            uuid = uuid;
                            task = t;
                            pipeline_run = r.uuid;
                            status = "pending";
                            stdout = none;
                          } in
                          rw (create_execution, allowed, given, found, known, free)
                            (
                              All-append (IsLinkedExecution db.runs) db.executions (x ∷ []) l.0
                                  ((r, i, refl, of), tt),
                              l.1,
                            )
                    ]
                  ]
            ]
      ]
    ]

update_execution-IsLinked :
    (secret : String) (header : Option String) (uuid : ℕ) (status : String)
    (body : Option (Option String)) (db : Tables)
    → IsLinked db
    → IsLinked (update_execution secret header uuid status body db).0
unfolding update_execution
update_execution-IsLinked secret header uuid status body db l =
    elim (Bool-cases (executor_request_is_valid secret header)) [
      | inr denied ↦ rw (update_execution, denied) l
      | inl allowed ↦ elim (Option-cases body) [
        | inl invalid ↦ rw (update_execution, allowed, invalid) l
        | inr (stdout, given) ↦
            rw (update_execution, allowed, given)
              (
                All-update (IsLinkedExecution db.runs) (set_execution uuid status stdout)
                    db.executions (λ x h. kept stdout x h) l.0,
                l.1,
              )
      ]
    ]
  where
    kept :
        (stdout : Option String) (x : TaskExecution)
        → IsLinkedExecution db.runs x
        → IsLinkedExecution db.runs (set_execution uuid status stdout x)
    kept stdout x h = elim (Bool-cases (x.uuid == uuid)) [
      | inl this ↦ rw this h
      | inr other ↦ rw other h
    ]

update_run-IsLinked :
    (secret : String) (header : Option String) (uuid : ℕ) (status : String)
    (body : Option (Option String)) (db : Tables)
    → IsLinked db
    → IsLinked (update_run secret header uuid status body db).0
unfolding update_run
update_run-IsLinked secret header uuid status body db l =
    elim (Bool-cases (executor_request_is_valid secret header)) [
      | inr denied ↦ rw (update_run, denied) l
      | inl allowed ↦ elim (Option-cases body) [
        | inl invalid ↦ rw (update_run, allowed, invalid) l
        | inr (logs, given) ↦
            let runs' = map (set_run uuid status logs) db.runs in
            let more = HasRun-set_run uuid status logs db.runs in
            rw (update_run, allowed, given)
              (
                executions-more db.runs runs' more db.executions l.0,
                pipelines-more db.runs runs' more db.pipelines l.1,
              )
      ]
    ]

set_current-IsLinked :
    (runs : List PipelineRun) (q run : ℕ) (current : Option ℕ)
    → HasRun runs run q
    → ((k : ℕ) → current ≡ some k → HasRun runs k q)
    → (p : Pipeline) → IsLinkedPipeline runs p
    → IsLinkedPipeline runs (set_current q run current p)
set_current-IsLinked runs q run none new old p l = elim (Bool-cases (p.uuid == q)) [
  | inr other ↦ rw other l
  | inl this ↦
      let same : p.uuid ≡ q = ground arith in
      rw this
        (λ k e. elim e [ inl f ↦ rw (sym (some-injective f), same) new | inr f ↦ l k (inr f) ])
]
  where
    some-injective : {k j : ℕ} → ◌≡◌ {A = Option ℕ} (some k) (some j) → k ≡ j
    some-injective e = cc
set_current-IsLinked runs q run (some c) new old p l = elim (Bool-cases (p.uuid == q)) [
  | inr other ↦ rw other l
  | inl this ↦
      let same : p.uuid ≡ q = ground arith in
      rw this (λ k e. elim e [
        | inl f ↦ rw (sym (some-injective f), same) new
        | inr f ↦ rw same (old k f)
      ])
]
  where
    some-injective : {k j : ℕ} → ◌≡◌ {A = Option ℕ} (some k) (some j) → k ≡ j
    some-injective e = cc

dispatch-IsLinked :
    (published : Bool) (run : ℕ) (pipeline : Pipeline) (db : Tables)
    → IsLinked db
    → IsLinked (dispatch published run pipeline db).0
unfolding dispatch
dispatch-IsLinked published run pipeline db l = elim (Bool-cases (has_run run db.runs)) [
  | inl taken ↦ rw (dispatch, taken) l
  | inr free ↦
      let row : PipelineRun = record {
        uuid = run;
        pipeline = pipeline.uuid;
        status = "submitted";
        logs = none;
      } in
      let runs' = db.runs ++ (row ∷ []) in
      let executions' =
        executions-more db.runs runs' (HasRun-append db.runs row) db.executions l.0 in
      let pipelines' = pipelines-more db.runs runs' (HasRun-append db.runs row) db.pipelines l.1 in
      let q = λ (p : Pipeline). p.uuid == pipeline.uuid in
      elim (Option-cases (find? q db.pipelines)) [
        | inl missing ↦ rw (dispatch, free, missing) (executions', pipelines')
        | inr (p, found) ↦
            let (i, holds) = find?-In q db.pipelines p found in
            let same : pipeline.uuid ≡ p.uuid = ground arith in
            rw (dispatch, free, found)
              (
                executions',
                All-update (IsLinkedPipeline runs') (set_current p.uuid run p.current_run)
                    db.pipelines
                    (set_current-IsLinked runs' p.uuid run p.current_run
                      (row, In-append_last row db.runs, refl, same)
                      (λ k e.
                        All-In (IsLinkedPipeline runs') db.pipelines p pipelines' i k (inl e)))
                    pipelines',
              )
      ]
]

run_pipeline-IsLinked :
    (published : Bool) (built : Option ℕ) (request : Request) (group_id pipeline_id : String)
    (body : Bool) (db : Tables)
    → IsLinked db
    → IsLinked (run_pipeline published built request group_id pipeline_id body db).0
unfolding run_pipeline
run_pipeline-IsLinked published built request group_id pipeline_id false db l = l
run_pipeline-IsLinked published built request group_id pipeline_id true db l =
    elim (Response-cases (checked_group request group_id none db.access)) [
      | inl (x, c) ↦ rw (run_pipeline, c) l
      | inr (g, c) ↦
          elim (Option-cases
            (find? (λ (p : Pipeline). p.id == pipeline_id && p.group == g.uuid) db.pipelines)) [
              | inl missing ↦ rw (run_pipeline, c, missing) l
              | inr (p, found) ↦ elim (Option-cases built) [
                | inl failed ↦ rw (run_pipeline, c, found, failed) l
                | inr (run, made) ↦
                    rw (run_pipeline, c, found, made) (dispatch-IsLinked published run p db l)
              ]
            ]
    ]

change_owner-IsLinked :
    (request : Request) (group_id pipeline_id username : String) (db : Tables)
    → IsLinked db
    → IsLinked (change_owner request group_id pipeline_id username db).0
unfolding change_owner
change_owner-IsLinked request group_id pipeline_id username db l =
    elim (Response-cases (checked_pipeline not_found request group_id pipeline_id db)) [
      | inl (x, c) ↦ rw (change_owner, c) l
      | inr ((g, p), c) ↦ elim (Bool-cases (request.username == p.owner)) [
        | inr other ↦ rw (change_owner, c, other) l
        | inl owns ↦
            rw (change_owner, c, owns)
              (
                l.0,
                All-update (IsLinkedPipeline db.runs) (set_owner g pipeline_id username)
                    db.pipelines (λ p h. kept g p h) l.1,
              )
      ]
    ]
  where
    kept :
        (g : Group) (p : Pipeline)
        → IsLinkedPipeline db.runs p
        → IsLinkedPipeline db.runs (set_owner g pipeline_id username p)
    kept g p h = elim (Bool-cases (p.id == pipeline_id && p.group == g.uuid)) [
      | inl this ↦ rw this h
      | inr other ↦ rw other h
    ]

-- The calls that change runs, executions or pipelines
pub data Call : Type 0 where
  create : (secret : String) → Option String → (run : ℕ) → Option (ℕ × String) → Call
  report :
      (secret : String)
      → Option String
      → (uuid : ℕ) → (status : String) → Option (Option String)
      → Call
  report_run :
      (secret : String)
      → Option String
      → (uuid : ℕ) → (status : String) → Option (Option String)
      → Call
  run : (published : Bool) → Option ℕ → Request → (group_id pipeline_id : String) → Bool → Call
  give : Request → (group_id pipeline_id username : String) → Call

abbrev pub serve : Call → Tables → Tables
serve (create secret header k body) db = (create_execution secret header k body db).0
serve (report secret header k status body) db = (update_execution secret header k status body db).0
serve (report_run secret header k status body) db = (update_run secret header k status body db).0
serve (run published built request group_id pipeline_id body) db =
    (run_pipeline published built request group_id pipeline_id body db).0
serve (give request group_id pipeline_id username) db =
    (change_owner request group_id pipeline_id username db).0

abbrev pub serve_all : List Call → Tables → Tables
serve_all [] db = db
serve_all (c ∷ calls) db = serve_all calls (serve c db)

-- Whatever calls of these views are served, by whomever and with whatever answers of the builder and of
-- the broker: every execution stays one of a run that is in the table, of a task of the pipeline of that
-- run, and the current and the last run of a pipeline stay runs of the table that are of that pipeline.
pub run_rows_stay : (calls : List Call) (db : Tables) → IsLinked db → IsLinked (serve_all calls db)
run_rows_stay [] db l = l
run_rows_stay (create secret header k body ∷ calls) db l =
    run_rows_stay calls (serve (create secret header k body) db)
      (create_execution-IsLinked secret header k body db l)
run_rows_stay (report secret header k status body ∷ calls) db l =
    run_rows_stay calls (serve (report secret header k status body) db)
      (update_execution-IsLinked secret header k status body db l)
run_rows_stay (report_run secret header k status body ∷ calls) db l =
    run_rows_stay calls (serve (report_run secret header k status body) db)
      (update_run-IsLinked secret header k status body db l)
run_rows_stay (run published built request group_id pipeline_id body ∷ calls) db l =
    run_rows_stay calls (serve (run published built request group_id pipeline_id body) db)
      (run_pipeline-IsLinked published built request group_id pipeline_id body db l)
run_rows_stay (give request group_id pipeline_id username ∷ calls) db l =
    run_rows_stay calls (serve (give request group_id pipeline_id username) db)
      (change_owner-IsLinked request group_id pipeline_id username db l)
