-- ===== src/Records/Access.antt =====
-- What the views of runs and of executions return, and to whom.
use tapis_workflows.Base.{
  ℕ, String, ◌≡◌, inl, inr, refl, true, ◌&&◌, Option, none, some, List, [], ◌∷◌, arith, ◌==◌,
  string_eq, nat_eq, filter, find?, find?-In, filter-All, All, All-map, In, Option-cases,
}
use tapis_workflows.Api.{
  Group, Request, Refusal, bad_request, not_found, done, refused, checked_group, user_in_group,
  Response,
}
use tapis_workflows.Api.Owners.{checked_group-done, Response-cases}
use tapis_workflows.Records.{
  Pipeline, PipelineRun, TaskExecution, Tables, checked_pipeline, checked_run, get_runs,
  get_executions,
}

-- The pipeline is one of the group of that id in the tenant of the request, to which the caller belongs.
abbrev pub IsVisible : Request → String → String → Tables → Pipeline → Type 0
IsVisible request group_id pipeline_id db p =
    (user_in_group request.username group_id request.tenant_id none db.access ≡ true)
    × In p db.pipelines
    × (p.id ≡ pipeline_id)
    × ((g : Group) × (g.id ≡ group_id) × (g.tenant_id ≡ request.tenant_id) × (p.group ≡ g.uuid))

pub checked_pipeline-done :
    (missing : Refusal) (request : Request) (group_id pipeline_id : String) (db : Tables)
    (g : Group) (p : Pipeline)
    → checked_pipeline missing request group_id pipeline_id db ≡ done (g, p)
    → IsVisible request group_id pipeline_id db p
unfolding checked_pipeline
checked_pipeline-done missing request group_id pipeline_id db g p e =
    elim (Response-cases (checked_group request group_id none db.access)) [
      | inl (x, c) ↦ absurd (ground (arith, c))
      | inr (h, c) ↦
          let q = λ (p : Pipeline). p.group == h.uuid && p.id == pipeline_id in
          elim (Option-cases (find? q db.pipelines)) [
            | inl none_found ↦ absurd (ground (arith, c, none_found))
            | inr (p', found) ↦
                let same : p ≡ p' = ground (arith, c, found) in
                let (i, holds) = find?-In q db.pipelines p' found in
                let (_, id, tenant, member) =
                  checked_group-done request group_id none db.access h c in
                rw same (member, i, ground arith, (h, id, tenant, ground arith))
          ]
    ]

checked_run-done :
    (request : Request) (group_id pipeline_id : String) (run : ℕ) (db : Tables) (r : PipelineRun)
    → checked_run request group_id pipeline_id run db ≡ done r
    → (p : Pipeline) × IsVisible request group_id pipeline_id db p
      × In r db.runs
      × (r.pipeline ≡ p.uuid)
      × (r.uuid ≡ run)
unfolding checked_run
checked_run-done request group_id pipeline_id run db r e =
    elim (Response-cases (checked_pipeline bad_request request group_id pipeline_id db)) [
      | inl (x, c) ↦ absurd (ground (arith, c))
      | inr ((g, p), c) ↦
          let q = λ (r : PipelineRun). r.pipeline == p.uuid && r.uuid == run in
          elim (Option-cases (find? q db.runs)) [
            | inl missing ↦ absurd (ground (arith, c, missing))
            | inr (r', found) ↦
                let same : r ≡ r' = ground (arith, c, found) in
                let (i, holds) = find?-In q db.runs r' found in
                rw same (
                  p,
                  checked_pipeline-done bad_request request group_id pipeline_id db g p c,
                  i,
                  ground arith,
                  ground arith,
                )
          ]
    ]

All-map_eq :
    {A : Type 0} (key : A → ℕ) (k : ℕ) (xs : List A)
    → All (λ x. (key x == k) ≡ true) xs
    → All (λ x. key x ≡ k) xs
All-map_eq key k xs h = All-map xs (λ x e. ground arith) h

get_runs-done :
    (request : Request) (group_id pipeline_id : String) (uuid : Option ℕ) (db : Tables)
    (rs : List PipelineRun)
    → get_runs request group_id pipeline_id uuid db ≡ done rs
    → (p : Pipeline) × IsVisible request group_id pipeline_id db p
      × All (λ (r : PipelineRun). r.pipeline ≡ p.uuid) rs
unfolding get_runs
get_runs-done request group_id pipeline_id uuid db rs e =
    elim (Response-cases (checked_pipeline bad_request request group_id pipeline_id db)) [
      | inl (x, c) ↦ absurd (ground (arith, c))
      | inr ((g, p), c) ↦
          let visible = checked_pipeline-done bad_request request group_id pipeline_id db g p c in
          elim (Option-cases uuid) [
            | inl none_given ↦
                let same : rs ≡ filter (λ r. r.pipeline == p.uuid) db.runs =
                  ground (arith, c, none_given) in
                (
                  p,
                  visible,
                  rw same (
                      All-map_eq (λ (r : PipelineRun). r.pipeline) p.uuid
                        (filter (λ r. r.pipeline == p.uuid) db.runs)
                        (filter-All (λ (r : PipelineRun). r.pipeline == p.uuid) db.runs)),
                )
            | inr (k, given) ↦
                let q = λ (r : PipelineRun). r.pipeline == p.uuid && r.uuid == k in
                elim (Option-cases (find? q db.runs)) [
                  | inl missing ↦ absurd (ground (arith, c, given, missing))
                  | inr (r, found) ↦
                      let same : rs ≡ r ∷ [] = ground (arith, c, given, found) in
                      let (_, holds) = find?-In q db.runs r found in
                      (p, visible, rw same (ground arith, tt))
                ]
          ]
    ]

-- The runs that are returned are runs of a pipeline of that id, in a group of that id and of the tenant
-- of the request, to which the caller belongs; and the list of the executions of a run is returned for
-- a stored run of such a pipeline only, and has executions of that run only.
pub runs_access :
    (request : Request) (group_id pipeline_id : String) (db : Tables)
    → ((uuid : Option ℕ) (rs : List PipelineRun)
        → get_runs request group_id pipeline_id uuid db ≡ done rs
        → (p : Pipeline) × IsVisible request group_id pipeline_id db p
          × All (λ (r : PipelineRun). r.pipeline ≡ p.uuid) rs)
      × ((run : ℕ) (xs : List TaskExecution)
          → get_executions request group_id pipeline_id run none db ≡ done xs
          → (p : Pipeline) × IsVisible request group_id pipeline_id db p
            × ((r : PipelineRun) × In r db.runs × (r.pipeline ≡ p.uuid) × (r.uuid ≡ run))
            × All (λ (x : TaskExecution). x.pipeline_run ≡ run) xs)
unfolding get_executions
runs_access request group_id pipeline_id db = (
  λ uuid rs e. get_runs-done request group_id pipeline_id uuid db rs e,
  λ run xs e. elim (Response-cases (checked_run request group_id pipeline_id run db)) [
    | inl (x, c) ↦ absurd (ground (arith, c))
    | inr (r, c) ↦
        let (p, visible, stored, of_pipeline, of_run) =
          checked_run-done request group_id pipeline_id run db r c in
        let same : xs ≡ filter (λ x. x.pipeline_run == r.uuid) db.executions = ground (arith, c) in
        (
          p,
          visible,
          (r, stored, of_pipeline, of_run),
          rw same (
              All-map (filter (λ (x : TaskExecution). x.pipeline_run == r.uuid) db.executions)
                (λ x f. ground arith)
                (filter-All (λ (x : TaskExecution). x.pipeline_run == r.uuid) db.executions)),
        )
  ],
)

-- The answer for one execution
abbrev pub answer : Option TaskExecution → Response (List TaskExecution)
answer none = refused not_found
answer (some x) = done (x ∷ [])

-- A caller who may list the executions of one run may read any execution of the table, of whatever
-- run, pipeline and group it is: where the list is returned, a request for one execution, at the same
-- path, returns the execution with that key if the table has one, and is refused otherwise.
pub execution_of_any_run :
    (request : Request) (group_id pipeline_id : String) (run uuid : ℕ) (db : Tables)
    (xs : List TaskExecution)
    → get_executions request group_id pipeline_id run none db ≡ done xs
    → get_executions request group_id pipeline_id run (some uuid) db
      ≡ answer (find? (λ x. x.uuid == uuid) db.executions)
unfolding get_executions
execution_of_any_run request group_id pipeline_id run uuid db xs e =
    elim (Response-cases (checked_run request group_id pipeline_id run db)) [
      | inl (x, c) ↦ absurd (ground (arith, c))
      | inr (r, c) ↦
          elim (Option-cases (find? (λ (x : TaskExecution). x.uuid == uuid) db.executions)) [
            | inl missing ↦ rw (get_executions, c, missing) refl
            | inr (x, found) ↦ rw (get_executions, c, found) refl
          ]
    ]
