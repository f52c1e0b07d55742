-- ===== src/Dispatch/Keys.antt =====
-- The arguments of a dispatched request and the key that the engine resolves for it.
use tapis_workflows.Base.{
  true, ℕ, ◌≤◌, String, ◌≡◌, ◌≢◌, refl, sym, ap, ◌∙◌, false, Option, none, some, List, [], ◌∷◌, ok,
  ok-injective, >>=-eq-ok, arith, string_eq, count, nat_eq, All, All-map,
}
use tapis_workflows.Base.Dict.{Dict, keys, lookup, insert, lookup-insert}
use tapis_workflows.Base.Split.{occurs, split, join, join_injective}
use tapis_workflows.Value.{Value, str}
use tapis_workflows.Schema.{is_id}
use tapis_workflows.Schema.Ids.{is_id-plain}
use tapis_workflows.Server.Keys.{
  KeyRequest, constraints, key_part, resolve_part, resolve_idempotency_key,
  resolve_idempotency_key_lem,
}
use tapis_workflows.Dispatch.{
  GroupModel, PipelineModel, Submission, DispatchRequest, override, request_args, tasks_request,
  assemble, build,
}
use tapis_workflows.Dispatch.Directives.{DirectiveSet}

-- An argument that the submission does not name keeps its value.
override-absent :
    (name : String) (args d : Dict String Value)
    → lookup name args ≡ none
    → lookup name (override args d) ≡ lookup name d
unfolding override
override-absent name [] d h = refl
override-absent name ((j, v) ∷ args) d h =
    override-absent name args (insert j v d) (ground arith)
    ∙ lookup-insert name j v d
    ∙ ground arith

lookup-absent :
    (name : String) (args : Dict String Value)
    → count name (keys args) ≡ 0
    → lookup name args ≡ none
lookup-absent name [] h = refl
lookup-absent name ((j, v) ∷ args) h =
    let rest = lookup-absent name args (ground arith) in ground arith

-- One that it names has the value of the submission.
override-present :
    (name : String) (value : Value) (args d : Dict String Value)
    → count name (keys args) ≤ 1
    → lookup name args ≡ some value
    → lookup name (override args d) ≡ some value
unfolding override
override-present name value [] d one h = cc
override-present name value ((j, v) ∷ args) d one h = elim (string_eq.dec name j) [
  | yes e ↦
      override-absent name args (insert j v d) (lookup-absent name args (ground arith))
      ∙ lookup-insert name j v d
      ∙ ground arith
  | no n ↦ override-present name value args (insert j v d) (ground arith) (ground arith)
]

-- What `_resolve_idempotency_key` reads of a request that `build` returned: the broker and the schema
-- of the engine carry these fields as they are.
unfoldable pub received : {S : Type 0} → DispatchRequest S → KeyRequest
received request = record {
  pipeline_id = request.pipeline.id;
  idempotency_key = constraints request.idempotency_key;
  objects =
      ("group", ("id", str request.group.id) ∷ [])
      ∷ ("pipeline", ("id", str request.pipeline.id) ∷ [])
      ∷ [];
  args = request.args;
}

group_id_parts : split "." "group.id" ≡ "group" ∷ "id" ∷ []
unfolding split nat_eq
group_id_parts = refl

tenant_parts : split "." "args.tapis_tenant_id" ≡ "args" ∷ "tapis_tenant_id" ∷ []
unfolding split nat_eq
tenant_parts = refl

pipeline_id_parts : split "." "pipeline.id" ≡ "pipeline" ∷ "id" ∷ []
unfolding split nat_eq
pipeline_id_parts = refl

module _ (show : Value → String) (show-str : (s : String) → show (str s) ≡ s) where
  group_part :
      (r : KeyRequest) (gid : String) (objects : Dict String (Dict String Value))
      → r.objects ≡ ("group", ("id", str gid) ∷ []) ∷ objects
      → resolve_part show r (split "." "group.id") ≡ ok gid
  unfolding resolve_part key_part string_eq
  group_part r gid objects e = rw (group_id_parts, e) (ap ok (show-str gid))

  pipeline_part :
      (r : KeyRequest) (pid : String) (group : Dict String Value)
      → r.objects ≡ ("group", group) ∷ ("pipeline", ("id", str pid) ∷ []) ∷ []
      → resolve_part show r (split "." "pipeline.id") ≡ ok pid
  unfolding resolve_part key_part string_eq
  pipeline_part r pid group e = rw (pipeline_id_parts, e) (ap ok (show-str pid))

  tenant_part :
      (r : KeyRequest) (tenant : String)
      → lookup "tapis_tenant_id" r.args ≡ some (str tenant)
      → resolve_part show r (split "." "args.tapis_tenant_id") ≡ ok tenant
  unfolding resolve_part key_part string_eq
  tenant_part r tenant e = rw (tenant_parts, e) (ap ok (show-str tenant))

  -- The arguments of a built request, and its key
  built_key :
      {S : Type 0} (request : DispatchRequest S) (tenant : String)
      → request.idempotency_key ≡ "group.id" ∷ "args.tapis_tenant_id" ∷ "pipeline.id" ∷ []
      → lookup "tapis_tenant_id" request.args ≡ some (str tenant)
      → request.group.id ≢ ""
      → tenant ≢ ""
      → request.pipeline.id ≢ ""
      → resolve_idempotency_key show (received request)
        ≡ ok (join "." (request.group.id ∷ tenant ∷ request.pipeline.id ∷ []))
  unfolding received
  built_key request tenant e found g t p =
      resolve_idempotency_key_lem show (received request) "group.id"
        ("args.tapis_tenant_id" ∷ "pipeline.id" ∷ []) request.group.id
        (tenant ∷ request.pipeline.id ∷ []) (ap constraints e)
        (
          group_part (received request) request.group.id _ refl,
          g,
          (
            tenant_part (received request) tenant found,
            t,
            (pipeline_part (received request) request.pipeline.id _ refl, p, tt),
          ),
        )

default_tenant :
    (token : Value) (tenant owner : String) (args : Dict String Value)
    → lookup "tapis_tenant_id" args ≡ none
    → lookup "tapis_tenant_id" (request_args token tenant owner args) ≡ some (str tenant)
unfolding request_args string_eq
default_tenant token tenant owner args h = override-absent "tapis_tenant_id" args _ h

-- A request of the builder, and the ids of which its key is made
record Made {S : Type 0} (group : GroupModel) (pipeline : PipelineModel) (args : Dict String Value)
    (request : DispatchRequest S) : Type 0 where
  group_id : request.group.id ≡ group.id
  pipeline_id : request.pipeline.id ≡ pipeline.id
  key : request.idempotency_key ≡ "group.id" ∷ "args.tapis_tenant_id" ∷ "pipeline.id" ∷ []
  arguments : request.args ≡ args

abbrev pub IsName : String → Type 0
IsName s = (s ≢ "") × (occurs "." s ≡ false)

-- Ids that the validation of the requests accepts
abbrev pub AreIds : List String → Type 0
AreIds ids = All (λ s. is_id s ≡ true) ids

AreIds-names : (ids : List String) → AreIds ids → All IsName ids
AreIds-names ids h = All-map ids is_id-plain h

three :
    {a b c a' b' c' : String}
    → ◌≡◌ {A = List String} (a ∷ b ∷ c ∷ []) (a' ∷ b' ∷ c' ∷ [])
    → (a ≡ a') × (b ≡ b') × (c ≡ c')
three e = (cc, cc, cc)

module _ {S : Type 0} (get_secret : ℕ → Option S) (parse : String → Option DirectiveSet)
    (token : Value) (show : Value → String) (show-str : (s : String) → show (str s) ≡ s) where
  build-Made :
      (group : GroupModel) (pipeline : PipelineModel) (uuid : String) (s : Submission)
      (request : DispatchRequest S)
      → build get_secret parse token group pipeline uuid s ≡ ok request
      → Made group pipeline (request_args token group.tenant_id pipeline.owner s.args) request
  unfolding build assemble
  build-Made group pipeline uuid s request e =
      let (tasks, _, made) =
        >>=-eq-ok (tasks_request get_secret pipeline.tasks)
          (λ tasks. ok (assemble parse token group pipeline uuid s tasks)) e in
      let same = ok-injective made in
      record {
        group_id = sym (ap (λ (r : DispatchRequest S). r.group.id) same);
        pipeline_id = sym (ap (λ (r : DispatchRequest S). r.pipeline.id) same);
        key = sym (ap (λ (r : DispatchRequest S). r.idempotency_key) same);
        arguments = sym (ap (λ (r : DispatchRequest S). r.args) same);
      }

  -- The key that the engine resolves for a request of the builder, with ids that are not empty: the ids
  -- of the group, the tenant and the pipeline with dots between them. The tenant is the group's, unless
  -- the arguments of the submission hold one: then it is theirs.
  pub dispatch_key :
      (group : GroupModel) (pipeline : PipelineModel) (uuid : String) (s : Submission)
      (request : DispatchRequest S)
      → build get_secret parse token group pipeline uuid s ≡ ok request
      → group.id ≢ ""
      → pipeline.id ≢ ""
      → (lookup "tapis_tenant_id" s.args ≡ none
          → group.tenant_id ≢ ""
          → resolve_idempotency_key show (received request)
            ≡ ok (join "." (group.id ∷ group.tenant_id ∷ pipeline.id ∷ [])))
        × ((tenant : String)
            → count "tapis_tenant_id" (keys s.args) ≤ 1
            → lookup "tapis_tenant_id" s.args ≡ some (str tenant)
            → tenant ≢ ""
            → resolve_idempotency_key show (received request)
              ≡ ok (join "." (group.id ∷ tenant ∷ pipeline.id ∷ [])))
  unfolding request_args
  dispatch_key group pipeline uuid s request e g p =
      let made = build-Made group pipeline uuid s request e in
      let key : (tenant : String)
          → lookup "tapis_tenant_id" request.args ≡ some (str tenant)
          → tenant ≢ ""
          → resolve_idempotency_key show (received request)
            ≡ ok (join "." (group.id ∷ tenant ∷ pipeline.id ∷ [])) =
        λ tenant found t.
          built_key show show-str request tenant made.key found (rw made.group_id g) t
            (rw made.pipeline_id p)
          ∙ rw (made.group_id, made.pipeline_id) refl in
      (
        λ h t.
            key group.tenant_id
              (rw made.arguments (default_tenant token group.tenant_id pipeline.owner s.args h)) t,
        λ tenant one h t.
            key tenant
              (rw made.arguments (override-present "tapis_tenant_id" (str tenant) s.args _ one h))
              t,
      )

  -- Two requests whose submissions leave the tenant alone, with ids of groups and pipelines that the
  -- validation accepts and tenants that are not empty and hold no dot, have the same key only if they
  -- are for the same group id, tenant and pipeline id.
  pub dispatch_key_distinct :
      (g h : GroupModel) (p q : PipelineModel) (uuid uuid' : String) (s t : Submission)
      (r r' : DispatchRequest S)
      → build get_secret parse token g p uuid s ≡ ok r
      → build get_secret parse token h q uuid' t ≡ ok r'
      → AreIds (g.id ∷ p.id ∷ h.id ∷ q.id ∷ [])
      → All IsName (g.tenant_id ∷ h.tenant_id ∷ [])
      → lookup "tapis_tenant_id" s.args ≡ none
      → lookup "tapis_tenant_id" t.args ≡ none
      → resolve_idempotency_key show (received r) ≡ resolve_idempotency_key show (received r')
      → (g.id ≡ h.id) × (g.tenant_id ≡ h.tenant_id) × (p.id ≡ q.id)
  dispatch_key_distinct g h p q uuid uuid' s t r r' e e' ids tenants a a' same =
      let names : All IsName (g.id ∷ p.id ∷ h.id ∷ q.id ∷ []) =
        AreIds-names (g.id ∷ p.id ∷ h.id ∷ q.id ∷ []) ids in
      let key = (dispatch_key g p uuid s r e names.0.0 names.1.0.0).0 a tenants.0.0 in
      let key' =
        (dispatch_key h q uuid' t r' e' names.1.1.0.0 names.1.1.1.0.0).0 a' tenants.1.0.0 in
      three (
        join_injective "." g.id h.id (g.tenant_id ∷ p.id ∷ []) (h.tenant_id ∷ q.id ∷ [])
          (names.0.1, (tenants.0.1, (names.1.0.1, tt)))
          (names.1.1.0.1, (tenants.1.0.1, (names.1.1.1.0.1, tt)))
          (ok-injective (sym key ∙ same ∙ key')))
