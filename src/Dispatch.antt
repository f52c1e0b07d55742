-- ===== src/Dispatch.antt =====
-- backend/helpers/PipelineDispatchRequestBuilder.py: the request that the API sends to the engine. What
-- the secret service returns for the key of credentials is an argument: it is `None` where the read
-- fails. `parse` is `parse_directives`, in `Directives`.
pub mod Directives
pub mod Keys
use tapis_workflows.Base.{
  ℕ, zero, suc, ◌<◌, String, ◌<>◌, Bool, true, false, ◌&&◌, ◌≡◌, Option, none, some, List, [], ◌∷◌,
  map, Result, ok, err, ◌>>=◌, ◌==◌, string_eq, nat_eq, length, ltb, if◌then◌else◌,
}
use tapis_workflows.Base.Dict.{Dict, lookup, insert}
use tapis_workflows.Base.Split.{join}
use tapis_workflows.Value.{Value, str}
use tapis_workflows.Dispatch.Directives.{DirectiveSet}

-- The keys of the credentials in the secret store: those of the object itself and, if an identity is
-- set, those of the identity
pub record Authn : Type 0 where
  pub credentials : Option ℕ
  pub identity : Option (Option ℕ)

-- The credentials that a request carries: what `model_to_dict` gives, or a secret
pub data Sent (S : Type 0) : Type 0 where
  raw : Option ℕ → Sent S
  secret : Option S → Sent S

-- A task, with the type that names its method of the builder
pub data TaskModel : Type 0 where
  image_build : String → Authn → String → Option Authn → TaskModel
  other : String → TaskModel

pub data TaskRequest (S : Type 0) : Type 0 where
  -- The id, and of the context the credentials and the build file, and the credentials of the destination
  image_build_request : String → Option S → String → Sent S → TaskRequest S
  other_request : String → TaskRequest S

pub data BuildError : Type 0 where
  -- `AttributeError` of a task without a destination
  no_destination : BuildError

-- Identity takes precedence over credentials.
unfoldable pub credentials_of : Authn → Option ℕ
credentials_of a = elim a.identity [ none ↦ a.credentials | some credentials ↦ credentials ]

module _ {S : Type 0} (get_secret : ℕ → Option S) where
  -- The credentials of the context
  unfoldable pub context_credentials : Authn → Option S
  unfolding credentials_of
  context_credentials a = elim (credentials_of a) [ none ↦ none | some key ↦ get_secret key ]

  -- The credentials of the destination
  unfoldable pub destination_credentials : Authn → Sent S
  unfolding credentials_of
  destination_credentials a = elim (credentials_of a) [
    | none ↦ raw a.credentials
    | some key ↦ secret (get_secret key)
  ]

  -- `_image_build` and the methods of the other types
  unfoldable pub task_request : TaskModel → Result BuildError (TaskRequest S)
  unfolding context_credentials destination_credentials
  task_request (image_build id context build_file none) = err no_destination
  task_request (image_build id context build_file (some destination)) = ok (
      image_build_request id (context_credentials context) build_file
        (destination_credentials destination))
  task_request (other id) = ok (other_request id)

  -- The loop over the tasks
  unfoldable pub tasks_request : List TaskModel → Result BuildError (List (TaskRequest S))
  unfolding task_request
  tasks_request [] = ok []
  tasks_request (task ∷ tasks) = do
    request ← task_request task
    requests ← tasks_request tasks
    ok (request ∷ requests)

-- `{**d, **args}`
unfoldable pub override : Dict String Value → Dict String Value → Dict String Value
override [] d = d
override ((name, value) ∷ args) d = override args (insert name value d)

-- The arguments of the request: those of the submission come last.
unfoldable pub request_args : Value → String → String → Dict String Value → Dict String Value
unfolding override
request_args token tenant_id owner args = override args (
    ("workflow_executor_access_token", token)
    ∷ ("tapis_tenant_id", str tenant_id)
    ∷ ("tapis_pipeline_owner", str owner)
    ∷ [])

-- The group, and the pipeline with its tasks
pub record GroupModel : Type 0 where
  pub id : String
  pub tenant_id : String

pub record ExecutionProfile : Type 0 where
  pub max_exec_time : ℕ
  pub duplicate_submission_policy : String
  pub max_retries : ℕ
  pub invocation_mode : String
  pub retry_policy : String

-- `archives` holds the ids of the archives of the pipeline.
pub record PipelineModel : Type 0 where
  pub id : String
  pub owner : String
  pub tasks : List TaskModel
  pub archives : List String
  pub env : Dict String Value
  pub profile : ExecutionProfile

-- A submission: what the caller of the API gives
pub record Submission : Type 0 where
  pub base_url : String
  pub name : Option String
  pub description : Option String
  pub commit : Option String
  pub directives : Option (List String)
  pub args : Dict String Value

pub record DispatchRequest (S : Type 0) : Type 0 where
  pub group : GroupModel
  pub pipeline : PipelineModel
  pub archives : List String
  pub execution_profile : ExecutionProfile
  pub tasks : List (TaskRequest S)
  pub env : Dict String Value
  pub args : Dict String Value
  pub idempotency_key : List String
  pub origin : String
  pub run_uuid : String
  pub run_name : String
  pub run_description : Option String
  pub directives : Option DirectiveSet

-- `name or uuid`
abbrev run_name_of : Option String → String → String
run_name_of none uuid = uuid
run_name_of (some name) uuid = if name == "" then uuid else name

-- `{}` where neither a commit nor directives are given; the directives are parsed last.
unfoldable pub directives_request :
    (String → Option DirectiveSet) → Option String → Option (List String) → Option DirectiveSet
directives_request parse commit none = elim commit [ none ↦ some [] | some text ↦ parse text ]
directives_request parse commit (some []) = elim commit [ none ↦ some [] | some text ↦ parse text ]
directives_request parse commit (some (d ∷ ds)) = parse ("[" <> (join "|" (d ∷ ds) <> "]"))

-- The request, when its tasks are there
unfoldable pub assemble :
    {S : Type 0}
    → (String → Option DirectiveSet)
    → Value
    → GroupModel
    → PipelineModel
    → String
    → Submission
    → List (TaskRequest S)
    → DispatchRequest S
unfolding request_args directives_request
assemble parse token group pipeline uuid submission tasks = record {
  group = group;
  pipeline = pipeline;
  archives = pipeline.archives;
  execution_profile = pipeline.profile;
  tasks = tasks;
  env = pipeline.env;
  args = request_args token group.tenant_id pipeline.owner submission.args;
  idempotency_key = "group.id" ∷ "args.tapis_tenant_id" ∷ "pipeline.id" ∷ [];
  origin = submission.base_url;
  run_uuid = uuid;
  run_name = run_name_of submission.name uuid;
  run_description = submission.description;
  directives = directives_request parse submission.commit submission.directives;
}

-- `build`
unfoldable pub build :
    {S : Type 0}
    → (ℕ → Option S)
    → (String → Option DirectiveSet)
    → Value
    → GroupModel
    → PipelineModel
    → String
    → Submission
    → Result BuildError (DispatchRequest S)
unfolding tasks_request assemble
build get_secret parse token group pipeline uuid submission =
    tasks_request get_secret pipeline.tasks >>= λ tasks.
    ok (assemble parse token group pipeline uuid submission tasks)
