-- ===== src/TaskService.antt =====
-- The API's services/TaskService.py: a task is created with its credentials, its context and its
-- destination, and what was made is rolled back where a later step fails. The service is one object for
-- all requests of the process. What the database and the service of secrets do is an argument.
pub mod Undo
pub mod Restore
pub mod Growth
pub mod Stale
use tapis_workflows.Base.{
  ℕ, String, Bool, true, false, not, ◌&&◌, ◌||◌, Option, none, some, List, [], ◌∷◌, ◌++◌, Result,
  ok, err, ◌==◌, contains, string_eq, nat_eq, filter, if◌then◌else◌,
}

-- `Context` and `Destination`: the primary key and the foreign keys
pub record Target : Type 0 where
  pub uuid : ℕ
  pub credentials : Option ℕ
  pub identity : Option String

-- `Task`
pub record TaskRow : Type 0 where
  pub pipeline : ℕ
  pub id : String
  pub context : Option ℕ
  pub destination : Option ℕ

pub record Rows : Type 0 where
  pub credentials : List ℕ
  pub contexts : List Target
  pub destinations : List Target
  pub tasks : List TaskRow

-- A rollback is a method bound to the row that was created.
pub data Rollback : Type 0 where
  delete_credentials delete_context delete_destination : ℕ → Rollback

pub record TaskService : Type 0 where
  pub rows : Rows
  pub rollbacks : List Rollback

-- The part of a context or of a destination that says how to authenticate
pub record Authn : Type 0 where
  pub identity_uuid : Option String
  pub has_credentials : Bool

pub record TaskRequest : Type 0 where
  pub id : String
  pub is_image_build : Bool
  pub context : Option Authn
  pub destination : Option Authn

-- What the calls do that leave the service: a call that makes a row gives its key, or raises.
pub record Calls : Type 0 where
  -- the identities, with their owners
  pub identities : List (String × String)
  pub context_secret : Option ℕ
  pub context_row : Option ℕ
  pub destination_secret : Option ℕ
  pub destination_valid : Bool
  pub destination_row : Option ℕ
  pub task_saved : Bool
  -- the service of secrets deletes the secret
  pub secret_deleted : ℕ → Bool

pub data Raised : Type 0 where
  bad_request server_error database_error : Raised

-- `Model.delete`, with `on_delete=models.CASCADE` along the foreign keys
abbrev pub refers : ℕ → Option ℕ → Bool
refers k none = false
refers k (some j) = j == k

abbrev pub refers_any : List Target → Option ℕ → Bool
refers_any [] key = false
refers_any (x ∷ xs) key = refers x.uuid key || refers_any xs key

abbrev pub with_credentials : ℕ → List Target → List Target
with_credentials k xs = filter (λ x. refers k x.credentials) xs

abbrev pub without_credentials : ℕ → List Target → List Target
without_credentials k xs = filter (λ x. not (refers k x.credentials)) xs

unfoldable pub delete_row : (ℕ → Bool) → Rollback → Rows → Rows
delete_row secret_deleted (delete_context k) rows = record rows {
  contexts = filter (λ x. not (x.uuid == k)) rows.contexts;
  tasks = filter (λ t. not (refers k t.context)) rows.tasks;
}
delete_row secret_deleted (delete_destination k) rows = record rows {
  destinations = filter (λ x. not (x.uuid == k)) rows.destinations;
  tasks = filter (λ t. not (refers k t.destination)) rows.tasks;
}
delete_row secret_deleted (delete_credentials k) rows =
    if secret_deleted k
    then record rows {
      credentials = filter (λ c. not (c == k)) rows.credentials;
      contexts = without_credentials k rows.contexts;
      destinations = without_credentials k rows.destinations;
      tasks =
          filter
            (λ t. not (
              refers_any (with_credentials k rows.contexts) t.context
              || refers_any (with_credentials k rows.destinations) t.destination))
            rows.tasks;
    }
    else rows

-- `Service.rollback`: what a rollback raises is caught, and the list is kept.
unfoldable pub rollback_each : (ℕ → Bool) → List Rollback → Rows → Rows
unfolding delete_row
rollback_each secret_deleted [] rows = rows
rollback_each secret_deleted (r ∷ rs) rows =
    rollback_each secret_deleted rs (delete_row secret_deleted r rows)

unfoldable pub rollback : Calls → TaskService → TaskService
unfolding rollback_each
rollback calls s = record s { rows = rollback_each calls.secret_deleted s.rollbacks s.rows }

unfoldable pub add_rollback : Rollback → Rows → TaskService → TaskService
add_rollback r rows s = record { rows = rows; rollbacks = s.rollbacks ++ (r ∷ []) }

abbrev pub owned_identity : List (String × String) → String → String → Bool
owned_identity [] uuid owner = false
owned_identity ((id, name) ∷ identities) uuid owner =
    (id == uuid && name == owner) || owned_identity identities uuid owner

-- `_resolve_authn_source`: the identity and the credentials
unfoldable pub resolve_authn_source :
    Calls
    → Option ℕ
    → String
    → Authn
    → TaskService
    → TaskService × Result Raised (Option String × Option ℕ)
unfolding add_rollback
resolve_authn_source calls secret owner target s = elim target.identity_uuid [
  | some uuid ↦
      if owned_identity calls.identities uuid owner
      then (s, ok (some uuid, none))
      else (s, err bad_request)
  | none ↦
      if target.has_credentials
      then (elim secret [
        | none ↦ (s, err server_error)
        | some k ↦ (
          add_rollback (delete_credentials k)
              (record s.rows { credentials = s.rows.credentials ++ (k ∷ []) }) s,
          ok (none, some k),
        )
      ])
      else (s, ok (none, none))
]

-- A call goes on behind one that returns, or leaves by the exception.
abbrev pub after {ℓ κ} :
    {A : Type ℓ} {B : Type κ}
    → TaskService × Result Raised A
    → (A → TaskService → TaskService × Result Raised B)
    → TaskService × Result Raised B
after (s, err e) rest = (s, err e)
after (s, ok a) rest = rest a s

-- `except ... as e: self.rollback(); raise e`
unfoldable pub or_rollback {ℓ} :
    {A : Type ℓ} → Calls → TaskService × Result Raised A → TaskService × Result Raised A
unfolding rollback
or_rollback calls (s, err e) = (rollback calls s, err e)
or_rollback calls (s, ok a) = (s, ok a)

-- The row of the context, in `_create_context`
unfoldable pub save_context :
    Option ℕ → Option String × Option ℕ → TaskService → TaskService × Result Raised ℕ
unfolding add_rollback
save_context none (identity, cred) s = (s, err database_error)
save_context (some k) (identity, cred) s =
    let row : Target = record { uuid = k; credentials = cred; identity = identity } in
    (
      add_rollback (delete_context k) (record s.rows { contexts = s.rows.contexts ++ (row ∷ []) })
          s,
      ok k,
    )

-- `_create_context`
unfoldable pub create_context : Calls → String → Authn → TaskService → TaskService × Result Raised ℕ
unfolding resolve_authn_source save_context
create_context calls owner target s =
    after (resolve_authn_source calls calls.context_secret owner target s)
      (save_context calls.context_row)

-- The second `try` block of `_create_destination`
unfoldable pub save_destination :
    Bool → Option ℕ → Option String × Option ℕ → TaskService → TaskService × Result Raised ℕ
unfolding add_rollback
save_destination false row (identity, cred) s = (s, err bad_request)
save_destination true none (identity, cred) s = (s, err database_error)
save_destination true (some k) (identity, cred) s =
    let row : Target = record { uuid = k; credentials = cred; identity = identity } in
    (
      add_rollback (delete_destination k)
          (record s.rows { destinations = s.rows.destinations ++ (row ∷ []) }) s,
      ok k,
    )

-- `_create_destination`, whose handlers roll back on their own
unfoldable pub create_destination :
    Calls → String → Authn → TaskService → TaskService × Result Raised ℕ
unfolding resolve_authn_source save_destination or_rollback
create_destination calls owner target s =
    after (resolve_authn_source calls calls.destination_secret owner target s) (λ authn s'.
      or_rollback calls (save_destination calls.destination_valid calls.destination_row authn s'))

-- `if request.context != None`, and the same for the destination
unfoldable pub optional :
    (Authn → TaskService → TaskService × Result Raised ℕ)
    → Option Authn
    → TaskService
    → TaskService × Result Raised (Option ℕ)
optional make none s = (s, ok none)
optional make (some target) s = after (make target s) (λ k s'. (s', ok (some k)))

-- The first `try` block of `create`
unfoldable pub make_targets :
    Calls → String → TaskRequest → TaskService → TaskService × Result Raised (Option ℕ × Option ℕ)
unfolding optional create_context create_destination
make_targets calls owner request s =
    after (optional (create_context calls owner) request.context s) (λ context s'.
      after (optional (create_destination calls owner) request.destination s')
        (λ destination s''. (s'', ok (context, destination))))

-- The targets of a request of the type `image_build`, with the handler of that block
unfoldable pub create_targets :
    Calls → String → TaskRequest → TaskService → TaskService × Result Raised (Option ℕ × Option ℕ)
unfolding make_targets or_rollback
create_targets calls owner request s =
    if request.is_image_build
    then or_rollback calls (make_targets calls owner request s)
    else (s, ok (none, none))

-- The constraint on `id` and `pipeline_id`
abbrev pub has_task : ℕ → String → List TaskRow → Bool
has_task pipeline id [] = false
has_task pipeline id (t ∷ tasks) =
    (t.pipeline == pipeline && t.id == id) || has_task pipeline id tasks

-- `Task.objects.create`
unfoldable pub save_task :
    Calls → ℕ → String → Option ℕ × Option ℕ → TaskService → TaskService × Result Raised TaskRow
save_task calls pipeline id (context, destination) s =
    if has_task pipeline id s.rows.tasks || not calls.task_saved
    then (s, err database_error)
    else (let task : TaskRow = record {
      pipeline = pipeline;
      id = id;
      context = context;
      destination = destination;
    } in
        (record s { rows = record s.rows { tasks = s.rows.tasks ++ (task ∷ []) } }, ok task))

-- `create`, for a pipeline with its key and its owner
unfoldable pub create :
    Calls → ℕ → String → TaskRequest → TaskService → TaskService × Result Raised TaskRow
unfolding create_targets save_task or_rollback
create calls pipeline owner request s =
    after (create_targets calls owner request s)
      (λ targets s'. or_rollback calls (save_task calls pipeline request.id targets s'))

-- `delete`, where the database deletes the rows
unfoldable pub delete_tasks : List TaskRow → Rows → Rows
delete_tasks [] rows = rows
delete_tasks (task ∷ tasks) rows = delete_tasks tasks (record rows {
  tasks = filter (λ t. not (t.pipeline == task.pipeline && t.id == task.id)) rows.tasks;
})
