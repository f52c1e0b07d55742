-- ===== src/Identities.antt =====
-- The API's views/Identities.py with services/SecretService.py: identities, their credentials, and the
-- secrets behind them. The check of credentials is an argument, and so is whether the service of
-- secrets writes and deletes.
pub mod Secrets
use tapis_workflows.Base.{
  ℕ, String, ◌<>◌, Bool, true, false, not, ◌&&◌, ◌||◌, Option, none, some, List, [], ◌∷◌, ◌++◌,
  ◌==◌, contains, string_eq, nat_eq, filter, find?, if◌then◌else◌,
}
use tapis_workflows.Api.{
  Request, Refusal, not_found, forbidden, bad_request, server_error, uncaught, Response, done,
  refused,
}

-- `Identity`: `sk_id` is the key of its credentials.
pub record Identity : Type 0 where
  pub uuid : ℕ
  pub name : String
  pub owner : String
  pub tenant_id : String
  pub sk_id : String

-- The tables of identities and of credentials, and what the service of secrets holds
pub record Vault : Type 0 where
  pub identities : List Identity
  pub credentials : List String
  pub secrets : List String

-- `SecretService.save`: the key of the credentials, or `none` for an exception, of `writeSecret` or, once
-- the secret is written, of the database
unfoldable pub save :
    (writes credentials_saved : Bool) (owner uuid : String) → Vault → Vault × Option String
save writes credentials_saved owner uuid v =
    let sk_id = "workflows+" <> (owner <> ("+" <> uuid)) in
    let written = record v { secrets = v.secrets ++ (sk_id ∷ []) } in
    if not writes
    then (v, none)
    else if not credentials_saved
    then (written, none)
    else (record written { credentials = v.credentials ++ (sk_id ∷ []) }, some sk_id)

-- `SecretService.delete`, with the cascade to the identity of the credentials; `none` is an exception of
-- `deleteSecret`.
unfoldable pub delete_secret : Bool → String → Vault → Option Vault
delete_secret deletes sk_id v =
    if deletes
    then some (record {
      identities = filter (λ i. not (i.sk_id == sk_id)) v.identities;
      credentials = filter (λ c. not (c == sk_id)) v.credentials;
      secrets = filter (λ c. not (c == sk_id)) v.secrets;
    })
    else none

-- The end of `get` for one identity
unfoldable pub own_identity : Request → Option Identity → Response (List Identity)
own_identity request none = refused not_found
own_identity request (some i) =
    if not (request.username == i.owner) then refused forbidden else done (i ∷ [])

-- `get`
unfoldable pub get_identities : Request → Option ℕ → Vault → Response (List Identity)
unfolding own_identity
get_identities request none v = done (filter (λ i. i.owner == request.username) v.identities)
get_identities request (some uuid) v =
    own_identity request (find? (λ i. i.uuid == uuid) v.identities)

-- The body of a `post` that `prepare` accepts
pub record IdentityBody : Type 0 where
  pub type : String
  pub name : String

-- What the calls of a `post` answer: `valid` is the result of `validate_by_type`, or its exception.
pub record Calls : Type 0 where
  pub valid : Option Bool
  pub writes : Bool
  -- whether the database takes the row of the credentials
  pub credentials_saved : Bool
  -- whether the database raises nothing but an `IntegrityError` for the row of the identity
  pub row_saved : Bool
  pub deletes : Bool
  pub secret_uuid : String
  pub uuid : ℕ

abbrev pub identity_types : List String
identity_types = "github" ∷ "gitlab" ∷ "dockerhub" ∷ []

-- The constraint `identity_name_owner_tenant_id`
abbrev pub is_taken : Request → String → List Identity → Bool
is_taken request name [] = false
is_taken request name (i ∷ is) =
    (i.name == name && (i.owner == request.username && i.tenant_id == request.tenant_id))
    || is_taken request name is

-- The end of the `except` clause of an `IntegrityError`
abbrev pub after_delete : Vault → Option Vault → Vault × Response ℕ
after_delete v none = (v, refused uncaught)
after_delete v (some v') = (v', refused bad_request)

-- The `except` clause of an `IntegrityError`
unfoldable pub undo_save : Bool → String → Vault → Vault × Response ℕ
unfolding delete_secret
undo_save deletes sk_id v = after_delete v (delete_secret deletes sk_id v)

-- The end of `post`, behind `save`: only an `IntegrityError` is caught, and not, for instance, the
-- `DataError` of a name that is too long.
unfoldable pub create_identity :
    Request → IdentityBody → Calls → String → Vault → Vault × Response ℕ
unfolding undo_save
create_identity request body calls sk_id v =
    if not calls.row_saved
    then (v, refused uncaught)
    else if is_taken request body.name v.identities
    then undo_save calls.deletes sk_id v
    else (
      record v {
        identities =
            v.identities
            ++ (record {
              uuid = calls.uuid;
              name = body.name;
              owner = request.username;
              tenant_id = request.tenant_id;
              sk_id = sk_id;
            }
                ∷ []);
      },
      done calls.uuid,
    )

-- `post` behind the check of the credentials
unfoldable pub save_identity : Request → IdentityBody → Calls → Vault → Vault × Response ℕ
unfolding save create_identity
save_identity request body calls v =
    let (v', saved) =
      save calls.writes calls.credentials_saved request.username calls.secret_uuid v in
    elim saved [
      | none ↦ (v', refused bad_request)
      | some sk_id ↦ create_identity request body calls sk_id v'
    ]

-- `post`
unfoldable pub post_identity : Request → Option IdentityBody → Calls → Vault → Vault × Response ℕ
unfolding save_identity
post_identity request none calls v = (v, refused bad_request)
post_identity request (some body) calls v =
    if not (contains identity_types body.type)
    then (v, refused bad_request)
    else (elim calls.valid [
      | none ↦ (v, refused server_error)
      | some false ↦ (v, refused bad_request)
      | some true ↦ save_identity request body calls v
    ])

-- The end of `delete`: the secret with its credentials, and then the identity
unfoldable pub drop_identity : Bool → Identity → Vault → Vault × Response String
unfolding delete_secret
drop_identity deletes i v = elim (delete_secret deletes i.sk_id v) [
  | none ↦ (v, refused uncaught)
  | some v' ↦ (
    record v' { identities = filter (λ j. not (j.uuid == i.uuid)) v'.identities },
    done "Identity deleted successfully",
  )
]

-- `delete` behind the look-up of the identity
unfoldable pub delete_found : Request → Bool → Vault → Option Identity → Vault × Response String
unfolding drop_identity
delete_found request deletes v none = (v, refused not_found)
delete_found request deletes v (some i) =
    if not (i.owner == request.username) then (v, refused forbidden) else drop_identity deletes i v

-- `delete`
unfoldable pub delete_identity : Request → ℕ → Bool → Vault → Vault × Response String
unfolding delete_found
delete_identity request uuid deletes v =
    delete_found request deletes v (find? (λ i. i.uuid == uuid) v.identities)
