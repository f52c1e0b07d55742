-- ===== src/Api.antt =====
-- The group part of the API: backend/models.py, backend/services/GroupService.py and the views of
-- groups and of their users. A row is a record, a table is a list, and a create fails only where a
-- constraint of the model forbids it. `prepare` gives a body, or `none` where it is not valid.
pub mod Owners
pub mod Access
use tapis_workflows.Base.{
  ℕ, String, Bool, true, false, not, ◌&&◌, ◌||◌, Option, none, some, List, [], ◌∷◌, ◌++◌, ◌==◌,
  string_eq, nat_eq, filter, find?, if◌then◌else◌,
}

-- `Group`, with its primary key
pub record Group : Type 0 where
  pub uuid : ℕ
  pub id : String
  pub owner : String
  pub tenant_id : String

-- `GroupUser`: `group` is the foreign key.
pub record GroupUser : Type 0 where
  pub group : ℕ
  pub username : String
  pub is_admin : Bool

pub record Db : Type 0 where
  pub groups : List Group
  pub users : List GroupUser

-- The authenticated request
pub record Request : Type 0 where
  pub username : String
  pub tenant_id : String

pub data Refusal : Type 0 where
  not_found forbidden bad_request conflict unprocessable server_error : Refusal
  -- an exception that the view does not catch
  uncaught : Refusal

pub data Response {ℓ} (A : Type ℓ) : Type ℓ where
  done : A → Response A
  refused : Refusal → Response A

-- `GroupService.get`
unfoldable pub get_group : String → String → Db → Option Group
get_group group_id tenant_id db =
    find? (λ g. g.id == group_id && g.tenant_id == tenant_id) db.groups

abbrev pub any_user : (GroupUser → Bool) → List GroupUser → Bool
any_user p [] = false
any_user p (u ∷ us) = p u || any_user p us

abbrev pub same_flag : Option Bool → Bool → Bool
same_flag none flag = true
same_flag (some true) flag = flag
same_flag (some false) flag = not flag

-- `GroupService.user_in_group`
unfoldable pub user_in_group : String → String → String → Option Bool → Db → Bool
unfolding get_group
user_in_group username group_id tenant_id is_admin db = elim (get_group group_id tenant_id db) [
  | none ↦ false
  | some g ↦
      any_user (λ u. u.username == username && (u.group == g.uuid && same_flag is_admin u.is_admin))
        db.users
]

abbrev pub any_group : (Group → Bool) → List Group → Bool
any_group p [] = false
any_group p (g ∷ gs) = p g || any_group p gs

-- `GroupService.user_owns_group`
unfoldable pub user_owns_group : String → String → String → Db → Bool
user_owns_group username group_id tenant_id db =
    any_group (λ g. g.id == group_id && (g.owner == username && g.tenant_id == tenant_id)) db.groups

-- The two checks that the views begin with: the group, if it exists and the user belongs to it
unfoldable pub checked_group : Request → String → Option Bool → Db → Response Group
unfolding user_in_group
checked_group request group_id is_admin db = elim (get_group group_id request.tenant_id db) [
  | none ↦ refused not_found
  | some g ↦
      if user_in_group request.username group_id request.tenant_id is_admin db
      then done g
      else refused forbidden
]

abbrev pub member_row : Group → String → GroupUser → Bool
member_row g username u = u.group == g.uuid && u.username == username

-- `Users.get`: `next(...)` raises where no user has the name.
unfoldable pub get_users : Request → String → Option String → Db → Response (List GroupUser)
unfolding checked_group
get_users request group_id username db = elim (checked_group request group_id none db) [
  | refused x ↦ refused x
  | done g ↦ elim username [
    | none ↦ done (filter (λ u. u.group == g.uuid) db.users)
    | some name ↦ elim (find? (member_row g name) db.users) [
      | none ↦ refused uncaught
      | some u ↦ done (u ∷ [])
    ]
  ]
]

-- `Users.post`, with the name and the flag of the body
unfoldable pub post_user : Request → String → Option (String × Bool) → Db → Db × Response String
unfolding checked_group
post_user request group_id body db = elim (checked_group request group_id (some true) db) [
  | refused x ↦ (db, refused x)
  | done g ↦ elim body [
    | none ↦ (db, refused bad_request)
    | some (name, is_admin) ↦ elim (find? (member_row g name) db.users) [
      | some u ↦ (db, done u.username)
      | none ↦
          let u : GroupUser = record { group = g.uuid; username = name; is_admin = is_admin } in
          (record db { users = db.users ++ (u ∷ []) }, done name)
    ]
  ]
]

-- `Users.patch`: a model instance has no method `update`, and neither has `None`.
unfoldable pub patch_user : Request → String → Option Bool → Db → Db × Response String
unfolding checked_group
patch_user request group_id body db = elim (checked_group request group_id (some true) db) [
  | refused x ↦ (db, refused x)
  | done g ↦ elim body [ none ↦ (db, refused bad_request) | some flag ↦ (db, refused uncaught) ]
]

-- `group_user.delete()`, of the first row that the filter finds
unfoldable pub delete_row : (GroupUser → Bool) → List GroupUser → List GroupUser
delete_row p [] = []
delete_row p (u ∷ us) = let rest = delete_row p us in if p u then us else u ∷ rest

-- `Users.delete`
unfoldable pub delete_user : Request → String → String → Db → Db × Response String
unfolding checked_group user_owns_group delete_row
delete_user request group_id username db = elim (checked_group request group_id (some true) db) [
  | refused x ↦ (db, refused x)
  | done g ↦
      if user_owns_group username group_id request.tenant_id db
      then (db, refused unprocessable)
      else (elim (find? (member_row g username) db.users) [
        | none ↦ (db, refused not_found)
        | some u ↦
            if u.is_admin && not (user_owns_group request.username group_id request.tenant_id db)
            then (db, refused forbidden)
            else (record db { users = delete_row (member_row g username) db.users }, done username)
      ])
]

-- `Groups.get`, for one group
unfoldable pub get_group_view : Request → String → Db → Response (Group × List GroupUser)
unfolding get_group
get_group_view request group_id db = elim (get_group group_id request.tenant_id db) [
  | none ↦ refused not_found
  | some g ↦
      if any_user (λ u. u.group == g.uuid && u.username == request.username) db.users
      then done (g, filter (λ u. u.group == g.uuid) db.users)
      else refused forbidden
]

-- The loop of `Groups.post` over the users of the body
unfoldable pub other_users : ℕ → String → List (String × Bool) → List GroupUser
other_users uuid owner [] = []
other_users uuid owner ((name, is_admin) ∷ users) =
    let rest = other_users uuid owner users in
    let u : GroupUser = record { group = uuid; username = name; is_admin = is_admin } in
    if name == owner then rest else u ∷ rest

-- `Groups.post`: `uuid` is the primary key of the new row. The model has the ids of all tenants unique,
-- and the view looks at its own tenant only.
unfoldable pub post_group :
    ℕ → Request → Option (String × List (String × Bool)) → Db → Db × Response String
unfolding other_users
post_group uuid request body db = elim body [
  | none ↦ (db, refused bad_request)
  | some (id, users) ↦
      if any_group (λ g. g.id == id && g.tenant_id == request.tenant_id) db.groups
      then (db, refused conflict)
      else if any_group (λ g. g.id == id) db.groups
      then (db, refused server_error)
      else (
        record db {
          groups =
              db.groups
              ++ (record {
                uuid = uuid;
                id = id;
                owner = request.username;
                tenant_id = request.tenant_id;
              }
                  ∷ []);
          users =
              db.users
              ++ (record { group = uuid; username = request.username; is_admin = true }
                  ∷ other_users uuid request.username users);
        },
        done id,
      )
]

abbrev groups_of_user : List Group → List GroupUser → List Group
groups_of_user groups [] = []
groups_of_user groups (u ∷ us) =
    let rest = groups_of_user groups us in
    elim (find? (λ g. g.uuid == u.group) groups) [ none ↦ rest | some g ↦ g ∷ rest ]

-- `Groups.list`
unfoldable pub list_groups : Request → Db → List Group
list_groups request db =
    filter (λ g. g.tenant_id == request.tenant_id)
      (groups_of_user db.groups (filter (λ u. u.username == request.username) db.users))
