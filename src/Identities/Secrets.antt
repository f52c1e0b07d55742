-- ===== src/Identities/Secrets.antt =====
-- What the view of identities changes, for whom, and what a failed call leaves behind.
use tapis_workflows.Base.{
  find?-In, filter-All, ℕ, String, ◌<>◌, Bool, true, false, not, ◌≡◌, ◌≢◌, refl, sym, ap, ◌∙◌,
  subst, Option, none, some, List, [], ◌∷◌, ◌++◌, arith, ◌==◌, contains, string_eq, nat_eq, filter,
  find?, All, All-map, In, Bool-cases, Option-cases, inl, inr,
}
use tapis_workflows.Api.{Request, bad_request, uncaught, Response, done, refused}
use tapis_workflows.Identities.{
  Identity, Vault, IdentityBody, Calls, save, delete_secret, own_identity, after_delete, undo_save,
  create_identity, save_identity, get_identities, post_identity, delete_found, delete_identity,
  is_taken, identity_types,
}

-- The identities that are returned
abbrev pub returned : Response (List Identity) → List Identity
returned (done found) = found
returned (refused x) = []

own_identity-owner :
    (request : Request) (found : Option Identity)
    → All (λ i. i.owner ≡ request.username) (returned (own_identity request found))
unfolding own_identity
own_identity-owner request none = tt
own_identity-owner request (some i) = elim (Bool-cases (request.username == i.owner)) [
  | inl own ↦ rw own (ground arith, tt)
  | inr other ↦ rw other tt
]

-- The identities that `get` returns are those of the caller.
get_identities-owner :
    (request : Request) (uuid : Option ℕ) (v : Vault)
    → All (λ i. i.owner ≡ request.username) (returned (get_identities request uuid v))
unfolding get_identities
get_identities-owner request none v =
    All-map (filter (λ i. i.owner == request.username) v.identities) (λ i h. ground arith)
      (filter-All (λ i. i.owner == request.username) v.identities)
get_identities-owner request (some uuid) v =
    own_identity-owner request (find? (λ i. i.uuid == uuid) v.identities)

-- The secret key that `post` makes is new.
abbrev pub key_of : Request → Calls → String
key_of request calls = "workflows+" <> (request.username <> ("+" <> calls.secret_uuid))

abbrev pub IsNew : String → Vault → Type 0
IsNew key v =
    All (λ i. i.sk_id ≢ key) v.identities
    × All (λ c. c ≢ key) v.credentials
    × All (λ c. c ≢ key) v.secrets

filter-keeps :
    {A : Type 0} (p : A → Bool) (xs : List A) → All (λ x. p x ≡ true) xs → filter p xs ≡ xs
filter-keeps p [] h = refl
filter-keeps p (x ∷ xs) h = rw (h.0, filter-keeps p xs h.1) refl

filter-drops :
    {A : Type 0} (p : A → Bool) (xs : List A) (y : A)
    → All (λ x. p x ≡ true) xs
    → p y ≡ false
    → filter p (xs ++ (y ∷ [])) ≡ xs
filter-drops p [] y h e = rw e refl
filter-drops p (x ∷ xs) y h e = rw (h.0, filter-drops p xs y h.1 e) refl

abbrev added : String → Vault → Vault
added key v = record v {
  credentials = v.credentials ++ (key ∷ []);
  secrets = v.secrets ++ (key ∷ []);
}

delete_secret-added :
    (key : String) (v : Vault) → IsNew key v → delete_secret true key (added key v) ≡ some v
unfolding delete_secret
delete_secret-added key v (is, cs, ss) =
    rw
      (
        filter-keeps (λ i. not (i.sk_id == key)) v.identities
            (All-map v.identities (λ i n. ground arith) is),
        filter-drops (λ c. not (c == key)) v.credentials key
            (All-map v.credentials (λ c n. ground arith) cs) (ground arith),
        filter-drops (λ c. not (c == key)) v.secrets key
            (All-map v.secrets (λ c n. ground arith) ss) (ground arith),
      )
      refl

-- Whether a response is a refusal
abbrev pub is_refused : Response ℕ → Bool
is_refused (done a) = false
is_refused (refused x) = true

-- A refused call changes nothing.
abbrev Restores : Vault → Vault × Response ℕ → Type 0
Restores v end = is_refused end.1 ≡ true → end.0 ≡ v

undo_save-added :
    (key : String) (v : Vault)
    → IsNew key v
    → undo_save true key (added key v) ≡ (v, refused bad_request)
unfolding undo_save
undo_save-added key v new = ap (after_delete (added key v)) (delete_secret-added key v new)

create_identity-Restores :
    (request : Request) (body : IdentityBody) (calls : Calls) (key : String) (v : Vault)
    → IsNew key v
    → calls.deletes ≡ true
    → calls.row_saved ≡ true
    → Restores v (create_identity request body calls key (added key v))
unfolding create_identity
create_identity-Restores request body calls key v new deletes row =
    let undone : undo_save calls.deletes key (added key v) ≡ (v, refused bad_request) =
      ap (λ b. undo_save b key (added key v)) deletes ∙ undo_save-added key v new in
    elim (Bool-cases (is_taken request body.name v.identities)) [
      | inl taken ↦ rw (row, taken) (subst (Restores v) (sym undone) (λ h. refl))
      | inr free ↦ rw (row, free) (λ h. cc)
    ]

save_identity-Restores :
    (request : Request) (body : IdentityBody) (calls : Calls) (v : Vault)
    → IsNew (key_of request calls) v
    → calls.deletes ≡ true
    → calls.credentials_saved ≡ true
    → calls.row_saved ≡ true
    → Restores v (save_identity request body calls v)
unfolding save_identity save
save_identity-Restores request body calls v new deletes kept row = elim (Bool-cases calls.writes) [
  | inl writes ↦
      rw (writes, kept)
        (create_identity-Restores request body calls (key_of request calls) v new deletes row)
  | inr fails ↦ rw fails (λ h. refl)
]

post_identity-Restores :
    (request : Request) (body : Option IdentityBody) (calls : Calls) (v : Vault)
    → IsNew (key_of request calls) v
    → calls.deletes ≡ true
    → calls.credentials_saved ≡ true
    → calls.row_saved ≡ true
    → Restores v (post_identity request body calls v)
unfolding post_identity
post_identity-Restores request none calls v new deletes kept row = λ h. refl
post_identity-Restores request (some body) calls v new deletes kept row =
    elim (Bool-cases (contains identity_types body.type)) [
      | inr other ↦ rw other (λ h. refl)
      | inl known ↦ elim (Option-cases calls.valid) [
        | inl raised ↦ rw (known, raised) (λ h. refl)
        | inr (false, invalid) ↦ rw (known, invalid) (λ h. refl)
        | inr (true, valid) ↦
            rw (known, valid) (save_identity-Restores request body calls v new deletes kept row)
      ]
    ]

-- The body has a known type and valid credentials, and their secret is written.
abbrev pub IsWritten : IdentityBody → Calls → Type 0
IsWritten body calls =
    (contains identity_types body.type ≡ true) × (calls.valid ≡ some true) × (calls.writes ≡ true)

-- If the key of the secret is new and the service of secrets deletes what it is asked to, then a `post`
-- that is refused leaves the tables and the secrets as they were, provided that the database takes the
-- row of the credentials and raises nothing but an `IntegrityError` for that of the identity. Otherwise
-- the secret that was written stays, and so do its credentials if the database took them.
pub post_identity-restores :
    (request : Request) (calls : Calls) (v : Vault)
    → IsNew (key_of request calls) v
    → calls.deletes ≡ true
    → (calls.credentials_saved ≡ true
        → calls.row_saved ≡ true
        → (body : Option IdentityBody) → is_refused (post_identity request body calls v).1 ≡ true
        → (post_identity request body calls v).0 ≡ v)
      × ((body : IdentityBody)
          → IsWritten body calls
          → calls.credentials_saved ≡ false
          → post_identity request (some body) calls v ≡ (
            record v { secrets = v.secrets ++ (key_of request calls ∷ []) },
            refused bad_request,
          ))
      × ((body : IdentityBody)
          → IsWritten body calls
          → calls.credentials_saved ≡ true
          → calls.row_saved ≡ false
          → post_identity request (some body) calls v
            ≡ (added (key_of request calls) v, refused uncaught))
unfolding post_identity save_identity save create_identity
post_identity-restores request calls v new deletes = (
  λ kept row body. post_identity-Restores request body calls v new deletes kept row,
  λ body written lost. rw (written.0, written.1, written.2, lost) refl,
  λ body written kept row. rw (written.0, written.1, written.2, kept, row) refl,
)

delete_found-owner :
    (request : Request) (deletes : Bool) (v : Vault) (found : Option Identity)
    → (delete_found request deletes v found).0 ≢ v
    → (i : Identity) × (found ≡ some i) × (i.owner ≡ request.username)
unfolding delete_found
delete_found-owner request deletes v none changed = absurd (changed refl)
delete_found-owner request deletes v (some i) changed =
    elim (Bool-cases (i.owner == request.username)) [
      | inl own ↦ (i, refl, ground arith)
      | inr other ↦ absurd (changed (rw other refl))
    ]

delete_identity-owner :
    (request : Request) (uuid : ℕ) (deletes : Bool) (v : Vault)
    → (delete_identity request uuid deletes v).0 ≢ v
    → (i : Identity) × In i v.identities × (i.uuid ≡ uuid) × (i.owner ≡ request.username)
unfolding delete_identity
delete_identity-owner request uuid deletes v changed =
    let (i, there, own) =
      delete_found-owner request deletes v (find? (λ i. i.uuid == uuid) v.identities) changed in
    let (member, same) = find?-In (λ i. i.uuid == uuid) v.identities i there in
    (i, member, ground arith, own)

-- The same caller in another tenant
abbrev pub in_tenant : String → Request → Request
in_tenant t request = record request { tenant_id = t }

get_any_tenant :
    (t : String) (request : Request) (uuid : Option ℕ) (v : Vault)
    → get_identities (in_tenant t request) uuid v ≡ get_identities request uuid v
unfolding get_identities own_identity
get_any_tenant t request none v = refl
get_any_tenant t request (some uuid) v =
    elim (Option-cases (find? (λ (i : Identity). i.uuid == uuid) v.identities)) [
      | inl missing ↦ rw missing refl
      | inr (i, found) ↦ rw found refl
    ]

delete_any_tenant :
    (t : String) (request : Request) (uuid : ℕ) (deletes : Bool) (v : Vault)
    → delete_identity (in_tenant t request) uuid deletes v ≡ delete_identity request uuid deletes v
unfolding delete_identity delete_found
delete_any_tenant t request uuid deletes v =
    elim (Option-cases (find? (λ (i : Identity). i.uuid == uuid) v.identities)) [
      | inl missing ↦ rw missing refl
      | inr (i, found) ↦ rw found refl
    ]

-- `get` returns only identities whose owner has the name of the caller, and a `delete` that changes
-- anything is made by a caller with the name of the owner of the identity with that key. But names are
-- all that is compared: a caller of the same name in any other tenant gets and deletes just the same.
pub identities_access :
    (request : Request) (v : Vault)
    → ((uuid : Option ℕ)
        → All (λ i. i.owner ≡ request.username) (returned (get_identities request uuid v)))
      × ((uuid : ℕ) (deletes : Bool)
          → (delete_identity request uuid deletes v).0 ≢ v
          → (i : Identity) × In i v.identities × (i.uuid ≡ uuid) × (i.owner ≡ request.username))
      × ((t : String)
          → ((uuid : Option ℕ)
              → get_identities (in_tenant t request) uuid v ≡ get_identities request uuid v)
            × ((uuid : ℕ) (deletes : Bool)
                → delete_identity (in_tenant t request) uuid deletes v
                  ≡ delete_identity request uuid deletes v))
identities_access request v = (
  λ uuid. get_identities-owner request uuid v,
  λ uuid deletes changed. delete_identity-owner request uuid deletes v changed,
  λ t. (
    λ uuid. get_any_tenant t request uuid v,
    λ uuid deletes. delete_any_tenant t request uuid deletes v,
  ),
)
