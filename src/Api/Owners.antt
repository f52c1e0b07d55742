-- ===== src/Api/Owners.antt =====
-- The owner of a group stays one of its administrators.
use tapis_workflows.Base.{
  ℕ, String, ◌≡◌, ◌≢◌, ◌⊎◌, inl, inr, refl, sym, ap, ◌∙◌, subst, Bool, true, false, not, ◌&&◌, ◌||◌,
  Option, none, some, List, [], ◌∷◌, ◌++◌, arith, ◌==◌, string_eq, nat_eq, find?, Bool-cases,
  Option-cases,
}
use tapis_workflows.Api.{
  Group, GroupUser, Db, Request, Refusal, Response, done, refused, get_group, any_user, any_group,
  member_row, checked_group, user_in_group, user_owns_group, delete_row, post_user, patch_user,
  delete_user, other_users, post_group,
}

abbrev pub In : Group → List Group → Type 0
In g [] = ⊥
In g (h ∷ hs) = (g ≡ h) ⊎ In g hs

abbrev pub owner_row : Group → GroupUser → Bool
owner_row g u = member_row g g.owner u && u.is_admin

-- The keys are keys, and every group has a row that makes its owner an administrator.
pub record Owned (db : Db) : Type 0 where
  pub one : (g h : Group) → In g db.groups → In h db.groups → g.uuid ≡ h.uuid → g ≡ h
  pub owned : (g : Group) → In g db.groups → any_user (owner_row g) db.users ≡ true

any_user-append :
    (p : GroupUser → Bool) (us vs : List GroupUser)
    → any_user p (us ++ vs) ≡ (any_user p us || any_user p vs)
any_user-append p [] vs = refl
any_user-append p (u ∷ us) vs = ground (arith, any_user-append p us vs)

any_user-delete_row :
    (p q : GroupUser → Bool) (us : List GroupUser)
    → ((u : GroupUser) → p u ≡ true → q u ≡ false)
    → any_user q us ≡ true
    → any_user q (delete_row p us) ≡ true
unfolding delete_row
any_user-delete_row p q [] apart h = h
any_user-delete_row p q (u ∷ us) apart h = ground (arith, apart u, any_user-delete_row p q us apart)

In-append : (g h : Group) (gs : List Group) → In g (gs ++ (h ∷ [])) → In g gs ⊎ (g ≡ h)
In-append g h [] (inl e) = inr e
In-append g h [] (inr i) = absurd i
In-append g h (x ∷ gs) (inl e) = inl (inl e)
In-append g h (x ∷ gs) (inr i) = elim (In-append g h gs i) [ inl j ↦ inl (inr j) | inr e ↦ inr e ]

-- The group that the filter finds
find?-In :
    (p : Group → Bool) (gs : List Group) (g : Group) → find? p gs ≡ some g → In g gs × (p g ≡ true)
find?-In p [] g e = cc
find?-In p (h ∷ gs) g e = elim (Bool-cases (p h)) [
  | inl yes_ ↦ let same : g ≡ h = ground arith in (inl same, ap p same ∙ yes_)
  | inr no_ ↦ let (i, holds) = find?-In p gs g (rw no_ at e) in (inr i, holds)
]

any_group-false :
    (p : Group → Bool) (gs : List Group)
    → any_group p gs ≡ false
    → (g : Group) → In g gs
    → p g ≡ false
any_group-false p [] e g i = absurd i
any_group-false p (h ∷ gs) e g (inl same) = rw same (ground arith)
any_group-false p (h ∷ gs) e g (inr i) = any_group-false p gs (ground arith) g i

pub checked_group-done :
    (request : Request) (id : String) (flag : Option Bool) (db : Db) (g : Group)
    → checked_group request id flag db ≡ done g
    → In g db.groups
      × (g.id ≡ id)
      × (g.tenant_id ≡ request.tenant_id)
      × (user_in_group request.username id request.tenant_id flag db ≡ true)
unfolding checked_group get_group
checked_group-done request id flag db g e =
    elim (Option-cases (get_group id request.tenant_id db)) [
      | inl missing ↦ absurd (ground (arith, missing))
      | inr (h, found) ↦
          let member : user_in_group request.username id request.tenant_id flag db ≡ true =
            ground (arith, found) in
          let same : g ≡ h = ground (arith, found) in
          let (i, holds) =
            find?-In (λ x. x.id == id && x.tenant_id == request.tenant_id) db.groups h found in
          (rw same i, rw same (ground arith), rw same (ground arith), member)
    ]

abbrev row : Group → String → Bool → GroupUser
row g name is_admin = record { group = g.uuid; username = name; is_admin = is_admin }

add_row-Owned :
    (db : Db) (u : GroupUser) → Owned db → Owned (record db { users = db.users ++ (u ∷ []) })
add_row-Owned db u o = record {
  one = o.one;
  owned = λ g i. ground (arith, any_user-append (owner_row g) db.users (u ∷ []), o.owned g i);
}

pub Response-cases {ℓ} :
    {A : Type ℓ} (r : Response A) → ((x : Refusal) × (r ≡ refused x)) ⊎ ((a : A) × (r ≡ done a))
Response-cases (refused x) = inl (x, refl)
Response-cases (done a) = inr (a, refl)

post_user-Owned :
    (request : Request) (id : String) (body : Option (String × Bool)) (db : Db)
    → Owned db
    → Owned (post_user request id body db).0
unfolding post_user
post_user-Owned request id none db o =
    elim (Response-cases (checked_group request id (some true) db)) [
      | inl (x, e) ↦ rw (post_user, e) o
      | inr (g, e) ↦ rw (post_user, e) o
    ]
post_user-Owned request id (some (name, flag)) db o =
    elim (Response-cases (checked_group request id (some true) db)) [
      | inl (x, e) ↦ rw (post_user, e) o
      | inr (g, e) ↦ elim (Option-cases (find? (member_row g name) db.users)) [
        | inl missing ↦ rw (post_user, e, missing) (add_row-Owned db (row g name flag) o)
        | inr (u, found) ↦ rw (post_user, e, found) o
      ]
    ]

delete_row-Owned :
    (db : Db) (g : Group) (username : String)
    → Owned db
    → In g db.groups
    → g.owner ≢ username
    → Owned (record db { users = delete_row (member_row g username) db.users })
delete_row-Owned db g username o i differ = record {
  one = o.one;
  owned = λ h j.
      any_user-delete_row (member_row g username) (owner_row h) db.users (apart h j) (o.owned h j);
}
  where
    apart :
        (h : Group)
        → In h db.groups
        → (u : GroupUser) → member_row g username u ≡ true
        → owner_row h u ≡ false
    apart h j u e = elim (Bool-cases (owner_row h u)) [
      | inr no_ ↦ no_
      | inl yes_ ↦
          let same_group : g.uuid ≡ h.uuid = ground (arith, e, yes_) in
          let same : g ≡ h = o.one g h i j same_group in
          let named : h.owner ≡ username = ground (arith, e, yes_) in
          absurd (differ (ap (λ (x : Group). x.owner) same ∙ named))
    ]

not_owner :
    (request : Request) (id username : String) (db : Db) (g : Group)
    → (In g db.groups
        × (g.id ≡ id)
        × (g.tenant_id ≡ request.tenant_id)
        × (user_in_group request.username id request.tenant_id (some true) db ≡ true))
    → user_owns_group username id request.tenant_id db ≡ false
    → g.owner ≢ username
unfolding user_owns_group
not_owner request id username db g (i, same_id, same_tenant, _) other owner =
    let not_found_ =
      any_group-false (λ x. x.id == id && (x.owner == username && x.tenant_id == request.tenant_id))
        db.groups other g i in
    ground (arith, not_found_, same_id, same_tenant, owner)

delete_user-Owned :
    (request : Request) (id username : String) (db : Db)
    → Owned db
    → Owned (delete_user request id username db).0
unfolding delete_user user_owns_group
delete_user-Owned request id username db o =
    elim (Response-cases (checked_group request id (some true) db)) [
      | inl (x, e) ↦ rw (delete_user, e) o
      | inr (g, e) ↦ elim (Bool-cases (user_owns_group username id request.tenant_id db)) [
        | inl owns ↦ rw (delete_user, e, owns) o
        | inr other ↦ elim (Option-cases (find? (member_row g username) db.users)) [
          | inl missing ↦ rw (delete_user, e, other, missing) o
          | inr (u, found) ↦
              let blocked =
                u.is_admin && not (user_owns_group request.username id request.tenant_id db) in
              elim (Bool-cases blocked) [
                | inl b ↦ rw (delete_user, e, other, found, b) o
                | inr b ↦
                    rw (delete_user, e, other, found, b)
                      (delete_row-Owned db g username o
                        (checked_group-done request id (some true) db g e).0
                        (not_owner request id username db g
                          (checked_group-done request id (some true) db g e) other))
              ]
        ]
      ]
    ]

patch_user-same :
    (request : Request) (id : String) (body : Option Bool) (db : Db)
    → (patch_user request id body db).0 ≡ db
unfolding patch_user
patch_user-same request id body db =
    elim (Response-cases (checked_group request id (some true) db)) [
      | inl (x, e) ↦ rw (patch_user, e) refl
      | inr (g, e) ↦ elim (Option-cases body) [
        | inl b ↦ rw (patch_user, e, b) refl
        | inr (flag, b) ↦ rw (patch_user, e, b) refl
      ]
    ]

add_group-Owned :
    (db : Db) (g : Group) (us : List GroupUser)
    → Owned db
    → any_group (λ h. h.uuid == g.uuid) db.groups ≡ false
    → Owned (record db {
      groups = db.groups ++ (g ∷ []);
      users = db.users ++ (row g g.owner true ∷ us);
    })
add_group-Owned db g us o fresh = record {
  one = λ h k i j same. elim (In-append h g db.groups i) [
    | inl i' ↦ elim (In-append k g db.groups j) [
      | inl j' ↦ o.one h k i' j' same
      | inr e ↦ absurd (clash h i' (same ∙ ap (λ (x : Group). x.uuid) e))
    ]
    | inr e ↦ elim (In-append k g db.groups j) [
      | inl j' ↦ absurd (clash k j' (sym same ∙ ap (λ (x : Group). x.uuid) e))
      | inr f ↦ e ∙ sym f
    ]
  ];
  owned = λ h i.
      any_user-append (owner_row h) db.users (row g g.owner true ∷ us)
      ∙ elim (In-append h g db.groups i) [
        | inl i' ↦ ground (arith, o.owned h i')
        | inr e ↦ rw e (ground arith)
      ];
}
  where
    clash : (h : Group) → In h db.groups → h.uuid ≢ g.uuid
    clash h i same =
        let no_ = any_group-false (λ x. x.uuid == g.uuid) db.groups fresh h i in
        ground (arith, no_, same)

post_group-Owned :
    (uuid : ℕ) (request : Request) (body : Option (String × List (String × Bool))) (db : Db)
    → Owned db
    → any_group (λ h. h.uuid == uuid) db.groups ≡ false
    → Owned (post_group uuid request body db).0
unfolding post_group
post_group-Owned uuid request none db o fresh = o
post_group-Owned uuid request (some (id, users)) db o fresh =
    let here = any_group (λ g. g.id == id && g.tenant_id == request.tenant_id) db.groups in
    let anywhere = any_group (λ g. g.id == id) db.groups in
    let g : Group = record {
      uuid = uuid;
      id = id;
      owner = request.username;
      tenant_id = request.tenant_id;
    } in
    elim (Bool-cases here) [
      | inl e ↦ rw (post_group, e) o
      | inr e ↦ elim (Bool-cases anywhere) [
        | inl f ↦ rw (post_group, e, f) o
        | inr f ↦
            rw (post_group, e, f)
              (add_group-Owned db g (other_users uuid request.username users) o fresh)
      ]
    ]

-- The calls that change groups or their users
pub data Call : Type 0 where
  create_group : (uuid : ℕ) → Request → Option (String × List (String × Bool)) → Call
  add_user : Request → (id : String) → Option (String × Bool) → Call
  update_user : Request → (id : String) → Option Bool → Call
  remove_user : Request → (id username : String) → Call

abbrev pub serve : Call → Db → Db
serve (create_group uuid request body) db = (post_group uuid request body db).0
serve (add_user request id body) db = (post_user request id body db).0
serve (update_user request id body) db = (patch_user request id body db).0
serve (remove_user request id username) db = (delete_user request id username db).0

-- The keys of new groups are new.
abbrev pub FreshKeys : List Call → Db → Type 0
FreshKeys [] db = Unit
FreshKeys (create_group uuid request body ∷ calls) db =
    (any_group (λ h. h.uuid == uuid) db.groups ≡ false)
    × FreshKeys calls (serve (create_group uuid request body) db)
FreshKeys (add_user request id body ∷ calls) db =
    FreshKeys calls (serve (add_user request id body) db)
FreshKeys (update_user request id body ∷ calls) db =
    FreshKeys calls (serve (update_user request id body) db)
FreshKeys (remove_user request id username ∷ calls) db =
    FreshKeys calls (serve (remove_user request id username) db)

abbrev pub serve_all : List Call → Db → Db
serve_all [] db = db
serve_all (c ∷ calls) db = serve_all calls (serve c db)

-- Whatever calls are served, by whomever they are made: if the primary keys of new groups are new, then
-- every group keeps a row that makes its owner one of its administrators.
pub owners_stay :
    (calls : List Call) (db : Db) → FreshKeys calls db → Owned db → Owned (serve_all calls db)
owners_stay [] db fresh o = o
owners_stay (create_group uuid request body ∷ calls) db fresh o =
    owners_stay calls (serve (create_group uuid request body) db) fresh.1
      (post_group-Owned uuid request body db o fresh.0)
owners_stay (add_user request id body ∷ calls) db fresh o =
    owners_stay calls (serve (add_user request id body) db) fresh
      (post_user-Owned request id body db o)
owners_stay (update_user request id body ∷ calls) db fresh o =
    owners_stay calls (serve (update_user request id body) db) fresh
      (subst Owned (sym (patch_user-same request id body db)) o)
owners_stay (remove_user request id username ∷ calls) db fresh o =
    owners_stay calls (serve (remove_user request id username) db) fresh
      (delete_user-Owned request id username db o)
