-- ===== src/Api/Access.antt =====
-- Who may read and change the users of a group.
use tapis_workflows.Base.{
  String, ◌≡◌, ◌⊎◌, inl, inr, refl, Bool, true, false, not, ◌&&◌, Option, none, some, List, arith,
  string_eq, nat_eq, filter, All, All-map, filter-All, find?, find?-In, [], ◌∷◌, ◌==◌, sym, ap, ◌∙◌,
  Bool-cases, Option-cases,
}
use tapis_workflows.Api.{
  Group, GroupUser, Db, Request, done, member_row, checked_group, get_group, user_in_group,
  user_owns_group, delete_row, get_users, post_user, delete_user,
}
use tapis_workflows.Api.Owners.{checked_group-done, Response-cases}

-- The caller is an administrator of the group, in the tenant of the request.
abbrev pub IsAdminOf : Request → String → Db → Type 0
IsAdminOf request id db = user_in_group request.username id request.tenant_id (some true) db ≡ true

-- The group that the check passes is the one of that id in the tenant of the request.
pub checked_group-found :
    (request : Request) (id : String) (flag : Option Bool) (db : Db) (g : Group)
    → checked_group request id flag db ≡ done g
    → get_group id request.tenant_id db ≡ some g
unfolding checked_group
checked_group-found request id flag db g e =
    elim (Option-cases (get_group id request.tenant_id db)) [
      | inl missing ↦ absurd (ground (arith, missing))
      | inr (h, found) ↦ let same : g ≡ h = ground (arith, found) in found ∙ ap some (sym same)
    ]

returned :
    (request : Request) (id : String) (g : Group) (name : Option String) (db : Db)
    (us : List GroupUser)
    → checked_group request id none db ≡ done g
    → get_users request id name db ≡ done us
    → All (λ (u : GroupUser). u.group ≡ g.uuid) us
      × ((n : String) → name ≡ some n → All (λ (u : GroupUser). u.username ≡ n) us)
unfolding get_users
returned request id g none db us c e =
    let same : us ≡ filter (λ u. u.group == g.uuid) db.users = ground (arith, c) in
    (
      rw same (
          All-map (filter (λ (u : GroupUser). u.group == g.uuid) db.users) (λ u h. ground arith)
            (filter-All (λ (u : GroupUser). u.group == g.uuid) db.users)),
      λ n h. cc,
    )
returned request id g (some name) db us c e =
    elim (Option-cases (find? (member_row g name) db.users)) [
      | inl missing ↦ absurd (ground (arith, c, missing))
      | inr (u, found) ↦
          let same : us ≡ u ∷ [] = ground (arith, c, found) in
          let (_, holds) = find?-In (member_row g name) db.users u found in
          (
            rw same (ground (arith, holds), tt),
            λ n h. let named : name ≡ n = ground arith in rw same (ground (arith, holds), tt),
          )
    ]

-- Users are returned to members of the group of that id in the tenant of the request only, and they are
-- users of that group, with the name that is asked for if there is one; a call that adds or removes a
-- user and changes the table is made by an administrator of the group; and the row that a call removes
-- is one of that group and of that user, and neither that of a user who owns a group of that id in the tenant nor, unless the caller owns one,
-- that of an administrator.
pub users_access :
    (request : Request) (id username : String) (db : Db)
    → ((name : Option String) (us : List GroupUser)
        → get_users request id name db ≡ done us
        → (user_in_group request.username id request.tenant_id none db ≡ true)
          × ((g : Group) × (get_group id request.tenant_id db ≡ some g)
              × All (λ (u : GroupUser). u.group ≡ g.uuid) us
              × ((n : String) → name ≡ some n → All (λ (u : GroupUser). u.username ≡ n) us)))
      × ((body : Option (String × Bool))
          → ((post_user request id body db).0 ≡ db) ⊎ IsAdminOf request id db)
      × (((delete_user request id username db).0 ≡ db)
          ⊎ (IsAdminOf request id db
              × (user_owns_group username id request.tenant_id db ≡ false)
              × ((g : Group) × (get_group id request.tenant_id db ≡ some g)
                  × (u : GroupUser) × (find? (member_row g username) db.users ≡ some u)
                  × ((delete_user request id username db).0
                      ≡ record db { users = delete_row (member_row g username) db.users })
                  × ((u.is_admin ≡ false)
                      ⊎ (user_owns_group request.username id request.tenant_id db ≡ true)))))
unfolding get_users post_user delete_user
users_access request id username db = (
  λ name us e. elim (Response-cases (checked_group request id none db)) [
    | inl (x, c) ↦ absurd (ground (arith, c))
    | inr (g, c) ↦
        let (grouped, named) = returned request id g name db us c e in
        (
          (checked_group-done request id none db g c).3,
          (g, checked_group-found request id none db g c, grouped, named),
        )
  ],
  λ body. elim (Response-cases (checked_group request id (some true) db)) [
    | inl (x, c) ↦ inl (rw (post_user, c) refl)
    | inr (g, c) ↦ inr (checked_group-done request id (some true) db g c).3
  ],
  elim (Response-cases (checked_group request id (some true) db)) [
    | inl (x, c) ↦ inl (rw (delete_user, c) refl)
    | inr (g, c) ↦ elim (Bool-cases (user_owns_group username id request.tenant_id db)) [
      | inl owns ↦ inl (rw (delete_user, c, owns) refl)
      | inr other ↦ elim (Option-cases (find? (member_row g username) db.users)) [
        | inl missing ↦ inl (rw (delete_user, c, other, missing) refl)
        | inr (u, found) ↦
            elim (Bool-cases
              (u.is_admin && not (user_owns_group request.username id request.tenant_id db))) [
                | inl b ↦ inl (rw (delete_user, c, other, found, b) refl)
                | inr b ↦ inr (
                  (checked_group-done request id (some true) db g c).3,
                  other,
                  (
                    g,
                    checked_group-found request id (some true) db g c,
                    u,
                    found,
                    rw (delete_user, c, other, found, b) refl,
                    allowed u.is_admin _ b,
                  ),
                )
              ]
      ]
    ]
  ],
)
  where
    allowed : (a b : Bool) → (a && not b) ≡ false → (a ≡ false) ⊎ (b ≡ true)
    allowed true true e = inr refl
    allowed true false e = cc
    allowed false b e = inl refl
