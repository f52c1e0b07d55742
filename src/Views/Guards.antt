-- ===== src/Views/Guards.antt =====
-- Who may read and change the pipelines and archives of a group.
use tapis_workflows.Base.{
  String, ◌≡◌, ◌⊎◌, inl, inr, refl, Bool, true, Option, none, some, List, arith, ◌==◌, string_eq,
  nat_eq, filter, All, All-map, filter-All, find?, find?-In, [], ◌∷◌, Bool-cases, Option-cases,
}
use tapis_workflows.Api.{Group, Request, done, checked_group, get_group, user_in_group}
use tapis_workflows.Api.Owners.{checked_group-done, Response-cases}
use tapis_workflows.Api.Access.{checked_group-found}
use tapis_workflows.Views.{
  Pipeline, Archive, Tables, PipelineBody, SystemAnswer, pipeline_of, archive_of, get_pipelines,
  delete_pipeline, drop_pipeline, post_pipeline, get_archives, post_archive, delete_archive,
}

-- The caller belongs to the group, in the tenant of the request.
abbrev pub IsMemberOf : Request → String → Tables → Type 0
IsMemberOf request id db = user_in_group request.username id request.tenant_id none db.access ≡ true

pipelines_returned :
    (request : Request) (group_id : String) (g : Group) (name : Option String) (db : Tables)
    (ps : List Pipeline)
    → checked_group request group_id none db.access ≡ done g
    → get_pipelines request group_id name db ≡ done ps
    → All (λ (p : Pipeline). p.group ≡ g.uuid) ps
      × ((n : String) → name ≡ some n → All (λ (p : Pipeline). p.id ≡ n) ps)
unfolding get_pipelines
pipelines_returned request group_id g none db ps c e =
    let same : ps ≡ filter (λ p. p.group == g.uuid) db.pipelines = ground (arith, c) in
    (
      rw same (
          All-map (filter (λ (p : Pipeline). p.group == g.uuid) db.pipelines) (λ p h. ground arith)
            (filter-All (λ (p : Pipeline). p.group == g.uuid) db.pipelines)),
      λ n h. cc,
    )
pipelines_returned request group_id g (some name) db ps c e =
    elim (Option-cases (find? (pipeline_of g name) db.pipelines)) [
      | inl missing ↦ absurd (ground (arith, c, missing))
      | inr (p, found) ↦
          let same : ps ≡ p ∷ [] = ground (arith, c, found) in
          let (_, holds) = find?-In (pipeline_of g name) db.pipelines p found in
          (
            rw same (ground (arith, holds), tt),
            λ n h. let named : name ≡ n = ground arith in rw same (ground (arith, holds), tt),
          )
    ]

archives_returned :
    (request : Request) (group_id : String) (g : Group) (name : Option String) (db : Tables)
    (rows : List Archive)
    → checked_group request group_id none db.access ≡ done g
    → get_archives request group_id name db ≡ done rows
    → All (λ (a : Archive). a.group ≡ g.uuid) rows
      × ((n : String) → name ≡ some n → All (λ (a : Archive). a.id ≡ n) rows)
unfolding get_archives
archives_returned request group_id g none db rows c e =
    let same : rows ≡ filter (λ a. a.group == g.uuid) db.archives = ground (arith, c) in
    (
      rw same (
          All-map (filter (λ (a : Archive). a.group == g.uuid) db.archives) (λ a h. ground arith)
            (filter-All (λ (a : Archive). a.group == g.uuid) db.archives)),
      λ n h. cc,
    )
archives_returned request group_id g (some name) db rows c e =
    elim (Option-cases (find? (archive_of g name) db.archives)) [
      | inl missing ↦ absurd (ground (arith, c, missing))
      | inr (a, found) ↦
          let same : rows ≡ a ∷ [] = ground (arith, c, found) in
          let (_, holds) = find?-In (archive_of g name) db.archives a found in
          (
            rw same (ground (arith, holds), tt),
            λ n h. let named : name ≡ n = ground arith in rw same (ground (arith, holds), tt),
          )
    ]

-- Pipelines and archives are returned to members of the group of that id in the tenant of the request
-- only, and they are those of that group, of the id that is asked for if there is one; a call that creates
-- or deletes one and changes the tables is made by a member; and a call that deletes a pipeline and
-- changes the tables is made by the owner of a pipeline of that id in that group.
pub views_access :
    (request : Request) (group_id id : String) (db : Tables)
    → ((name : Option String) (ps : List Pipeline)
        → get_pipelines request group_id name db ≡ done ps
        → IsMemberOf request group_id db
          × ((g : Group) × (get_group group_id request.tenant_id db.access ≡ some g)
              × All (λ (x : Pipeline). x.group ≡ g.uuid) ps
              × ((n : String) → name ≡ some n → All (λ (x : Pipeline). x.id ≡ n) ps)))
      × ((name : Option String) (archives : List Archive)
          → get_archives request group_id name db ≡ done archives
          → IsMemberOf request group_id db
            × ((g : Group) × (get_group group_id request.tenant_id db.access ≡ some g)
                × All (λ (x : Archive). x.group ≡ g.uuid) archives
                × ((n : String) → name ≡ some n → All (λ (x : Archive). x.id ≡ n) archives)))
      × ((body : Option PipelineBody)
          → ((post_pipeline request group_id body db).0 ≡ db) ⊎ IsMemberOf request group_id db)
      × ((answer : SystemAnswer) (body : Option (String × Bool))
          → ((post_archive answer request group_id body db).0 ≡ db)
            ⊎ IsMemberOf request group_id db)
      × (((delete_archive request group_id id db).0 ≡ db) ⊎ IsMemberOf request group_id db)
      × (((delete_pipeline request group_id id db).0 ≡ db)
          ⊎ (IsMemberOf request group_id db
              × ((g : Group) × (get_group group_id request.tenant_id db.access ≡ some g)
                  × (p : Pipeline) × (find? (pipeline_of g id) db.pipelines ≡ some p)
                  × (p.owner ≡ request.username)
                  × ((delete_pipeline request group_id id db).0 ≡ drop_pipeline g id db))))
unfolding get_pipelines get_archives post_pipeline post_archive delete_archive delete_pipeline
views_access request group_id id db =
    elim (Response-cases (checked_group request group_id none db.access)) [
      | inl (x, c) ↦ (
        λ name ps e. absurd (ground (arith, c)),
        λ name archives e. absurd (ground (arith, c)),
        λ body. inl (rw (post_pipeline, c) refl),
        λ answer body. inl (rw (post_archive, c) refl),
        inl (rw (delete_archive, c) refl),
        inl (rw (delete_pipeline, c) refl),
      )
      | inr (g, c) ↦
          let member = (checked_group-done request group_id none db.access g c).3 in
          let tied = checked_group-found request group_id none db.access g c in
          (
            λ name ps e.
                let (grouped, named) = pipelines_returned request group_id g name db ps c e in
                (member, (g, tied, grouped, named)),
            λ name archives e.
                let (grouped, named) = archives_returned request group_id g name db archives c e in
                (member, (g, tied, grouped, named)),
            λ body. inr member,
            λ answer body. inr member,
            inr member,
            elim (Option-cases (find? (pipeline_of g id) db.pipelines)) [
              | inl missing ↦ inl (rw (delete_pipeline, c, missing) refl)
              | inr (p, found) ↦ elim (Bool-cases (request.username == p.owner)) [
                | inr other ↦ inl (rw (delete_pipeline, c, found, other) refl)
                | inl owns ↦ inr (
                  member,
                  (g, tied, p, found, ground arith, rw (delete_pipeline, c, found, owns) refl),
                )
              ]
            ],
          )
    ]
