-- ===== src/Records/Archives.antt =====
-- The archives of a pipeline: what is added can be listed and removed.
use tapis_workflows.Base.{
  find?-In, ℕ, String, ◌≡◌, inl, inr, refl, sym, ap, false, not, ◌&&◌, none, some, List, [], ◌∷◌,
  ◌++◌, arith, ◌==◌, string_eq, nat_eq, filter, find?, Bool-cases, Option-cases,
}
use tapis_workflows.Api.{
  Group, Request, Refusal, bad_request, not_found, Response, done, refused, checked_group,
}
use tapis_workflows.Api.Owners.{Response-cases}
use tapis_workflows.Records.{
  Pipeline, Archive, PipelineArchive, Tables, checked_pipeline, archives_of, list_pipeline_archives,
  archive_named, linked, any_linked, add_pipeline_archive, remove_pipeline_archive,
}

-- The answer for a missing pipeline does not matter where there is one.
checked_pipeline-done_any :
    (x y : Refusal) (request : Request) (group_id pipeline_id : String) (db : Tables)
    (gp : Group × Pipeline)
    → checked_pipeline x request group_id pipeline_id db ≡ done gp
    → checked_pipeline y request group_id pipeline_id db ≡ done gp
unfolding checked_pipeline
checked_pipeline-done_any x y request group_id pipeline_id db gp e =
    elim (Response-cases (checked_group request group_id none db.access)) [
      | inl (z, c) ↦ absurd (ground (arith, c))
      | inr (g, c) ↦
          elim (Option-cases
            (find? (λ (p : Pipeline). p.group == g.uuid && p.id == pipeline_id) db.pipelines)) [
              | inl missing ↦ absurd (ground (arith, c, missing))
              | inr (p, found) ↦
                  rw (checked_pipeline, c, found) (rw (checked_pipeline, c, found) at e)
            ]
    ]

filter-linked :
    (k : ℕ) (a : Archive) (xs : List PipelineArchive)
    → any_linked k a xs ≡ false
    → filter (λ x. not (linked k a x)) (xs ++ (record { pipeline = k; archive = a } ∷ [])) ≡ xs
filter-linked k a [] e = ground arith
filter-linked k a (x ∷ xs) e = ground (arith, filter-linked k a xs)

archives_of-append :
    (k : ℕ) (a : Archive) (xs : List PipelineArchive)
    → archives_of k (xs ++ (record { pipeline = k; archive = a } ∷ []))
      ≡ archives_of k xs ++ (a ∷ [])
archives_of-append k a [] = ground arith
archives_of-append k a (x ∷ xs) = ground (arith, archives_of-append k a xs)

refused≢done : {A : Type 0} {x : Refusal} {a : A} → ◌≡◌ {A = Response A} (refused x) (done a) → ⊥
refused≢done e = cc

-- The tables with one more pair
abbrev with_archive : Tables → ℕ → Archive → Tables
with_archive db k a = record db {
  pipeline_archives = db.pipeline_archives ++ (record { pipeline = k; archive = a } ∷ []);
}

add_pipeline_archive-done :
    (request : Request) (group_id pipeline_id id : String) (db db' : Tables)
    → add_pipeline_archive request group_id pipeline_id (some id) db ≡ (db', done id)
    → (g : Group) × (p : Pipeline) × (a : Archive) × (checked_pipeline bad_request request group_id
          pipeline_id db
        ≡ done (g, p))
      × (find? (archive_named g id) db.archives ≡ some a)
      × (any_linked p.uuid a db.pipeline_archives ≡ false)
      × (db' ≡ with_archive db p.uuid a)
unfolding add_pipeline_archive
add_pipeline_archive-done request group_id pipeline_id id db db' e =
    elim (Response-cases (checked_pipeline bad_request request group_id pipeline_id db)) [
      | inl (x, c) ↦ absurd (refused≢done (ap answer (rw (add_pipeline_archive, c) at e)))
      | inr ((g, p), c) ↦ elim (Option-cases (find? (archive_named g id) db.archives)) [
        | inl missing ↦
            absurd (refused≢done (ap answer (rw (add_pipeline_archive, c, missing) at e)))
        | inr (a, found) ↦ elim (Bool-cases (any_linked p.uuid a db.pipeline_archives)) [
          | inl there ↦
              absurd (refused≢done (ap answer (rw (add_pipeline_archive, c, found, there) at e)))
          | inr free ↦ (
            g,
            p,
            a,
            c,
            found,
            free,
            sym (
                ap (λ (r : Tables × Response String). r.0)
                  (rw (add_pipeline_archive, c, found, free) at e)),
          )
        ]
      ]
    ]
  where
    answer : Tables × Response String → Response String
    answer r = r.1

-- An archive that is added to a pipeline is the last of its archives, and a removal of it gives back the
-- tables from before: for the same request, group and pipeline, where the addition succeeds.
pub remove-add_pipeline_archive :
    (request : Request) (group_id pipeline_id id : String) (db db' : Tables)
    → add_pipeline_archive request group_id pipeline_id (some id) db ≡ (db', done id)
    → ((a : Archive) × (archives : List Archive) × (a.id ≡ id)
        × (list_pipeline_archives request group_id pipeline_id db ≡ done archives)
        × (list_pipeline_archives request group_id pipeline_id db' ≡ done (archives ++ (a ∷ []))))
      × (remove_pipeline_archive request group_id pipeline_id (some id) db' ≡ (db, done id))
unfolding remove_pipeline_archive list_pipeline_archives checked_pipeline
remove-add_pipeline_archive request group_id pipeline_id id db db' e =
    let (g, p, a, c, found, free, same) =
      add_pipeline_archive-done request group_id pipeline_id id db db' e in
    let c' : checked_pipeline bad_request request group_id pipeline_id (with_archive db p.uuid a)
        ≡ done (g, p) =
      c in
    let c'' : checked_pipeline not_found request group_id pipeline_id (with_archive db p.uuid a)
        ≡ done (g, p) =
      checked_pipeline-done_any bad_request not_found request group_id pipeline_id db (g, p) c in
    let (_, named) = find?-In (archive_named g id) db.archives a found in
    rw same (
      (
        a,
        archives_of p.uuid db.pipeline_archives,
        ground arith,
        rw (list_pipeline_archives, c) refl,
        rw (list_pipeline_archives, c', archives_of-append p.uuid a db.pipeline_archives) refl,
      ),
      rw (remove_pipeline_archive, c'', found, filter-linked p.uuid a db.pipeline_archives free)
          refl,
    )
