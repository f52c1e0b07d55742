-- ===== src/Tests/Resources.antt =====
-- The pipelines and archives of a group.
use tapis_workflows.Base.{
  String, ◌≡◌, refl, All, true, Option, none, some, [], ◌∷◌, string_eq, nat_eq,
}
use tapis_workflows.Api.{Group, Request, get_group, user_in_group, done}
use tapis_workflows.Views.{Pipeline, Tables, get_pipelines}
use tapis_workflows.Views.Guards.{views_access}

abbrev member : Request
member = record { username = "ann"; tenant_id = "tacc" }

abbrev tables : Tables
tables = record {
  access = record {
    groups = record { uuid = 1; id = "lab"; owner = "ann"; tenant_id = "tacc" } ∷ [];
    users = record { group = 1; username = "ann"; is_admin = true } ∷ [];
  };
  pipelines = record { id = "nightly"; group = 1; owner = "ann" } ∷ [];
  archives = [];
  tasks = [];
}

pipelines_listed : get_pipelines member "lab" none tables ≡ done tables.pipelines
unfolding get_pipelines string_eq nat_eq
pipelines_listed = refl

views_access_example :
    (user_in_group "ann" "lab" "tacc" none tables.access ≡ true)
    × ((g : Group) × (get_group "lab" "tacc" tables.access ≡ some g)
        × All (λ (p : Pipeline). p.group ≡ g.uuid) tables.pipelines
        × ((n : String)
            → ◌≡◌ {A = Option String} none (some n)
            → All (λ (p : Pipeline). p.id ≡ n) tables.pipelines))
views_access_example =
    (views_access member "lab" "nightly" tables).0 none tables.pipelines pipelines_listed
