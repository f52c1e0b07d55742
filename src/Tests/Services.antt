-- ===== src/Tests/Services.antt =====
-- The pool, the events, the duplicate submissions and the groups.
use tapis_workflows.Base.{
  ℕ, String, ◌≤◌, ◌≡◌, refl, true, false, Option, none, some, All, [], ◌∷◌, arith, contains,
  string_eq, nat_eq, count,
}
use tapis_workflows.Pool.{WorkerPool, new_pool, worker_count, check_out}
use tapis_workflows.Pool.Limits.{out, back, calls, pool_bound, pool-Exclusive, Exclusive}
use tapis_workflows.Events.{Exchange, publish_all}
use tapis_workflows.Events.Once.{hits, publish_once}
use tapis_workflows.Server.{allow_terminate, Worker, Active, get_active_workers, register_worker}
use tapis_workflows.Server.Policies.{register_worker_lem}
use tapis_workflows.Api.{Group, GroupUser, Db, Request, get_group, user_in_group, get_users, done}
use tapis_workflows.Api.Owners.{Owned, create_group, add_user, remove_user, serve_all, owners_stay}
use tapis_workflows.Api.Access.{users_access}

-- A pool of the workers 0 and 1, for at most 3.
abbrev small : WorkerPool ℕ
small = new_pool 3 (0 ∷ 1 ∷ [])

pool_bound_example :
    ((calls (out 2 ∷ back 7 ∷ out 2 ∷ []) small).max_workers ≡ 3)
    × (worker_count (calls (out 2 ∷ back 7 ∷ out 2 ∷ []) small) ≤ 3)
pool_bound_example = pool_bound (out 2 ∷ back 7 ∷ out 2 ∷ []) small (omega arith)

small-Exclusive : Exclusive small
small-Exclusive a = ground arith

-- Both workers are checked out, one is checked in again.
pool-Exclusive_example : Exclusive (calls (out 2 ∷ out 2 ∷ back 1 ∷ []) small)
unfolding nat_eq check_out
pool-Exclusive_example =
    (pool-Exclusive (out 2 ∷ out 2 ∷ back 1 ∷ []) small (omega arith) (refl, (refl, (refl, tt)))
      small-Exclusive).0

abbrev exchange : Exchange
exchange = record {
  allow_once = "completed" ∷ [];
  reset_on = [];
  subscribers = (7, "completed" ∷ []) ∷ [];
  handled_events = [];
}

once_listed : contains exchange.allow_once "completed" ≡ true
unfolding string_eq
once_listed = refl

publish_once_example :
    hits 7 "completed" (publish_all (("completed", []) ∷ ("completed", []) ∷ []) exchange).1 ≤ 1
publish_once_example =
    (publish_once 7 "completed" (("completed", []) ∷ ("completed", []) ∷ []) exchange once_listed).0

one_subscriber : (k : ℕ) → count k (7 ∷ []) ≤ 1
one_subscriber k = ground arith

abbrev worker : ℕ → Worker
worker id = record {
  id = id;
  key = none;
  can_start = false;
  terminating = false;
  terminated = false;
}

abbrev busy : Active
busy = record {
  active_workers = record (worker 1) { key = some "k"; can_start = true } ∷ [];
  released = [];
}

register_worker_lem_example :
    get_active_workers "k" (register_worker "k" allow_terminate (worker 2) busy).1
    ≡ (register_worker "k" allow_terminate (worker 2) busy).0 ∷ []
register_worker_lem_example = (register_worker_lem "k" allow_terminate (worker 2) busy).0 refl

abbrev ann : Request
ann = record { username = "ann"; tenant_id = "tacc" }

abbrev bob : Request
bob = record { username = "bob"; tenant_id = "tacc" }

abbrev nothing : Db
nothing = record { groups = []; users = [] }

nothing-Owned : Owned nothing
nothing-Owned = record { one = λ g h i j e. absurd i; owned = λ g i. absurd i }

owners_stay_example : Owned (
    serve_all
      (create_group 1 ann (some ("lab", ("bob", true) ∷ []))
        ∷ remove_user bob "lab" "ann"
        ∷ add_user ann "lab" (some ("eve", false))
        ∷ [])
      nothing)
owners_stay_example =
    owners_stay
      (create_group 1 ann (some ("lab", ("bob", true) ∷ []))
        ∷ remove_user bob "lab" "ann"
        ∷ add_user ann "lab" (some ("eve", false))
        ∷ [])
      nothing (refl, tt) nothing-Owned

abbrev lab : Db
lab = record {
  groups = record { uuid = 1; id = "lab"; owner = "ann"; tenant_id = "tacc" } ∷ [];
  users = record { group = 1; username = "ann"; is_admin = true } ∷ [];
}

ann_listed : get_users ann "lab" none lab ≡ done lab.users
unfolding get_users string_eq nat_eq
ann_listed = refl

users_access_example :
    (user_in_group "ann" "lab" "tacc" none lab ≡ true)
    × ((g : Group) × (get_group "lab" "tacc" lab ≡ some g)
        × All (λ (u : GroupUser). u.group ≡ g.uuid) lab.users
        × ((n : String)
            → ◌≡◌ {A = Option String} none (some n)
            → All (λ (u : GroupUser). u.username ≡ n) lab.users))
users_access_example = (users_access ann "lab" "bob" lab).0 none lab.users ann_listed
