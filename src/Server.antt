-- ===== src/Server.antt =====
-- core/Server.py: the workers that run a submission, and what happens to an earlier submission of the
-- same key. A worker is known by its id.
pub mod Messages
pub mod Settlements
pub mod Keys
pub mod Policies
use tapis_workflows.Base.{
  ℕ, zero, suc, ◌<◌, String, ◌<>◌, Bool, true, false, not, ◌&&◌, Option, none, some, List, [], ◌∷◌,
  ◌++◌, Result, ok, err, ◌==◌, string_eq, nat_eq, filter, length, ltb, if◌then◌else◌,
}
use tapis_workflows.Base.Dict.{Dict, lookup}

-- `DUPLICATE_SUBMISSION_POLICY_...`
pub data Policy : Type 0 where
  allow allow_terminate deny deferred : Policy

-- The fields of a `WorkflowExecutor` that the server reads or sets. `terminating` and `terminated` are
-- those of its reactive state.
pub record Worker : Type 0 where
  pub id : ℕ
  pub key : Option String
  pub can_start : Bool
  pub terminating : Bool
  pub terminated : Bool

-- `terminate` of the worker
unfoldable pub terminate : Worker → Worker
terminate w = record w { terminating = true }

-- `reset` of the worker: the reactive state falls back to its initial one.
unfoldable pub reset : Bool → Worker → Worker
reset terminated w = record w { can_start = false; terminating = false; terminated = terminated }

-- `self.active_workers`, and the workers that were deregistered, as they are left behind
pub record Active : Type 0 where
  pub active_workers : List Worker
  pub released : List Worker

-- `_get_active_workers`
abbrev pub has_key : String → Worker → Bool
has_key key w = elim w.key [ none ↦ false | some k ↦ k == key ]

unfoldable pub get_active_workers : String → Active → List Worker
get_active_workers key s = filter (has_key key) s.active_workers

-- `_deregister_worker`
unfoldable pub deregister_worker : Bool → Worker → Active → Active
unfolding reset
deregister_worker terminated w s = record {
  active_workers = filter (λ v. not (v.id == w.id)) s.active_workers;
  released = reset terminated (record w { key = none }) ∷ s.released;
}

-- The loop of the policy that terminates
unfoldable pub terminate_each : List Worker → Active → Active
unfolding terminate deregister_worker
terminate_each [] s = s
terminate_each (w ∷ ws) s = terminate_each ws (deregister_worker true (terminate w) s)

-- The last lines of `_register_worker`
unfoldable pub activate : Worker → Active → Worker × Active
activate worker s =
    let started = record worker { can_start = true } in
    (started, record s { active_workers = s.active_workers ++ (started ∷ []) })

-- `_register_worker`, with the key of the request: the worker, and the server
unfoldable pub register_worker : String → Policy → Worker → Active → Worker × Active
unfolding get_active_workers terminate_each activate
register_worker key deny worker s =
    let worker' = record worker { key = some key } in
    if ltb 0 (length (get_active_workers key s)) then (worker', s) else activate worker' s
register_worker key allow_terminate worker s =
    activate (record worker { key = some key }) (terminate_each (get_active_workers key s) s)
register_worker key deferred worker s = activate (record worker { key = some key }) s
register_worker key allow worker s = activate (record worker { key = some key }) s
