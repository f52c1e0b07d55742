-- ===== src/Tests/Messages.antt =====
-- A message whose middlewares raise, and its worker; and a worker whose start raises `JSONDecodeError`.
use tapis_workflows.Base.{
  ℕ, ◌≡◌, refl, true, false, none, some, [], ◌∷◌, ◌++◌, ok, string_eq, nat_eq,
}
use tapis_workflows.Pool.{WorkerPool, check_out}
use tapis_workflows.Server.{deny, get_active_workers, register_worker}
use tapis_workflows.Server.Messages.{
  ack, reject, submission, State, json_decode, other, start_worker, worker_returned,
}
use tapis_workflows.Server.Settlements.{settlements}

abbrev server : State
server = record {
  pool = record { max_workers = 2; pool = 0 ∷ 1 ∷ []; checked_out = [] };
  active = record { active_workers = []; released = [] };
  settled = [];
}

abbrev left : WorkerPool ℕ
left = record { max_workers = 2; pool = 0 ∷ []; checked_out = 1 ∷ [] }

taken : check_out 7 server.pool ≡ ok (left, 1)
unfolding check_out
taken = refl

settlements_example :
    ((start_worker 7 true none
        (some json_decode)
        false
        (submission (some "key") deny)
        server).0.settled
      ≡ ack ∷ reject ∷ [])
    × ((start_worker 7 false none
          (some json_decode)
          false
          (submission (some "key") deny)
          server).0.settled
        ≡ [])
unfolding check_out register_worker get_active_workers string_eq nat_eq
settlements_example =
    settlements 7 none (some json_decode) false (submission (some "key") deny) server

worker_returned_example :
    ((start_worker 7 true (some other) none false (submission (some "key") deny) server).1 ≡ true)
    × ((start_worker 7 true
          (some other)
          none
          false
          (submission (some "key") deny)
          server).0.pool.checked_out
        ≡ [] ++ (1 ∷ []))
worker_returned_example =
    worker_returned 7 true (some other) none false (some "key") deny server left 1 taken
