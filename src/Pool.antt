-- ===== src/Pool.antt =====
-- core/workers/WorkerPool.py: the pool of the workflow executors. A worker is known by its reference,
-- and the lock makes `check_out` one step. `check_in` takes no lock: its two steps are `forget` and
-- `put_back`, and `check_in` is a call with no other call between them.
pub mod Moves
pub mod Limits
use tapis_workflows.Base.{
  ℕ, zero, ◌+◌, ◌<◌, ◌≤◌, Bool, true, false, Option, none, some, List, [], ◌∷◌, ◌++◌, Result, ok,
  err, ◌==◌, Eq, contains, ltb, length, if◌then◌else◌,
}

pub data PoolError : Type 0 where
  no_available_workers worker_limit_exceed : PoolError

-- The left end of the deque is the head of the list.
pub record WorkerPool (W : Type 0) : Type 0 where
  pub max_workers : ℕ
  pub pool : List W
  pub checked_out : List W

-- `__init__`, with the starting workers
abbrev pub new_pool : {W : Type 0} → ℕ → List W → WorkerPool W
new_pool max_workers workers = record {
  max_workers = max_workers;
  pool = workers;
  checked_out = [];
}

-- `pool.pop()`, of the last element
unfoldable pub pop : {W : Type 0} → List W → Option (List W × W)
pop [] = none
pop (w ∷ ws) = elim (pop ws) [ none ↦ some ([], w) | some (rest, last) ↦ some (w ∷ rest, last) ]

abbrev pub worker_count : {W : Type 0} → WorkerPool W → ℕ
worker_count p = length p.checked_out + length p.pool

-- `check_out`; `new` is what `self.worker_cls()` returns.
unfoldable pub check_out : {W : Type 0} → W → WorkerPool W → Result PoolError (WorkerPool W × W)
unfolding pop
check_out new p = elim (pop p.pool) [
  | some (pool, worker) ↦
      ok (record p { pool = pool; checked_out = p.checked_out ++ (worker ∷ []) }, worker)
  | none ↦
      if ltb (worker_count p) p.max_workers
      then ok (record p { checked_out = p.checked_out ++ (new ∷ []) }, new)
      else err no_available_workers
]

module _ {W : Type 0} ⦃e : Eq W⦄ where
  -- `xs.remove(x)`, of an element that is there
  unfoldable pub remove : W → List W → List W
  remove x [] = []
  remove x (y ∷ ys) = let rest = remove x ys in if y == x then ys else y ∷ rest

  -- The first step of `check_in`: the worker is no longer checked out.
  abbrev pub forget : W → WorkerPool W → WorkerPool W
  forget worker p = record p {
    checked_out =
        if contains p.checked_out worker then remove worker p.checked_out else p.checked_out;
  }

  -- The second step of `check_in`: the pool as it is left behind, and the exception if one is raised
  abbrev pub put_back : W → WorkerPool W → WorkerPool W × Option PoolError
  put_back worker p =
      let p' = record p { pool = worker ∷ p.pool } in
      if ltb p.max_workers (worker_count p')
      then (record p' { pool = remove worker p'.pool }, some worker_limit_exceed)
      else (p', none)

  -- `check_in`, without another call between its steps
  unfoldable pub check_in : W → WorkerPool W → WorkerPool W × Option PoolError
  unfolding remove
  check_in worker p = put_back worker (forget worker p)
