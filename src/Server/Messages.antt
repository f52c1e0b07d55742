-- ===== src/Server/Messages.antt =====
-- `_start_worker` of core/Server.py: what happens to a message, and to the worker that is taken for it.
use tapis_workflows.Base.{
  ℕ, suc, String, ◌≡◌, inl, inr, refl, sym, ap, ◌∙◌, Bool, true, false, not, Option, none, some,
  List, [], ◌∷◌, ◌++◌, ok, err, arith, nat_eq, contains, contains-append, length, length-append,
  Bool-cases, Option-cases, if◌then◌else◌, ltb,
}
use tapis_workflows.Pool.{WorkerPool, check_out, remove, check_in, pop, worker_count}
use tapis_workflows.Server.{
  Policy, allow, allow_terminate, deny, deferred, Worker, Active, get_active_workers, activate,
  deregister_worker, register_worker,
}

-- What is sent to the broker for the message; `nack` has the delay before it.
pub data Settlement : Type 0 where
  ack reject : Settlement
  nack : ℕ → Settlement

-- The body: the key of a submission is `none` where its resolution raises.
pub data Message : Type 0 where
  not_json not_a_request : Message
  submission : (key : Option String) → Policy → Message

pub record State : Type 0 where
  pub pool : WorkerPool ℕ
  pub active : Active
  pub settled : List Settlement

-- A worker from the pool, which was reset
abbrev pub idle : ℕ → Worker
idle id = record { id = id; key = none; can_start = false; terminating = false; terminated = false }

abbrev pub settle : Settlement → State → State
settle x s = record s { settled = s.settled ++ (x ∷ []) }

-- What is raised within the `try`: `JSONDecodeError`, `NoAvailableWorkers`, or anything else
pub data Raised : Type 0 where
  json_decode no_workers other : Raised

-- `_ack_nack`, which sends nothing over a channel that is not open
unfoldable pub ack_nack : (is_open : Bool) → Settlement → State → State
ack_nack is_open x s = if is_open then settle x s else s

-- The handlers of the `try`; the flag says whether an exception leaves the thread. `basic_reject` is
-- called without a test of the channel, and raises if that is closed.
unfoldable pub handle : (is_open acked : Bool) → Raised → State → State × Bool
unfolding ack_nack
handle is_open acked json_decode s = if is_open then (settle reject s, false) else (s, true)
handle is_open acked no_workers s = (ack_nack is_open (nack 10) s, false)
handle is_open acked other s = (if acked then s else ack_nack is_open (nack 0) s, true)

-- The last two lines, which are outside the `try`
unfoldable pub release : (terminated : Bool) → Worker → State → State × Bool
unfolding deregister_worker check_in
release terminated w s =
    let (pool, raised) = check_in w.id s.pool in
    (
      record s { pool = pool; active = deregister_worker terminated w s.active },
      elim raised [ none ↦ false | some e ↦ true ],
    )

-- Behind the acknowledgement: registration, start and release. `start` is what the worker's `start`
-- raises, and the resolution of the key raises something else than the two exceptions by name.
unfoldable pub run_worker :
    (is_open : Bool) (start : Option Raised) (terminated : Bool)
    → Option String
    → Policy
    → ℕ
    → State
    → State × Bool
unfolding handle release register_worker
run_worker is_open start terminated none policy w s = handle is_open true other s
run_worker is_open start terminated (some key) policy w s =
    let (w', active) = register_worker key policy (idle w) s.active in
    let s' = record s { active = active } in
    if w'.can_start
    then (elim start [ none ↦ release terminated w' s' | some x ↦ handle is_open true x s' ])
    else release terminated w' s'

-- `_start_worker`, for the worker that the pool makes on demand and for what the middlewares raise
unfoldable pub start_worker :
    ℕ
    → (is_open : Bool) (middlewares start : Option Raised) (terminated : Bool) → Message
    → State
    → State × Bool
unfolding check_out handle ack_nack run_worker
start_worker new is_open middlewares start terminated not_json s =
    handle is_open false json_decode s
start_worker new is_open middlewares start terminated not_a_request s = handle is_open false other s
start_worker new is_open middlewares start terminated (submission key policy) s =
    elim (check_out new s.pool) [
      | err e ↦ handle is_open false no_workers s
      | ok (pool, w) ↦
          let s' = record s { pool = pool } in
          elim middlewares [
            | some x ↦ handle is_open false x s'
            | none ↦ run_worker is_open start terminated key policy w (ack_nack is_open ack s')
          ]
    ]

length-remove :
    (w : ℕ) (ws : List ℕ) → contains ws w ≡ true → suc (length (remove w ws)) ≡ length ws
unfolding remove
length-remove w [] h = cc
length-remove w (x ∷ ws) h = ground (arith, length-remove w ws)

check_out-last :
    (new : ℕ) (p q : WorkerPool ℕ) (w : ℕ)
    → check_out new p ≡ ok (q, w)
    → q.checked_out ≡ p.checked_out ++ (w ∷ [])
unfolding check_out
check_out-last new p q w e = elim (Option-cases (pop p.pool)) [
  | inr ((rest, last), found) ↦ ground (arith, found)
  | inl empty ↦ elim (Bool-cases (ltb (worker_count p) p.max_workers)) [
    | inl room ↦ ground (arith, empty, room)
    | inr full ↦ absurd (ground (arith, empty, full))
  ]
]

-- A worker that is checked out counts no more behind `check_in`.
check_in-length :
    (w : ℕ) (p : WorkerPool ℕ)
    → contains p.checked_out w ≡ true
    → suc (length (check_in w p).0.checked_out) ≡ length p.checked_out
unfolding check_in
check_in-length w p h = ground (arith, length-remove w p.checked_out h)

-- What is raised between the check-out of the worker and the end of its run
abbrev pub raised :
    (middlewares start : Option Raised) → Option String → Policy → ℕ → Active → Option Raised
raised (some x) start key policy w active = some x
raised none start none policy w active = some other
raised none start (some key) policy w active =
    if (register_worker key policy (idle w) active).0.can_start then start else none

register_worker-id :
    (key : String) (policy : Policy) (w : Worker) (s : Active)
    → (register_worker key policy w s).0.id ≡ w.id
unfolding register_worker activate
register_worker-id key deny w s = elim (Bool-cases (ltb 0 (length (get_active_workers key s)))) [
  | inl busy ↦ rw (register_worker, busy) refl
  | inr free ↦ rw (register_worker, free) refl
]
register_worker-id key allow_terminate w s = refl
register_worker-id key deferred w s = refl
register_worker-id key allow w s = refl

last-contains : (w : ℕ) (ws : List ℕ) → contains (ws ++ (w ∷ [])) w ≡ true
last-contains w ws = contains-append ws (w ∷ []) w ∙ ground arith

release-length :
    (terminated : Bool) (w : Worker) (s : State) (before : List ℕ)
    → s.pool.checked_out ≡ before ++ (w.id ∷ [])
    → length (release terminated w s).0.pool.checked_out ≡ length before
unfolding release
release-length terminated w s before same =
    let there : contains s.pool.checked_out w.id ≡ true =
      ap (λ ws. contains ws w.id) same ∙ last-contains w.id before in
    let counted : length s.pool.checked_out ≡ suc (length before) =
      ap (λ (ws : List ℕ). length ws) same ∙ length-append before (w.id ∷ []) ∙ omega arith in
    omega (arith, check_in-length w.id s.pool there, counted)

-- The exceptions that leave the thread
abbrev pub leaves : (is_open : Bool) → Raised → Bool
leaves is_open json_decode = not is_open
leaves is_open no_workers = false
leaves is_open other = true

handle_lem :
    (is_open acked : Bool) (x : Raised) (s : State)
    → ((handle is_open acked x s).1 ≡ leaves is_open x)
      × ((handle is_open acked x s).0.pool ≡ s.pool)
unfolding handle ack_nack
handle_lem is_open acked json_decode s = ground arith
handle_lem is_open acked no_workers s = ground arith
handle_lem is_open acked other s = ground arith

-- What becomes of the worker `w` that was checked out, when `x` is raised or nothing is
abbrev pub Outcome : Bool → List ℕ → ℕ → Option Raised → State × Bool → Type 0
Outcome is_open before w none after = length after.0.pool.checked_out ≡ length before
Outcome is_open before w (some x) after =
    (after.1 ≡ leaves is_open x) × (after.0.pool.checked_out ≡ before ++ (w ∷ []))

handled_outcome :
    (is_open acked : Bool) (x : Raised) (s : State) (before : List ℕ) (w : ℕ)
    → s.pool.checked_out ≡ before ++ (w ∷ [])
    → Outcome is_open before w (some x) (handle is_open acked x s)
handled_outcome is_open acked x s before w last =
    let (left, same) = handle_lem is_open acked x s in
    (left, ap (λ (p : WorkerPool ℕ). p.checked_out) same ∙ last)

run_worker_outcome :
    (is_open : Bool) (start : Option Raised) (terminated : Bool) (key : Option String)
    (policy : Policy) (w : ℕ) (s : State) (before : List ℕ)
    → s.pool.checked_out ≡ before ++ (w ∷ [])
    → Outcome is_open before w
        (raised none start key policy w s.active)
        (run_worker is_open start terminated key policy w s)
unfolding run_worker
run_worker_outcome is_open start terminated none policy w s before last =
    handled_outcome is_open true other s before w last
run_worker_outcome is_open start terminated (some key) policy w s before last =
    let r = register_worker key policy (idle w) s.active in
    let named =
      last ∙ ap (λ v. before ++ (v ∷ [])) (sym (register_worker-id key policy (idle w) s.active)) in
    let released = release-length terminated r.0 (record s { active = r.1 }) before named in
    elim (Bool-cases r.0.can_start) [
      | inr waits ↦ rw (run_worker, waits) released
      | inl starts ↦ elim (Option-cases start) [
        | inl fine ↦ rw (run_worker, starts, fine) released
        | inr (x, fails) ↦
            rw (run_worker, starts, fails)
              (handled_outcome is_open true x (record s { active = r.1 }) before w last)
      ]
    ]

-- For a submission for which the pool has a worker, what the middlewares, the resolution of the key or
-- the start of the worker raises decides: if nothing is raised, then as many workers are checked out in
-- the end as before; and if something is raised, then the worker stays checked out, and the exception
-- leaves the thread unless it is `NoAvailableWorkers`, or is `JSONDecodeError` and the channel is open.
pub worker_returned :
    (new : ℕ) (is_open : Bool) (middlewares start : Option Raised) (terminated : Bool)
    (key : Option String) (policy : Policy) (s : State) (pool : WorkerPool ℕ) (w : ℕ)
    → check_out new s.pool ≡ ok (pool, w)
    → Outcome is_open s.pool.checked_out w
        (raised middlewares start key policy w s.active)
        (start_worker new is_open middlewares start terminated (submission key policy) s)
unfolding start_worker ack_nack
worker_returned new is_open (some x) start terminated key policy s pool w out =
    rw (start_worker, out)
      (handled_outcome is_open false x (record s { pool = pool }) s.pool.checked_out w
        (check_out-last new s.pool pool w out))
worker_returned new true none start terminated key policy s pool w out =
    rw (start_worker, out)
      (run_worker_outcome true start terminated key policy w (settle ack (record s { pool = pool }))
        s.pool.checked_out (check_out-last new s.pool pool w out))
worker_returned new false none start terminated key policy s pool w out =
    rw (start_worker, out)
      (run_worker_outcome false start terminated key policy w (record s { pool = pool })
        s.pool.checked_out (check_out-last new s.pool pool w out))
