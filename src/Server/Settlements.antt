-- ===== src/Server/Settlements.antt =====
-- What `_start_worker` of core/Server.py sends to the broker for a message.
use tapis_workflows.Base.{
  ℕ, String, ◌≡◌, inl, inr, refl, Bool, true, false, Option, none, some, List, [], ◌∷◌, ◌++◌, ok,
  err, Bool-cases, Option-cases, Result-cases, arith, nat_eq,
}
use tapis_workflows.Pool.{check_out}
use tapis_workflows.Server.{Policy, register_worker}
use tapis_workflows.Server.Messages.{
  Settlement, ack, reject, nack, Message, not_json, not_a_request, submission, State, idle, settle,
  Raised, json_decode, no_workers, other, ack_nack, handle, release, run_worker, start_worker,
  raised,
}

-- What is raised behind the acknowledgement of the message, if it is acknowledged and something is
abbrev pub late : ℕ → (middlewares start : Option Raised) → Message → State → Option Raised
late new (some x) start message s = none
late new none start not_json s = none
late new none start not_a_request s = none
late new none start (submission key policy) s = elim (check_out new s.pool) [
  | err e ↦ none
  | ok (pool, w) ↦ raised none start key policy w s.active
]

-- The settlement of a message that a handler sends even if the message is acknowledged
abbrev pub second : Option Raised → Option Settlement
second none = none
second (some json_decode) = some reject
second (some no_workers) = some (nack 10)
second (some other) = none

-- What is sent behind `before`, and the one settlement more that is expected
abbrev Sends : List Settlement → Option Settlement → List Settlement → Type 0
Sends before none after = after ≡ before
Sends before (some y) after = after ≡ before ++ (y ∷ [])

handle-Sends :
    (x : Raised) (s : State) → Sends s.settled (second (some x)) (handle true true x s).0.settled
unfolding handle ack_nack
handle-Sends json_decode s = refl
handle-Sends no_workers s = refl
handle-Sends other s = refl

handle_once :
    (x : Raised) (s : State)
    → (y : Settlement) × ((handle true false x s).0.settled ≡ s.settled ++ (y ∷ []))
unfolding handle ack_nack
handle_once json_decode s = (reject, refl)
handle_once no_workers s = (nack 10, refl)
handle_once other s = (nack 0, refl)

handle_closed :
    (acked : Bool) (x : Raised) (s : State) → (handle false acked x s).0.settled ≡ s.settled
unfolding handle ack_nack
handle_closed acked json_decode s = refl
handle_closed acked no_workers s = refl
handle_closed acked other s = ground arith

run_worker-Sends :
    (start : Option Raised) (terminated : Bool) (key : Option String) (policy : Policy) (w : ℕ)
    (s : State)
    → Sends s.settled
        (second (raised none start key policy w s.active))
        (run_worker true start terminated key policy w s).0.settled
unfolding run_worker release
run_worker-Sends start terminated none policy w s = handle-Sends other s
run_worker-Sends start terminated (some key) policy w s =
    let r = register_worker key policy (idle w) s.active in
    elim (Bool-cases r.0.can_start) [
      | inr waits ↦ rw (run_worker, waits) refl
      | inl starts ↦ elim (Option-cases start) [
        | inl fine ↦ rw (run_worker, starts, fine) refl
        | inr (x, fails) ↦
            rw (run_worker, starts, fails) (handle-Sends x (record s { active = r.1 }))
      ]
    ]

run_worker_closed :
    (start : Option Raised) (terminated : Bool) (key : Option String) (policy : Policy) (w : ℕ)
    (s : State)
    → (run_worker false start terminated key policy w s).0.settled ≡ s.settled
unfolding run_worker release
run_worker_closed start terminated none policy w s = handle_closed true other s
run_worker_closed start terminated (some key) policy w s =
    let r = register_worker key policy (idle w) s.active in
    elim (Bool-cases r.0.can_start) [
      | inr waits ↦ rw (run_worker, waits) refl
      | inl starts ↦ elim (Option-cases start) [
        | inl fine ↦ rw (run_worker, starts, fine) refl
        | inr (x, fails) ↦
            rw (run_worker, starts, fails) (handle_closed true x (record s { active = r.1 }))
      ]
    ]

closed :
    (new : ℕ) (middlewares start : Option Raised) (terminated : Bool) (message : Message)
    (s : State)
    → (start_worker new false middlewares start terminated message s).0.settled ≡ s.settled
unfolding start_worker ack_nack
closed new middlewares start terminated not_json s = handle_closed false json_decode s
closed new middlewares start terminated not_a_request s = handle_closed false other s
closed new middlewares start terminated (submission key policy) s =
    elim (Result-cases (check_out new s.pool)) [
      | inr (e, full) ↦ rw (start_worker, full) (handle_closed false no_workers s)
      | inl ((pool, w), out) ↦ elim (Option-cases middlewares) [
        | inr (x, fails) ↦
            rw (start_worker, out, fails) (handle_closed false x (record s { pool = pool }))
        | inl fine ↦
            rw (start_worker, out, fine)
              (run_worker_closed start terminated key policy w (record s { pool = pool }))
      ]
    ]

-- The two ways in which the settlements of an open channel may grow
abbrev Settled : List Settlement → Option Settlement → List Settlement → Type 0
Settled before none after = (x : Settlement) × (after ≡ before ++ (x ∷ []))
Settled before (some y) after = after ≡ (before ++ (ack ∷ [])) ++ (y ∷ [])

acknowledged :
    (before after : List Settlement) (y : Option Settlement)
    → Sends (before ++ (ack ∷ [])) y after
    → Settled before y after
acknowledged before after none h = (ack, h)
acknowledged before after (some y) h = h

opened :
    (new : ℕ) (middlewares start : Option Raised) (terminated : Bool) (message : Message)
    (s : State)
    → Settled s.settled
        (second (late new middlewares start message s))
        (start_worker new true middlewares start terminated message s).0.settled
unfolding start_worker ack_nack
opened new none start terminated not_json s = handle_once json_decode s
opened new (some x) start terminated not_json s = handle_once json_decode s
opened new none start terminated not_a_request s = handle_once other s
opened new (some x) start terminated not_a_request s = handle_once other s
opened new (some x) start terminated (submission key policy) s =
    elim (Result-cases (check_out new s.pool)) [
      | inr (e, full) ↦ rw (start_worker, full) (handle_once no_workers s)
      | inl ((pool, w), out) ↦ rw (start_worker, out) (handle_once x (record s { pool = pool }))
    ]
opened new none start terminated (submission key policy) s =
    elim (Result-cases (check_out new s.pool)) [
      | inr (e, full) ↦ rw (start_worker, late, full) (handle_once no_workers s)
      | inl ((pool, w), out) ↦
          rw (start_worker, late, out)
            (acknowledged s.settled _ (second (raised none start key policy w s.active)) (
              run_worker-Sends start terminated key policy w
                (settle ack (record s { pool = pool }))))
    ]

-- Over an open channel exactly one of `ack`, `nack` and `reject` is sent for a message, except where
-- behind the acknowledgement `JSONDecodeError` or `NoAvailableWorkers` is raised: there the `ack` is
-- followed by a second settlement, a `reject` or a `nack`. Over a closed channel nothing is sent.
pub settlements :
    (new : ℕ) (middlewares start : Option Raised) (terminated : Bool) (message : Message)
    (s : State)
    → Settled s.settled
        (second (late new middlewares start message s))
        (start_worker new true middlewares start terminated message s).0.settled
      × ((start_worker new false middlewares start terminated message s).0.settled ≡ s.settled)
settlements new middlewares start terminated message s = (
  opened new middlewares start terminated message s,
  closed new middlewares start terminated message s,
)
