-- ===== src/Executors/Polling.antt =====
-- How the execution of a function task ends.
use tapis_workflows.Base.{
  String, Bool, true, false, ◌||◌, ◌≡◌, ◌⊎◌, refl, ap, ◌∙◌, none, some, List, [], ◌∷◌, ◌++◌, Result,
  ok, err, filter, arith, inl, inr, Bool-cases, Result-cases, if◌then◌else◌,
}
use tapis_workflows.Executors.{
  JobStatus, job_succeeded, job_in_terminal_state, Executor, Outcome, Tick, cleanup, poll,
  add_repositories, fails, run_job, after_clones, execute,
}

-- The tick ends the loop, or the test after it does.
abbrev pub is_last : Tick → Bool
is_last tick =
    tick.terminating || (elim tick.read [ err e ↦ true | ok job ↦ job_in_terminal_state job ])

is_last-unread : (tick : Tick) (e : String) → tick.read ≡ err e → is_last tick ≡ true
is_last-unread tick e r = elim (Bool-cases tick.terminating) [
  | inl stop ↦ rw stop refl
  | inr goes ↦ rw (goes, r) refl
]

is_last-read :
    (tick : Tick) (job : JobStatus)
    → tick.terminating ≡ false
    → tick.read ≡ ok job
    → is_last tick ≡ job_in_terminal_state job
is_last-read tick job goes r = rw (goes, r) refl

-- The job was read.
abbrev pub Seen : JobStatus → JobStatus → List Tick → Type 0
Seen j job [] = j ≡ job
Seen j job (tick ∷ ticks) =
    (j ≡ job) ⊎ ((job' : JobStatus) × (tick.read ≡ ok job') × Seen j job' ticks)

module _ {R : Type 0} (deletes : R → Bool) where
  abbrev finished : JobStatus → Executor R → Executor R × Outcome
  finished job x = (x, record { status = if job_succeeded job then 0 else 1; errors = [] })

  abbrev terminated : Executor R → Executor R × Outcome
  terminated x = (
    record x {
      deleted = x.deleted ++ filter deletes x.resources;
      stderr = some "Workflow Terminated";
    },
    record { status = 2; errors = "Workflow Terminated" ∷ [] },
  )

  abbrev unread : String → Executor R → Executor R × Outcome
  unread e x = (record x { stderr = some e }, record { status = 1; errors = e ∷ [] })

  module _ (job : JobStatus) (x : Executor R) where
    poll-finished :
        (ticks : List Tick)
        → job_in_terminal_state job ≡ true
        → poll deletes job ticks x ≡ some (finished job x)
    unfolding poll
    poll-finished [] h = rw h refl
    poll-finished (tick ∷ ticks) h = rw h refl

    module _ (tick : Tick) (ticks : List Tick) (on : job_in_terminal_state job ≡ false) where
      poll-terminated :
          tick.terminating ≡ true → poll deletes job (tick ∷ ticks) x ≡ some (terminated x)
      unfolding poll cleanup
      poll-terminated h = rw (on, h) refl

      poll-unread :
          (e : String)
          → tick.terminating ≡ false
          → tick.read ≡ err e
          → poll deletes job (tick ∷ ticks) x ≡ some (unread e x)
      unfolding poll
      poll-unread e h r = rw (on, h, r) refl

      poll-next :
          (job' : JobStatus)
          → tick.terminating ≡ false
          → tick.read ≡ ok job'
          → poll deletes job (tick ∷ ticks) x ≡ poll deletes job' ticks x
      unfolding poll
      poll-next job' h r = rw (on, h, r) refl

-- Whether a tick has the flag, and whether a read answers with the error
abbrev pub any_tick : (Tick → Bool) → List Tick → Bool
any_tick p [] = false
any_tick p (tick ∷ ticks) = p tick || any_tick p ticks

abbrev pub ReadFails : String → List Tick → Type 0
ReadFails e [] = ⊥
ReadFails e (tick ∷ ticks) = (tick.read ≡ err e) ⊎ ReadFails e ticks

module _ {R : Type 0} (deletes : R → Bool) where
  -- What a returned result says of the ticks
  pub data End (job : JobStatus) (ticks : List Tick) (x : Executor R)
      : Executor R × Outcome → Type 0 where
    job_ended :
        (j : JobStatus)
        → Seen j job ticks
        → job_in_terminal_state j ≡ true
        → End job ticks x (finished deletes j x)
    was_terminated :
        any_tick (λ tick. tick.terminating) ticks ≡ true → End job ticks x (terminated deletes x)
    was_unread : (e : String) → ReadFails e ticks → End job ticks x (unread deletes e x)

  Seen-self : (job : JobStatus) (ticks : List Tick) → Seen job job ticks
  Seen-self job [] = refl
  Seen-self job (tick ∷ ticks) = inl refl

  End-later :
      {job job' : JobStatus} {tick : Tick} {ticks : List Tick} {x : Executor R}
      {end : Executor R × Outcome}
      → tick.read ≡ ok job'
      → End job' ticks x end
      → End job (tick ∷ ticks) x end
  End-later {job' = job'} r (job_ended j seen h) = job_ended j (inr (job', r, seen)) h
  End-later r (was_terminated h) = was_terminated (ground arith)
  End-later r (was_unread e h) = was_unread e (inr h)

  -- The loop returns exactly if the job is in a terminal state at first or a tick terminates the
  -- executor, fails to read the job, or reads a terminal state. It returns 0 or 1 for a job that was seen
  -- in a terminal state, 0 if that had succeeded; 2 if the executor was terminated, and then it deletes
  -- the resources that are registered; and 1 if a read failed.
  pub poll_lem :
      (job : JobStatus) (ticks : List Tick) (x : Executor R)
      → ((job_in_terminal_state job || any_tick is_last ticks) ≡ true
          → (end : Executor R × Outcome) × (poll deletes job ticks x ≡ some end)
            × End job ticks x end)
        × ((job_in_terminal_state job || any_tick is_last ticks) ≡ false
            → poll deletes job ticks x ≡ none)
  unfolding poll
  poll_lem job [] x = (
    λ h.
        let over : job_in_terminal_state job ≡ true = ground arith in
        (finished deletes job x, poll-finished deletes job x [] over, job_ended job refl over),
    λ h. let on : job_in_terminal_state job ≡ false = ground arith in rw on refl,
  )
  poll_lem job (tick ∷ ticks) x = elim (Bool-cases (job_in_terminal_state job)) [
    | inl over ↦ (
      λ h. (
        finished deletes job x,
        poll-finished deletes job x (tick ∷ ticks) over,
        job_ended job (inl refl) over,
      ),
      λ h. absurd (ground arith),
    )
    | inr on ↦ elim (Bool-cases tick.terminating) [
      | inl stop ↦ (
        λ h. (
          terminated deletes x,
          poll-terminated deletes job x tick ticks on stop,
          was_terminated (ground arith),
        ),
        λ h. absurd (ground arith),
      )
      | inr goes ↦ elim (Result-cases tick.read) [
        | inr (e, r) ↦ (
          λ h. (
            unread deletes e x,
            poll-unread deletes job x tick ticks on e goes r,
            was_unread e (inl r),
          ),
          λ h. absurd (ground (arith, is_last-unread tick e r)),
        )
        | inl (job', r) ↦
            let next = poll-next deletes job x tick ticks on job' goes r in
            let (ih, ih') = poll_lem job' ticks x in
            (
              λ h.
                  let (end, found, why) = ih (rw (on, is_last-read tick job' goes r) at h) in
                  (end, next ∙ found, End-later r why),
              λ h. next ∙ ih' (rw (on, is_last-read tick job' goes r) at h),
            )
      ]
    ]
  ]

  success-Seen :
      {job : JobStatus} {ticks : List Tick} {x : Executor R} {end : Executor R × Outcome}
      → End job ticks x end
      → end.1.status ≡ 0
      → (j : JobStatus) × Seen j job ticks
        × (job_in_terminal_state j ≡ true)
        × (job_succeeded j ≡ true)
  success-Seen (job_ended j seen h) e = (j, seen, h, ground arith)
  success-Seen (was_terminated h) e = absurd (omega (arith, e))
  success-Seen (was_unread x h) e = absurd (omega (arith, e))

  -- A poll that returns 0 has seen the job in a terminal state in which it had succeeded.
  poll_success :
      (job : JobStatus) (ticks : List Tick) (x : Executor R) (end : Executor R × Outcome)
      → poll deletes job ticks x ≡ some end
      → end.1.status ≡ 0
      → (j : JobStatus) × Seen j job ticks
        × (job_in_terminal_state j ≡ true)
        × (job_succeeded j ≡ true)
  poll_success job ticks x end e zero_status =
      elim (Bool-cases (job_in_terminal_state job || any_tick is_last ticks)) [
        | inl over ↦
            let (end', found, why) = (poll_lem job ticks x).0 over in
            let same : end' ≡ end = cc in
            success-Seen why (ap (λ (p : Executor R × Outcome). p.1.status) same ∙ zero_status)
        | inr on ↦ let waits = (poll_lem job ticks x).1 on in cc
      ]

  run_job_success :
      (created : Result String (R × JobStatus)) (ticks : List Tick) (x : Executor R)
      (end : Executor R × Outcome)
      → run_job deletes created ticks x ≡ some end
      → end.1.status ≡ 0
      → (resource : R) × (job : JobStatus) × (j : JobStatus) × (created ≡ ok (resource, job))
        × Seen j job ticks
        × (job_in_terminal_state j ≡ true)
        × (job_succeeded j ≡ true)
  unfolding run_job
  run_job_success (err e) ticks x end h zero_status =
      let failed_status : fails deletes e x ≡ end = cc in
      absurd
        (omega (arith, zero_status, ap (λ (p : Executor R × Outcome). p.1.status) failed_status))
  run_job_success (ok (resource, job)) ticks x end h zero_status =
      let (j, seen, over, won) =
        poll_success job ticks (record x { resources = x.resources ++ (resource ∷ []) }) end h
          zero_status in
      (resource, job, j, refl, seen, over, won)

  after_success :
      {D : Type 0} (container : Result String D) (created : Result String (R × JobStatus))
      (ticks : List Tick) (cloned : Result String D) (x : Executor R) (end : Executor R × Outcome)
      → after_clones deletes container created ticks cloned x ≡ ok (some end)
      → end.1.status ≡ 0
      → ((d' : D) × (cloned ≡ ok d'))
        × ((d' : D) × (container ≡ ok d'))
        × ((resource : R) × (job : JobStatus) × (j : JobStatus) × (created ≡ ok (resource, job))
            × Seen j job ticks
            × (job_in_terminal_state j ≡ true)
            × (job_succeeded j ≡ true))
  unfolding after_clones
  after_success container created ticks (err e) x end h zero_status =
      let failed_status : fails deletes e x ≡ end = cc in
      absurd
        (omega (arith, zero_status, ap (λ (p : Executor R × Outcome). p.1.status) failed_status))
  after_success (err e) created ticks (ok d) x end h zero_status = cc
  after_success (ok c) created ticks (ok d) x end h zero_status =
      ((d, refl), (c, refl), run_job_success created ticks x end (cc) zero_status)

  -- If `execute` returns the status 0, then every repository was cloned and the container set up, a job
  -- was created, and it was seen in a terminal state in which it had succeeded.
  pub execute_success :
      {G D : Type 0} (clone : G → D → Result String D) (repos : List G) (d : D)
      (container : Result String D) (created : Result String (R × JobStatus)) (ticks : List Tick)
      (x : Executor R) (end : Executor R × Outcome)
      → execute deletes container created ticks clone repos d x ≡ ok (some end)
      → end.1.status ≡ 0
      → ((d' : D) × (add_repositories clone repos d ≡ ok d'))
        × ((d' : D) × (container ≡ ok d'))
        × ((resource : R) × (job : JobStatus) × (j : JobStatus) × (created ≡ ok (resource, job))
            × Seen j job ticks
            × (job_in_terminal_state j ≡ true)
            × (job_succeeded j ≡ true))
  unfolding execute
  execute_success clone repos d container created ticks x end h zero_status =
      after_success container created ticks (add_repositories clone repos d) x end h zero_status
