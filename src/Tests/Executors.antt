-- ===== src/Tests/Executors.antt =====
-- A function task with one repository, and a job that succeeds at the second poll.
use tapis_workflows.Base.{
  ℕ, String, Bool, true, false, ◌||◌, ◌≡◌, refl, none, some, List, [], ◌∷◌, Result, ok, err, nat_eq,
}
use tapis_workflows.Executors.{
  JobStatus, job_in_terminal_state, Executor, Outcome, Tick, job_succeeded, poll, add_repositories,
  execute,
}
use tapis_workflows.Executors.Polling.{Seen, is_last, any_tick, End, poll_lem, execute_success}

-- The file system is the flag that the directory is there.
abbrev clone : String → Bool → Result String Bool
clone repo false = ok true
clone repo true = err "exists"

abbrev running : JobStatus
running = record { active = some 1; failed = none; succeeded = none }

abbrev done : JobStatus
done = record { active = none; failed = none; succeeded = some 1 }

abbrev fresh : Executor ℕ
fresh = record { resources = []; deleted = []; stderr = none }

abbrev keeps : ℕ → Bool
keeps n = true

abbrev ticks : List Tick
ticks =
    record { terminating = false; read = ok running }
    ∷ record { terminating = false; read = ok done }
    ∷ []

poll_lem_example :
    ((job_in_terminal_state running || any_tick is_last ticks) ≡ true
      → (end : Executor ℕ × Outcome) × (poll keeps running ticks fresh ≡ some end)
        × End keeps running ticks fresh end)
    × ((job_in_terminal_state running || any_tick is_last ticks) ≡ false
        → poll keeps running ticks fresh ≡ none)
poll_lem_example = poll_lem keeps running ticks fresh

two_polls : poll keeps running ticks fresh ≡ some (fresh, record { status = 0; errors = [] })
unfolding poll
two_polls = refl

abbrev registered : Executor ℕ
registered = record fresh { resources = 7 ∷ [] }

all_done :
    execute keeps (ok true) (ok (7, running)) ticks clone ("repo" ∷ []) false fresh
    ≡ ok (some (registered, record { status = 0; errors = [] }))
unfolding execute
all_done = refl

execute_success_example :
    ((d : Bool) × (add_repositories clone ("repo" ∷ []) false ≡ ok d))
    × ((d : Bool) × (◌≡◌ {A = Result String Bool} (ok true) (ok d)))
    × ((resource : ℕ) × (job : JobStatus) × (j : JobStatus) × (◌≡◌
          {A = Result String (ℕ × JobStatus)}
          (ok (7, running))
          (ok (resource, job)))
        × Seen j job ticks
        × (job_in_terminal_state j ≡ true)
        × (job_succeeded j ≡ true))
execute_success_example =
    execute_success keeps clone ("repo" ∷ []) false (ok true) (ok (7, running)) ticks fresh
      (registered, record { status = 0; errors = [] }) all_done refl
