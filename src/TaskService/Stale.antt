-- ===== src/TaskService/Stale.antt =====
-- What the service keeps between two calls: the list of rollbacks, which it never empties.
use tapis_workflows.Base.{ℕ, ◌≡◌, false, Option, some, Result, ok, err, In, nat_eq, string_eq}
use tapis_workflows.TaskService.{
  TaskRow, Rollback, delete_credentials, delete_context, delete_destination, TaskService, Calls,
  Raised, refers, rollback,
}
use tapis_workflows.TaskService.Growth.{Extends}

-- The targets that a call returns have their rollbacks.
abbrev HasTarget : (ℕ → Rollback) → Option ℕ → TaskService → Type 0
HasTarget r target s = (k : ℕ) → target ≡ some k → In (r k) s.rollbacks

abbrev HasTargets : TaskService × Result Raised (Option ℕ × Option ℕ) → Type 0
HasTargets x =
    (p : Option ℕ × Option ℕ)
    → x.1 ≡ ok p
    → HasTarget delete_context p.0 x.0 × HasTarget delete_destination p.1 x.0

-- A failed call ends with the rollbacks of a state that keeps those of the first.
abbrev RollsBack : {A : Type 0} → Calls → TaskService → TaskService × Result Raised A → Type 0
RollsBack calls s x =
    (e : Raised) → x.1 ≡ err e → (s' : TaskService) × Extends s s' × (x.0 ≡ rollback calls s')

-- What `create` returns has its rollbacks, and where it raises it has rolled back.
abbrev Leaves : Calls → TaskService → TaskService × Result Raised TaskRow → Type 0
Leaves calls s x =
    RollsBack calls s x
    × ((t : TaskRow)
        → x.1 ≡ ok t
        → HasTarget delete_context t.context x.0 × HasTarget delete_destination t.destination x.0)

-- No task of the table refers to the row that the rollback deletes.
abbrev IsGone : Rollback → TaskRow → Type 0
IsGone (delete_credentials k) t = Unit
IsGone (delete_context k) t = refers k t.context ≡ false
IsGone (delete_destination k) t = refers k t.destination ≡ false
