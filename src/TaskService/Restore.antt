-- ===== src/TaskService/Restore.antt =====
-- What a failed creation of a task leaves in the tables.
use tapis_workflows.Base.{ℕ, ◌≡◌, some, List, Result, err, All, nat_eq, string_eq}
use tapis_workflows.TaskService.{
  Target, Rows, delete_credentials, delete_context, delete_destination, TaskService, Calls, Raised,
}
use tapis_workflows.TaskService.Undo.{IsFresh, plus, Covers}

-- The keys that the calls give are not in the tables.
abbrev pub FreshCalls : Calls → Rows → Type 0
FreshCalls calls rows =
    ((k : ℕ) → calls.context_secret ≡ some k → IsFresh rows (delete_credentials k))
    × ((k : ℕ) → calls.destination_secret ≡ some k → IsFresh rows (delete_credentials k))
    × ((k : ℕ) → calls.context_row ≡ some k → IsFresh rows (delete_context k))
    × ((k : ℕ) → calls.destination_row ≡ some k → IsFresh rows (delete_destination k))

-- The state is one that the rollbacks undo.
abbrev pub IsUndoable : Rows → TaskService → Type 0
IsUndoable rows s =
    (cs : List ℕ) × (xs : List Target) × (ds : List Target) × (s.rows ≡ plus rows cs xs ds)
    × All (IsFresh rows) s.rollbacks
    × Covers s.rollbacks cs xs ds

module _ (rows : Rows) (calls : Calls) (fresh : FreshCalls calls rows) where
  -- Undoable, and undone where the call raises
  abbrev IsUndone : {A : Type 0} → TaskService × Result Raised A → Type 0
  IsUndone x = IsUndoable rows x.0 × ((e : Raised) → x.1 ≡ err e → x.0.rows ≡ rows)
