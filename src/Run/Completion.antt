-- ===== src/Run/Completion.antt =====
-- How a run ends.
use tapis_workflows.Base.{
  ℕ, zero, suc, ◌<◌, String, ◌≡◌, refl, sym, ap, ◌∙◌, subst, true, false, List, [], ◌∷◌, ok, arith,
  string_eq, contains, All, length, count, count_pos_of_contains, count_zero_of_absent, Bool-cases,
  inl, inr,
}
use tapis_workflows.Task.{Dependency, Task, ids}
use tapis_workflows.Dependencies.{Plan, set_tasks}
use tapis_workflows.Dependencies.Valid.{SameButFlags, UniqueIds, set_tasks_ok}
use tapis_workflows.Dependencies.Dependents.{AllKnown}
use tapis_workflows.Run.{Run, Reach}
use tapis_workflows.Run.Ready.{deps_finished, is_waiting}
use tapis_workflows.Run.Invariant.{Inv, published, is_completed, is_failed}
use tapis_workflows.Run.Steps.{Reach-Inv}
use tapis_workflows.Run.Progress.{SameButFlags-length, set_tasks-IsPlan}

-- The dependencies of every task have a lower rank: there is no cycle.
abbrev pub IsRank : (String → ℕ) → List Task → Type 0
IsRank rank tasks = All (λ t. All (λ dep. rank dep.id < rank t.id) t.depends_on) tasks

-- A dependency that has not finished
unfinished :
    (rank : String → ℕ) (known finished : List String) (r : ℕ) (deps : List Dependency)
    → AllKnown known deps
    → All (λ dep. rank dep.id < r) deps
    → deps_finished finished deps ≡ false
    → (a : String) × (contains known a ≡ true) × (contains finished a ≡ false) × (rank a < r)
unfinished rank known finished r [] k h e = cc
unfinished rank known finished r (d ∷ deps) k h e = elim (Bool-cases (contains finished d.id)) [
  | inl yes_ ↦ unfinished rank known finished r deps k.1 h.1 (rw yes_ at e)
  | inr no_ ↦ (d.id, k.0, no_, h.0)
]

-- The task of an id, with what holds of all tasks
pub found :
    (P Q R : Task → Type 0) (a : String) (ts : List Task)
    → 0 < count a (ids ts)
    → All P ts
    → All Q ts
    → All R ts
    → (t : Task) × (t.id ≡ a) × P t × Q t × R t
found P Q R a [] h p q r = absurd (omega arith)
found P Q R a (t ∷ ts) h p q r = elim (string_eq.dec a t.id) [
  | yes e ↦ (t, sym e, p.0, q.0, r.0)
  | no n ↦ found P Q R a ts (ground arith) p.1 q.1 r.1
]

module _ (rank : String → ℕ) {s : Run} (inv : Inv s)
    (ranked : All (λ t. All (λ dep. rank dep.id < rank t.id) t.depends_on) s.queue)
    (waiting : All (λ t. is_waiting s t ≡ true) s.queue) (still : s.running ≡ [])
    (alive : s.crashed ≡ []) where
  -- No task of the queue has a rank below the fuel: it would wait for another one of a lower rank.
  none_below : (n : ℕ) (a : String) → rank a < n → 0 < count a (ids s.queue) → ⊥
  none_below zero a below h = omega arith
  none_below (suc n) a below h =
      let (t, same, known, low, waits) =
        found (λ t. AllKnown (ids s.tasks) t.depends_on)
          (λ t. All (λ dep. rank dep.id < rank t.id) t.depends_on) (λ t. is_waiting s t ≡ true) a
          s.queue h inv.known ranked waiting in
      let (b, there, not_yet, lower) =
        unfinished rank (ids s.tasks) s.finished (rank t.id) t.depends_on known low
          (ground arith) in
      none_below n b (omega (arith, ap rank same)) (
        omega (
          arith,
          inv.parted b,
          count_zero_of_absent b s.finished not_yet,
          count_pos_of_contains b (ids s.tasks) there,
          ap (λ (l : List Task). count b (ids l)) still,
          ap (λ l. count b l) alive,
        ))

nobody : (ts : List Task) → ((a : String) → 0 < count a (ids ts) → ⊥) → ts ≡ []
nobody [] h = refl
nobody (t ∷ ts) h = absurd (h t.id (ground arith))

SameButFlags-IsRank :
    (rank : String → ℕ) (ts us : List Task) → SameButFlags ts us → IsRank rank ts → IsRank rank us
SameButFlags-IsRank rank [] [] h r = tt
SameButFlags-IsRank rank [] (u ∷ us) h r = absurd h
SameButFlags-IsRank rank (t ∷ ts) [] h r = absurd h
SameButFlags-IsRank rank (t ∷ ts) (u ∷ us) h r = (
  subst (λ (x : Task). All (λ dep. rank dep.id < rank x.id) x.depends_on) h.0 r.0,
  SameButFlags-IsRank rank ts us h.1 r.1,
)

-- A run of such a pipeline, whose dependencies have no cycle, completes: when no thread is left, none
-- has crashed and the failure of the pipeline was not published, then every task has finished and the
-- completion of the pipeline was published. Conversely it was published only if every task has
-- finished.
pub run_completes :
    (tasks : List Task) (plan : Plan) (rank : String → ℕ) {n : ℕ} {s : Run}
    → UniqueIds tasks
    → set_tasks tasks ≡ ok plan
    → IsRank rank tasks
    → Reach plan n s
    → (s.running ≡ []
        → s.crashed ≡ []
        → published is_failed s.events ≡ false
        → (s.queue ≡ [])
          × (length s.finished ≡ length tasks)
          × (published is_completed s.events ≡ true))
      × (published is_completed s.events ≡ true → length s.finished ≡ length tasks)
run_completes tasks plan rank {s = s} unique e ranked r =
    let same = (set_tasks_ok tasks plan e).1 in
    let (inv, told, kept, _) = Reach-Inv plan (set_tasks-IsPlan tasks plan unique e) r in
    let total = ap (λ (l : List Task). length l) kept ∙ SameButFlags-length tasks plan.tasks same in
    let low : IsRank rank s.queue =
      inv.drawn (λ t. All (λ dep. rank dep.id < rank t.id) t.depends_on)
        (rw kept (SameButFlags-IsRank rank tasks plan.tasks same ranked)) in
    (
      λ still alive good.
          let empty : s.queue ≡ [] = nobody s.queue (λ a h.
            none_below rank inv low (told.waiting good) still alive (suc (rank a)) a (omega arith)
              h) in
          let all : length s.finished ≡ length s.tasks = omega (
            arith,
            inv.sized,
            ap (λ (l : List Task). length l) empty,
            ap (λ (l : List Task). length l) still,
            ap (λ (l : List String). length l) alive,
          ) in
          (empty, all ∙ total, told.completed.1 all),
      λ done. told.completed.0 done ∙ total,
    )
