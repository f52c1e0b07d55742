-- ===== src/Dependencies/Valid.antt =====
-- Which pipelines `_set_tasks` accepts.
use mathlib.Core.Option.{some-injective}
use tapis_workflows.Base.{
  ◌≤◌, count, String, ◌≡◌, ◌≢◌, ◌↔◌, refl, ap, subst, Option, Bool, true, false, none, some, List,
  [], ◌∷◌, ◌++◌, Result, ok, err, arith, ◌==◌, contains, string_eq, All, Bool-cases, Option-cases,
  Result-cases, inl, inr, filter, ◌>>=◌, >>=-eq-ok, ok-injective,
}
use tapis_workflows.Graph.{Graph, has_cycle}
use tapis_workflows.Task.{Dependency, Task, ids}
use tapis_workflows.Dependencies.{
  Plan, InvalidDependency, SetTasksError, no_parent, no_flag, missing_initial_tasks, child_flags,
  can_fail_of, or_raise, require_valid, require_acyclic, invalid_dep, invalid_deps_of, invalid_deps,
  dependency_graph, set_can_fail, set_flags, is_initial, get_initial_tasks, set_tasks,
}

-- A dependency is on another task of the pipeline.
abbrev pub IsValidDep : List String → Task → Dependency → Type 0
IsValidDep known task dep = (dep.id ≢ task.id) × (contains known dep.id ≡ true)

abbrev pub AllValid : List String → List Task → Type 0
AllValid known tasks = All (λ t. All (IsValidDep known t) t.depends_on) tasks

append-eq-nil {ℓ} : {A : Type ℓ} (xs ys : List A) → (xs ++ ys ≡ []) ↔ ((xs ≡ []) × (ys ≡ []))
append-eq-nil [] ys = (λ e. (refl, e), λ h. h.1)
append-eq-nil (x ∷ xs) ys = (λ e. cc, λ h. cc)

invalid_dep-eq-nil :
    (known : List String) (t : Task) (d : Dependency)
    → (invalid_dep known t d ≡ []) ↔ IsValidDep known t d
invalid_dep-eq-nil known t d = (λ e. ground arith, λ h. ground arith)

invalid_deps_of-eq-nil :
    (known : List String) (t : Task) (ds : List Dependency)
    → (invalid_deps_of known t ds ≡ []) ↔ All (IsValidDep known t) ds
unfolding invalid_deps_of
invalid_deps_of-eq-nil known t [] = (λ _. tt, λ _. refl)
invalid_deps_of-eq-nil known t (d ∷ ds) =
    let (there, back) = invalid_deps_of-eq-nil known t ds in
    let (first, again) = invalid_dep-eq-nil known t d in
    let (split, join) = append-eq-nil (invalid_dep known t d) (invalid_deps_of known t ds) in
    (λ e. (first (split e).0, there (split e).1), λ h. join (again h.0, back h.1))

-- The validation reports nothing exactly when every dependency of every task is on another task of the
-- pipeline.
pub invalid_deps-eq-nil :
    (known : List String) (tasks : List Task)
    → (invalid_deps known tasks ≡ []) ↔ AllValid known tasks
unfolding invalid_deps
invalid_deps-eq-nil known [] = (λ _. tt, λ _. refl)
invalid_deps-eq-nil known (t ∷ tasks) =
    let (there, back) = invalid_deps-eq-nil known tasks in
    let (first, again) = invalid_deps_of-eq-nil known t t.depends_on in
    let (split, join) =
      append-eq-nil (invalid_deps_of known t t.depends_on) (invalid_deps known tasks) in
    (λ e. (first (split e).0, there (split e).1), λ h. join (again h.0, back h.1))

-- Two lists hold the same tasks, but for their flags `can_fail`.
abbrev pub SameButFlags : List Task → List Task → Type 0
SameButFlags [] [] = Unit
SameButFlags (t ∷ ts) (u ∷ us) = (record t { can_fail = u.can_fail } ≡ u) × SameButFlags ts us
SameButFlags _ _ = ⊥

abbrev pub UniqueIds : List Task → Type 0
UniqueIds tasks = (a : String) → count a (ids tasks) ≤ 1

pub SameButFlags-ids : (ts us : List Task) → SameButFlags ts us → ids us ≡ ids ts
SameButFlags-ids [] [] h = refl
SameButFlags-ids [] (u ∷ us) h = absurd h
SameButFlags-ids (t ∷ ts) [] h = absurd h
SameButFlags-ids (t ∷ ts) (u ∷ us) h = rw (ap (λ (x : Task). x.id) h.0, SameButFlags-ids ts us h.1)

pub SameButFlags-refl : (ts : List Task) → SameButFlags ts ts
SameButFlags-refl [] = tt
SameButFlags-refl (t ∷ ts) = (refl, SameButFlags-refl ts)

pub set_can_fail-Same :
    (id : String) (b : Bool) (ts us : List Task)
    → SameButFlags ts us
    → SameButFlags ts (set_can_fail id b us)
unfolding set_can_fail
set_can_fail-Same id b [] [] h = tt
set_can_fail-Same id b [] (u ∷ us) h = absurd h
set_can_fail-Same id b (t ∷ ts) [] h = absurd h
set_can_fail-Same id b (t ∷ ts) (u ∷ us) h = elim (Bool-cases (u.id == id)) [
  | inl e ↦ rw e (ap (λ (x : Task). record x { can_fail = b }) h.0, h.1)
  | inr n ↦ rw n (h.0, set_can_fail-Same id b ts us h.1)
]

set_flags-Same :
    (g : Graph) (ts us vs : List Task)
    → SameButFlags ts us
    → set_flags g us ≡ some vs
    → SameButFlags ts vs
unfolding set_flags
set_flags-Same [] ts us vs h e = subst (SameButFlags ts) (some-injective us vs e) h
set_flags-Same ((p, cs) ∷ g) ts us vs h e = elim (Option-cases (child_flags us p cs)) [
  | inl missing ↦ absurd (ground arith)
  | inr (flags, found) ↦
      set_flags-Same g ts (set_can_fail p (can_fail_of flags) us) vs
        (set_can_fail-Same p (can_fail_of flags) ts us h) (rw (found, set_flags) at e)
]

require_valid-eq-ok : (ds : List InvalidDependency) → require_valid ds ≡ ok tt → ds ≡ []
require_valid-eq-ok [] e = refl
require_valid-eq-ok (d ∷ ds) e = cc

or_raise-eq-ok {ℓ} :
    {A : Type ℓ} (x : SetTasksError) (o : Option A) (a : A) → or_raise x o ≡ ok a → o ≡ some a
or_raise-eq-ok x none a e = cc
or_raise-eq-ok x (some b) a e = cc

require_acyclic-eq-ok :
    (g : Graph) (ts : List Task)
    → require_acyclic g ts ≡ ok tt
    → (seen : List String) × (has_cycle g (ids ts) ≡ ok (false, seen))
require_acyclic-eq-ok g ts e = elim (Result-cases (has_cycle g (ids ts))) [
  | inl ((true, seen), r) ↦ absurd (ground arith)
  | inl ((false, seen), r) ↦ (seen, r)
  | inr (f, r) ↦ absurd (ground arith)
]

get_initial_tasks-eq-ok :
    (ts us : List Task)
    → get_initial_tasks ts ≡ ok us
    → (us ≡ filter is_initial ts) × (filter is_initial ts ≢ [])
unfolding get_initial_tasks
get_initial_tasks-eq-ok ts us e = go (filter is_initial ts) e
  where
    go :
        (xs : List Task)
        → (elim xs [ [] ↦ err missing_initial_tasks | t ∷ us ↦ ok (t ∷ us) ]) ≡ ok us
        → (us ≡ xs) × (xs ≢ [])
    go [] e = cc
    go (x ∷ xs) e = (cc, λ h. cc)

-- The last steps of `_set_tasks`, one after another.
abbrev queued : Graph → List Task → Plan
queued g tasks = record { tasks = tasks; graph = g; queue = tasks }

abbrev with_initial : Graph → List Task → List Task → Result SetTasksError Plan
with_initial g tasks initial = require_acyclic g initial >>= λ _. ok (queued g tasks)

abbrev with_flags : Graph → List Task → Result SetTasksError Plan
with_flags g tasks = get_initial_tasks tasks >>= λ initial. with_initial g tasks initial

abbrev with_graph : List Task → Graph → Result SetTasksError Plan
with_graph tasks g = or_raise no_flag (set_flags g tasks) >>= λ tasks'. with_flags g tasks'

-- If `_set_tasks` returns, then every dependency is on another task of the pipeline, no cycle was
-- found, the tasks are those given but for their flags `can_fail`, all of them are queued, and one of
-- them has no dependencies.
pub set_tasks_ok :
    (tasks : List Task) (plan : Plan)
    → set_tasks tasks ≡ ok plan
    → AllValid (ids tasks) tasks
      × SameButFlags tasks plan.tasks
      × (plan.queue ≡ plan.tasks)
      × (dependency_graph tasks ≡ some plan.graph)
      × ((seen : List String) × (has_cycle plan.graph (ids (filter is_initial plan.tasks))
            ≡ ok (false, seen)))
      × (filter is_initial plan.tasks ≢ [])
unfolding set_tasks
set_tasks_ok tasks plan e =
    let (_, valid, e₁) =
      >>=-eq-ok (require_valid (invalid_deps (ids tasks) tasks))
        (λ _. or_raise no_parent (dependency_graph tasks) >>= λ g. with_graph tasks g) e in
    let (g, built, e₂) =
      >>=-eq-ok (or_raise no_parent (dependency_graph tasks)) (λ g. with_graph tasks g) e₁ in
    let (tasks', flagged, e₃) =
      >>=-eq-ok (or_raise no_flag (set_flags g tasks)) (λ tasks'. with_flags g tasks') e₂ in
    let (initial, found, e₄) =
      >>=-eq-ok (get_initial_tasks tasks') (λ initial. with_initial g tasks' initial) e₃ in
    let (_, acyclic, e₅) = >>=-eq-ok (require_acyclic g initial) (λ _. ok (queued g tasks')) e₄ in
    let (initial_tasks, some_task) = get_initial_tasks-eq-ok tasks' initial found in
    let same = ok-injective e₅ in
    (
      (invalid_deps-eq-nil (ids tasks) tasks).0 (require_valid-eq-ok _ valid),
      subst (λ (q : Plan). SameButFlags tasks q.tasks) same
          (set_flags-Same g tasks tasks tasks' (SameButFlags-refl tasks)
            (or_raise-eq-ok no_flag (set_flags g tasks) tasks' flagged)),
      subst (λ (q : Plan). q.queue ≡ q.tasks) same refl,
      subst (λ (q : Plan). dependency_graph tasks ≡ some q.graph) same
          (or_raise-eq-ok no_parent (dependency_graph tasks) g built),
      subst
          (λ (q : Plan).
            (seen : List String) × (has_cycle q.graph (ids (filter is_initial q.tasks))
              ≡ ok (false, seen)))
          same (rw initial_tasks at (require_acyclic-eq-ok g initial acyclic)),
      subst (λ (q : Plan). filter is_initial q.tasks ≢ []) same some_task,
    )
