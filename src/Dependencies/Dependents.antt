-- ===== src/Dependencies/Dependents.antt =====
-- The dependency graph that `_set_tasks` builds by mutation, against a direct description of it.
use mathlib.Core.List.{append-nil, append_assoc}
use tapis_workflows.Base.{
  String, ◌≡◌, refl, ◌∙◌, true, none, some, List, [], ◌∷◌, ◌++◌, arith, ◌==◌, contains,
  contains-append, string_eq, All, if◌then◌else◌,
}
use tapis_workflows.Base.Dict.{lookup, insert, lookup-insert}
use tapis_workflows.Graph.{Graph}
use tapis_workflows.Task.{Dependency, Task, ids}
use tapis_workflows.Dependencies.{
  empty_graph, push_dependent, push_parents, push_tasks, dependency_graph,
}

-- `child`, once for each of its dependencies on `p`
abbrev pub entries : String → String → List Dependency → List String
entries p child [] = []
entries p child (dep ∷ deps) =
    let rest = entries p child deps in if p == dep.id then child ∷ rest else rest

-- The ids of the tasks that depend on `p`, in the order of the tasks.
abbrev pub dependents : String → List Task → List String
dependents p [] = []
dependents p (task ∷ tasks) = entries p task.id task.depends_on ++ dependents p tasks

abbrev pub AllKnown : List String → List Dependency → Type 0
AllKnown known deps = All (λ dep. contains known dep.id ≡ true) deps

-- The graph holds the ids `known`, each with its list by `f`.
abbrev Describes : List String → (String → List String) → Graph → Type 0
Describes known f g = (p : String) → lookup p g ≡ (if contains known p then some (f p) else none)

empty_graph-Describes :
    (tasks : List Task) (known : List String) (g : Graph)
    → Describes known (λ _. []) g
    → Describes (ids tasks ++ known) (λ _. []) (empty_graph tasks g)
unfolding empty_graph
empty_graph-Describes [] known g h p = h p
empty_graph-Describes (t ∷ tasks) known g h p =
    empty_graph-Describes tasks (t.id ∷ known) (insert t.id [] g)
      (λ q. lookup-insert q t.id [] g ∙ ground (arith, h q)) p
    ∙ ground
        (arith, contains-append (ids tasks) (t.id ∷ known) p, contains-append (ids tasks) known p)

pushed :
    (p q child : String) (known : List String) (f : String → List String) (g : Graph)
    → Describes known f g
    → contains known q ≡ true
    → (if p == q then some (f q ++ (child ∷ [])) else lookup p g)
      ≡ (if contains known p then some (f p ++ (if p == q then child ∷ [] else [])) else none)
pushed p q child known f g h a = ground (arith, h p, append-nil (f p))

regroup :
    (p child : String) (d : Dependency) (ds : List Dependency) (known l : List String)
    → (if contains known p
        then some ((l ++ (if p == d.id then child ∷ [] else [])) ++ entries p child ds)
        else none)
      ≡ (if contains known p then some (l ++ entries p child (d ∷ ds)) else none)
regroup p child d ds known l =
    ground (arith, append-nil l, append_assoc l (child ∷ []) (entries p child ds))

push_parents-Describes :
    (child : String) (parents : List Dependency) (known : List String) (f : String → List String)
    (g : Graph)
    → Describes known f g
    → AllKnown known parents
    → (g' : Graph) × (push_parents child parents g ≡ some g')
      × Describes known (λ p. f p ++ entries p child parents) g'
unfolding push_parents push_dependent
push_parents-Describes child [] known f g h a = (g, refl, λ p. h p ∙ rw append-nil)
push_parents-Describes child (d ∷ ds) known f g h a =
    let found : lookup d.id g ≡ some (f d.id) = h d.id ∙ rw a.0 in
    let g₁ = insert d.id (f d.id ++ (child ∷ [])) g in
    let f₁ : String → List String = λ p. f p ++ (if p == d.id then child ∷ [] else []) in
    let (g', e, h') =
      push_parents-Describes child ds known f₁ g₁
        (λ p. lookup-insert p d.id (f d.id ++ (child ∷ [])) g ∙ pushed p d.id child known f g h a.0)
        a.1 in
    (g', rw (push_parents, found) e, λ p. h' p ∙ regroup p child d ds known (f p))

push_tasks-Describes :
    (tasks : List Task) (known : List String) (f : String → List String) (g : Graph)
    → Describes known f g
    → All (λ t. AllKnown known t.depends_on) tasks
    → (g' : Graph) × (push_tasks tasks g ≡ some g')
      × Describes known (λ p. f p ++ dependents p tasks) g'
unfolding push_tasks
push_tasks-Describes [] known f g h a = (g, refl, λ p. h p ∙ rw append-nil)
push_tasks-Describes (t ∷ tasks) known f g h a =
    let (g₁, e, h₁) = push_parents-Describes t.id t.depends_on known f g h a.0 in
    let (g', e', h') =
      push_tasks-Describes tasks known (λ p. f p ++ entries p t.id t.depends_on) g₁ h₁ a.1 in
    (g', rw (push_tasks, e) e', λ p. h' p ∙ rw append_assoc)

-- If every dependency is on one of the tasks, then the dependency graph is built without a `KeyError`,
-- its keys are the ids of the tasks, and it maps each id to the ids of the tasks that depend on it,
-- in the order of the tasks and once for each such dependency.
pub dependency_graph_lem :
    (tasks : List Task)
    → All (λ t. AllKnown (ids tasks) t.depends_on) tasks
    → (g : Graph) × (dependency_graph tasks ≡ some g)
      × ((p : String)
          → lookup p g ≡ (if contains (ids tasks) p then some (dependents p tasks) else none))
unfolding dependency_graph
dependency_graph_lem tasks a =
    push_tasks-Describes tasks (ids tasks) (λ _. []) (empty_graph tasks [])
      (λ p. empty_graph-Describes tasks [] [] (λ _. refl) p ∙ rw append-nil) a
