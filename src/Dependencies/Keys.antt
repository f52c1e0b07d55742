-- ===== src/Dependencies/Keys.antt =====
-- The keys of the dependency graph, and the loop that sets the flags over its entries.
use mathlib.Core.Option.{some-injective}
use tapis_workflows.Base.{
  ◌+◌, ◌≤◌, String, ◌≡◌, inl, inr, refl, ap, Bool, true, some, List, [], ◌∷◌, ◌++◌, arith, ◌==◌,
  contains, string_eq, In, count, count_pos_of_contains, count_zero_of_absent, Option-cases,
  if◌then◌else◌,
}
use tapis_workflows.Base.Dict.{lookup, insert, keys}
use tapis_workflows.Graph.{Graph}
use tapis_workflows.Task.{Dependency, Task, ids}
use tapis_workflows.Dependencies.{
  empty_graph, push_dependent, push_parents, push_tasks, dependency_graph, set_can_fail,
}

abbrev pub UniqueKeys : Graph → Type 0
UniqueKeys g = (a : String) → count a (keys g) ≤ 1

count-keys-insert :
    (a k : String) (v : List String) (g : Graph)
    → count a (keys (insert k v g))
      ≡ count a (keys g) + (if contains (keys g) k then 0 else if a == k then 1 else 0)
count-keys-insert a k v [] = omega arith
count-keys-insert a k v ((j, w) ∷ g) = ground (arith, count-keys-insert a k v g)

insert-UniqueKeys :
    (k : String) (v : List String) (g : Graph) → UniqueKeys g → UniqueKeys (insert k v g)
insert-UniqueKeys k v g u a =
    ground (arith, count-keys-insert a k v g, count_zero_of_absent k (keys g), u a)

empty_graph-UniqueKeys : (ts : List Task) (g : Graph) → UniqueKeys g → UniqueKeys (empty_graph ts g)
unfolding empty_graph
empty_graph-UniqueKeys [] g u = u
empty_graph-UniqueKeys (t ∷ ts) g u =
    empty_graph-UniqueKeys ts (insert t.id [] g) (insert-UniqueKeys t.id [] g u)

push_parents-UniqueKeys :
    (child : String) (ds : List Dependency) (g g' : Graph)
    → push_parents child ds g ≡ some g'
    → UniqueKeys g
    → UniqueKeys g'
unfolding push_parents push_dependent
push_parents-UniqueKeys child [] g g' e u = rw (some-injective g g' e) at u
push_parents-UniqueKeys child (d ∷ ds) g g' e u = elim (Option-cases (lookup d.id g)) [
  | inl n ↦ absurd (ground (arith, n))
  | inr (cs, found) ↦
      push_parents-UniqueKeys child ds (insert d.id (cs ++ (child ∷ [])) g) g'
        (rw (found, push_parents) at e) (insert-UniqueKeys d.id (cs ++ (child ∷ [])) g u)
]

push_tasks-UniqueKeys :
    (ts : List Task) (g g' : Graph) → push_tasks ts g ≡ some g' → UniqueKeys g → UniqueKeys g'
unfolding push_tasks
push_tasks-UniqueKeys [] g g' e u = rw (some-injective g g' e) at u
push_tasks-UniqueKeys (t ∷ ts) g g' e u = elim (Option-cases (push_parents t.id t.depends_on g)) [
  | inl n ↦ absurd (ground (arith, n))
  | inr (h, pushed) ↦
      push_tasks-UniqueKeys ts h g' (rw (pushed, push_tasks) at e)
        (push_parents-UniqueKeys t.id t.depends_on g h pushed u)
]

pub dependency_graph-UniqueKeys :
    (ts : List Task) (g : Graph) → dependency_graph ts ≡ some g → UniqueKeys g
unfolding dependency_graph
dependency_graph-UniqueKeys ts g e =
    push_tasks-UniqueKeys ts (empty_graph ts []) g e
      (empty_graph-UniqueKeys ts [] (λ a. omega arith))

pub In-keys :
    (p : String) (cs : List String) (g : Graph) → In (p, cs) g → contains (keys g) p ≡ true
In-keys p cs [] i = absurd i
In-keys p cs ((k, v) ∷ g) (inl e) = ground (arith, ap (λ (x : String × List String). x.0) e)
In-keys p cs ((k, v) ∷ g) (inr i) = ground (arith, In-keys p cs g i)

-- With unique keys, every entry is the one that is found under its key.
pub lookup-In :
    (p : String) (cs : List String) (g : Graph) → UniqueKeys g → In (p, cs) g → lookup p g ≡ some cs
lookup-In p cs [] u i = absurd i
lookup-In p cs ((k, v) ∷ g) u (inl e) =
    let first = ap (λ (x : String × List String). x.0) e in
    let second = ap (λ (x : String × List String). x.1) e in ground (arith, first, second)
lookup-In p cs ((k, v) ∷ g) u (inr i) =
    let later = count_pos_of_contains p (keys g) (In-keys p cs g i) in
    let ih = lookup-In p cs g (λ a. omega (arith, u a)) i in ground (arith, later, ih, u p)

-- The tasks with the flags that `f` gives for the ids of a list
abbrev pub flag_all : List String → (String → Bool) → List Task → List Task
flag_all known f [] = []
flag_all known f (u ∷ us) =
    record u { can_fail = if contains known u.id then f u.id else u.can_fail } ∷ flag_all known f us

pub flag_all-nil : (f : String → Bool) (us : List Task) → flag_all [] f us ≡ us
flag_all-nil f [] = refl
flag_all-nil f (u ∷ us) = ap (λ l. u ∷ l) (flag_all-nil f us)

set_can_fail_absent :
    (p : String) (b : Bool) (us : List Task) → count p (ids us) ≡ 0 → set_can_fail p b us ≡ us
unfolding set_can_fail
set_can_fail_absent p b [] h = refl
set_can_fail_absent p b (u ∷ us) h = ground (arith, set_can_fail_absent p b us)

flag_all_absent :
    (p : String) (known : List String) (f : String → Bool) (us : List Task)
    → count p (ids us) ≡ 0
    → flag_all known f us ≡ flag_all (p ∷ known) f us
flag_all_absent p known f [] h = refl
flag_all_absent p known f (u ∷ us) h = ground (arith, flag_all_absent p known f us)

pub flag_all-set_can_fail :
    (p : String) (known : List String) (f : String → Bool) (us : List Task)
    → ((a : String) → count a (ids us) ≤ 1)
    → flag_all known f (set_can_fail p (f p) us) ≡ flag_all (p ∷ known) f us
unfolding set_can_fail
flag_all-set_can_fail p known f [] h = refl
flag_all-set_can_fail p known f (u ∷ us) h = ground (
  arith,
  h p,
  ap f {x = u.id} {y = p},
  flag_all_absent p known f us,
  flag_all-set_can_fail p known f us (λ a. omega (arith, h a)),
)
