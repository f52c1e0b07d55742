-- ===== src/Graph.antt =====
-- engine/src/core/workflows/GraphValidator.py: the depth-first search for cycles.
pub mod Bounds
pub mod Acyclic
pub mod Shared
use tapis_workflows.Base.{
  ℕ, zero, suc, String, ◌<>◌, Bool, true, false, Option, none, some, List, [], ◌∷◌, ◌++◌, Result,
  ok, err, length, contains, string_eq, if◌then◌else◌,
}
use tapis_workflows.Base.Dict
use tapis_workflows.Base.Dict.{Dict}

-- `task_dependency_map`: the id of a task, and the ids of the tasks that depend on it.
abbrev pub Graph : Type 0
Graph = Dict String (List String)

pub data Fault : Type 0 where
  -- `self.task_dependency_map[...]` at a key that it lacks
  key_error : String → Fault
  -- the fuel of the model ran out
  out_of_fuel : Fault

-- The answer, and `self.traversed_edges` after the call.
abbrev pub Answer : Type 0
Answer = Result Fault (Bool × List String)

-- `f"{from_vertex}:{to_vertex}"`
abbrev pub edge : String → String → String
edge from to = from <> (":" <> to)

-- The `for` loop of `traverse`, given the recursive call.
unfoldable pub visit :
    (String → String → List String → Answer) → List String → String → List String → Answer
visit call [] to seen = ok (false, seen)
visit call (dependency ∷ rest) to seen = elim (call dependency to seen) [
  | err e ↦ err e
  | ok (has_cycle, seen') ↦ if has_cycle then ok (true, seen') else visit call rest to seen'
]

-- `GraphValidator.traverse`
unfoldable pub traverse : Graph → ℕ → String → String → List String → Answer
unfolding visit
traverse g zero to from seen = err out_of_fuel
traverse g (suc fuel) to from seen = elim (contains seen (edge from to)) [
  | true ↦ ok (true, seen)
  | false ↦ elim (Dict.lookup to g) [
    | none ↦ err (key_error to)
    | some dependencies ↦ visit (traverse g fuel) dependencies to (seen ++ (edge from to ∷ []))
  ]
]

-- The loop of `has_cycle` over the ids of the initial tasks: only the first dependent of each is
-- traversed, and the traversed edges are never reset.
unfoldable pub search_from : Graph → ℕ → List String → List String → Answer
unfolding traverse
search_from g fuel [] seen = ok (false, seen)
search_from g fuel (id ∷ ids) seen = elim (Dict.lookup id g) [
  | none ↦ err (key_error id)
  | some [] ↦ search_from g fuel ids seen
  | some (first ∷ _) ↦ elim (traverse g fuel first id seen) [
    | err e ↦ err e
    | ok (has_cycle, seen') ↦ if has_cycle then ok (true, seen') else search_from g fuel ids seen'
  ]
]

-- The edges that a traversal can meet.
abbrev pub edges_from : String → List String → List String
edges_from from [] = []
edges_from from (to ∷ rest) = edge from to ∷ edges_from from rest

abbrev pub edges : Graph → List String
edges [] = []
edges ((from, dependents) ∷ g) = edges_from from dependents ++ edges g

abbrev pub length_edges : Graph → ℕ
length_edges g = length (edges g)

-- `GraphValidator.has_cycle`, with enough fuel for every graph.
unfoldable pub has_cycle : Graph → List String → Answer
unfolding search_from
has_cycle g initial_task_ids = search_from g (suc (length_edges g)) initial_task_ids []
