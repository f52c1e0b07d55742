-- ===== src/Graph/Shared.antt =====
-- Where the search for cycles answers `True` although there is none.
use tapis_workflows.Base.{
  ℕ, zero, suc, ◌≡◌, ◌≢◌, String, true, false, some, List, [], ◌∷◌, ◌++◌, ok, arith, contains,
  contains-append, string_eq,
}
use tapis_workflows.Base.Dict.{lookup}
use tapis_workflows.Graph.{Graph, Answer, edge, length_edges, visit, traverse, has_cycle}
use tapis_workflows.Graph.Acyclic.{visit-cons_false, traverse-false, search_from-cons_false}

abbrev Keeps : List String → List String → Type 0
Keeps seen seen' = (e : String) → contains seen e ≡ true → contains seen' e ≡ true

visit-Keeps :
    (call : String → String → List String → Answer) (to : String)
    → ((d : String) (s s' : List String) → call d to s ≡ ok (false, s') → Keeps s s')
    → (ds seen seen' : List String) → visit call ds to seen ≡ ok (false, seen')
    → Keeps seen seen'
unfolding visit
visit-Keeps call to step [] seen seen' e x m = ground arith
visit-Keeps call to step (d ∷ ds) seen seen' e x m =
    let (mid, r, more) = visit-cons_false call to d ds seen seen' e in
    visit-Keeps call to step ds mid seen' more x (step d seen mid r x m)

traverse-Keeps :
    (g : Graph) (fuel : ℕ) (to from : String) (seen seen' : List String)
    → traverse g fuel to from seen ≡ ok (false, seen')
    → (contains seen' (edge from to) ≡ true) × Keeps seen seen'
traverse-Keeps g zero to from seen seen' e =
    let (k, ds, z, new, found, loop) = traverse-false g zero to from seen seen' e in
    absurd (omega arith)
traverse-Keeps g (suc fuel) to from seen seen' e =
    let (k, ds, z, new, found, loop) = traverse-false g (suc fuel) to from seen seen' e in
    let kept : Keeps (seen ++ (edge from to ∷ [])) seen' =
      visit-Keeps (traverse g fuel) to (λ d s s' r. (traverse-Keeps g fuel d to s s' r).1) ds
        (seen ++ (edge from to ∷ [])) seen' (ground arith) in
    (
      kept (edge from to) (ground (arith, contains-append seen (edge from to ∷ []) (edge from to))),
      λ x m. kept x (ground (arith, contains-append seen (edge from to ∷ []) x)),
    )

-- After a traversal of `v` that answers `False`, every edge out of `v` is marked.
out_edge_kept :
    (g : Graph) (fuel : ℕ) (v from d : String) (ds seen seen' : List String)
    → lookup v g ≡ some (d ∷ ds)
    → traverse g fuel v from seen ≡ ok (false, seen')
    → contains seen' (edge v d) ≡ true
out_edge_kept g zero v from d ds seen seen' found e =
    let (k, es, z, new, found', loop) = traverse-false g zero v from seen seen' e in
    absurd (omega arith)
out_edge_kept g (suc fuel) v from d ds seen seen' found e =
    let (k, es, z, new, found', loop) = traverse-false g (suc fuel) v from seen seen' e in
    let loop' : visit (traverse g fuel) (d ∷ ds) v (seen ++ (edge from v ∷ []))
        ≡ ok (false, seen') =
      ground arith in
    let (mid, r, more) = visit-cons_false (traverse g fuel) v d ds _ seen' loop' in
    visit-Keeps (traverse g fuel) v (λ d s s' r. (traverse-Keeps g fuel d v s s' r).1) ds mid seen'
      more (edge v d) (traverse-Keeps g fuel d v _ mid r).0

-- A second entry into `v` meets the marked edge.
marked_blocks :
    (g : Graph) (fuel : ℕ) (v from d : String) (ds seen seen' : List String)
    → lookup v g ≡ some (d ∷ ds)
    → contains seen (edge v d) ≡ true
    → ¬ (traverse g fuel v from seen ≡ ok (false, seen'))
marked_blocks g fuel v from d ds seen seen' found marked e =
    let (k, es, z, new, found', loop) = traverse-false g fuel v from seen seen' e in
    let loop' : visit (traverse g k) (d ∷ ds) v (seen ++ (edge from v ∷ [])) ≡ ok (false, seen') =
      ground arith in
    let (mid, r, more) = visit-cons_false (traverse g k) v d ds _ seen' loop' in
    let (k', es', z', new', found'', loop'') = traverse-false g k d v _ mid r in
    ground (arith, contains-append seen (edge from v ∷ []) (edge v d))

-- Two initial tasks in a row whose first dependent is the same task `v`, where `v` has a dependent of
-- its own, are never answered `False`, whether the graph has a cycle or not.
pub has_cycle_shared :
    (g : Graph) (a b v d : String) (xs ys ds ids seen : List String)
    → lookup a g ≡ some (v ∷ xs)
    → lookup b g ≡ some (v ∷ ys)
    → lookup v g ≡ some (d ∷ ds)
    → has_cycle g (a ∷ b ∷ ids) ≢ ok (false, seen)
unfolding has_cycle
has_cycle_shared g a b v d xs ys ds ids seen at_a at_b at_v e =
    let fuel = suc (length_edges g) in
    let (mid, more, first) = search_from-cons_false g fuel a (b ∷ ids) [] seen e in
    let (mid', more', second) = search_from-cons_false g fuel b ids mid seen more in
    marked_blocks g fuel v b d ds mid mid' at_v
      (out_edge_kept g fuel v a d ds [] mid at_v (first v xs at_a)) (second v ys at_b)
