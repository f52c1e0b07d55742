-- ===== src/Graph/Bounds.antt =====
-- Termination of `GraphValidator.has_cycle`: every call adds an edge that it has not met before.
use tapis_workflows.Base.{
  ℕ, zero, suc, ◌+◌, ◌≤◌, ◌<◌, ◌≡◌, refl, String, Bool, true, false, some, List, [], ◌∷◌, ◌++◌, ok,
  arith, length, All, Bool-cases, inl, inr, contains, contains-append, string_eq, if◌then◌else◌,
}
use tapis_workflows.Base.Dict.{lookup}
use tapis_workflows.Graph.{
  Graph, Answer, edge, edges, edges_from, length_edges, visit, traverse, search_from, has_cycle,
}

-- How many of the edges were not traversed yet.
abbrev unseen : List String → List String → ℕ
unseen [] seen = 0
unseen (e ∷ es) seen = (if contains seen e then 0 else 1) + unseen es seen

unseen-le : (es seen : List String) (e : String) → unseen es (seen ++ (e ∷ [])) ≤ unseen es seen
unseen-le [] seen e = omega arith
unseen-le (x ∷ es) seen e = ground (arith, unseen-le es seen e, contains-append seen (e ∷ []) x)

unseen-lt :
    (es seen : List String) (e : String)
    → contains es e ≡ true
    → contains seen e ≡ false
    → unseen es (seen ++ (e ∷ [])) < unseen es seen
unseen-lt [] seen e h fresh = cc
unseen-lt (x ∷ es) seen e h fresh =
    ground (arith, unseen-lt es seen e, unseen-le es seen e, contains-append seen (e ∷ []) x)

unseen-le-length : (es seen : List String) → unseen es seen ≤ length es
unseen-le-length [] seen = omega arith
unseen-le-length (x ∷ es) seen = ground (arith, unseen-le-length es seen)

-- Every dependent that the graph lists is a key of the graph.
pub record IsClosed (g : Graph) : Type 0 where
  pub listed :
      (v d : String) (ds : List String)
      → lookup v g ≡ some ds
      → contains ds d ≡ true
      → (ds' : List String) × (lookup d g ≡ some ds')

abbrev IsEdge : Graph → String → String → Type 0
IsEdge g from to =
    (contains (edges g) (edge from to) ≡ true) × ((ds : List String) × (lookup to g ≡ some ds))

contains-edges_from :
    (v d : String) (ds : List String)
    → contains ds d ≡ true
    → contains (edges_from v ds) (edge v d) ≡ true
contains-edges_from v d [] h = h
contains-edges_from v d (x ∷ ds) h = ground (arith, contains-edges_from v d ds)

contains-edges :
    (g : Graph) (v d : String) (ds : List String)
    → lookup v g ≡ some ds
    → contains ds d ≡ true
    → contains (edges g) (edge v d) ≡ true
contains-edges [] v d ds e h = cc
contains-edges ((w, es) ∷ g) v d ds e h = ground (
  arith,
  contains-append (edges_from w es) (edges g) (edge v d),
  contains-edges g v d ds,
  contains-edges_from v d ds h,
)

All-IsEdge :
    (g : Graph) (v : String) (ds : List String)
    → ((d : String) → contains ds d ≡ true → IsEdge g v d)
    → All (IsEdge g v) ds
All-IsEdge g v [] h = tt
All-IsEdge g v (d ∷ ds) h = (h d (ground arith), All-IsEdge g v ds (λ x m. h x (ground arith)))

-- The call returns, and no edge becomes untraversed.
abbrev Returns : Graph → List String → Answer → Type 0
Returns g seen r =
    (b : Bool) × (seen' : List String) × (r ≡ ok (b, seen'))
    × (unseen (edges g) seen' ≤ unseen (edges g) seen)

visit-Returns :
    (g : Graph) (call : String → String → List String → Answer) (to : String) (m : ℕ)
    → ((d : String) (s : List String)
        → IsEdge g to d
        → unseen (edges g) s ≤ m
        → Returns g s (call d to s))
    → (ds seen : List String) → All (IsEdge g to) ds
    → unseen (edges g) seen ≤ m
    → Returns g seen (visit call ds to seen)
unfolding visit
visit-Returns g call to m total [] seen h le = (false, seen, refl, omega arith)
visit-Returns g call to m total (d ∷ ds) seen h le =
    let (b, seen', e, less) = total d seen h.0 le in
    let (b', seen'', e', less') = visit-Returns g call to m total ds seen' h.1 (omega arith) in
    elim (Bool-cases b) [
      | inl found ↦ (true, seen', ground arith, less)
      | inr clear ↦ (b', seen'', ground arith, omega arith)
    ]

traverse-Returns :
    (g : Graph)
    → IsClosed g
    → (fuel : ℕ) (to from : String) (seen : List String) → IsEdge g from to
    → unseen (edges g) seen < fuel
    → Returns g seen (traverse g fuel to from seen)
unfolding traverse
traverse-Returns g closed zero to from seen h lt = absurd (omega arith)
traverse-Returns g closed (suc fuel) to from seen (listed, (ds, found)) lt =
    elim (Bool-cases (contains seen (edge from to))) [
      | inl old ↦ rw (old, traverse) (true, seen, refl, omega arith)
      | inr new ↦
          let less = unseen-lt (edges g) seen (edge from to) listed new in
          let (b, seen', e, le) =
            visit-Returns g (traverse g fuel) to (unseen (edges g) (seen ++ (edge from to ∷ [])))
              (λ d s h m. traverse-Returns g closed fuel d to s h (omega arith)) ds
              (seen ++ (edge from to ∷ []))
              (All-IsEdge g to ds
                (λ d m. (contains-edges g to d ds found m, closed.listed to d ds found m)))
              (omega arith) in
          (b, seen', rw (new, found, traverse) e, omega arith)
    ]

search_from-Returns :
    (g : Graph)
    → IsClosed g
    → (fuel : ℕ) (ids seen : List String)
    → All (λ id. (ds : List String) × (lookup id g ≡ some ds)) ids
    → unseen (edges g) seen < fuel
    → Returns g seen (search_from g fuel ids seen)
unfolding search_from
search_from-Returns g closed fuel [] seen h lt = (false, seen, refl, omega arith)
search_from-Returns g closed fuel (id ∷ ids) seen (([], e), h) lt =
    rw (e, search_from) (search_from-Returns g closed fuel ids seen h lt)
search_from-Returns g closed fuel (id ∷ ids) seen ((first ∷ ds, e), h) lt =
    let is_edge : IsEdge g id first = (
      contains-edges g id first (first ∷ ds) e (ground arith),
      closed.listed id first (first ∷ ds) e (ground arith),
    ) in
    let (b, seen', r, le) = traverse-Returns g closed fuel first id seen is_edge lt in
    let (b', seen'', r', le') = search_from-Returns g closed fuel ids seen' h (omega arith) in
    elim (Bool-cases b) [
      | inl found ↦ (true, seen', rw (e, search_from) (ground arith), omega arith)
      | inr clear ↦ (b', seen'', rw (e, search_from) (ground arith), omega arith)
    ]

-- In a graph whose listed dependents are all keys, `has_cycle` returns an answer for initial tasks
-- that are keys: it meets no missing key, and it does not run out of fuel.
pub has_cycle_total :
    (g : Graph) (ids : List String)
    → IsClosed g
    → All (λ id. (ds : List String) × (lookup id g ≡ some ds)) ids
    → (b : Bool) × (seen : List String) × (has_cycle g ids ≡ ok (b, seen))
unfolding has_cycle
has_cycle_total g ids closed known =
    let (b, seen, e, _) =
      search_from-Returns g closed (suc (length_edges g)) ids [] known
        (omega (arith, unseen-le-length (edges g) [])) in
    (b, seen, e)
