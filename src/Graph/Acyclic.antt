-- ===== src/Graph/Acyclic.antt =====
-- What the answer `False` of the search for cycles means.
use mathlib.Core.WellFounded.{Acc}
use tapis_workflows.Base.{
  ℕ, zero, suc, ◌≡◌, refl, sym, subst, String, true, false, some, List, [], ◌∷◌, ◌++◌, ok, arith,
  Result-cases, Bool-cases, Option-cases, inl, inr, contains, string_eq,
}
use tapis_workflows.Base.Dict.{lookup}
use tapis_workflows.Graph.{
  Graph, Answer, edge, length_edges, visit, traverse, search_from, has_cycle,
}

-- `child` is listed as a dependent of `parent`.
abbrev pub Dependent : Graph → String → String → Type 0
Dependent g child parent =
    (ds : List String) × (lookup parent g ≡ some ds) × (contains ds child ≡ true)

-- No walk along the dependents of `v` goes on for ever: `v` reaches no cycle.
abbrev pub Terminates : Graph → String → Type 0
Terminates g v = Acc (Dependent g) v

-- A loop over the dependents that answers `False` had that answer from its first call, and goes on.
pub visit-cons_false :
    (call : String → String → List String → Answer) (to d : String) (ds seen seen' : List String)
    → visit call (d ∷ ds) to seen ≡ ok (false, seen')
    → (mid : List String) × (call d to seen ≡ ok (false, mid))
      × (visit call ds to mid ≡ ok (false, seen'))
unfolding visit
visit-cons_false call to d ds seen seen' e = elim (Result-cases (call d to seen)) [
  | inl ((true, mid), r) ↦ absurd (ground arith)
  | inl ((false, mid), r) ↦ (mid, r, rw (r, visit) at e)
  | inr (f, r) ↦ absurd (ground arith)
]

-- A call that answers `False` met a new edge, and all of its loop.
pub traverse-false :
    (g : Graph) (fuel : ℕ) (to from : String) (seen seen' : List String)
    → traverse g fuel to from seen ≡ ok (false, seen')
    → (fuel' : ℕ) × (ds : List String) × (fuel ≡ suc fuel')
      × (contains seen (edge from to) ≡ false)
      × (lookup to g ≡ some ds)
      × (visit (traverse g fuel') ds to (seen ++ (edge from to ∷ [])) ≡ ok (false, seen'))
unfolding traverse
traverse-false g zero to from seen seen' e = absurd (ground arith)
traverse-false g (suc fuel) to from seen seen' e =
    elim (Bool-cases (contains seen (edge from to))) [
      | inl old ↦ absurd (ground arith)
      | inr new ↦ elim (Option-cases (lookup to g)) [
        | inl missing ↦ absurd (ground arith)
        | inr (ds, found) ↦ (fuel, ds, refl, new, found, rw (new, found, traverse) at e)
      ]
    ]

visit-Terminates :
    (g : Graph) (call : String → String → List String → Answer) (to : String)
    → ((d : String) (s s' : List String) → call d to s ≡ ok (false, s') → Terminates g d)
    → (ds seen seen' : List String) → visit call ds to seen ≡ ok (false, seen')
    → (d : String) → contains ds d ≡ true
    → Terminates g d
visit-Terminates g call to step [] seen seen' e d m = cc
visit-Terminates g call to step (x ∷ ds) seen seen' e d m =
    let (mid, r, more) = visit-cons_false call to x ds seen seen' e in
    elim (string_eq.dec d x) [
      | yes same ↦ subst (Terminates g) (sym same) (step x seen mid r)
      | no other ↦ visit-Terminates g call to step ds mid seen' more d (ground arith)
    ]

pub traverse-Terminates :
    (g : Graph) (fuel : ℕ) (to from : String) (seen seen' : List String)
    → traverse g fuel to from seen ≡ ok (false, seen')
    → Terminates g to
traverse-Terminates g zero to from seen seen' e =
    let (k, ds, z, new, found, loop) = traverse-false g zero to from seen seen' e in
    absurd (omega arith)
traverse-Terminates g (suc fuel) to from seen seen' e =
    let (k, ds, z, new, found, loop) = traverse-false g (suc fuel) to from seen seen' e in
    Acc.intro to λ child (ds', found', m).
      visit-Terminates g (traverse g fuel) to (λ d s s' r. traverse-Terminates g fuel d to s s' r)
        ds (seen ++ (edge from to ∷ [])) seen' (ground arith) child (ground arith)

-- The loop over the initial tasks that answers `False` goes on behind each of them.
pub search_from-cons_false :
    (g : Graph) (fuel : ℕ) (x : String) (ids seen seen' : List String)
    → search_from g fuel (x ∷ ids) seen ≡ ok (false, seen')
    → (mid : List String) × (search_from g fuel ids mid ≡ ok (false, seen'))
      × ((first : String) (ds : List String)
          → lookup x g ≡ some (first ∷ ds)
          → traverse g fuel first x seen ≡ ok (false, mid))
unfolding search_from
search_from-cons_false g fuel x ids seen seen' e = elim (Option-cases (lookup x g)) [
  | inl missing ↦ absurd (ground arith)
  | inr ([], found) ↦ (seen, rw (found, search_from) at e, λ first ds other. absurd (ground arith))
  | inr (f ∷ fs, found) ↦ elim (Result-cases (traverse g fuel f x seen)) [
    | inl ((true, mid), r) ↦ absurd (ground arith)
    | inl ((false, mid), r) ↦ (mid, rw (found, search_from, r) at e, λ first ds other. ground arith)
    | inr (fault, r) ↦ absurd (ground arith)
  ]
]

search_from-Terminates :
    (g : Graph) (fuel : ℕ) (ids seen seen' : List String)
    → search_from g fuel ids seen ≡ ok (false, seen')
    → (id first : String) (ds : List String) → contains ids id ≡ true
    → lookup id g ≡ some (first ∷ ds)
    → Terminates g first
search_from-Terminates g fuel [] seen seen' e id first ds m found = cc
search_from-Terminates g fuel (x ∷ ids) seen seen' e id first ds m found =
    let (mid, more, entered) = search_from-cons_false g fuel x ids seen seen' e in
    elim (string_eq.dec id x) [
      | yes same ↦ traverse-Terminates g fuel first x seen mid (entered first ds (rw same at found))
      | no other ↦ search_from-Terminates g fuel ids mid seen' more id first ds (ground arith) found
    ]

-- If `has_cycle` answers `False`, then the first dependent of every initial task reaches no cycle.
pub has_cycle-false-Terminates :
    (g : Graph) (ids seen : List String)
    → has_cycle g ids ≡ ok (false, seen)
    → (id first : String) (ds : List String) → contains ids id ≡ true
    → lookup id g ≡ some (first ∷ ds)
    → Terminates g first
unfolding has_cycle
has_cycle-false-Terminates g ids seen e id first ds m found =
    search_from-Terminates g (suc (length_edges g)) ids [] seen e id first ds m found
