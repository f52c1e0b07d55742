-- ===== src/Params.antt =====
-- core/workflows/params_validator.py: the arguments of a submission against the parameters of the
-- pipeline.
use tapis_workflows.Base.{
  String, sym, ◌≢◌, ◌≡◌, ◌↔◌, refl, Bool, true, false, none, some, List, [], ◌∷◌, arith, string_eq,
  filter, contains, if◌then◌else◌, ◌⊎◌,
}
use tapis_workflows.Base.Dict.{Dict, lookup}
use tapis_workflows.Value.{Value, none_value}

-- The keys of the parameters that are required
unfoldable pub required_params : Dict String Bool → List String
required_params [] = []
required_params ((key, required) ∷ params) =
    let rest = required_params params in if required then key ∷ rest else rest

-- `getattr(args.get(param, None), "value", None) == None`
unfoldable pub has_no_value : Dict String Value → String → Bool
has_no_value args param = elim (lookup param args) [
  | none ↦ true
  | some none_value ↦ true
  | some _ ↦ false
]

-- The result, and the missing arguments, which the message names
unfoldable pub params_validator : Dict String Bool → Dict String Value → Bool × List String
unfolding required_params has_no_value
params_validator params args =
    let missing_args = filter (has_no_value args) (required_params params) in
    elim missing_args [ [] ↦ (true, []) | m ∷ ms ↦ (false, m ∷ ms) ]

true≢false : true ≢ false
true≢false e = cc

-- The parameter is required, and the argument has no value.
abbrev pub IsMissing : Dict String Bool → Dict String Value → String → Type 0
IsMissing [] args a = ⊥
IsMissing ((key, required) ∷ params) args a =
    ((key ≡ a) × (required ≡ true) × (has_no_value args a ≡ true)) ⊎ IsMissing params args a

missing_lem :
    (params : Dict String Bool) (args : Dict String Value) (a : String)
    → contains (filter (has_no_value args) (required_params params)) a ≡ true
      ↔ IsMissing params args a
unfolding required_params
missing_lem [] args a = (λ e. cc, λ h. absurd h)
missing_lem ((key, required) ∷ params) args a =
    let (there, back) = missing_lem params args a in (ground arith, ground arith)

-- A submission is accepted exactly when no required parameter lacks a value, and otherwise the missing
-- arguments that the message names are exactly the required parameters without one.
pub params_validator_lem :
    (params : Dict String Bool) (args : Dict String Value)
    → ((params_validator params args).0 ≡ true ↔ ((a : String) → ¬ IsMissing params args a))
      × ((a : String)
          → contains (params_validator params args).1 a ≡ true ↔ IsMissing params args a)
unfolding params_validator
params_validator_lem params args =
    go (filter (has_no_value args) (required_params params)) (missing_lem params args)
  where
    go :
        (ms : List String)
        → ((a : String) → contains ms a ≡ true ↔ IsMissing params args a)
        → let r : Bool × List String = elim ms [ [] ↦ (true, []) | m ∷ ms' ↦ (false, m ∷ ms') ] in
          (r.0 ≡ true ↔ ((a : String) → ¬ IsMissing params args a))
          × ((a : String) → contains r.1 a ≡ true ↔ IsMissing params args a)
    go [] h = ((λ _ a m. true≢false (sym ((h a).1 m)), λ _. refl), h)
    go (m ∷ ms) h =
        ((λ e. absurd (true≢false (sym e)), λ f. absurd (f m ((h m).0 (ground arith)))), h)
