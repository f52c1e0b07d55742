-- ===== src/Service.antt =====
-- API services/Service.py: the rollbacks of a service. A rollback is what its call raises, if anything.
use tapis_workflows.Base.{
  String, ◌≡◌, refl, ◌∙◌, Bool, true, false, ◌&&◌, Option, none, some, List, [], ◌∷◌, ◌++◌, Result,
  ok, err,
}
use mathlib.Core.List.{append-nil, append_assoc}

pub record Service : Type 0 where
  pub errors : List String
  pub rollbacks : List (Option String)

-- `_add_rollback`
unfoldable pub add_rollback : Option String → Service → Service
add_rollback r s = record s { rollbacks = s.rollbacks ++ (r ∷ []) }

-- The loop of `rollback`: the errors, and what it returns or raises
unfoldable pub rollback_each :
    Bool → Bool → List (Option String) → List String → List String × Result String Bool
rollback_each raises success [] errors = (errors, ok success)
rollback_each raises success (none ∷ rs) errors = rollback_each raises success rs errors
rollback_each true success (some e ∷ rs) errors = (errors ++ (e ∷ []), err e)
rollback_each false success (some e ∷ rs) errors = rollback_each false false rs (errors ++ (e ∷ []))

-- `rollback`
unfoldable pub rollback : Bool → Service → Service × Result String Bool
unfolding rollback_each
rollback raise_exception s =
    let (errors, result) = rollback_each raise_exception true s.rollbacks s.errors in
    (record s { errors = errors }, result)

-- What the rollbacks raise, in order
abbrev pub failures : List (Option String) → List String
failures [] = []
failures (none ∷ rs) = failures rs
failures (some e ∷ rs) = e ∷ failures rs

abbrev pub is_clean : List (Option String) → Bool
is_clean [] = true
is_clean (none ∷ rs) = is_clean rs
is_clean (some e ∷ rs) = false

rollback_each_lem :
    (success : Bool) (rs : List (Option String)) (errors : List String)
    → rollback_each false success rs errors ≡ (errors ++ failures rs, ok (success && is_clean rs))
unfolding rollback_each
rollback_each_lem true [] errors = rw append-nil refl
rollback_each_lem false [] errors = rw append-nil refl
rollback_each_lem success (none ∷ rs) errors = rollback_each_lem success rs errors
rollback_each_lem true (some e ∷ rs) errors =
    rollback_each_lem false rs (errors ++ (e ∷ [])) ∙ rw append_assoc refl
rollback_each_lem false (some e ∷ rs) errors =
    rollback_each_lem false rs (errors ++ (e ∷ [])) ∙ rw append_assoc refl

-- Without `raise_exception`, `rollback` runs all rollbacks, whatever some of them raise: it appends what
-- they raise to the errors, returns whether none raised, and keeps the list of rollbacks.
pub rollback_lem :
    (s : Service)
    → rollback false s
      ≡ (record s { errors = s.errors ++ failures s.rollbacks }, ok (is_clean s.rollbacks))
unfolding rollback
rollback_lem s = rw (rollback_each_lem true s.rollbacks s.errors) refl
