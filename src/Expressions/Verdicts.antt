-- ===== src/Expressions/Verdicts.antt =====
-- `evaluate_all`: when the conditions of a task hold, and when they raise.
use tapis_workflows.Base.{◌≡◌, ◌↔◌, refl, true, ok, err, arith}
use tapis_workflows.ValueFrom.{Sources}
use tapis_workflows.Expressions.Syntax.{Conditions, no_conditions, condition}
use tapis_workflows.Expressions.{EvalError, evaluate, evaluate_all}

-- Every condition evaluates to `True`.
abbrev pub AllHold : Sources → Conditions → Type 0
AllHold s no_conditions = Unit
AllHold s (condition c cs) = (evaluate s c ≡ ok true) × AllHold s cs

-- The first condition that raises, raises `e`; those before it evaluate to anything.
abbrev pub FirstError : Sources → EvalError → Conditions → Type 0
FirstError s e no_conditions = ⊥
FirstError s e (condition c cs) = elim (evaluate s c) [ ok b ↦ FirstError s e cs | err f ↦ f ≡ e ]

-- `evaluate_all` answers `True` exactly when every condition evaluates to `True`.
pub evaluate_all-true :
    (s : Sources) (cs : Conditions) → (evaluate_all s cs ≡ ok true) ↔ AllHold s cs
unfolding evaluate_all
evaluate_all-true s no_conditions = (λ _. tt, λ _. refl)
evaluate_all-true s (condition c cs) =
    let (there, back) = evaluate_all-true s cs in (ground arith, ground arith)

-- `evaluate_all` raises `e` exactly when the first condition that raises, raises `e`: a condition
-- that is false does not keep those behind it from being evaluated.
pub evaluate_all_raises :
    (s : Sources) (cs : Conditions) (e : EvalError)
    → (evaluate_all s cs ≡ err e) ↔ FirstError s e cs
unfolding evaluate_all
evaluate_all_raises s no_conditions e = (λ h. cc, λ h. absurd h)
evaluate_all_raises s (condition c cs) e =
    let (there, back) = evaluate_all_raises s cs e in (ground arith, ground arith)
