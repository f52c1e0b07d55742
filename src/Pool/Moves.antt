-- ===== src/Pool/Moves.antt =====
-- What `check_out` and `check_in` do to the pool on every branch, as multisets of workers.
use tapis_workflows.Base.{
  ℕ, suc, ◌+◌, ◌≡◌, refl, true, none, some, List, [], ◌∷◌, ◌++◌, arith, ◌==◌, Eq, contains, length,
  count, Option-cases, inl, inr, if◌then◌else◌,
}
use tapis_workflows.Pool.{WorkerPool, pop, remove}

module _ {W : Type 0} ⦃e : Eq W⦄ where
  -- The workers that the pool knows, counted
  abbrev pub held : W → WorkerPool W → ℕ
  held w p = count w p.pool + count w p.checked_out

  pub pop-eq-none : (ws : List W) → pop ws ≡ none → ws ≡ []
  unfolding pop
  pop-eq-none [] h = refl
  pop-eq-none (w ∷ ws) h = elim (Option-cases (pop ws)) [
    | inl n ↦ absurd (ground arith)
    | inr ((rest, last), s) ↦ absurd (ground arith)
  ]

  pub pop-eq-some :
      (ws rest : List W) (last : W) → pop ws ≡ some (rest, last) → ws ≡ rest ++ (last ∷ [])
  unfolding pop
  pop-eq-some [] rest last h = cc
  pop-eq-some (w ∷ ws) rest last h = elim (Option-cases (pop ws)) [
    | inl n ↦ ground (arith, pop-eq-none ws n)
    | inr ((rest', last'), s) ↦ ground (arith, pop-eq-some ws rest' last' s)
  ]

  pub count-remove :
      (a x : W) (xs : List W)
      → contains xs x ≡ true
      → count a (remove x xs) + (if a == x then 1 else 0) ≡ count a xs
  unfolding remove
  count-remove a x [] h = cc
  count-remove a x (y ∷ ys) h = ground (arith, count-remove a x ys)

  pub length-remove :
      (x : W) (xs : List W) → contains xs x ≡ true → suc (length (remove x xs)) ≡ length xs
  unfolding remove
  length-remove x [] h = cc
  length-remove x (y ∷ ys) h = ground (arith, length-remove x ys)
