-- ===== src/Etl/Ranks.antt =====
-- Ranks for the chain of jobs between two tasks of the template.
use tapis_workflows.Base.{
  ℕ, suc, ◌≤◌, ◌<◌, String, ◌≡◌, ◌≢◌, List, [], ◌∷◌, arith, ◌==◌, string_eq, All, if◌then◌else◌,
  leb,
}
use text.Mathlib.TextLemmas.{append_cancel_left}
use tapis_workflows.Base.Decimal.{decimal, decimal_inj}
use tapis_workflows.Task.{Task}
use tapis_workflows.Run.Completion.{IsRank}
use tapis_workflows.Etl.{job_id, job_task, job_tasks}

pub job_id_inj : (i j : ℕ) → job_id i ≡ job_id j → i ≡ j
unfolding job_id
job_id_inj i j e = decimal_inj i j (append_cancel_left "etl_job_" (decimal i) (decimal j) e)

-- No job from the number `i` on has that id.
abbrev pub IsNotJob : ℕ → String → Type 0
IsNotJob i a = (k : ℕ) → i ≤ k → a ≢ job_id k

pub IsNotJob-suc : (i : ℕ) (a : String) → IsNotJob i a → IsNotJob (suc i) a
IsNotJob-suc i a h k le e = h k (omega arith) e

pub job-IsNotJob : (i : ℕ) → IsNotJob (suc i) (job_id i)
job-IsNotJob i k le e = absurd (omega (arith, job_id_inj i k e))

-- Room for `id` right behind `last`
abbrev bump : (String → ℕ) → String → String → String → ℕ
bump rank last id a =
    if a == id then suc (rank last) else if leb (rank a) (rank last) then rank a else suc (rank a)

bump_mono :
    (rank : String → ℕ) (last id a b : String)
    → a ≢ id
    → b ≢ id
    → rank a < rank b
    → bump rank last id a < bump rank last id b
bump_mono rank last id a b ha hb h = ground arith

bump_above :
    (rank : String → ℕ) (last id a : String)
    → last ≢ id
    → a ≢ id
    → rank last < rank a
    → (bump rank last id last < bump rank last id id) × (bump rank last id id < bump rank last id a)
bump_above rank last id a hl ha h = (ground arith, ground arith)

-- A rank that keeps the order of the tasks outside of the chain, in which each job comes behind the job
-- before it, and all of them before `reduce`
abbrev pub Chained {ℓ} : {A : Type ℓ} → List A → ℕ → String → String → (String → ℕ) → Type 0
Chained jobs i last reduce rank =
    (rank' : String → ℕ) × ((a b : String)
      → IsNotJob i a
      → IsNotJob i b
      → rank a < rank b
      → rank' a < rank' b)
    × IsRank rank' (job_tasks i last jobs)
    × All (λ (t : Task). rank' t.id < rank' reduce) (job_tasks i last jobs)

pub chain :
    {A : Type 0} (jobs : List A) (i : ℕ) (last reduce : String) (rank : String → ℕ)
    → IsNotJob i last
    → IsNotJob i reduce
    → rank last < rank reduce
    → Chained jobs i last reduce rank
unfolding job_tasks job_task
chain [] i last reduce rank hl hr h = (rank, λ a b _ _ e. e, tt, tt)
chain (job ∷ jobs) i last reduce rank hl hr h =
    let id = job_id i in
    let rank1 = bump rank last id in
    let (before, behind) =
      bump_above rank last id reduce (hl i (omega arith)) (hr i (omega arith)) h in
    let (rank', mono, ranked, below) =
      chain jobs (suc i) id reduce rank1 (job-IsNotJob i) (IsNotJob-suc i reduce hr) behind in
    (
      rank',
      λ a b ha hb e.
          mono a b (IsNotJob-suc i a ha) (IsNotJob-suc i b hb)
            (bump_mono rank last id a b (ha i (omega arith)) (hb i (omega arith)) e),
      ((mono last id (IsNotJob-suc i last hl) (job-IsNotJob i) before, tt), ranked),
      (mono id reduce (job-IsNotJob i) (IsNotJob-suc i reduce hr) behind, below),
    )
