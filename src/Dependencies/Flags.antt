-- ===== src/Dependencies/Flags.antt =====
-- The flags `can_fail` that `_set_tasks` computes from the graph, against a direct description.
use tapis_workflows.Base.{
  String, ◌≡◌, inl, inr, refl, Bool, true, false, not, ◌&&◌, ◌||◌, some, List, [], ◌∷◌, ◌++◌, arith,
  ◌==◌, string_eq, find?, all, All, Bool-cases, Option-cases, if◌then◌else◌,
}
use tapis_workflows.Task.{Dependency, Task, task_by_id}
use tapis_workflows.Dependencies.{child_flag, child_flags, can_fail_of}
use tapis_workflows.Dependencies.Dependents.{entries, dependents}

-- Whether there is a dependency on `p`, and whether the first such dependency permits a failure
abbrev pub depends : String → List Dependency → Bool
depends p [] = false
depends p (dep ∷ deps) = dep.id == p || depends p deps

abbrev pub permits : String → List Dependency → Bool
permits p [] = true
permits p (dep ∷ deps) = let rest = permits p deps in if dep.id == p then dep.can_fail else rest

abbrev pub has_dependent : String → List Task → Bool
has_dependent p [] = false
has_dependent p (task ∷ tasks) = depends p task.depends_on || has_dependent p tasks

abbrev pub all_permit : String → List Task → Bool
all_permit p [] = true
all_permit p (task ∷ tasks) = permits p task.depends_on && all_permit p tasks

-- The task `p` has a dependent task, and all of them permit that it fails.
abbrev pub may_fail : String → List Task → Bool
may_fail p tasks = has_dependent p tasks && all_permit p tasks

abbrev pub is_nil {ℓ} : {A : Type ℓ} → List A → Bool
is_nil [] = true
is_nil (x ∷ xs) = false

-- What is found for a task, under its id
abbrev pub Findable : List Task → Task → Type 0
Findable us c = (u : Task) × (task_by_id c.id us ≡ some u) × (u.depends_on ≡ c.depends_on)

first_dep :
    (p : String) (deps : List Dependency)
    → depends p deps ≡ true
    → (dep : Dependency) × (find? (λ d. d.id == p) deps ≡ some dep)
      × (dep.can_fail ≡ permits p deps)
first_dep p [] h = cc
first_dep p (d ∷ deps) h = elim (Bool-cases (d.id == p)) [
  | inl yes_ ↦ (d, rw yes_ refl, rw yes_ refl)
  | inr no_ ↦
      let (dep, found, same) = first_dep p deps (rw no_ at h) in (dep, rw no_ found, rw no_ same)
]

child_flag_lem :
    (us : List Task) (p : String) (c : Task)
    → Findable us c
    → depends p c.depends_on ≡ true
    → child_flag us p c.id ≡ some (permits p c.depends_on)
unfolding child_flag
child_flag_lem us p c (u, found, same) h =
    let (dep, first, flag) = first_dep p c.depends_on h in
    rw (child_flag, found, same, first, flag) refl

child_flags-append :
    (us : List Task) (p : String) (xs ys : List String) (fs gs : List Bool)
    → child_flags us p xs ≡ some fs
    → child_flags us p ys ≡ some gs
    → child_flags us p (xs ++ ys) ≡ some (fs ++ gs)
unfolding child_flags
child_flags-append us p [] ys [] gs e f = f
child_flags-append us p [] ys (b ∷ fs) gs e f = cc
child_flags-append us p (x ∷ xs) ys fs gs e f = elim (Option-cases (child_flag us p x)) [
  | inl n ↦ absurd (ground (arith, n))
  | inr (b, s) ↦ elim (Option-cases (child_flags us p xs)) [
    | inl n ↦ absurd (ground (arith, s, n))
    | inr (fs', r) ↦
        let same : fs ≡ b ∷ fs' = ground (arith, s, r, e) in
        rw (child_flags, s, child_flags-append us p xs ys fs' gs r f, same) refl
  ]
]

all-append : (fs gs : List Bool) → all (fs ++ gs) ≡ (all fs && all gs)
unfolding all
all-append [] gs = refl
all-append (f ∷ fs) gs = ground (arith, all-append fs gs)

is_nil-append {ℓ} : {A : Type ℓ} (xs ys : List A) → is_nil (xs ++ ys) ≡ (is_nil xs && is_nil ys)
is_nil-append [] ys = refl
is_nil-append (x ∷ xs) ys = refl

-- The flags of the entries of one child: none, or as many times the flag of its first dependency
entries_flags :
    (us : List Task) (p a : String) (b : Bool) (deps : List Dependency)
    → (depends p deps ≡ true → child_flag us p a ≡ some b)
    → (flags : List Bool) × (child_flags us p (entries p a deps) ≡ some flags)
      × (all flags ≡ (not (depends p deps) || b))
      × (is_nil flags ≡ not (depends p deps))
unfolding child_flags all
entries_flags us p a b [] h = ([], refl, refl, refl)
entries_flags us p a b (d ∷ deps) h =
    let (flags, e, every, none_) = entries_flags us p a b deps (λ more. h (ground (arith, more))) in
    elim (Bool-cases (d.id == p)) [
      | inl yes_ ↦
          let same : (p == d.id) ≡ true = ground (arith, yes_) in
          let flag = h (rw yes_ refl) in
          (
            b ∷ flags,
            rw (same, child_flags, flag, e) refl,
            ground (arith, every, yes_),
            rw yes_ refl,
          )
      | inr no_ ↦
          let other : (p == d.id) ≡ false = ground (arith, no_) in
          (flags, rw other e, ground (arith, every, no_), ground (arith, none_, no_))
    ]

permits_without :
    (p : String) (deps : List Dependency) → depends p deps ≡ false → permits p deps ≡ true
permits_without p [] h = refl
permits_without p (d ∷ deps) h = ground (arith, permits_without p deps)

pub dependents_flags :
    (us : List Task) (p : String) (ts : List Task)
    → All (Findable us) ts
    → (flags : List Bool) × (child_flags us p (dependents p ts) ≡ some flags)
      × (all flags ≡ all_permit p ts)
      × (is_nil flags ≡ not (has_dependent p ts))
unfolding child_flags all
dependents_flags us p [] h = ([], refl, refl, refl)
dependents_flags us p (t ∷ ts) h =
    let (fs, e, every, none_) =
      entries_flags us p t.id (permits p t.depends_on) t.depends_on (child_flag_lem us p t h.0) in
    let (gs, f, every', none') = dependents_flags us p ts h.1 in
    (
      fs ++ gs,
      child_flags-append us p (entries p t.id t.depends_on) (dependents p ts) fs gs e f,
      ground (arith, all-append fs gs, every, every', permits_without p t.depends_on),
      ground (arith, is_nil-append fs gs, none_, none'),
    )

pub can_fail_of_lem :
    (p : String) (ts : List Task) (flags : List Bool)
    → all flags ≡ all_permit p ts
    → is_nil flags ≡ not (has_dependent p ts)
    → can_fail_of flags ≡ may_fail p ts
unfolding can_fail_of
can_fail_of_lem p ts [] e n = ground (arith, n)
can_fail_of_lem p ts (f ∷ fs) e n = ground (arith, n, e)
