-- ===== src/Dependencies/Totality.antt =====
-- `_set_tasks` as a whole: what it raises, and the flags that it leaves.
use tapis_workflows.Base.{
  String, ◌≡◌, ◌⊎◌, inl, inr, refl, sym, ap, ◌∙◌, subst, Bool, true, false, none, some, List, [],
  ◌∷◌, ok, err, ok-injective, ok_or_err, arith, ◌==◌, contains, contains-append, string_eq, filter,
  All, All-map, In, count_pos_of_contains, Bool-cases, if◌then◌else◌,
}
use tapis_workflows.Base.Dict.{lookup, keys}
use tapis_workflows.Graph.{Graph, has_cycle}
use tapis_workflows.Graph.Bounds.{IsClosed, has_cycle_total}
use tapis_workflows.Task.{Dependency, Task, ids}
use tapis_workflows.Dependencies.{
  Plan, missing_initial_tasks, cycle_detected, dependency_graph, child_flags, can_fail_of,
  set_can_fail, set_flags, is_initial, get_initial_tasks, require_acyclic, set_tasks,
}
use tapis_workflows.Dependencies.Dependents.{AllKnown, entries, dependents, dependency_graph_lem}
use tapis_workflows.Dependencies.Valid.{
  AllValid, SameButFlags, SameButFlags-refl, SameButFlags-ids, set_can_fail-Same, UniqueIds,
  invalid_deps-eq-nil, set_tasks_ok,
}
use tapis_workflows.Dependencies.Flags.{Findable, dependents_flags, can_fail_of_lem, may_fail}
use tapis_workflows.Dependencies.Keys.{
  UniqueKeys, dependency_graph-UniqueKeys, lookup-In, flag_all, flag_all-nil, flag_all-set_can_fail,
}

all_listed : (ts : List Task) → All (λ c. contains (ids ts) c.id ≡ true) ts
all_listed [] = tt
all_listed (t ∷ ts) = (ground arith, All-map ts (λ c h. ground (arith, h)) (all_listed ts))

All-both :
    {A : Type 0} {P Q R : A → Type 0} (xs : List A)
    → ((x : A) → P x → Q x → R x)
    → All P xs
    → All Q xs
    → All R xs
All-both [] f p q = tt
All-both (x ∷ xs) f p q = (f x p.0 q.0, All-both xs f p.1 q.1)

later_Findable :
    (u : Task) (us : List Task) (c : Task)
    → (u.id == c.id) ≡ false
    → Findable us c
    → Findable (u ∷ us) c
later_Findable u us c other (v, found, same) = (v, rw other found, same)

all_Findable : (ts us : List Task) → UniqueIds ts → SameButFlags ts us → All (Findable us) ts
all_Findable [] us u s = tt
all_Findable (t ∷ ts) [] u s = absurd s
all_Findable (t ∷ ts) (v ∷ us) u s =
    let same_id = ap (λ (x : Task). x.id) s.0 in
    (
      (v, ground (arith, same_id), sym (ap (λ (x : Task). x.depends_on) s.0)),
      All-both ts
          (λ c found listed.
            later_Findable v us c
              (ground (arith, same_id, u c.id, count_pos_of_contains c.id (ids ts) listed)) found)
          (all_Findable ts us (λ a. omega (arith, u a)) s.1) (all_listed ts),
    )

-- The loop over an arbitrary graph whose entries have flags
set_flags_lem :
    (tasks : List Task) (f : String → Bool) (g : Graph) (us : List Task)
    → UniqueIds tasks
    → ((us' : List Task)
        → SameButFlags tasks us'
        → (p : String) (cs : List String) → In (p, cs) g
        → (flags : List Bool) × (child_flags us' p cs ≡ some flags) × (can_fail_of flags ≡ f p))
    → SameButFlags tasks us
    → set_flags g us ≡ some (flag_all (keys g) f us)
unfolding set_flags
set_flags_lem tasks f [] us u h s = ap some (sym (flag_all-nil f us))
set_flags_lem tasks f ((p, cs) ∷ g) us u h s =
    let (flags, e, same) = h us s p cs (inl refl) in
    let s' = set_can_fail-Same p (can_fail_of flags) tasks us s in
    rw (set_flags, e, same)
      (set_flags_lem tasks f g (set_can_fail p (f p) us) u (λ us' t q ds i. h us' t q ds (inr i))
          (rw same at s')
        ∙ ap some (flag_all-set_can_fail p (keys g) f us (rw (SameButFlags-ids tasks us s) u)))

entries_listed :
    (p child d : String) (ds : List Dependency) → contains (entries p child ds) d ≡ true → d ≡ child
entries_listed p child d [] h = cc
entries_listed p child d (x ∷ ds) h = ground (arith, entries_listed p child d ds)

dependents_listed :
    (p d : String) (ts : List Task)
    → contains (dependents p ts) d ≡ true
    → contains (ids ts) d ≡ true
dependents_listed p d [] h = h
dependents_listed p d (t ∷ ts) h = ground (
  arith,
  contains-append (entries p t.id t.depends_on) (dependents p ts) d,
  entries_listed p t.id d t.depends_on,
  dependents_listed p d ts,
)

-- What is known of the graph of tasks with unique ids and known dependencies
abbrev Described : List Task → Graph → Type 0
Described ts g =
    (p : String) → lookup p g ≡ (if contains (ids ts) p then some (dependents p ts) else none)

Described-IsClosed : (ts : List Task) (g : Graph) → Described ts g → IsClosed g
Described-IsClosed ts g h = record {
  listed = λ v d ds e m. (dependents d ts, ground (arith, h v, h d, e, dependents_listed v d ts));
}

initial_listed :
    (ts : List Task) (g : Graph) (known : List String)
    → ((p : String) → contains known p ≡ true → (ds : List String) × (lookup p g ≡ some ds))
    → ((p : String) → contains (ids ts) p ≡ true → contains known p ≡ true)
    → All (λ id. (ds : List String) × (lookup id g ≡ some ds)) (ids (filter is_initial ts))
initial_listed [] g known h k = tt
initial_listed (t ∷ ts) g known h k =
    let rest = initial_listed ts g known h (λ p m. k p (ground (arith, m))) in
    elim (Bool-cases (is_initial t)) [
      | inl yes_ ↦ rw yes_ (h t.id (k t.id (ground arith)), rest)
      | inr no_ ↦ rw no_ rest
    ]

filter-flag_all :
    (known : List String) (f : String → Bool) (ts : List Task)
    → (ids (filter is_initial (flag_all known f ts)) ≡ ids (filter is_initial ts))
filter-flag_all known f [] = refl
filter-flag_all known f (t ∷ ts) = ground (arith, filter-flag_all known f ts)

keys_looked_up :
    (g : Graph) (p : String)
    → contains (keys g) p ≡ (elim (lookup p g) [ none ↦ false | some cs ↦ true ])
keys_looked_up [] p = refl
keys_looked_up ((k, v) ∷ g) p = ground (arith, keys_looked_up g p)

graph_keys_known :
    (ts : List Task) (g : Graph)
    → Described ts g
    → (p : String) → contains (keys g) p ≡ contains (ids ts) p
graph_keys_known ts g h p = keys_looked_up g p ∙ ground (arith, h p)

flag_all_known :
    (known known' : List String) (f : String → Bool) (us : List Task)
    → ((p : String) → contains known p ≡ contains known' p)
    → flag_all known f us ≡ flag_all known' f us
flag_all_known known known' f [] h = refl
flag_all_known known known' f (u ∷ us) h =
    ground (arith, h u.id, flag_all_known known known' f us h)

entry_flags :
    (ts : List Task) (g : Graph)
    → UniqueIds ts
    → UniqueKeys g
    → Described ts g
    → (us : List Task) → SameButFlags ts us
    → (p : String) (cs : List String) → In (p, cs) g
    → (flags : List Bool) × (child_flags us p cs ≡ some flags) × (can_fail_of flags ≡ may_fail p ts)
entry_flags ts g u k h us s p cs i =
    let found = lookup-In p cs g k i in
    let same : cs ≡ dependents p ts = ground (arith, h p, found) in
    let (flags, e, every, none_) = dependents_flags us p ts (all_Findable ts us u s) in
    (flags, rw same e, can_fail_of_lem p ts flags every none_)

-- The tasks with their flags
abbrev pub flagged : List Task → List Task
flagged ts = flag_all (ids ts) (λ p. may_fail p ts) ts

flags_set :
    (ts : List Task) (g : Graph)
    → UniqueIds ts
    → dependency_graph ts ≡ some g
    → Described ts g
    → set_flags g ts ≡ some (flagged ts)
flags_set ts g u built h =
    set_flags_lem ts (λ p. may_fail p ts) g ts u
      (entry_flags ts g u (dependency_graph-UniqueKeys ts g built) h) (SameButFlags-refl ts)
    ∙ ap some (flag_all_known (keys g) (ids ts) (λ p. may_fail p ts) ts (graph_keys_known ts g h))

known_of_valid :
    (known : List String) (ts : List Task)
    → AllValid known ts
    → All (λ t. AllKnown known t.depends_on) ts
known_of_valid known ts v = All-map ts (λ t h. All-map t.depends_on (λ d valid. valid.1) h) v

acyclic_answer :
    (g : Graph) (ts : List Task) (found : Bool) (seen : List String)
    → has_cycle g (ids ts) ≡ ok (found, seen)
    → require_acyclic g ts ≡ (if found then err cycle_detected else ok tt)
acyclic_answer g ts found seen e = rw (require_acyclic, e) refl

List-cases : {A : Type 0} (xs : List A) → (xs ≡ []) ⊎ ((x : A) × (ys : List A) × (xs ≡ x ∷ ys))
List-cases [] = inl refl
List-cases (x ∷ xs) = inr (x, xs, refl)

no_ids : (ts : List Task) → ids ts ≡ [] → ts ≡ []
no_ids [] e = refl
no_ids (t ∷ ts) e = cc

-- What `_set_tasks` does for tasks with unique ids whose dependencies are all on other tasks of the
-- pipeline: no internal fault is raised. It raises exactly where there is no task without dependencies
-- or `has_cycle` answers `True`; otherwise it returns, and a task may fail exactly if it has a
-- dependent and the first dependency on it of each dependent permits that.
pub set_tasks_total :
    (tasks : List Task)
    → UniqueIds tasks
    → AllValid (ids tasks) tasks
    → (g : Graph) × (dependency_graph tasks ≡ some g)
      × (((filter is_initial tasks ≡ []) × (set_tasks tasks ≡ err missing_initial_tasks))
          ⊎ ((seen : List String) × (has_cycle g (ids (filter is_initial tasks)) ≡ ok (true, seen))
              × (set_tasks tasks ≡ err cycle_detected))
          ⊎ ((seen : List String) × (has_cycle g (ids (filter is_initial tasks)) ≡ ok (false, seen))
              × (set_tasks tasks
                  ≡ ok (record { tasks = flagged tasks; graph = g; queue = flagged tasks }))))
unfolding set_tasks get_initial_tasks
set_tasks_total tasks u v =
    let (g, built, h) = dependency_graph_lem tasks (known_of_valid (ids tasks) tasks v) in
    let flags = flags_set tasks g u built h in
    let valid = (invalid_deps-eq-nil (ids tasks) tasks).1 v in
    let same_ids = filter-flag_all (ids tasks) (λ p. may_fail p tasks) tasks in
    let (found, seen, answer) =
      has_cycle_total g (ids (filter is_initial tasks)) (Described-IsClosed tasks g h) (
        initial_listed tasks g (ids tasks) (λ p m. (dependents p tasks, h p ∙ rw m refl))
          (λ p m. m)) in
    let answer' = ap (λ l. has_cycle g l) same_ids ∙ answer in
    (
      g,
      built,
      elim (List-cases (filter is_initial (flagged tasks))) [
        | inl e ↦ inl (
          no_ids (filter is_initial tasks) (sym same_ids ∙ ap ids e),
          rw (set_tasks, valid, built, flags, get_initial_tasks, e) refl,
        )
        | inr (t, ts, e) ↦
            let started : get_initial_tasks (flagged tasks) ≡ ok (t ∷ ts) =
              rw (get_initial_tasks, e) refl in
            let asked =
              acyclic_answer g (t ∷ ts) found seen
                (ap (λ l. has_cycle g (ids l)) (sym e) ∙ answer') in
            elim (Bool-cases found) [
              | inl yes_ ↦ inr (
                  inl (
                    seen,
                    rw yes_ at answer,
                    rw (set_tasks, valid, built, flags, started, asked, yes_) refl,
                  ))
              | inr no_ ↦ inr (
                  inr (
                    seen,
                    rw no_ at answer,
                    rw (set_tasks, valid, built, flags, started, asked, no_) refl,
                  ))
            ]
      ],
    )

flagged_lem :
    (f : String → Bool) (known : List String) (ts : List Task)
    → ((p : String) → contains (ids ts) p ≡ true → contains known p ≡ true)
    → All (λ t. t.can_fail ≡ f t.id) (flag_all known f ts)
flagged_lem f known [] h = tt
flagged_lem f known (t ∷ ts) h =
    (ground (arith, h t.id), flagged_lem f known ts (λ p m. h p (ground (arith, m))))

-- In every pipeline with unique ids that `_set_tasks` accepts, a task may fail exactly if it has a
-- dependent, and the first dependency on it of each dependent permits that it fails.
pub set_tasks_flags :
    (tasks : List Task) (plan : Plan)
    → UniqueIds tasks
    → set_tasks tasks ≡ ok plan
    → All (λ t. t.can_fail ≡ may_fail t.id tasks) plan.tasks
set_tasks_flags tasks plan u e =
    let valid = (set_tasks_ok tasks plan e).0 in
    let (g, built, outcome) = set_tasks_total tasks u valid in
    elim outcome [
      | inl (_, x) ↦ ok_or_err x e
      | inr (inl (_, _, x)) ↦ ok_or_err x e
      | inr (inr (_, _, x)) ↦
          let same = ap (λ (q : Plan). q.tasks) (ok-injective (sym x ∙ e)) in
          subst (λ ts. All (λ (t : Task). t.can_fail ≡ may_fail t.id tasks) ts) same
            (flagged_lem (λ p. may_fail p tasks) (ids tasks) tasks (λ p m. m))
    ]
