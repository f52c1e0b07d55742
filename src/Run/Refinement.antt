-- ===== src/Run/Refinement.antt =====
-- The executor against a specification that knows only where each task is.
use tapis_workflows.Base.{
  contains, ℕ, ◌+◌, ◌≤◌, ◌<◌, String, ◌≡◌, ◌≢◌, ◌⊎◌, refl, sym, ap, ◌∙◌, subst, true, false, not,
  List, [], ◌∷◌, ◌++◌, ok, ok-injective, arith, ◌==◌, nat_eq, string_eq, All, All-map, count,
  count-append, count_pos_of_contains, contains_of_count_pos, inl, inr, if◌then◌else◌,
}
use tapis_workflows.Task.{Dependency, Task, ids}
use tapis_workflows.Dependencies.{Plan, set_tasks}
use tapis_workflows.Dependencies.Valid.{UniqueIds}
use tapis_workflows.Run.{Run, Step, finishes, crashes, Reach}
use tapis_workflows.Run.Ready.{deps_finished, is_ready, is_waiting, count-ids-append}
use tapis_workflows.Run.Invariant.{Inv, published, is_failed}
use tapis_workflows.Run.Steps.{Told, finish-Inv, Reach-Inv}
use tapis_workflows.Run.Progress.{set_tasks-IsPlan}
use tapis_workflows.Run.Completion.{found}

-- Where a task can be. `lost` is a task whose thread an exception ended.
pub data Place : Type 0 where
  absent waiting working done lost : Place

-- The abstract state: a place for each id.
abbrev pub Board : Type 0
Board = String → Place

-- The place, of how often an id is queued, running, crashed and finished
abbrev place_of : ℕ → ℕ → ℕ → ℕ → Place
place_of queued running crashed finished =
    if not (queued == 0)
    then waiting
    else if not (running == 0)
    then working
    else if not (crashed == 0)
    then lost
    else if not (finished == 0)
    then done
    else absent

-- The board that a state of the executor stands for: the lists, their order and the events are forgotten.
abbrev pub board : Run → Board
board s a =
    place_of (count a (ids s.queue)) (count a (ids s.running)) (count a s.crashed)
      (count a s.finished)

-- What happens to the other tasks: they stay, or are started.
abbrev Others : String → Board → Board → Type 0
Others a b b' = (c : String) → c ≢ a → (b' c ≡ b c) ⊎ ((b c ≡ waiting) × (b' c ≡ working))

-- The tasks that were started had to wait for nothing any more.
abbrev InOrder : List Task → Board → Board → Type 0
InOrder tasks b b' =
    All (λ t. b t.id ≡ waiting → b' t.id ≡ working → All (λ dep. b' dep.id ≡ done) t.depends_on)
      tasks

-- A step of the specification: one task ends, and any waiting tasks whose dependencies are all done
-- start; or one task is lost, and nothing starts.
pub data Move (tasks : List Task) (b b' : Board) : Type 0 where
  ends :
      (a : String)
      → b a ≡ working
      → b' a ≡ done
      → Others a b b'
      → InOrder tasks b b'
      → Move tasks b b'
  loses :
      (a : String)
      → b a ≡ working
      → b' a ≡ lost
      → ((c : String) → c ≢ a → b' c ≡ b c)
      → Move tasks b b'

deps_done :
    {u : Run}
    → Inv u
    → (deps : List Dependency) → deps_finished u.finished deps ≡ true
    → All (λ dep. board u dep.id ≡ done) deps
deps_done {u} inv [] h = tt
deps_done {u} inv (d ∷ deps) h = (
  ground (
    arith,
    inv.parted d.id,
    inv.distinct d.id,
    count_pos_of_contains d.id u.finished (ground arith),
  ),
  deps_done inv deps (ground arith),
)

abbrev SameDeps : Task → Task → Type 0
SameDeps t x = x.id ≡ t.id → x.depends_on ≡ t.depends_on

alone : (t : Task) (ts : List Task) → count t.id (ids ts) ≡ 0 → All (λ x. x.id ≢ t.id) ts
alone t [] h = tt
alone t (x ∷ ts) h = (λ e. ground (arith, sym e), alone t ts (ground arith))

both : (P Q : Task → Type 0) (ts : List Task) → All P ts → All Q ts → All (λ t. P t × Q t) ts
both P Q [] p q = tt
both P Q (t ∷ ts) p q = ((p.0, q.0), both P Q ts p.1 q.1)

-- With unique ids, the id of a task determines its dependencies.
unique_deps :
    (ts : List Task) → ((a : String) → count a (ids ts) ≤ 1) → All (λ t. All (SameDeps t) ts) ts
unique_deps [] h = tt
unique_deps (t ∷ ts) h =
    let others = alone t ts (ground (arith, h t.id)) in
    (
      (λ _. refl, All-map ts (λ x n e. absurd (n e)) others),
      All-map ts (λ x both_hold. (λ e. absurd (both_hold.0 (sym e)), both_hold.1))
          (both (λ x. x.id ≢ t.id) (λ x. All (SameDeps x) ts) ts others
            (unique_deps ts (λ a. omega (arith, h a)))),
    )

queued_of_waiting : (u : Run) (a : String) → board u a ≡ waiting → 0 < count a (ids u.queue)
queued_of_waiting u a h = ground arith

finished_of_done : (u : Run) (a : String) → board u a ≡ done → 0 < count a u.finished
finished_of_done u a h = ground arith

runs_of_working : (u : Run) (a : String) → board u a ≡ working → 0 < count a (ids u.running)
runs_of_working u a h = ground arith

-- Whatever runs in a state may run.
in_order : {u : Run} (b : Board) → Inv u → InOrder u.tasks b (board u)
in_order {u} b inv =
    All-map u.tasks
      (λ t same _ runs.
        let (x, e, deps, ready, _) =
          found (SameDeps t) (λ x. is_ready u x ≡ true) (λ x. is_ready u x ≡ true) t.id u.running
            (runs_of_working u t.id runs) (inv.launched (SameDeps t) same) inv.waited inv.waited in
        subst (λ ds. All (λ dep. board u dep.id ≡ done) ds) (deps e)
          (deps_done inv x.depends_on ready))
      (unique_deps u.tasks inv.distinct)

stays_or_starts :
    (q r k f q' r' k' f' : ℕ)
    → q + r + k + f ≤ 1
    → q' + r' + k' + f' ≡ q + r + k + f
    → k' ≡ k
    → f' ≡ f
    → q' ≤ q
    → (place_of q' r' k' f' ≡ place_of q r k f)
      ⊎ ((place_of q r k f ≡ waiting) × (place_of q' r' k' f' ≡ working))
stays_or_starts q r k f q' r' k' f' one same crashed finished less = elim (nat_eq.dec q q') [
  | yes e ↦ inl (let e' : r' ≡ r = omega (arith, e) in cc)
  | no n ↦ inr (ground arith, ground arith)
]

-- The end of a thread: its task is done, and the others stay or start.
end_moves :
    {s u : Run} (before : List Task) (t : Task) (after : List Task)
    → Inv s
    → Inv u
    → s.running ≡ before ++ (t ∷ after)
    → u.tasks ≡ s.tasks
    → u.finished ≡ s.finished ++ (t.id ∷ [])
    → u.crashed ≡ s.crashed
    → ((a : String) → count a (ids u.queue) ≤ count a (ids s.queue))
    → Move u.tasks (board s) (board u)
end_moves {s} {u} before t after inv inv' split tasks finished crashed shrinks =
    let total : (a : String) → count a (ids u.tasks) ≡ count a (ids s.tasks) =
      λ a. ap (λ (l : List Task). count a (ids l)) tasks in
    let runs : (a : String)
        → count a (ids s.running) ≡ count a (ids before) + count a (ids (t ∷ after)) =
      λ a. ap (λ l. count a (ids l)) split ∙ count-ids-append a before (t ∷ after) in
    let more : (a : String) → count a u.finished ≡ count a s.finished + count a (t.id ∷ []) =
      λ a. ap (λ l. count a l) finished ∙ count-append a s.finished (t.id ∷ []) in
    let lost_ones : (a : String) → count a u.crashed ≡ count a s.crashed =
      λ a. ap (λ l. count a l) crashed in
    ends t.id (ground (arith, inv.parted t.id, inv.distinct t.id, runs t.id))
      (ground (arith, inv'.parted t.id, inv'.distinct t.id, more t.id))
      (λ c n.
        stays_or_starts _ _ _ _ _ _ _ _ (omega (arith, inv.parted c, inv.distinct c))
          (inv'.parted c ∙ total c ∙ sym (inv.parted c)) (lost_ones c) (ground (arith, more c))
          (shrinks c))
      (in_order (board s) inv')

crash_moves :
    {s : Run} (before : List Task) (t : Task) (after : List Task)
    → Inv s
    → s.running ≡ before ++ (t ∷ after)
    → Move s.tasks
        (board s)
        (board (record s { running = before ++ after; crashed = t.id ∷ s.crashed }))
crash_moves {s} before t after inv split =
    let runs : (a : String)
        → count a (ids s.running) ≡ count a (ids before) + count a (ids (t ∷ after)) =
      λ a. ap (λ l. count a (ids l)) split ∙ count-ids-append a before (t ∷ after) in
    loses t.id (ground (arith, inv.parted t.id, inv.distinct t.id, runs t.id))
      (ground
        (arith, inv.parted t.id, inv.distinct t.id, runs t.id, count-ids-append t.id before after))
      (λ c n. ground (arith, runs c, count-ids-append c before after))

executor_moves : {s u : Run} → Inv s → Told s → Step s u → Move s.tasks (board s) (board u)
executor_moves {s} {u} inv told (crashes before t after split e) =
    rw e (crash_moves before t after inv split)
executor_moves {s} {u} inv told (finishes before t after status split e) =
    let (v, found, inv', _, tasks, finished, crashed, shrinks, _) =
      finish-Inv before t after status inv told split in
    subst (λ w. Move s.tasks (board s) (board w)) (ok-injective (sym found ∙ e))
      (subst (λ ts. Move ts (board s) (board v)) tasks
        (end_moves before t after inv inv' split tasks finished crashed shrinks))

done_deps :
    (u : Run) (deps : List Dependency)
    → All (λ dep. board u dep.id ≡ done) deps
    → deps_finished u.finished deps ≡ true
done_deps u [] h = refl
done_deps u (d ∷ deps) h =
    let there : contains u.finished d.id ≡ true =
      contains_of_count_pos d.id u.finished (finished_of_done u d.id h.0) in
    ground (arith, there, done_deps u deps h.1)

-- Nothing waits that could start, unless the failure of the pipeline was published.
no_idle_task :
    {u : Run}
    → Inv u
    → Told u
    → published is_failed u.events ≡ false
    → All
        (λ t. board u t.id ≡ waiting → All (λ dep. board u dep.id ≡ done) t.depends_on → ⊥)
        u.tasks
no_idle_task {u} inv told quiet =
    All-map u.tasks
      (λ t same waits over.
        let (x, e, deps, waiting_still, _) =
          found (SameDeps t) (λ x. is_waiting u x ≡ true) (λ x. is_waiting u x ≡ true) t.id u.queue
            (queued_of_waiting u t.id waits) (inv.drawn (SameDeps t) same) (told.waiting quiet)
            (told.waiting quiet) in
        let ready : deps_finished u.finished x.depends_on ≡ true =
          done_deps u x.depends_on
            (subst (λ ds. All (λ dep. board u dep.id ≡ done) ds) (sym (deps e)) over) in
        ground arith)
      (unique_deps u.tasks inv.distinct)

-- Every step of the executor, from a state that a run of an accepted pipeline with unique ids can
-- reach, is a step of the specification; and in the state that it comes from, no waiting task has
-- dependencies that are all done, unless the failure of the pipeline was published.
pub run_refines :
    (tasks : List Task) (plan : Plan) {n : ℕ} {s u : Run}
    → UniqueIds tasks
    → set_tasks tasks ≡ ok plan
    → Reach plan n s
    → Step s u
    → Move plan.tasks (board s) (board u)
      × (published is_failed s.events ≡ false
          → All
              (λ t. board s t.id ≡ waiting → All (λ dep. board s dep.id ≡ done) t.depends_on → ⊥)
              plan.tasks)
run_refines tasks plan unique e r step =
    let (inv, told, kept, _) = Reach-Inv plan (set_tasks-IsPlan tasks plan unique e) r in
    (
      rw (sym kept) (executor_moves inv told step),
      λ quiet. rw (sym kept) (no_idle_task inv told quiet),
    )
