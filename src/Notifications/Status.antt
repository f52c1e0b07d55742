-- ===== src/Notifications/Status.antt =====
-- What the API is told: the end of an output, and the status of the run.
use tapis_workflows.Base.{
  ℕ, zero, suc, ◌-◌, ◌≤◌, String, Bool, true, false, ◌||◌, ◌≡◌, refl, sym, ap, ◌∙◌, Option, some,
  List, [], ◌∷◌, ◌++◌, Result, ok, err, ◌>>=◌, arith, ◌==◌, string_eq, nat_eq, length,
  if◌then◌else◌,
}
use tapis_workflows.Task.{Task}
use tapis_workflows.Dependencies.{Plan, set_tasks}
use tapis_workflows.Dependencies.Valid.{UniqueIds}
use tapis_workflows.Run.{
  Run, RunEvent, pipeline_active, pipeline_completed, pipeline_failed, task_completed, task_skipped,
  task_failed, Reach,
}
use tapis_workflows.Run.Invariant.{published, is_completed, is_failed}
use tapis_workflows.Run.Steps.{Reach-Inv}
use tapis_workflows.Run.Progress.{set_tasks-IsPlan}
use tapis_workflows.Notifications.{
  EventType, TaskInfo, Event, Call, update_run_status, update_execution_status, run_status,
  HandlerError, bytes_of, drop, tail_offset, tail_bytes, handle_type, create_each,
}

front_of : {A : Type 0} → ℕ → List A → List A
front_of zero xs = []
front_of (suc n) [] = []
front_of (suc n) (x ∷ xs) = x ∷ front_of n xs

drop_front : {A : Type 0} (n : ℕ) (xs : List A) → xs ≡ front_of n xs ++ drop n xs
unfolding front_of
drop_front zero xs = refl
drop_front (suc n) [] = refl
drop_front (suc n) (x ∷ xs) = ap (λ l. x ∷ l) (drop_front n xs)

length-drop : {A : Type 0} (n : ℕ) (xs : List A) → length (drop n xs) ≡ length xs - n
length-drop zero xs = omega arith
length-drop (suc n) [] = omega arith
length-drop (suc n) (x ∷ xs) = length-drop n xs ∙ omega arith

tail_offset_lem :
    (max_bytes filesize : ℕ)
    → (tail_offset max_bytes filesize ≤ max_bytes)
      × (filesize ≤ max_bytes → tail_offset max_bytes filesize ≡ filesize)
      × (max_bytes ≤ filesize → tail_offset max_bytes filesize ≡ max_bytes)
unfolding tail_offset
tail_offset_lem max_bytes filesize = (ground arith, λ h. ground arith, λ h. ground arith)

-- The end of a file that is sent is a suffix of it: the last bytes up to the limit, and all of a file
-- that is not longer.
pub tail_bytes_lem :
    (max_bytes : ℕ) (bytes : List ℕ)
    → ((front : List ℕ) × (bytes ≡ front ++ tail_bytes max_bytes bytes))
      × (length (tail_bytes max_bytes bytes) ≤ max_bytes)
      × (length bytes ≤ max_bytes → tail_bytes max_bytes bytes ≡ bytes)
      × (max_bytes ≤ length bytes → length (tail_bytes max_bytes bytes) ≡ max_bytes)
unfolding tail_bytes
tail_bytes_lem max_bytes bytes =
    let size = length-drop (length bytes - tail_offset max_bytes (length bytes)) bytes in
    let (below, small, large) = tail_offset_lem max_bytes (length bytes) in
    (
      (
        front_of (length bytes - tail_offset max_bytes (length bytes)) bytes,
        drop_front (length bytes - tail_offset max_bytes (length bytes)) bytes,
      ),
      omega (arith, size, below),
      λ h.
          let none_dropped : length bytes - tail_offset max_bytes (length bytes) ≡ 0 =
            omega (arith, small h) in
          ap (λ n. drop n bytes) none_dropped,
      λ h. omega (arith, size, large h, h),
    )

-- The types of `reset_on` of the executor's exchange: a published event is handled, and then one of these
-- drops the subscribers. The run publishes no `PIPELINE_TERMINATED`.
abbrev pub resets : RunEvent → Bool
resets pipeline_completed = true
resets pipeline_failed = true
resets _ = false

-- The events that still reach the handler
unfoldable pub delivered : List RunEvent → List RunEvent
delivered [] = []
delivered (e ∷ es) = let rest = delivered es in if resets e then e ∷ [] else e ∷ rest

-- The calls that come of the events of a run: `run_event` says what an event of the run carries.
module _ (files : String → Option (List ℕ)) (decode repr : List ℕ → String)
    (about : RunEvent → Event) where
  abbrev event_type : RunEvent → EventType
  event_type pipeline_active = EventType.pipeline_active
  event_type pipeline_completed = EventType.pipeline_completed
  event_type pipeline_failed = EventType.pipeline_failed
  event_type (task_completed id) = EventType.task_completed
  event_type (task_skipped id) = EventType.task_skipped
  event_type (task_failed id) = EventType.task_failed

  -- A call that gives the run the status
  abbrev pub is_update : String → Call → Bool
  is_update status (update_run_status run s logs) = s == status
  is_update status _ = false

  abbrev pub tells : String → List Call → Bool
  tells status [] = false
  tells status (call ∷ calls) = is_update status call || tells status calls

  abbrev calls_or_none : Result HandlerError (List Call) → List Call
  calls_or_none (err e) = []
  calls_or_none (ok calls) = calls

  abbrev pub calls_of : RunEvent → List Call
  calls_of e = calls_or_none (handle_type files decode repr (event_type e) (about e))

  -- The calls of the events that reach the handler, in order
  abbrev pub calls_of_all : List RunEvent → List Call
  calls_of_all [] = []
  calls_of_all (e ∷ es) = calls_of e ++ calls_of_all es

  tells-append :
      (status : String) (xs ys : List Call)
      → tells status (xs ++ ys) ≡ (tells status xs || tells status ys)
  tells-append status [] ys = refl
  tells-append status (x ∷ xs) ys = ground (arith, tells-append status xs ys)

  creates_tell_nothing :
      (status : String) (event : Event) (tasks : List TaskInfo)
      → tells status (create_each files decode repr (record event { tasks = tasks })) ≡ false
  creates_tell_nothing status event [] = refl
  creates_tell_nothing status event (t ∷ tasks) = creates_tell_nothing status event tasks

  -- The log of the run is there.
  abbrev pub HasLog : Type 0
  HasLog = (e : RunEvent) → (bytes : List ℕ) × (files (about e).log_file ≡ some bytes)

  run_status-ok :
      (event : Event) (status : String) (bytes : List ℕ)
      → files event.log_file ≡ some bytes
      → run_status files decode repr event status
        ≡ ok (update_run_status event.run_uuid status (decode bytes) ∷ [])
  run_status-ok event status bytes h =
      ap
        (λ (o : Option (List ℕ)). (bytes_of event.log_file o >>= λ log. ok (decode log)) >>= λ logs.
          ok (update_run_status event.run_uuid status logs ∷ []))
        h

  ends_tell_nothing :
      (event : Event) (status message : String) (stdout stderr : Result HandlerError String)
      → tells "completed" (
          calls_or_none (
            stdout >>= λ out. stderr >>= λ errors. ok (
              update_execution_status event.run_uuid event.task.execution_uuid status message
                (some (out, errors))
              ∷ [])))
        ≡ false
  ends_tell_nothing event status message (err e) stderr = refl
  ends_tell_nothing event status message (ok out) (err e) = refl
  ends_tell_nothing event status message (ok out) (ok errors) = refl

  tells_completed : HasLog → (e : RunEvent) → tells "completed" (calls_of e) ≡ is_completed e
  unfolding handle_type string_eq
  tells_completed log pipeline_active =
      let event = about pipeline_active in
      ap
        (λ r.
          tells "completed"
            (calls_or_none (r >>= λ calls. ok (calls ++ create_each files decode repr event))))
        (run_status-ok event "active" (log pipeline_active).0 (log pipeline_active).1)
      ∙ creates_tell_nothing "completed" event event.tasks
  tells_completed log pipeline_completed =
      ap (λ r. tells "completed" (calls_or_none r))
        (run_status-ok (about pipeline_completed) "completed" (log pipeline_completed).0
          (log pipeline_completed).1)
  tells_completed log pipeline_failed =
      ap (λ r. tells "completed" (calls_or_none r))
        (run_status-ok (about pipeline_failed) "failed" (log pipeline_failed).0
          (log pipeline_failed).1)
  tells_completed log (task_completed id) = ends_tell_nothing (about (task_completed id)) _ _ _ _
  tells_completed log (task_skipped id) = refl
  tells_completed log (task_failed id) = ends_tell_nothing (about (task_failed id)) _ _ _ _

  tells-published :
      HasLog
      → (es : List RunEvent) → tells "completed" (calls_of_all es) ≡ published is_completed es
  tells-published log [] = refl
  tells-published log (e ∷ es) =
      tells-append "completed" (calls_of e) (calls_of_all es)
      ∙ ground (arith, tells_completed log e, tells-published log es)

  delivered_completed :
      (es : List RunEvent)
      → published is_completed (delivered es) ≡ true
      → published is_completed es ≡ true
  unfolding delivered
  delivered_completed [] h = h
  delivered_completed (e ∷ es) h = ground (arith, delivered_completed es)

  all_delivered :
      (es : List RunEvent)
      → published is_failed es ≡ false
      → published is_completed es ≡ true
      → published is_completed (delivered es) ≡ true
  unfolding delivered
  all_delivered [] f h = h
  all_delivered (pipeline_completed ∷ es) f h = refl
  all_delivered (pipeline_failed ∷ es) f h = cc
  all_delivered (pipeline_active ∷ es) f h = all_delivered es f h
  all_delivered (task_completed id ∷ es) f h = all_delivered es f h
  all_delivered (task_skipped id ∷ es) f h = all_delivered es f h
  all_delivered (task_failed id ∷ es) f h = all_delivered es f h

  -- In a pipeline that `_set_tasks` accepts, with unique ids, and with a log that can be read: if in a
  -- reachable state the handler has told the API that the run is completed, then all tasks have finished;
  -- and if all tasks have finished and no failure of the pipeline was published, then the API was told.
  -- The handler gets the events up to the first that resets the exchange.
  pub completed_told :
      (tasks : List Task) (plan : Plan) {n : ℕ} {s : Run}
      → HasLog
      → UniqueIds tasks
      → set_tasks tasks ≡ ok plan
      → Reach plan n s
      → (tells "completed" (calls_of_all (delivered s.events)) ≡ true
          → length s.finished ≡ length s.tasks)
        × (length s.finished ≡ length s.tasks
            → published is_failed s.events ≡ false
            → tells "completed" (calls_of_all (delivered s.events)) ≡ true)
  completed_told tasks plan {s = s} log unique e r =
      let (_, told, _, _) = Reach-Inv plan (set_tasks-IsPlan tasks plan unique e) r in
      let same = tells-published log (delivered s.events) in
      (
        λ h. told.completed.0 (delivered_completed s.events (sym same ∙ h)),
        λ h unfailed. same ∙ all_delivered s.events unfailed (told.completed.1 h),
      )
