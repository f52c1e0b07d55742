-- ===== src/Events/Delivery.antt =====
-- What one event does to an exchange whose handled events do not stand in its way.
use tapis_workflows.Base.{
  ℕ, String, ◌≡◌, refl, false, ◌||◌, List, [], ◌∷◌, ◌++◌, arith, contains, string_eq, nat_eq,
  Bool-cases, inl, inr, if◌then◌else◌, count, count_pos_of_contains, ◌≤◌,
}
use mathlib.Core.List.{append-nil, append_assoc}
use tapis_workflows.Base.Dict.{Dict, keys}
use tapis_workflows.Events.{Delivery, Exchange, reset, is_handled, notify, publish}

-- The subscribers that list the event, in the order of their subscription
abbrev pub listening : String → Dict ℕ (List String) → List Delivery
listening e [] = []
listening e ((key, events) ∷ subs) =
    let rest = listening e subs in if contains events e then (key, e) ∷ rest else rest

-- Every subscriber with the event
abbrev pub each_with : String → Dict ℕ (List String) → List Delivery
each_with e [] = []
each_with e ((key, events) ∷ subs) = (key, e) ∷ each_with e subs

is_handled-append :
    (k : ℕ) (e : String) (ds es : List Delivery)
    → is_handled k e (ds ++ es) ≡ (is_handled k e ds || is_handled k e es)
unfolding is_handled
is_handled-append k e [] es = refl
is_handled-append k e ((j, f) ∷ ds) es = ground (arith, is_handled-append k e ds es)

-- None of the subscribers was handed the event.
abbrev pub Fresh : String → Dict ℕ (List String) → List Delivery → Type 0
Fresh e [] handled = Unit
Fresh e ((k, events) ∷ subs) handled = (is_handled k e handled ≡ false) × Fresh e subs handled

Fresh-append :
    (e : String) (j : ℕ) (subs : Dict ℕ (List String)) (handled : List Delivery)
    → contains (keys subs) j ≡ false
    → Fresh e subs handled
    → Fresh e subs (handled ++ ((j, e) ∷ []))
unfolding is_handled
Fresh-append e j [] handled h fresh = tt
Fresh-append e j ((k, events) ∷ subs) handled h fresh = (
  ground (arith, is_handled-append k e handled ((j, e) ∷ []), fresh.0),
  Fresh-append e j subs handled (ground arith) fresh.1,
)

notify-Fresh :
    (allow : List String) (e : String) (subs : Dict ℕ (List String)) (handled : List Delivery)
    → ((k : ℕ) → count k (keys subs) ≤ 1)
    → Fresh e subs handled
    → notify allow e subs handled ≡ record {
      handled = handled ++ each_with e subs;
      delivered = listening e subs;
      stopped = false;
    }
unfolding notify
notify-Fresh allow e [] handled u fresh = rw append-nil refl
notify-Fresh allow e ((k, events) ∷ subs) handled u fresh =
    let absent : contains (keys subs) k ≡ false = elim (Bool-cases (contains (keys subs) k)) [
      | inr no_ ↦ no_
      | inl yes_ ↦ absurd (ground (arith, u k, count_pos_of_contains k (keys subs) yes_))
    ] in
    let ih =
      notify-Fresh allow e subs (handled ++ ((k, e) ∷ [])) (λ j. omega (arith, u j))
        (Fresh-append e k subs handled absent fresh.1) in
    ground (arith, ih, fresh.0, append_assoc handled ((k, e) ∷ []) (each_with e subs))

-- An event that none of the subscribers was handed yet reaches exactly those that list it, in the order
-- of their subscription, whether it is in the list `allow_once` or not. Afterwards it counts as handled
-- for every subscriber; if it is in the list `reset_on`, no subscriber and no handled event is left.
pub publish-Fresh :
    (e : String) (x : Exchange)
    → ((k : ℕ) → count k (keys x.subscribers) ≤ 1)
    → Fresh e x.subscribers x.handled_events
    → publish e [] x ≡ (
      if contains x.reset_on e
          then record x { subscribers = []; handled_events = [] }
          else record x { handled_events = x.handled_events ++ each_with e x.subscribers },
      listening e x.subscribers,
    )
unfolding publish reset
publish-Fresh e x u fresh =
    rw (publish, notify-Fresh x.allow_once e x.subscribers x.handled_events u fresh) refl
