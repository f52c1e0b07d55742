-- ===== src/Events.antt =====
-- owe_python_sdk/events/EventExchange.py, with its ExchangeConfig. A subscriber is known by its key,
-- `id(subscriber)`, and an event by its type. A handler's exception is logged and goes no further, so
-- that what a call hands to the handlers is a list of pairs.
pub mod Once
pub mod Delivery
use tapis_workflows.Base.{
  ℕ, String, Bool, true, false, not, ◌&&◌, ◌||◌, Option, none, some, List, [], ◌∷◌, ◌++◌, ◌==◌,
  contains, string_eq, nat_eq, if◌then◌else◌,
}
use tapis_workflows.Base.Dict.{Dict, insert}

-- A handler's key with the event that it is given
abbrev pub Delivery : Type 0
Delivery = ℕ × String

pub record Exchange : Type 0 where
  pub allow_once : List String
  pub reset_on : List String
  pub subscribers : Dict ℕ (List String)
  pub handled_events : List Delivery

-- `_set_initial_state`, which `reset` calls
unfoldable pub reset : Exchange → Exchange
reset x = record x { subscribers = []; handled_events = [] }

-- `add_subscribers` and `_add_subscriber`
unfoldable pub add_subscriber : ℕ → List String → Exchange → Exchange
add_subscriber key events x = record x { subscribers = insert key events x.subscribers }

-- `{key: e.type} in self.handled_events`
unfoldable pub is_handled : ℕ → String → List Delivery → Bool
is_handled key e [] = false
is_handled key e ((k, f) ∷ handled) = (key == k && e == f) || is_handled key e handled

-- What a loop over the subscribers leaves behind. `stopped` is the early `return`.
pub record Notified : Type 0 where
  pub handled : List Delivery
  pub delivered : List Delivery
  pub stopped : Bool

-- The inner loop of `publish`
unfoldable pub notify : List String → String → Dict ℕ (List String) → List Delivery → Notified
unfolding is_handled
notify allow_once e [] handled = record { handled = handled; delivered = []; stopped = false }
notify allow_once e ((key, events) ∷ subscribers) handled =
    let rest = notify allow_once e subscribers (handled ++ ((key, e) ∷ [])) in
    if contains allow_once e && is_handled key e handled
    then record { handled = handled; delivered = []; stopped = true }
    else record rest {
      delivered = (if contains events e then (key, e) ∷ [] else []) ++ rest.delivered;
    }

abbrev reset_if : Bool → Exchange → Exchange
reset_if b x = if b then reset x else x

-- `publish`, of the event `e` and those behind it: the exchange, and what was handed out. The test of
-- the reset reads the last event.
unfoldable pub publish : String → List String → Exchange → Exchange × List Delivery
unfolding notify reset
publish e [] x =
    let n = notify x.allow_once e x.subscribers x.handled_events in
    let y = record x { handled_events = n.handled } in
    if n.stopped then (y, n.delivered) else (reset_if (contains x.reset_on e) y, n.delivered)
publish e (f ∷ es) x =
    let n = notify x.allow_once e x.subscribers x.handled_events in
    let y = record x { handled_events = n.handled } in
    let (z, delivered) = publish f es y in
    if n.stopped then (y, n.delivered) else (z, n.delivered ++ delivered)

-- Several calls of `publish`, one after another, and what they hand out together
abbrev pub publish_all : List (String × List String) → Exchange → Exchange × List Delivery
publish_all [] x = (x, [])
publish_all ((e, es) ∷ calls) x =
    let (y, delivered) = publish e es x in
    let (z, delivered') = publish_all calls y in (z, delivered ++ delivered')
