-- ===== src/Events/Once.antt =====
-- The list `allow_once` of an exchange.
use tapis_workflows.Base.{
  ℕ, ◌+◌, ◌≤◌, String, ◌≡◌, refl, ap, ◌∙◌, Bool, true, false, ◌&&◌, ◌||◌, List, [], ◌∷◌, ◌++◌,
  arith, ◌==◌, contains, string_eq, nat_eq, Bool-cases, inl, inr, if◌then◌else◌,
}
use tapis_workflows.Base.Dict.{Dict}
use tapis_workflows.Events.{Delivery, Exchange, reset, is_handled, notify, publish, publish_all}

module _ (k : ℕ) (e : String) where
  -- How often the subscriber `k` is handed the event `e`
  abbrev pub hits : List Delivery → ℕ
  hits [] = 0
  hits ((j, f) ∷ ds) = (if k == j && e == f then 1 else 0) + hits ds

  abbrev seen : List Delivery → ℕ
  seen handled = if is_handled k e handled then 1 else 0

  pub hits-append : (ds es : List Delivery) → hits (ds ++ es) ≡ hits ds + hits es
  hits-append [] es = omega arith
  hits-append ((j, f) ∷ ds) es = omega (arith, hits-append ds es)

  is_handled-append :
      (ds es : List Delivery) → is_handled k e (ds ++ es) ≡ (is_handled k e ds || is_handled k e es)
  unfolding is_handled
  is_handled-append [] es = refl
  is_handled-append ((j, f) ∷ ds) es = ground (arith, is_handled-append ds es)

  notify_once :
      (allow : List String) (f : String) (subs : Dict ℕ (List String)) (handled : List Delivery)
      → contains allow e ≡ true
      → hits (notify allow f subs handled).delivered + seen handled
        ≤ seen (notify allow f subs handled).handled
  unfolding notify is_handled
  notify_once allow f [] handled h = omega arith
  notify_once allow f ((j, evs) ∷ subs) handled h = ground (
    arith,
    notify_once allow f subs (handled ++ ((j, f) ∷ [])) h,
    is_handled-append handled ((j, f) ∷ []),
    hits-append (if contains evs f then (j, f) ∷ [] else [])
        (notify allow f subs (handled ++ ((j, f) ∷ []))).delivered,
  )

  abbrev nobody : Dict ℕ (List String) → Bool
  nobody [] = true
  nobody (s ∷ subs) = false

  -- 1 when `k` can no longer be handed `e`
  abbrev spent : Exchange → ℕ
  spent x = if nobody x.subscribers then 1 else seen x.handled_events

  -- One round of the outer loop
  abbrev round : String → Exchange → Exchange
  round f x = record x {
    handled_events = (notify x.allow_once f x.subscribers x.handled_events).handled;
  }

  round-spent :
      (f : String) (x : Exchange)
      → contains x.allow_once e ≡ true
      → hits (notify x.allow_once f x.subscribers x.handled_events).delivered + spent x
        ≤ spent (round f x)
  unfolding notify
  round-spent f x h = go x.subscribers x.handled_events
    where
      go :
          (subs : Dict ℕ (List String)) (handled : List Delivery)
          → hits (notify x.allow_once f subs handled).delivered
              + (if nobody subs then 1 else seen handled)
            ≤ (if nobody subs then 1 else seen (notify x.allow_once f subs handled).handled)
      go [] handled = omega arith
      go (s ∷ subs) handled = notify_once x.allow_once f (s ∷ subs) handled h

  spent_le : (x : Exchange) → spent x ≤ 1
  spent_le x = ground arith

  publish-spent :
      (f : String) (es : List String) (x : Exchange)
      → contains x.allow_once e ≡ true
      → (hits (publish f es x).1 + spent x ≤ spent (publish f es x).0)
        × ((publish f es x).0.allow_once ≡ x.allow_once)
  unfolding publish reset
  publish-spent f [] x h =
      elim (Bool-cases (notify x.allow_once f x.subscribers x.handled_events).stopped) [
        | inl s ↦ rw (publish, s) (round-spent f x h, refl)
        | inr s ↦ elim (Bool-cases (contains x.reset_on f)) [
          | inl r ↦
              rw (publish, s, r) (omega (arith, round-spent f x h, spent_le (round f x)), refl)
          | inr r ↦ rw (publish, s, r) (round-spent f x h, refl)
        ]
      ]
  publish-spent f (g ∷ es) x h =
      let n = notify x.allow_once f x.subscribers x.handled_events in
      let (less, same) = publish-spent g es (round f x) h in
      elim (Bool-cases n.stopped) [
        | inl s ↦ rw (publish, s) (round-spent f x h, refl)
        | inr s ↦
            rw (publish, s)
              (
                omega (
                  arith,
                  round-spent f x h,
                  less,
                  hits-append n.delivered (publish g es (round f x)).1,
                ),
                same,
              )
      ]

  all_spent :
      (calls : List (String × List String)) (x : Exchange)
      → contains x.allow_once e ≡ true
      → hits (publish_all calls x).1 + spent x ≤ 1
  all_spent [] x h = omega (arith, spent_le x)
  all_spent ((f, es) ∷ calls) x h =
      let (less, same) = publish-spent f es x h in
      let y = (publish f es x).0 in
      let rest = all_spent calls y (ap (λ l. contains l e) same ∙ h) in
      omega (arith, less, rest, hits-append (publish f es x).1 (publish_all calls y).1)

-- Over any calls of `publish`, no subscriber is handed an event of the list `allow_once` more than
-- once, and none is if it was handled before.
pub publish_once :
    (k : ℕ) (e : String) (calls : List (String × List String)) (x : Exchange)
    → contains x.allow_once e ≡ true
    → (hits k e (publish_all calls x).1 ≤ 1)
      × (is_handled k e x.handled_events ≡ true → hits k e (publish_all calls x).1 ≡ 0)
publish_once k e calls x h =
    let less = all_spent k e calls x h in (omega (arith, less), λ before. ground (arith, less))
