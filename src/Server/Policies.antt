-- ===== src/Server/Policies.antt =====
-- The duplicate submission policies of the server.
use mathlib.Core.List.{append-nil}
use tapis_workflows.Base.{
  ℕ, ◌≤◌, ◌<◌, String, ◌≡◌, ◌⊎◌, refl, ap, ◌∙◌, subst, Bool, true, false, not, ◌&&◌, some, List, [],
  ◌∷◌, ◌++◌, arith, ◌==◌, contains, string_eq, nat_eq, filter, All, All-map, length, ltb,
  Bool-cases, inl, inr, if◌then◌else◌,
}
use tapis_workflows.Server.{
  Policy, allow, allow_terminate, deny, deferred, Worker, Active, has_key, get_active_workers,
  deregister_worker, terminate, terminate_each, activate, register_worker,
}

abbrev worker_ids : List Worker → List ℕ
worker_ids [] = []
worker_ids (w ∷ ws) = w.id ∷ worker_ids ws

filter-filter :
    (p q r : Worker → Bool)
    → ((w : Worker) → (q w && p w) ≡ r w)
    → (ws : List Worker) → filter p (filter q ws) ≡ filter r ws
filter-filter p q r h [] = refl
filter-filter p q r h (w ∷ ws) = ground (arith, h w, filter-filter p q r h ws)

-- The loop of the terminating policy removes the workers by their ids.
terminate_each_lem :
    (ws : List Worker) (s : Active)
    → (terminate_each ws s).active_workers
      ≡ filter (λ v. not (contains (worker_ids ws) v.id)) s.active_workers
unfolding terminate_each deregister_worker terminate
terminate_each_lem [] s = everything s.active_workers
  where
    everything : (vs : List Worker) → vs ≡ filter (λ v. true) vs
    everything [] = refl
    everything (v ∷ vs) = ap (λ l. v ∷ l) (everything vs)
terminate_each_lem (w ∷ ws) s =
    terminate_each_lem ws (deregister_worker true (terminate w) s)
    ∙ filter-filter (λ v. not (contains (worker_ids ws) v.id)) (λ v. not (v.id == w.id))
        (λ v. not (contains (worker_ids (w ∷ ws)) v.id)) (λ v. ground arith) s.active_workers

module _ (key : String) where
  -- The workers with the key are among those with the given ids.
  abbrev Covered : List ℕ → List Worker → Type 0
  Covered ids ws = All (λ v. has_key key v ≡ true → contains ids v.id ≡ true) ws

  covered : (ws : List Worker) → Covered (worker_ids (filter (has_key key) ws)) ws
  covered [] = tt
  covered (w ∷ ws) =
      (λ h. ground (arith, h), All-map ws (λ v f h. ground (arith, f h)) (covered ws))

  none_left :
      (ids : List ℕ) (ws : List Worker)
      → Covered ids ws
      → filter (has_key key) (filter (λ v. not (contains ids v.id)) ws) ≡ []
  none_left ids [] c = refl
  none_left ids (w ∷ ws) c = ground (arith, c.0, none_left ids ws c.1)

  fewer :
      (k : String) (p : Worker → Bool) (ws : List Worker)
      → length (filter (has_key k) (filter p ws)) ≤ length (filter (has_key k) ws)
  fewer k p [] = omega arith
  fewer k p (w ∷ ws) = ground (arith, fewer k p ws)

filter-append :
    (p : Worker → Bool) (vs ws : List Worker) → filter p (vs ++ ws) ≡ filter p vs ++ filter p ws
filter-append p [] ws = refl
filter-append p (v ∷ vs) ws = ground (arith, filter-append p vs ws)

activated :
    (key k : String) (worker : Worker) (s : Active)
    → get_active_workers k (activate (record worker { key = some key }) s).1
      ≡ get_active_workers k s
        ++ (if key == k then (activate (record worker { key = some key }) s).0 ∷ [] else [])
unfolding get_active_workers activate
activated key k worker s =
    filter-append (has_key k) s.active_workers
      (record worker { key = some key; can_start = true } ∷ [])
    ∙ ground arith

unmatched :
    {b : Bool} {l : List Worker} → b ≡ false → (r : List Worker) → l ++ (if b then r else []) ≡ l
unmatched {l = l} e r = rw e (append-nil l)

all_terminated :
    (key : String) (s : Active)
    → get_active_workers key (terminate_each (get_active_workers key s) s) ≡ []
unfolding get_active_workers
all_terminated key s =
    ap (λ l. filter (has_key key) l) (terminate_each_lem (filter (has_key key) s.active_workers) s)
    ∙ none_left key (worker_ids (filter (has_key key) s.active_workers)) s.active_workers
        (covered key s.active_workers)

others_fewer :
    (key k : String) (s : Active)
    → length (get_active_workers k (terminate_each (get_active_workers key s) s))
      ≤ length (get_active_workers k s)
unfolding get_active_workers
others_fewer key k s = rw (terminate_each_lem (filter (has_key key) s.active_workers) s) (
    fewer key k (λ v. not (contains (worker_ids (filter (has_key key) s.active_workers)) v.id))
      s.active_workers)

joins :
    (key k : String) (worker : Worker) (s : Active)
    → (key == k) ≡ false
    → length (get_active_workers k (activate (record worker { key = some key }) s).1)
      ≡ length (get_active_workers k s)
joins key k worker s differ =
    ap (λ (l : List Worker). length l) (activated key k worker s ∙ unmatched differ _)

no_workers : (ws : List Worker) → ltb 0 (length ws) ≡ false → ws ≡ []
no_workers [] e = refl
no_workers (w ∷ ws) e = absurd (ground (arith, e))

-- What `deny` says of what is returned
abbrev Denied : String → Worker → Active → Worker × Active → Type 0
Denied key worker s r =
    (((get_active_workers key s ≡ []) × (get_active_workers key r.1 ≡ r.0 ∷ []))
      ⊎ ((0 < length (get_active_workers key s)) × (r.1 ≡ s) × (r.0.can_start ≡ worker.can_start)))
    × ((k : String)
        → (key == k) ≡ false
        → length (get_active_workers k r.1) ≤ length (get_active_workers k s))

deny_lem :
    (key : String) (worker : Worker) (s : Active)
    → Denied key worker s (register_worker key deny worker s)
unfolding register_worker
deny_lem key worker s = elim (Bool-cases (ltb 0 (length (get_active_workers key s)))) [
  | inl e ↦
      let same : (record worker { key = some key }, s) ≡ register_worker key deny worker s =
        rw (register_worker, e) refl in
      subst (Denied key worker s) same
        (inr (ground (arith, e), refl, refl), λ k differ. omega arith)
  | inr e ↦
      let empty = no_workers (get_active_workers key s) e in
      let same : activate (record worker { key = some key }) s ≡ register_worker key deny worker s =
        rw (register_worker, e) refl in
      subst (Denied key worker s) same (
        inl (empty, activated key key worker s ∙ ground (arith, empty)),
        λ k differ. omega (arith, joins key k worker s differ),
      )
]

-- A submission under the policy `terminate` leaves its worker as the only active one of its key.
-- Under `deny` it leaves the server as it was if the key has an active worker, and its own worker is
-- not started by it; otherwise the worker becomes the only active one of the key. Under `allow` and
-- `defer` the worker joins those of the key. The other keys gain no active worker.
pub register_worker_lem :
    (key : String) (policy : Policy) (worker : Worker) (s : Active)
    → let r = register_worker key policy worker s in
      (policy ≡ allow_terminate → get_active_workers key r.1 ≡ r.0 ∷ [])
      × (policy ≡ deny
          → ((get_active_workers key s ≡ []) × (get_active_workers key r.1 ≡ r.0 ∷ []))
            ⊎ ((0 < length (get_active_workers key s))
                × (r.1 ≡ s)
                × (r.0.can_start ≡ worker.can_start)))
      × ((policy ≡ allow) ⊎ (policy ≡ deferred)
          → get_active_workers key r.1 ≡ get_active_workers key s ++ (r.0 ∷ []))
      × ((k : String)
          → (key == k) ≡ false
          → length (get_active_workers k r.1) ≤ length (get_active_workers k s))
unfolding register_worker
register_worker_lem key allow_terminate worker s =
    let t = terminate_each (get_active_workers key s) s in
    (
      λ _. activated key key worker t ∙ ground (arith, all_terminated key s),
      λ h. cc,
      λ h. elim h [ inl e ↦ cc | inr e ↦ cc ],
      λ k differ. omega (
        arith,
        ap (λ (l : List Worker). length l) (activated key k worker t ∙ unmatched differ _),
        others_fewer key k s,
      ),
    )
register_worker_lem key deny worker s =
    let (active, others) = deny_lem key worker s in
    (λ h. cc, λ _. active, λ h. elim h [ inl e ↦ cc | inr e ↦ cc ], others)
register_worker_lem key deferred worker s = (
  λ h. cc,
  λ h. cc,
  λ _. activated key key worker s ∙ ground arith,
  λ k differ. omega (arith, joins key k worker s differ),
)
register_worker_lem key allow worker s = (
  λ h. cc,
  λ h. cc,
  λ _. activated key key worker s ∙ ground arith,
  λ k differ. omega (arith, joins key k worker s differ),
)
