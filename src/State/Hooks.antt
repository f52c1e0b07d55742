-- ===== src/State/Hooks.antt =====
-- The lock and the mode of the state over its accesses.
use tapis_workflows.Base.{
  String, Bool, ◌≡◌, refl, ap, ◌∙◌, Option-cases, true, false, Option, none, some, List, [], ◌∷◌,
  filter, string_eq, Bool-cases, inl, inr,
}
use tapis_workflows.Base.Dict.{Dict, lookup, insert}
use tapis_workflows.State.{
  Hook, Store, no_attribute, not_locked, hook_error, Access, returns, raises, as_result,
  get_internal, matches, after, settle, release, run_each, run_hooks, end_access, set_attribute,
  get_attribute, Op, sets, gets, access, accesses,
}

abbrev held : {F V : Type 0} → Store F V → Store F V
held s = record s { locked = true; called_externally = false }

abbrev idle : {F V : Type 0} → Store F V → Store F V
idle s = record s { locked = false; called_externally = true }

-- The plain dictionary that an access reads or sets, and the result of the access
abbrev pub plain : {V : Type 0} → Op V → Dict String V → Dict String V
plain (sets name value) d = insert name value d
plain (gets name) d = d

after-same :
    {S E : Type 0} {f g : S → S × Option E} (end : S × Option E)
    → ((s : S) → f s ≡ g s)
    → after end f ≡ after end g
after-same (s, none) h = h s
after-same (s, some e) h = refl

module _ {F V E : Type 0} (call : F → Store F V → Store F V × Option E) where
  -- Every hook of the list runs.
  abbrev pub call_all : List (Hook F) → Store F V → Store F V × Option E
  call_all [] s = (s, none)
  call_all (hook ∷ hooks) s = after (call hook.fn s) (call_all hooks)

  -- The loop with its test runs exactly the hooks of the attribute, in their order.
  run_each_lem :
      (name : String) (hooks : List (Hook F)) (s : Store F V)
      → run_each call name hooks s ≡ call_all (filter (matches name) hooks) s
  unfolding run_each
  run_each_lem name [] s = refl
  run_each_lem name (hook ∷ hooks) s = elim (Bool-cases (matches name hook)) [
    | inl e ↦ rw e (after-same (call hook.fn s) (run_each_lem name hooks))
    | inr e ↦ rw e (run_each_lem name hooks s)
  ]

  -- How an access ends: the release of a lock that a hook has released raises `RuntimeError`.
  abbrev pub ended : {A : Type 0} → (locked : Bool) → Access E A → Access E A
  ended true end = end
  ended false end = raises not_locked

  end_access_lem :
      {A : Type 0} (name : String) (value : A) (s u : Store F V)
      → call_all (filter (matches name) s.hooks) (held s) ≡ (u, none)
      → end_access call name value (record s { locked = true })
        ≡ (idle u, ended u.locked (returns value))
  unfolding end_access run_hooks settle release
  end_access_lem name value s u h = elim (Bool-cases u.locked) [
    | inl l ↦ rw (run_each_lem name s.hooks (held s), h, l) refl
    | inr l ↦ rw (run_each_lem name s.hooks (held s), h, l) refl
  ]

  -- A failing hook: the lock is free, and the mode stays the one of the hooks.
  end_access_fails :
      {A : Type 0} (name : String) (value : A) (s u : Store F V) (e : E)
      → call_all (filter (matches name) s.hooks) (held s) ≡ (u, some e)
      → end_access call name value (record s { locked = true })
        ≡ (record u { locked = false }, ended u.locked (raises (hook_error e)))
  unfolding end_access run_hooks settle release
  end_access_fails name value s u e h = elim (Bool-cases u.locked) [
    | inl l ↦ rw (run_each_lem name s.hooks (held s), h, l) refl
    | inr l ↦ rw (run_each_lem name s.hooks (held s), h, l) refl
  ]

  -- From outside, with a free lock, an access whose hooks return does not wait. A set stores the value
  -- before the hooks, and a read of an attribute that is present returns what is stored before them;
  -- either runs exactly the hooks of the attribute, those without attributes included, in their order and
  -- with the lock held, and leaves the lock free and the mode as it was. If the hooks have released the
  -- lock, as the read of a missing attribute does, the access raises `RuntimeError` in place of its
  -- result. A read of a missing attribute from outside raises `AttributeError` and changes nothing.
  pub access_lem :
      (s : Store F V) (name : String)
      → ((value : V) (u : Store F V)
          → call_all
              (filter (matches name) s.hooks)
              (held (record s { state = insert name value s.state }))
            ≡ (u, none)
          → set_attribute call name value (idle s) ≡ (idle u, ended u.locked (returns tt)))
        × ((value : V) (u : Store F V)
            → lookup name s.state ≡ some value
            → call_all (filter (matches name) s.hooks) (held s) ≡ (u, none)
            → get_attribute call name (idle s) ≡ (idle u, ended u.locked (returns value)))
        × (lookup name s.state ≡ none
            → get_attribute call name (idle s) ≡ (idle s, raises (no_attribute name)))
  unfolding set_attribute get_attribute
  access_lem s name = (
    λ value u ran.
        end_access_lem name tt (idle (record s { state = insert name value s.state })) u ran,
    λ value u h ran. rw h (end_access_lem name value (idle s) u ran),
    λ h. rw h refl,
  )

  -- What an access does while the mode is that of the hooks, by whichever thread: it neither waits nor
  -- runs a hook, and a read of a missing attribute releases the lock that it does not hold.
  abbrev pub unguarded : Op V → Dict String V → Access E (Option V)
  unguarded (sets name value) d = returns none
  unguarded (gets name) d = elim (lookup name d) [
    | none ↦ raises not_locked
    | some value ↦ returns (some value)
  ]

  abbrev pub unguarded_all : List (Op V) → Dict String V → List (Access E (Option V))
  unguarded_all [] d = []
  unguarded_all (op ∷ ops) d = unguarded op d ∷ unguarded_all ops (plain op d)

  abbrev pub plain_all : List (Op V) → Dict String V → Dict String V
  plain_all [] d = d
  plain_all (op ∷ ops) d = plain_all ops (plain op d)

  abbrev open_mode : Store F V → Store F V
  open_mode s = record s { locked = false; called_externally = false }

  get_missing :
      (name : String) (s : Store F V)
      → lookup name s.state ≡ none
      → get_attribute call name (open_mode s) ≡ (open_mode s, raises not_locked)
  unfolding get_attribute get_internal release
  get_missing name s h = rw (get_internal, h) refl

  get_present :
      (name : String) (s : Store F V) (value : V)
      → lookup name s.state ≡ some value
      → get_attribute call name (open_mode s) ≡ (open_mode s, returns value)
  unfolding get_attribute get_internal release
  get_present name s value h = rw (get_internal, h) refl

  set_open :
      (name : String) (value : V) (s : Store F V)
      → set_attribute call name value (open_mode s)
        ≡ (open_mode (record s { state = insert name value s.state }), returns tt)
  unfolding set_attribute
  set_open name value s = refl

  access_unguarded :
      (op : Op V) (s : Store F V)
      → access call op (open_mode s)
        ≡ (open_mode (record s { state = plain op s.state }), unguarded op s.state)
  unfolding access
  access_unguarded (sets name value) s =
      ap (λ (end : Store F V × Access E Unit). (end.0, as_result (λ _. none) end.1))
        (set_open name value s)
  access_unguarded (gets name) s = elim (Option-cases (lookup name s.state)) [
    | inl missing ↦
        ap (λ (end : Store F V × Access E V). (end.0, as_result some end.1))
          (get_missing name s missing)
        ∙ rw (unguarded, missing) refl
    | inr there ↦
        ap (λ (end : Store F V × Access E V). (end.0, as_result some end.1))
          (get_present name s there.0 there.1)
        ∙ rw (unguarded, there.1) refl
  ]

  accesses_unguarded :
      (ops : List (Op V)) (s : Store F V)
      → accesses call ops (open_mode s)
        ≡ (open_mode (record s { state = plain_all ops s.state }), unguarded_all ops s.state)
  unfolding accesses
  accesses_unguarded [] s = refl
  accesses_unguarded (op ∷ ops) s =
      rw (access_unguarded op s, accesses_unguarded ops (record s { state = plain op s.state }))
        refl

  -- If a hook raises, and no hook has changed the mode itself, the set or the read from outside ends
  -- with the exception of the hook, or with `RuntimeError` if the hooks have released the lock. The lock
  -- is free then, but the mode stays that of the hooks: from then on no access by any thread waits for
  -- the lock or runs a hook, and a read of a missing attribute raises a `RuntimeError` in place of the
  -- `AttributeError`.
  pub hook_failure :
      (s u : Store F V) (name : String) (e : E)
      → u.called_externally ≡ false
      → ((value : V)
          → call_all
              (filter (matches name) s.hooks)
              (held (record s { state = insert name value s.state }))
            ≡ (u, some e)
          → set_attribute call name value (idle s)
            ≡ (open_mode u, ended u.locked (raises (hook_error e))))
        × ((value : V)
            → lookup name s.state ≡ some value
            → call_all (filter (matches name) s.hooks) (held s) ≡ (u, some e)
            → get_attribute call name (idle s)
              ≡ (open_mode u, ended u.locked (raises (hook_error e))))
        × ((ops : List (Op V))
            → accesses call ops (open_mode u)
              ≡ (open_mode (record u { state = plain_all ops u.state }), unguarded_all ops u.state))
  unfolding set_attribute get_attribute
  hook_failure s u name e m = (
    λ value h.
        end_access_fails name tt (idle (record s { state = insert name value s.state })) u e h
        ∙ rw m refl,
    λ value present h. rw present (end_access_fails name value (idle s) u e h ∙ rw m refl),
    λ ops. accesses_unguarded ops u,
  )
