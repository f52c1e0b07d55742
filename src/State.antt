-- ===== src/State.antt =====
-- core/state/ReactiveState.py and core/state/Hook.py: attributes behind a lock, and the functions that
-- run when they are read or set. `F` is the type of a hook's function with its arguments, and `call`
-- what such a function does to the state: it comes from the owner of the state.
pub mod Hooks
use tapis_workflows.Base.{
  ℕ, String, Bool, true, false, ◌&&◌, ◌||◌, ◌≡◌, Option, none, some, List, [], ◌∷◌, ◌==◌, contains,
  string_eq, nat_eq, length, if◌then◌else◌,
}
use tapis_workflows.Base.Dict.{Dict, lookup, insert}

pub record Hook (F : Type 0) : Type 0 where
  pub fn : F
  pub attrs : List String

pub data StateError (E : Type 0) : Type 0 where
  -- `AttributeError`
  no_attribute : String → StateError E
  -- `RuntimeError` of the release of a lock that is not held
  not_locked : StateError E
  -- What the function of a hook raises
  hook_error : E → StateError E

-- How a call ends. `waits` is a call that waits for the lock.
pub data Access (E A : Type 0) : Type 0 where
  returns : A → Access E A
  raises : StateError E → Access E A
  waits : Access E A

abbrev pub as_result : {E A B : Type 0} → (A → B) → Access E A → Access E B
as_result f (returns a) = returns (f a)
as_result f (raises e) = raises e
as_result f waits = waits

pub record Store (F V : Type 0) : Type 0 where
  pub hooks : List (Hook F)
  pub initial_state : Dict String V
  pub state : Dict String V
  pub locked : Bool
  pub called_externally : Bool

module _ {F V : Type 0} where
  -- `__init__`
  unfoldable pub init : Store F V
  init = record {
    hooks = [];
    initial_state = [];
    state = [];
    locked = false;
    called_externally = true;
  }

  -- `_set_internal`
  unfoldable pub set_internal : String → V → Store F V → Store F V
  set_internal name value s = record s { state = insert name value s.state }

module _ {F V E : Type 0} where
  -- `self._lock.release()`, and then the end of the call
  unfoldable pub release : {A : Type 0} → Access E A → Store F V → Store F V × Access E A
  release end s = if s.locked then (record s { locked = false }, end) else (s, raises not_locked)

  -- After `_run_hooks`: the lock is released on both ways.
  unfoldable pub settle : {A : Type 0} → A → Store F V × Option E → Store F V × Access E A
  unfolding release
  settle value (s, none) = release (returns value) s
  settle value (s, some e) = release (raises (hook_error e)) s

  -- `_get_internal`: the handler of a missing attribute releases the lock.
  unfoldable pub get_internal : String → Store F V → Store F V × Access E V
  unfolding release
  get_internal name s = elim (lookup name s.state) [
    | none ↦ release (raises (no_attribute name)) s
    | some value ↦ (s, returns value)
  ]

-- `__name in hook.attrs or len(hook.attrs) == 0`
abbrev pub matches : {F : Type 0} → String → Hook F → Bool
matches name hook = contains hook.attrs name || length hook.attrs == 0

-- The rest of the loop, when a hook did not raise
abbrev pub after : {S E : Type 0} → S × Option E → (S → S × Option E) → S × Option E
after (s, none) rest = rest s
after (s, some e) rest = (s, some e)

module _ {F V E : Type 0} (call : F → Store F V → Store F V × Option E) where
  -- The loop of `_run_hooks`, which stops at the first hook that raises
  unfoldable pub run_each : String → List (Hook F) → Store F V → Store F V × Option E
  run_each name [] s = (s, none)
  run_each name (hook ∷ hooks) s =
      after (if matches name hook then call hook.fn s else (s, none)) (run_each name hooks)

  -- `_run_hooks`
  unfoldable pub run_hooks : String → Store F V → Store F V × Option E
  unfolding run_each
  run_hooks name s =
      after (run_each name s.hooks (record s { called_externally = false }))
        (λ u. (record u { called_externally = true }, none))

  -- The end of an access from outside
  unfoldable pub end_access : {A : Type 0} → String → A → Store F V → Store F V × Access E A
  unfolding run_hooks settle
  end_access name value s = settle value (run_hooks name s)

  -- `_set_external`
  unfoldable pub set_external : String → V → Store F V → Store F V × Access E Unit
  unfolding end_access
  set_external name value s =
      if s.locked
      then (s, waits)
      else end_access name tt (record s { locked = true; state = insert name value s.state })

  -- `_get_external`
  unfoldable pub get_external : String → Store F V → Store F V × Access E V
  unfolding end_access release
  get_external name s = if s.locked then (s, waits) else (elim (lookup name s.state) [
    | none ↦ release (raises (no_attribute name)) (record s { locked = true })
    | some value ↦ end_access name value (record s { locked = true })
  ])

  -- `__setattr__`
  unfoldable pub set_attribute : String → V → Store F V → Store F V × Access E Unit
  unfolding set_external set_internal
  set_attribute name value s =
      if s.called_externally
      then set_external name value s
      else (set_internal name value s, returns tt)

  -- `__getattr__`
  unfoldable pub get_attribute : String → Store F V → Store F V × Access E V
  unfolding get_external get_internal
  get_attribute name s = if s.called_externally then get_external name s else get_internal name s

-- `set_initial_state`, `reset` and `register_hooks`, where `copy.deepcopy` of the model's values is the
-- value itself
module _ {F V : Type 0} where
  unfoldable pub set_initial_state : Dict String V → Store F V → Store F V
  set_initial_state state s = record s { initial_state = state; state = state }

  unfoldable pub reset : Store F V → Store F V
  reset s = record s { state = s.initial_state }

  unfoldable pub register_hooks : List (Hook F) → Store F V → Store F V
  register_hooks hooks s = record s { hooks = hooks }

-- What the owner and the other threads do: read and set attributes.
pub data Op (V : Type 0) : Type 0 where
  sets : String → V → Op V
  gets : String → Op V

-- The calls of `__setattr__` and `__getattr__` one after the other, with their results
module _ {F V E : Type 0} (call : F → Store F V → Store F V × Option E) where
  unfoldable pub access : Op V → Store F V → Store F V × Access E (Option V)
  unfolding set_attribute get_attribute
  access (sets name value) s =
      let (u, end) = set_attribute call name value s in (u, as_result (λ _. none) end)
  access (gets name) s = let (u, end) = get_attribute call name s in (u, as_result some end)

  unfoldable pub accesses : List (Op V) → Store F V → Store F V × List (Access E (Option V))
  unfolding access
  accesses [] s = (s, [])
  accesses (op ∷ ops) s =
      let (u, end) = access op s in let (w, ends) = accesses ops u in (w, end ∷ ends)
