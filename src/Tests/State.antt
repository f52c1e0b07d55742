-- ===== src/Tests/State.antt =====
-- A reactive state with a hook that counts the reads of "status", and one that raises.
use tapis_workflows.Base.{
  ℕ, String, ◌≡◌, refl, Bool, true, false, Option, none, some, [], ◌∷◌, string_eq, nat_eq, filter,
}
use tapis_workflows.Base.Dict.{insert}
use tapis_workflows.State.{
  Store, hook_error, returns, raises, matches, register_hooks, set_initial_state, init,
  set_attribute, get_attribute,
}
use tapis_workflows.State.Hooks.{call_all, access_lem, hook_failure}

abbrev count_reads : Bool → Store Bool ℕ → Store Bool ℕ × Option String
count_reads _ s = (record s { state = insert "seen" 1 s.state }, none)

abbrev fails : Bool → Store Bool ℕ → Store Bool ℕ × Option String
fails true s = (s, some "broken")
fails false s = (s, none)

abbrev hooked : Store Bool ℕ
unfolding register_hooks set_initial_state init
hooked =
    register_hooks (record { fn = true; attrs = "status" ∷ [] } ∷ [])
      (set_initial_state (("status", 3) ∷ []) init)

abbrev counted : Store Bool ℕ
counted = record hooked {
  state = ("status", 3) ∷ ("seen", 1) ∷ [];
  locked = true;
  called_externally = false;
}

ran :
    call_all count_reads
      (filter (matches "status") hooked.hooks)
      (record hooked { locked = true; called_externally = false })
    ≡ (counted, none)
unfolding string_eq nat_eq hooked
ran = refl

access_lem_example :
    get_attribute count_reads "status" hooked
    ≡ (record counted { locked = false; called_externally = true }, returns 3)
unfolding hooked string_eq
access_lem_example = (access_lem count_reads hooked "status").1 3 counted refl ran

abbrev open_store : Store Bool ℕ
open_store = record hooked { state = ("status", 5) ∷ []; locked = false; called_externally = false }

raised :
    call_all fails
      (filter (matches "status") hooked.hooks)
      (record hooked { state = ("status", 5) ∷ []; locked = true; called_externally = false })
    ≡ (record open_store { locked = true }, some "broken")
unfolding string_eq nat_eq hooked
raised = refl

hook_failure_example :
    set_attribute fails "status" 5 hooked ≡ (open_store, raises (hook_error "broken"))
unfolding hooked string_eq
hook_failure_example =
    (hook_failure fails hooked (record open_store { locked = true }) "status" "broken" refl).0 5
      raised
