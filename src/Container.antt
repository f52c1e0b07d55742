-- ===== src/Container.antt =====
-- engine core/ioc/IOCContainer.py: registered handlers, and the objects that are kept.
use tapis_workflows.Base.{
  ℕ, String, ◌≡◌, Bool, true, Option, none, some, arith, string_eq, if◌then◌else◌,
}
use tapis_workflows.Base.Dict.{Dict, lookup, insert, lookup-insert}

module _ (Obj : Type 0) where
  -- A handler returns an object for each number of earlier calls of handlers: a call may make a new one.
  pub record Container : Type 0 where
    pub configurations : Dict String ((ℕ → Obj) × Bool)
    pub cache : Dict String Obj

  -- `register`
  unfoldable pub register : String → (ℕ → Obj) → Bool → Container → Container
  register key handler as_singleton c = record c {
    configurations = insert key (handler, as_singleton) c.configurations;
  }

  -- `load`, after `n` calls of handlers; `none` is the exception for a key without an object.
  unfoldable pub load : ℕ → String → Container → Option (Obj × Container)
  load n key c = elim (lookup key c.cache) [
    | some obj ↦ some (obj, c)
    | none ↦ elim (lookup key c.configurations) [
      | none ↦ none
      | some (handler, as_singleton) ↦ some (
        handler n,
        if as_singleton then record c { cache = insert key (handler n) c.cache } else c,
      )
    ]
  ]

  -- An object that is registered as a singleton and not loaded yet is made by the first load, and every
  -- later load returns that same object and changes nothing.
  pub load_singleton :
      (key : String) (handler : ℕ → Obj) (c : Container) (n m : ℕ)
      → lookup key c.cache ≡ none
      → (d : Container) × (load n key (register key handler true c) ≡ some (handler n, d))
        × (load m key d ≡ some (handler n, d))
  unfolding load register
  load_singleton key handler c n m absent =
      let c' = register key handler true c in
      let d : Container = record c' { cache = insert key (handler n) c.cache } in
      (
        d,
        ground (arith, absent, lookup-insert key key (handler, true) c.configurations),
        ground (arith, lookup-insert key key (handler n) c.cache),
      )
