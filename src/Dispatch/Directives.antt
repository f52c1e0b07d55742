-- ===== src/Dispatch/Directives.antt =====
-- backend/utils/parse_directives.py: the directives of a commit message or of a request. `find_all` is
-- the search for the directive set of `DIRECTIVE_SET_PATTERN`, and `upper` Python's `str.upper`.
use mathlib.Core.List.{append-nil, append_assoc}
use tapis_workflows.Base.{
  ◌<>◌, String, true, false, ◌≡◌, refl, sym, ◌≢◌, ◌∙◌, ap, Option, none, some, List, [], ◌∷◌, ◌++◌,
  map, count, count-append, ◌+◌, ◌≤◌, nat_eq, arith, ◌==◌, contains, string_eq, All, if◌then◌else◌,
}
use tapis_workflows.Base.Dict.{Dict, keys, keys-append, insert}
use tapis_workflows.Base.Split.{
  occurs, split, join, split-absent, split-join, occurs-append, append-ne-nil,
}

abbrev pub DirectiveSet : Type 0
DirectiveSet = Dict String (Option String)

abbrev pub supported_directives : List String
supported_directives =
    "DEPLOY" ∷ "CACHE" ∷ "CUSTOM_TAG" ∷ "TAG_COMMIT_SHA" ∷ "DRY_RUN" ∷ "NO_PUSH" ∷ []

-- `None if len(key_val) == 1 else key_val[1]`
abbrev value_of : List String → Option String
value_of [] = none
value_of (key ∷ []) = none
value_of (key ∷ (value ∷ rest)) = some value

abbrev key_of : List String → String
key_of [] = ""
key_of (key ∷ rest) = key

module _ (upper : String → String) where
  unfoldable pub add_directive : List String → DirectiveSet → DirectiveSet
  add_directive key_val directives =
      let key = upper (key_of key_val) in
      if contains supported_directives key
      then insert key (value_of key_val) directives
      else directives

  unfoldable pub add_text : String → DirectiveSet → DirectiveSet
  unfolding add_directive
  add_text text directives =
      if text == "" then directives else add_directive (split ":" text) directives

  -- The loop over the directive set
  unfoldable pub parse_each : List String → DirectiveSet → DirectiveSet
  unfolding add_text
  parse_each [] directives = directives
  parse_each (text ∷ rest) directives = parse_each rest (add_text text directives)

  abbrev some_or_none : DirectiveSet → Option DirectiveSet
  some_or_none [] = none
  some_or_none (d ∷ ds) = some (d ∷ ds)

  unfoldable pub parse_matches : List String → Option DirectiveSet
  unfolding parse_each
  parse_matches [] = none
  parse_matches (directive_set ∷ rest) = some_or_none (parse_each (split "|" directive_set) [])

  -- `parse_directives`
  unfoldable pub parse_directives : (String → List String) → String → Option DirectiveSet
  unfolding parse_matches
  parse_directives find_all directive_string = parse_matches (find_all directive_string)

-- How a directive is written
abbrev pub written : String × Option String → String
written (key, none) = key
written (key, some value) = join ":" (key ∷ (value ∷ []))

abbrev Plain : String → Type 0
Plain s = (occurs ":" s ≡ false) × (occurs "|" s ≡ false)

abbrev PlainValue : Option String → Type 0
PlainValue none = Unit
PlainValue (some value) = Plain value

-- A directive whose key is supported and in upper case, with no delimiter in its texts
abbrev pub IsDirective : (String → String) → String × Option String → Type 0
IsDirective upper d =
    (upper d.0 ≡ d.0) × (contains supported_directives d.0 ≡ true) × Plain d.0 × PlainValue d.1

insert-new :
    (key : String) (value : Option String) (d : DirectiveSet)
    → count key (keys d) ≡ 0
    → insert key value d ≡ d ++ ((key, value) ∷ [])
insert-new key value [] h = refl
insert-new key value ((j, w) ∷ d) h =
    let rest = insert-new key value d (ground arith) in ground arith

empty_unsupported : contains supported_directives "" ≡ false
unfolding string_eq
empty_unsupported = refl

supported-ne-nil : (key : String) → contains supported_directives key ≡ true → key ≢ ""
supported-ne-nil key h e =
    let same = sym h ∙ ap (contains supported_directives) e ∙ empty_unsupported in cc

written-ne-nil :
    (upper : String → String) (d : String × Option String)
    → IsDirective upper d
    → (written d == "") ≡ false
unfolding join
written-ne-nil upper (key, none) h = let n = supported-ne-nil key h.1 in ground arith
written-ne-nil upper (key, some value) h =
    let n = append-ne-nil key (String.◌∷◌ ":" value) (supported-ne-nil key h.1) in ground arith

split-written :
    (upper : String → String) (d : String × Option String)
    → IsDirective upper d
    → (key_of (split ":" (written d)) ≡ d.0) × (value_of (split ":" (written d)) ≡ d.1)
unfolding join
split-written upper (key, none) h = rw (split-absent ":" key h.2.0) (refl, refl)
split-written upper (key, some value) h =
    rw (split-join ":" key (value ∷ []) (h.2.0, (h.3.0, tt))) (refl, refl)

written-occurs :
    (upper : String → String) (d : String × Option String)
    → IsDirective upper d
    → occurs "|" (written d) ≡ false
unfolding join nat_eq
written-occurs upper (key, none) h = h.2.1
written-occurs upper (key, some value) h = occurs-append "|" key (String.◌∷◌ ":" value) h.2.1 h.3.1

module _ (upper : String → String) where
  add_text-written :
      (key : String) (value : Option String) (d : DirectiveSet)
      → IsDirective upper (key, value)
      → count key (keys d) ≡ 0
      → add_text upper (written (key, value)) d ≡ d ++ ((key, value) ∷ [])
  unfolding add_text add_directive
  add_text-written key value d h new =
      let (same_key, same_value) = split-written upper (key, value) h in
      rw (written-ne-nil upper (key, value) h, same_key, same_value, h.0, h.1)
        (insert-new key value d new)

  parse_each_lem :
      (ds : DirectiveSet) (d : DirectiveSet)
      → All (IsDirective upper) ds
      → ((a : String) → count a (keys d) + count a (keys ds) ≤ 1)
      → parse_each upper (map written ds) d ≡ d ++ ds
  unfolding parse_each
  parse_each_lem [] d h unique = sym (append-nil d)
  parse_each_lem ((key, value) ∷ ds) d h unique =
      ap (parse_each upper (map written ds))
        (add_text-written key value d h.0 (ground (arith, unique key)))
      ∙ (parse_each_lem ds (d ++ ((key, value) ∷ [])) h.1 (λ a.
            rw (keys-append d ((key, value) ∷ []))
              (omega (arith, unique a, count-append a (keys d) (key ∷ []))))
          ∙ append_assoc d ((key, value) ∷ []) ds)

  written_all-occurs :
      (ds : DirectiveSet)
      → All (IsDirective upper) ds
      → All (λ p. occurs "|" p ≡ false) (map written ds)
  written_all-occurs [] h = tt
  written_all-occurs (d ∷ ds) h = (written-occurs upper d h.0, written_all-occurs ds h.1)

  -- If the search for the directive set finds the text between the brackets, then parsing what `build`
  -- writes for a list of directives, with distinct and supported keys in upper case and no delimiter in
  -- their texts, gives these directives with their values again, in order.
  pub parse_directives-written :
      (find_all : String → List String) (e : String × Option String) (ds : DirectiveSet)
      → All (IsDirective upper) (e ∷ ds)
      → ((a : String) → count a (keys (e ∷ ds)) ≤ 1)
      → find_all ("[" <> (join "|" (map written (e ∷ ds)) <> "]"))
        ≡ join "|" (map written (e ∷ ds)) ∷ []
      → parse_directives upper find_all ("[" <> (join "|" (map written (e ∷ ds)) <> "]"))
        ≡ some (e ∷ ds)
  unfolding parse_directives parse_matches
  parse_directives-written find_all e ds h unique found =
      ap (parse_matches upper) found
      ∙ rw
          (
            split-join "|" (written e) (map written ds) (written_all-occurs (e ∷ ds) h),
            parse_each_lem (e ∷ ds) [] h (λ a. omega (arith, unique a)),
          )
          refl
