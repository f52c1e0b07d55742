-- ===== src/Server/Keys.antt =====
-- core/Server.py: `_resolve_idempotency_key`. `show` is Python's `str`.
use tapis_workflows.Base.{
  ℕ, suc, String, ◌<>◌, not, ◌≡◌, ◌≢◌, refl, ap, ◌∙◌, Option, none, some, List, [], ◌∷◌, Result, ok,
  err, ◌>>=◌, ◌==◌, string_eq, nat_eq, arith, length, ltb, if◌then◌else◌,
}
use text.Mathlib.TextLemmas.{nil-append, cons-append, append_assoc}
use tapis_workflows.Base.Dict.{Dict, lookup}
use tapis_workflows.Base.Split.{split, join, append-ne-nil}
use tapis_workflows.Value.{Value, none_value}

dot-append : (s : String) → "." <> s ≡ String.◌∷◌ "." s
dot-append s = cons-append "." "" s ∙ ap (λ t. String.◌∷◌ "." t) (nil-append s)

join-merge :
    (key p : String) (ps : List String)
    → join "." ((key <> ("." <> p)) ∷ ps) ≡ join "." (key ∷ (p ∷ ps))
unfolding join
join-merge key p [] = ap (λ t. key <> t) (dot-append p)
join-merge key p (q ∷ ps) =
    let rest = String.◌∷◌ "." (join "." (q ∷ ps)) in
    append_assoc key ("." <> p) rest
    ∙ ap (λ t. key <> t) (append_assoc "." p rest ∙ dot-append (p <> rest))

-- `request.meta.idempotency_key`
pub data KeySpec : Type 0 where
  as_text : String → KeySpec
  constraints : List String → KeySpec

-- What the resolution reads of a request: `objects` holds the attributes that are objects with their
-- properties, and `args` the values of the arguments.
pub record KeyRequest : Type 0 where
  pub pipeline_id : String
  pub idempotency_key : KeySpec
  pub objects : Dict String (Dict String Value)
  pub args : Dict String Value

pub data KeyError : Type 0 where
  -- `AttributeError`, which the resolution handles
  value_not_found : KeyError
  -- `ValueError` of `(obj, prop) = constraint.split(".")`, which it does not
  not_a_pair : KeyError

-- `getattr(..., None)` and `get(...)`: `None` where there is nothing
abbrev value_or_none : Option Value → Value
value_or_none none = none_value
value_or_none (some value) = value

unfoldable pub key_part : String → String → KeyRequest → Value
key_part obj prop request =
    if not (obj == "args")
    then (elim (lookup obj request.objects) [
      | none ↦ none_value
      | some properties ↦ value_or_none (lookup prop properties)
    ])
    else value_or_none (lookup prop request.args)

-- A part behind the key so far: only the first part, or one behind an empty key, has no delimiter.
abbrev add_part : String → String → String → String
add_part delimiter key part = if key == "" then part else key <> (delimiter <> part)

-- `part_delimiter`
unfoldable pub part_delimiter : ℕ → String
part_delimiter count = if ltb 1 count then "." else ""

many-delimiter : (n : ℕ) → part_delimiter (suc (suc n)) ≡ "."
unfolding part_delimiter
many-delimiter n = ground arith

add_part-first : (delimiter part : String) → add_part delimiter "" part ≡ part
add_part-first delimiter part = ground arith

add_part-behind :
    (delimiter key part : String)
    → key ≢ ""
    → add_part delimiter key part ≡ key <> (delimiter <> part)
add_part-behind delimiter key part n = ground arith

-- `except (AttributeError, TypeError)`
abbrev or_default : String → Result KeyError String → Result KeyError String
or_default default (ok key) = ok key
or_default default (err value_not_found) = ok default
or_default default (err not_a_pair) = err not_a_pair

module _ (show : Value → String) where
  abbrev found : Value → Result KeyError String
  found none_value = err value_not_found
  found value = ok (show value)

  unfoldable pub resolve_part : KeyRequest → List String → Result KeyError String
  unfolding key_part
  resolve_part request (obj ∷ (prop ∷ [])) = found (key_part obj prop request)
  resolve_part request parts = err not_a_pair

  -- The loop over the constraints
  unfoldable pub resolve_parts : KeyRequest → String → List String → String → Result KeyError String
  unfolding resolve_part
  resolve_parts request delimiter [] key = ok key
  resolve_parts request delimiter (constraint ∷ rest) key = do
    part ← resolve_part request (split "." constraint)
    resolve_parts request delimiter rest (add_part delimiter key part)

  unfoldable pub resolve_spec : KeyRequest → KeySpec → Result KeyError String
  unfolding resolve_parts part_delimiter
  resolve_spec request (as_text key) = ok key
  resolve_spec request (constraints []) = ok request.pipeline_id
  resolve_spec request (constraints (c ∷ cs)) =
      or_default request.pipeline_id
        (resolve_parts request (part_delimiter (length (c ∷ cs))) (c ∷ cs) "")

  -- `_resolve_idempotency_key`
  unfoldable pub resolve_idempotency_key : KeyRequest → Result KeyError String
  unfolding resolve_spec
  resolve_idempotency_key request = resolve_spec request request.idempotency_key

  resolve_part-not_a_pair :
      (request : KeyRequest) (parts : List String)
      → length parts ≢ 2
      → resolve_part request parts ≡ err not_a_pair
  unfolding resolve_part
  resolve_part-not_a_pair request [] n = refl
  resolve_part-not_a_pair request (a ∷ []) n = refl
  resolve_part-not_a_pair request (a ∷ (b ∷ [])) n = absurd (n refl)
  resolve_part-not_a_pair request (a ∷ (b ∷ (c ∷ parts))) n = refl

  -- What the constraints stand for: texts that are not empty
  abbrev pub Yields : KeyRequest → List String → List String → Type 0
  Yields request [] [] = Unit
  Yields request (c ∷ cs) (p ∷ ps) =
      (resolve_part request (split "." c) ≡ ok p) × (p ≢ "") × Yields request cs ps
  Yields request _ _ = ⊥

  resolve_rest :
      (request : KeyRequest) (cs : List String) (key : String) (ps : List String)
      → key ≢ ""
      → Yields request cs ps
      → resolve_parts request "." cs key ≡ ok (join "." (key ∷ ps))
  unfolding resolve_parts join
  resolve_rest request [] key [] n y = refl
  resolve_rest request [] key (p ∷ ps) n y = absurd y
  resolve_rest request (c ∷ cs) key [] n y = absurd y
  resolve_rest request (c ∷ cs) key (p ∷ ps) n y =
      rw (y.0, add_part-behind "." key p n)
        (resolve_rest request cs (key <> ("." <> p)) ps (append-ne-nil key ("." <> p) n) y.2
          ∙ ap ok (join-merge key p ps))

  resolve_all :
      (request : KeyRequest) (c : String) (cs : List String) (p : String) (ps : List String)
      → Yields request (c ∷ cs) (p ∷ ps)
      → resolve_parts request "." (c ∷ cs) "" ≡ ok (join "." (p ∷ ps))
  unfolding resolve_parts
  resolve_all request c cs p ps y =
      rw (y.0, add_part-first "." p) (resolve_rest request cs p ps y.1 y.2)

  constraints_many :
      (request : KeyRequest) (c d : String) (cs : List String) (p : String) (ps : List String)
      → Yields request (c ∷ (d ∷ cs)) (p ∷ ps)
      → resolve_spec request (constraints (c ∷ (d ∷ cs))) ≡ ok (join "." (p ∷ ps))
  unfolding resolve_spec
  constraints_many request c d cs p ps y =
      ap
        (λ delimiter.
          or_default request.pipeline_id (resolve_parts request delimiter (c ∷ (d ∷ cs)) ""))
        (many-delimiter (length cs))
      ∙ ap (or_default request.pipeline_id) (resolve_all request c (d ∷ cs) p ps y)

  constraints_lem :
      (request : KeyRequest) (c : String) (cs : List String) (p : String) (ps : List String)
      → Yields request (c ∷ cs) (p ∷ ps)
      → resolve_spec request (constraints (c ∷ cs)) ≡ ok (join "." (p ∷ ps))
  unfolding resolve_spec resolve_parts join
  constraints_lem request c [] p [] y = rw (y.0, add_part-first "" p) refl
  constraints_lem request c [] p (q ∷ ps) y = absurd y.2
  constraints_lem request c (d ∷ cs) p ps y = constraints_many request c d cs p ps y

  -- If the meta data hold constraints, each of them a pair of names that stands for a text that is not
  -- empty, then the key is these texts in order with a dot between them.
  pub resolve_idempotency_key_lem :
      (request : KeyRequest) (c : String) (cs : List String) (p : String) (ps : List String)
      → request.idempotency_key ≡ constraints (c ∷ cs)
      → Yields request (c ∷ cs) (p ∷ ps)
      → resolve_idempotency_key request ≡ ok (join "." (p ∷ ps))
  unfolding resolve_idempotency_key resolve_spec
  resolve_idempotency_key_lem request c cs p ps e y =
      ap (resolve_spec request) e ∙ constraints_lem request c cs p ps y

  -- If the first constraint is not a pair of names, the resolution raises a `ValueError`: it does not
  -- fall back to the id of the pipeline.
  pub resolve_not_a_pair :
      (request : KeyRequest) (c : String) (cs : List String)
      → request.idempotency_key ≡ constraints (c ∷ cs)
      → length (split "." c) ≢ 2
      → resolve_idempotency_key request ≡ err not_a_pair
  unfolding resolve_idempotency_key resolve_spec resolve_parts
  resolve_not_a_pair request c cs e n =
      ap (resolve_spec request) e ∙ rw (resolve_part-not_a_pair request (split "." c) n) refl
