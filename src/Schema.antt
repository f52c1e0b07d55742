-- ===== src/Schema.antt =====
-- owe_python_sdk/schema.py: the validators of the requests. A `Refused` is the error of the request that
-- pydantic makes of a `ValueError` or a `TypeError`; other exceptions leave the validation.
pub mod Ids
use Prim.Native.Char.{Char, code}
use tapis_workflows.Base.{
  ℕ, suc, ◌<◌, String, Bool, true, false, not, ◌&&◌, ◌||◌, ◌≡◌, Option, none, some, List, [], ◌∷◌,
  map, Result, ok, err, ◌>>=◌, ◌==◌, contains, string_eq, nat_eq, ltb, if◌then◌else◌,
}
use tapis_workflows.Base.Dict.{Dict}

pub data Refused : Type 0 where
  value_error type_error : Refused
  -- an exception that is neither
  attribute_error : Refused

abbrev pub is_between : ℕ → ℕ → Char → Bool
is_between low high c = ltb low (suc (code c)) && ltb (code c) (suc high)

-- `[a-zA-Z0-9]`, and `[a-zA-Z0-9\-_]`
abbrev pub is_alphanumeric : Char → Bool
is_alphanumeric c = is_between 97 122 c || is_between 65 90 c || is_between 48 57 c

abbrev pub is_id_char : Char → Bool
is_id_char c = is_alphanumeric c || code c == 45 || code c == 95

abbrev pub all_chars : (Char → Bool) → String → Bool
all_chars p String.[] = true
all_chars p (String.◌∷◌ c s) = p c && all_chars p s

-- `_id_regex`: `^[a-zA-Z0-9]+[a-zA-Z0-9\-_]*$`
unfoldable pub is_id : String → Bool
is_id String.[] = false
is_id (String.◌∷◌ c s) = is_alphanumeric c && all_chars is_id_char s

pub data Input : Type 0 where
  text : String → Input
  number : ℕ → Input
  other : Input

-- `ID.validate`: a number passes the test of the type, and `fullmatch` refuses it.
unfoldable pub validate_id : Input → Result Refused String
unfolding is_id
validate_id (text v) = if is_id v then ok v else err value_error
validate_id (number n) = err type_error
validate_id other = err type_error

-- What a request holds at a key: a text, a dict, or another value
pub data Entry : Type 0 where
  string_entry dict_entry other_entry : Entry

-- The value of `value_from`: not set, a dict whose keys are texts, or something else
pub data ValueFromInput : Type 0 where
  not_set : ValueFromInput
  dict : Dict String Entry → ValueFromInput
  not_dict : ValueFromInput

abbrev pub is_source : String → Entry → Bool
is_source key string_entry = contains ("env" ∷ "args" ∷ []) key
is_source key dict_entry = contains ("task_output" ∷ "secret" ∷ "host" ∷ []) key
is_source key other_entry = false

abbrev pub has_source : Dict String Entry → Bool
has_source [] = false
has_source ((key, entry) ∷ entries) = is_source key entry || has_source entries

-- `value_from_type_validation`
unfoldable pub validate_value_from : ValueFromInput → Result {0, 0} Refused Unit
validate_value_from not_set = ok tt
validate_value_from (dict entries) = if has_source entries then ok tt else err type_error
validate_value_from not_dict = err type_error

-- `value_or_value_from`, of a value and of a source that may be set
unfoldable pub value_or_value_from : Bool → Bool → Bool → Result {0, 0} Refused Unit
value_or_value_from has_value has_value_from required =
    if not has_value && not has_value_from && required then err value_error else ok tt

-- An image build task: the context, and the type of the destination
pub record BuildContext : Type 0 where
  pub is_dockerhub : Bool
  pub is_private : Bool
  pub has_identity : Bool
  pub has_credentials : Bool

-- `validate_image_build`: `is_local` of the destination, which may be missing
unfoldable pub validate_image_build :
    BuildContext → String → Option Bool → Result {0, 0} Refused Unit
validate_image_build context builder destination =
    if context.is_dockerhub && not (builder == "singularity")
    then err value_error
    else if context.is_dockerhub
    then (elim destination [
      | none ↦ err attribute_error
      | some is_local ↦ if not is_local then err value_error else ok tt
    ])
    else ok tt

-- `validate_ctx_authn`
unfoldable pub validate_ctx_authn : BuildContext → Result {0, 0} Refused Unit
validate_ctx_authn context =
    if context.is_private && (not context.has_identity && not context.has_credentials)
    then err value_error
    else ok tt

-- `code_or_entrypoint` of a function task
unfoldable pub code_or_entrypoint : Bool → Bool → Result {0, 0} Refused Unit
code_or_entrypoint has_code has_entrypoint =
    if not has_code && not has_entrypoint then err value_error else ok tt
