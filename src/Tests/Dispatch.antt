-- ===== src/Tests/Dispatch.antt =====
-- A submission of the pipeline `nightly` of the group `lab`, from the API to the engine's key.
use tapis_workflows.Base.{
  ℕ, ◌≤◌, ◌<>◌, String, ◌≡◌, ◌≢◌, refl, false, true, Option, none, some, List, [], ◌∷◌, ok, err,
  arith, All, string_eq, count, nat_eq, length, map, contains, ◌==◌,
}
use text.Mathlib.TextLemmas.{cons≢nil}
use tapis_workflows.Base.Dict.{keys, lookup}
use tapis_workflows.Base.Split.{split, join, occurs}
use tapis_workflows.Value.{Value, str}
use tapis_workflows.Schema.{is_id}
use tapis_workflows.Server.Keys.{
  KeyRequest, constraints, not_a_pair, resolve_idempotency_key, resolve_not_a_pair,
}
use tapis_workflows.Dispatch.{
  GroupModel, ExecutionProfile, PipelineModel, Submission, DispatchRequest, other, other_request,
  assemble, build,
}
use tapis_workflows.Dispatch.Directives.{
  DirectiveSet, supported_directives, written, parse_directives, parse_directives-written,
}
use tapis_workflows.Dispatch.Keys.{IsName, AreIds, received, dispatch_key, dispatch_key_distinct}

abbrev show : Value → String
show (str s) = s
show _ = "?"

abbrev lab : GroupModel
lab = record { id = "lab"; tenant_id = "tacc" }

abbrev profile : ExecutionProfile
profile = record {
  max_exec_time = 3600;
  duplicate_submission_policy = "terminate";
  max_retries = 0;
  invocation_mode = "async";
  retry_policy = "exponential_backoff";
}

abbrev nightly : PipelineModel
nightly = record {
  id = "nightly";
  owner = "ann";
  tasks = other "build" ∷ [];
  archives = [];
  env = [];
  profile = profile;
}

abbrev plain_submission : Submission
plain_submission = record {
  base_url = "https://tacc";
  name = none;
  description = none;
  commit = none;
  directives = none;
  args = [];
}

abbrev no_secrets : ℕ → Option String
no_secrets key = none

abbrev no_parse : String → Option DirectiveSet
no_parse text = none

abbrev sent : DispatchRequest String
unfolding assemble
sent =
    assemble no_parse (str "token") lab nightly "u1" plain_submission (other_request "build" ∷ [])

built_nightly : build no_secrets no_parse (str "token") lab nightly "u1" plain_submission ≡ ok sent
unfolding build sent
built_nightly = refl

lab_named : lab.id ≢ ""
lab_named e = cons≢nil {x = "l"} {xs = "ab"} e

nightly_named : nightly.id ≢ ""
nightly_named e = cons≢nil {x = "n"} {xs = "ightly"} e

tacc_named : lab.tenant_id ≢ ""
tacc_named e = cons≢nil {x = "t"} {xs = "acc"} e

dispatch_key_example :
    (lookup "tapis_tenant_id" plain_submission.args ≡ none
      → lab.tenant_id ≢ ""
      → resolve_idempotency_key show (received sent)
        ≡ ok (join "." ("lab" ∷ "tacc" ∷ "nightly" ∷ [])))
    × ((tenant : String)
        → count "tapis_tenant_id" (keys plain_submission.args) ≤ 1
        → lookup "tapis_tenant_id" plain_submission.args ≡ some (str tenant)
        → tenant ≢ ""
        → resolve_idempotency_key show (received sent)
          ≡ ok (join "." ("lab" ∷ tenant ∷ "nightly" ∷ [])))
dispatch_key_example =
    dispatch_key no_secrets no_parse (str "token") show (λ s. refl) lab nightly "u1"
      plain_submission sent built_nightly lab_named nightly_named

lab_id : is_id lab.id ≡ true
unfolding is_id nat_eq
lab_id = refl

tacc_plain : occurs "." "tacc" ≡ false
unfolding nat_eq
tacc_plain = refl

nightly_id : is_id nightly.id ≡ true
unfolding is_id nat_eq
nightly_id = refl

dispatch_key_distinct_example :
    (lab.id ≡ lab.id) × (lab.tenant_id ≡ lab.tenant_id) × (nightly.id ≡ nightly.id)
dispatch_key_distinct_example =
    let tenants : All IsName (lab.tenant_id ∷ lab.tenant_id ∷ []) =
      ((tacc_named, tacc_plain), ((tacc_named, tacc_plain), tt)) in
    let ids : AreIds (lab.id ∷ nightly.id ∷ lab.id ∷ nightly.id ∷ []) =
      (lab_id, (nightly_id, (lab_id, (nightly_id, tt)))) in
    dispatch_key_distinct no_secrets no_parse (str "token") show (λ s. refl) lab lab nightly nightly
      "u1" "u1" plain_submission plain_submission sent sent built_nightly built_nightly ids tenants
      refl refl refl

abbrev odd_request : KeyRequest
odd_request = record {
  pipeline_id = "nightly";
  idempotency_key = constraints ("group" ∷ []);
  objects = [];
  args = [];
}

one_part : length (split "." "group") ≡ 1
unfolding split nat_eq
one_part = refl

resolve_not_a_pair_example : resolve_idempotency_key show odd_request ≡ err not_a_pair
resolve_not_a_pair_example =
    resolve_not_a_pair show odd_request "group" [] refl (λ e. omega (arith, e, one_part))

abbrev identity : String → String
identity s = s

abbrev in_brackets : String → List String
in_brackets text = "CACHE|CUSTOM_TAG:v1" ∷ []

abbrev cache : DirectiveSet
cache = ("CACHE", none) ∷ ("CUSTOM_TAG", some "v1") ∷ []

cache_found :
    in_brackets ("[" <> (join "|" (map written cache) <> "]")) ≡ join "|" (map written cache) ∷ []
unfolding join
cache_found = refl

differ : (◌==◌ {A = String} "CACHE" "CUSTOM_TAG") ≡ false
unfolding string_eq
differ = refl

cache_distinct : (a : String) → count a (keys cache) ≤ 1
cache_distinct a = ground (arith, differ)

plain : (occurs ":" "CACHE" ≡ false) × (occurs "|" "CACHE" ≡ false)
unfolding nat_eq
plain = (refl, refl)

supported : contains supported_directives "CACHE" ≡ true
unfolding string_eq
supported = refl

tag_plain : (occurs ":" "CUSTOM_TAG" ≡ false) × (occurs "|" "CUSTOM_TAG" ≡ false)
unfolding nat_eq
tag_plain = (refl, refl)

tag_supported : contains supported_directives "CUSTOM_TAG" ≡ true
unfolding string_eq
tag_supported = refl

v1_plain : (occurs ":" "v1" ≡ false) × (occurs "|" "v1" ≡ false)
unfolding nat_eq
v1_plain = (refl, refl)

parse_directives-written_example :
    parse_directives identity in_brackets ("[" <> (join "|" (map written cache) <> "]"))
    ≡ some cache
parse_directives-written_example =
    parse_directives-written identity in_brackets ("CACHE", none) (("CUSTOM_TAG", some "v1") ∷ [])
      ((refl, supported, plain, tt), ((refl, tag_supported, tag_plain, v1_plain), tt))
      cache_distinct cache_found
