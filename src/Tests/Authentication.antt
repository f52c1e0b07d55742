-- ===== src/Tests/Authentication.antt =====
-- Requests with the tokens of a user and of services.
use tapis_workflows.Base.{
  ℕ, String, ◌≡◌, ◌≢◌, ◌⊎◌, refl, true, false, Option, none, some, ◌==◌, contains, string_eq,
  if◌then◌else◌,
}
use tapis_workflows.Requests.{
  Claims, HttpRequest, handled, permitted_http_methods, permitted_services, permitted_content_type,
  request_body, dispatch,
}
use tapis_workflows.Requests.Users.{IsAuthentic, dispatch-handled, valid_token_handled}

-- The only body that decodes is the empty one.
abbrev decode : String → Option ℕ
decode text = if text == "{}" then some 0 else none

-- Both clients validate the token of a service of another tenant.
abbrev users : String → Option Claims
users jwt =
    if jwt == "ada-token"
    then some (record { tenant_id = "dev"; username = "ada" })
    else if jwt == "other-token"
    then some (record { tenant_id = "admin"; username = "other" })
    else none

abbrev services : String → Option Claims
services jwt =
    if jwt == "other-token" then some (record { tenant_id = "admin"; username = "other" }) else none

abbrev post : HttpRequest
post = record {
  method = "POST";
  content_type = some "application/json";
  body = "";
  token = some "ada-token";
}

post_handled : dispatch decode (some "dev") users services post ≡ handled "ada" "dev" (some 0)
unfolding dispatch string_eq
post_handled = refl

dispatch-handled_example :
    IsAuthentic decode (some "dev") users services post "ada" "dev"
    × (contains permitted_http_methods post.method ≡ true)
    × ((post.method == "OPTIONS") ≡ false)
    × (((post.method ≡ "GET") × (◌≡◌ {A = Option ℕ} (some 0) none))
        ⊎ ((permitted_content_type post.content_type ≡ true)
            × (decode (request_body post) ≡ some 0)))
dispatch-handled_example =
    dispatch-handled decode (some "dev") users services post "ada" "dev" (some 0) post_handled

abbrev get : HttpRequest
get = record { method = "GET"; content_type = none; body = ""; token = some "other-token" }

abbrev other : Claims
other = record { tenant_id = "admin"; username = "other" }

other_user : users "other-token" ≡ some other
unfolding string_eq
other_user = refl

a_service : services "other-token" ≡ some other
unfolding string_eq
a_service = refl

valid_token_handled_example :
    (username : String) × (dispatch decode (some "dev") users services get
      ≡ handled username "dev" none)
    × (((other.tenant_id ≡ "dev") × (username ≡ other.username))
        ⊎ ((other.tenant_id ≢ "dev")
            × (contains permitted_services other.username ≡ true)
            × (username ≡ other.username))
        ⊎ ((other.tenant_id ≢ "dev")
            × (contains permitted_services other.username ≡ false)
            × (username ≡ "None")))
valid_token_handled_example =
    valid_token_handled decode (some "dev") users services get "other-token" "dev" other refl refl
      refl other_user a_service
