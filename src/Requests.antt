-- ===== src/Requests.antt =====
-- The authentication of a request: the API's views/RestrictedAPIView.py, services/TapisAPIGateway.py and
-- helpers/tapis.py. The library that validates a token, the configuration of the tenants and the JSON
-- decoder are parameters.
pub mod Users
use tapis_workflows.Base.{
  String, Bool, true, false, not, ◌||◌, Option, none, some, List, [], ◌∷◌, ◌==◌, contains,
  string_eq, if◌then◌else◌,
}

-- What a valid token says
pub record Claims : Type 0 where
  pub tenant_id : String
  pub username : String

-- The request of the framework, with its token header
pub record HttpRequest : Type 0 where
  pub method : String
  pub content_type : Option String
  pub body : String
  pub token : Option String

pub data Answer (J : Type 0) : Type 0 where
  -- the handler of the method is called, with the body if there is one
  handled : (username tenant_id : String) → Option J → Answer J
  no_content method_not_allowed unsupported_media_type bad_request unauthorized : Answer J
  -- an exception that `dispatch` does not catch
  uncaught : Answer J

abbrev pub permitted_http_methods : List String
permitted_http_methods = "GET" ∷ "POST" ∷ "PUT" ∷ "PATCH" ∷ "DELETE" ∷ "OPTIONS" ∷ []

abbrev pub permitted_services : List String
permitted_services =
    "workflows" ∷ "systems" ∷ "files" ∷ "apps" ∷ "jobs" ∷ "abaco" ∷ "pods" ∷ "meta"
    ∷ "authenticator" ∷ "tenants" ∷ "tokens" ∷ "notifications" ∷ "sk" ∷ "streams" ∷ []

unfoldable pub permitted_content_type : Option String → Bool
permitted_content_type none = true
permitted_content_type (some t) = t == "application/json" || t == ""

-- The text that is decoded: a request without a content type counts as one without a body.
unfoldable pub request_body : HttpRequest → String
request_body r = elim r.content_type [
  | none ↦ "{}"
  | some t ↦ if r.body == "" then "{}" else r.body
]

module _ {J : Type 0} (decode : String → Option J) (tenant : Option String)
    (validate : String → Option Claims) (validate_service : String → Option Claims) where
  -- `resolve_tapis_v3_token`: the tenant of the token is that of the request.
  unfoldable pub resolve_token : String → String → Option String
  resolve_token jwt tenant_id = elim (validate jwt) [
    | none ↦ none
    | some claims ↦ if claims.tenant_id == tenant_id then some claims.username else none
  ]

  -- The attempt as a service: the username of a gateway that did not authenticate is `None`, and `str`
  -- makes it the text "None".
  unfoldable pub as_service : String → String → Option J → Answer J
  as_service jwt tenant_id body = elim (validate_service jwt) [
    | none ↦ unauthorized
    | some claims ↦
        if contains permitted_services claims.username
        then handled claims.username tenant_id body
        else handled "None" tenant_id body
  ]

  -- From the authentication on
  unfoldable pub authenticate : String → String → Option J → Answer J
  unfolding resolve_token as_service
  authenticate jwt tenant_id body = elim (resolve_token jwt tenant_id) [
    | some username ↦ handled username tenant_id body
    | none ↦ as_service jwt tenant_id body
  ]

  unfoldable pub with_token : HttpRequest → Option J → Answer J
  unfolding authenticate
  with_token r body = elim r.token [
    | none ↦ bad_request
    | some jwt ↦ elim tenant [ none ↦ uncaught | some tenant_id ↦ authenticate jwt tenant_id body ]
  ]

  -- `dispatch`
  unfoldable pub dispatch : HttpRequest → Answer J
  unfolding permitted_content_type request_body with_token
  dispatch r =
      if not (contains permitted_http_methods r.method)
      then method_not_allowed
      else if r.method == "OPTIONS"
      then no_content
      else if r.method == "GET"
      then with_token r none
      else if not (permitted_content_type r.content_type)
      then unsupported_media_type
      else (elim (decode (request_body r)) [
        | none ↦ bad_request
        | some body ↦ with_token r (some body)
      ])
