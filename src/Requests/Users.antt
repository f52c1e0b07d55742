-- ===== src/Requests/Users.antt =====
-- In whose name a request is handled.
use tapis_workflows.Base.{
  String, ◌≡◌, ◌≢◌, ◌⊎◌, inl, inr, refl, sym, ap, ◌∙◌, true, false, Option, none, some, arith, ◌==◌,
  contains, string_eq, Bool-cases, Option-cases,
}
use tapis_workflows.Requests.{
  Claims, HttpRequest, Answer, handled, no_content, method_not_allowed, unsupported_media_type,
  bad_request, unauthorized, uncaught, permitted_http_methods, permitted_services,
  permitted_content_type, request_body, resolve_token, as_service, authenticate, with_token,
  dispatch,
}

module _ {J : Type 0} {u t : String} {b : Option J} where
  unauthorized≢handled : ◌≡◌ {A = Answer J} unauthorized (handled u t b) → ⊥
  unauthorized≢handled e = cc

  bad_request≢handled : ◌≡◌ {A = Answer J} bad_request (handled u t b) → ⊥
  bad_request≢handled e = cc

  uncaught≢handled : ◌≡◌ {A = Answer J} uncaught (handled u t b) → ⊥
  uncaught≢handled e = cc

  method_not_allowed≢handled : ◌≡◌ {A = Answer J} method_not_allowed (handled u t b) → ⊥
  method_not_allowed≢handled e = cc

  no_content≢handled : ◌≡◌ {A = Answer J} no_content (handled u t b) → ⊥
  no_content≢handled e = cc

  unsupported≢handled : ◌≡◌ {A = Answer J} unsupported_media_type (handled u t b) → ⊥
  unsupported≢handled e = cc

module _ {J : Type 0} (decode : String → Option J) (tenant : Option String)
    (validate : String → Option Claims) (validate_service : String → Option Claims) where
  -- The name is that of the token of a user of the tenant, or that of the token of a permitted service,
  -- or the text "None" for the token of another service.
  abbrev pub IsNamed : String → String → String → Type 0
  IsNamed jwt tenant_id username =
      ((c : Claims) × (validate jwt ≡ some c) × (c.tenant_id ≡ tenant_id) × (c.username ≡ username))
      ⊎ ((c : Claims) × (validate_service jwt ≡ some c)
          × (((contains permitted_services c.username ≡ true) × (c.username ≡ username))
              ⊎ ((contains permitted_services c.username ≡ false) × (username ≡ "None"))))

  handled-injective :
      {u v t s : String} {b d : Option J}
      → ◌≡◌ {A = Answer J} (handled u t b) (handled v s d)
      → (u ≡ v) × (t ≡ s) × (b ≡ d)
  handled-injective e = (cc, cc, cc)

  as_service-handled :
      (jwt tenant_id : String) (body : Option J) (username t : String) (b : Option J)
      → as_service decode tenant validate validate_service jwt tenant_id body ≡ handled username t b
      → (tenant_id ≡ t) × (body ≡ b) × IsNamed jwt tenant_id username
  unfolding as_service
  as_service-handled jwt tenant_id body username t b e =
      elim (Option-cases (validate_service jwt)) [
        | inl invalid ↦ absurd (unauthorized≢handled (rw (as_service, invalid) at e))
        | inr (c, valid) ↦ elim (Bool-cases (contains permitted_services c.username)) [
          | inl permitted ↦
              let h = handled-injective (rw (as_service, valid, permitted) at e) in
              (h.1, h.2, inr (c, valid, inl (permitted, h.0)))
          | inr other ↦
              let h = handled-injective (rw (as_service, valid, other) at e) in
              (h.1, h.2, inr (c, valid, inr (other, sym h.0)))
        ]
      ]

  authenticate-handled :
      (jwt tenant_id : String) (body : Option J) (username t : String) (b : Option J)
      → authenticate decode tenant validate validate_service jwt tenant_id body
        ≡ handled username t b
      → (tenant_id ≡ t) × (body ≡ b) × IsNamed jwt tenant_id username
  unfolding authenticate resolve_token
  authenticate-handled jwt tenant_id body username t b e = elim (Option-cases (validate jwt)) [
    | inr (c, valid) ↦ elim (Bool-cases (c.tenant_id == tenant_id)) [
      | inl same ↦
          let h = handled-injective (rw (authenticate, resolve_token, valid, same) at e) in
          (h.1, h.2, inl (c, valid, ground arith, h.0))
      | inr other ↦
          as_service-handled jwt tenant_id body username t b
            (rw (authenticate, resolve_token, valid, other) at e)
    ]
    | inl invalid ↦
        as_service-handled jwt tenant_id body username t b
          (rw (authenticate, resolve_token, invalid) at e)
  ]

  -- What a handler may rely on
  abbrev pub IsAuthentic : HttpRequest → String → String → Type 0
  IsAuthentic r username t =
      (tenant ≡ some t) × ((jwt : String) × (r.token ≡ some jwt) × IsNamed jwt t username)

  with_token-handled :
      (r : HttpRequest) (body : Option J) (username t : String) (b : Option J)
      → with_token decode tenant validate validate_service r body ≡ handled username t b
      → (body ≡ b) × IsAuthentic r username t
  unfolding with_token
  with_token-handled r body username t b e = elim (Option-cases r.token) [
    | inl missing ↦ absurd (bad_request≢handled (rw (with_token, missing) at e))
    | inr (jwt, given) ↦ elim (Option-cases tenant) [
      | inl unknown ↦ absurd (uncaught≢handled (rw (with_token, given, unknown) at e))
      | inr (tenant_id, known) ↦
          let (same, kept, named) =
            authenticate-handled jwt tenant_id body username t b
              (rw (with_token, given, known) at e) in
          (kept, (known ∙ ap some same, (jwt, given, rw (sym same) named)))
    ]
  ]

  -- A handler is called only with the tenant of the host of the request, and with a name that the token of
  -- the request gives: that of a user of that tenant, that of a permitted service, or the text "None" for
  -- the token of any other service. It is called for a permitted method other than OPTIONS; with no body for GET, and for the other methods
  -- with the decoded text of a body of a permitted type.
  pub dispatch-handled :
      (r : HttpRequest) (username t : String) (b : Option J)
      → dispatch decode tenant validate validate_service r ≡ handled username t b
      → IsAuthentic r username t
        × (contains permitted_http_methods r.method ≡ true)
        × ((r.method == "OPTIONS") ≡ false)
        × (((r.method ≡ "GET") × (b ≡ none))
            ⊎ ((permitted_content_type r.content_type ≡ true) × (decode (request_body r) ≡ b)))
  unfolding dispatch
  dispatch-handled r username t b e = elim (Bool-cases (contains permitted_http_methods r.method)) [
    | inr no_ ↦ absurd (method_not_allowed≢handled (rw (dispatch, no_) at e))
    | inl known ↦ elim (Bool-cases (r.method == "OPTIONS")) [
      | inl options ↦ absurd (no_content≢handled (rw (dispatch, known, options) at e))
      | inr other ↦ elim (Bool-cases (r.method == "GET")) [
        | inl get ↦
            let (kept, h) =
              with_token-handled r none username t b (rw (dispatch, known, other, get) at e) in
            (h, known, other, inl (ground arith, sym kept))
        | inr no_get ↦ elim (Bool-cases (permitted_content_type r.content_type)) [
          | inr type_ ↦
              absurd (unsupported≢handled (rw (dispatch, known, other, no_get, type_) at e))
          | inl type_ ↦ elim (Option-cases (decode (request_body r))) [
            | inl invalid ↦
                absurd
                  (bad_request≢handled (rw (dispatch, known, other, no_get, type_, invalid) at e))
            | inr (body, decoded) ↦
                let (kept, h) =
                  with_token-handled r (some body) username t b
                    (rw (dispatch, known, other, no_get, type_, decoded) at e) in
                (h, known, other, inr (type_, decoded ∙ kept))
          ]
        ]
      ]
    ]
  ]

  -- The names in which a valid token is handled
  abbrev NamedBy : Claims → String → String → Type 0
  NamedBy c tenant_id username =
      ((c.tenant_id ≡ tenant_id) × (username ≡ c.username))
      ⊎ ((c.tenant_id ≢ tenant_id)
          × (contains permitted_services c.username ≡ true)
          × (username ≡ c.username))
      ⊎ ((c.tenant_id ≢ tenant_id)
          × (contains permitted_services c.username ≡ false)
          × (username ≡ "None"))

  authenticate_valid :
      (jwt tenant_id : String) (c : Claims)
      → validate jwt ≡ some c
      → validate_service jwt ≡ some c
      → (username : String) × (authenticate decode tenant validate validate_service jwt tenant_id
            none
          ≡ handled username tenant_id none)
        × NamedBy c tenant_id username
  unfolding authenticate resolve_token as_service
  authenticate_valid jwt tenant_id c user valid = elim (Bool-cases (c.tenant_id == tenant_id)) [
    | inl same ↦
        (c.username, rw (authenticate, resolve_token, user, same) refl, inl (ground arith, refl))
    | inr differ ↦
        let apart : c.tenant_id ≢ tenant_id = λ h. ground (arith, differ, h) in
        elim (Bool-cases (contains permitted_services c.username)) [
          | inl permitted ↦ (
            c.username,
            rw (authenticate, resolve_token, user, differ, as_service, valid, permitted) refl,
            inr (inl (apart, permitted, refl)),
          )
          | inr other ↦ (
            "None",
            rw (authenticate, resolve_token, user, differ, as_service, valid, other) refl,
            inr (inr (apart, other, refl)),
          )
        ]
  ]

  get_dispatch :
      (r : HttpRequest) (jwt tenant_id : String) (answer : Answer J)
      → r.method ≡ "GET"
      → r.token ≡ some jwt
      → tenant ≡ some tenant_id
      → authenticate decode tenant validate validate_service jwt tenant_id none ≡ answer
      → dispatch decode tenant validate validate_service r ≡ answer
  unfolding dispatch with_token string_eq
  get_dispatch r jwt tenant_id answer method given known answered =
      rw (dispatch, with_token, method, given, known)
        (ap
            (λ (t : Option String).
              authenticate decode t validate validate_service jwt tenant_id none)
            (sym known)
          ∙ answered)

  -- No valid token is refused: a request by GET for a known tenant, whose token both clients validate with
  -- the same claims, is handled. It is handled in the name that the token gives if the token is one of
  -- that tenant; and the valid token of another tenant is handled too, in its name if that is the name
  -- of a permitted service, and otherwise in the name "None".
  pub valid_token_handled :
      (r : HttpRequest) (jwt tenant_id : String) (c : Claims)
      → r.method ≡ "GET"
      → r.token ≡ some jwt
      → tenant ≡ some tenant_id
      → validate jwt ≡ some c
      → validate_service jwt ≡ some c
      → (username : String) × (dispatch decode tenant validate validate_service r
          ≡ handled username tenant_id none)
        × (((c.tenant_id ≡ tenant_id) × (username ≡ c.username))
            ⊎ ((c.tenant_id ≢ tenant_id)
                × (contains permitted_services c.username ≡ true)
                × (username ≡ c.username))
            ⊎ ((c.tenant_id ≢ tenant_id)
                × (contains permitted_services c.username ≡ false)
                × (username ≡ "None")))
  valid_token_handled r jwt tenant_id c method given known user valid =
      let (username, answered, named) = authenticate_valid jwt tenant_id c user valid in
      (username, get_dispatch r jwt tenant_id _ method given known answered, named)
