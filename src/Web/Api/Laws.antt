-- ===== src/Web/Api/Laws.antt =====
-- When the API answers with a value.
use configcat_proxy.Base.{
  Option-cases, ok, err, Result-cases, ℕ, ◌≤◌, String, ◌≡◌, refl, ◌↔◌, ◌⊎◌, inl, inr, Option, none,
  some, [], ◌∷◌, arith, string_eq,
}
use configcat_proxy.Model.{key_not_found, other_error, payload_from_eval_data}
use configcat_proxy.Sdk.{Client, Registrar}
use configcat_proxy.Web.{Request, set_header, write, status_code}
use configcat_proxy.Web.Lookup.Laws.{LeadsTo, api_sdk_client_iff}
use configcat_proxy.Web.Lookup.{sdk_key_header, Failure, check_client, api_sdk_client}
use configcat_proxy.Web.Api.{EvalRequest, Json, answer, parse_request, eval_with, api_eval}

-- An error is answered by its status, which is one of an error.
abbrev pub IsFailure : Failure → Type 0
IsFailure (message, code) = 400 ≤ code

check_client-IsFailure :
    (missing : ℕ) (c : Option Client) (failure : Failure)
    → 400 ≤ missing
    → check_client missing c ≡ err failure
    → IsFailure failure
unfolding check_client
check_client-IsFailure missing none failure h e = ground (arith, e)
check_client-IsFailure missing (some c) failure h e = ground (arith, e)

module _ (json : Json) (registrar : Registrar) (r : Request) where
  api_sdk_client-IsFailure :
      (failure : Failure) → api_sdk_client registrar r ≡ err failure → IsFailure failure
  unfolding api_sdk_client
  api_sdk_client-IsFailure failure e = ground (
    arith,
    check_client-IsFailure 404 (registrar.get_sdk_by_key_or_nil (r.header sdk_key_header)) failure,
    check_client-IsFailure 404 (registrar.get_sdk_or_nil (r.path_value "sdkId")) failure,
  )

  pub parse_request-IsFailure :
      (failure : Failure) → parse_request json registrar r ≡ err failure → IsFailure failure
  unfolding parse_request
  parse_request-IsFailure failure e = ground (arith, api_sdk_client-IsFailure failure)

  -- The request is parsed, the flag is evaluated without an error, and the payload can be printed.
  abbrev IsEvaluated : EvalRequest → Client → String → Type 0
  IsEvaluated eval_req c printed =
      ((c.eval eval_req.key eval_req.user).error ≡ none)
      × (json.marshal_payload (payload_from_eval_data (c.eval eval_req.key eval_req.user))
          ≡ ok printed)

  -- The body is readable JSON, the request leads to a client in a valid state, and so on.
  pub record IsAnswered (printed : String) : Type 0 where
    pub body : String
    pub eval_req : EvalRequest
    pub c : Client
    pub readable : r.body ≡ ok body
    pub parsed : json.unmarshal_request body ≡ ok eval_req
    pub found : LeadsTo registrar r c
    pub evaluated : IsEvaluated eval_req c printed

  parsed-api_eval :
      (eval_req : EvalRequest) (c : Client) (printed : String)
      → parse_request json registrar r ≡ ok (eval_req, c)
      → IsEvaluated eval_req c printed
      → api_eval json registrar r
        ≡ set_header "Content-Type" "application/json" ∷ write printed ∷ []
  unfolding api_eval eval_with answer
  parsed-api_eval eval_req c printed at (clean, shown) = ground (arith, at, clean, shown)

  IsAnswered-api_eval :
      (printed : String)
      → IsAnswered printed
      → api_eval json registrar r
        ≡ set_header "Content-Type" "application/json" ∷ write printed ∷ []
  unfolding parse_request
  IsAnswered-api_eval printed h =
      let at : api_sdk_client registrar r ≡ ok h.c =
        (api_sdk_client_iff registrar r h.c).1 h.found in
      parsed-api_eval h.eval_req h.c printed (ground (arith, h.readable, h.parsed, at)) h.evaluated

  parse_request-ok :
      (eval_req : EvalRequest) (c : Client)
      → parse_request json registrar r ≡ ok (eval_req, c)
      → (body : String) × (r.body ≡ ok body)
        × (json.unmarshal_request body ≡ ok eval_req)
        × LeadsTo registrar r c
  unfolding parse_request
  parse_request-ok eval_req c at = elim (Result-cases r.body) [
    | inl (e, bad) ↦ absurd (ground (arith, at, bad))
    | inr (body, readable) ↦ elim (Result-cases (json.unmarshal_request body)) [
      | inl (e, bad) ↦ absurd (ground (arith, at, readable, bad))
      | inr (req, parsed) ↦ elim (Result-cases (api_sdk_client registrar r)) [
        | inl (e, bad) ↦ absurd (ground (arith, at, readable, parsed, bad))
        | inr (client, found) ↦
            let same_req : req ≡ eval_req = ground (arith, at, readable, parsed, found) in
            let same : client ≡ c = ground (arith, at, readable, parsed, found) in
            (
              body,
              readable,
              rw (← same_req) parsed,
              (api_sdk_client_iff registrar r c).0 (rw (← same) found),
            )
      ]
    ]
  ]

  -- What `Eval` answers: it is answered 200, or with an error that the request deserves.
  parsed-IsAnswered :
      (eval_req : EvalRequest) (c : Client)
      → parse_request json registrar r ≡ ok (eval_req, c)
      → ((printed : String) × IsAnswered printed)
        ⊎ ((status_code (api_eval json registrar r) ≡ 400)
            ⊎ (status_code (api_eval json registrar r) ≡ 500))
  unfolding api_eval status_code eval_with answer
  parsed-IsAnswered eval_req c at =
      let eval = c.eval eval_req.key eval_req.user in
      elim (Option-cases eval.error) [
        | inl clean ↦ elim (Result-cases (json.marshal_payload (payload_from_eval_data eval))) [
          | inl (e, bad) ↦ inr (inr (ground (arith, at, clean, bad)))
          | inr (printed, shown) ↦
              let (body, readable, parsed, found) = parse_request-ok eval_req c at in
              inl (
                printed,
                record {
                  body = body;
                  eval_req = eval_req;
                  c = c;
                  readable = readable;
                  parsed = parsed;
                  found = found;
                  evaluated = (clean, shown);
                },
              )
        ]
        | inr (key_not_found, failed) ↦ inr (inl (ground (arith, at, failed)))
        | inr (other_error e, failed) ↦ inr (inr (ground (arith, at, failed)))
      ]

  -- `Eval` answers 200 exactly when the body is readable JSON, the SDK id of the path or, without
  -- one, the SDK key of the header names a client in a valid state, the evaluation of the flag for
  -- the user has no error and its payload can be printed; the answer is then the printed payload.
  -- Every other request is answered with a status of 400 or more.
  pub status_code-api_eval :
      ((status_code (api_eval json registrar r) ≡ 200) ↔ ((printed : String) × IsAnswered printed))
      × ((printed : String)
          → IsAnswered printed
          → api_eval json registrar r
            ≡ set_header "Content-Type" "application/json" ∷ write printed ∷ [])
      × ((status_code (api_eval json registrar r) ≡ 200)
          ⊎ (400 ≤ status_code (api_eval json registrar r)))
  unfolding api_eval status_code
  status_code-api_eval =
      let back : ((printed : String) × IsAnswered printed)
          → status_code (api_eval json registrar r) ≡ 200 =
        λ p. rw (IsAnswered-api_eval p.0 p.1) refl in
      elim (Result-cases (parse_request json registrar r)) [
        | inl ((message, code), e) ↦
            let high : 400 ≤ code = parse_request-IsFailure (message, code) e in
            (
              (λ h. absurd (ground (arith, e, high, h)), back),
              IsAnswered-api_eval,
              inr (ground (arith, e, high)),
            )
        | inr ((eval_req, c), e) ↦ elim (parsed-IsAnswered eval_req c e) [
          | inl answered ↦ ((λ h. answered, back), IsAnswered-api_eval, inl (back answered))
          | inr (inl bad) ↦ (
            (λ h. absurd (omega (arith, h, bad)), back),
            IsAnswered-api_eval,
            inr (omega (arith, bad)),
          )
          | inr (inr bad) ↦ (
            (λ h. absurd (omega (arith, h, bad)), back),
            IsAnswered-api_eval,
            inr (omega (arith, bad)),
          )
        ]
      ]
