-- ===== src/Grpc/Agreement.antt =====
-- The gRPC service and the API give the same answers.
use configcat_proxy.Model.{
  UserAttrs, key_not_found, other_error, ResponsePayload, payload_from_eval_data,
}
use configcat_proxy.Base.{
  ◌==◌, if◌then◌else◌, Bool-cases, Option-cases, ok, err, Result-cases, ℕ, String, ◌<>◌, ◌≡◌, refl,
  ◌∙◌, ◌⊎◌, inl, inr, true, false, not, Option, none, some, [], ◌∷◌, arith, string_eq,
}
use configcat_proxy.Sdk.{Client, Registrar}
use configcat_proxy.Web.{Request, set_header, write, error, status_code}
use configcat_proxy.Web.Lookup.{check_client, api_sdk_client}
use configcat_proxy.Web.Api.{EvalRequest, Json, answer, parse_request, eval_with, api_eval}
use configcat_proxy.Grpc.{
  Code, invalid_argument, not_found, unknown, internal, aborted, status_error, ProtoEvalRequest,
  to_payload, identify_target, get_user_attrs, find_client, valid_client, parse_eval_request,
  eval_flag,
}

-- The two requests ask for the same flag of the same SDK, for the same user.
pub record AskSame (json : Json) (req : ProtoEvalRequest) (r : Request) : Type 0 where
  pub no_target_set : req.target ≡ none
  pub same_id : req.sdk_id ≡ r.path_value "sdkId"
  pub id_set : (req.sdk_id == "") ≡ false
  pub key_set : (req.key == "") ≡ false
  pub body : String
  pub readable : r.body ≡ ok body
  pub eval_req : EvalRequest
  pub parsed : json.unmarshal_request body ≡ ok eval_req
  pub same_key : eval_req.key ≡ req.key
  pub same_user : eval_req.user ≡ get_user_attrs req.user

-- The status of the API for an error of the gRPC service.
abbrev pub http_status : Code → ℕ
http_status invalid_argument = 404
http_status not_found = 400
http_status unknown = 500
http_status internal = 500
http_status aborted = 500

-- Why a flag is refused, if it is: there is no client, the client is in an invalid state, it does
-- not know the flag, or the evaluation failed.
abbrev pub refusal : Option Client → String → UserAttrs → Option Code
refusal none key user = some invalid_argument
refusal (some c) key user =
    if not c.is_in_valid_state then some internal else elim (c.eval key user).error [
      | none ↦ none
      | some key_not_found ↦ some not_found
      | some (other_error e) ↦ some unknown
    ]

module _ (json : Json) (registrar : Registrar) (req : ProtoEvalRequest) (r : Request) where
  -- What `json.Marshal` makes of the payload is the answer of the API.
  abbrev pub IsPrinted : ResponsePayload → Type 0
  IsPrinted p =
      ((printed : String) × (json.marshal_payload p ≡ ok printed)
        × (api_eval json registrar r
            ≡ set_header "Content-Type" "application/json" ∷ write printed ∷ []))
      ⊎ ((e : String) × (json.marshal_payload p ≡ err e)
          × (api_eval json registrar r ≡ error e 500 ∷ []))

  -- Both answer with the payload of the evaluation, or both with the error for the same reason.
  abbrev pub Agree : Type 0
  Agree =
      let found = registrar.get_sdk_or_nil req.sdk_id in
      let user = get_user_attrs req.user in
      ((c : Client) × (found ≡ some c)
        × (refusal found req.key user ≡ none)
        × (eval_flag registrar req ≡ ok (to_payload (payload_from_eval_data (c.eval req.key user))))
        × IsPrinted (payload_from_eval_data (c.eval req.key user)))
      ⊎ ((code : Code) × (message : String) × (refusal found req.key user ≡ some code)
          × (eval_flag registrar req ≡ err (status_error code message))
          × (status_code (api_eval json registrar r) ≡ http_status code))

  module _ (ask : AskSame json req r) where
    found_here :
        (found : Option Client)
        → registrar.get_sdk_or_nil req.sdk_id ≡ found
        → (parse_eval_request registrar req true ≡ (elim (valid_client registrar found) [
          | err e ↦ err e
          | ok c ↦ ok (c, get_user_attrs req.user)
        ]))
          × (parse_request json registrar r ≡ (elim (check_client 404 found) [
            | err failure ↦ err failure
            | ok c ↦ ok (ask.eval_req, c)
          ]))
    unfolding parse_eval_request identify_target find_client parse_request api_sdk_client
    found_here found at =
        let id_here : (r.path_value "sdkId" == "") ≡ false = rw (← ask.same_id) ask.id_set in
        let at_r : registrar.get_sdk_or_nil (r.path_value "sdkId") ≡ found =
          rw (← ask.same_id) at in
        (
          rw (ask.no_target_set, ask.id_set, ask.key_set, at) refl,
          ground (arith, ask.readable, ask.parsed, id_here, at_r),
        )

    IsPrinted-answer :
        (p : ResponsePayload)
        → api_eval json registrar r ≡ answer (json.marshal_payload p)
        → IsPrinted p
    unfolding answer
    IsPrinted-answer p same = elim (Result-cases (json.marshal_payload p)) [
      | inl (e, bad) ↦ inr (e, bad, ground (arith, same, bad))
      | inr (printed, good) ↦ inl (printed, good, ground (arith, same, good))
    ]

    found-Agree :
        (c : Client)
        → registrar.get_sdk_or_nil req.sdk_id ≡ some c
        → c.is_in_valid_state ≡ true
        → Agree
    unfolding eval_flag api_eval eval_with valid_client check_client status_code
    found-Agree c at valid =
        let value = c.eval req.key (get_user_attrs req.user) in
        let same_value : c.eval ask.eval_req.key ask.eval_req.user ≡ value =
          rw (ask.same_key, ask.same_user) refl in
        let (here, there) = found_here (some c) at in
        let mine : parse_eval_request registrar req true ≡ ok (c, get_user_attrs req.user) =
          here ∙ rw valid refl in
        let theirs : parse_request json registrar r ≡ ok (ask.eval_req, c) =
          there ∙ rw valid refl in
        elim (Option-cases value.error) [
          | inl clean ↦ inl (
            c,
            at,
            ground (arith, at, valid, clean),
            ground (arith, mine, clean),
            IsPrinted-answer (payload_from_eval_data value)
                (ground (arith, theirs, same_value, clean)),
          )
          | inr (key_not_found, failed) ↦ inr (
            not_found,
            "feature flag or setting with key '" <> (req.key <> "' not found"),
            ground (arith, at, valid, failed),
            ground (arith, mine, failed),
            ground (arith, theirs, same_value, failed),
          )
          | inr (other_error e, failed) ↦ inr (
            unknown,
            "the request failed; please check the logs for more details",
            ground (arith, at, valid, failed),
            ground (arith, mine, failed),
            ground (arith, theirs, same_value, failed),
          )
        ]

    -- For requests that ask for the same flag of the same SDK by its id, for the same user, the
    -- gRPC service and the API agree. Where the SDK has a client in a valid state whose evaluation
    -- has no error, both answer with the payload of that evaluation, which the API prints, or
    -- answers 500 for if it cannot be printed. Everywhere else both answer with an error, whose
    -- code and status are those of the same reason.
    pub eval_flag-api_eval : Agree
    unfolding eval_flag api_eval valid_client check_client status_code
    eval_flag-api_eval = elim (Option-cases (registrar.get_sdk_or_nil req.sdk_id)) [
      | inl gone ↦
          let (here, there) = found_here none gone in
          inr (
            invalid_argument,
            "could not identify a configured SDK",
            ground (arith, gone),
            ground (arith, here),
            ground (arith, there),
          )
      | inr (c, at) ↦ elim (Bool-cases c.is_in_valid_state) [
        | inl valid ↦ found-Agree c at valid
        | inr invalid ↦
            let (here, there) = found_here (some c) at in
            inr (
              internal,
              "requested SDK is in an invalid state; please check the logs for more details",
              ground (arith, at, invalid),
              ground (arith, here, invalid),
              ground (arith, there, invalid),
            )
      ]
    ]
