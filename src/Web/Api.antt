-- ===== src/Web/Api.antt =====
-- web/api/api.go: the handlers of the API.
pub mod Laws
mod Tests
use configcat_proxy.Base.{Result, ok, err, String, ◌<>◌, none, some, List, [], ◌∷◌, string_eq}
use configcat_proxy.Base.Dict.{Dict, insert}
use configcat_proxy.Model.{
  UserAttrs, key_not_found, other_error, EvalData, ResponsePayload, payload_from_eval_data,
}
use configcat_proxy.Sdk.{Client, Registrar}
use configcat_proxy.Web.{Request, Call, set_header, write_header, write, error, refresh}
use configcat_proxy.Web.Lookup.{Failure, api_sdk_client}

pub record EvalRequest : Type 0 where
  pub sdk_key : String
  pub key : String
  pub user : UserAttrs

-- `json.Unmarshal` of a request, and `json.Marshal` of the three answers.
pub record Json : Type 0 where
  pub unmarshal_request : String → Result String EvalRequest
  pub marshal_payload : ResponsePayload → Result String String
  pub marshal_payloads : Dict String ResponsePayload → Result String String
  pub marshal_keys : List String → Result String String

abbrev fail : Failure → List Call
fail (message, code) = error message code ∷ []

-- The end of the handlers that answer in JSON.
unfoldable pub answer : Result String String → List Call
answer (err e) = error e 500 ∷ []
answer (ok printed) = set_header "Content-Type" "application/json" ∷ write printed ∷ []

-- The loop of `EvalAll`.
pub payloads_of : Dict String EvalData → Dict String ResponsePayload
payloads_of [] = []
payloads_of ((key, detail) ∷ details) =
    insert key (payload_from_eval_data detail) (payloads_of details)

module _ (json : Json) (registrar : Registrar) where
  unfoldable pub parse_request : Request → Result Failure (EvalRequest × Client)
  parse_request r = elim r.body [
    | err e ↦ err ("failed to read request body", 400)
    | ok req_body ↦ elim (json.unmarshal_request req_body) [
      | err e ↦ err ("failed to parse JSON body: " <> e, 400)
      | ok eval_req ↦ elim (api_sdk_client registrar r) [
        | err failure ↦ err failure
        | ok sdk_client ↦ ok (eval_req, sdk_client)
      ]
    ]
  ]

  -- `Eval` after the lookup.
  unfoldable pub eval_with : EvalRequest × Client → List Call
  unfolding answer
  eval_with (eval_req, sdk_client) =
      let eval = sdk_client.eval eval_req.key eval_req.user in
      elim eval.error [
        | some key_not_found ↦
            error ("feature flag or setting with key '" <> (eval_req.key <> "' not found")) 400 ∷ []
        | some (other_error e) ↦
            error "the request failed; please check the logs for more details" 500 ∷ []
        | none ↦ answer (json.marshal_payload (payload_from_eval_data eval))
      ]

  unfoldable pub api_eval : Request → List Call
  unfolding parse_request eval_with
  api_eval r = elim (parse_request r) [ err failure ↦ fail failure | ok found ↦ eval_with found ]

  pub api_eval_all : Request → List Call
  unfolding parse_request answer payloads_of
  api_eval_all r = elim (parse_request r) [
    | err failure ↦ fail failure
    | ok (eval_req, sdk_client) ↦
        answer (json.marshal_payloads (payloads_of (sdk_client.eval_all eval_req.user)))
  ]

  pub api_keys : Request → List Call
  unfolding answer
  api_keys r = elim (api_sdk_client registrar r) [
    | err failure ↦ fail failure
    | ok sdk_client ↦ answer (json.marshal_keys sdk_client.keys)
  ]

  pub api_refresh : Request → List Call
  api_refresh r = elim (api_sdk_client registrar r) [
    | err failure ↦ fail failure
    | ok sdk_client ↦ elim sdk_client.refresh [
      | some e ↦ refresh ∷ error e 500 ∷ []
      | none ↦ refresh ∷ []
    ]
  ]

pub icanhas_coffee : List Call
icanhas_coffee = write_header 418 ∷ []
