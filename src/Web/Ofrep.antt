-- ===== src/Web/Ofrep.antt =====
-- web/ofrep/ofrep.go: the OpenFeature remote evaluation protocol. The JSON of requests and answers,
-- the seeded hash of a text, and the digest are parameters.
pub mod Laws
mod Tests
use configcat_proxy.Base.{
  ◌==◌, if◌then◌else◌, Result, ok, err, ℕ, String, ◌<>◌, Bool, not, ◌&&◌, none, some, List, [], ◌∷◌,
  ◌++◌, string_eq, nat_eq,
}
use configcat_proxy.Base.Dict.{Dict, lookup, insert}
use configcat_proxy.Model.{UserAttrs, EvalError, key_not_found, other_error, Value, EvalData}
use configcat_proxy.Utils.{uint64_to_bytes, generate_etag}
use configcat_proxy.Model.Discriminator.{Hash, discriminator}
use configcat_proxy.Sdk.{Client, Registrar}
use configcat_proxy.Web.{Request, Call, set_header, write_header, write}
use configcat_proxy.Web.Lookup.{Failure, ofrep_sdk_client}

pub data ErrorCode : Type 0 where
  general flag_not_found invalid_context : ErrorCode

pub data Reason : Type 0 where
  default targeting_match : Reason

-- The structs that are printed.
pub record EvaluationResponse : Type 0 where
  pub key : String
  pub reason : Reason
  pub variant : String
  pub value : Value

pub record ErrorResponse : Type 0 where
  pub key : String
  pub error_code : ErrorCode
  pub error_details : String

pub data Flag : Type 0 where
  failed_flag : ErrorResponse → Flag
  evaluated_flag : EvaluationResponse → Flag

pub data Body : Type 0 where
  evaluation : EvaluationResponse → Body
  flag_error : ErrorResponse → Body
  bulk_evaluation : List Flag → Body
  bulk_error : ErrorCode → String → Body
  general_error : String → Body

-- `json.Unmarshal` into the context of a request, `json.Marshal` of a body, with what is written
-- where it fails after the status is sent; the hash of the server's seed, the bytes of a text and
-- their digest.
pub record Json : Type 0 where
  pub unmarshal_context : String → Result String UserAttrs
  pub marshal : Body → Result String String
  pub hash : Hash
  pub bytes_of : String → List ℕ
  pub fast_hash_hex : List ℕ → String
  -- `Error` of an error of the ConfigCat SDK.
  pub error_text : EvalError → String

-- A failed lookup: its text, code and status.
pub record Refusal : Type 0 where
  pub details : String
  pub code : ErrorCode
  pub status : ℕ

-- `mapTargetingKeyToIdentifier`.
pub map_targeting_key_to_identifier : UserAttrs → UserAttrs
map_targeting_key_to_identifier none = none
map_targeting_key_to_identifier (some attrs) = elim (lookup "targetingKey" attrs) [
  | none ↦ some attrs
  | some val ↦ some (insert "Identifier" val attrs)
]

pub to_eval_response : EvalData → String → EvaluationResponse
to_eval_response eval_data key = record {
  key = key;
  value = eval_data.value;
  variant = eval_data.variation_id;
  reason = if eval_data.is_targeting then targeting_match else default;
}

abbrev is_server_error : Refusal → Bool
is_server_error refusal = refusal.status == 500

abbrev refusal_of : Failure → Refusal
refusal_of (message, status) = record { details = message; code = general; status = status }

-- `calcEtag`.
pub calc_etag : Json → UserAttrs → String → String
unfolding generate_etag
calc_etag json attr config_json_etag =
    generate_etag json.fast_hash_hex
      (json.bytes_of config_json_etag ++ uint64_to_bytes (discriminator json.hash attr))

module _ (json : Json) where
  -- The loop over the evaluations of `EvalAll`.
  pub flags_of : Dict String EvalData → List Flag
  unfolding to_eval_response
  flags_of [] = []
  flags_of ((key, detail) ∷ details) =
      let rest = flags_of details in
      elim detail.error [
        | none ↦ evaluated_flag (to_eval_response detail key) ∷ rest
        | some e ↦
            failed_flag
              (record { error_details = json.error_text e; error_code = general; key = key })
            ∷ rest
      ]

  -- `data, _ := json.Marshal(body)`: nothing is written where it fails.
  abbrev printed_or_empty : Result String String → String
  printed_or_empty (ok printed) = printed
  printed_or_empty (err e) = ""

  pub write_error : Body → ℕ → List Call
  write_error body code =
      set_header "Content-Type" "application/json"
      ∷ write_header code
      ∷ write (printed_or_empty (json.marshal body))
      ∷ []

  -- The context of a request whose body was read; an empty body leaves it nil.
  context_of : String → Result String UserAttrs
  context_of req_body = if req_body == "" then ok none else json.unmarshal_context req_body

  module _ (registrar : Registrar) where
    pub ofrep_parse_request : Request → Result Refusal (UserAttrs × Client)
    unfolding context_of
    ofrep_parse_request r = elim r.body [
      | err e ↦
          err (record { details = "failed to read request body"; code = general; status = 400 })
      | ok req_body ↦ elim (context_of req_body) [
        | err e ↦ err (record {
          details = "failed to parse JSON body: " <> e;
          code = invalid_context;
          status = 400;
        })
        | ok context ↦ elim (ofrep_sdk_client registrar r) [
          | err failure ↦ err (refusal_of failure)
          | ok sdk_client ↦ ok (context, sdk_client)
        ]
      ]
    ]

    -- `Eval` after the lookup.
    eval_key : String → UserAttrs × Client → List Call
    unfolding write_error to_eval_response map_targeting_key_to_identifier
    eval_key key (context, sdk_client) =
        let eval = sdk_client.eval key (map_targeting_key_to_identifier context) in
        elim eval.error [
          | some key_not_found ↦
              write_error
                (flag_error (record {
                  error_details = "feature flag or setting with key '" <> (key <> "' not found");
                  error_code = flag_not_found;
                  key = key;
                }))
                404
          | some (other_error e) ↦
              write_error
                (general_error "the request failed; please check the server logs for more details")
                500
          | none ↦ elim (json.marshal (evaluation (to_eval_response eval key))) [
            | err e ↦ write_error (general_error e) 500
            | ok printed ↦ set_header "Content-Type" "application/json" ∷ write printed ∷ []
          ]
        ]

    pub ofrep_eval : Request → List Call
    unfolding ofrep_parse_request eval_key write_error
    ofrep_eval r =
        let key = r.path_value "key" in
        if key == ""
        then write_error
            (flag_error (record {
              error_code = general;
              error_details = "'key' path parameter must be set";
              key = "";
            }))
            400
        else elim (ofrep_parse_request r) [
          | err refusal ↦
              if is_server_error refusal
              then write_error (general_error refusal.details) refusal.status
              else write_error
                  (flag_error (record {
                    error_details = refusal.details;
                    error_code = refusal.code;
                    key = key;
                  }))
                  refusal.status
          | ok found ↦ eval_key key found
        ]

    -- `EvalAll` after the lookup.
    eval_flags : Request → UserAttrs × Client → List Call
    unfolding write_error flags_of map_targeting_key_to_identifier
    eval_flags r (context, sdk_client) =
        let etag = r.header "If-None-Match" in
        let gen_etag = calc_etag json context sdk_client.get_cached_json.e_tag in
        if not (etag == "") && etag == gen_etag
        then set_header "ETag" gen_etag ∷ write_header 304 ∷ []
        else (let details = sdk_client.eval_all (map_targeting_key_to_identifier context) in
            elim (json.marshal (bulk_evaluation (flags_of details))) [
              | err e ↦ write_error (general_error e) 500
              | ok printed ↦
                  set_header "ETag" gen_etag
                  ∷ set_header "Content-Type" "application/json"
                  ∷ write printed
                  ∷ []
            ])

    pub ofrep_eval_all : Request → List Call
    unfolding ofrep_parse_request eval_flags write_error
    ofrep_eval_all r = elim (ofrep_parse_request r) [
      | err refusal ↦
          if is_server_error refusal
          then write_error (general_error refusal.details) refusal.status
          else write_error (bulk_error refusal.code refusal.details) refusal.status
      | ok found ↦ eval_flags r found
    ]
