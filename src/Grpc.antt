-- ===== src/Grpc.antt =====
-- grpc/flag_service.go: the gRPC service. The
-- generated messages are records; a getter of a nil message gives the zero value.
pub mod Laws
pub mod Agreement
pub mod Streams
mod Tests
use configcat_proxy.Base.{
  ltb, ◌==◌, if◌then◌else◌, ℤ, pos, negsuc, Result, ok, err, ℕ, ◌-◌, ◌%◌, String, ◌<>◌, Bool, true,
  false, not, ◌&&◌, Option, none, some, List, [], ◌∷◌, string_eq,
}
use configcat_proxy.Base.Dict.{Dict, insert}
use configcat_proxy.Model.{
  AttrValue, text, float, strings, time, UserAttrs, key_not_found, other_error, Value, nil_value,
  bool_value, int_value, double_value, string_value, EvalData, ResponsePayload,
  payload_from_eval_data,
}
use configcat_proxy.Sdk.{Client, Registrar}

-- `status.Error`, or the error of `Refresh` as it is.
pub data Code : Type 0 where
  invalid_argument not_found unknown internal aborted : Code

pub data GrpcError : Type 0 where
  status_error : Code → String → GrpcError
  plain_error : String → GrpcError

pub record Target : Type 0 where
  pub sdk_id : String
  pub sdk_key : String

-- The cases of `UserValue`; a value that is not set is `unset_value`.
pub data UserValue : Type 0 where
  number_value : ℕ → UserValue
  string_user_value : String → UserValue
  time_value : ℤ → UserValue
  string_list_value : List String → UserValue
  unset_value : UserValue

pub record ProtoEvalRequest : Type 0 where
  pub target : Option Target
  pub sdk_id : String
  pub key : String
  pub user : Option (Dict String UserValue)

-- The value of an `EvalResponse`; `proto_int` holds an int32.
pub data ProtoValue : Type 0 where
  proto_bool : Bool → ProtoValue
  proto_int : ℤ → ProtoValue
  proto_double : ℕ → ProtoValue
  proto_string : String → ProtoValue

pub record EvalResponse : Type 0 where
  pub value : Option ProtoValue
  pub variation_id : String

-- Go's `int32(v)`: the low 32 bits, as a signed number.
pub to_int32 : ℤ → ℤ
to_int32 (pos n) =
    let low = n % 4294967296 in if ltb low 2147483648 then pos low else negsuc (4294967295 - low)
to_int32 (negsuc n) =
    let low = n % 4294967296 in if ltb low 2147483648 then negsuc low else pos (4294967295 - low)

proto_value_of : Value → Option ProtoValue
unfolding to_int32
proto_value_of (bool_value b) = some (proto_bool b)
proto_value_of (int_value n) = some (proto_int (to_int32 n))
proto_value_of (double_value x) = some (proto_double x)
proto_value_of (string_value s) = some (proto_string s)
proto_value_of nil_value = none

pub to_payload : ResponsePayload → EvalResponse
unfolding proto_value_of
to_payload resp = record { value = proto_value_of resp.value; variation_id = resp.variation_id }

pub identify_target : Option Target → String → String × String
identify_target none sdk_id = (sdk_id, "")
identify_target (some target) sdk_id = (target.sdk_id, target.sdk_key)

-- The loop of `getUserAttrs`.
pub user_attrs_from : Dict String UserValue → Dict String AttrValue
user_attrs_from [] = []
user_attrs_from ((k, number_value x) ∷ attrs) = insert k (float x) (user_attrs_from attrs)
user_attrs_from ((k, string_user_value s) ∷ attrs) = insert k (text s) (user_attrs_from attrs)
user_attrs_from ((k, time_value t) ∷ attrs) = insert k (time t) (user_attrs_from attrs)
user_attrs_from ((k, string_list_value ss) ∷ attrs) = insert k (strings ss) (user_attrs_from attrs)
user_attrs_from ((k, unset_value) ∷ attrs) = user_attrs_from attrs

pub get_user_attrs : Option (Dict String UserValue) → UserAttrs
unfolding user_attrs_from
get_user_attrs none = none
get_user_attrs (some attrs) = some (user_attrs_from attrs)

abbrev no_target : GrpcError
no_target = status_error invalid_argument "either the sdk id or the sdk key parameter must be set"

abbrev pub no_sdk : GrpcError
no_sdk = status_error invalid_argument "could not identify a configured SDK"

abbrev pub bad_state : GrpcError
bad_state =
    status_error internal
      "requested SDK is in an invalid state; please check the logs for more details"

-- The loops that turn evaluations into responses.
responses : Dict String EvalData → Dict String EvalResponse
unfolding to_payload
responses [] = []
responses ((key, value) ∷ values) =
    insert key (to_payload (payload_from_eval_data value)) (responses values)

module _ (registrar : Registrar) where
  -- The lookup of a client, by id or else by key.
  find_client : String → String → Option Client
  find_client sdk_id sdk_key =
      if not (sdk_id == "")
      then registrar.get_sdk_or_nil sdk_id
      else registrar.get_sdk_by_key_or_nil sdk_key

  -- The common end of `parseEvalRequest` and `GetKeys`.
  valid_client : Option Client → Result GrpcError Client
  valid_client none = err no_sdk
  valid_client (some sdk_client) =
      if not sdk_client.is_in_valid_state then err bad_state else ok sdk_client

  unfoldable pub parse_eval_request :
      ProtoEvalRequest → Bool → Result GrpcError (Client × UserAttrs)
  unfolding identify_target find_client valid_client get_user_attrs
  parse_eval_request req check_key =
      let (sdk_id, sdk_key) = identify_target req.target req.sdk_id in
      if sdk_id == "" && sdk_key == ""
      then err no_target
      else if check_key && req.key == ""
      then err (status_error invalid_argument "key request parameter missing")
      else elim (valid_client (find_client sdk_id sdk_key)) [
        | err e ↦ err e
        | ok sdk_client ↦ ok (sdk_client, get_user_attrs req.user)
      ]

  pub eval_flag : ProtoEvalRequest → Result GrpcError EvalResponse
  unfolding parse_eval_request to_payload
  eval_flag req = elim (parse_eval_request req true) [
    | err e ↦ err e
    | ok (sdk_client, user) ↦
        let value = sdk_client.eval req.key user in
        elim value.error [
          | some key_not_found ↦ err (
              status_error not_found
                ("feature flag or setting with key '" <> (req.key <> "' not found")))
          | some (other_error e) ↦
              err
                (status_error unknown "the request failed; please check the logs for more details")
          | none ↦ ok (to_payload (payload_from_eval_data value))
        ]
  ]

  pub eval_all_flags : ProtoEvalRequest → Result GrpcError (Dict String EvalResponse)
  unfolding parse_eval_request responses
  eval_all_flags req = elim (parse_eval_request req false) [
    | err e ↦ err e
    | ok (sdk_client, user) ↦ ok (responses (sdk_client.eval_all user))
  ]

  pub get_keys : Option Target → String → Result GrpcError (List String)
  unfolding identify_target find_client valid_client
  get_keys target id =
      let (sdk_id, sdk_key) = identify_target target id in
      if sdk_id == "" && sdk_key == ""
      then err no_target
      else elim (valid_client (find_client sdk_id sdk_key)) [
        | err e ↦ err e
        | ok sdk_client ↦ ok sdk_client.keys
      ]

  -- `Refresh`: it does not ask for a valid state.
  pub grpc_refresh : Option Target → String → Result GrpcError (Unit {0})
  unfolding identify_target find_client
  grpc_refresh target id =
      let (sdk_id, sdk_key) = identify_target target id in
      if sdk_id == "" && sdk_key == "" then err no_target else elim (find_client sdk_id sdk_key) [
        | none ↦ err no_sdk
        | some sdk_client ↦ elim sdk_client.refresh [ some e ↦ err (plain_error e) | none ↦ ok tt ]
      ]

-- What a stream of the stream server answers to `IsInValidState` and `CanEval`.
pub record EvalStream : Type 0 where
  pub handle : ℕ
  pub is_in_valid_state : Bool
  pub can_eval : String → Bool

module _ (get_stream get_stream_by_sdk_key : String → Option EvalStream) where
  checked_stream : ProtoEvalRequest → Bool → Option EvalStream → Result GrpcError EvalStream
  checked_stream req check_key none = err no_sdk
  checked_stream req check_key (some str) =
      if not str.is_in_valid_state
      then err bad_state
      else if check_key && not (str.can_eval req.key)
      then err (
          status_error invalid_argument
            ("feature flag or setting with key '" <> (req.key <> "' not found")))
      else ok str

  pub parse_eval_stream_request :
      ProtoEvalRequest → Bool → Result GrpcError (EvalStream × UserAttrs)
  unfolding identify_target checked_stream get_user_attrs
  parse_eval_stream_request req check_key =
      let (sdk_id, sdk_key) = identify_target req.target req.sdk_id in
      if sdk_id == "" && sdk_key == ""
      then err no_target
      else if check_key && req.key == ""
      then err (status_error invalid_argument "key request parameter missing")
      else elim (checked_stream req check_key
          (if not (sdk_id == "") then get_stream sdk_id else get_stream_by_sdk_key sdk_key)) [
            | err e ↦ err e
            | ok str ↦ ok (str, get_user_attrs req.user)
          ]
