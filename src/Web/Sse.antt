-- ===== src/Web/Sse.antt =====
-- web/sse/sse.go: the handlers that stream evaluations. A stream is what the stream server answers
-- for it; decoding and JSON are parameters. The loop of a connection gets its events in order.
pub mod Laws
mod Tests
use configcat_proxy.Base.{
  ◌==◌, if◌then◌else◌, Result, ok, err, ℕ, String, ◌<>◌, Bool, true, false, not, ◌&&◌, Option, none,
  some, List, [], ◌∷◌, ◌++◌, string_eq,
}
use configcat_proxy.Model.{UserAttrs}
use configcat_proxy.Stream.Channels.{Message, all_flags_discriminator}
use configcat_proxy.Web.{Request, Call, set_header, add_header, write_header, error}
use configcat_proxy.Web.Api.{EvalRequest}

pub record SseStream : Type 0 where
  pub handle : ℕ
  pub is_in_valid_state : Bool
  pub can_eval : String → Bool

pub record Streams : Type 0 where
  pub get_stream_or_nil : String → Option SseStream
  pub get_stream_by_sdk_key_or_nil : String → Option SseStream

-- `utils.Base64URLDecode` and `json.Unmarshal`; `json.Marshal` of a message.
pub record Codec : Type 0 where
  pub decode : String → Result String String
  pub unmarshal : String → Result String EvalRequest
  pub marshal : Message → Result String String

abbrev empty_request : EvalRequest
empty_request = record { sdk_key = ""; key = ""; user = none }

-- The headers that `prepareResponse` sets first.
abbrev pub stream_headers : List Call
stream_headers =
    set_header "Content-Type" "text/event-stream"
    ∷ set_header "Cache-Control" "no-cache"
    ∷ set_header "Connection" "keep-alive"
    ∷ add_header "X-Accel-Buffering" "no"
    ∷ []

-- The rest of `prepareResponse`: a failure is a text for status 400.
pub prepare_response : Codec → Request → Bool → Result String EvalRequest
prepare_response codec r data_must_set =
    let stream_data = r.path_value "data" in
    if stream_data == ""
    then if data_must_set then err "'data' path parameter must be set" else ok empty_request
    else elim (codec.decode stream_data) [
      | err e ↦ err "failed to decode incoming 'data'"
      | ok stream_context ↦ elim (codec.unmarshal stream_context) [
        | err e ↦ err ("failed to deserialize incoming 'data': " <> e)
        | ok eval_req ↦ ok eval_req
      ]
    ]

checked : Option SseStream → Result (String × ℕ) SseStream
checked none = err ("could not identify a configured SDK", 404)
checked (some str) =
    if not str.is_in_valid_state
    then err ("requested SDK is in an invalid state; please check the logs for more details", 500)
    else ok str

-- `getStream`.
pub get_stream : Streams → String → String → Result (String × ℕ) SseStream
unfolding checked
get_stream streams sdk_id sdk_key =
    if sdk_id == "" && sdk_key == ""
    then err ("either the 'sdkId' path parameter or the 'sdkKey' data parameter must be set", 400)
    else checked (
        if not (sdk_id == "")
        then streams.get_stream_or_nil sdk_id
        else streams.get_stream_by_sdk_key_or_nil sdk_key)

-- What a handler comes to: an error, or a connection for a key and a user.
pub data Outcome : Type 0 where
  refused : String → ℕ → Outcome
  connected : SseStream → String → UserAttrs → Outcome

pub single_flag_of : Codec → Streams → Request → Outcome
unfolding prepare_response get_stream
single_flag_of codec streams r = elim (prepare_response codec r true) [
  | err e ↦ refused e 400
  | ok eval_req ↦ elim (get_stream streams (r.path_value "sdkId") eval_req.sdk_key) [
    | err (message, code) ↦ refused message code
    | ok str ↦
        if eval_req.key == ""
        then refused "'key' must be set" 400
        else if not (str.can_eval eval_req.key)
        then refused ("feature flag or setting with key '" <> (eval_req.key <> "' not found")) 400
        else connected str eval_req.key eval_req.user
  ]
]

pub all_flags_of : Codec → Streams → Request → Outcome
unfolding prepare_response get_stream
all_flags_of codec streams r =
    let sdk_id = r.path_value "sdkId" in
    elim (prepare_response codec r (sdk_id == "")) [
      | err e ↦ refused e 400
      | ok eval_req ↦ elim (get_stream streams sdk_id eval_req.sdk_key) [
        | err (message, code) ↦ refused message code
        | ok str ↦ connected str all_flags_discriminator eval_req.user
      ]
    ]

unfoldable pub format_sse_msg : String → String
format_sse_msg b = "data: " <> (b <> "\n\n")

-- What `listenAndRespond` waits for.
pub data Event : Type 0 where
  payload : Message → Event
  request_done stream_closed server_stopped : Event

-- The texts that the loop writes, and whether it closes the connection on the stream; it goes on
-- where the events are used up.
unfoldable pub listen : Codec → List Event → List String × Bool
unfolding format_sse_msg
listen codec [] = ([], false)
listen codec (payload m ∷ events) =
    let (written, closed) = listen codec events in
    elim (codec.marshal m) [
      | err e ↦ (written, closed)
      | ok printed ↦ (format_sse_msg printed ∷ written, closed)
    ]
listen codec (request_done ∷ events) = ([], true)
listen codec (stream_closed ∷ events) = ([], false)
listen codec (server_stopped ∷ events) = ([], false)

-- The calls of a handler up to the loop; without a flusher it answers 501.
pub respond : Bool → Outcome → List Call
respond false outcome = error "streaming not supported" 501 ∷ []
respond true (refused message code) = stream_headers ++ error message code ∷ []
respond true (connected str key user) = stream_headers ++ write_header 200 ∷ []
