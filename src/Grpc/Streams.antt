-- ===== src/Grpc/Streams.antt =====
-- The two streams of grpc/flag_service.go. The loop of a stream gets its events in order; a failed
-- `Send` is only logged, so a call of `Send` is recorded whatever it answers.
pub mod Laws
mod Tests
use configcat_proxy.Base.{
  if◌then◌else◌, is_some, Result, ok, String, Bool, true, false, Option, none, some, List, [], ◌∷◌,
  ◌>>=◌,
}
use configcat_proxy.Base.Dict.{Dict}
use configcat_proxy.Model.{UserAttrs, ResponsePayload}
use configcat_proxy.Stream.Channels.{Message, one_flag, all_of, all_flags_discriminator}
use configcat_proxy.Grpc.{
  aborted, GrpcError, status_error, plain_error, ProtoEvalRequest, EvalResponse, to_payload,
  EvalStream, parse_eval_stream_request,
}

-- What the `select` of a loop waits for. `context_done` holds the error of the context.
pub data StreamEvent : Type 0 where
  received : Message → StreamEvent
  context_done : String → StreamEvent
  connection_aborted server_down : StreamEvent

-- What a loop did: its calls of `Send`, whether it called `CloseConnection`, and the error that it
-- returned, where the events are not used up before.
pub record StreamRun {ℓ} (A : Type ℓ) : Type ℓ where
  pub sent : List A
  pub is_closed : Bool
  pub result : Option GrpcError

-- The branches of the two loops that return.
abbrev pub closed_with {ℓ} : {A : Type ℓ} → GrpcError → Bool → StreamRun A
closed_with e is_closed = record { sent = []; is_closed = is_closed; result = some e }

abbrev pub aborted_error : String → GrpcError
aborted_error message = status_error aborted message

-- `stream.Send`, before the rest of the loop.
abbrev pub send {ℓ} : {A : Type ℓ} → A → StreamRun A → StreamRun A
send response run = record run { sent = response ∷ run.sent }

-- The loop of `EvalFlagStream`.
pub flag_loop : List StreamEvent → StreamRun EvalResponse
unfolding to_payload
flag_loop [] = record { sent = []; is_closed = false; result = none }
flag_loop (received (one_flag resp) ∷ events) =
    let rest = flag_loop events in
    let payload = to_payload resp in if is_some payload.value then send payload rest else rest
flag_loop (received (all_of resp) ∷ events) = flag_loop events
flag_loop (context_done e ∷ events) = closed_with (plain_error e) true
flag_loop (connection_aborted ∷ events) = closed_with (aborted_error "connection aborted") false
flag_loop (server_down ∷ events) = closed_with (aborted_error "server down") false

-- The map that `EvalAllFlagsStream` sends.
pub response_map : Dict String ResponsePayload → Dict String EvalResponse
unfolding to_payload
response_map [] = []
response_map ((key, val) ∷ resp) = (key, to_payload val) ∷ response_map resp

-- The loop of `EvalAllFlagsStream`.
pub all_flags_loop : List StreamEvent → StreamRun (Dict String EvalResponse)
unfolding response_map
all_flags_loop [] = record { sent = []; is_closed = false; result = none }
all_flags_loop (received (all_of resp) ∷ events) = send (response_map resp) (all_flags_loop events)
all_flags_loop (received (one_flag resp) ∷ events) = all_flags_loop events
all_flags_loop (context_done e ∷ events) = closed_with (plain_error e) true
all_flags_loop (connection_aborted ∷ events) =
    closed_with (aborted_error "connection aborted") false
all_flags_loop (server_down ∷ events) = closed_with (aborted_error "server down") false

-- A connection as `CreateConnection` is asked for it: the stream, the discriminator and the user.
pub record Connected : Type 0 where
  pub str : EvalStream
  pub discriminator : String
  pub user : UserAttrs

module _ (get_stream get_stream_by_sdk_key : String → Option EvalStream) where
  pub eval_flag_stream :
      ProtoEvalRequest → List StreamEvent → Result GrpcError (Connected × StreamRun EvalResponse)
  unfolding flag_loop
  eval_flag_stream req events = do
    (str, user) ← parse_eval_stream_request get_stream get_stream_by_sdk_key req true
    ok (record { str = str; discriminator = req.key; user = user }, flag_loop events)

  pub eval_all_flags_stream :
      ProtoEvalRequest
      → List StreamEvent
      → Result GrpcError (Connected × StreamRun (Dict String EvalResponse))
  unfolding all_flags_loop
  eval_all_flags_stream req events = do
    (str, user) ← parse_eval_stream_request get_stream get_stream_by_sdk_key req false
    ok (
      record { str = str; discriminator = all_flags_discriminator; user = user },
      all_flags_loop events,
    )
