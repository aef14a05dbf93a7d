-- ===== src/Grpc/Streams/Laws.antt =====
-- The loops of the gRPC streams beside the loop of the SSE streams.
use mathlib.Core.List
use configcat_proxy.Base.{
  if◌then◌else◌, is_some, ok, err, String, ◌≡◌, Option, none, some, List, [], ◌∷◌, arith, string_eq,
}
use configcat_proxy.Base.Dict.{Dict}
use configcat_proxy.Stream.Channels.{Message, one_flag, all_of}
use configcat_proxy.Grpc.{EvalResponse, to_payload}
use configcat_proxy.Grpc.Streams.{
  StreamEvent, received, context_done, connection_aborted, server_down, flag_loop, response_map,
  all_flags_loop,
}
use configcat_proxy.Web.Sse.{
  Codec, format_sse_msg, Event, payload, request_done, stream_closed, server_stopped, listen,
}

-- The same events, as the SSE loop gets them.
pub as_sse : List StreamEvent → List Event
as_sse [] = []
as_sse (received m ∷ events) = payload m ∷ as_sse events
as_sse (context_done e ∷ events) = request_done ∷ as_sse events
as_sse (connection_aborted ∷ events) = stream_closed ∷ as_sse events
as_sse (server_down ∷ events) = server_stopped ∷ as_sse events

-- The messages before the event that ends the loop.
pub delivered : List StreamEvent → List Message
delivered [] = []
delivered (received m ∷ events) = m ∷ delivered events
delivered (_ ∷ events) = []

abbrev pub flag_answer : Message → Option EvalResponse
flag_answer (all_of resp) = none
flag_answer (one_flag resp) =
    if is_some (to_payload resp).value then some (to_payload resp) else none

abbrev pub all_answer : Message → Option (Dict String EvalResponse)
all_answer (one_flag resp) = none
all_answer (all_of resp) = some (response_map resp)

abbrev pub sse_answer : Codec → Message → Option String
sse_answer codec m = elim (codec.marshal m) [ err e ↦ none | ok text ↦ some (format_sse_msg text) ]

pub record IsAgreed (codec : Codec) (events : List StreamEvent) : Type 0 where
  pub flags_sent : (flag_loop events).sent ≡ List.filter_map flag_answer (delivered events)
  pub all_sent : (all_flags_loop events).sent ≡ List.filter_map all_answer (delivered events)
  pub written :
      (listen codec (as_sse events)).0 ≡ List.filter_map (sse_answer codec) (delivered events)
  pub same_result : (flag_loop events).result ≡ (all_flags_loop events).result
  pub flags_closed : (flag_loop events).is_closed ≡ (listen codec (as_sse events)).1
  pub all_closed : (all_flags_loop events).is_closed ≡ (listen codec (as_sse events)).1

-- For the same events, the two gRPC streams and the SSE stream answer the messages that arrive
-- before the first event that ends the loop, each in order and none twice: the gRPC stream of one
-- flag the payloads that hold a value, the one of all flags each map of payloads, and the SSE
-- stream every message that can be printed. All three close their connection in the same cases,
-- and the two gRPC streams return the same.
pub loops-IsAgreed : (codec : Codec) (events : List StreamEvent) → IsAgreed codec events
unfolding flag_loop all_flags_loop as_sse delivered listen List.filter_map
loops-IsAgreed codec [] = ground arith
loops-IsAgreed codec (received (one_flag resp) ∷ events) =
    let rec = loops-IsAgreed codec events in ground arith
loops-IsAgreed codec (received (all_of resp) ∷ events) =
    let rec = loops-IsAgreed codec events in ground arith
loops-IsAgreed codec (context_done e ∷ events) = ground arith
loops-IsAgreed codec (connection_aborted ∷ events) = ground arith
loops-IsAgreed codec (server_down ∷ events) = ground arith
