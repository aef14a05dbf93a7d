-- ===== src/Grpc/Streams/Tests.antt =====
-- The loops of the streams at a few events: one payload with a value, one without, a map, and the
-- end of the request before another payload.
use configcat_proxy.Base.{pos, ok, err, true, List, [], ◌∷◌}
use configcat_proxy.Model.{Value, nil_value, bool_value, int_value, ResponsePayload}
use configcat_proxy.Stream.Channels.{one_flag, all_of}
use configcat_proxy.Web.Sse.{Codec}
use configcat_proxy.Grpc.Streams.{StreamEvent, received, context_done}
use configcat_proxy.Grpc.Streams.Laws.{IsAgreed, loops-IsAgreed}

abbrev payload_of : Value → ResponsePayload
payload_of value = record { value = value; variation_id = "v1" }

abbrev some_events : List StreamEvent
some_events =
    received (one_flag (payload_of (int_value (pos 3))))
    ∷ received (one_flag (payload_of nil_value))
    ∷ received (all_of (("flag", payload_of (bool_value true)) ∷ []))
    ∷ context_done "context canceled"
    ∷ received (one_flag (payload_of (int_value (pos 4))))
    ∷ []

abbrev printing : Codec
printing = record {
  decode = λ s. err "not used";
  unmarshal = λ s. err "not used";
  marshal = λ m. ok "{}";
}

loops-IsAgreed_example : IsAgreed printing some_events
loops-IsAgreed_example = loops-IsAgreed printing some_events
