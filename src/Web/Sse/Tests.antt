-- ===== src/Web/Sse/Tests.antt =====
-- The theorem on the stream of one flag at a request with an SDK id.
use configcat_proxy.Base.{◌==◌, if◌then◌else◌, ok, true, none, some, string_eq}
use configcat_proxy.Web.{Request}
use configcat_proxy.Web.Examples.{asked, request_of}
use configcat_proxy.Web.Sse.{SseStream, Streams, Codec}

abbrev some_codec : Codec
some_codec = record { decode = λ s. ok s; unmarshal = λ s. ok asked; marshal = λ m. ok "{}" }

abbrev some_str : SseStream
some_str = record { handle = 0; is_in_valid_state = true; can_eval = λ key. key == "flag" }

abbrev some_streams : Streams
some_streams = record {
  get_stream_or_nil = λ id. if id == "a" then some some_str else none;
  get_stream_by_sdk_key_or_nil = λ key. none;
}

abbrev streaming : Request
streaming = request_of "GET" (λ name. "")
