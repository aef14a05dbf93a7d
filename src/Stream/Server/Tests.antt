-- ===== src/Stream/Server/Tests.antt =====
-- The theorems on the server at a registrar with one SDK.
use configcat_proxy.Base.{nat_eq, ℕ, String, ◌≡◌, refl, some, [], ◌∷◌, arith, eq_iff, string_eq}
use configcat_proxy.Base.Dict.{lookup, IsMap}
use configcat_proxy.Model.{ProxyConfigModel}
use configcat_proxy.Registrar.{sdk_keys}
use configcat_proxy.Registrar.Refresh.{refresh_config}
use configcat_proxy.Registrar.Refresh.Published.{IsAnnounced, refresh_config-IsAnnounced}
use configcat_proxy.Stream.Server.{
  StreamObject, Server, new_stream_object, stream_keys, no_streams, new_server, handle_sdk_id,
  handle_sdk_ids,
}
use configcat_proxy.Stream.Server.Laws.{IsServing, handle_sdk_id-IsServing, lookup-handle_sdk_id}
use configcat_proxy.Stream.Server.Sync.{
  IsInSync, handle_sdk_ids-refresh_config, new_server-IsInSync,
}
use configcat_proxy.Registrar.Tests.{some_options, one_sdk, one_sdk-Inv, model_a, model_b}

abbrev moved_sdks : ProxyConfigModel
moved_sdks = record { sdks = ("a", model_b) ∷ ("b", model_a) ∷ []; options = some_options }

once_here : IsMap one_sdk.sdk_clients
unfolding lookup
once_here = (refl, tt)

handle_sdk_ids-refresh_config_example :
    IsInSync
      (handle_sdk_ids
        (refresh_config moved_sdks one_sdk)
        (refresh_config moved_sdks one_sdk).published
        (new_server one_sdk))
      (refresh_config moved_sdks one_sdk)
handle_sdk_ids-refresh_config_example =
    handle_sdk_ids-refresh_config moved_sdks one_sdk (new_server one_sdk)
      (refresh_config moved_sdks one_sdk).published one_sdk-Inv
      (new_server-IsInSync one_sdk once_here).0 (new_server-IsInSync one_sdk once_here).1 (λ j h. h)

empty_server-IsServing : IsServing no_streams
unfolding lookup
empty_server-IsServing = record {
  registered = λ id k e. cc;
  open_ones = λ k o at live. cc at;
  free = λ k le. refl;
}

handle_sdk_id-IsServing_example : IsServing (handle_sdk_id one_sdk "a" no_streams)
handle_sdk_id-IsServing_example =
    handle_sdk_id-IsServing one_sdk no_streams empty_server-IsServing "a"

refresh_config-IsAnnounced_example :
    IsAnnounced (lookup "a" one_sdk.sdk_clients) (refresh_config moved_sdks one_sdk) "a"
refresh_config-IsAnnounced_example = refresh_config-IsAnnounced moved_sdks one_sdk one_sdk-Inv "a"

-- The stream of `a`, after the registrar has changed the secondary key of its client in place.
abbrev one_stream : Server
one_stream = record {
  streams = ("a", 0) ∷ [];
  streams_by_sdk_key = ("key-a", 0) ∷ ("older-a", 0) ∷ [];
  objects = (0, new_stream_object "a" 0) ∷ [];
  next = 1;
}

stream_here : (id : String) (k : ℕ) → lookup id (("a", 0) ∷ []) ≡ some k → ("a" ≡ id) × (0 ≡ k)
unfolding lookup
stream_here id k e = ground (arith, e, eq_iff "a" id)

object_here :
    (k : ℕ) (o : StreamObject)
    → lookup k one_stream.objects ≡ some o
    → (new_stream_object "a" 0 ≡ o) × (0 ≡ k)
unfolding lookup
object_here k o e = ground (arith, e, nat_eq.beq_iff 0 k)

one_stream-IsServing : IsServing one_stream
unfolding lookup
one_stream-IsServing = record {
  registered = λ id k e.
      let (same, first) = stream_here id k e in
      (new_stream_object "a" 0, rw (← first) refl, same, refl, refl);
  open_ones = λ k o at live. let (same, first) = object_here k o at in rw (← same, ← first) refl;
  free = λ k above. ground (arith, above, nat_eq.beq_iff 0 k);
}

-- The key that was replaced still leads to the stream.
lookup-handle_sdk_id_example :
    lookup "older-a" (handle_sdk_id one_sdk "a" one_stream).streams_by_sdk_key ≡ some 0
unfolding lookup sdk_keys stream_keys
lookup-handle_sdk_id_example =
    lookup-handle_sdk_id one_sdk one_stream one_stream-IsServing "a" 0 0 "older-a" refl refl
