-- ===== src/Stream/Tests.antt =====
-- The theorems on the stream at a flag with one user.
use configcat_proxy.Base.{pos, contains, ◌≡◌, refl, true, false, none, [], ◌∷◌, string_eq, nat_eq}
use configcat_proxy.Model.{bool_value, EvalData, ResponsePayload}
use configcat_proxy.Stream.{
  Connection, ConnEstablished, ConnClosed, Stream, new_stream, add_connection, remove_connection,
}
use configcat_proxy.Stream.Notified.{IsNotified, notify_connections-IsNotified}
use configcat_proxy.Stream.Laws.{IsTight, IsFilled, remove_connection-add_connection}
use configcat_proxy.Stream.Reach.{established, here, next, Reach-new_stream-IsTight}
use configcat_proxy.Stream.Channels.{SdkClient, Holder, Channel, single_flag, holder_of}
use configcat_proxy.Stream.Channels.Laws.{create_channel-is_empty}
use configcat_proxy.Base.Dict.{lookup}

abbrev flag_on : EvalData
flag_on = record {
  value = bool_value true;
  variation_id = "v1";
  error = none;
  user = none;
  is_targeting = false;
}

abbrev some_client : SdkClient
some_client = record { eval = λ key user. flag_on; eval_all = λ user. ("flag", flag_on) ∷ [] }

abbrev flag_off : ResponsePayload
flag_off = record { value = bool_value false; variation_id = "v0" }

abbrev some_holder : Holder
some_holder = record { connections = 1 ∷ 2 ∷ []; user = none }

abbrev some_channel : Channel
some_channel = single_flag flag_off some_holder

abbrev some_stream : Stream
some_stream = record {
  channels = ("flag", (7, some_channel) ∷ []) ∷ [];
  conn_count = pos 2;
  sent = [];
}

abbrev some_conn : Connection
some_conn = record { id = 0; discriminator = 7 }

abbrev opened : ConnEstablished
opened = record { conn = some_conn; user = none; key = "flag" }

abbrev ended : ConnClosed
ended = record { conn = some_conn; key = "flag" }

remove_connection-add_connection_example :
    ((remove_connection ended (add_connection some_client opened new_stream)).channels ≡ [])
    × ((remove_connection ended (add_connection some_client opened new_stream)).conn_count ≡ pos 0)
unfolding lookup
remove_connection-add_connection_example =
    let (tight, filled) = Reach-new_stream-IsTight new_stream (here new_stream) in
    remove_connection-add_connection some_client opened new_stream tight filled
      (create_channel-is_empty "flag" none some_client).1

notify_connections-IsNotified_example : IsNotified some_client 2 some_stream "flag" 7 some_channel
unfolding lookup contains holder_of
notify_connections-IsNotified_example =
    notify_connections-IsNotified some_client 2 some_stream "flag" 7 some_channel refl refl

Reach-new_stream-IsTight_example :
    IsTight (add_connection some_client opened new_stream)
    × IsFilled (add_connection some_client opened new_stream)
Reach-new_stream-IsTight_example =
    Reach-new_stream-IsTight (add_connection some_client opened new_stream)
      (next (here new_stream) (established some_client opened new_stream))
