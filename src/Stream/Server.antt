-- ===== src/Stream/Server.antt =====
-- stream/server.go: the streams by SDK id and by SDK key. As in the registrar, the maps share
-- stream objects, which are on a heap; a stream refers to its SDK client by the client's handle.
-- `xsync.MapOf` is a dictionary. Of a stream (stream/stream.go) the server sees its client, the
-- clients that it is subscribed to, and whether it is stopped.
pub mod Laws
pub mod Sync
pub mod System
mod Tests
use configcat_proxy.Base.{
  ◌==◌, if◌then◌else◌, ℕ, suc, String, Bool, true, false, not, Option, none, some, List, [], ◌∷◌,
  string_eq, nat_eq,
}
use configcat_proxy.Base.Dict.{Dict, lookup, insert, delete}
use configcat_proxy.Registrar.{ClientObject, AutoRegistrar, sdk_keys, drop_keys}

pub record StreamObject : Type 0 where
  pub sdk_id : String
  pub sdk_client : ℕ
  pub subscriptions : List ℕ
  pub stopped : Bool

pub record Server : Type 0 where
  pub streams : Dict String ℕ
  pub streams_by_sdk_key : Dict String ℕ
  pub objects : Dict ℕ StreamObject
  pub next : ℕ

abbrev pub new_stream_object : String → ℕ → StreamObject
new_stream_object sdk_id h = record {
  sdk_id = sdk_id;
  sdk_client = h;
  subscriptions = h ∷ [];
  stopped = false;
}

pub unsubscribe : ℕ → List ℕ → List ℕ
unsubscribe h [] = []
unsubscribe h (k ∷ ks) = if k == h then unsubscribe h ks else k ∷ unsubscribe h ks

-- `ResetSdk`.
pub reset_sdk : ℕ → StreamObject → StreamObject
unfolding unsubscribe
reset_sdk h s =
    if s.stopped
    then s
    else record s { sdk_client = h; subscriptions = h ∷ unsubscribe s.sdk_client s.subscriptions }

-- `Close` of a stream.
pub close_stream : StreamObject → StreamObject
unfolding unsubscribe
close_stream s = record s {
  stopped = true;
  subscriptions = unsubscribe s.sdk_client s.subscriptions;
}

pub change_stream : (StreamObject → StreamObject) → ℕ → Dict ℕ StreamObject → Dict ℕ StreamObject
change_stream f k objects = elim (lookup k objects) [
  | none ↦ objects
  | some s ↦ insert k (f s) objects
]

-- `SdkKeys` of a stream: those of its client, as they are now.
pub stream_keys : Dict ℕ ClientObject → Dict ℕ StreamObject → ℕ → String × Option String
stream_keys clients objects k = elim (lookup k objects) [
  | none ↦ ("", none)
  | some s ↦ sdk_keys clients s.sdk_client
]

-- `if key1 != "" { Store(key1, str) }; if key2 != nil && *key2 != "" { Store(*key2, str) }`.
pub store_keys : String × Option String → ℕ → Dict String ℕ → Dict String ℕ
store_keys (key1, none) str m = if not (key1 == "") then insert key1 str m else m
store_keys (key1, some key2) str m =
    let m' = if not (key1 == "") then insert key1 str m else m in
    if not (key2 == "") then insert key2 str m' else m'

-- One round of the loop of `NewServer`.
pub open_stream : Dict ℕ ClientObject → String → ℕ → Server → Server
unfolding store_keys
open_stream clients sdk_id h s = record {
  streams = insert sdk_id s.next s.streams;
  streams_by_sdk_key = store_keys (sdk_keys clients h) s.next s.streams_by_sdk_key;
  objects = insert s.next (new_stream_object sdk_id h) s.objects;
  next = suc s.next;
}

pub open_streams : Dict ℕ ClientObject → Dict String ℕ → Server → Server
unfolding open_stream
open_streams clients [] s = s
open_streams clients ((sdk_id, h) ∷ all) s =
    open_streams clients all (open_stream clients sdk_id h s)

abbrev pub no_streams : Server
no_streams = record { streams = []; streams_by_sdk_key = []; objects = []; next = 0 }

-- `NewServer` over the clients of `GetAll`.
pub new_server : AutoRegistrar → Server
unfolding open_streams
new_server r = open_streams r.heap r.sdk_clients no_streams

-- `handleSdkId` when the registrar has a client, and the server a stream: it moves to the client.
move_stream : Dict ℕ ClientObject → String → ℕ → ℕ → Server → Server
unfolding stream_keys change_stream reset_sdk store_keys
move_stream clients sdk_id h str s =
    let old_keys = stream_keys clients s.objects str in
    record s {
      objects = change_stream (reset_sdk h) str s.objects;
      streams_by_sdk_key =
          store_keys (sdk_keys clients h) str (drop_keys old_keys s.streams_by_sdk_key);
    }

-- The branch without a client, for a stream that is there.
remove_stream : Dict ℕ ClientObject → String → ℕ → Server → Server
unfolding stream_keys change_stream close_stream
remove_stream clients sdk_id str s = record s {
  streams = delete sdk_id s.streams;
  streams_by_sdk_key = drop_keys (stream_keys clients s.objects str) s.streams_by_sdk_key;
  objects = change_stream close_stream str s.objects;
}

-- `handleSdkId`.
pub handle_sdk_id : AutoRegistrar → String → Server → Server
unfolding move_stream remove_stream open_stream
handle_sdk_id r sdk_id s = elim (lookup sdk_id r.sdk_clients) [
  | some h ↦ elim (lookup sdk_id s.streams) [
    | some str ↦ move_stream r.heap sdk_id h str s
    | none ↦ open_stream r.heap sdk_id h s
  ]
  | none ↦ elim (lookup sdk_id s.streams) [
    | some str ↦ remove_stream r.heap sdk_id str s
    | none ↦ s
  ]
]

-- Rounds of `run`, for the ids that come in.
pub handle_sdk_ids : AutoRegistrar → List String → Server → Server
unfolding handle_sdk_id
handle_sdk_ids r [] s = s
handle_sdk_ids r (sdk_id ∷ sdk_ids) s = handle_sdk_ids r sdk_ids (handle_sdk_id r sdk_id s)

-- `GetStreamOrNil` and `GetStreamBySdkKeyOrNil`.
pub get_stream_or_nil : Server → String → Option ℕ
get_stream_or_nil s sdk_id = lookup sdk_id s.streams

pub get_stream_by_sdk_key_or_nil : Server → String → Option ℕ
get_stream_by_sdk_key_or_nil s sdk_key = lookup sdk_key s.streams_by_sdk_key

close_all : Dict String ℕ → Dict ℕ StreamObject → Dict ℕ StreamObject
unfolding change_stream close_stream
close_all [] objects = objects
close_all ((sdk_id, str) ∷ streams) objects =
    close_all streams (change_stream close_stream str objects)

-- `Close` of the server.
pub close_server : Server → Server
unfolding close_all
close_server s = record s {
  streams = [];
  streams_by_sdk_key = [];
  objects = close_all s.streams s.objects;
}
