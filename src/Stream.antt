-- ===== src/Stream.antt =====
-- stream/stream.go: the event loop of the stream of one SDK. Each round of `run` is a step on the
-- state; what is put into the connections' channels is appended to `sent`. The buffers of 64
-- messages, and the blocking when one is full, are left out, as are logging and telemetry.
pub mod Channels
pub mod Laws
pub mod Reach
pub mod Notified
pub mod Server
mod Tests
use configcat_proxy.Stream.Channels.{
  SdkClient, Message, Channel, create_channel, last_message, notify, add_to, remove_from,
  is_empty_channel,
}
use configcat_proxy.Base.{
  if◌then◌else◌, ℤ, pos, increment, decrement, ℕ, String, Bool, true, false, Option, none, some,
  List, [], ◌∷◌, ◌++◌, string_eq, nat_eq,
}
use configcat_proxy.Base.Dict.{Dict, lookup, insert, delete}
use configcat_proxy.Model.{UserAttrs}

-- `Connection`: its identity stands for the pointer.
pub record Connection : Type 0 where
  pub id : ℕ
  pub discriminator : ℕ

pub record ConnEstablished : Type 0 where
  pub conn : Connection
  pub user : UserAttrs
  pub key : String

pub record ConnClosed : Type 0 where
  pub conn : Connection
  pub key : String

pub record Stream : Type 0 where
  pub channels : Dict String (Dict ℕ Channel)
  pub conn_count : ℤ
  pub sent : List (ℕ × Message)

-- `NewStream`: no channel and no connection.
abbrev pub new_stream : Stream
new_stream = record { channels = []; conn_count = pos 0; sent = [] }

abbrev bucket_or_empty : Option (Dict ℕ Channel) → Dict ℕ Channel
bucket_or_empty none = []
bucket_or_empty (some bucket) = bucket

module _ (client : SdkClient) where
  -- `addConnection`, and the counter.
  pub add_connection : ConnEstablished → Stream → Stream
  add_connection established s =
      let conn = established.conn in
      let bucket = bucket_or_empty (lookup established.key s.channels) in
      let ch : Channel = elim (lookup conn.discriminator bucket) [
        | some ch ↦ ch
        | none ↦ create_channel established.key established.user client
      ] in
      let joined = add_to conn.id ch in
      record {
        channels = insert established.key (insert conn.discriminator joined bucket) s.channels;
        conn_count = increment s.conn_count;
        sent = s.sent ++ (conn.id, last_message joined) ∷ [];
      }

  -- The inner loop of `notifyConnections`, over one bucket.
  pub notify_bucket : String → Dict ℕ Channel → Dict ℕ Channel × List (ℕ × Message)
  notify_bucket key [] = ([], [])
  notify_bucket key ((d, ch) ∷ bucket) =
      let (ch', first) = notify client key ch in
      let (bucket', others) = notify_bucket key bucket in ((d, ch') ∷ bucket', first ++ others)

  pub notify_all : Dict String (Dict ℕ Channel) → Dict String (Dict ℕ Channel) × List (ℕ × Message)
  unfolding notify_bucket
  notify_all [] = ([], [])
  notify_all ((key, bucket) ∷ channels) =
      let (bucket', first) = notify_bucket key bucket in
      let (channels', others) = notify_all channels in ((key, bucket') ∷ channels', first ++ others)

  -- `notifyConnections`.
  pub notify_connections : Stream → Stream
  unfolding notify_all
  notify_connections s =
      let (channels, messages) = notify_all s.channels in
      record s { channels = channels; sent = s.sent ++ messages }

-- `removeConnection` without its last test, on a bucket that is there.
leave_bucket : Connection → Dict ℕ Channel → Dict ℕ Channel
leave_bucket conn bucket = elim (lookup conn.discriminator bucket) [
  | none ↦ bucket
  | some ch ↦
      let left = remove_from conn.id ch in
      if is_empty_channel left
      then delete conn.discriminator bucket
      else insert conn.discriminator left bucket
]

abbrev is_nil_bucket : Dict ℕ Channel → Bool
is_nil_bucket [] = true
is_nil_bucket (entry ∷ bucket) = false

-- `removeConnection`: the early returns leave the map alone.
leave : ConnClosed → Dict String (Dict ℕ Channel) → Dict String (Dict ℕ Channel)
unfolding leave_bucket
leave closed channels = elim (lookup closed.key channels) [
  | none ↦ channels
  | some bucket ↦ elim (lookup closed.conn.discriminator bucket) [
    | none ↦ channels
    | some ch ↦
        let left = leave_bucket closed.conn bucket in
        if is_nil_bucket left then delete closed.key channels else insert closed.key left channels
  ]
]

-- `removeConnection`, and the counter.
pub remove_connection : ConnClosed → Stream → Stream
unfolding leave
remove_connection closed s = record s {
  channels = leave closed s.channels;
  conn_count = decrement s.conn_count;
}
