-- ===== src/Stream/Laws.antt =====
-- The map of channels under the steps of the event loop.
use configcat_proxy.Base.{
  nat_eq, ◌==◌, if◌then◌else◌, Bool-cases, Option-cases, contains, ℕ, String, ◌≡◌, refl, ◌∙◌, inl,
  inr, false, ◌&&◌, Option, none, some, [], ◌∷◌, ◌++◌, arith, eq_iff, string_eq,
}
use configcat_proxy.Base.Dict.{
  Dict, lookup, insert, lookup-insert, lookup-delete, insert-insert, insert-lookup, delete-insert,
}
use configcat_proxy.Stream.{
  Connection, ConnEstablished, ConnClosed, Stream, bucket_or_empty, add_connection, notify_bucket,
  notify_all, leave_bucket, is_nil_bucket, leave, remove_connection,
}
use configcat_proxy.Stream.Channels.{
  SdkClient, Channel, create_channel, last_message, holder_of, notify, add_to, remove_from,
  is_empty_channel,
}
use configcat_proxy.Stream.Channels.Laws.{
  remove_from-add_to, last_message-add_to, create_channel-is_empty,
}

-- The channel of a flag and a user's discriminator.
abbrev pub channel_at : Dict String (Dict ℕ Channel) → String → ℕ → Option Channel
channel_at channels key d = lookup d (bucket_or_empty (lookup key channels))

-- The channel that a connection joins: the one that is there, or a new one.
abbrev pub joins : SdkClient → ConnEstablished → Stream → Channel
joins client e s = elim (channel_at s.channels e.key e.conn.discriminator) [
  | some ch ↦ ch
  | none ↦ create_channel e.key e.user client
]

-- `addConnection` adds the connection to the channel of its flag and user, which is created if it
-- was not there, and leaves every other channel alone; the connection is sent the last message of
-- that channel, and nothing else is sent.
pub channel_at-add_connection :
    (client : SdkClient) (e : ConnEstablished) (s : Stream) (k : String) (d : ℕ)
    → (channel_at (add_connection client e s).channels k d ≡ (
        if e.key == k && e.conn.discriminator == d
        then some (add_to e.conn.id (joins client e s))
        else channel_at s.channels k d))
      × ((add_connection client e s).sent
          ≡ s.sent ++ (e.conn.id, last_message (joins client e s)) ∷ [])
unfolding add_connection
channel_at-add_connection client e s k d = (
  ground (
    arith,
    lookup-insert e.key k
        (insert e.conn.discriminator (add_to e.conn.id (joins client e s))
          (bucket_or_empty (lookup e.key s.channels)))
        s.channels,
    lookup-insert e.conn.discriminator d (add_to e.conn.id (joins client e s))
        (bucket_or_empty (lookup e.key s.channels)),
    eq_iff e.key k,
  ),
  ground (arith, last_message-add_to e.conn.id (joins client e s)),
)

-- A channel without its connection, or none if that was the last one.
abbrev pub prune : ℕ → Option Channel → Option Channel
prune conn none = none
prune conn (some ch) =
    if is_empty_channel (remove_from conn ch) then none else some (remove_from conn ch)

lookup-leave_bucket :
    (conn : Connection) (bucket : Dict ℕ Channel) (d : ℕ)
    → lookup d (leave_bucket conn bucket)
      ≡ (if conn.discriminator == d then prune conn.id (lookup d bucket) else lookup d bucket)
unfolding leave_bucket
lookup-leave_bucket conn bucket d = elim (Option-cases (lookup conn.discriminator bucket)) [
  | inl missing ↦ ground (arith, nat_eq.beq_iff conn.discriminator d)
  | inr (ch, e) ↦ ground (
    arith,
    lookup-insert conn.discriminator d (remove_from conn.id ch) bucket,
    lookup-delete conn.discriminator d bucket,
    nat_eq.beq_iff conn.discriminator d,
  )
]

no_channel : (d : ℕ) → lookup d (bucket_or_empty (some [])) ≡ none
unfolding lookup
no_channel d = refl

-- `removeConnection` takes the connection out of the channel of its flag and user, deletes that
-- channel if it is empty then, and leaves every other channel alone.
pub channel_at-remove_connection :
    (closed : ConnClosed) (s : Stream) (k : String) (d : ℕ)
    → channel_at (remove_connection closed s).channels k d ≡ (
        if closed.key == k && closed.conn.discriminator == d
        then prune closed.conn.id (channel_at s.channels k d)
        else channel_at s.channels k d)
unfolding remove_connection leave
channel_at-remove_connection closed s k d = elim (Option-cases (lookup closed.key s.channels)) [
  | inl missing ↦
      ground (arith, no_channel d, eq_iff closed.key k, nat_eq.beq_iff closed.conn.discriminator d)
  | inr (bucket, e) ↦ elim (Option-cases (lookup closed.conn.discriminator bucket)) [
    | inl absent ↦
        ground
          (arith, no_channel d, eq_iff closed.key k, nat_eq.beq_iff closed.conn.discriminator d)
    | inr (ch, at) ↦ ground (
      arith,
      eq_iff closed.key k,
      lookup-leave_bucket closed.conn bucket d,
      lookup-delete closed.key k s.channels,
      lookup-insert closed.key k (leave_bucket closed.conn bucket) s.channels,
    )
  ]
]

-- No channel is kept without a connection.
abbrev pub IsTight : Stream → Type 0
IsTight s =
    (k : String) (d : ℕ) (ch : Channel)
    → channel_at s.channels k d ≡ some ch
    → is_empty_channel ch ≡ false

-- No bucket is kept without a channel.
abbrev pub IsFilled : Stream → Type 0
IsFilled s =
    (k : String) (bucket : Dict ℕ Channel)
    → lookup k s.channels ≡ some bucket
    → is_nil_bucket bucket ≡ false

-- A bucket that a connection has joined and left.
leave_bucket-joined :
    (client : SdkClient) (e : ConnEstablished) (s : Stream)
    → IsTight s
    → contains (holder_of (joins client e s)).connections e.conn.id ≡ false
    → leave_bucket e.conn (
        insert e.conn.discriminator
          (add_to e.conn.id (joins client e s))
          (bucket_or_empty (lookup e.key s.channels)))
      ≡ bucket_or_empty (lookup e.key s.channels)
unfolding leave_bucket
leave_bucket-joined client e s tight fresh =
    let d = e.conn.discriminator in
    let bucket = bucket_or_empty (lookup e.key s.channels) in
    let joined = add_to e.conn.id (joins client e s) in
    let back = remove_from-add_to e.conn.id (joins client e s) fresh in
    let (_, _, gone) = create_channel-is_empty e.key e.user client in
    let there : lookup d (insert d joined bucket) ≡ some joined =
      lookup-insert d d joined bucket ∙ ground (arith, nat_eq.beq_iff d d) in
    elim (Option-cases (lookup d bucket)) [
      | inl new ↦ ground (arith, there, gone e.conn.id, delete-insert d joined bucket new)
      | inr (ch, at) ↦ ground (
        arith,
        there,
        back,
        tight e.key d ch at,
        insert-insert d ch joined bucket,
        insert-lookup d ch bucket at,
      )
    ]

-- Opening a connection and closing it gives back the whole map of channels and the counter as they
-- were, if no channel was kept without a connection, no bucket without a channel, and the
-- connection was not in the channel yet.
pub remove_connection-add_connection :
    (client : SdkClient) (e : ConnEstablished) (s : Stream)
    → IsTight s
    → IsFilled s
    → contains (holder_of (joins client e s)).connections e.conn.id ≡ false
    → let after =
        remove_connection (record { conn = e.conn; key = e.key }) (add_connection client e s) in
      (after.channels ≡ s.channels) × (after.conn_count ≡ s.conn_count)
unfolding add_connection remove_connection leave
remove_connection-add_connection client e s tight filled fresh =
    let bucket = bucket_or_empty (lookup e.key s.channels) in
    let grown = insert e.conn.discriminator (add_to e.conn.id (joins client e s)) bucket in
    let left : leave_bucket e.conn grown ≡ bucket = leave_bucket-joined client e s tight fresh in
    let at : lookup e.key (insert e.key grown s.channels) ≡ some grown =
      lookup-insert e.key e.key grown s.channels ∙ ground (arith, eq_iff e.key e.key) in
    let there =
      lookup-insert e.conn.discriminator e.conn.discriminator (add_to e.conn.id (joins client e s))
        bucket in
    (
      elim (Option-cases (lookup e.key s.channels)) [
        | inl new ↦ ground (
          arith,
          at,
          there,
          left,
          nat_eq.beq_iff e.conn.discriminator e.conn.discriminator,
          delete-insert e.key grown s.channels new,
        )
        | inr (old, found) ↦ ground (
          arith,
          at,
          there,
          left,
          nat_eq.beq_iff e.conn.discriminator e.conn.discriminator,
          filled e.key old found,
          insert-insert e.key old grown s.channels,
          insert-lookup e.key old s.channels found,
        )
      ],
      ground arith,
    )

-- A channel after its `Notify`.
abbrev pub notified : SdkClient → String → Option Channel → Option Channel
notified client key none = none
notified client key (some ch) = some (notify client key ch).0

lookup-notify_bucket :
    (client : SdkClient) (key : String) (bucket : Dict ℕ Channel) (d : ℕ)
    → lookup d (notify_bucket client key bucket).0 ≡ notified client key (lookup d bucket)
unfolding notify_bucket lookup
lookup-notify_bucket client key [] d = refl
lookup-notify_bucket client key ((j, ch) ∷ bucket) d =
    ground (arith, lookup-notify_bucket client key bucket d)

pub channel_at-notify_all :
    (client : SdkClient) (channels : Dict String (Dict ℕ Channel)) (k : String) (d : ℕ)
    → channel_at (notify_all client channels).0 k d ≡ notified client k (channel_at channels k d)
unfolding notify_all lookup
channel_at-notify_all client [] k d = refl
channel_at-notify_all client ((key, bucket) ∷ channels) k d = elim (Bool-cases (key == k)) [
  | inl same ↦
      rw (same, lookup) (rw (← (eq_iff key k).0 same) (lookup-notify_bucket client key bucket d))
  | inr other ↦ rw (other, lookup) (channel_at-notify_all client channels k d)
]
