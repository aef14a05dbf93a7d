-- ===== src/Stream/Reach.antt =====
-- The event loop of stream/stream.go: the rounds of `run` as steps, and what holds in every state
-- that they reach.
use configcat_proxy.Base.{
  ◌==◌, Bool-cases, Option-cases, ℕ, String, ◌≡◌, refl, ◌∙◌, inl, inr, false, none, some, [], ◌∷◌,
  arith, string_eq, nat_eq,
}
use configcat_proxy.Stream.{
  ConnEstablished, ConnClosed, Stream, new_stream, bucket_or_empty, add_connection, notify_bucket,
  notify_all, notify_connections, leave_bucket, is_nil_bucket, leave, remove_connection,
}
use configcat_proxy.Stream.Laws.{
  channel_at, joins, channel_at-add_connection, channel_at-remove_connection, IsTight, IsFilled,
  channel_at-notify_all,
}
use configcat_proxy.Stream.Channels.{SdkClient, Channel, notify, add_to}
use configcat_proxy.Stream.Channels.Laws.{is_empty-add_to, is_empty-notify}
use configcat_proxy.Base.Dict.{Dict, lookup, insert, lookup-insert, lookup-delete}

add_connection-IsTight :
    (client : SdkClient) (e : ConnEstablished) (s : Stream)
    → IsTight s
    → IsTight (add_connection client e s)
add_connection-IsTight client e s tight k d ch there =
    let (added, _) = channel_at-add_connection client e s k d in
    ground (arith, added, tight k d ch, is_empty-add_to e.conn.id (joins client e s))

remove_connection-IsTight :
    (closed : ConnClosed) (s : Stream) → IsTight s → IsTight (remove_connection closed s)
remove_connection-IsTight closed s tight k d ch there =
    let removed = channel_at-remove_connection closed s k d in
    elim (Option-cases (channel_at s.channels k d)) [
      | inl missing ↦ ground (arith, removed)
      | inr (old, at) ↦ ground (arith, removed, tight k d old at)
    ]

notify_connections-IsTight :
    (client : SdkClient) (s : Stream) → IsTight s → IsTight (notify_connections client s)
unfolding notify_connections
notify_connections-IsTight client s tight k d ch there =
    elim (Option-cases (channel_at s.channels k d)) [
      | inl missing ↦ cc (there, missing, channel_at-notify_all client s.channels k d)
      | inr (old, at) ↦
          let same : (notify client k old).0 ≡ ch =
            ground (arith, channel_at-notify_all client s.channels k d) in
          cc (same, tight k d old at, is_empty-notify client k old)
    ]

insert-is_nil : (d : ℕ) (ch : Channel) (b : Dict ℕ Channel) → is_nil_bucket (insert d ch b) ≡ false
unfolding insert
insert-is_nil d ch [] = refl
insert-is_nil d ch ((j, c) ∷ b) = ground arith

add_connection-IsFilled :
    (client : SdkClient) (e : ConnEstablished) (s : Stream)
    → IsFilled s
    → IsFilled (add_connection client e s)
unfolding add_connection
add_connection-IsFilled client e s filled k bucket there =
    let joined = add_to e.conn.id (joins client e s) in
    let grown = insert e.conn.discriminator joined (bucket_or_empty (lookup e.key s.channels)) in
    ground (
      arith,
      there,
      lookup-insert e.key k grown s.channels,
      filled k bucket,
      insert-is_nil e.conn.discriminator joined (bucket_or_empty (lookup e.key s.channels)),
    )

remove_connection-IsFilled :
    (closed : ConnClosed) (s : Stream) → IsFilled s → IsFilled (remove_connection closed s)
unfolding remove_connection leave
remove_connection-IsFilled closed s filled k bucket there =
    elim (Option-cases (lookup closed.key s.channels)) [
      | inl missing ↦ ground (arith, there, filled k bucket)
      | inr (old, e) ↦ elim (Option-cases (lookup closed.conn.discriminator old)) [
        | inl absent ↦ ground (arith, there, filled k bucket)
        | inr (ch, at) ↦ ground (
          arith,
          there,
          filled k bucket,
          lookup-delete closed.key k s.channels,
          lookup-insert closed.key k (leave_bucket closed.conn old) s.channels,
        )
      ]
    ]

lookup-notify_all :
    (client : SdkClient) (channels : Dict String (Dict ℕ Channel)) (k : String)
    (bucket : Dict ℕ Channel)
    → lookup k (notify_all client channels).0 ≡ some bucket
    → (old : Dict ℕ Channel) × (lookup k channels ≡ some old)
      × (is_nil_bucket bucket ≡ is_nil_bucket old)
unfolding notify_all notify_bucket lookup
lookup-notify_all client [] k bucket there = cc
lookup-notify_all client ((key, []) ∷ channels) k bucket there = elim (Bool-cases (key == k)) [
  | inl same ↦ ([], ground (arith, same), ground (arith, same, there))
  | inr other ↦ rw other (lookup-notify_all client channels k bucket (rw other at there))
]
lookup-notify_all client ((key, (d, ch) ∷ b) ∷ channels) k bucket there =
    elim (Bool-cases (key == k)) [
      | inl same ↦ ((d, ch) ∷ b, ground (arith, same), ground (arith, same, there))
      | inr other ↦ rw other (lookup-notify_all client channels k bucket (rw other at there))
    ]

notify_connections-IsFilled :
    (client : SdkClient) (s : Stream) → IsFilled s → IsFilled (notify_connections client s)
unfolding notify_connections
notify_connections-IsFilled client s filled k bucket there =
    let (old, at, same) = lookup-notify_all client s.channels k bucket there in
    same ∙ filled k old at

-- A round of the loop of `run`; the client is the one of the moment of the round.
pub data Step : Stream → Stream → Type 0 where
  established :
      (client : SdkClient) (e : ConnEstablished) (s : Stream) → Step s (add_connection client e s)
  closed : (c : ConnClosed) (s : Stream) → Step s (remove_connection c s)
  config_changed : (client : SdkClient) (s : Stream) → Step s (notify_connections client s)

-- What the loop reaches.
pub data Reach : Stream → Stream → Type 0 where
  here : (s : Stream) → Reach s s
  next : {r s t : Stream} → Reach r s → Step s t → Reach r t

Step-IsTight : {s t : Stream} → Step s t → IsTight s × IsFilled s → IsTight t × IsFilled t
Step-IsTight (established client e s) (tight, filled) =
    (add_connection-IsTight client e s tight, add_connection-IsFilled client e s filled)
Step-IsTight (closed c s) (tight, filled) =
    (remove_connection-IsTight c s tight, remove_connection-IsFilled c s filled)
Step-IsTight (config_changed client s) (tight, filled) =
    (notify_connections-IsTight client s tight, notify_connections-IsFilled client s filled)

Reach-IsTight : {s t : Stream} → Reach s t → IsTight s × IsFilled s → IsTight t × IsFilled t
Reach-IsTight (here s) tight = tight
Reach-IsTight (next before step) tight = Step-IsTight step (Reach-IsTight before tight)

new_stream-empty : (k : String) (d : ℕ) → channel_at new_stream.channels k d ≡ none
unfolding lookup
new_stream-empty k d = refl

new_stream-IsFilled : IsFilled new_stream
unfolding lookup
new_stream-IsFilled k bucket there = cc

-- Whatever connections were opened and closed, and whatever configurations came in, in whatever
-- order, the event loop of a new stream keeps no channel without a connection, and no bucket of the
-- map without a channel.
pub Reach-new_stream-IsTight : (s : Stream) → Reach new_stream s → IsTight s × IsFilled s
Reach-new_stream-IsTight s reach =
    Reach-IsTight reach (λ k d ch there. cc (there, new_stream-empty k d), new_stream-IsFilled)
