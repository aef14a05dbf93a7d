-- ===== src/Stream/Notified.antt =====
-- What `notifyConnections` of stream/stream.go puts into the channels of the connections.
use configcat_proxy.Base.{
  ◌==◌, Bool-cases, contains, ℕ, ◌+◌, String, ◌≡◌, refl, sym, ◌⊎◌, inl, inr, true, false, some,
  List, [], ◌∷◌, ◌++◌, arith, eq_iff, string_eq, nat_eq,
}
use configcat_proxy.Base.Dict.{Dict, lookup}
use mathlib.Core.Path.{subst}
use configcat_proxy.Stream.{Stream, notify_bucket, notify_all, notify_connections}
use configcat_proxy.Stream.Laws.{channel_at, channel_at-notify_all}
use configcat_proxy.Stream.Channels.{SdkClient, Message, Channel, last_message, holder_of, notify}
use configcat_proxy.Stream.Channels.Laws.{
  received, IsCurrent, changes, notify-IsCurrent, notify_lem, Gets, Gets-left, Gets-right,
  Gets-broadcast, received-append, due, received-notify,
}

module _ (client : SdkClient) (conn : ℕ) where
  -- How many messages are due to the connection in all channels.
  unfoldable pub due_bucket : String → Dict ℕ Channel → ℕ
  due_bucket key [] = 0
  due_bucket key ((d, ch) ∷ bucket) = due client key ch conn + due_bucket key bucket

  unfoldable pub due_all : Dict String (Dict ℕ Channel) → ℕ
  due_all [] = 0
  due_all ((key, bucket) ∷ channels) = due_bucket key bucket + due_all channels

  received-notify_bucket :
      (key : String) (bucket : Dict ℕ Channel)
      → received conn (notify_bucket client key bucket).1 ≡ due_bucket key bucket
  unfolding notify_bucket due_bucket received
  received-notify_bucket key [] = refl
  received-notify_bucket key ((d, ch) ∷ bucket) = omega (
    arith,
    received-append conn (notify client key ch).1 (notify_bucket client key bucket).1,
    received-notify client key ch conn,
    received-notify_bucket key bucket,
  )

  received-notify_all :
      (channels : Dict String (Dict ℕ Channel))
      → received conn (notify_all client channels).1 ≡ due_all channels
  unfolding notify_all due_all received
  received-notify_all [] = refl
  received-notify_all ((key, bucket) ∷ channels) = omega (
    arith,
    received-append conn (notify_bucket client key bucket).1 (notify_all client channels).1,
    received-notify_bucket key bucket,
    received-notify_all channels,
  )

  module _ (m : Message) where
    Gets-notify_bucket :
        (key : String) (bucket : Dict ℕ Channel) (d : ℕ) (ch : Channel)
        → lookup d bucket ≡ some ch
        → Gets conn m (notify client key ch).1
        → Gets conn m (notify_bucket client key bucket).1
    unfolding notify_bucket lookup
    Gets-notify_bucket key [] d ch there h = cc
    Gets-notify_bucket key ((j, first) ∷ bucket) d ch there h =
        let sent = (notify client key first).1 in
        let others = (notify_bucket client key bucket).1 in
        elim (Bool-cases (j == d)) [
          | inl same ↦
              let here : first ≡ ch = ground (arith, there, same) in
              Gets-left conn m sent others
                (subst (λ x. Gets conn m (notify client key x).1) (sym here) h)
          | inr other ↦
              Gets-right conn m sent others
                (Gets-notify_bucket key bucket d ch (ground (arith, there, other)) h)
        ]

    Gets-notify_all :
        (channels : Dict String (Dict ℕ Channel)) (k : String) (d : ℕ) (ch : Channel)
        → channel_at channels k d ≡ some ch
        → Gets conn m (notify client k ch).1
        → Gets conn m (notify_all client channels).1
    unfolding notify_all lookup
    Gets-notify_all [] k d ch there h = cc
    Gets-notify_all ((key, bucket) ∷ channels) k d ch there h =
        let sent = (notify_bucket client key bucket).1 in
        let others = (notify_all client channels).1 in
        elim (Bool-cases (key == k)) [
          | inl same ↦
              let mine : lookup d bucket ≡ some ch = rw (same, lookup) at there in
              let name : key ≡ k = (eq_iff key k).0 same in
              Gets-left conn m sent others (
                subst (λ x. Gets conn m (notify_bucket client x bucket).1) (sym name)
                  (Gets-notify_bucket k bucket d ch mine h))
          | inr other ↦
              Gets-right conn m sent others
                (Gets-notify_all channels k d ch (rw (other, lookup) at there) h)
        ]

  -- What a round of `notifyConnections` did to one channel and to one of its connections.
  pub record IsNotified (s : Stream) (k : String) (d : ℕ) (old : Channel) : Type 0 where
    pub messages : List (ℕ × Message)
    pub new : Channel
    pub sent : (notify_connections client s).sent ≡ s.sent ++ messages
    pub there : channel_at (notify_connections client s).channels k d ≡ some new
    pub same_holder : holder_of new ≡ holder_of old
    pub current : IsCurrent client k new
    pub shown :
        ((changes client k old ≡ false) × (new ≡ old))
        ⊎ ((changes client k old ≡ true) × Gets conn (last_message new) messages)
    pub counted : received conn messages ≡ due_all s.channels

  -- After `notifyConnections` every channel has its connections and its user as before, and shows
  -- what its user sees now: the last payload of a flag is that of the new evaluation, or it has its
  -- value, unless the evaluation failed or gave no flags. Where there was something to send, each
  -- connection of the channel is sent the channel's new last message, and the channel is as it was
  -- where there was not. In all, a connection is sent one message for each channel with something
  -- to send and each time that it was added there, and no other.
  pub notify_connections-IsNotified :
      (s : Stream) (k : String) (d : ℕ) (old : Channel)
      → channel_at s.channels k d ≡ some old
      → contains (holder_of old).connections conn ≡ true
      → IsNotified s k d old
  unfolding notify_connections
  notify_connections-IsNotified s k d old at joined =
      let new = (notify client k old).0 in
      let (holder, cases) = notify_lem client k old in
      record {
        messages = (notify_all client s.channels).1;
        new = new;
        sent = refl;
        there = ground (arith, channel_at-notify_all client s.channels k d);
        same_holder = holder;
        current = notify-IsCurrent client k old;
        shown = elim cases [
          | inl (still, same) ↦ inl (still, ground (arith, same))
          | inr (changed, sent) ↦
              let mine =
                Gets-broadcast conn (last_message new) (holder_of old).connections joined in
              inr (
                changed,
                Gets-notify_all (last_message new) s.channels k d old at
                    (subst (Gets conn (last_message new)) (sym sent) mine),
              )
        ];
        counted = received-notify_all s.channels;
      }
