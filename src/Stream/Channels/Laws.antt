-- ===== src/Stream/Channels/Laws.antt =====
-- What a notification of one channel sends and remembers.
use configcat_proxy.Base.{
  nat_eq, ◌==◌, if◌then◌else◌, Bool-cases, contains, ℕ, ◌+◌, String, ◌≡◌, refl, ◌⊎◌, inl, inr, Bool,
  true, false, not, ◌&&◌, List, [], ◌∷◌, ◌++◌, arith, string_eq, int_eq,
}
use configcat_proxy.Base.Dict.{Dict}
use configcat_proxy.Model.{UserAttrs, ResponsePayload, payload_from_eval_data}
use configcat_proxy.Stream.Channels.{
  SdkClient, Message, Holder, Channel, single_flag, all_flags, payloads, create_channel,
  last_message, holder_of, value_eq, broadcast, no_error, is_nil_map, notify, add_to, remove_first,
  remove_from, is_empty_channel,
}

-- How often a connection occurs, in a list of connections and among the receivers of messages.
unfoldable pub count : ℕ → List ℕ → ℕ
count conn [] = 0
count conn (c ∷ conns) = if c == conn then count conn conns + 1 else count conn conns

unfoldable pub received : ℕ → List (ℕ × Message) → ℕ
received conn [] = 0
received conn ((c, m) ∷ ms) = if c == conn then received conn ms + 1 else received conn ms

received-broadcast :
    (m : Message) (conns : List ℕ) (conn : ℕ) → received conn (broadcast m conns) ≡ count conn conns
unfolding broadcast received count
received-broadcast m [] conn = refl
received-broadcast m (c ∷ conns) conn = ground (arith, received-broadcast m conns conn)

-- What a channel shows of a client. The last payload of one flag is that of its evaluation, or has
-- the same value, perhaps of another variation; or the evaluation failed.
pub data IsCurrent (client : SdkClient) (key : String) : Channel → Type 0 where
  fresh_flag :
      {last : ResponsePayload} {h : Holder}
      → last ≡ payload_from_eval_data (client.eval key h.user)
      → IsCurrent client key (single_flag last h)
  same_flag :
      {last : ResponsePayload} {h : Holder}
      → value_eq (client.eval key h.user).value last.value ≡ true
      → IsCurrent client key (single_flag last h)
  failed_flag :
      {last : ResponsePayload} {h : Holder}
      → no_error (client.eval key h.user).error ≡ false
      → IsCurrent client key (single_flag last h)
  current_all :
      {last : Dict String ResponsePayload} {h : Holder}
      → last ≡ payloads (client.eval_all h.user)
      → IsCurrent client key (all_flags last h)
  empty_all :
      {last : Dict String ResponsePayload} {h : Holder}
      → client.eval_all h.user ≡ []
      → IsCurrent client key (all_flags last h)

-- There is something to send: the flag evaluates without an error to another value, or there are
-- flags at all.
unfoldable pub changes : SdkClient → String → Channel → Bool
changes client key (single_flag last h) =
    let val = client.eval key h.user in no_error val.error && not (value_eq val.value last.value)
changes client key (all_flags last h) = not (is_nil_map (client.eval_all h.user))

pub notify-IsCurrent :
    (client : SdkClient) (key : String) (ch : Channel)
    → IsCurrent client key (notify client key ch).0
unfolding notify
notify-IsCurrent client key (single_flag last h) =
    elim (Bool-cases (no_error (client.eval key h.user).error)) [
      | inr bad ↦ rw (bad, notify) (failed_flag bad)
      | inl good ↦ elim (Bool-cases (value_eq (client.eval key h.user).value last.value)) [
        | inl same ↦ rw (good, notify) (rw same (same_flag same))
        | inr changed ↦ rw (good, notify) (rw changed (fresh_flag refl))
      ]
    ]
notify-IsCurrent client key (all_flags last h) =
    elim (Bool-cases (is_nil_map (client.eval_all h.user))) [
      | inl none_left ↦ rw (none_left, notify) (empty_all (ground arith))
      | inr some_left ↦ rw (some_left, notify) (current_all refl)
    ]

-- What a notification of one channel does, by whether there is something to send.
pub notify_lem :
    (client : SdkClient) (key : String) (ch : Channel)
    → (holder_of (notify client key ch).0 ≡ holder_of ch)
      × (((changes client key ch ≡ false) × (notify client key ch ≡ (ch, [])))
          ⊎ ((changes client key ch ≡ true)
              × ((notify client key ch).1
                  ≡ broadcast (last_message (notify client key ch).0) (holder_of ch).connections)))
unfolding notify changes holder_of last_message
notify_lem client key (single_flag last h) =
    elim (Bool-cases (no_error (client.eval key h.user).error)) [
      | inr bad ↦ (ground arith, inl (ground arith, ground arith))
      | inl good ↦ elim (Bool-cases (value_eq (client.eval key h.user).value last.value)) [
        | inl same ↦ (ground arith, inl (ground arith, ground arith))
        | inr changed ↦ (ground arith, inr (ground arith, ground arith))
      ]
    ]
notify_lem client key (all_flags last h) = elim (Bool-cases (is_nil_map (client.eval_all h.user))) [
  | inl none_left ↦ (ground arith, inl (ground arith, ground arith))
  | inr some_left ↦ (ground arith, inr (ground arith, ground arith))
]

-- The message `m` is among those that are put into the connection's channel.
abbrev pub Gets : ℕ → Message → List (ℕ × Message) → Type 0
Gets conn m [] = ⊥
Gets conn m ((c, n) ∷ ms) = ((c ≡ conn) × (n ≡ m)) ⊎ Gets conn m ms

pub Gets-left :
    (conn : ℕ) (m : Message) (xs ys : List (ℕ × Message)) → Gets conn m xs → Gets conn m (xs ++ ys)
Gets-left conn m [] ys h = absurd h
Gets-left conn m ((c, n) ∷ xs) ys (inl here) = inl here
Gets-left conn m ((c, n) ∷ xs) ys (inr later) = inr (Gets-left conn m xs ys later)

pub Gets-right :
    (conn : ℕ) (m : Message) (xs ys : List (ℕ × Message)) → Gets conn m ys → Gets conn m (xs ++ ys)
Gets-right conn m [] ys h = h
Gets-right conn m ((c, n) ∷ xs) ys h = inr (Gets-right conn m xs ys h)

pub Gets-broadcast :
    (conn : ℕ) (m : Message) (conns : List ℕ)
    → contains conns conn ≡ true
    → Gets conn m (broadcast m conns)
unfolding broadcast contains
Gets-broadcast conn m [] h = cc
Gets-broadcast conn m (c ∷ conns) h = elim (Bool-cases (c == conn)) [
  | inl same ↦ inl ((nat_eq.beq_iff c conn).0 same, refl)
  | inr other ↦
      inr
        (Gets-broadcast conn m conns (ground (arith, nat_eq.beq_iff c conn, nat_eq.beq_iff conn c)))
]

pub received-append :
    (conn : ℕ) (xs ys : List (ℕ × Message))
    → received conn (xs ++ ys) ≡ received conn xs + received conn ys
unfolding received
received-append conn [] ys = omega arith
received-append conn ((c, n) ∷ xs) ys = ground (arith, received-append conn xs ys)

-- How many messages a notification of the channel is to put into the connection's channel: one for
-- each time that it was added, if there is something to send.
abbrev pub due : SdkClient → String → Channel → ℕ → ℕ
due client key ch conn = if changes client key ch then count conn (holder_of ch).connections else 0

pub received-notify :
    (client : SdkClient) (key : String) (ch : Channel) (conn : ℕ)
    → received conn (notify client key ch).1 ≡ due client key ch conn
unfolding received
received-notify client key ch conn = elim (notify_lem client key ch).1 [
  | inl (still, same) ↦ ground (arith, same)
  | inr (changed, sent) ↦
      rw (sent, changed)
        (received-broadcast (last_message (notify client key ch).0) (holder_of ch).connections conn)
]

remove_first-append :
    (conn : ℕ) (conns : List ℕ)
    → contains conns conn ≡ false
    → remove_first conn (conns ++ conn ∷ []) ≡ conns
unfolding remove_first contains
remove_first-append conn [] h = ground (arith, nat_eq.beq_iff conn conn)
remove_first-append conn (c ∷ conns) h =
    ground (arith, nat_eq.beq_iff c conn, nat_eq.beq_iff conn c, remove_first-append conn conns)

-- Adding a connection and removing it leaves a channel that did not have it as it was.
pub remove_from-add_to :
    (conn : ℕ) (ch : Channel)
    → contains (holder_of ch).connections conn ≡ false
    → remove_from conn (add_to conn ch) ≡ ch
unfolding remove_from add_to holder_of
remove_from-add_to conn (single_flag last h) fresh =
    ground (arith, remove_first-append conn h.connections)
remove_from-add_to conn (all_flags last h) fresh =
    ground (arith, remove_first-append conn h.connections)

pub last_message-add_to :
    (conn : ℕ) (ch : Channel) → last_message (add_to conn ch) ≡ last_message ch
unfolding last_message add_to holder_of
last_message-add_to conn (single_flag last h) = refl
last_message-add_to conn (all_flags last h) = refl

pub is_empty-add_to : (conn : ℕ) (ch : Channel) → is_empty_channel (add_to conn ch) ≡ false
unfolding is_empty_channel add_to holder_of
is_empty-add_to conn (single_flag last h) = filled h.connections
  where
    filled : (conns : List ℕ) → is_nil_map (conns ++ conn ∷ []) ≡ false
    filled [] = refl
    filled (c ∷ conns) = refl
is_empty-add_to conn (all_flags last h) = filled h.connections
  where
    filled : (conns : List ℕ) → is_nil_map (conns ++ conn ∷ []) ≡ false
    filled [] = refl
    filled (c ∷ conns) = refl

pub is_empty-notify :
    (client : SdkClient) (key : String) (ch : Channel)
    → is_empty_channel (notify client key ch).0 ≡ is_empty_channel ch
unfolding is_empty_channel notify holder_of
is_empty-notify client key (single_flag last h) = ground arith
is_empty-notify client key (all_flags last h) = ground arith

pub create_channel-is_empty :
    (key : String) (user : UserAttrs) (client : SdkClient)
    → (is_empty_channel (create_channel key user client) ≡ true)
      × (contains (holder_of (create_channel key user client)).connections 0 ≡ false)
      × ((conn : ℕ)
          → is_empty_channel (remove_from conn (add_to conn (create_channel key user client)))
            ≡ true)
unfolding is_empty_channel create_channel holder_of contains remove_from add_to remove_first
create_channel-is_empty key user client =
    (ground arith, ground arith, λ conn. ground (arith, nat_eq.beq_iff conn conn))
