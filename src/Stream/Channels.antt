-- ===== src/Stream/Channels.antt =====
-- stream/channel.go: the connections that share a flag and a user, and what they last received.
-- A connection is the number of its pointer.
pub mod Laws
use configcat_proxy.Base.{
  ltb, ◌==◌, if◌then◌else◌, ℕ, ◌%◌, String, Bool, true, false, not, ◌&&◌, ◌||◌, Option, none, some,
  List, [], ◌∷◌, ◌++◌, string_eq, nat_eq, int_eq,
}
use configcat_proxy.Base.Dict.{Dict}
use configcat_proxy.Model.{
  UserAttrs, EvalError, Value, nil_value, bool_value, int_value, double_value, string_value,
  EvalData, ResponsePayload, payload_from_eval_data,
}

-- The two calls of `sdk.Client` that evaluate flags, at the time of a step.
pub record SdkClient : Type 0 where
  pub eval : String → UserAttrs → EvalData
  pub eval_all : UserAttrs → Dict String EvalData

pub data Message : Type 0 where
  one_flag : ResponsePayload → Message
  all_of : Dict String ResponsePayload → Message

pub record Holder : Type 0 where
  pub connections : List ℕ
  pub user : UserAttrs

pub data Channel : Type 0 where
  single_flag : ResponsePayload → Holder → Channel
  all_flags : Dict String ResponsePayload → Holder → Channel

abbrev pub all_flags_discriminator : String
all_flags_discriminator = "[ALL]"

-- The loop that turns evaluations into payloads.
pub payloads : Dict String EvalData → Dict String ResponsePayload
payloads [] = []
payloads ((key, val) ∷ values) = (key, payload_from_eval_data val) ∷ payloads values

pub create_channel : String → UserAttrs → SdkClient → Channel
unfolding payloads
create_channel key user client =
    let holder : Holder = record { connections = []; user = user } in
    if key == all_flags_discriminator
    then all_flags (payloads (client.eval_all user)) holder
    else single_flag (payload_from_eval_data (client.eval key user)) holder

pub last_message : Channel → Message
last_message (single_flag last h) = one_flag last
last_message (all_flags last h) = all_of last

unfoldable pub holder_of : Channel → Holder
holder_of (single_flag last h) = h
holder_of (all_flags last h) = h

abbrev pub with_holder : Holder → Channel → Channel
with_holder h (single_flag last _) = single_flag last h
with_holder h (all_flags last _) = all_flags last h

-- Go's `==` on two `float64`, by their bits: a NaN equals nothing, and the two zeros are equal.
abbrev is_nan : ℕ → Bool
is_nan bits = ltb 9218868437227405312 (bits % 9223372036854775808)

abbrev is_zero : ℕ → Bool
is_zero bits = bits % 9223372036854775808 == 0

pub float_eq : ℕ → ℕ → Bool
float_eq x y = not (is_nan x) && (not (is_nan y) && (x == y || (is_zero x && is_zero y)))

-- `==` on two values, of which `Notify` takes the negation.
pub value_eq : Value → Value → Bool
unfolding float_eq
value_eq nil_value nil_value = true
value_eq (bool_value true) (bool_value true) = true
value_eq (bool_value false) (bool_value false) = true
value_eq (int_value m) (int_value n) = m == n
value_eq (double_value x) (double_value y) = float_eq x y
value_eq (string_value s) (string_value t) = s == t
value_eq _ _ = false

-- One message for each connection, in order.
pub broadcast : Message → List ℕ → List (ℕ × Message)
broadcast m [] = []
broadcast m (conn ∷ conns) = (conn, m) ∷ broadcast m conns

abbrev pub no_error : Option EvalError → Bool
no_error none = true
no_error (some e) = false

abbrev pub is_nil_map {ℓ} : {A : Type ℓ} → List A → Bool
is_nil_map [] = true
is_nil_map (x ∷ xs) = false

-- `Notify`: the channel after it, and the messages; the count is their number.
pub notify : SdkClient → String → Channel → Channel × List (ℕ × Message)
unfolding payloads value_eq broadcast
notify client key (single_flag last h) =
    let val = client.eval key h.user in
    if not (no_error val.error)
    then (single_flag last h, [])
    else if not (value_eq val.value last.value)
    then (
      single_flag (payload_from_eval_data val) h,
      broadcast (one_flag (payload_from_eval_data val)) h.connections,
    )
    else (single_flag last h, [])
notify client key (all_flags last h) =
    let values = client.eval_all h.user in
    if is_nil_map values
    then (all_flags last h, [])
    else (all_flags (payloads values) h, broadcast (all_of (payloads values)) h.connections)

-- `AddConnection`.
pub add_to : ℕ → Channel → Channel
unfolding holder_of
add_to conn ch =
    with_holder (record (holder_of ch) { connections = (holder_of ch).connections ++ conn ∷ [] }) ch

-- The first occurrence is cut out.
pub remove_first : ℕ → List ℕ → List ℕ
remove_first conn [] = []
remove_first conn (c ∷ conns) = if c == conn then conns else c ∷ remove_first conn conns

-- `RemoveConnection`.
pub remove_from : ℕ → Channel → Channel
unfolding holder_of remove_first
remove_from conn ch =
    with_holder
      (record (holder_of ch) { connections = remove_first conn (holder_of ch).connections }) ch

-- `IsEmpty`.
pub is_empty_channel : Channel → Bool
unfolding holder_of
is_empty_channel ch = is_nil_map (holder_of ch).connections
