-- ===== src/Pubsub.antt =====
-- pubsub/publisher.go: the publisher of the SDK ids, and of the configuration changes of a client.
-- Channels are numbers. The `run` loop takes one event at a time: an unbuffered send is one event
-- with its reception, and a published value waits in the buffer. A `Publish` that finds the buffer
-- full waits, so that its event comes later; the bound of 64 is left out.
pub mod Laws
pub mod Unsubscribed
mod Tests
use configcat_proxy.Base.{if◌then◌else◌, ℕ, Bool, true, false, List, [], ◌∷◌, ◌++◌, nat_eq}
use configcat_proxy.Base.Dict.{Dict, keys, insert, delete}

pub record PubSub {ℓ} (T : Type ℓ) : Type ℓ where
  pub subscriptions : Dict ℕ (Unit {0})
  pub queue : List T
  -- What the subscribers have received, in order.
  pub delivered : List (ℕ × T)
  -- `stop` is closed, and the loop has returned.
  pub stopped : Bool
  pub returned : Bool

pub data Event {ℓ} (T : Type ℓ) : Type ℓ where
  publish : T → Event T
  subscribe unsubscribe : ℕ → Event T
  close deliver leave : Event T

module _ {ℓ} {T : Type ℓ} where
  abbrev pub new_publisher : PubSub T
  new_publisher = record {
    subscriptions = [];
    queue = [];
    delivered = [];
    stopped = false;
    returned = false;
  }

  -- `for sub := range p.subscriptions { sub <- data }`.
  pub send_all : T → List ℕ → List (ℕ × T)
  send_all value [] = []
  send_all value (sub ∷ subs) = (sub, value) ∷ send_all value subs

  -- The first case of the `select`, when the buffer has a value.
  take_data : List T → PubSub T → PubSub T
  unfolding send_all
  take_data [] p = p
  take_data (value ∷ queue) p = record p {
    queue = queue;
    delivered = p.delivered ++ send_all value (keys p.subscriptions);
  }

  -- The calls of the interface, and the steps of the loop of their own.
  pub step : Event T → PubSub T → PubSub T
  unfolding take_data
  step (publish value) p = if p.stopped then p else record p { queue = p.queue ++ value ∷ [] }
  step (subscribe ch) p =
      if p.stopped then p else record p { subscriptions = insert ch tt p.subscriptions }
  step (unsubscribe ch) p =
      if p.stopped then p else record p { subscriptions = delete ch p.subscriptions }
  step close p = record p { stopped = true }
  step deliver p = if p.returned then p else take_data p.queue p
  step leave p = if p.stopped then record p { returned = true } else p

  pub run : List (Event T) → PubSub T → PubSub T
  unfolding step
  run [] p = p
  run (e ∷ es) p = run es (step e p)
