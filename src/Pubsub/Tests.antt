-- ===== src/Pubsub/Tests.antt =====
-- The theorems on the publisher at a few events.
use configcat_proxy.Base.{ℕ, false, List, [], ◌∷◌, nat_eq}
use configcat_proxy.Pubsub.{PubSub, Event, publish, subscribe, close, deliver}

abbrev one_subscriber : PubSub ℕ
one_subscriber = record {
  subscriptions = (1, tt) ∷ [];
  queue = 5 ∷ [];
  delivered = [];
  stopped = false;
  returned = false;
}

abbrev some_events : List (Event ℕ)
some_events = subscribe 2 ∷ publish 6 ∷ deliver ∷ deliver ∷ publish 7 ∷ close ∷ publish 8 ∷ []
