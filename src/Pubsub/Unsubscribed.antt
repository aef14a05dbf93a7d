-- ===== src/Pubsub/Unsubscribed.antt =====
-- A channel that is not subscribed, pubsub/publisher.go.
use configcat_proxy.Base.{All, ℕ, ◌≡◌, refl, ◌∙◌, none, List, [], ◌∷◌, arith, nat_eq}
use configcat_proxy.Base.Dict.{
  keys, lookup, lookup-insert, lookup-delete, IsMap, insert-IsMap, delete-IsMap,
}
use configcat_proxy.Pubsub.{
  PubSub, Event, publish, subscribe, unsubscribe, close, deliver, leave, send_all, take_data, step,
  run,
}
use mathlib.Core.List.{append-nil}
use configcat_proxy.Pubsub.Laws.{received, received-append, received-send_all, Ignores}

module _ {ℓ} {T : Type ℓ} where
  abbrev pub IsUnsubscribed : ℕ → PubSub T → Type 0
  IsUnsubscribed ch p = IsMap p.subscriptions × (lookup ch p.subscriptions ≡ none)

  take_data-IsUnsubscribed :
      (ch : ℕ) (queue : List T) (p : PubSub T)
      → IsUnsubscribed ch p
      → IsUnsubscribed ch (take_data queue p)
        × (received ch (take_data queue p).delivered ≡ received ch p.delivered)
  unfolding take_data
  take_data-IsUnsubscribed ch [] p h = (h, refl)
  take_data-IsUnsubscribed ch (value ∷ queue) p (once, h) = (
    (once, h),
    rw
        (
          received-append ch p.delivered (send_all value (keys p.subscriptions)),
          received-send_all ch value p.subscriptions once,
          h,
        )
        (append-nil (received ch p.delivered)),
  )

  step-IsUnsubscribed :
      (ch : ℕ) (e : Event T) (p : PubSub T)
      → IsUnsubscribed ch p
      → Ignores ch e
      → IsUnsubscribed ch (step e p) × (received ch (step e p).delivered ≡ received ch p.delivered)
  unfolding step
  step-IsUnsubscribed ch (publish value) p h k = ground arith
  step-IsUnsubscribed ch (subscribe c) p (once, h) k =
      ground (arith, insert-IsMap c tt p.subscriptions once, lookup-insert c ch tt p.subscriptions)
  step-IsUnsubscribed ch (unsubscribe c) p (once, h) k =
      ground (arith, delete-IsMap c p.subscriptions once, lookup-delete c ch p.subscriptions)
  step-IsUnsubscribed ch close p h k = (h, refl)
  step-IsUnsubscribed ch deliver p h k = ground (arith, take_data-IsUnsubscribed ch p.queue p h)
  step-IsUnsubscribed ch leave p h k = ground arith

  -- A channel that is not subscribed receives nothing until it is.
  pub received-run_unsubscribed :
      (ch : ℕ) (es : List (Event T)) (p : PubSub T)
      → IsUnsubscribed ch p
      → All (Ignores ch) es
      → received ch (run es p).delivered ≡ received ch p.delivered
  unfolding run
  received-run_unsubscribed ch [] p h ks = refl
  received-run_unsubscribed ch (e ∷ es) p h (k, ks) =
      let (h', same) = step-IsUnsubscribed ch e p h k in
      received-run_unsubscribed ch es (step e p) h' ks ∙ same
