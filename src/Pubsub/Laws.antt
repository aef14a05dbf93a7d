-- ===== src/Pubsub/Laws.antt =====
-- What a subscriber receives.
use configcat_proxy.Base.{
  nat_eq, ◌==◌, if◌then◌else◌, Bool-cases, is_some, All, ℕ, ◌≡◌, refl, sym, ◌∙◌, inl, inr, Bool,
  true, false, List, [], ◌∷◌, ◌++◌, arith,
}
use configcat_proxy.Base.Dict.{
  Dict, keys, lookup, lookup-insert, lookup-delete, IsMap, insert-IsMap, delete-IsMap,
}
use configcat_proxy.Pubsub.{
  PubSub, Event, publish, subscribe, unsubscribe, close, deliver, leave, send_all, take_data, step,
  run,
}
use mathlib.Core.List.{append-nil, append_assoc}

module _ {ℓ} {T : Type ℓ} where
  -- What was sent into the channel `ch`.
  unfoldable pub received : ℕ → List (ℕ × T) → List T
  received ch [] = []
  received ch ((sub, value) ∷ sent) =
      let rest = received ch sent in if sub == ch then value ∷ rest else rest

  pub received-append :
      (ch : ℕ) (xs ys : List (ℕ × T)) → received ch (xs ++ ys) ≡ received ch xs ++ received ch ys
  unfolding received
  received-append ch [] ys = refl
  received-append ch ((sub, value) ∷ xs) ys = ground (arith, received-append ch xs ys)

  pub received-send_all :
      (ch : ℕ) (value : T) (subs : Dict ℕ (Unit {0}))
      → IsMap subs
      → received ch (send_all value (keys subs))
        ≡ (if is_some (lookup ch subs) then value ∷ [] else [])
  unfolding received send_all lookup
  received-send_all ch value [] once = refl
  received-send_all ch value ((sub, u) ∷ subs) (first, once) =
      ground (arith, received-send_all ch value subs once, nat_eq.beq_iff sub ch)

  -- Those of the published values that `Publish` accepts: none after `Close`.
  unfoldable pub accepted : Bool → List (Event T) → List T
  accepted stopped [] = []
  accepted stopped (publish value ∷ es) =
      let rest = accepted stopped es in if stopped then rest else value ∷ rest
  accepted stopped (close ∷ es) = accepted true es
  accepted stopped (_ ∷ es) = accepted stopped es

  abbrev pub Keeps : ℕ → Event T → Type 0
  Keeps ch (unsubscribe c) = (c == ch) ≡ false
  Keeps ch _ = Unit

  abbrev pub Ignores : ℕ → Event T → Type 0
  Ignores ch (subscribe c) = (c == ch) ≡ false
  Ignores ch _ = Unit

  -- What `ch` has received, and what is on its way to it.
  abbrev pub bound_for : ℕ → PubSub T → List T
  bound_for ch p = received ch p.delivered ++ p.queue

  abbrev pub IsSubscribed : ℕ → PubSub T → Type 0
  IsSubscribed ch p = IsMap p.subscriptions × (is_some (lookup ch p.subscriptions) ≡ true)

  step-IsSubscribed :
      (ch : ℕ) (e : Event T) (p : PubSub T)
      → IsSubscribed ch p
      → Keeps ch e
      → IsSubscribed ch (step e p)
  unfolding step take_data
  step-IsSubscribed ch (publish value) p h k = ground arith
  step-IsSubscribed ch (subscribe c) p (once, h) k =
      ground (arith, insert-IsMap c tt p.subscriptions once, lookup-insert c ch tt p.subscriptions)
  step-IsSubscribed ch (unsubscribe c) p (once, h) k =
      ground (arith, delete-IsMap c p.subscriptions once, lookup-delete c ch p.subscriptions)
  step-IsSubscribed ch close p h k = h
  step-IsSubscribed ch deliver p h k = ground (arith, p.queue)
  step-IsSubscribed ch leave p h k = ground arith

  take_data-bound :
      (ch : ℕ) (queue : List T) (p : PubSub T)
      → IsSubscribed ch p
      → bound_for ch (take_data queue (record p { queue = queue }))
        ≡ received ch p.delivered ++ queue
  unfolding take_data
  take_data-bound ch [] p h = refl
  take_data-bound ch (value ∷ queue) p (once, h) =
      rw
        (
          received-append ch p.delivered (send_all value (keys p.subscriptions)),
          received-send_all ch value p.subscriptions once,
          h,
          append_assoc (received ch p.delivered) (value ∷ []) queue,
        )
        refl

  take_data-stopped : (queue : List T) (p : PubSub T) → (take_data queue p).stopped ≡ p.stopped
  unfolding take_data
  take_data-stopped [] p = refl
  take_data-stopped (value ∷ queue) p = refl

  step-bound :
      (ch : ℕ) (e : Event T) (es : List (Event T)) (p : PubSub T)
      → IsSubscribed ch p
      → bound_for ch (step e p) ++ accepted (step e p).stopped es
        ≡ bound_for ch p ++ accepted p.stopped (e ∷ es)
  unfolding step accepted
  step-bound ch (publish value) es p h = elim (Bool-cases p.stopped) [
    | inl gone ↦ ground (arith, gone)
    | inr open_still ↦
        rw
          (
            open_still,
            append_assoc (received ch p.delivered) (p.queue ++ value ∷ []) (accepted false es),
            append_assoc p.queue (value ∷ []) (accepted false es),
            append_assoc (received ch p.delivered) p.queue (value ∷ accepted false es),
          )
          refl
  ]
  step-bound ch (subscribe c) es p h = ground arith
  step-bound ch (unsubscribe c) es p h = ground arith
  step-bound ch close es p h = refl
  step-bound ch deliver es p h =
      ground (arith, take_data-bound ch p.queue p h, take_data-stopped p.queue p)
  step-bound ch leave es p h = ground arith

  -- What a subscribed channel has received, followed by what is in the buffer, grows by the values
  -- that are accepted.
  pub received-run :
      (ch : ℕ) (es : List (Event T)) (p : PubSub T)
      → IsSubscribed ch p
      → All (Keeps ch) es
      → received ch (run es p).delivered ++ (run es p).queue
        ≡ (received ch p.delivered ++ p.queue) ++ accepted p.stopped es
  unfolding run accepted
  received-run ch [] p h ks = sym (append-nil (bound_for ch p))
  received-run ch (e ∷ es) p h (k, ks) =
      received-run ch es (step e p) (step-IsSubscribed ch e p h k) ks ∙ step-bound ch e es p h

  -- One reception of the loop for each value of a buffer.
  abbrev pub delivers : List T → List (Event T)
  delivers [] = []
  delivers (value ∷ queue) = deliver ∷ delivers queue

  abbrev taken : T → List T → PubSub T → PubSub T
  taken value queue p = record p {
    queue = queue;
    delivered = p.delivered ++ send_all value (keys p.subscriptions);
  }
