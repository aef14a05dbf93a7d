-- ===== src/Registrar/Refresh/Published.antt =====
-- Which SDK ids a refresh of the profile publishes to the subscribers of the registrar.
use configcat_proxy.Base.{
  ◌==◌, if◌then◌else◌, Bool-cases, is_some, contains, ℕ, String, ◌≡◌, refl, ◌∙◌, ◌⊎◌, inl, inr,
  true, false, Option, none, List, [], ◌∷◌, arith, eq_iff, string_eq, nat_eq,
}
use configcat_proxy.Base.Dict.{Dict, lookup, lookup-insert, lookup-delete}
use configcat_proxy.Model.{SdkConfigModel, ProxyConfigModel}
use configcat_proxy.Registrar.{
  AutoRegistrar, delete_sdk_client, delete_sdk_clients, add_sdk_client, reset_sdk_client, for_sdks,
  add_sdk_clients, reset_sdk_clients, should_update_options,
}
use configcat_proxy.Registrar.Steps.{Inv}
use configcat_proxy.Registrar.Refresh.{check_sdk, check_sdks, update_sdk_clients, refresh_config}
use configcat_proxy.Registrar.Refresh.Loops.{
  delete_sdk_clients-Inv, for_sdks-keeps, for_sdks-keeps_other,
}
use configcat_proxy.Registrar.Refresh.KeyChecks.{check_sdks_other}
use configcat_proxy.Registrar.Refresh.Updates.{
  to_add, to_delete, remaining, contains_split, refresh_parts,
}

-- The client of `j` is still `before`, or `j` was published.
abbrev pub IsAnnounced : Option ℕ → AutoRegistrar → String → Type 0
IsAnnounced before r j = (lookup j r.sdk_clients ≡ before) ⊎ (contains r.published j ≡ true)

module _ (before : Option ℕ) (j : String) where
  delete_sdk_client-IsAnnounced :
      (id : String) (r : AutoRegistrar)
      → IsAnnounced before r j
      → IsAnnounced before (delete_sdk_client id r) j
  unfolding delete_sdk_client contains
  delete_sdk_client-IsAnnounced id r p =
      ground (arith, lookup-delete id j r.sdk_clients, eq_iff id j, eq_iff j id)

  add_sdk_client-IsAnnounced :
      (id : String) (m : SdkConfigModel) (r : AutoRegistrar)
      → IsAnnounced before r j
      → IsAnnounced before (add_sdk_client id m r) j
  unfolding add_sdk_client contains
  add_sdk_client-IsAnnounced id m r p =
      ground (arith, lookup-insert id j r.next r.sdk_clients, eq_iff id j, eq_iff j id)

  -- A reset publishes only the id of a client that was there.
  reset_sdk_client-IsAnnounced :
      (id : String) (m : SdkConfigModel) (r : AutoRegistrar)
      → IsAnnounced before r j × (is_some (lookup j r.sdk_clients) ≡ true)
      → IsAnnounced before (reset_sdk_client id m r) j
        × (is_some (lookup j (reset_sdk_client id m r).sdk_clients) ≡ true)
  unfolding reset_sdk_client contains
  reset_sdk_client-IsAnnounced id m r p =
      ground (arith, lookup-insert id j r.next r.sdk_clients, eq_iff id j, eq_iff j id)

  reset_sdk_client_other :
      (id : String) (m : SdkConfigModel) (r : AutoRegistrar)
      → (id == j) ≡ false
      → IsAnnounced before r j
      → IsAnnounced before (reset_sdk_client id m r) j
  unfolding reset_sdk_client contains
  reset_sdk_client_other id m r ne p =
      ground (arith, lookup-insert id j r.next r.sdk_clients, eq_iff id j, eq_iff j id)

  delete_sdk_clients-IsAnnounced :
      (ids : List String) (r : AutoRegistrar)
      → IsAnnounced before r j
      → IsAnnounced before (delete_sdk_clients ids r) j
  unfolding delete_sdk_clients
  delete_sdk_clients-IsAnnounced [] r p = p
  delete_sdk_clients-IsAnnounced (id ∷ ids) r p =
      delete_sdk_clients-IsAnnounced ids (delete_sdk_client id r)
        (delete_sdk_client-IsAnnounced id r p)

  add-IsAnnounced :
      (sdks : Dict String SdkConfigModel) (ids : List String) (r : AutoRegistrar)
      → IsAnnounced before r j
      → IsAnnounced before (for_sdks add_sdk_client sdks ids r) j
  add-IsAnnounced sdks =
      for_sdks-keeps (λ s. IsAnnounced before s j) add_sdk_client sdks
        (λ id m s at p. add_sdk_client-IsAnnounced id m s p)

  reset-IsAnnounced :
      (sdks : Dict String SdkConfigModel) (ids : List String) (r : AutoRegistrar)
      → (contains ids j ≡ true → is_some (lookup j r.sdk_clients) ≡ true)
      → IsAnnounced before r j
      → IsAnnounced before (for_sdks reset_sdk_client sdks ids r) j
  reset-IsAnnounced sdks ids r listed p = elim (Bool-cases (contains ids j)) [
    | inl mine ↦
        (for_sdks-keeps (λ s. IsAnnounced before s j × (is_some (lookup j s.sdk_clients) ≡ true))
          reset_sdk_client sdks (λ id m s at q. reset_sdk_client-IsAnnounced id m s q) ids r
          (p, listed mine)).0
    | inr other ↦
        for_sdks-keeps_other (λ s. IsAnnounced before s j) reset_sdk_client sdks j
          reset_sdk_client_other ids r other p
  ]

  -- The key checks leave the map of clients alone, and only add to what is published.
  check_sdk-IsAnnounced :
      (sdks : Dict String SdkConfigModel) (id : String) (r : AutoRegistrar)
      → ((check_sdk sdks id r).0.sdk_clients ≡ r.sdk_clients)
        × (IsAnnounced before r j → IsAnnounced before (check_sdk sdks id r).0 j)
  unfolding check_sdk contains
  check_sdk-IsAnnounced sdks id r = ground (arith, eq_iff id j, eq_iff j id)

  check_sdks-IsAnnounced :
      (sdks : Dict String SdkConfigModel) (ids : List String) (r : AutoRegistrar)
      → ((check_sdks sdks ids r).0.sdk_clients ≡ r.sdk_clients)
        × (IsAnnounced before r j → IsAnnounced before (check_sdks sdks ids r).0 j)
  unfolding check_sdks
  check_sdks-IsAnnounced sdks [] r = (refl, λ p. p)
  check_sdks-IsAnnounced sdks (id ∷ ids) r =
      let (same, keep) = check_sdk-IsAnnounced sdks id r in
      let (same', keep') = check_sdks-IsAnnounced sdks ids (check_sdk sdks id r).0 in
      (same' ∙ same, λ p. keep' (keep p))

  update_sdk_clients-IsAnnounced :
      (ids : List String) (config : ProxyConfigModel) (r : AutoRegistrar)
      → Inv r
      → (contains ids j ≡ true → is_some (lookup j r.sdk_clients) ≡ true)
      → IsAnnounced before r j
      → IsAnnounced before (update_sdk_clients ids config r) j
  unfolding update_sdk_clients reset_sdk_clients
  update_sdk_clients-IsAnnounced ids config r v listed p =
      elim (Bool-cases (should_update_options r config.options)) [
        | inl changed ↦
            rw changed
              (reset-IsAnnounced config.sdks ids (record r { options = config.options }) listed p)
        | inr same ↦
            let (kept, keep) = check_sdks-IsAnnounced config.sdks ids r in
            rw same (
              reset-IsAnnounced config.sdks (check_sdks config.sdks ids r).1
                (check_sdks config.sdks ids r).0
                (λ h. elim (Bool-cases (contains ids j)) [
                  | inl mine ↦ rw kept (listed mine)
                  | inr other ↦
                      absurd (ground (arith, (check_sdks_other config.sdks ids r j v other).1, h))
                ])
                (keep p))
      ]

lookup-delete_sdk_clients :
    (ids : List String) (r : AutoRegistrar) (j : String)
    → lookup j (delete_sdk_clients ids r).sdk_clients
      ≡ (if contains ids j then none else lookup j r.sdk_clients)
unfolding delete_sdk_clients delete_sdk_client contains
lookup-delete_sdk_clients [] r j = refl
lookup-delete_sdk_clients (id ∷ ids) r j = ground (
  arith,
  lookup-delete_sdk_clients ids (delete_sdk_client id r) j,
  lookup-delete id j r.sdk_clients,
  eq_iff id j,
  eq_iff j id,
)

-- From a consistent registrar, `refreshConfig` publishes every SDK id whose client it replaces,
-- adds or removes: an id that is not published afterwards has the client that it had.
pub refresh_config-IsAnnounced :
    (config : ProxyConfigModel) (r : AutoRegistrar)
    → Inv r
    → (j : String) → IsAnnounced (lookup j r.sdk_clients) (refresh_config config r) j
unfolding add_sdk_clients
refresh_config-IsAnnounced config r v j =
    let before = lookup j r.sdk_clients in
    let (adds, deletes, remains) = contains_split config r j in
    let kept = lookup-delete_sdk_clients (to_delete config r) r j in
    rw (refresh_parts config r) (
      add-IsAnnounced before j config.sdks (to_add config r) _ (
        update_sdk_clients-IsAnnounced before j (remaining config r) config
          (delete_sdk_clients (to_delete config r) r)
          (delete_sdk_clients-Inv (to_delete config r) r v) (λ h. ground (arith, h))
          (delete_sdk_clients-IsAnnounced before j (to_delete config r) r (inl refl))))
