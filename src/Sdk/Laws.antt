-- ===== src/Sdk/Laws.antt =====
-- The lookups of the manual registrar.
use configcat_proxy.Base.{
  ◌==◌, Bool-cases, String, ◌≡◌, refl, sym, ◌∙◌, inl, inr, false, Option, none, some, [], ◌∷◌,
  arith, eq_iff, string_eq,
}
use configcat_proxy.Base.Dict.{Dict, lookup, insert, lookup-insert, IsMap}
use configcat_proxy.Config.Types.{SdkConfig}
use configcat_proxy.Sdk.{
  ManualRegistrar, add_clients, new_manual_registrar, manual_get_sdk_or_nil,
  manual_get_sdk_by_key_or_nil,
}

abbrev made {ℓ} : {C : Type ℓ} → (SdkConfig → C) → Option C → Option SdkConfig → Option C
made make old none = old
made make old (some sdk_conf) = some (make sdk_conf)

-- No SDK of the list but the one of `id` has the key.
abbrev pub OwnsKey : Dict String SdkConfig → String → String → Type 0
OwnsKey sdks id key =
    (j : String) (sdk_conf : SdkConfig)
    → lookup j sdks ≡ some sdk_conf
    → sdk_conf.key ≡ key
    → j ≡ id

module _ {ℓ} {C : Type ℓ} (make : String → SdkConfig → C) where
  add_clients-by_id :
      (sdks : Dict String SdkConfig) (r : ManualRegistrar C) (id : String)
      → IsMap sdks
      → lookup id (add_clients make sdks r).sdk_clients
        ≡ made (make id) (lookup id r.sdk_clients) (lookup id sdks)
  unfolding add_clients lookup
  add_clients-by_id [] r id once = refl
  add_clients-by_id ((key, sdk_conf) ∷ sdks) r id (first, once) = ground (
    arith,
    add_clients-by_id sdks
        (record {
          sdk_clients = insert key (make key sdk_conf) r.sdk_clients;
          sdk_clients_by_sdk_key = insert sdk_conf.key (make key sdk_conf) r.sdk_clients_by_sdk_key;
        })
        id once,
    lookup-insert key id (make key sdk_conf) r.sdk_clients,
    eq_iff key id,
  )

  -- Clients with other keys do not touch the entry of a key.
  add_clients_other :
      (sdks : Dict String SdkConfig) (r : ManualRegistrar C) (key : String)
      → IsMap sdks
      → ((j : String) (sdk_conf : SdkConfig)
          → lookup j sdks ≡ some sdk_conf
          → (sdk_conf.key == key) ≡ false)
      → lookup key (add_clients make sdks r).sdk_clients_by_sdk_key
        ≡ lookup key r.sdk_clients_by_sdk_key
  unfolding add_clients lookup
  add_clients_other [] r key once free = refl
  add_clients_other ((id, sdk_conf) ∷ sdks) r key (first, once) free =
      add_clients_other sdks
        (record {
          sdk_clients = insert id (make id sdk_conf) r.sdk_clients;
          sdk_clients_by_sdk_key = insert sdk_conf.key (make id sdk_conf) r.sdk_clients_by_sdk_key;
        })
        key once (λ j c at. ground (arith, free j c, first, at, eq_iff id j))
      ∙ ground (
        arith,
        lookup-insert sdk_conf.key key (make id sdk_conf) r.sdk_clients_by_sdk_key,
        free id sdk_conf,
        eq_iff id id,
      )

  add_clients-by_key :
      (sdks : Dict String SdkConfig) (r : ManualRegistrar C) (id : String) (sdk_conf : SdkConfig)
      → IsMap sdks
      → lookup id sdks ≡ some sdk_conf
      → OwnsKey sdks id sdk_conf.key
      → lookup sdk_conf.key (add_clients make sdks r).sdk_clients_by_sdk_key
        ≡ some (make id sdk_conf)
  unfolding add_clients lookup
  add_clients-by_key [] r id sdk_conf once at own = cc
  add_clients-by_key ((i, c) ∷ sdks) r id sdk_conf (first, once) at own =
      let r' : ManualRegistrar C = record {
        sdk_clients = insert i (make i c) r.sdk_clients;
        sdk_clients_by_sdk_key = insert c.key (make i c) r.sdk_clients_by_sdk_key;
      } in
      elim (Bool-cases (i == id)) [
        | inl same ↦
            let same_id = (eq_iff i id).0 same in
            add_clients_other sdks r' sdk_conf.key once (λ j d at'.
              ground
                (arith, own j d, first, at', eq_iff i j, eq_iff d.key sdk_conf.key, eq_iff i id))
            ∙ ground (
              arith,
              lookup-insert c.key sdk_conf.key (make i c) r.sdk_clients_by_sdk_key,
              eq_iff c.key sdk_conf.key,
            )
        | inr other ↦
            add_clients-by_key sdks r' id sdk_conf once (ground arith)
              (λ j d at' k. ground (arith, own j d, first, at', eq_iff i j, eq_iff i id))
      ]

  -- The manual registrar has a client for each SDK of the configuration, made from its settings,
  -- and for no other id; and the SDK key of an SDK leads to the same client, if no other SDK has
  -- that key.
  pub manual_get_sdk-new_manual_registrar :
      (sdks : Dict String SdkConfig) (id : String)
      → IsMap sdks
      → (manual_get_sdk_or_nil (new_manual_registrar make sdks) id
          ≡ made (make id) none (lookup id sdks))
        × ((sdk_conf : SdkConfig)
            → lookup id sdks ≡ some sdk_conf
            → OwnsKey sdks id sdk_conf.key
            → manual_get_sdk_by_key_or_nil (new_manual_registrar make sdks) sdk_conf.key
              ≡ manual_get_sdk_or_nil (new_manual_registrar make sdks) id)
  unfolding new_manual_registrar manual_get_sdk_or_nil manual_get_sdk_by_key_or_nil lookup
  manual_get_sdk-new_manual_registrar sdks id once =
      let empty : ManualRegistrar C = record { sdk_clients = []; sdk_clients_by_sdk_key = [] } in
      let by_id = add_clients-by_id sdks empty id once in
      (
        by_id,
        λ sdk_conf at own.
            add_clients-by_key sdks empty id sdk_conf once at own ∙ sym (by_id ∙ rw at),
      )
