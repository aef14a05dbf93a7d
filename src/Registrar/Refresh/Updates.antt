-- ===== src/Registrar/Refresh/Updates.antt =====
-- The ids that a refresh of the proxy profile adds, removes and updates, and its step of updates.
use configcat_proxy.Base.{
  ◌==◌, Bool-cases, is_some, contains, String, ◌≡◌, refl, ap, ◌∙◌, inl, inr, true, false, not, ◌&&◌,
  some, List, [], ◌∷◌, arith, eq_iff, string_eq, nat_eq, int_eq,
}
use configcat_proxy.Model.{SdkConfigModel, ProxyConfigModel}
use configcat_proxy.Utils.{except}
use configcat_proxy.Utils.Laws.{contains-except}
use configcat_proxy.Registrar.{
  ClientObject, AutoRegistrar, delete_sdk_client, delete_sdk_clients, add_sdk_clients,
  reset_sdk_clients, should_update_options,
}
use configcat_proxy.Registrar.Steps.{Inv, client_of, Matches}
use configcat_proxy.Registrar.Refresh.{check_sdks, update_sdk_clients, refresh_config}
use configcat_proxy.Registrar.Refresh.Checks.{
  checked_client, checked_client-Matches, checked_client_id,
}
use configcat_proxy.Registrar.Refresh.KeyChecks.{check_sdks-Inv, check_sdks_other, check_sdks_mine}
use configcat_proxy.Registrar.Refresh.Loops.{IsServed, reset-Inv, reset_other, reset_mine}
use configcat_proxy.Base.Dict.{keys, lookup, contains-keys}

module _ (config : ProxyConfigModel) (r : AutoRegistrar) where
  pub to_add : List String
  to_add = except (keys config.sdks) (keys r.sdk_clients)

  pub to_delete : List String
  to_delete = except (keys r.sdk_clients) (keys config.sdks)

  pub remaining : List String
  remaining = except (keys config.sdks) to_add

  -- The three lists split the ids of the profile and of the registrar.
  pub contains_split :
      (j : String)
      → (contains to_add j
          ≡ (is_some (lookup j config.sdks) && not (is_some (lookup j r.sdk_clients))))
        × (contains to_delete j
            ≡ (is_some (lookup j r.sdk_clients) && not (is_some (lookup j config.sdks))))
        × (contains remaining j
            ≡ (is_some (lookup j config.sdks) && is_some (lookup j r.sdk_clients)))
  unfolding to_add to_delete remaining
  contains_split j = ground (
    arith,
    contains-except (keys config.sdks) (keys r.sdk_clients) j,
    contains-except (keys r.sdk_clients) (keys config.sdks) j,
    contains-except (keys config.sdks) (except (keys config.sdks) (keys r.sdk_clients)) j,
    contains-keys j config.sdks,
    contains-keys j r.sdk_clients,
  )

  pub refresh_parts :
      refresh_config config r
      ≡ add_sdk_clients to_add config
          (update_sdk_clients remaining config (delete_sdk_clients to_delete r))
  unfolding refresh_config to_add to_delete remaining
  refresh_parts = refl

pub delete_sdk_clients-options :
    (ids : List String) (r : AutoRegistrar) → (delete_sdk_clients ids r).options ≡ r.options
unfolding delete_sdk_clients delete_sdk_client
delete_sdk_clients-options [] r = refl
delete_sdk_clients-options (id ∷ ids) r =
    delete_sdk_clients-options ids (delete_sdk_client id r) ∙ ground arith

module _ (ids : List String) (config : ProxyConfigModel) (r : AutoRegistrar) (v : Inv r) where
  pub update_sdk_clients-Inv : Inv (update_sdk_clients ids config r)
  unfolding update_sdk_clients reset_sdk_clients
  update_sdk_clients-Inv = elim (Bool-cases (should_update_options r config.options)) [
    | inl changed ↦ rw changed (reset-Inv config.sdks ids (record r { options = config.options }) v)
    | inr same ↦ rw same (
        reset-Inv config.sdks (check_sdks config.sdks ids r).1 (check_sdks config.sdks ids r).0
          (check_sdks-Inv config.sdks ids r v))
  ]

  pub update_sdk_clients_other :
      (j : String)
      → contains ids j ≡ false
      → client_of (update_sdk_clients ids config r) j ≡ client_of r j
  unfolding update_sdk_clients reset_sdk_clients
  update_sdk_clients_other j h = elim (Bool-cases (should_update_options r config.options)) [
    | inl changed ↦ rw changed (
        reset_other config.sdks ids (record r { options = config.options }) j (client_of r j) h v
          refl)
    | inr same ↦
        let (kept, unlisted) = check_sdks_other config.sdks ids r j v h in
        rw same (
          reset_other config.sdks (check_sdks config.sdks ids r).1 (check_sdks config.sdks ids r).0
            j (client_of r j) unlisted (check_sdks-Inv config.sdks ids r v) kept)
  ]

  pub update_sdk_clients_mine :
      (j : String) (m : SdkConfigModel) (c : ClientObject)
      → lookup j config.sdks ≡ some m
      → client_of r j ≡ some c
      → contains ids j ≡ true
      → IsServed (update_sdk_clients ids config r) j m
  unfolding update_sdk_clients reset_sdk_clients
  update_sdk_clients_mine j m c at e h =
      let w = check_sdks-Inv config.sdks ids r v in
      elim (Bool-cases (should_update_options r config.options)) [
        | inl changed ↦
            rw changed
              (reset_mine config.sdks ids (record r { options = config.options }) j m at h v)
        | inr same ↦
            let (kept, listed) = check_sdks_mine config.sdks ids r j m c v at e h in
            rw same (elim (Bool-cases (c.conf.key == m.key1)) [
              | inl current ↦ (
                checked_client m c,
                reset_other config.sdks (check_sdks config.sdks ids r).1
                    (check_sdks config.sdks ids r).0 j (some (checked_client m c))
                    (listed ∙ rw current) w kept,
                checked_client-Matches m c current,
              )
              | inr old ↦
                  reset_mine config.sdks (check_sdks config.sdks ids r).1
                    (check_sdks config.sdks ids r).0 j m at (listed ∙ rw old) w
            ])
      ]

  -- With the options unchanged, a client that has the profile's keys is left alone.
  pub update_sdk_clients_kept :
      (j : String) (m : SdkConfigModel) (c : ClientObject)
      → lookup j config.sdks ≡ some m
      → client_of r j ≡ some c
      → contains ids j ≡ true
      → should_update_options r config.options ≡ false
      → Matches c m
      → client_of (update_sdk_clients ids config r) j ≡ some c
  unfolding update_sdk_clients reset_sdk_clients
  update_sdk_clients_kept j m c at e h same has =
      let (kept, listed) = check_sdks_mine config.sdks ids r j m c v at e h in
      let current : (c.conf.key == m.key1) ≡ true = (eq_iff c.conf.key m.key1).1 has.0 in
      rw same (
        reset_other config.sdks (check_sdks config.sdks ids r).1 (check_sdks config.sdks ids r).0 j
          (some (checked_client m c)) (listed ∙ rw current) (check_sdks-Inv config.sdks ids r v)
          kept
        ∙ ap some (checked_client_id m c has))
