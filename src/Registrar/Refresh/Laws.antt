-- ===== src/Registrar/Refresh/Laws.antt =====
-- What a refresh of the proxy profile does to the registered clients.
use configcat_proxy.Base.{
  if◌then◌else◌, Option-cases, is_some, int_eq, String, ◌≡◌, ◌∙◌, inl, inr, false, Option, none,
  some, arith, eq_iff, string_eq, nat_eq,
}
use configcat_proxy.Model.{SdkConfigModel, ProxyConfigModel}
use configcat_proxy.Registrar.{
  ClientObject, AutoRegistrar, delete_sdk_clients, add_sdk_clients, should_update_options,
}
use configcat_proxy.Registrar.Steps.{Inv, client_of, Matches, client_of-eq-none_iff}
use configcat_proxy.Registrar.Refresh.{update_sdk_clients, refresh_config}
use configcat_proxy.Registrar.Refresh.Adds.{add_old, add_other, add_mine}
use configcat_proxy.Registrar.Refresh.Loops.{
  delete_sdk_clients-Inv, client_of-delete_sdk_clients, IsServed, add-Inv,
}
use configcat_proxy.Base.Dict.{lookup}
use configcat_proxy.Registrar.Refresh.Updates.{
  to_add, to_delete, remaining, contains_split, refresh_parts, delete_sdk_clients-options,
  update_sdk_clients-Inv, update_sdk_clients_other, update_sdk_clients_mine,
  update_sdk_clients_kept,
}

-- The stages of a refresh, with what is known of one id after each.
module _ (config : ProxyConfigModel) (r : AutoRegistrar) (v : Inv r) (j : String) where
  deleted : AutoRegistrar
  deleted = delete_sdk_clients (to_delete config r) r

  deleted-Inv : Inv deleted
  unfolding deleted
  deleted-Inv = delete_sdk_clients-Inv (to_delete config r) r v

  updated : AutoRegistrar
  updated = update_sdk_clients (remaining config r) config deleted

  updated-Inv : Inv updated
  unfolding updated
  updated-Inv = update_sdk_clients-Inv (remaining config r) config deleted deleted-Inv

  -- An id that the profile has keeps its client through the deletions.
  client_of-deleted :
      client_of deleted j ≡ (if is_some (lookup j config.sdks) then client_of r j else none)
  unfolding deleted
  client_of-deleted = ground (
    arith,
    client_of-delete_sdk_clients (to_delete config r) r j v,
    contains_split config r j,
    client_of-eq-none_iff r v j,
  )

  -- An id that the profile lacks.
  refreshed_absent : lookup j config.sdks ≡ none → client_of (refresh_config config r) j ≡ none
  unfolding add_sdk_clients updated deleted
  refreshed_absent gone =
      let (adds, _, remains) = contains_split config r j in
      rw (refresh_parts config r) (
        add_other config.sdks j (to_add config r) updated none (ground arith) updated-Inv (
          update_sdk_clients_other (remaining config r) config deleted deleted-Inv j (ground arith)
          ∙ (client_of-deleted ∙ (rw gone))))

  -- An id of the profile that has a client.
  refreshed_old :
      (m : SdkConfigModel) (c : ClientObject)
      → lookup j config.sdks ≡ some m
      → client_of r j ≡ some c
      → IsServed (refresh_config config r) j m
  unfolding add_sdk_clients updated deleted
  refreshed_old m c at e =
      let (adds, _, remains) = contains_split config r j in
      let there = client_of-eq-none_iff r v j in
      let (c', e', has) =
        update_sdk_clients_mine (remaining config r) config deleted deleted-Inv j m c at
          (client_of-deleted ∙ (rw at e)) (ground arith) in
      rw (refresh_parts config r)
        (c', add_old config.sdks j (to_add config r) updated c' updated-Inv e', has)

  -- An id of the profile that has none yet.
  refreshed_new :
      (m : SdkConfigModel)
      → lookup j config.sdks ≡ some m
      → client_of r j ≡ none
      → IsServed (refresh_config config r) j m
  unfolding add_sdk_clients updated deleted
  refreshed_new m at e =
      let (adds, _, remains) = contains_split config r j in
      let unregistered = (client_of-eq-none_iff r v j).0 e in
      rw (refresh_parts config r) (
        add_mine config.sdks j (to_add config r) updated m at (ground arith) updated-Inv (
          update_sdk_clients_other (remaining config r) config deleted deleted-Inv j (ground arith)
          ∙ (client_of-deleted ∙ (rw at e))))

  -- A client that already has the profile's keys.
  refreshed_kept :
      (m : SdkConfigModel) (c : ClientObject)
      → should_update_options r config.options ≡ false
      → lookup j config.sdks ≡ some m
      → client_of r j ≡ some c
      → Matches c m
      → client_of (refresh_config config r) j ≡ some c
  unfolding add_sdk_clients updated deleted should_update_options
  refreshed_kept m c same at e has =
      let (adds, _, remains) = contains_split config r j in
      let there = client_of-eq-none_iff r v j in
      let options = delete_sdk_clients-options (to_delete config r) r in
      rw (refresh_parts config r) (
        add_old config.sdks j (to_add config r) updated c updated-Inv (
          update_sdk_clients_kept (remaining config r) config deleted deleted-Inv j m c at
            (client_of-deleted ∙ (rw at e)) (ground arith) (rw options same) has))

-- An id is in line with the profile's entry for it.
abbrev pub IsSynced : AutoRegistrar → String → Option SdkConfigModel → Type 0
IsSynced r j none = client_of r j ≡ none
IsSynced r j (some m) = IsServed r j m

-- From a consistent registrar, `refreshConfig` brings every SDK id in line with the profile: an id
-- of the profile has a client with the profile's keys (an unset secondary key counting as the empty
-- one), and any other id has none.
pub refresh_config-IsSynced :
    (config : ProxyConfigModel) (r : AutoRegistrar)
    → Inv r
    → (j : String) → IsSynced (refresh_config config r) j (lookup j config.sdks)
refresh_config-IsSynced config r v j = elim (Option-cases (lookup j config.sdks)) [
  | inl gone ↦ rw gone (refreshed_absent config r v j gone)
  | inr (m, at) ↦ rw at (elim (Option-cases (client_of r j)) [
    | inl new ↦ refreshed_new config r v j m at new
    | inr (c, old) ↦ refreshed_old config r v j m c at old
  ])
]

-- `refreshConfig` keeps a consistent registrar consistent: the registered clients are exactly the
-- open ones, each under its own id, so no client that was replaced or removed stays open.
pub refresh_config-Inv :
    (config : ProxyConfigModel) (r : AutoRegistrar) → Inv r → Inv (refresh_config config r)
unfolding add_sdk_clients
refresh_config-Inv config r v = rw (refresh_parts config r) (
    add-Inv config.sdks (to_add config r) _ (
      update_sdk_clients-Inv (remaining config r) config _
        (delete_sdk_clients-Inv (to_delete config r) r v)))

-- From a consistent registrar, `refreshConfig` does not touch a client whose id and keys are those
-- of the profile, if the global options are unchanged: it stays open, with the same configuration.
pub refresh_config_keeps :
    (config : ProxyConfigModel) (r : AutoRegistrar) (j : String) (m : SdkConfigModel)
    (c : ClientObject)
    → Inv r
    → r.options ≡ config.options
    → lookup j config.sdks ≡ some m
    → client_of r j ≡ some c
    → Matches c m
    → client_of (refresh_config config r) j ≡ some c
unfolding should_update_options
refresh_config_keeps config r j m c v same at e has =
    refreshed_kept config r v j m c
      (ground (
        arith,
        int_eq.beq_iff r.options.poll_interval config.options.poll_interval,
        eq_iff r.options.data_governance config.options.data_governance,
      ))
      at e has
