-- ===== src/Registrar/Refresh.antt =====
-- `refreshConfig` of sdk/sdk_auto_registrar.go, after `getConfig` has returned a new profile.
pub mod Checks
pub mod Loops
pub mod Adds
pub mod KeyChecks
pub mod Keys
pub mod Updates
pub mod Laws
pub mod Published
use configcat_proxy.Base.{
  ◌==◌, if◌then◌else◌, ℕ, String, Bool, true, false, not, none, some, List, [], ◌∷◌, string_eq,
}
use configcat_proxy.Model.{SdkConfigModel, ProxyConfigModel}
use configcat_proxy.Utils.{except}
use configcat_proxy.Registrar.{
  AutoRegistrar, sdk_keys, set_secondary, change, delete_sdk_clients, add_sdk_clients,
  reset_sdk_clients, should_update_options,
}
use configcat_proxy.Base.Dict.{Dict, keys, lookup, insert, delete}

-- `SetSecondarySdkKey`, the two writes to the key index and `Publish`.
update_secondary : String → SdkConfigModel → ℕ → AutoRegistrar → AutoRegistrar
update_secondary sdk_id sdk_model h r = record r {
  heap = change (set_secondary sdk_model.key2) h r.heap;
  by_sdk_key = insert sdk_model.key2 h r.by_sdk_key;
  published = sdk_id ∷ r.published;
}

-- One round of the key check; true when the primary key changed, so that the client is reset.
check_keys : String → SdkConfigModel → ℕ → AutoRegistrar → AutoRegistrar × Bool
unfolding update_secondary
check_keys sdk_id sdk_model h r =
    let (key1, key2) = sdk_keys r.heap h in
    if not (key1 == sdk_model.key1) then (r, true) else elim key2 [
      | none ↦
          if not (sdk_model.key2 == "")
          then (update_secondary sdk_id sdk_model h r, false)
          else (r, false)
      | some old ↦
          if not (old == sdk_model.key2)
          then (
            update_secondary sdk_id sdk_model h (record r { by_sdk_key = delete old r.by_sdk_key }),
            false,
          )
          else (r, false)
    ]

-- One round of the loop over the remaining ids, with its two lookups.
pub check_sdk : Dict String SdkConfigModel → String → AutoRegistrar → AutoRegistrar × Bool
unfolding check_keys
check_sdk sdks sdk_id r = elim (lookup sdk_id r.sdk_clients) [
  | none ↦ (r, false)
  | some h ↦ elim (lookup sdk_id sdks) [
    | none ↦ (r, false)
    | some sdk_model ↦ check_keys sdk_id sdk_model h r
  ]
]

-- The loop; it returns the ids to reset, in order.
pub check_sdks :
    Dict String SdkConfigModel → List String → AutoRegistrar → AutoRegistrar × List String
unfolding check_sdk
check_sdks sdks [] r = (r, [])
check_sdks sdks (sdk_id ∷ sdk_ids) r =
    let (r', changed) = check_sdk sdks sdk_id r in
    let (r'', reset_keys) = check_sdks sdks sdk_ids r' in
    (r'', if changed then sdk_id ∷ reset_keys else reset_keys)

-- The remaining SDKs: all are reset when the options changed, and checked one by one if not.
pub update_sdk_clients : List String → ProxyConfigModel → AutoRegistrar → AutoRegistrar
unfolding check_sdks
update_sdk_clients remaining_keys auto_config r =
    if should_update_options r auto_config.options
    then reset_sdk_clients remaining_keys auto_config (record r { options = auto_config.options })
    else (let (checked, reset_keys) = check_sdks auto_config.sdks remaining_keys r in
        reset_sdk_clients reset_keys auto_config checked)

-- `refreshConfig` with a profile that is new.
pub refresh_config : ProxyConfigModel → AutoRegistrar → AutoRegistrar
unfolding update_sdk_clients
refresh_config auto_config r =
    let existing_keys = keys r.sdk_clients in
    let remote_keys = keys auto_config.sdks in
    let to_add_keys = except remote_keys existing_keys in
    let to_delete_keys = except existing_keys remote_keys in
    let remaining_keys = except remote_keys to_add_keys in
    let deleted = delete_sdk_clients to_delete_keys r in
    let updated = update_sdk_clients remaining_keys auto_config deleted in
    add_sdk_clients to_add_keys auto_config updated
