-- ===== src/Registrar.antt =====
-- sdk/sdk_auto_registrar.go: the registrar that follows a remote proxy profile. Clients are objects
-- on a heap (sdk/sdk.go), since the map by SDK id, the map by SDK key and the stream server share
-- them and `SetSecondarySdkKey` changes them in place. Go's maps are walked in the order of the
-- dictionary; the theorems hold for every such order. The ETag stands in `Profile`.
pub mod Invariant
pub mod Steps
pub mod Refresh
pub mod Index
pub mod Profile
pub mod Start
pub mod Tests
use configcat_proxy.Base.{
  ◌==◌, if◌then◌else◌, pos, ℕ, suc, String, Bool, true, false, not, ◌&&◌, ◌||◌, Option, none, some,
  List, [], ◌∷◌, string_eq, nat_eq, int_eq,
}
use configcat_proxy.Base.Dict.{Dict, lookup, insert, delete}
use configcat_proxy.Model.{SdkConfigModel, OptionsModel, ProxyConfigModel}
use configcat_proxy.Config.Types.{OfflineConfig, SdkConfig, GlobalOfflineConfig, ProfileConfig}

-- What the registrar reads and changes of a `client`.
pub record ClientObject : Type 0 where
  pub sdk_id : String
  pub conf : SdkConfig
  pub secondary : Option String
  pub closed : Bool

-- A call of the status reporter.
pub data StatusCall : Type 0 where
  register_sdk update_sdk : String → SdkConfig → StatusCall
  remove_sdk : String → StatusCall

-- The part of the configuration that is used; no SDK of a validated configuration is nil.
pub record RegistrarConf : Type 0 where
  pub profile : ProfileConfig
  pub sdks : Dict String SdkConfig
  pub global_offline_config : GlobalOfflineConfig

pub record AutoRegistrar : Type 0 where
  pub conf : RegistrarConf
  pub options : OptionsModel
  pub sdk_clients : Dict String ℕ
  pub by_sdk_key : Dict String ℕ
  pub heap : Dict ℕ ClientObject
  pub next : ℕ
  -- SDK ids sent to the subscribers, and calls of the status reporter, the latest first.
  pub published : List String
  pub reported : List StatusCall

abbrev zero_offline : OfflineConfig
zero_offline = record {
  enabled = false;
  use_cache = false;
  cache_poll_interval = pos 0;
  log = record { level = "" };
  local = record { file_path = ""; polling = false; poll_interval = pos 0 };
}

-- The local settings of an SDK override those of the profile.
with_local : Option SdkConfig → SdkConfig → SdkConfig
with_local none sdk = sdk
with_local (some local) sdk = record sdk {
  default_attrs = local.default_attrs;
  offline = local.offline;
  log = local.log;
}

pub build_sdk_config : AutoRegistrar → String → SdkConfigModel → SdkConfig
unfolding with_local
build_sdk_config r sdk_id sdk_model =
    let sdk = with_local (lookup sdk_id r.conf.sdks) (record {
      key = sdk_model.key1;
      base_url = r.conf.profile.sdks.base_url;
      poll_interval = r.options.poll_interval;
      data_governance = r.options.data_governance;
      webhook_signature_valid_for = r.conf.profile.webhook_signature_valid_for;
      webhook_signing_key = r.conf.profile.webhook_signing_key;
      default_attrs = none;
      offline = zero_offline;
      log = r.conf.profile.sdks.log;
    }) in
    if r.conf.global_offline_config.enabled && not sdk.offline.enabled
    then record sdk {
      offline = record sdk.offline {
        enabled = true;
        use_cache = true;
        cache_poll_interval = r.conf.global_offline_config.cache_poll_interval;
        log = r.conf.global_offline_config.log;
      };
    }
    else sdk

-- `len(sdkModel.Key2) > 0` decides whether the secondary key is set.
abbrev pub secondary_of : String → Option String
secondary_of key2 = if key2 == "" then none else some key2

-- The object that `buildSdkClient` makes.
pub new_client : String → SdkConfig → SdkConfigModel → ClientObject
new_client sdk_id sdk_config sdk_model = record {
  sdk_id = sdk_id;
  conf = sdk_config;
  secondary = secondary_of sdk_model.key2;
  closed = false;
}

-- `buildSdkClient`: the handle is the old `next`.
pub build_sdk_client : String → SdkConfig → SdkConfigModel → AutoRegistrar → AutoRegistrar
unfolding new_client
build_sdk_client sdk_id sdk_config sdk_model r = record r {
  heap = insert r.next (new_client sdk_id sdk_config sdk_model) r.heap;
  next = suc r.next;
}

-- `client.SdkKeys`.
unfoldable pub sdk_keys : Dict ℕ ClientObject → ℕ → String × Option String
sdk_keys heap h = elim (lookup h heap) [ none ↦ ("", none) | some c ↦ (c.conf.key, c.secondary) ]

-- `client.SetSecondarySdkKey` and `client.Close` on an object.
abbrev set_secondary : String → ClientObject → ClientObject
set_secondary key c = record c { secondary = some key }

abbrev close : ClientObject → ClientObject
close c = record c { closed = true }

pub change : (ClientObject → ClientObject) → ℕ → Dict ℕ ClientObject → Dict ℕ ClientObject
change f h heap = elim (lookup h heap) [ none ↦ heap | some c ↦ insert h (f c) heap ]

-- `if key1 != "" { Delete(key1) }; if key2 != nil && *key2 != "" { Delete(*key2) }`.
pub drop_keys : String × Option String → Dict String ℕ → Dict String ℕ
drop_keys (key1, none) m = if not (key1 == "") then delete key1 m else m
drop_keys (key1, some key2) m =
    let m' = if not (key1 == "") then delete key1 m else m in
    if not (key2 == "") then delete key2 m' else m'

-- `if sdkModel.Key1 != "" { Store(sdkModel.Key1, cl) }`, and the same for `Key2`.
pub put_keys : SdkConfigModel → ℕ → Dict String ℕ → Dict String ℕ
put_keys sdk_model h m =
    let m' = if not (sdk_model.key1 == "") then insert sdk_model.key1 h m else m in
    if not (sdk_model.key2 == "") then insert sdk_model.key2 h m' else m'

-- One round of `deleteSdkClients`.
pub delete_sdk_client : String → AutoRegistrar → AutoRegistrar
unfolding sdk_keys change drop_keys
delete_sdk_client sdk_id r = elim (lookup sdk_id r.sdk_clients) [
  | none ↦ r
  | some h ↦ record r {
    sdk_clients = delete sdk_id r.sdk_clients;
    by_sdk_key = drop_keys (sdk_keys r.heap h) r.by_sdk_key;
    heap = change close h r.heap;
    published = sdk_id ∷ r.published;
    reported = remove_sdk sdk_id ∷ r.reported;
  }
]

pub delete_sdk_clients : List String → AutoRegistrar → AutoRegistrar
unfolding delete_sdk_client
delete_sdk_clients [] r = r
delete_sdk_clients (sdk_id ∷ sdk_ids) r = delete_sdk_clients sdk_ids (delete_sdk_client sdk_id r)

-- One round of `addSdkClients`, for an SDK of the profile: `LoadOrCompute` keeps a client that is
-- there.
pub add_sdk_client : String → SdkConfigModel → AutoRegistrar → AutoRegistrar
unfolding build_sdk_client put_keys
add_sdk_client sdk_id sdk_model r = elim (lookup sdk_id r.sdk_clients) [
  | some h ↦ r
  | none ↦
      let sdk_config = build_sdk_config r sdk_id sdk_model in
      let built = build_sdk_client sdk_id sdk_config sdk_model r in
      record built {
        sdk_clients = insert sdk_id r.next built.sdk_clients;
        by_sdk_key = put_keys sdk_model r.next built.by_sdk_key;
        published = sdk_id ∷ built.published;
        reported = register_sdk sdk_id sdk_config ∷ built.reported;
      }
]

-- One round of `resetSdkClients`, for an SDK of the profile.
pub reset_sdk_client : String → SdkConfigModel → AutoRegistrar → AutoRegistrar
unfolding build_sdk_client sdk_keys change drop_keys put_keys
reset_sdk_client sdk_id sdk_model r =
    let sdk_config = build_sdk_config r sdk_id sdk_model in
    let built = build_sdk_client sdk_id sdk_config sdk_model r in
    let stored = record built { sdk_clients = insert sdk_id r.next built.sdk_clients } in
    let retired : AutoRegistrar = elim (lookup sdk_id r.sdk_clients) [
      | none ↦ stored
      | some existing ↦ record stored {
        by_sdk_key = drop_keys (sdk_keys stored.heap existing) stored.by_sdk_key;
        heap = change close existing stored.heap;
        published = sdk_id ∷ stored.published;
        reported = update_sdk sdk_id sdk_config ∷ stored.reported;
      }
    ] in
    record retired { by_sdk_key = put_keys sdk_model r.next retired.by_sdk_key }

-- A loop over the SDK ids that the profile has.
pub for_sdks :
    (String → SdkConfigModel → AutoRegistrar → AutoRegistrar)
    → Dict String SdkConfigModel
    → List String
    → AutoRegistrar
    → AutoRegistrar
for_sdks body sdks [] r = r
for_sdks body sdks (sdk_id ∷ sdk_ids) r = elim (lookup sdk_id sdks) [
  | none ↦ for_sdks body sdks sdk_ids r
  | some sdk_model ↦ for_sdks body sdks sdk_ids (body sdk_id sdk_model r)
]

pub add_sdk_clients : List String → ProxyConfigModel → AutoRegistrar → AutoRegistrar
unfolding for_sdks add_sdk_client
add_sdk_clients sdk_ids config r = for_sdks add_sdk_client config.sdks sdk_ids r

pub reset_sdk_clients : List String → ProxyConfigModel → AutoRegistrar → AutoRegistrar
unfolding for_sdks reset_sdk_client
reset_sdk_clients sdk_ids config r = for_sdks reset_sdk_client config.sdks sdk_ids r

pub should_update_options : AutoRegistrar → OptionsModel → Bool
should_update_options r options =
    not (r.options.poll_interval == options.poll_interval)
    || not (r.options.data_governance == options.data_governance)
