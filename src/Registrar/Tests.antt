-- ===== src/Registrar/Tests.antt =====
-- The theorems on the registrar at a small profile.
use configcat_proxy.Base.{
  nat_eq, pos, ℕ, String, ◌≡◌, refl, false, none, some, [], ◌∷◌, arith, eq_iff, string_eq,
}
use configcat_proxy.Config.Types.{LogConfig, SdkConfig, ProfileConfig}
use configcat_proxy.Model.{SdkConfigModel, OptionsModel, ProxyConfigModel}
use configcat_proxy.Registrar.{ClientObject, AutoRegistrar, reset_sdk_client}
use configcat_proxy.Registrar.Steps.{Inv, client_of}
use configcat_proxy.Registrar.Index.{lookup-reset_sdk_client}
use configcat_proxy.Registrar.Refresh.{check_sdk, refresh_config}
use configcat_proxy.Registrar.Refresh.Laws.{
  IsSynced, refresh_config-IsSynced, refresh_config-Inv, refresh_config_keeps,
}
use configcat_proxy.Registrar.Refresh.Keys.{lookup-check_sdk}
use configcat_proxy.Base.Dict.{lookup}

abbrev no_log : LogConfig
no_log = record { level = "" }

abbrev some_profile : ProfileConfig
some_profile = record {
  key = "profile";
  secret = "secret";
  base_url = "";
  poll_interval = pos 300;
  webhook_signature_valid_for = pos 300;
  webhook_signing_key = "";
  log = no_log;
  sdks = record { base_url = ""; log = no_log };
}

abbrev pub some_options : OptionsModel
some_options = record { poll_interval = pos 60; data_governance = "eu" }

abbrev pub sdk_of : String → SdkConfig
sdk_of key = record {
  key = key;
  base_url = "";
  poll_interval = pos 60;
  data_governance = "eu";
  webhook_signature_valid_for = pos 300;
  webhook_signing_key = "";
  default_attrs = none;
  offline = record {
    enabled = false;
    use_cache = false;
    cache_poll_interval = pos 0;
    log = no_log;
    local = record { file_path = ""; polling = false; poll_interval = pos 0 };
  };
  log = no_log;
}

abbrev client_a : ClientObject
client_a = record { sdk_id = "a"; conf = sdk_of "key-a"; secondary = some "old-a"; closed = false }

-- One registered SDK, `a`.
abbrev pub one_sdk : AutoRegistrar
one_sdk = record {
  conf = record {
    profile = some_profile;
    sdks = [];
    global_offline_config = record { enabled = false; cache_poll_interval = pos 5; log = no_log };
  };
  options = some_options;
  sdk_clients = ("a", 0) ∷ [];
  by_sdk_key = ("key-a", 0) ∷ ("old-a", 0) ∷ [];
  heap = (0, client_a) ∷ [];
  next = 1;
  published = [];
  reported = [];
}

registered_here : (id : String) (h : ℕ) → lookup id (("a", 0) ∷ []) ≡ some h → ("a" ≡ id) × (0 ≡ h)
unfolding lookup
registered_here id h e = ground (arith, e, eq_iff "a" id)

stored_here :
    (h : ℕ) (c : ClientObject) → lookup h ((0, client_a) ∷ []) ≡ some c → (0 ≡ h) × (client_a ≡ c)
unfolding lookup
stored_here h c e = ground (arith, e, nat_eq.beq_iff 0 h)

pub one_sdk-Inv : Inv one_sdk
unfolding lookup
one_sdk-Inv = record {
  registered = λ id h e.
      let (same, first) = registered_here id h e in (client_a, rw (← first) refl, same, refl);
  open_registered =
      λ h c e live. let (first, same) = stored_here h c e in rw (← first, ← same) refl;
  free = λ h above. ground (arith, above, nat_eq.beq_iff 0 h);
}

abbrev pub model_a : SdkConfigModel
model_a = record { key1 = "key-a"; key2 = "old-a" }

abbrev pub model_b : SdkConfigModel
model_b = record { key1 = "key-b"; key2 = "" }

abbrev rotated_a : SdkConfigModel
rotated_a = record { key1 = "key-a"; key2 = "new-a" }

abbrev two_sdks : ProxyConfigModel
two_sdks = record { sdks = ("a", model_a) ∷ ("b", model_b) ∷ []; options = some_options }

refresh_config-IsSynced_example :
    IsSynced (refresh_config two_sdks one_sdk) "b" (lookup "b" two_sdks.sdks)
refresh_config-IsSynced_example = refresh_config-IsSynced two_sdks one_sdk one_sdk-Inv "b"

refresh_config-Inv_example : Inv (refresh_config two_sdks one_sdk)
refresh_config-Inv_example = refresh_config-Inv two_sdks one_sdk one_sdk-Inv

refresh_config_keeps_example : client_of (refresh_config two_sdks one_sdk) "a" ≡ some client_a
unfolding lookup
refresh_config_keeps_example =
    refresh_config_keeps two_sdks one_sdk "a" model_a client_a one_sdk-Inv refl refl refl
      (refl, refl)

lookup-reset_sdk_client_example :
    lookup "key-a" (reset_sdk_client "a" model_b one_sdk).by_sdk_key ≡ none
unfolding lookup
lookup-reset_sdk_client_example =
    lookup-reset_sdk_client "a" model_b one_sdk 0 client_a "key-a" one_sdk-Inv refl refl

lookup-check_sdk_example :
    lookup "old-a" (check_sdk (("a", rotated_a) ∷ []) "a" one_sdk).0.by_sdk_key ≡ none
unfolding lookup
lookup-check_sdk_example =
    lookup-check_sdk (("a", rotated_a) ∷ []) "a" rotated_a one_sdk 0 client_a "old-a" "old-a" refl
      refl refl refl refl (λ e. cc ((eq_iff "old-a" "new-a").1 e))
