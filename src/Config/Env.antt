-- ===== src/Config/Env.antt =====
-- config/env.go: the environment over the configuration. `os.Getenv` is a parameter, `conv` holds
-- the converters on `strconv` and `encoding/json`, and `env_name` is the upper-casing of an
-- identifier. After an error the caller drops the configuration, so nothing is kept of it here.
pub mod Structs
pub mod Servers
pub mod Sdk
pub mod Laws
use configcat_proxy.Base.{
  pos, Result, ok, String, false, Option, none, some, [], ◌∷◌, string_eq, ◌>>=◌,
}
use configcat_proxy.Config.Types.{SdkConfig, Config}
use configcat_proxy.Config.Env.Structs.{
  EnvVarReadError, Converters, concat_prefix, read_env, load_log, load_tls, load_global_offline,
  load_http_proxy, load_sdk, load_profile,
}
use configcat_proxy.Config.Env.Servers.{load_grpc, load_cache, load_diag, load_http}
use configcat_proxy.Base.Dict.{Dict, insert}

-- `envPrefix`.
abbrev env_prefix : String
env_prefix = "CONFIGCAT"

-- `&SDKConfig{Key: key}`.
abbrev pub keyed_sdk : String → SdkConfig
keyed_sdk key = record {
  key = key;
  base_url = "";
  poll_interval = pos 0;
  data_governance = "";
  webhook_signature_valid_for = pos 0;
  webhook_signing_key = "";
  default_attrs = none;
  offline = record {
    enabled = false;
    use_cache = false;
    cache_poll_interval = pos 0;
    log = record { level = "" };
    local = record { file_path = ""; polling = false; poll_interval = pos 0 };
  };
  log = record { level = "" };
}

module _ (getenv : String → String) (conv : Converters) (env_name : String → String) where
  abbrev pub sdk_prefix : String → String
  sdk_prefix sdk_id = concat_prefix env_prefix (env_name sdk_id)

  -- The loop of `Config.loadEnv` over the map of `CONFIGCAT_SDKS`.
  unfoldable pub load_sdks :
      Dict String String
      → Dict String (Option SdkConfig)
      → Result EnvVarReadError (Dict String (Option SdkConfig))
  load_sdks [] sdks = ok sdks
  load_sdks ((sdk_id, key) ∷ listed) sdks = do
    sdk_conf ← load_sdk getenv conv (sdk_prefix sdk_id) (keyed_sdk key)
    load_sdks listed (insert sdk_id (some sdk_conf) sdks)

  -- `Config.loadEnv`.
  unfoldable pub load_env : Config → Result EnvVarReadError Config
  unfolding load_sdks
  load_env c = do
    listed ← read_env getenv env_prefix "SDKS" [] conv.to_string_map
    sdks ← load_sdks listed c.sdks
    profile ← load_profile getenv conv env_prefix c.profile
    http ← load_http getenv conv env_prefix c.http
    grpc ← load_grpc getenv conv env_prefix c.grpc
    http_proxy ← load_http_proxy getenv conv env_prefix c.http_proxy
    log ← load_log getenv conv env_prefix c.log
    tls ← load_tls getenv conv env_prefix c.tls
    diag ← load_diag getenv conv env_prefix c.diag
    cache ← load_cache getenv conv env_prefix c.cache
    global_offline_config ← load_global_offline getenv conv env_prefix c.global_offline_config
    default_attrs ←
        read_env getenv env_prefix "DEFAULT_USER_ATTRIBUTES" c.default_attrs conv.to_user_attrs
    ok (record {
      log = log;
      sdks = sdks;
      grpc = grpc;
      tls = tls;
      diag = diag;
      http = http;
      cache = cache;
      http_proxy = http_proxy;
      global_offline_config = global_offline_config;
      default_attrs = default_attrs;
      profile = profile;
    })
