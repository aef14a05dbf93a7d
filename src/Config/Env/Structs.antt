-- ===== src/Config/Env/Structs.antt =====
-- config/env.go: one reader for each struct of the configuration, in the order of its reads.
-- `getenv` is `os.Getenv`, which gives the empty text for a variable that is not set.
pub mod Unset
use configcat_proxy.Base.{
  ◌==◌, if◌then◌else◌, ℤ, Result, ok, err, String, ◌<>◌, Bool, not, List, string_eq, ◌>>=◌,
}
use configcat_proxy.Model.{UserAttrs}
use configcat_proxy.Config.Types.{
  Float64, LogConfig, LocalConfig, OfflineConfig, SdkConfig, CertConfig, TlsConfig,
  PrometheusExporterConfig, OtlpExporterConfig, StatusConfig, OriginRegexConfig, CorsConfig,
  AuthConfig, HttpProxyConfig, GlobalOfflineConfig, ProfileSdkConfig, ProfileConfig,
}
use configcat_proxy.Base.Dict.{Dict}

pub record EnvVarReadError : Type 0 where
  pub key : String
  pub inner : String

-- `toInt` and its kind.
pub record Converters : Type 0 where
  pub to_int : String → Result String ℤ
  pub to_bool : String → Result String Bool
  pub to_float : String → Result String Float64
  pub to_string_slice : String → Result String (List String)
  pub to_cert_config_slice : String → Result String (List CertConfig)
  pub to_string_map : String → Result String (Dict String String)
  pub to_user_attrs : String → Result String UserAttrs

unfoldable pub concat_prefix : String → String → String
concat_prefix p1 p2 = p1 <> ("_" <> p2)

abbrev with_key {ℓ} : {A : Type ℓ} → String → Result String A → Result EnvVarReadError A
with_key env_key (ok r) = ok r
with_key env_key (err e) = err (record { key = env_key; inner = e })

module _ (getenv : String → String) where
  -- `readEnv`: the value that `in` has afterwards.
  unfoldable pub read_env {ℓ} :
      {A : Type ℓ} → String → String → A → (String → Result String A) → Result EnvVarReadError A
  read_env prefix key old conv =
      let env_key = prefix <> ("_" <> key) in
      if not (getenv env_key == "") then with_key env_key (conv (getenv env_key)) else ok old

  unfoldable pub read_env_string : String → String → String → String
  read_env_string prefix key old =
      let env = getenv (prefix <> ("_" <> key)) in if not (env == "") then env else old

  module _ (conv : Converters) where
    unfoldable pub load_log : String → LogConfig → Result EnvVarReadError LogConfig
    load_log prefix c = do
      let p = concat_prefix prefix "LOG"
      let level = read_env_string p "LEVEL" c.level
      ok (record { level = level })

    unfoldable pub load_tls : String → TlsConfig → Result EnvVarReadError TlsConfig
    load_tls prefix c = do
      let p = concat_prefix prefix "TLS"
      let server_name = read_env_string p "SERVER_NAME" c.server_name
      min_version ← read_env p "MIN_VERSION" c.min_version conv.to_float
      enabled ← read_env p "ENABLED" c.enabled conv.to_bool
      certificates ← read_env p "CERTIFICATES" c.certificates conv.to_cert_config_slice
      ok (record {
        server_name = server_name;
        min_version = min_version;
        enabled = enabled;
        certificates = certificates;
      })

    unfoldable pub load_origin_regex :
        String → OriginRegexConfig → Result EnvVarReadError OriginRegexConfig
    load_origin_regex prefix c = do
      let p = concat_prefix prefix "ALLOWED_ORIGINS_REGEX"
      let if_no_match = read_env_string p "IF_NO_MATCH" c.if_no_match
      patterns ← read_env p "PATTERNS" c.patterns conv.to_string_slice
      ok (record { if_no_match = if_no_match; patterns = patterns; regexes = c.regexes })

    unfoldable pub load_cors : String → CorsConfig → Result EnvVarReadError CorsConfig
    unfolding load_origin_regex
    load_cors prefix c = do
      let p = concat_prefix prefix "CORS"
      enabled ← read_env p "ENABLED" c.enabled conv.to_bool
      allowed_origins ← read_env p "ALLOWED_ORIGINS" c.allowed_origins conv.to_string_slice
      allowed_origins_regex ← load_origin_regex p c.allowed_origins_regex
      ok (record {
        enabled = enabled;
        allowed_origins = allowed_origins;
        allowed_origins_regex = allowed_origins_regex;
      })

    unfoldable pub load_auth : String → AuthConfig → Result EnvVarReadError AuthConfig
    load_auth prefix c = do
      let p = concat_prefix prefix "AUTH"
      let user = read_env_string p "USER" c.user
      let password = read_env_string p "PASSWORD" c.password
      ok (record { user = user; password = password })

    unfoldable pub load_status : String → StatusConfig → Result EnvVarReadError StatusConfig
    load_status prefix c = do
      let p = concat_prefix prefix "STATUS"
      enabled ← read_env p "ENABLED" c.enabled conv.to_bool
      ok (record { enabled = enabled })

    unfoldable pub load_otlp :
        String → OtlpExporterConfig → Result EnvVarReadError OtlpExporterConfig
    load_otlp prefix c = do
      let p = concat_prefix prefix "OTLP"
      let protocol = read_env_string p "PROTOCOL" c.protocol
      let endpoint = read_env_string p "ENDPOINT" c.endpoint
      enabled ← read_env p "ENABLED" c.enabled conv.to_bool
      ok (record { protocol = protocol; endpoint = endpoint; enabled = enabled })

    unfoldable pub load_prometheus :
        String → PrometheusExporterConfig → Result EnvVarReadError PrometheusExporterConfig
    load_prometheus prefix c = do
      let p = concat_prefix prefix "PROMETHEUS"
      enabled ← read_env p "ENABLED" c.enabled conv.to_bool
      ok (record { enabled = enabled })

    unfoldable pub load_local : String → LocalConfig → Result EnvVarReadError LocalConfig
    load_local prefix c = do
      let p = concat_prefix prefix "LOCAL"
      polling ← read_env p "POLLING" c.polling conv.to_bool
      poll_interval ← read_env p "POLL_INTERVAL" c.poll_interval conv.to_int
      let file_path = read_env_string p "FILE_PATH" c.file_path
      ok (record { polling = polling; poll_interval = poll_interval; file_path = file_path })

    unfoldable pub load_offline : String → OfflineConfig → Result EnvVarReadError OfflineConfig
    unfolding load_local load_log
    load_offline prefix c = do
      let p = concat_prefix prefix "OFFLINE"
      enabled ← read_env p "ENABLED" c.enabled conv.to_bool
      use_cache ← read_env p "USE_CACHE" c.use_cache conv.to_bool
      cache_poll_interval ← read_env p "CACHE_POLL_INTERVAL" c.cache_poll_interval conv.to_int
      local ← load_local p c.local
      log ← load_log p c.log
      ok (record {
        enabled = enabled;
        use_cache = use_cache;
        cache_poll_interval = cache_poll_interval;
        local = local;
        log = log;
      })

    unfoldable pub load_global_offline :
        String → GlobalOfflineConfig → Result EnvVarReadError GlobalOfflineConfig
    unfolding load_log
    load_global_offline prefix c = do
      let p = concat_prefix prefix "OFFLINE"
      enabled ← read_env p "ENABLED" c.enabled conv.to_bool
      cache_poll_interval ← read_env p "CACHE_POLL_INTERVAL" c.cache_poll_interval conv.to_int
      log ← load_log p c.log
      ok (record { enabled = enabled; cache_poll_interval = cache_poll_interval; log = log })

    unfoldable pub load_http_proxy :
        String → HttpProxyConfig → Result EnvVarReadError HttpProxyConfig
    load_http_proxy prefix c = do
      let p = concat_prefix prefix "HTTP_PROXY"
      let url = read_env_string p "URL" c.url
      ok (record { url = url })

    unfoldable pub load_sdk : String → SdkConfig → Result EnvVarReadError SdkConfig
    unfolding load_log load_offline
    load_sdk prefix c = do
      let base_url = read_env_string prefix "BASE_URL" c.base_url
      let data_governance = read_env_string prefix "DATA_GOVERNANCE" c.data_governance
      let webhook_signing_key = read_env_string prefix "WEBHOOK_SIGNING_KEY" c.webhook_signing_key
      webhook_signature_valid_for ←
          read_env prefix "WEBHOOK_SIGNATURE_VALID_FOR" c.webhook_signature_valid_for conv.to_int
      poll_interval ← read_env prefix "POLL_INTERVAL" c.poll_interval conv.to_int
      default_attrs ← read_env prefix "DEFAULT_USER_ATTRIBUTES" c.default_attrs conv.to_user_attrs
      offline ← load_offline prefix c.offline
      log ← load_log prefix c.log
      ok (record {
        base_url = base_url;
        data_governance = data_governance;
        webhook_signing_key = webhook_signing_key;
        webhook_signature_valid_for = webhook_signature_valid_for;
        poll_interval = poll_interval;
        default_attrs = default_attrs;
        offline = offline;
        log = log;
        key = c.key;
      })

    unfoldable pub load_profile_sdk :
        String → ProfileSdkConfig → Result EnvVarReadError ProfileSdkConfig
    unfolding load_log
    load_profile_sdk prefix c = do
      let p = concat_prefix prefix "SDKS"
      let base_url = read_env_string p "BASE_URL" c.base_url
      log ← load_log p c.log
      ok (record { base_url = base_url; log = log })

    unfoldable pub load_profile : String → ProfileConfig → Result EnvVarReadError ProfileConfig
    unfolding load_log load_profile_sdk
    load_profile prefix c = do
      let p = concat_prefix prefix "PROFILE"
      let key = read_env_string p "KEY" c.key
      let secret = read_env_string p "SECRET" c.secret
      let base_url = read_env_string p "BASE_URL" c.base_url
      let webhook_signing_key = read_env_string p "WEBHOOK_SIGNING_KEY" c.webhook_signing_key
      webhook_signature_valid_for ←
          read_env p "WEBHOOK_SIGNATURE_VALID_FOR" c.webhook_signature_valid_for conv.to_int
      poll_interval ← read_env p "POLL_INTERVAL" c.poll_interval conv.to_int
      sdks ← load_profile_sdk p c.sdks
      log ← load_log p c.log
      ok (record {
        key = key;
        secret = secret;
        base_url = base_url;
        webhook_signing_key = webhook_signing_key;
        webhook_signature_valid_for = webhook_signature_valid_for;
        poll_interval = poll_interval;
        sdks = sdks;
        log = log;
      })
