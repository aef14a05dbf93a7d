-- ===== src/Config/Env/Structs/Unset.antt =====
-- The readers of config/env.go where no variable is set.
use configcat_proxy.Base.{Result, ok, String, ◌<>◌, ◌≡◌, refl, string_eq}
use configcat_proxy.Config.Types.{
  LogConfig, LocalConfig, OfflineConfig, SdkConfig, TlsConfig, PrometheusExporterConfig,
  OtlpExporterConfig, StatusConfig, OriginRegexConfig, CorsConfig, AuthConfig, HttpProxyConfig,
  GlobalOfflineConfig, ProfileSdkConfig, ProfileConfig,
}
use configcat_proxy.Config.Env.Structs.{
  Converters, read_env, read_env_string, load_log, load_tls, load_origin_regex, load_cors,
  load_auth, load_status, load_otlp, load_prometheus, load_local, load_offline, load_global_offline,
  load_http_proxy, load_sdk, load_profile_sdk, load_profile,
}

module _ (getenv : String → String) (unset : (name : String) → getenv name ≡ "") where
  pub read_env-unset {ℓ} :
      {A : Type ℓ} (prefix key : String) (old : A) (conv : String → Result String A)
      → read_env getenv prefix key old conv ≡ ok old
  unfolding read_env
  read_env-unset prefix key old conv = rw (unset (prefix <> ("_" <> key))) refl

  pub read_env_string-unset :
      (prefix key old : String) → read_env_string getenv prefix key old ≡ old
  unfolding read_env_string
  read_env_string-unset prefix key old = rw (unset (prefix <> ("_" <> key))) refl

module _ (getenv : String → String) (conv : Converters)
    (unset : (name : String) → getenv name ≡ "") where
  pub load_log-unset : (prefix : String) (c : LogConfig) → load_log getenv conv prefix c ≡ ok c
  unfolding load_log
  load_log-unset prefix c = simp (read_env_string-unset getenv unset) refl

  pub load_tls-unset : (prefix : String) (c : TlsConfig) → load_tls getenv conv prefix c ≡ ok c
  unfolding load_tls
  load_tls-unset prefix c =
      simp (read_env-unset {0} getenv unset, read_env_string-unset getenv unset) refl

  pub load_origin_regex-unset :
      (prefix : String) (c : OriginRegexConfig) → load_origin_regex getenv conv prefix c ≡ ok c
  unfolding load_origin_regex
  load_origin_regex-unset prefix c =
      simp (read_env-unset {0} getenv unset, read_env_string-unset getenv unset) refl

  pub load_cors-unset : (prefix : String) (c : CorsConfig) → load_cors getenv conv prefix c ≡ ok c
  unfolding load_cors
  load_cors-unset prefix c =
      simp (read_env-unset {0} getenv unset, read_env_string-unset getenv unset) refl

  pub load_auth-unset : (prefix : String) (c : AuthConfig) → load_auth getenv conv prefix c ≡ ok c
  unfolding load_auth
  load_auth-unset prefix c = simp (read_env_string-unset getenv unset) refl

  pub load_status-unset :
      (prefix : String) (c : StatusConfig) → load_status getenv conv prefix c ≡ ok c
  unfolding load_status
  load_status-unset prefix c = simp (read_env-unset {0} getenv unset) refl

  pub load_otlp-unset :
      (prefix : String) (c : OtlpExporterConfig) → load_otlp getenv conv prefix c ≡ ok c
  unfolding load_otlp
  load_otlp-unset prefix c =
      simp (read_env-unset {0} getenv unset, read_env_string-unset getenv unset) refl

  pub load_prometheus-unset :
      (prefix : String) (c : PrometheusExporterConfig) → load_prometheus getenv conv prefix c ≡ ok c
  unfolding load_prometheus
  load_prometheus-unset prefix c = simp (read_env-unset {0} getenv unset) refl

  pub load_local-unset :
      (prefix : String) (c : LocalConfig) → load_local getenv conv prefix c ≡ ok c
  unfolding load_local
  load_local-unset prefix c =
      simp (read_env-unset {0} getenv unset, read_env_string-unset getenv unset) refl

  pub load_offline-unset :
      (prefix : String) (c : OfflineConfig) → load_offline getenv conv prefix c ≡ ok c
  unfolding load_offline
  load_offline-unset prefix c =
      simp (read_env-unset {0} getenv unset, read_env_string-unset getenv unset) refl

  pub load_global_offline-unset :
      (prefix : String) (c : GlobalOfflineConfig) → load_global_offline getenv conv prefix c ≡ ok c
  unfolding load_global_offline
  load_global_offline-unset prefix c =
      simp (read_env-unset {0} getenv unset, read_env_string-unset getenv unset) refl

  pub load_http_proxy-unset :
      (prefix : String) (c : HttpProxyConfig) → load_http_proxy getenv conv prefix c ≡ ok c
  unfolding load_http_proxy
  load_http_proxy-unset prefix c = simp (read_env_string-unset getenv unset) refl

  pub load_sdk-unset : (prefix : String) (c : SdkConfig) → load_sdk getenv conv prefix c ≡ ok c
  unfolding load_sdk
  load_sdk-unset prefix c =
      simp (read_env-unset {0} getenv unset, read_env_string-unset getenv unset) refl

  pub load_profile_sdk-unset :
      (prefix : String) (c : ProfileSdkConfig) → load_profile_sdk getenv conv prefix c ≡ ok c
  unfolding load_profile_sdk
  load_profile_sdk-unset prefix c = simp (read_env_string-unset getenv unset) refl

  pub load_profile-unset :
      (prefix : String) (c : ProfileConfig) → load_profile getenv conv prefix c ≡ ok c
  unfolding load_profile
  load_profile-unset prefix c =
      simp (read_env-unset {0} getenv unset, read_env_string-unset getenv unset) refl
