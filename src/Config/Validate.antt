-- ===== src/Config/Validate.antt =====
-- config/validate.go: the checks of the loaded configuration. An error carries what its message
-- is built from. The file system is the argument `exists`: whether `os.Stat` finds a path.
-- A panic on a nil `*SDKConfig` is the error `nil_dereference`.
pub mod Parts
pub mod Laws
use configcat_proxy.Base.{
  ◌==◌, if◌then◌else◌, ℤ, pos, ltb_ℤ, Result, ok, err, String, Bool, true, false, not, ◌&&◌, ◌||◌,
  Option, none, some, List, [], ◌∷◌, string_eq, int_eq, ◌>>◌,
}
use configcat_proxy.Base.Dict.{Dict}
use configcat_proxy.Config.Types.{
  LocalConfig, OfflineConfig, SdkConfig, GrpcConfig, CertConfig, TlsConfig, OtlpExporterConfig,
  DiagConfig, OriginRegexConfig, CorsConfig, WebhookConfig, HttpConfig, RedisConfig, MongoDbConfig,
  CacheConfig, GlobalOfflineConfig, ProfileConfig, Config,
}

pub data ConfigError : Type 0 where
  no_sdk_configured : ConfigError
  sdk_key_required : String → ConfigError
  invalid_data_governance : String → ConfigError
  sdk_webhook_validity : String → ConfigError
  redis_address_required : ConfigError
  mongodb_invalid_uri : ConfigError
  offline_needs_source : String → ConfigError
  offline_two_sources : String → ConfigError
  offline_no_cache : String → ConfigError
  cache_poll_interval_invalid : String → ConfigError
  global_no_cache : ConfigError
  global_poll_interval_invalid : ConfigError
  tls_pair_required : ConfigError
  invalid_port : String → ℤ → ConfigError
  webhook_auth_pair_required : ConfigError
  if_no_match_required : ConfigError
  local_file_missing : String → String → ConfigError
  local_poll_interval_invalid : String → ConfigError
  invalid_otlp_protocol : String → ConfigError
  profile_secret_required : ConfigError
  profile_poll_interval_invalid : ConfigError
  profile_webhook_validity : ConfigError
  nil_dereference : ConfigError

abbrev pub Check : Type 0
Check = Result ConfigError (Unit {0})

abbrev pub fail_if : Bool → ConfigError → Check
fail_if true e = err e
fail_if false e = ok tt

abbrev pub is_empty {ℓ} : {A : Type ℓ} → List A → Bool
is_empty [] = true
is_empty (x ∷ xs) = false

unfoldable pub cache_is_set : CacheConfig → Bool
cache_is_set c = c.redis.enabled || (c.mongodb.enabled || c.dynamodb.enabled)

unfoldable pub profile_is_set : ProfileConfig → Bool
profile_is_set a = not (a.key == "")

unfoldable pub is_metrics_enabled : DiagConfig → Bool
is_metrics_enabled d = d.enabled && d.metrics.enabled

unfoldable pub is_traces_enabled : DiagConfig → Bool
is_traces_enabled d = d.enabled && d.traces.enabled

-- The loop of `TlsConfig.validate`.
validate_certificates : List CertConfig → Check
validate_certificates [] = ok tt
validate_certificates (cert ∷ certs) = do
  fail_if ((not (cert.cert == "") && cert.key == "") || (not (cert.key == "") && cert.cert == ""))
      tls_pair_required
  validate_certificates certs

pub validate_tls : TlsConfig → Check
validate_tls t = if not t.enabled then ok tt else validate_certificates t.certificates

validate_redis : RedisConfig → Check
validate_redis r =
    if not r.enabled
    then ok tt
    else do fail_if (is_empty r.addresses) redis_address_required; validate_tls r.tls

validate_mongodb : MongoDbConfig → Check
validate_mongodb m =
    if not m.enabled
    then ok tt
    else do fail_if (m.url == "") mongodb_invalid_uri; validate_tls m.tls

pub validate_global_offline : GlobalOfflineConfig → CacheConfig → Check
validate_global_offline g c = if not g.enabled then ok tt else do
  fail_if (not c.redis.enabled) global_no_cache
  fail_if (ltb_ℤ g.cache_poll_interval (pos 1)) global_poll_interval_invalid

abbrev check_port : String → ℤ → Check
check_port server port =
    fail_if (ltb_ℤ port (pos 1) || ltb_ℤ (pos 65535) port) (invalid_port server port)

validate_webhook : WebhookConfig → Check
validate_webhook w =
    if not w.enabled
    then ok tt
    else fail_if
        ((not (w.auth.user == "") && w.auth.password == "")
          || (not (w.auth.password == "") && w.auth.user == ""))
        webhook_auth_pair_required

validate_origin_regex : OriginRegexConfig → Check
validate_origin_regex o =
    fail_if (not (is_empty o.patterns) && o.if_no_match == "") if_no_match_required

validate_cors : CorsConfig → Check
validate_cors c = if not c.enabled then ok tt else validate_origin_regex c.allowed_origins_regex

pub validate_http : HttpConfig → Check
validate_http h = do
  check_port "http" h.port
  validate_webhook h.webhook
  validate_cors h.api.cors
  validate_cors h.ofrep.cors
  validate_cors h.sse.cors
  validate_cors h.cdn_proxy.cors

validate_otlp : OtlpExporterConfig → Check
validate_otlp o =
    fail_if
      (not (o.protocol == "http") && (not (o.protocol == "https") && not (o.protocol == "grpc")))
      (invalid_otlp_protocol o.protocol)

pub validate_diag : DiagConfig → Check
unfolding is_metrics_enabled is_traces_enabled
validate_diag d = do
  check_port "diag" d.port
  if is_metrics_enabled d && d.metrics.otlp.enabled then validate_otlp d.metrics.otlp else ok tt
  if is_traces_enabled d && d.traces.otlp.enabled then validate_otlp d.traces.otlp else ok tt

validate_grpc : GrpcConfig → Check
validate_grpc g = check_port "grpc" g.port

pub validate_profile : ProfileConfig → GlobalOfflineConfig → Check
validate_profile a c = do
  fail_if (a.secret == "" && not c.enabled) profile_secret_required
  fail_if (ltb_ℤ a.poll_interval (pos 60)) profile_poll_interval_invalid
  fail_if (not (a.webhook_signing_key == "") && ltb_ℤ a.webhook_signature_valid_for (pos 5))
      profile_webhook_validity

module _ (exists : String → Bool) where
  validate_local : LocalConfig → String → Check
  validate_local l sdk_id = do
    fail_if (not (exists l.file_path)) (local_file_missing sdk_id l.file_path)
    fail_if (l.polling && ltb_ℤ l.poll_interval (pos 1)) (local_poll_interval_invalid sdk_id)

  validate_offline : OfflineConfig → CacheConfig → String → Check
  unfolding cache_is_set
  validate_offline o c sdk_id = if not o.enabled then ok tt else do
    fail_if (o.local.file_path == "" && not o.use_cache) (offline_needs_source sdk_id)
    fail_if (not (o.local.file_path == "") && o.use_cache) (offline_two_sources sdk_id)
    if not (o.local.file_path == "") then validate_local o.local sdk_id else ok tt
    fail_if (o.use_cache && not (cache_is_set c)) (offline_no_cache sdk_id)
    fail_if (o.use_cache && ltb_ℤ o.cache_poll_interval (pos 1))
        (cache_poll_interval_invalid sdk_id)

  validate_sdk : SdkConfig → CacheConfig → ProfileConfig → String → Check
  unfolding profile_is_set
  validate_sdk s c p sdk_id = do
    fail_if (not (profile_is_set p) && s.key == "") (sdk_key_required sdk_id)
    fail_if
        (not (s.data_governance == "")
          && (not (s.data_governance == "global") && not (s.data_governance == "eu")))
        (invalid_data_governance sdk_id)
    fail_if (not (s.webhook_signing_key == "") && ltb_ℤ s.webhook_signature_valid_for (pos 5))
        (sdk_webhook_validity sdk_id)
    validate_offline s.offline c sdk_id

  -- The loop of `Validate` over the SDKs, in the order in which the map is walked.
  pub validate_sdks : Dict String (Option SdkConfig) → CacheConfig → ProfileConfig → Check
  validate_sdks [] c p = ok tt
  validate_sdks ((id, none) ∷ sdks) c p = err nil_dereference
  validate_sdks ((id, some conf) ∷ sdks) c p = do validate_sdk conf c p id; validate_sdks sdks c p

  pub validate : Config → Check
  unfolding profile_is_set
  validate c = do
    fail_if (is_empty c.sdks && not (profile_is_set c.profile)) no_sdk_configured
    if profile_is_set c.profile then validate_profile c.profile c.global_offline_config else ok tt
    validate_sdks c.sdks c.cache c.profile
    validate_tls c.tls
    validate_http c.http
    validate_diag c.diag
    validate_grpc c.grpc
    validate_redis c.cache.redis
    validate_mongodb c.cache.mongodb
    validate_global_offline c.global_offline_config c.cache
