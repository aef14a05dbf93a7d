-- ===== src/Config/Validate/Laws.antt =====
-- Which configurations pass the checks.
use configcat_proxy.Base.{
  if◌then◌else◌, ok, err, ◌>>◌, All, String, ◌≡◌, refl, ◌≢◌, ◌↔◌, ◌⊎◌, Bool, false, not, ◌&&◌, [],
  arith, eq_iff, string_eq, int_eq,
}
use configcat_proxy.Config.Types.{GrpcConfig, RedisConfig, MongoDbConfig, Config}
use configcat_proxy.Config.Validate.{
  no_sdk_configured, Check, fail_if, is_empty, profile_is_set, validate_redis, validate_mongodb,
  validate_grpc, validate_profile, validate,
}
use configcat_proxy.Config.Validate.Parts.{
  IsPort, IsValidEntry, validate_sdks_iff, IsValidTls, validate_tls_iff, IsValidHttp,
  validate_http_iff, IsValidDiag, validate_diag_iff, IsValidProfile, validate_profile_iff,
  IsValidGlobal, validate_global_offline_iff,
}

-- What `Validate` promises.
pub record IsValid (exists : String → Bool) (c : Config) : Type 0 where
  pub some_sdk : (c.sdks ≢ []) ⊎ (c.profile.key ≢ "")
  pub profile : (c.profile.key ≡ "") ⊎ IsValidProfile c.global_offline_config c.profile
  pub sdks : All (IsValidEntry exists c.cache c.profile) c.sdks
  pub tls : IsValidTls c.tls
  pub http : IsValidHttp c.http
  pub diag : IsValidDiag c.diag
  pub grpc : IsPort c.grpc.port
  pub redis :
      (c.cache.redis.enabled ≡ false)
      ⊎ ((c.cache.redis.addresses ≢ []) × IsValidTls c.cache.redis.tls)
  pub mongodb :
      (c.cache.mongodb.enabled ≡ false)
      ⊎ ((c.cache.mongodb.url ≢ "") × IsValidTls c.cache.mongodb.tls)
  pub global : IsValidGlobal c.cache c.global_offline_config

validate_redis_iff :
    (r : RedisConfig)
    → (validate_redis r ≡ ok tt) ↔ ((r.enabled ≡ false) ⊎ ((r.addresses ≢ []) × IsValidTls r.tls))
unfolding validate_redis
validate_redis_iff r = ground (arith, validate_tls_iff r.tls)

validate_mongodb_iff :
    (m : MongoDbConfig)
    → (validate_mongodb m ≡ ok tt) ↔ ((m.enabled ≡ false) ⊎ ((m.url ≢ "") × IsValidTls m.tls))
unfolding validate_mongodb
validate_mongodb_iff m = ground (arith, eq_iff m.url "", validate_tls_iff m.tls)

validate_grpc_iff : (g : GrpcConfig) → (validate_grpc g ≡ ok tt) ↔ IsPort g.port
unfolding validate_grpc
validate_grpc_iff g = ground arith

-- A sequence of two checks passes when both do.
both {ℓ κ} :
    {P : Type ℓ} {Q : Type κ} (m k : Check)
    → (m ≡ ok tt) ↔ P
    → (k ≡ ok tt) ↔ Q
    → ((m >> k) ≡ ok tt) ↔ (P × Q)
both (ok tt) k p q = (λ e. (p.0 refl, q.0 e), λ h. q.1 h.1)
both (err x) k p q = (λ e. cc, λ h. p.1 h.0)

some_sdk_iff :
    (c : Config)
    → (fail_if (is_empty c.sdks && not (profile_is_set c.profile)) no_sdk_configured ≡ ok tt)
      ↔ ((c.sdks ≢ []) ⊎ (c.profile.key ≢ ""))
unfolding profile_is_set
some_sdk_iff c = ground (arith, eq_iff c.profile.key "")

profile_iff :
    (c : Config)
    → ((if profile_is_set c.profile
          then validate_profile c.profile c.global_offline_config
          else ok tt)
        ≡ ok tt)
      ↔ ((c.profile.key ≡ "") ⊎ IsValidProfile c.global_offline_config c.profile)
unfolding profile_is_set
profile_iff c =
    ground (arith, eq_iff c.profile.key "", validate_profile_iff c.profile c.global_offline_config)

-- `Validate` accepts exactly the configurations with these properties. An SDK or a profile is
-- there, and no SDK is nil. Each SDK has a key, unless a profile is set; a data governance that is
-- empty, global or eu; and, if it has a webhook signing key, a signature validity of at least 5
-- seconds. An offline SDK has either a file, which exists, with a poll interval of at least 1 if
-- the file is polled, or the cache, which is configured, with a poll interval of at least 1. A set
-- profile has a secret, unless the proxy is globally offline, a poll interval of at least 60, and,
-- if it has a signing key, a signature validity of at least 5. The certificates come with their
-- keys where TLS is enabled, also in an enabled Redis or MongoDB; an enabled webhook has both a
-- user and a password or neither; an enabled CORS section with patterns has a fallback origin. The
-- three ports lie in 1 to 65535; an OTLP exporter that is enabled with its section and the
-- diagnostics has a known protocol; an enabled Redis has an address and an enabled MongoDB a URL;
-- and the global offline mode has Redis and a poll interval of at least 1.
pub validate_iff :
    (exists : String → Bool) (c : Config) → (validate exists c ≡ ok tt) ↔ IsValid exists c
unfolding validate
validate_iff exists c =
    let parts = both _ _ (some_sdk_iff c) (
      both _ _ (profile_iff c) (
        both _ _ (validate_sdks_iff exists c.sdks c.cache c.profile) (
          both _ _ (validate_tls_iff c.tls) (
            both _ _ (validate_http_iff c.http) (
              both _ _ (validate_diag_iff c.diag) (
                both _ _ (validate_grpc_iff c.grpc) (
                  both _ _ (validate_redis_iff c.cache.redis) (
                    both _ _ (validate_mongodb_iff c.cache.mongodb)
                      (validate_global_offline_iff c.global_offline_config c.cache))))))))) in
    (
      λ e.
          let (a, p) = parts.0 e in
          let (b, q) = p in
          let (d, r) = q in
          let (f, s) = r in
          let (g, t) = s in
          let (h, u) = t in
          let (i, v) = u in
          let (j, w) = v in
          let (k, l) = w in
          record {
            some_sdk = a;
            profile = b;
            sdks = d;
            tls = f;
            http = g;
            diag = h;
            grpc = i;
            redis = j;
            mongodb = k;
            global = l;
          },
      λ v. parts.1 (
        v.some_sdk,
        (
          v.profile,
          (v.sdks, (v.tls, (v.http, (v.diag, (v.grpc, (v.redis, (v.mongodb, v.global))))))),
        ),
      ),
    )
