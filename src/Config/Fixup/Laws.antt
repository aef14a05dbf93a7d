-- ===== src/Config/Fixup/Laws.antt =====
-- What the fixups of config/config.go establish before the configuration is used.
use configcat_proxy.Base.{
  if◌then◌else◌, Bool-cases, ℤ, pos, Result, ok, All, String, ◌≡◌, refl, sym, ◌≢◌, ◌⊎◌, inl, inr,
  true, false, Option, none, some, [], ◌∷◌, arith, string_eq, int_eq,
}
use configcat_proxy.Config.Types.{
  v1_2, Regexp, LogConfig, SdkConfig, TlsConfig, GlobalOfflineConfig, Config,
}
use configcat_proxy.Config.Fixup.{
  get_level, is_none, default_webhook_signature_valid_for, default_sdk_poll_interval,
  default_cache_poll_interval, default_auto_sdk_poll_interval, or_default, map_sdks,
  fixup_sdk_defaults, fixup_defaults, fixup_sdk_offline, fixup_offline, fixup_log, fixup_sdk_log,
  fixup_log_levels, is_allowed_version, fixup_tls, fixup_tls_min_versions, compile_origin_regexes,
  fixup,
}
use mathlib.Core.Path.{subst}
use configcat_proxy.Config.Fixup.Regexes.{compile_origin_regexes_inv}
use configcat_proxy.Base.Dict.{Dict}

-- A log level that is named, so that `GetLevel` knows it.
abbrev pub IsLeveled : LogConfig → Type 0
IsLeveled l = is_none (get_level l) ≡ false

abbrev pub IsVersioned : TlsConfig → Type 0
IsVersioned t = is_allowed_version t.min_version ≡ true

-- An SDK after the fixups: levels are named, no interval is zero, and it is offline when the proxy
-- is globally offline.
pub record IsSettledSdk (g : GlobalOfflineConfig) (sdk : SdkConfig) : Type 0 where
  pub log : IsLeveled sdk.log
  pub offline_log : IsLeveled sdk.offline.log
  pub validity : sdk.webhook_signature_valid_for ≢ pos 0
  pub polled : sdk.poll_interval ≢ pos 0
  pub file_polled : sdk.offline.local.poll_interval ≢ pos 0
  pub cache_polled : sdk.offline.cache_poll_interval ≢ pos 0
  pub offline : (g.enabled ≡ false) ⊎ (sdk.offline.enabled ≡ true)

abbrev pub IsSettledEntry : GlobalOfflineConfig → String × Option SdkConfig → Type 0
IsSettledEntry g (id, none) = Unit
IsSettledEntry g (id, some sdk) = IsSettledSdk g sdk

pub record IsSettled (c : Config) : Type 0 where
  pub log : IsLeveled c.log
  pub profile_log : IsLeveled c.profile.log
  pub profile_sdks_log : IsLeveled c.profile.sdks.log
  pub http_log : IsLeveled c.http.log
  pub sse_log : IsLeveled c.http.sse.log
  pub grpc_log : IsLeveled c.grpc.log
  pub offline_log : IsLeveled c.global_offline_config.log
  pub sdks : All (IsSettledEntry c.global_offline_config) c.sdks
  pub tls : IsVersioned c.tls
  pub redis : IsVersioned c.cache.redis.tls
  pub mongodb : IsVersioned c.cache.mongodb.tls
  pub offline_polled : c.global_offline_config.cache_poll_interval ≢ pos 0
  pub profile_polled : c.profile.poll_interval ≢ pos 0
  pub profile_validity : c.profile.webhook_signature_valid_for ≢ pos 0

fixup_log-IsLeveled :
    (d : String) (l : LogConfig) → IsLeveled (record { level = d }) → IsLeveled (fixup_log d l)
unfolding fixup_log
fixup_log-IsLeveled d l h = ground arith

or_default-ne : (x d : ℤ) → d ≢ pos 0 → or_default x d ≢ pos 0
or_default-ne x d h = ground arith

-- The passes over one SDK, in their order.
module _ (d : String) (g : GlobalOfflineConfig) where
  settle : SdkConfig → SdkConfig
  settle sdk =
      let s = fixup_sdk_defaults (fixup_sdk_log d sdk) in
      if g.enabled then fixup_sdk_offline g s else s

  settle-IsSettledSdk :
      (sdk : SdkConfig)
      → IsLeveled (record { level = d })
      → IsLeveled g.log
      → g.cache_poll_interval ≢ pos 0
      → IsSettledSdk g (settle sdk)
  unfolding settle fixup_sdk_defaults fixup_sdk_offline fixup_sdk_log
  settle-IsSettledSdk sdk h k p = ground (
    arith,
    fixup_log-IsLeveled d sdk.log h,
    fixup_log-IsLeveled d sdk.offline.log h,
    or_default-ne sdk.webhook_signature_valid_for default_webhook_signature_valid_for,
    or_default-ne sdk.poll_interval default_sdk_poll_interval,
    or_default-ne sdk.offline.local.poll_interval default_cache_poll_interval,
    or_default-ne sdk.offline.cache_poll_interval default_cache_poll_interval,
  )

  -- The three walks over the map, the last one only in the global offline mode.
  settle_sdks : Dict String (Option SdkConfig) → Dict String (Option SdkConfig)
  settle_sdks sdks =
      let ds = map_sdks fixup_sdk_defaults (map_sdks (fixup_sdk_log d) sdks) in
      if g.enabled then map_sdks (fixup_sdk_offline g) ds else ds

  settle_sdks-IsSettledEntry :
      (sdks : Dict String (Option SdkConfig))
      → IsLeveled (record { level = d })
      → IsLeveled g.log
      → g.cache_poll_interval ≢ pos 0
      → All (IsSettledEntry g) (settle_sdks sdks)
  unfolding settle_sdks map_sdks settle
  settle_sdks-IsSettledEntry [] h k p = ground arith
  settle_sdks-IsSettledEntry ((id, none) ∷ sdks) h k p =
      ground (arith, settle_sdks-IsSettledEntry sdks h k p)
  settle_sdks-IsSettledEntry ((id, some sdk) ∷ sdks) h k p =
      ground (arith, settle_sdks-IsSettledEntry sdks h k p, settle-IsSettledSdk sdk h k p)

fixup_tls-IsVersioned : (t : TlsConfig) → IsVersioned (fixup_tls v1_2 t)
unfolding fixup_tls
fixup_tls-IsVersioned t = ground arith

warn-IsLeveled : IsLeveled (record { level = "warn" })
unfolding get_level
warn-IsLeveled = refl

module _ (c : Config) (named : IsLeveled c.log) where
  leveled : Config
  leveled = fixup_log_levels c.log.level c

  tuned : GlobalOfflineConfig
  tuned = (fixup_defaults leveled).global_offline_config

  tuned_lem : IsLeveled tuned.log × (tuned.cache_poll_interval ≢ pos 0)
  unfolding tuned fixup_defaults leveled fixup_log_levels
  tuned_lem = (
    fixup_log-IsLeveled c.log.level c.global_offline_config.log named,
    or_default-ne c.global_offline_config.cache_poll_interval default_cache_poll_interval (λ e. cc),
  )

  fixup_rest : Config
  fixup_rest = fixup_offline (fixup_tls_min_versions v1_2 (fixup_defaults leveled))

  fixup_rest-fields :
      (fixup_rest.global_offline_config ≡ tuned)
      × (fixup_rest.sdks ≡ settle_sdks c.log.level tuned c.sdks)
      × (record fixup_rest { sdks = [] }
          ≡ record (fixup_tls_min_versions v1_2 (fixup_defaults leveled)) { sdks = [] })
  unfolding fixup_rest fixup_offline fixup_tls_min_versions tuned settle_sdks fixup_defaults leveled
      fixup_log_levels
  fixup_rest-fields = ground arith

  IsSettled-base :
      (sdks : Dict String (Option SdkConfig))
      → All (IsSettledEntry tuned) sdks
      → IsSettled (record (fixup_tls_min_versions v1_2 (fixup_defaults leveled)) { sdks = sdks })
  unfolding fixup_tls_min_versions tuned fixup_defaults leveled fixup_log_levels
  IsSettled-base sdks h = record {
    log = named;
    profile_log = fixup_log-IsLeveled c.log.level c.profile.log named;
    profile_sdks_log = fixup_log-IsLeveled c.log.level c.profile.sdks.log named;
    http_log = fixup_log-IsLeveled c.log.level c.http.log named;
    sse_log = fixup_log-IsLeveled c.log.level c.http.sse.log named;
    grpc_log = fixup_log-IsLeveled c.log.level c.grpc.log named;
    offline_log = tuned_lem.0;
    sdks = h;
    tls = fixup_tls-IsVersioned c.tls;
    redis = fixup_tls-IsVersioned c.cache.redis.tls;
    mongodb = fixup_tls-IsVersioned c.cache.mongodb.tls;
    offline_polled = tuned_lem.1;
    profile_polled = or_default-ne c.profile.poll_interval default_auto_sdk_poll_interval (λ e. cc);
    profile_validity =
        or_default-ne c.profile.webhook_signature_valid_for default_webhook_signature_valid_for
          (λ e. cc);
  }

  fixup_rest-IsSettled : IsSettled fixup_rest
  fixup_rest-IsSettled =
      let (_, s_eq, rest) = fixup_rest-fields in
      let entries =
        settle_sdks-IsSettledEntry c.log.level tuned c.sdks named tuned_lem.0 tuned_lem.1 in
      subst (λ x. IsSettled (record x { sdks = fixup_rest.sdks })) (sym rest)
        (IsSettled-base fixup_rest.sdks (subst (All (IsSettledEntry tuned)) (sym s_eq) entries))

-- The regexes are no part of what is settled.
compile_origin_regexes-IsSettled :
    (compile : String → Result String Regexp) (c d : Config)
    → compile_origin_regexes compile c ≡ ok d
    → IsSettled c
    → IsSettled d
compile_origin_regexes-IsSettled compile c d h s =
    let (api, cdn_proxy, sse, _, _, _, same) = compile_origin_regexes_inv compile c d h in
    rw same (record {
      log = s.log;
      profile_log = s.profile_log;
      profile_sdks_log = s.profile_sdks_log;
      http_log = s.http_log;
      sse_log = s.sse_log;
      grpc_log = s.grpc_log;
      offline_log = s.offline_log;
      sdks = s.sdks;
      tls = s.tls;
      redis = s.redis;
      mongodb = s.mongodb;
      offline_polled = s.offline_polled;
      profile_polled = s.profile_polled;
      profile_validity = s.profile_validity;
    })

-- A load that succeeds ends with a settled configuration: every log level is a known one, the three
-- TLS versions are allowed ones, no interval that has a default is zero, and each SDK that is not
-- nil has known log levels, no zero interval, and is offline if the proxy is globally offline.
pub fixup-IsSettled :
    (compile : String → Result String Regexp) (c d : Config) → fixup compile c ≡ ok d → IsSettled d
unfolding fixup
fixup-IsSettled compile c d h = elim (Bool-cases (is_none (get_level c.log))) [
  | inl unknown ↦
      let warned = record c { log = record { level = "warn" } } in
      compile_origin_regexes-IsSettled compile _ d (rw unknown at h)
        (unfold fixup_rest leveled in fixup_rest-IsSettled warned warn-IsLeveled)
  | inr known ↦
      compile_origin_regexes-IsSettled compile _ d (rw known at h)
        (unfold fixup_rest leveled in fixup_rest-IsSettled c known)
]
