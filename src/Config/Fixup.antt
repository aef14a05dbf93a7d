-- ===== src/Config/Fixup.antt =====
-- config/config.go: the fixups that follow the reading of the file and of the environment, and the
-- compilation of the CORS patterns.
pub mod Laws
mod Tests
pub mod Regexes
use configcat_proxy.Base.{
  ◌==◌, if◌then◌else◌, ℤ, pos, Result, ok, String, Bool, true, false, not, Option, none, some, List,
  [], ◌∷◌, ◌++◌, string_eq, int_eq, ◌>>=◌,
}
use configcat_proxy.Base.Dict.{Dict}
use configcat_proxy.Config.Types.{
  Float64, v1_2, other_float, Regexp, LogConfig, SdkConfig, TlsConfig, CorsConfig,
  GlobalOfflineConfig, Config,
}

-- log.Level; `no_level` is log.None.
pub data Level : Type 0 where
  debug info warn error no_level : Level

pub get_level : LogConfig → Level
get_level l =
    if l.level == "debug"
    then debug
    else if l.level == "info"
    then info
    else if l.level == "warn"
    then warn
    else if l.level == "error"
    then error
    else no_level

abbrev pub is_none : Level → Bool
is_none no_level = true
is_none _ = false

abbrev pub default_webhook_signature_valid_for : ℤ
default_webhook_signature_valid_for = pos 300

abbrev pub default_sdk_poll_interval : ℤ
default_sdk_poll_interval = pos 60

abbrev pub default_cache_poll_interval : ℤ
default_cache_poll_interval = pos 5

abbrev pub default_auto_sdk_poll_interval : ℤ
default_auto_sdk_poll_interval = pos 300

-- `if x == 0 { x = d }`.
abbrev pub or_default : ℤ → ℤ → ℤ
or_default x d = if x == pos 0 then d else x

-- A loop over the values of the SDK map that skips nil.
pub map_sdks :
    (SdkConfig → SdkConfig) → Dict String (Option SdkConfig) → Dict String (Option SdkConfig)
map_sdks f [] = []
map_sdks f ((id, none) ∷ sdks) = (id, none) ∷ map_sdks f sdks
map_sdks f ((id, some sdk) ∷ sdks) = (id, some (f sdk)) ∷ map_sdks f sdks

pub fixup_sdk_defaults : SdkConfig → SdkConfig
fixup_sdk_defaults sdk = record sdk {
  webhook_signature_valid_for =
      or_default sdk.webhook_signature_valid_for default_webhook_signature_valid_for;
  poll_interval = or_default sdk.poll_interval default_sdk_poll_interval;
  offline = record sdk.offline {
    local = record sdk.offline.local {
      poll_interval = or_default sdk.offline.local.poll_interval default_cache_poll_interval;
    };
    cache_poll_interval = or_default sdk.offline.cache_poll_interval default_cache_poll_interval;
  };
}

unfoldable pub fixup_defaults : Config → Config
unfolding map_sdks fixup_sdk_defaults
fixup_defaults c = record c {
  sdks = map_sdks fixup_sdk_defaults c.sdks;
  global_offline_config = record c.global_offline_config {
    cache_poll_interval =
        or_default c.global_offline_config.cache_poll_interval default_cache_poll_interval;
  };
  profile = record c.profile {
    poll_interval = or_default c.profile.poll_interval default_auto_sdk_poll_interval;
    webhook_signature_valid_for =
        or_default c.profile.webhook_signature_valid_for default_webhook_signature_valid_for;
  };
}

pub fixup_sdk_offline : GlobalOfflineConfig → SdkConfig → SdkConfig
fixup_sdk_offline g sdk =
    if not sdk.offline.enabled
    then record sdk {
      offline = record sdk.offline {
        enabled = true;
        use_cache = true;
        cache_poll_interval = g.cache_poll_interval;
        log = g.log;
      };
    }
    else sdk

unfoldable pub fixup_offline : Config → Config
unfolding map_sdks fixup_sdk_offline
fixup_offline c =
    if not c.global_offline_config.enabled
    then c
    else record c { sdks = map_sdks (fixup_sdk_offline c.global_offline_config) c.sdks }

-- `if l.GetLevel() == log.None { l.Level = defLevel }`.
pub fixup_log : String → LogConfig → LogConfig
unfolding get_level
fixup_log def_level l = if is_none (get_level l) then record { level = def_level } else l

pub fixup_sdk_log : String → SdkConfig → SdkConfig
unfolding fixup_log
fixup_sdk_log def_level sdk = record sdk {
  log = fixup_log def_level sdk.log;
  offline = record sdk.offline { log = fixup_log def_level sdk.offline.log };
}

unfoldable pub fixup_log_levels : String → Config → Config
unfolding fixup_log fixup_sdk_log map_sdks
fixup_log_levels def_level c = record c {
  profile = record c.profile {
    log = fixup_log def_level c.profile.log;
    sdks = record c.profile.sdks { log = fixup_log def_level c.profile.sdks.log };
  };
  sdks = map_sdks (fixup_sdk_log def_level) c.sdks;
  http = record c.http {
    log = fixup_log def_level c.http.log;
    sse = record c.http.sse { log = fixup_log def_level c.http.sse.log };
  };
  grpc = record c.grpc { log = fixup_log def_level c.grpc.log };
  global_offline_config = record c.global_offline_config {
    log = fixup_log def_level c.global_offline_config.log;
  };
}

-- Membership in `allowedTlsVersions`.
abbrev pub is_allowed_version : Float64 → Bool
is_allowed_version (other_float x) = false
is_allowed_version _ = true

pub fixup_tls : Float64 → TlsConfig → TlsConfig
fixup_tls def_version t =
    if not (is_allowed_version t.min_version) then record t { min_version = def_version } else t

unfoldable pub fixup_tls_min_versions : Float64 → Config → Config
unfolding fixup_tls
fixup_tls_min_versions def_version c = record c {
  tls = fixup_tls def_version c.tls;
  cache = record c.cache {
    redis = record c.cache.redis { tls = fixup_tls def_version c.cache.redis.tls };
    mongodb = record c.cache.mongodb { tls = fixup_tls def_version c.cache.mongodb.tls };
  };
}

-- `compile` is `regexp.Compile`, which fails with a message on a bad pattern.
module _ (compile : String → Result String Regexp) where
  compile_patterns : List Regexp → List String → Result String (List Regexp)
  compile_patterns regexes [] = ok regexes
  compile_patterns regexes (pattern ∷ patterns) = do
    reg ← compile pattern
    compile_patterns (regexes ++ reg ∷ []) patterns

  pub compile_regexes : CorsConfig → Result String CorsConfig
  unfolding compile_patterns
  compile_regexes c = if not c.enabled then ok c else do
    regexes ← compile_patterns c.allowed_origins_regex.regexes c.allowed_origins_regex.patterns
    ok (record c { allowed_origins_regex = record c.allowed_origins_regex { regexes = regexes } })

  unfoldable pub compile_origin_regexes : Config → Result String Config
  unfolding compile_regexes
  compile_origin_regexes c = do
    api ← compile_regexes c.http.api.cors
    cdn_proxy ← compile_regexes c.http.cdn_proxy.cors
    sse ← compile_regexes c.http.sse.cors
    ok (record c {
      http = record c.http {
        api = record c.http.api { cors = api };
        cdn_proxy = record c.http.cdn_proxy { cors = cdn_proxy };
        sse = record c.http.sse { cors = sse };
      };
    })

  -- The end of `LoadConfigFromFileAndEnvironment`, after `loadEnv`.
  unfoldable pub fixup : Config → Result String Config
  unfolding get_level
  fixup config =
      let leveled =
        if is_none (get_level config.log)
        then record config { log = record { level = "warn" } }
        else config in
      compile_origin_regexes (
        fixup_offline (
          fixup_tls_min_versions v1_2
            (fixup_defaults (fixup_log_levels leveled.log.level leveled))))
