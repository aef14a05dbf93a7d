-- ===== src/Config/Env/Laws.antt =====
-- What the environment does to a configuration, config/env.go.
use configcat_proxy.Config.Env.Sdk.{HasOptions}
use configcat_proxy.Base.{ok, String, ◌<>◌, ◌≡◌, refl, Option, none, some, string_eq}
use configcat_proxy.Config.Types.{SdkConfig, Config}
use configcat_proxy.Config.Env.{load_sdks, load_env}
use configcat_proxy.Config.Env.Structs.{Converters}
use configcat_proxy.Config.Env.Structs.Unset.{
  read_env-unset, load_log-unset, load_tls-unset, load_global_offline-unset, load_http_proxy-unset,
  load_profile-unset,
}
use configcat_proxy.Config.Env.Servers.Unset.{
  load_grpc-unset, load_cache-unset, load_diag-unset, load_http-unset,
}
use configcat_proxy.Base.Dict.{Dict}

-- Where no environment variable is set, `loadEnv` gives every configuration back as it was.
pub load_env-unset :
    (getenv : String → String) (conv : Converters) (env_name : String → String) (c : Config)
    → ((name : String) → getenv name ≡ "")
    → load_env getenv conv env_name c ≡ ok c
unfolding load_env load_sdks
load_env-unset getenv conv env_name c unset =
    simp
      (
        read_env-unset {0} getenv unset,
        load_profile-unset getenv conv unset,
        load_http-unset getenv conv unset,
        load_grpc-unset getenv conv unset,
        load_http_proxy-unset getenv conv unset,
        load_log-unset getenv conv unset,
        load_tls-unset getenv conv unset,
        load_diag-unset getenv conv unset,
        load_cache-unset getenv conv unset,
        load_global_offline-unset getenv conv unset,
      )
      refl

module _ (getenv : String → String) (conv : Converters) (env_name : String → String) where
  -- What the loop leaves for an identifier: the SDK that was there, or one with the listed key and
  -- what the variables `CONFIGCAT_ID_...` hold.
  abbrev pub IsLoaded :
      String → Option String → Option (Option SdkConfig) → Option (Option SdkConfig) → Type 0
  IsLoaded sdk_id none old new = new ≡ old
  IsLoaded sdk_id (some key) old new =
      (conf : SdkConfig) × (new ≡ some (some conf))
      × HasOptions getenv conv ("CONFIGCAT" <> ("_" <> env_name sdk_id)) key conf
