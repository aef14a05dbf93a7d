-- ===== src/Config/Load/Tests.antt =====
-- The load of one file under an environment that lists an SDK.
use configcat_proxy.Base.{◌==◌, if◌then◌else◌, Result, ok, err, String, refl, true, List, string_eq}
use configcat_proxy.Config.Types.{Regexp, Config}
use configcat_proxy.Config.Defaults.{default_config}
use configcat_proxy.Config.Fixup.{
  fixup_defaults, fixup_offline, fixup_log_levels, fixup_tls_min_versions, compile_origin_regexes,
  fixup,
}
use configcat_proxy.Config.Env.{load_sdks, load_env}
use configcat_proxy.Config.Env.Structs.{
  concat_prefix, read_env, read_env_string, load_log, load_tls, load_origin_regex, load_cors,
  load_auth, load_status, load_otlp, load_prometheus, load_local, load_offline, load_global_offline,
  load_http_proxy, load_sdk, load_profile_sdk, load_profile,
}
use configcat_proxy.Config.Env.Servers.{
  load_keep_alive, load_grpc, load_redis, load_mongodb, load_dynamodb, load_cache, load_metrics,
  load_traces, load_diag, load_sse, load_api, load_ofrep, load_cdn_proxy, load_webhook, load_http,
}
use configcat_proxy.Config.Tests.{one_sdk, converters, upper}
use configcat_proxy.Config.Load.{Files, LoadError, read_yaml, load_default, load_file, load_config}
use configcat_proxy.Config.Load.Laws.{IsLoadedFrom, load_config-IsLoadedFrom}
use configcat_proxy.Base.Dict.{insert}

-- A link `a.yml` to `b.yml`, whose content makes the proxy offline.
abbrev linked : Files
linked = record {
  exists = λ path. path == "a.yml";
  eval_symlinks = λ path. if path == "a.yml" then ok "b.yml" else err "no such file";
  read_file = λ path. if path == "b.yml" then ok "offline" else err "no such file";
  unmarshal = λ text c.
      if text == "offline"
      then ok
          (record c { global_offline_config = record c.global_offline_config { enabled = true } })
      else err "no YAML";
}

abbrev keep_pattern : String → Result String Regexp
keep_pattern pattern = ok (record { pattern = pattern })

abbrev last_part : List String → String
last_part parts = "options.yml"

abbrev result_of : Result LoadError Config → Config
result_of (ok c) = c
result_of (err e) = default_config

load_config-IsLoadedFrom_example :
    IsLoadedFrom linked one_sdk converters upper keep_pattern last_part "linux" "a.yml" (
      result_of
        (load_config linked one_sdk converters upper keep_pattern last_part "linux" "a.yml"))
unfolding load_config load_file load_default read_yaml insert load_env load_sdks load_sdk
    load_profile load_http load_grpc load_http_proxy load_log load_tls load_diag load_cache
    load_global_offline read_env read_env_string concat_prefix load_origin_regex load_cors load_auth
    load_status load_otlp load_prometheus load_local load_offline load_profile_sdk load_keep_alive
    load_redis load_mongodb load_dynamodb load_metrics load_traces load_sse load_api load_ofrep
    load_cdn_proxy load_webhook default_config fixup fixup_log_levels fixup_defaults
    fixup_tls_min_versions fixup_offline compile_origin_regexes
load_config-IsLoadedFrom_example =
    load_config-IsLoadedFrom linked one_sdk converters upper keep_pattern last_part "linux" "a.yml"
      (result_of
        (load_config linked one_sdk converters upper keep_pattern last_part "linux" "a.yml"))
      refl
