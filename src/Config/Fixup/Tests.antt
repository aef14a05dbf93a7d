-- ===== src/Config/Fixup/Tests.antt =====
-- The theorem on the patterns at the default configuration.
use configcat_proxy.Base.{Result, ok, err, String, refl, string_eq, int_eq}
use configcat_proxy.Config.Types.{Regexp, Config}
use configcat_proxy.Config.Defaults.{default_config}
use configcat_proxy.Config.Fixup.{compile_origin_regexes}
use configcat_proxy.Config.Fixup.Regexes.{HasOriginRegexes, compile_origin_regexes-HasOriginRegexes}

abbrev keep_pattern : String → Result String Regexp
keep_pattern pattern = ok (record { pattern = pattern })

abbrev or_default : Result String Config → Config
or_default (ok c) = c
or_default (err e) = default_config

compile_origin_regexes-HasOriginRegexes_example :
    HasOriginRegexes keep_pattern default_config
      (or_default (compile_origin_regexes keep_pattern default_config))
unfolding compile_origin_regexes default_config
compile_origin_regexes-HasOriginRegexes_example =
    compile_origin_regexes-HasOriginRegexes keep_pattern default_config
      (or_default (compile_origin_regexes keep_pattern default_config)) refl
