-- ===== src/Config/Tests.antt =====
-- The theorems on the validation at one SDK, and on the environment at one that lists an SDK.
use configcat_proxy.Base.{
  ◌==◌, if◌then◌else◌, pos, ok, err, String, ◌≡◌, ◌↔◌, false, some, [], ◌∷◌, string_eq,
}
use configcat_proxy.Config.Types.{SdkConfig, Config}
use configcat_proxy.Config.Defaults.{default_config}
use configcat_proxy.Config.Validate.{validate}
use configcat_proxy.Config.Validate.Laws.{IsValid, validate_iff}
use configcat_proxy.Config.Env.{keyed_sdk}
use configcat_proxy.Config.Env.Structs.{Converters}

abbrev with_sdk : Config
with_sdk = record default_config { sdks = ("a", some (keyed_sdk "key-a")) ∷ [] }

-- An environment that lists `b` and sets its poll interval.
abbrev pub one_sdk : String → String
one_sdk name =
    if name == "CONFIGCAT_SDKS"
    then "{\"b\":\"key-b\"}"
    else if name == "CONFIGCAT_B_POLL_INTERVAL"
    then "60"
    else ""

abbrev pub converters : Converters
converters = record {
  to_int = λ s. ok (pos 60);
  to_bool = λ s. err "";
  to_float = λ s. err "";
  to_string_slice = λ s. err "";
  to_cert_config_slice = λ s. err "";
  to_string_map = λ s. ok (("b", "key-b") ∷ []);
  to_user_attrs = λ s. err "";
}

abbrev pub upper : String → String
upper id = if id == "b" then "B" else id

abbrev polled : SdkConfig
polled = record (keyed_sdk "key-b") { poll_interval = pos 60 }

validate_iff_example :
    (validate (λ path. false) with_sdk ≡ ok tt) ↔ IsValid (λ path. false) with_sdk
validate_iff_example = validate_iff (λ path. false) with_sdk
