-- ===== src/Registrar/Start/Tests.antt =====
-- A registrar that starts with two SDKs, and two rounds after it: one without an answer, and one
-- with a new profile.
use configcat_proxy.Base.{
  ◌==◌, if◌then◌else◌, Result, ok, String, ◌≡◌, refl, false, Option, none, some, List, [], ◌∷◌,
  string_eq, nat_eq,
}
use configcat_proxy.Base.Dict.{lookup, IsMap}
use configcat_proxy.Model.{ProxyConfigModel}
use configcat_proxy.Registrar.{RegistrarConf, AutoRegistrar}
use configcat_proxy.Registrar.Profile.{
  Bytes, read_cache, Response, transport_error, response, strong_etag, fetch_config, bytes_beq,
  parse_config, get_config,
}
use configcat_proxy.Registrar.Tests.{some_options, one_sdk, model_a, model_b}
use configcat_proxy.Registrar.Start.{
  start_clients, without_clients, initial_etag, running, new_auto_registrar,
}

abbrev pub first_profile : ProxyConfigModel
first_profile = record { sdks = ("a", model_a) ∷ ("b", model_b) ∷ []; options = some_options }

abbrev second_profile : ProxyConfigModel
second_profile = record { sdks = ("b", model_a) ∷ []; options = some_options }

-- The body 1 is the first profile, any other the second.
abbrev pub some_decode : Bytes → Result String ProxyConfigModel
some_decode (b ∷ []) = if b == 1 then ok first_profile else ok second_profile
some_decode _ = ok second_profile

abbrev pub first_answer : Response
first_answer = response 200 (65 ∷ []) (some (1 ∷ []))

abbrev pub some_rounds : List (Option (Result String Bytes) × Response)
some_rounds = (none, transport_error) ∷ (none, response 200 (66 ∷ []) (some (2 ∷ []))) ∷ []

abbrev pub some_conf : RegistrarConf
some_conf = one_sdk.conf

pub first_here :
    (get_config some_decode false initial_etag none first_answer).profile ≡ ok (some first_profile)
unfolding get_config parse_config fetch_config strong_etag read_cache bytes_beq
first_here = refl

pub distinct_ids : IsMap first_profile.sdks
unfolding lookup
distinct_ids = (refl, (refl, tt))

abbrev pub started_registrar : AutoRegistrar
started_registrar = start_clients first_profile.sdks (without_clients some_conf some_options)

pub started_here :
    new_auto_registrar some_decode false some_conf none first_answer
    ≡ running started_registrar (65 ∷ [])
unfolding new_auto_registrar get_config parse_config fetch_config strong_etag read_cache bytes_beq
started_here = refl
