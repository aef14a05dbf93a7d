-- ===== src/Registrar/Start.antt =====
-- newAutoRegistrar of sdk/sdk_auto_registrar.go, and its polling: from the first profile on, each
-- round fetches the profile and refreshes the clients. A round gets what the cache and the HTTP
-- client answer.
pub mod Laws
pub mod Tests
use configcat_proxy.Base.{
  Result, ok, err, String, Bool, Option, none, some, List, [], ◌∷◌, string_eq, nat_eq,
}
use configcat_proxy.Base.Dict.{Dict, insert}
use configcat_proxy.Model.{SdkConfigModel, OptionsModel, ProxyConfigModel}
use configcat_proxy.Registrar.{
  register_sdk, RegistrarConf, AutoRegistrar, build_sdk_config, build_sdk_client, put_keys,
}
use configcat_proxy.Registrar.Profile.{Bytes, ProfileError, Response, get_config}
use configcat_proxy.Registrar.Refresh.{refresh_config}

-- One round of the loop at the start.
pub start_client : String → SdkConfigModel → AutoRegistrar → AutoRegistrar
unfolding build_sdk_client put_keys
start_client sdk_id sdk_model r =
    let sdk_config = build_sdk_config r sdk_id sdk_model in
    let built = build_sdk_client sdk_id sdk_config sdk_model r in
    record built {
      sdk_clients = insert sdk_id r.next built.sdk_clients;
      by_sdk_key = put_keys sdk_model r.next built.by_sdk_key;
      reported = register_sdk sdk_id sdk_config ∷ built.reported;
    }

pub start_clients : Dict String SdkConfigModel → AutoRegistrar → AutoRegistrar
unfolding start_client
start_clients [] r = r
start_clients ((sdk_id, sdk_model) ∷ sdks) r = start_clients sdks (start_client sdk_id sdk_model r)

abbrev pub without_clients : RegistrarConf → OptionsModel → AutoRegistrar
without_clients conf options = record {
  conf = conf;
  options = options;
  sdk_clients = [];
  by_sdk_key = [];
  heap = [];
  next = 0;
  published = [];
  reported = [];
}

-- The bytes of "initial".
abbrev pub initial_etag : Bytes
initial_etag = 105 ∷ 110 ∷ 105 ∷ 116 ∷ 105 ∷ 97 ∷ 108 ∷ []

-- A running registrar is its state and its ETag. Without a profile and without an error,
-- `autoConfig` is nil and its use panics.
pub data Started : Type 0 where
  running : AutoRegistrar → Bytes → Started
  not_started : ProfileError → Started
  nil_dereference : Started

module _ (decode : Bytes → Result String ProxyConfigModel) (offline : Bool) where
  pub new_auto_registrar : RegistrarConf → Option (Result String Bytes) → Response → Started
  unfolding start_clients
  new_auto_registrar conf cache answer =
      let outcome = get_config decode offline initial_etag cache answer in
      elim outcome.profile [
        | err e ↦ not_started e
        | ok none ↦ nil_dereference
        | ok (some auto_config) ↦
            running (start_clients auto_config.sdks (without_clients conf auto_config.options))
              outcome.etag
      ]

  -- `refreshConfig` with its call of `getConfig`: an error or no new profile changes no client.
  unfoldable pub poll_round :
      Option (Result String Bytes) × Response → AutoRegistrar × Bytes → AutoRegistrar × Bytes
  poll_round (cache, answer) (r, etag) =
      let outcome = get_config decode offline etag cache answer in
      let r' : AutoRegistrar = elim outcome.profile [
        | err e ↦ r
        | ok none ↦ r
        | ok (some auto_config) ↦ refresh_config auto_config r
      ] in
      (r', outcome.etag)

  -- Rounds of `run`.
  pub poll_rounds :
      List (Option (Result String Bytes) × Response) → AutoRegistrar × Bytes → AutoRegistrar × Bytes
  unfolding poll_round
  poll_rounds [] s = s
  poll_rounds (round ∷ rounds) s = poll_rounds rounds (poll_round round s)
