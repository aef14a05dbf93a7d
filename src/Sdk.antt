-- ===== src/Sdk.antt =====
-- sdk/sdk.go and sdk/sdk_registrar.go: the interfaces that the handlers use. A client is what its
-- methods return at the time of a request; a lookup gives `none` for nil.
pub mod Store
pub mod File
pub mod Clients
pub mod Laws
mod Tests
use configcat_proxy.Base.{ℤ, String, Bool, Option, List, [], ◌∷◌, string_eq}
use configcat_proxy.Base.Dict.{Dict, lookup, insert}
use configcat_proxy.Config.Types.{SdkConfig}
use configcat_proxy.Model.{UserAttrs, EvalData}
use configcat_proxy.Sdk.Store.{EntryWithEtag}

pub record Client : Type 0 where
  pub eval : String → UserAttrs → EvalData
  pub eval_all : UserAttrs → Dict String EvalData
  pub keys : List String
  pub has_key : String → Bool
  pub get_cached_json : EntryWithEtag
  -- What `Refresh` returns: none for a nil error.
  pub refresh : Option String
  pub webhook_signing_key : String
  pub webhook_signature_valid_for : ℤ
  pub is_in_valid_state : Bool

pub record Registrar : Type 0 where
  pub get_sdk_or_nil : String → Option Client
  pub get_sdk_by_key_or_nil : String → Option Client

-- `manualRegistrar`; `make` is `NewClient` with the settings that all clients share.
pub record ManualRegistrar {ℓ} (C : Type ℓ) : Type ℓ where
  pub sdk_clients : Dict String C
  pub sdk_clients_by_sdk_key : Dict String C

module _ {ℓ} {C : Type ℓ} (make : String → SdkConfig → C) where
  -- The loop of `newManualRegistrar`.
  add_clients : Dict String SdkConfig → ManualRegistrar C → ManualRegistrar C
  add_clients [] r = r
  add_clients ((key, sdk_conf) ∷ sdks) r =
      let sdk_client = make key sdk_conf in
      add_clients sdks (record {
        sdk_clients = insert key sdk_client r.sdk_clients;
        sdk_clients_by_sdk_key = insert sdk_conf.key sdk_client r.sdk_clients_by_sdk_key;
      })

  pub new_manual_registrar : Dict String SdkConfig → ManualRegistrar C
  unfolding add_clients
  new_manual_registrar sdks =
      add_clients sdks (record { sdk_clients = []; sdk_clients_by_sdk_key = [] })

module _ {ℓ} {C : Type ℓ} (r : ManualRegistrar C) where
  pub manual_get_sdk_or_nil : String → Option C
  manual_get_sdk_or_nil id = lookup id r.sdk_clients

  pub manual_get_sdk_by_key_or_nil : String → Option C
  manual_get_sdk_by_key_or_nil sdk_key = lookup sdk_key r.sdk_clients_by_sdk_key
