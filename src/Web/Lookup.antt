-- ===== src/Web/Lookup.antt =====
-- The lookups of the handlers: by SDK id, or by SDK key where there is no id (web/api/api.go,
-- web/ofrep/ofrep.go, web/cdnproxy/cdnproxy.go).
pub mod Laws
use configcat_proxy.Base.{
  ◌==◌, if◌then◌else◌, Result, ok, err, ℕ, String, ◌<>◌, not, Option, none, some, string_eq,
}
use configcat_proxy.Sdk.{Client, Registrar}
use configcat_proxy.Web.{Request}

abbrev pub sdk_key_header : String
sdk_key_header = "X-ConfigCat-SdkKey"

abbrev pub sdk_id_header : String
sdk_id_header = "X-ConfigCat-SdkId"

-- An error with its status.
abbrev pub Failure : Type 0
Failure = String × ℕ

-- The end of each lookup; `missing` is the status for an unknown SDK.
unfoldable pub check_client : ℕ → Option Client → Result Failure Client
check_client missing none = err ("could not identify a configured SDK", missing)
check_client missing (some sdk_client) =
    if not sdk_client.is_in_valid_state
    then err ("requested SDK is in an invalid state; please check the logs for more details", 500)
    else ok sdk_client

module _ (registrar : Registrar) where
  -- `getSDKClient` of the API.
  unfoldable pub api_sdk_client : Request → Result Failure Client
  unfolding check_client
  api_sdk_client r =
      let sdk_id = r.path_value "sdkId" in
      let sdk_key = r.header sdk_key_header in
      if sdk_id == ""
      then if sdk_key == ""
        then err (
          "either the 'sdkId' path variable or '" <> (sdk_key_header <> "' header must be set"),
          400,
        )
        else check_client 404 (registrar.get_sdk_by_key_or_nil sdk_key)
      else check_client 404 (registrar.get_sdk_or_nil sdk_id)

  -- `getSDKClient` of OFREP.
  unfoldable pub ofrep_sdk_client : Request → Result Failure Client
  unfolding check_client
  ofrep_sdk_client r =
      let sdk_id = r.header sdk_id_header in
      let sdk_key = r.header sdk_key_header in
      if sdk_id == ""
      then if sdk_key == ""
        then err (
          "either the '"
              <> (sdk_id_header <> ("' or '" <> (sdk_key_header <> "' header must be set"))),
          400,
        )
        else check_client 400 (registrar.get_sdk_by_key_or_nil sdk_key)
      else check_client 400 (registrar.get_sdk_or_nil sdk_id)
