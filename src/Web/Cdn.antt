-- ===== src/Web/Cdn.antt =====
-- web/cdnproxy/cdnproxy.go: the configuration JSON for other SDKs. The prefix and suffix functions
-- of `strings` are parameters.
pub mod Laws
mod Tests
use configcat_proxy.Base.{
  ◌==◌, if◌then◌else◌, Result, ok, err, String, Bool, not, ◌||◌, List, [], ◌∷◌, string_eq,
}
use configcat_proxy.Sdk.{Client, Registrar}
use configcat_proxy.Web.{Request, Call, set_header, write_header, write, error}
use configcat_proxy.Web.Lookup.{Failure, check_client}

-- `strings.HasPrefix`, `TrimPrefix` and `TrimSuffix`, the text first.
pub record Strings : Type 0 where
  pub has_prefix : String → String → Bool
  pub trim_prefix : String → String → String
  pub trim_suffix : String → String → String

abbrev id_prefix : String
id_prefix = "configcat-proxy/"

abbrev json_suffix : String
json_suffix = "/config_v6.json"

module _ (strings : Strings) (registrar : Registrar) where
  -- `getSDKClient`.
  pub cdn_sdk_client : Request → Result Failure Client
  cdn_sdk_client r =
      let path = r.path_value "path" in
      if strings.has_prefix path id_prefix
      then check_client 404 (
          registrar.get_sdk_or_nil
            (strings.trim_suffix (strings.trim_prefix path id_prefix) json_suffix))
      else check_client 404 (registrar.get_sdk_by_key_or_nil (strings.trim_suffix path json_suffix))

  -- The ETag that the request names: of the header, or else of the query.
  pub requested_etag : Request → String
  requested_etag r =
      let etag = r.header "If-None-Match" in if etag == "" then r.query "ccetag" else etag

  pub serve_http : Request → List Call
  unfolding cdn_sdk_client requested_etag
  serve_http r = elim (cdn_sdk_client r) [
    | err (message, code) ↦ error message code ∷ []
    | ok sdk_client ↦
        let etag = requested_etag r in
        let c = sdk_client.get_cached_json in
        set_header "Cache-Control" "max-age=0, must-revalidate"
        ∷ (if etag == "" || not (c.e_tag == etag)
            then (set_header "ETag" c.e_tag
                ∷ set_header "Content-Type" "application/json"
                ∷ (write c.config_json ∷ []))
            else (set_header "ETag" c.e_tag ∷ write_header 304 ∷ []))
  ]
