-- ===== src/Web/Examples.antt =====
-- The client, the requests and the settings that the examples of the handlers share.
use configcat_proxy.Base.{
  ◌==◌, if◌then◌else◌, pos, ok, err, String, true, false, none, some, [], ◌∷◌, string_eq,
}
use configcat_proxy.Model.{int_value, EvalData}
use configcat_proxy.Sdk.{Client, Registrar}
use configcat_proxy.Sdk.Store.{EntryWithEtag}
use configcat_proxy.Web.{Request}
use configcat_proxy.Web.Api.{EvalRequest, Json}

abbrev pub evaluated : EvalData
evaluated = record {
  value = int_value (pos 7);
  variation_id = "v1";
  error = none;
  user = none;
  is_targeting = false;
}

abbrev pub some_entry : EntryWithEtag
some_entry = record { config_json = "{}"; e_tag = "e1"; fetch_time = pos 1; empty = false }

abbrev pub some_client : Client
some_client = record {
  eval = λ key user. evaluated;
  eval_all = λ user. ("flag", evaluated) ∷ [];
  keys = "flag" ∷ [];
  has_key = λ key. key == "flag";
  get_cached_json = some_entry;
  refresh = none;
  webhook_signing_key = "secret";
  webhook_signature_valid_for = pos 300;
  is_in_valid_state = true;
}

abbrev pub some_registrar : Registrar
some_registrar = record {
  get_sdk_or_nil = λ id. if id == "a" then some some_client else none;
  get_sdk_by_key_or_nil = λ key. none;
}

abbrev pub asked : EvalRequest
asked = record { sdk_key = ""; key = "flag"; user = none }

abbrev pub some_json : Json
some_json = record {
  unmarshal_request = λ s. if s == "{}" then ok asked else err "invalid character";
  marshal_payload = λ p. ok p.variation_id;
  marshal_payloads = λ ps. ok "{}";
  marshal_keys = λ ks. ok "[]";
}

-- A request to the SDK `a`.
abbrev pub request_of : String → (String → String) → Request
request_of method header = record {
  method = method;
  path_value = λ name.
      if name == "sdkId" then "a" else if name == "path" then "configcat-proxy/a" else "flag";
  header = header;
  query = λ name. "";
  body = ok "{}";
}
