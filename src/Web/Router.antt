-- ===== src/Web/Router.antt =====
-- web/router.go: how the endpoints are wrapped. `AutoOptions`, `HeaderAuth`, `BasicAuth`,
-- `ExtraHeaders` and `CORS` are those of web/mware; `GZip`, `DebugLog` and `InstrumentHttp` pass
-- the request on and are left out, as is the matching of patterns by `http.ServeMux`. A response is
-- the headers with which the handler starts, and what the wrappers make of its answer.
pub mod Laws
mod Tests
use configcat_proxy.Base.{
  ◌==◌, if◌then◌else◌, String, ◌<>◌, Bool, true, false, not, ◌&&◌, Option, some, List, [], ◌∷◌,
  ◌++◌, string_eq,
}
use configcat_proxy.Base.Dict.{Dict, keys as names}
use configcat_proxy.Config.Types.{
  Regexp, CorsConfig, CdnProxyConfig, OfrepConfig, WebhookConfig, SseConfig, ApiConfig, HttpConfig,
}
use configcat_proxy.Mware.Auth.{Reply, passed, basic_auth, header_auth, auto_options, extra_headers}
use configcat_proxy.Web.{Request, Call}
use configcat_proxy.Mware.Cors.{cors}

-- The handlers of the endpoints.
pub data Handler : Type 0 where
  single_flag all_flags : Handler
  webhook webhook_test : Handler
  cdn_proxy status : Handler
  eval eval_all keys refresh_sdk icanhas_coffee : Handler
  ofrep_eval ofrep_eval_all : Handler

pub record Endpoint : Type 0 where
  pub method : String
  pub path : String
  pub handler : Handler

abbrev pub Response : Type 0
Response = Dict String String × Reply (List Call)

pub sse_endpoints : List Endpoint
sse_endpoints =
    record { path = "/sse/{sdkId}/eval/{data}"; handler = single_flag; method = "GET" }
    ∷ record { path = "/sse/{sdkId}/eval-all/{data}"; handler = all_flags; method = "GET" }
    ∷ record { path = "/sse/{sdkId}/eval-all"; handler = all_flags; method = "GET" }
    ∷ record { path = "/sse/eval/k/{data}"; handler = single_flag; method = "GET" }
    ∷ record { path = "/sse/eval-all/k/{data}"; handler = all_flags; method = "GET" }
    ∷ []

pub api_endpoints : List Endpoint
api_endpoints =
    record { path = "/api/{sdkId}/eval"; handler = eval; method = "POST" }
    ∷ record { path = "/api/{sdkId}/eval-all"; handler = eval_all; method = "POST" }
    ∷ record { path = "/api/{sdkId}/keys"; handler = keys; method = "GET" }
    ∷ record { path = "/api/{sdkId}/refresh"; handler = refresh_sdk; method = "POST" }
    ∷ record { path = "/api/eval"; handler = eval; method = "POST" }
    ∷ record { path = "/api/eval-all"; handler = eval_all; method = "POST" }
    ∷ record { path = "/api/keys"; handler = keys; method = "GET" }
    ∷ record { path = "/api/refresh"; handler = refresh_sdk; method = "POST" }
    ∷ record { path = "/api/icanhascoffee"; handler = icanhas_coffee; method = "GET" }
    ∷ []

pub ofrep_endpoints : List Endpoint
ofrep_endpoints =
    record { path = "/ofrep/v1/evaluate/flags/{key}"; handler = ofrep_eval; method = "POST" }
    ∷ record { path = "/ofrep/v1/evaluate/flags"; handler = ofrep_eval_all; method = "POST" }
    ∷ []

-- `addHttpMethod`.
pub add_http_method : String → String → String
add_http_method path method = method <> (" " <> path)

-- The two patterns that a loop of the router registers for an endpoint, and their handler.
pub register : List Endpoint → List (String × Handler)
unfolding add_http_method
register [] = []
register (endpoint ∷ endpoints) =
    (add_http_method endpoint.path endpoint.method, endpoint.handler)
    ∷ (add_http_method endpoint.path "OPTIONS", endpoint.handler)
    ∷ register endpoints

-- What the wrappers read of the settings of a group of endpoints.
pub record Settings : Type 0 where
  pub headers : Dict String String
  pub auth_headers : Dict String String
  pub cors_config : CorsConfig

abbrev pub is_empty_dict : Dict String String → Bool
is_empty_dict [] = true
is_empty_dict (entry ∷ m) = false

-- `utils.KeysOfMap`.
abbrev pub keys_of_map : Dict String String → List String
keys_of_map m = names m

-- The part of the two loops of the API and of OFREP that wraps a handler, from the inside out;
-- `calls` is what the handler does. `request_headers` are those that CORS allows besides its own.
pub secured :
    (Regexp → String → Bool)
    → Settings
    → List String
    → String
    → Request
    → List Call
    → Dict String String
    → Response
secured matches conf request_headers endpoint_method r calls w =
    let authed : Reply (List Call) =
      if not (is_empty_dict conf.auth_headers)
      then header_auth r.header conf.auth_headers (passed calls)
      else passed calls in
    let replied = auto_options r.method authed in
    let prepared : Dict String String =
      if conf.cors_config.enabled
      then cors matches (endpoint_method ∷ "OPTIONS" ∷ []) conf.cors_config.allowed_origins
          (keys_of_map conf.headers) request_headers (some conf.cors_config.allowed_origins_regex)
          r.method (r.header "Origin") w
      else w in
    (
      if not (is_empty_dict conf.headers) then extra_headers conf.headers prepared else prepared,
      replied,
    )

abbrev pub api_settings : ApiConfig → Settings
api_settings conf = record {
  headers = conf.headers;
  auth_headers = conf.auth_headers;
  cors_config = conf.cors;
}

abbrev pub ofrep_settings : OfrepConfig → Settings
ofrep_settings conf = record {
  headers = conf.headers;
  auth_headers = conf.auth_headers;
  cors_config = conf.cors;
}

pub api_route :
    (Regexp → String → Bool)
    → ApiConfig
    → String
    → Request
    → List Call
    → Dict String String
    → Response
unfolding secured
api_route matches conf endpoint_method r calls w =
    secured matches (api_settings conf) (keys_of_map conf.auth_headers) endpoint_method r calls w

pub ofrep_route :
    (Regexp → String → Bool)
    → OfrepConfig
    → String
    → Request
    → List Call
    → Dict String String
    → Response
unfolding secured
ofrep_route matches conf endpoint_method r calls w =
    secured matches (ofrep_settings conf)
      (keys_of_map conf.auth_headers ++ "X-ConfigCat-SdkId" ∷ []) endpoint_method r calls w

-- The wrapping of the SSE endpoints and of the CDN proxy: the same without authentication.
pub sse_route :
    (Regexp → String → Bool)
    → SseConfig
    → String
    → Request
    → List Call
    → Dict String String
    → Response
unfolding secured
sse_route matches conf endpoint_method r calls w =
    secured matches (record { headers = conf.headers; auth_headers = []; cors_config = conf.cors })
      [] endpoint_method r calls w

pub cdn_route :
    (Regexp → String → Bool) → CdnProxyConfig → Request → List Call → Dict String String → Response
unfolding secured
cdn_route matches conf r calls w =
    secured matches (record { headers = conf.headers; auth_headers = []; cors_config = conf.cors })
      [] "GET" r calls w

-- The handler of a webhook: both kinds of authentication apply where they are configured.
pub webhook_route :
    (String → String)
    → WebhookConfig
    → Option (String × String)
    → Request
    → List Call
    → Reply (List Call)
webhook_route hash conf credentials r calls =
    let basic : Reply (List Call) =
      if not (conf.auth.user == "") && not (conf.auth.password == "")
      then basic_auth hash conf.auth.user conf.auth.password credentials (passed calls)
      else passed calls in
    if not (is_empty_dict conf.auth_headers)
    then header_auth r.header conf.auth_headers basic
    else basic

abbrev pub Route : Type 0
Route = String × Handler

-- `setupWebhookRoutes`, `setupCDNProxyRoutes` and `setupStatusRoutes`.
pub webhook_routes : List Route
unfolding add_http_method
webhook_routes =
    (add_http_method "/hook/{sdkId}" "GET", webhook)
    ∷ (add_http_method "/hook/{sdkId}" "POST", webhook)
    ∷ (add_http_method "/hook-test" "GET", webhook_test)
    ∷ (add_http_method "/hook-test" "POST", webhook_test)
    ∷ []

pub cdn_routes : List Route
unfolding add_http_method
cdn_routes =
    (add_http_method "/configuration-files/{path...}" "GET", cdn_proxy)
    ∷ (add_http_method "/configuration-files/{path...}" "OPTIONS", cdn_proxy)
    ∷ []

pub status_routes : List Route
unfolding add_http_method
status_routes =
    (add_http_method "/status" "GET", status) ∷ (add_http_method "/status" "OPTIONS", status) ∷ []

abbrev pub when : Bool → List Route → List Route
when true routes = routes
when false routes = []

-- `NewRouter`.
pub new_router : HttpConfig → List Route
unfolding register sse_endpoints webhook_routes cdn_routes api_endpoints ofrep_endpoints
    status_routes
new_router conf =
    when conf.sse.enabled (register sse_endpoints)
    ++ (when conf.webhook.enabled webhook_routes
        ++ (when conf.cdn_proxy.enabled cdn_routes
            ++ (when conf.api.enabled (register api_endpoints)
                ++ (when conf.ofrep.enabled (register ofrep_endpoints)
                    ++ when conf.status.enabled status_routes))))
