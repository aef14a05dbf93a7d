-- ===== src/Web/Router/Tests.antt =====
-- The theorems on the router at a small configuration.
use configcat_proxy.Base.{true, false, [], ◌∷◌, string_eq}
use configcat_proxy.Config.Types.{CorsConfig, OfrepConfig, ApiConfig}
use configcat_proxy.Web.{Request, write}
use configcat_proxy.Web.Examples.{request_of}
use configcat_proxy.Web.Router.{api_route, ofrep_route}
use configcat_proxy.Web.Router.Laws.{IsGuarded, api_route-IsGuarded}

abbrev some_cors : CorsConfig
some_cors = record {
  enabled = true;
  allowed_origins = "https://example.com" ∷ [];
  allowed_origins_regex = record { if_no_match = ""; patterns = []; regexes = [] };
}

abbrev some_api : ApiConfig
some_api = record {
  enabled = true;
  auth_headers = ("X-API-Key", "k") ∷ [];
  headers = ("X-Served-By", "proxy") ∷ [];
  cors = some_cors;
}

abbrev some_ofrep : OfrepConfig
some_ofrep = record { enabled = false; auth_headers = []; headers = []; cors = some_cors }

abbrev posted : Request
posted = request_of "POST" (λ name. "")

api_route-IsGuarded_example :
    IsGuarded posted some_api.auth_headers
      (write "{}" ∷ [])
      (api_route (λ regex origin. false) some_api "POST" posted (write "{}" ∷ []) []).1
    × IsGuarded posted some_ofrep.auth_headers
        (write "{}" ∷ [])
        (ofrep_route (λ regex origin. false) some_ofrep "POST" posted (write "{}" ∷ []) []).1
api_route-IsGuarded_example =
    api_route-IsGuarded (λ regex origin. false) some_api some_ofrep "POST" posted (write "{}" ∷ [])
      []
