-- ===== src/Web/Router/Laws.antt =====
-- Which requests reach the handlers behind the router.
use configcat_proxy.Base.{
  ◌==◌, if◌then◌else◌, Bool-cases, All, String, ◌≡◌, refl, sym, ◌∙◌, ◌≢◌, ◌↔◌, ◌⊎◌, inl, inr, Bool,
  true, false, not, List, [], ◌∷◌, ◌++◌, arith, eq_iff, string_eq,
}
use configcat_proxy.Base.Dict.{Dict}
use configcat_proxy.Config.Types.{Regexp, OfrepConfig, ApiConfig, HttpConfig}
use configcat_proxy.Mware.Auth.{Reply, unauthorized, no_content, passed, header_auth, auto_options}
use configcat_proxy.Mware.Auth.Laws.{header_auth_lem}
use configcat_proxy.Web.{Request, Call}
use configcat_proxy.Web.Router.{
  Handler, single_flag, all_flags, webhook, webhook_test, cdn_proxy, status, ofrep_eval,
  ofrep_eval_all, sse_endpoints, api_endpoints, ofrep_endpoints, register, Settings, is_empty_dict,
  keys_of_map, secured, api_settings, ofrep_settings, api_route, ofrep_route, Route, webhook_routes,
  cdn_routes, status_routes, when, new_router,
}

-- The request has every header that is configured, with its value.
abbrev pub HasHeaders : Request → Dict String String → Type 0
HasHeaders r auth_headers = All (λ entry. r.header entry.0 ≡ entry.1) auth_headers

-- The reply of a guarded handler: an OPTIONS request is answered without it and without the check,
-- and any other request reaches it exactly with the configured headers, being refused without them.
abbrev pub IsGuarded : Request → Dict String String → List Call → Reply (List Call) → Type 0
IsGuarded r auth_headers calls reply =
    ((reply ≡ no_content) ↔ (r.method ≡ "OPTIONS"))
    × ((reply ≡ passed calls) ↔ ((r.method ≢ "OPTIONS") × HasHeaders r auth_headers))
    × ((reply ≡ no_content) ⊎ (reply ≡ passed calls) ⊎ (reply ≡ unauthorized))

-- Without configured headers the check is skipped, which changes nothing.
guard-header_auth :
    (r : Request) (auth_headers : Dict String String) (calls : List Call)
    → (if not (is_empty_dict auth_headers)
        then header_auth r.header auth_headers (passed calls)
        else passed calls)
      ≡ header_auth r.header auth_headers (passed calls)
guard-header_auth r [] calls = sym ((header_auth_lem r.header [] calls).0.1 tt)
guard-header_auth r (entry ∷ auth_headers) calls = refl

IsGuarded-auto_options :
    (r : Request) (auth_headers : Dict String String) (calls : List Call)
    → IsGuarded r auth_headers calls
        (auto_options r.method (header_auth r.header auth_headers (passed calls)))
unfolding auto_options
IsGuarded-auto_options r auth_headers calls =
    let (passes, refuses) = header_auth_lem r.header auth_headers calls in
    elim (Bool-cases (r.method == "OPTIONS")) [
      | inl options ↦ (
        (λ h. (eq_iff r.method "OPTIONS").0 options, λ h. ground (arith, options)),
        (
          λ h. absurd (ground (arith, h, options)),
          λ (other, has). absurd (other ((eq_iff r.method "OPTIONS").0 options)),
        ),
        inl (ground (arith, options)),
      )
      | inr other ↦
          let same : auto_options r.method (header_auth r.header auth_headers (passed calls))
              ≡ header_auth r.header auth_headers (passed calls) =
            ground (arith, other) in
          let not_options : r.method ≢ "OPTIONS" =
            λ e. ground (arith, other, (eq_iff r.method "OPTIONS").1 e) in
          (
            (λ h. absurd (ground (arith, sym same ∙ h, refuses)), λ h. absurd (not_options h)),
            (λ h. (not_options, passes.0 (sym same ∙ h)), λ (o, has). same ∙ passes.1 has),
            inr (elim refuses [ inl e ↦ inl (same ∙ e) | inr e ↦ inr (same ∙ e) ]),
          )
    ]

secured-IsGuarded :
    (matches : Regexp → String → Bool) (conf : Settings) (request_headers : List String)
    (endpoint_method : String) (r : Request) (calls : List Call) (w : Dict String String)
    → IsGuarded r conf.auth_headers calls
        (secured matches conf request_headers endpoint_method r calls w).1
unfolding secured
secured-IsGuarded matches conf request_headers endpoint_method r calls w =
    rw (guard-header_auth r conf.auth_headers calls)
      (IsGuarded-auto_options r conf.auth_headers calls)

-- On every path of the API and of OFREP, whatever CORS and the other settings are: an OPTIONS
-- request is answered 204 without authentication, any other request reaches its handler exactly if
-- it has each configured authentication header with its value, and is answered 401 otherwise.
pub api_route-IsGuarded :
    (matches : Regexp → String → Bool) (api : ApiConfig) (ofrep : OfrepConfig)
    (endpoint_method : String) (r : Request) (calls : List Call) (w : Dict String String)
    → IsGuarded r api.auth_headers calls (api_route matches api endpoint_method r calls w).1
      × IsGuarded r ofrep.auth_headers calls (ofrep_route matches ofrep endpoint_method r calls w).1
unfolding api_route ofrep_route
api_route-IsGuarded matches api ofrep endpoint_method r calls w = (
  secured-IsGuarded matches (api_settings api) (keys_of_map api.auth_headers) endpoint_method r
      calls w,
  secured-IsGuarded matches (ofrep_settings ofrep)
      (keys_of_map ofrep.auth_headers ++ "X-ConfigCat-SdkId" ∷ []) endpoint_method r calls w,
)

-- The groups of settings that a handler belongs to.
abbrev pub is_enabled : HttpConfig → Handler → Bool
is_enabled conf single_flag = conf.sse.enabled
is_enabled conf all_flags = conf.sse.enabled
is_enabled conf webhook = conf.webhook.enabled
is_enabled conf webhook_test = conf.webhook.enabled
is_enabled conf cdn_proxy = conf.cdn_proxy.enabled
is_enabled conf status = conf.status.enabled
is_enabled conf ofrep_eval = conf.ofrep.enabled
is_enabled conf ofrep_eval_all = conf.ofrep.enabled
is_enabled conf _ = conf.api.enabled

abbrev IsOpen : HttpConfig → Route → Type 0
IsOpen conf route = is_enabled conf route.1 ≡ true

All-append :
    (conf : HttpConfig) (xs ys : List Route)
    → All (IsOpen conf) xs
    → All (IsOpen conf) ys
    → All (IsOpen conf) (xs ++ ys)
All-append conf [] ys hs ks = ks
All-append conf (x ∷ xs) ys (h, hs) ks = (h, All-append conf xs ys hs ks)

All-when :
    (conf : HttpConfig) (b : Bool) (routes : List Route)
    → (b ≡ true → All (IsOpen conf) routes)
    → All (IsOpen conf) (when b routes)
All-when conf true routes h = h refl
All-when conf false routes h = tt

-- The router has no route to a handler of a group that is not enabled.
pub new_router-IsOpen :
    (conf : HttpConfig) → All (λ route. is_enabled conf route.1 ≡ true) (new_router conf)
unfolding new_router register sse_endpoints webhook_routes cdn_routes api_endpoints ofrep_endpoints
    status_routes
new_router-IsOpen conf =
    All-append conf (when conf.sse.enabled (register sse_endpoints)) _
      (All-when conf conf.sse.enabled _ (λ h. (h, (h, (h, (h, (h, (h, (h, (h, (h, (h, tt))))))))))))
      (All-append conf (when conf.webhook.enabled webhook_routes) _
        (All-when conf conf.webhook.enabled _ (λ h. (h, (h, (h, (h, tt))))))
        (All-append conf (when conf.cdn_proxy.enabled cdn_routes) _
          (All-when conf conf.cdn_proxy.enabled _ (λ h. (h, (h, tt))))
          (All-append conf (when conf.api.enabled (register api_endpoints)) _
            (All-when conf conf.api.enabled _ (λ h. (
              h,
              (
                h,
                (h, (h, (h, (h, (h, (h, (h, (h, (h, (h, (h, (h, (h, (h, (h, (h, tt)))))))))))))))),
              ),
            )))
            (All-append conf (when conf.ofrep.enabled (register ofrep_endpoints)) _
              (All-when conf conf.ofrep.enabled _ (λ h. (h, (h, (h, (h, tt))))))
              (All-when conf conf.status.enabled status_routes (λ h. (h, (h, tt))))))))
