-- ===== src/Mware/Cors/Laws.antt =====
-- Which origin web/mware/cors.go allows, and which headers it sets.
use configcat_proxy.Base.{
  ◌==◌, if◌then◌else◌, Bool-cases, contains, String, ◌≡◌, refl, inl, inr, Bool, not, ◌&&◌, ◌||◌,
  Option, none, some, List, [], ◌∷◌, ◌++◌, arith, string_eq,
}
use configcat_proxy.Utils.Laws.{contains-append, contains-dedup, IsDistinct, dedup-IsDistinct}
use configcat_proxy.Config.Types.{Regexp, OriginRegexConfig}
use configcat_proxy.Mware.Cors.{
  default_allowed_headers, default_exposed_headers, default_allowed_origin, join, is_nil,
  merged_headers, any_matches, after_origins, determine_origin, set_default_cors_headers,
  set_options_cors_headers, cors,
}
use configcat_proxy.Base.Dict.{Dict, lookup, lookup-insert}

-- The compiled expressions, none of a nil configuration.
abbrev regexes_of : Option OriginRegexConfig → List Regexp
regexes_of none = []
regexes_of (some conf) = conf.regexes

abbrev first_or : String → List String → String
first_or default_result [] = default_result
first_or default_result (first ∷ allowed) = first

-- What is sent in place of an origin that is not accepted.
abbrev pub fallback : List String → Option OriginRegexConfig → String
fallback allowed none = first_or default_allowed_origin allowed
fallback allowed (some conf) =
    if is_nil conf.regexes then first_or default_allowed_origin allowed else conf.if_no_match

module _ (matches : Regexp → String → Bool) where
  -- An origin is accepted that is listed, or matches an expression, or that is not empty where
  -- neither origins nor expressions are given.
  abbrev pub accepts : String → List String → Option OriginRegexConfig → Bool
  accepts origin allowed conf =
      contains allowed origin
      || (any_matches matches origin (regexes_of conf)
          || (is_nil allowed && (is_nil (regexes_of conf) && not (origin == ""))))

  -- `determineOrigin` gives the origin of the request where it is accepted: it is listed, it
  -- matches an expression, or it is not empty and neither origins nor expressions are given.
  -- Otherwise it gives `IfNoMatch` where there are expressions, else the first listed origin, else
  -- "*".
  pub determine_origin_lem :
      (origin : String) (allowed : List String) (conf : Option OriginRegexConfig)
      → determine_origin matches origin allowed conf
        ≡ (if accepts origin allowed conf then origin else fallback allowed conf)
  unfolding determine_origin after_origins any_matches contains
  determine_origin_lem origin [] none = ground arith
  determine_origin_lem origin [] (some conf) = ground arith
  determine_origin_lem origin (first ∷ allowed) none = ground arith
  determine_origin_lem origin (first ∷ allowed) (some conf) = ground arith

-- Besides the default headers, which all stay, those of the configuration are listed, and no other;
-- and none is listed twice.
pub merged_headers_lem :
    (defaults extra : List String) (h : String)
    → (contains (merged_headers defaults extra) h ≡ (contains defaults h || contains extra h))
      × (IsDistinct defaults → IsDistinct (merged_headers defaults extra))
unfolding merged_headers contains
merged_headers_lem defaults [] h = (ground arith, λ distinct. distinct)
merged_headers_lem defaults (e ∷ extra) h = (
  cc (contains-dedup (defaults ++ e ∷ extra) h, contains-append defaults (e ∷ extra) h),
  λ distinct. dedup-IsDistinct (defaults ++ e ∷ extra),
)

-- Every response of `CORS` allows the origin that `determineOrigin` gives and exposes the headers
-- that `CORS` prepared; the answer to an OPTIONS request also lists the allowed headers, and any
-- other answer keeps what that header was.
pub lookup-cors :
    (matches : Regexp → String → Bool) (methods origins response request : List String)
    (conf : Option OriginRegexConfig) (method origin : String) (w : Dict String String)
    → let result = cors matches methods origins response request conf method origin w in
      (lookup "Access-Control-Allow-Origin" result
        ≡ some (determine_origin matches origin origins conf))
      × (lookup "Access-Control-Expose-Headers" result
          ≡ some (join (merged_headers default_exposed_headers response)))
      × (lookup "Access-Control-Allow-Headers" result ≡ (
          if method == "OPTIONS"
          then some (join (merged_headers default_allowed_headers request))
          else lookup "Access-Control-Allow-Headers" w))
unfolding cors set_options_cors_headers set_default_cors_headers
lookup-cors matches [] origins response request conf method origin w =
    elim (Bool-cases (method == "OPTIONS")) [
      | inl options ↦ simp (options, lookup-insert) (refl, refl, refl)
      | inr other ↦ simp (other, lookup-insert) (refl, refl, refl)
    ]
lookup-cors matches (m ∷ methods) origins response request conf method origin w =
    elim (Bool-cases (method == "OPTIONS")) [
      | inl options ↦ simp (options, lookup-insert) (refl, refl, refl)
      | inr other ↦ simp (other, lookup-insert) (refl, refl, refl)
    ]
