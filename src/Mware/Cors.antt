-- ===== src/Mware/Cors.antt =====
-- web/mware/cors.go. The headers of a response are a map, `Set` is `insert`; whether a compiled
-- expression matches a text is a parameter. What `next` adds comes after these headers.
pub mod Laws
use configcat_proxy.Base.{
  ◌==◌, if◌then◌else◌, contains, String, ◌<>◌, Bool, true, false, not, ◌&&◌, ◌||◌, Option, none,
  some, List, [], ◌∷◌, ◌++◌, string_eq,
}
use configcat_proxy.Base.Dict.{Dict, insert}
use configcat_proxy.Utils.{dedup}
use configcat_proxy.Config.Types.{Regexp, OriginRegexConfig}

abbrev pub default_allowed_headers : List String
default_allowed_headers =
    "Cache-Control" ∷ "Content-Type" ∷ "Content-Length" ∷ "Accept-Encoding" ∷ "If-None-Match" ∷ []

abbrev pub default_exposed_headers : List String
default_exposed_headers = "Content-Length" ∷ "ETag" ∷ "Date" ∷ "Content-Encoding" ∷ []

abbrev pub default_allowed_origin : String
default_allowed_origin = "*"

-- `strings.Join(xs, ",")`.
pub join : List String → String
join [] = ""
join (x ∷ []) = x
join (x ∷ y ∷ xs) = x <> ("," <> join (y ∷ xs))

abbrev pub is_nil {ℓ} : {A : Type ℓ} → List A → Bool
is_nil [] = true
is_nil (x ∷ xs) = false

-- The headers that `CORS` prepares: the defaults, and the configured ones if there are any.
pub merged_headers : List String → List String → List String
merged_headers defaults extra = if not (is_nil extra) then dedup (defaults ++ extra) else defaults

module _ (matches : Regexp → String → Bool) where
  -- The loop of `determineOrigin` over the expressions.
  pub any_matches : String → List Regexp → Bool
  any_matches origin [] = false
  any_matches origin (regex ∷ regexes) = matches regex origin || any_matches origin regexes

  -- The rest of `determineOrigin` where `slices.Contains` did not return.
  after_origins : String → List String → Option OriginRegexConfig → String → String
  unfolding any_matches
  after_origins origin allowed none default_result =
      if is_nil allowed && not (origin == "") then origin else default_result
  after_origins origin allowed (some conf) default_result =
      if not (is_nil conf.regexes)
      then (if any_matches origin conf.regexes then origin else conf.if_no_match)
      else if is_nil allowed && not (origin == "")
      then origin
      else default_result

  -- `determineOrigin`; `none` is a nil `OriginRegexConfig`.
  pub determine_origin : String → List String → Option OriginRegexConfig → String
  unfolding after_origins
  determine_origin origin [] conf = after_origins origin [] conf default_allowed_origin
  determine_origin origin (first ∷ allowed) conf =
      if contains (first ∷ allowed) origin
      then origin
      else after_origins origin (first ∷ allowed) conf first

  pub set_default_cors_headers :
      String
      → List String
      → String
      → Option OriginRegexConfig
      → Dict String String
      → Dict String String
  unfolding determine_origin
  set_default_cors_headers origin allowed_origins exposed_headers conf w =
      insert "Access-Control-Expose-Headers" exposed_headers
        (insert "Access-Control-Allow-Origin" (determine_origin origin allowed_origins conf) w)

  pub set_options_cors_headers :
      String
      → List String
      → Option OriginRegexConfig
      → List String
      → String
      → String
      → Dict String String
      → Dict String String
  unfolding set_default_cors_headers join
  set_options_cors_headers origin allowed_origins conf allowed_methods exposed allowed w =
      let w1 = set_default_cors_headers origin allowed_origins exposed conf w in
      let w2 = insert "Access-Control-Allow-Credentials" "false" w1 in
      let w3 = insert "Access-Control-Max-Age" "600" w2 in
      let w4 = insert "Access-Control-Allow-Headers" allowed w3 in
      if not (is_nil allowed_methods)
      then insert "Access-Control-Allow-Methods" (join allowed_methods) w4
      else w4

  -- `CORS`, on a request with a method and an `Origin`: the headers with which `next` starts.
  pub cors :
      List String
      → List String
      → List String
      → List String
      → Option OriginRegexConfig
      → String
      → String
      → Dict String String
      → Dict String String
  unfolding set_default_cors_headers set_options_cors_headers join merged_headers
  cors allowed_methods allowed_origins response_headers request_headers conf method origin w =
      let exposed = join (merged_headers default_exposed_headers response_headers) in
      let allowed = join (merged_headers default_allowed_headers request_headers) in
      if method == "OPTIONS"
      then set_options_cors_headers origin allowed_origins conf allowed_methods exposed allowed w
      else set_default_cors_headers origin allowed_origins exposed conf w
