-- ===== src/Mware/Tests.antt =====
-- The theorems on the HTTP wrappers at small requests.
use configcat_proxy.Base.{
  ◌==◌, if◌then◌else◌, String, ◌≡◌, Bool, Option, none, some, [], ◌∷◌, string_eq,
}
use configcat_proxy.Config.Types.{Regexp, OriginRegexConfig}
use configcat_proxy.Mware.Cors.{
  default_exposed_headers, join, merged_headers, determine_origin, cors,
}
use configcat_proxy.Mware.Cors.Laws.{accepts, determine_origin_lem, lookup-cors}
use configcat_proxy.Base.Dict.{lookup}

abbrev same_text : Regexp → String → Bool
same_text regex origin = regex.pattern == origin

abbrev some_regexes : OriginRegexConfig
some_regexes = record {
  if_no_match = "https://a.com";
  patterns = "https://b.com" ∷ [];
  regexes = record { pattern = "https://b.com" } ∷ [];
}

abbrev request_header : String → String
request_header name = if name == "X-Api-Key" then "key" else ""

determine_origin_lem_example : determine_origin same_text "https://c.com" [] (some some_regexes) ≡ (
    if accepts same_text "https://c.com" [] (some some_regexes)
    then "https://c.com"
    else "https://a.com")
determine_origin_lem_example = determine_origin_lem same_text "https://c.com" [] (some some_regexes)

lookup-cors_example :
    let result = cors same_text ("GET" ∷ []) [] [] [] none "GET" "https://c.com" [] in
    (lookup {K = String} {V = String} "Access-Control-Allow-Origin" result
      ≡ some (determine_origin same_text "https://c.com" [] none))
    × (lookup {K = String} {V = String} "Access-Control-Expose-Headers" result
        ≡ some (join (merged_headers default_exposed_headers [])))
    × (lookup {K = String} {V = String} "Access-Control-Allow-Headers" result
        ≡ lookup {K = String} {V = String} "Access-Control-Allow-Headers" [])
lookup-cors_example = lookup-cors same_text ("GET" ∷ []) [] [] [] none "GET" "https://c.com" []

abbrev wrong_login : Option (String × String)
wrong_login = some ("user", "wrong")

abbrev right_login : Option (String × String)
right_login = some ("user", "pass")
