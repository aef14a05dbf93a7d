-- ===== src/Web/Cdn/Laws.antt =====
-- When the CDN proxy answers that nothing was modified.
use configcat_proxy.Base.{
  ◌==◌, Bool-cases, ok, err, Result-cases, ℕ, String, ◌≡◌, sym, ◌∙◌, ◌≢◌, ◌↔◌, ◌⊎◌, inl, inr, true,
  false, Option, none, some, List, [], ◌∷◌, arith, eq_iff, string_eq,
}
use configcat_proxy.Sdk.{Client, Registrar}
use configcat_proxy.Web.{Request, Call, set_header, write_header, write, status_code}
use configcat_proxy.Web.Lookup.Laws.{IsValidClient, check_client_iff}
use configcat_proxy.Web.Lookup.{check_client}
use configcat_proxy.Web.Cdn.{Strings, cdn_sdk_client, requested_etag, serve_http}

check_client-codes :
    (c : Option Client) (message : String) (code : ℕ)
    → check_client 404 c ≡ err (message, code)
    → (code ≡ 404) ⊎ (code ≡ 500)
unfolding check_client
check_client-codes none message code e = ground (arith, e)
check_client-codes (some c) message code e = ground (arith, e)

module _ (strings : Strings) (registrar : Registrar) (r : Request) where
  cdn_sdk_client-codes :
      (message : String) (code : ℕ)
      → cdn_sdk_client strings registrar r ≡ err (message, code)
      → (code ≡ 404) ⊎ (code ≡ 500)
  unfolding cdn_sdk_client
  cdn_sdk_client-codes message code e =
      elim (Bool-cases (strings.has_prefix (r.path_value "path") "configcat-proxy/")) [
        | inl by_id ↦ ground (
          arith,
          check_client-codes
              (registrar.get_sdk_or_nil (
                strings.trim_suffix (strings.trim_prefix (r.path_value "path") "configcat-proxy/")
                  "/config_v6.json"))
              message code,
        )
        | inr by_key ↦ ground (
          arith,
          check_client-codes
              (registrar.get_sdk_by_key_or_nil
                (strings.trim_suffix (r.path_value "path") "/config_v6.json"))
              message code,
        )
      ]

  -- The client of the SDK id that follows the prefix in the path or, without the prefix, of the SDK
  -- key in the path, both before the name of the file; the client has to be in a valid state.
  abbrev pub LeadsTo : Client → Type 0
  LeadsTo c =
      let path = r.path_value "path" in
      ((strings.has_prefix path "configcat-proxy/" ≡ true)
        × IsValidClient
            (registrar.get_sdk_or_nil
              (strings.trim_suffix (strings.trim_prefix path "configcat-proxy/") "/config_v6.json"))
            c)
      ⊎ ((strings.has_prefix path "configcat-proxy/" ≡ false)
          × IsValidClient
              (registrar.get_sdk_by_key_or_nil (strings.trim_suffix path "/config_v6.json")) c)

  cdn_sdk_client_iff : (c : Client) → (cdn_sdk_client strings registrar r ≡ ok c) ↔ LeadsTo c
  unfolding cdn_sdk_client
  cdn_sdk_client_iff c =
      let path = r.path_value "path" in
      let by_id =
        check_client_iff 404
          (registrar.get_sdk_or_nil
            (strings.trim_suffix (strings.trim_prefix path "configcat-proxy/") "/config_v6.json"))
          c in
      let by_key =
        check_client_iff 404
          (registrar.get_sdk_by_key_or_nil (strings.trim_suffix path "/config_v6.json")) c in
      elim (Bool-cases (strings.has_prefix path "configcat-proxy/")) [
        | inl prefixed ↦ (
          λ e. inl (prefixed, by_id.0 (ground (arith, prefixed, e))),
          λ h. elim h [
            | inl (_, valid) ↦ ground (arith, prefixed, by_id.1 valid)
            | inr (bare, _) ↦ absurd (ground (arith, prefixed, bare))
          ],
        )
        | inr bare ↦ (
          λ e. inr (bare, by_key.0 (ground (arith, bare, e))),
          λ h. elim h [
            | inl (prefixed, _) ↦ absurd (ground (arith, prefixed, bare))
            | inr (_, valid) ↦ ground (arith, bare, by_key.1 valid)
          ],
        )
      ]

  -- The client's ETag is not empty and is the one that the request names, in the header or, without
  -- one, in the query.
  abbrev pub IsNamed : Client → Type 0
  IsNamed c =
      (c.get_cached_json.e_tag ≢ "")
      × ((r.header "If-None-Match" ≡ c.get_cached_json.e_tag)
          ⊎ ((r.header "If-None-Match" ≡ "") × (r.query "ccetag" ≡ c.get_cached_json.e_tag)))

  requested_etag-IsNamed :
      (c : Client)
      → IsNamed c ↔ (
          (c.get_cached_json.e_tag ≢ "")
          × (requested_etag strings registrar r ≡ c.get_cached_json.e_tag))
  unfolding requested_etag
  requested_etag-IsNamed c = elim (Bool-cases (r.header "If-None-Match" == "")) [
    | inl empty ↦
        let none_there = (eq_iff (r.header "If-None-Match") "").0 empty in
        (
          λ (set, named). (
            set,
            rw empty (elim named [
              | inl header ↦ absurd (set (sym header ∙ none_there))
              | inr (_, query) ↦ query
            ]),
          ),
          λ (set, named). (set, inr (none_there, rw empty at named)),
        )
    | inr there ↦ (
      λ (set, named). (
        set,
        rw there (elim named [
          | inl header ↦ header
          | inr (none_there, _) ↦
              absurd (ground (arith, there, (eq_iff (r.header "If-None-Match") "").1 none_there))
        ]),
      ),
      λ (set, named). (set, inl (rw there at named)),
    )
  ]

  -- The answers of the CDN proxy, by what the request names.
  abbrev pub IsAnswered : List Call → Type 0
  IsAnswered calls =
      ((c : Client) × LeadsTo c
        × IsNamed c
        × (calls
            ≡ set_header "Cache-Control" "max-age=0, must-revalidate"
              ∷ set_header "ETag" c.get_cached_json.e_tag
              ∷ write_header 304
              ∷ []))
      ⊎ ((c : Client) × LeadsTo c
          × (¬ IsNamed c)
          × (calls
              ≡ set_header "Cache-Control" "max-age=0, must-revalidate"
                ∷ set_header "ETag" c.get_cached_json.e_tag
                ∷ set_header "Content-Type" "application/json"
                ∷ write c.get_cached_json.config_json
                ∷ []))
      ⊎ (((c : Client) → ¬ LeadsTo c) × ((status_code calls ≡ 404) ⊎ (status_code calls ≡ 500)))

  found-serve_http :
      (c : Client)
      → cdn_sdk_client strings registrar r ≡ ok c
      → IsAnswered (serve_http strings registrar r)
  unfolding serve_http
  found-serve_http c at =
      let leads = (cdn_sdk_client_iff c).0 at in
      let asked = requested_etag strings registrar r in
      let etag = c.get_cached_json.e_tag in
      let (to, from) = requested_etag-IsNamed c in
      elim (Bool-cases (asked == "")) [
        | inl unnamed ↦ inr (
            inl (
              c,
              leads,
              λ named. (to named).0 (sym (to named).1 ∙ (eq_iff asked "").0 unnamed),
              ground (arith, at, unnamed),
            ))
        | inr named ↦ elim (Bool-cases (etag == asked)) [
          | inl same ↦
              let equal : etag ≡ asked = (eq_iff etag asked).0 same in
              inl (
                c,
                leads,
                from (
                  λ empty. ground (arith, named, (eq_iff asked "").1 (sym equal ∙ empty)),
                  sym equal,
                ),
                ground (arith, at, named, same),
              )
          | inr other ↦ inr (
              inl (
                c,
                leads,
                λ h. ground (arith, other, (eq_iff etag asked).1 (sym (to h).1)),
                ground (arith, at, named, other),
              ))
        ]
      ]

  -- The CDN proxy answers 304 if the path names, by id or by key, a client in a valid state whose
  -- ETag is not empty and is the one of the request's header or, without one, of its query; for a
  -- client in a valid state whose ETag is not so named it answers with its configuration and its
  -- ETag; and if the path names no client in a valid state it answers 404 or 500.
  pub serve_http-IsAnswered : IsAnswered (serve_http strings registrar r)
  unfolding serve_http status_code
  serve_http-IsAnswered = elim (Result-cases (cdn_sdk_client strings registrar r)) [
    | inl ((message, code), e) ↦ inr (
        inr (
          λ c leads. ground (arith, e, (cdn_sdk_client_iff c).1 leads),
          ground (arith, e, cdn_sdk_client-codes message code e),
        ))
    | inr (c, at) ↦ found-serve_http c at
  ]
