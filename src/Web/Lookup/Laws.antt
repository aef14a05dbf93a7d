-- ===== src/Web/Lookup/Laws.antt =====
-- Which client a lookup of web/api/api.go or web/cdnproxy/cdnproxy.go leads to.
use configcat_proxy.Base.{
  ◌==◌, Bool-cases, ok, ℕ, ◌≡◌, refl, ◌≢◌, ◌↔◌, ◌⊎◌, inl, inr, true, Option, none, some, arith,
  eq_iff, string_eq,
}
use configcat_proxy.Sdk.{Client, Registrar}
use configcat_proxy.Web.{Request}
use configcat_proxy.Web.Lookup.{sdk_key_header, check_client, api_sdk_client}

-- The lookup found `c`, which is in a valid state.
abbrev pub IsValidClient : Option Client → Client → Type 0
IsValidClient found c = (found ≡ some c) × (c.is_in_valid_state ≡ true)

pub check_client_iff :
    (missing : ℕ) (found : Option Client) (c : Client)
    → (check_client missing found ≡ ok c) ↔ IsValidClient found c
unfolding check_client
check_client_iff missing none c = (λ e. cc e, λ h. cc h.0)
check_client_iff missing (some client) c = elim (Bool-cases client.is_in_valid_state) [
  | inl valid ↦ (
    λ e. let same : client ≡ c = ground (arith, valid, e) in (rw same refl, rw (← same) valid),
    λ h. ground (arith, valid, h.0),
  )
  | inr invalid ↦ (
    λ e. absurd (ground (arith, invalid, e)),
    λ h.
        let same : client ≡ c = ground (arith, h.0) in
        absurd (ground (arith, h.1, rw same at invalid)),
  )
]

module _ (registrar : Registrar) (r : Request) where
  -- The client of the SDK id in the path or, without one, of the SDK key in the header, which then
  -- has to be there; the client has to be in a valid state.
  abbrev pub LeadsTo : Client → Type 0
  LeadsTo c =
      ((r.path_value "sdkId" ≢ "")
        × IsValidClient (registrar.get_sdk_or_nil (r.path_value "sdkId")) c)
      ⊎ ((r.path_value "sdkId" ≡ "")
          × (r.header sdk_key_header ≢ "")
          × IsValidClient (registrar.get_sdk_by_key_or_nil (r.header sdk_key_header)) c)

  pub api_sdk_client_iff : (c : Client) → (api_sdk_client registrar r ≡ ok c) ↔ LeadsTo c
  unfolding api_sdk_client
  api_sdk_client_iff c =
      let by_id = check_client_iff 404 (registrar.get_sdk_or_nil (r.path_value "sdkId")) c in
      let by_key =
        check_client_iff 404 (registrar.get_sdk_by_key_or_nil (r.header sdk_key_header)) c in
      let id_named = eq_iff (r.path_value "sdkId") "" in
      let key_named = eq_iff (r.header sdk_key_header) "" in
      elim (Bool-cases (r.path_value "sdkId" == "")) [
        | inr named ↦ (
          λ e. inl (ground (arith, named, id_named), by_id.0 (ground (arith, named, e))),
          λ h. elim h [
            | inl (n, valid) ↦ ground (arith, named, by_id.1 valid)
            | inr (empty, _, _) ↦ absurd (ground (arith, named, id_named.1 empty))
          ],
        )
        | inl nameless ↦ elim (Bool-cases (r.header sdk_key_header == "")) [
          | inl keyless ↦ (
            λ e. absurd (ground (arith, nameless, keyless, e)),
            λ h. elim h [
              | inl (n, valid) ↦ absurd (n (id_named.0 nameless))
              | inr (_, n, valid) ↦ absurd (n (key_named.0 keyless))
            ],
          )
          | inr keyed ↦ (
            λ e. inr (
              id_named.0 nameless,
              ground (arith, keyed, key_named),
              by_key.0 (ground (arith, nameless, keyed, e)),
            ),
            λ h. elim h [
              | inl (n, valid) ↦ absurd (n (id_named.0 nameless))
              | inr (_, n, valid) ↦ ground (arith, nameless, keyed, by_key.1 valid)
            ],
          )
        ]
      ]
