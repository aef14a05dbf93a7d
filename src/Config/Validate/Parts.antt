-- ===== src/Config/Validate/Parts.antt =====
-- Which parts of a configuration pass the checks of config/validate.go.
use configcat_proxy.Base.Dict.{Dict}
use configcat_proxy.Base.{
  ℤ, pos, ◌<ℤ◌, ok, All, String, ◌≡◌, refl, ◌≢◌, ◌↔◌, ◌⊎◌, Bool, true, false, Option, none, some,
  List, [], ◌∷◌, arith, eq_iff, string_eq, int_eq,
}
use configcat_proxy.Config.Types.{
  OfflineConfig, SdkConfig, CertConfig, TlsConfig, OtlpExporterConfig, DiagConfig, CorsConfig,
  HttpConfig, CacheConfig, GlobalOfflineConfig, ProfileConfig,
}
use configcat_proxy.Config.Validate.{
  validate_certificates, validate_tls, validate_global_offline, validate_webhook,
  validate_origin_regex, validate_cors, validate_http, validate_otlp, validate_diag,
  validate_profile, validate_local, validate_offline, validate_sdk, validate_sdks,
}

abbrev pub IsPort : ℤ → Type 0
IsPort p = (pos 0 <ℤ p) × (p <ℤ pos 65536)

abbrev pub HasCache : CacheConfig → Type 0
HasCache c = (c.redis.enabled ≡ true) ⊎ ((c.mongodb.enabled ≡ true) ⊎ (c.dynamodb.enabled ≡ true))

-- Offline with a local file only.
pub record IsFileSource (exists : String → Bool) (o : OfflineConfig) : Type 0 where
  pub file : o.local.file_path ≢ ""
  pub no_cache : o.use_cache ≡ false
  pub found : exists o.local.file_path ≡ true
  pub polled : (o.local.polling ≡ false) ⊎ (pos 0 <ℤ o.local.poll_interval)

-- Offline with the cache only.
pub record IsCacheSource (c : CacheConfig) (o : OfflineConfig) : Type 0 where
  pub no_file : o.local.file_path ≡ ""
  pub cache : o.use_cache ≡ true
  pub has_cache : HasCache c
  pub polled : pos 0 <ℤ o.cache_poll_interval

abbrev pub IsValidOffline : (String → Bool) → CacheConfig → OfflineConfig → Type 0
IsValidOffline exists c o = (o.enabled ≡ false) ⊎ (IsFileSource exists o ⊎ IsCacheSource c o)

validate_offline_iff :
    (exists : String → Bool) (o : OfflineConfig) (c : CacheConfig) (id : String)
    → (validate_offline exists o c id ≡ ok tt) ↔ IsValidOffline exists c o
unfolding validate_offline validate_local
validate_offline_iff exists o c id = ground (arith, eq_iff o.local.file_path "")

abbrev pub IsGovernance : String → Type 0
IsGovernance g = (g ≡ "") ⊎ ((g ≡ "global") ⊎ (g ≡ "eu"))

-- With a signing key, signatures are valid for five seconds at least.
abbrev pub IsValidity : String → ℤ → Type 0
IsValidity signing_key seconds = (signing_key ≡ "") ⊎ (pos 4 <ℤ seconds)

pub record IsValidSdk (exists : String → Bool) (c : CacheConfig) (p : ProfileConfig) (s : SdkConfig)
    : Type 0 where
  pub keyed : (p.key ≢ "") ⊎ (s.key ≢ "")
  pub governed : IsGovernance s.data_governance
  pub signed : IsValidity s.webhook_signing_key s.webhook_signature_valid_for
  pub sourced : IsValidOffline exists c s.offline

validate_sdk_iff :
    (exists : String → Bool) (s : SdkConfig) (c : CacheConfig) (p : ProfileConfig) (id : String)
    → (validate_sdk exists s c p id ≡ ok tt) ↔ IsValidSdk exists c p s
unfolding validate_sdk
validate_sdk_iff exists s c p id = ground (
  arith,
  eq_iff p.key "",
  eq_iff s.key "",
  eq_iff s.data_governance "",
  eq_iff s.data_governance "global",
  eq_iff s.data_governance "eu",
  eq_iff s.webhook_signing_key "",
  validate_offline_iff exists s.offline c id,
)

-- An SDK of the map: not nil, and valid.
abbrev pub IsValidEntry :
    (String → Bool) → CacheConfig → ProfileConfig → String × Option SdkConfig → Type 0
IsValidEntry exists c p (id, none) = ⊥
IsValidEntry exists c p (id, some s) = IsValidSdk exists c p s

pub validate_sdks_iff :
    (exists : String → Bool) (sdks : Dict String (Option SdkConfig)) (c : CacheConfig)
    (p : ProfileConfig)
    → (validate_sdks exists sdks c p ≡ ok tt) ↔ All (IsValidEntry exists c p) sdks
unfolding validate_sdks
validate_sdks_iff exists [] c p = (λ _. tt, λ _. refl)
validate_sdks_iff exists ((id, none) ∷ sdks) c p = (λ e. cc, λ h. absurd h.0)
validate_sdks_iff exists ((id, some s) ∷ sdks) c p =
    ground (arith, validate_sdk_iff exists s c p id, validate_sdks_iff exists sdks c p)

-- A certificate and its key come together.
abbrev pub IsPair : String → String → Type 0
IsPair a b = ((a ≡ "") × (b ≡ "")) ⊎ ((a ≢ "") × (b ≢ ""))

abbrev pub IsValidTls : TlsConfig → Type 0
IsValidTls t = (t.enabled ≡ false) ⊎ All (λ c. IsPair c.cert c.key) t.certificates

validate_certificates_iff :
    (certs : List CertConfig)
    → (validate_certificates certs ≡ ok tt) ↔ All (λ c. IsPair c.cert c.key) certs
unfolding validate_certificates
validate_certificates_iff [] = (λ _. tt, λ _. refl)
validate_certificates_iff (c ∷ certs) =
    ground (arith, eq_iff c.cert "", eq_iff c.key "", validate_certificates_iff certs)

pub validate_tls_iff : (t : TlsConfig) → (validate_tls t ≡ ok tt) ↔ IsValidTls t
unfolding validate_tls
validate_tls_iff t = ground (arith, validate_certificates_iff t.certificates)

abbrev pub IsValidCors : CorsConfig → Type 0
IsValidCors c =
    (c.enabled ≡ false)
    ⊎ ((c.allowed_origins_regex.patterns ≡ []) ⊎ (c.allowed_origins_regex.if_no_match ≢ ""))

validate_cors_iff : (c : CorsConfig) → (validate_cors c ≡ ok tt) ↔ IsValidCors c
unfolding validate_cors validate_origin_regex
validate_cors_iff c = ground (arith, eq_iff c.allowed_origins_regex.if_no_match "")

pub record IsValidHttp (h : HttpConfig) : Type 0 where
  pub port : IsPort h.port
  pub auth : (h.webhook.enabled ≡ false) ⊎ IsPair h.webhook.auth.user h.webhook.auth.password
  pub api : IsValidCors h.api.cors
  pub ofrep : IsValidCors h.ofrep.cors
  pub sse : IsValidCors h.sse.cors
  pub cdn_proxy : IsValidCors h.cdn_proxy.cors

pub validate_http_iff : (h : HttpConfig) → (validate_http h ≡ ok tt) ↔ IsValidHttp h
unfolding validate_http validate_webhook
validate_http_iff h = ground (
  arith,
  eq_iff h.webhook.auth.user "",
  eq_iff h.webhook.auth.password "",
  validate_cors_iff h.api.cors,
  validate_cors_iff h.ofrep.cors,
  validate_cors_iff h.sse.cors,
  validate_cors_iff h.cdn_proxy.cors,
)

abbrev pub IsProtocol : String → Type 0
IsProtocol p = (p ≡ "http") ⊎ ((p ≡ "https") ⊎ (p ≡ "grpc"))

pub record IsValidDiag (d : DiagConfig) : Type 0 where
  pub port : IsPort d.port
  pub metrics :
      (d.enabled ≡ false)
      ⊎ ((d.metrics.enabled ≡ false)
          ⊎ ((d.metrics.otlp.enabled ≡ false) ⊎ IsProtocol d.metrics.otlp.protocol))
  pub traces :
      (d.enabled ≡ false)
      ⊎ ((d.traces.enabled ≡ false)
          ⊎ ((d.traces.otlp.enabled ≡ false) ⊎ IsProtocol d.traces.otlp.protocol))

validate_otlp_iff : (o : OtlpExporterConfig) → (validate_otlp o ≡ ok tt) ↔ IsProtocol o.protocol
unfolding validate_otlp
validate_otlp_iff o =
    ground (arith, eq_iff o.protocol "http", eq_iff o.protocol "https", eq_iff o.protocol "grpc")

pub validate_diag_iff : (d : DiagConfig) → (validate_diag d ≡ ok tt) ↔ IsValidDiag d
unfolding validate_diag
validate_diag_iff d =
    ground (arith, validate_otlp_iff d.metrics.otlp, validate_otlp_iff d.traces.otlp)

pub record IsValidProfile (g : GlobalOfflineConfig) (a : ProfileConfig) : Type 0 where
  pub secret : (a.secret ≢ "") ⊎ (g.enabled ≡ true)
  pub polled : pos 59 <ℤ a.poll_interval
  pub signed : IsValidity a.webhook_signing_key a.webhook_signature_valid_for

pub validate_profile_iff :
    (a : ProfileConfig) (g : GlobalOfflineConfig)
    → (validate_profile a g ≡ ok tt) ↔ IsValidProfile g a
unfolding validate_profile
validate_profile_iff a g = ground (arith, eq_iff a.secret "", eq_iff a.webhook_signing_key "")

-- Redis alone counts as the cache of the global offline mode.
abbrev pub IsValidGlobal : CacheConfig → GlobalOfflineConfig → Type 0
IsValidGlobal c g =
    (g.enabled ≡ false) ⊎ ((c.redis.enabled ≡ true) × (pos 0 <ℤ g.cache_poll_interval))

pub validate_global_offline_iff :
    (g : GlobalOfflineConfig) (c : CacheConfig)
    → (validate_global_offline g c ≡ ok tt) ↔ IsValidGlobal c g
unfolding validate_global_offline
validate_global_offline_iff g c = ground arith
