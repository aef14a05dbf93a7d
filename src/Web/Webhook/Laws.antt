-- ===== src/Web/Webhook/Laws.antt =====
-- Which webhook requests refresh a client.
use mathlib.Core.Path.{subst}
use configcat_proxy.Base.{
  ◌==◌, if◌then◌else◌, Bool-cases, Option-cases, ℤ, ltb_ℤ, ◌-ℤ◌, ok, Result-cases, contains, ℕ,
  String, ◌<>◌, ◌≡◌, sym, ◌≢◌, ◌↔◌, ◌⊎◌, inl, inr, Bool, true, false, ◌||◌, Option, none, some,
  List, [], ◌∷◌, arith, eq_iff, string_eq,
}
use configcat_proxy.Web.{Request, Call, refresh, status_code, refreshes}
use configcat_proxy.Web.Webhook.{
  signature_header, id_header, timestamp_header, Crypto, has_signature, validate_signature,
  serve_client, serve_webhook_sdk_id,
}
use configcat_proxy.Sdk.{Client, Registrar}

has_signature-contains :
    (calc : String) (signatures : List String) (found : Bool)
    → has_signature calc signatures found ≡ (found || contains signatures calc)
unfolding has_signature contains
has_signature-contains calc [] found = ground arith
has_signature-contains calc (sig ∷ signatures) found = ground (
  arith,
  has_signature-contains calc signatures (if sig == calc then true else found),
  eq_iff sig calc,
  eq_iff calc sig,
)

module _ (crypto : Crypto) (key : String) (valid_for : ℤ) (r : Request) where
  -- The three headers are there, the timestamp is a number that is not too old, the body is
  -- readable, and one of the listed signatures is that of the id, the timestamp and the body under
  -- the key.
  abbrev pub IsSigned : Type 0
  IsSigned =
      (r.header signature_header ≢ "")
      × (r.header id_header ≢ "")
      × (r.header timestamp_header ≢ "")
      × ((timestamp : ℤ) × (crypto.parse_int (r.header timestamp_header) ≡ some timestamp)
          × (ltb_ℤ timestamp (crypto.now -ℤ valid_for) ≡ false))
      × ((body : String) × (r.body ≡ ok body)
          × (contains (crypto.split (r.header signature_header))
                (crypto.sign key (r.header id_header <> (r.header timestamp_header <> body)))
              ≡ true))

  validate_signature-IsSigned : validate_signature crypto key valid_for r ≡ true → IsSigned
  unfolding validate_signature
  validate_signature-IsSigned h =
      elim (Option-cases (crypto.parse_int (r.header timestamp_header))) [
        | inl bad ↦ absurd (ground (arith, h, bad))
        | inr (timestamp, parsed) ↦ elim (Result-cases r.body) [
          | inl (e, bad) ↦ absurd (ground (arith, h, parsed, bad))
          | inr (body, read) ↦ (
            ground (arith, h, eq_iff (r.header signature_header) ""),
            ground (arith, h, eq_iff (r.header id_header) ""),
            ground (arith, h, eq_iff (r.header timestamp_header) ""),
            (timestamp, parsed, ground (arith, h, parsed)),
            (
              body,
              read,
              ground (
                arith,
                h,
                parsed,
                read,
                has_signature-contains
                    (crypto.sign key (r.header id_header <> (r.header timestamp_header <> body)))
                    (crypto.split (r.header signature_header)) false,
              ),
            ),
          )
        ]
      ]

  IsSigned-validate_signature : IsSigned → validate_signature crypto key valid_for r ≡ true
  unfolding validate_signature
  IsSigned-validate_signature (a, b, c, (timestamp, parsed, new), (body, read, listed)) = ground (
    arith,
    eq_iff (r.header signature_header) "",
    eq_iff (r.header id_header) "",
    eq_iff (r.header timestamp_header) "",
    has_signature-contains
        (crypto.sign key (r.header id_header <> (r.header timestamp_header <> body)))
        (crypto.split (r.header signature_header)) false,
  )

  -- The signature check accepts exactly the requests with a fresh, valid signature.
  pub validate_signature_lem : (validate_signature crypto key valid_for r ≡ true) ↔ IsSigned
  validate_signature_lem = (validate_signature-IsSigned, IsSigned-validate_signature)

-- The client may be refreshed by the request.
abbrev pub MayRefresh : Crypto → Request → Option Client → Type 0
MayRefresh crypto r none = ⊥
MayRefresh crypto r (some c) =
    (r.path_value "sdkId" ≢ "")
    × ((c.webhook_signing_key ≡ "")
        ⊎ IsSigned crypto c.webhook_signing_key c.webhook_signature_valid_for r)

-- The calls refuse the request with the status `code`, and refresh nothing.
abbrev pub IsRefused : ℕ → List Call → Type 0
IsRefused code calls = (status_code calls ≡ code) × (refreshes calls ≡ 0)

-- Exactly one of the two cases, with what is answered in each.
abbrev pub IsServed : Crypto → Request → Option Client → List Call → Type 0
IsServed crypto r found calls =
    (MayRefresh crypto r found × (calls ≡ refresh ∷ []))
    ⊎ ((¬ MayRefresh crypto r found) × (IsRefused 400 calls ⊎ IsRefused 404 calls))

serve_client-IsServed :
    (crypto : Crypto) (c : Client) (r : Request)
    → r.path_value "sdkId" ≢ ""
    → IsServed crypto r (some c) (serve_client crypto c r)
unfolding serve_client status_code refreshes
serve_client-IsServed crypto c r named =
    let key = c.webhook_signing_key in
    let valid_for = c.webhook_signature_valid_for in
    let (to, from) = validate_signature_lem crypto key valid_for r in
    elim (Bool-cases (key == "")) [
      | inl unsigned ↦ inl ((named, inl ((eq_iff key "").0 unsigned)), ground (arith, unsigned))
      | inr secured ↦ elim (Bool-cases (validate_signature crypto key valid_for r)) [
        | inl valid ↦ inl ((named, inr (to valid)), ground (arith, secured, valid))
        | inr invalid ↦ inr (
          λ may. elim may.1 [
            | inl unsigned ↦ ground (arith, secured, (eq_iff key "").1 unsigned)
            | inr signed ↦ ground (arith, invalid, from signed)
          ],
          inl (ground (arith, secured, invalid), ground (arith, secured, invalid)),
        )
      ]
    ]

-- A webhook request refreshes the client, once, if its path names an SDK that has a client and the
-- client has no signing key or the request is signed with it, by a signature that is not older than
-- the client allows; any other request is answered 400 or 404 and refreshes nothing.
pub serve_webhook_sdk_id-IsServed :
    (crypto : Crypto) (registrar : Registrar) (r : Request) (found : Option Client)
    → registrar.get_sdk_or_nil (r.path_value "sdkId") ≡ found
    → IsServed crypto r found (serve_webhook_sdk_id crypto registrar r)
unfolding serve_webhook_sdk_id status_code refreshes
serve_webhook_sdk_id-IsServed crypto registrar r none at = inr (
  λ may. may,
  elim (Bool-cases (r.path_value "sdkId" == "")) [
    | inl nameless ↦ inl (ground (arith, nameless), ground (arith, nameless))
    | inr named ↦ inr (ground (arith, named, at), ground (arith, named, at))
  ],
)
serve_webhook_sdk_id-IsServed crypto registrar r (some c) at =
    elim (Bool-cases (r.path_value "sdkId" == "")) [
      | inl nameless ↦ inr (
        λ may. may.0 ((eq_iff (r.path_value "sdkId") "").0 nameless),
        inl (ground (arith, nameless), ground (arith, nameless)),
      )
      | inr named ↦
          let same : serve_webhook_sdk_id crypto registrar r ≡ serve_client crypto c r =
            ground (arith, at, named) in
          let nameable : r.path_value "sdkId" ≢ "" =
            λ e. ground (arith, named, (eq_iff (r.path_value "sdkId") "").1 e) in
          subst (IsServed crypto r (some c)) (sym same) (serve_client-IsServed crypto c r nameable)
    ]
