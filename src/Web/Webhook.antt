-- ===== src/Web/Webhook.antt =====
-- web/webhook/webhook.go: the webhook that refreshes a client. The digest with its encoding, the
-- parsing of a timestamp and the splitting of the signatures are parameters, and so is the time.
pub mod Laws
mod Tests
use configcat_proxy.Base.{
  ◌==◌, if◌then◌else◌, ℤ, ltb_ℤ, ◌-ℤ◌, ok, err, String, ◌<>◌, Bool, true, false, not, ◌||◌, Option,
  none, some, List, [], ◌∷◌, string_eq,
}
use configcat_proxy.Config.Types.{ProfileConfig}
use configcat_proxy.Sdk.{Client, Registrar}
use configcat_proxy.Web.{Request, Call, error, refresh}

abbrev pub signature_header : String
signature_header = "X-ConfigCat-Webhook-Signature-V1"

abbrev pub id_header : String
id_header = "X-ConfigCat-Webhook-ID"

abbrev pub timestamp_header : String
timestamp_header = "X-ConfigCat-Webhook-Timestamp"

-- `strconv.ParseInt(s, 10, 64)`, the base64 of the HMAC of a text under a key, and
-- `strings.Split(s, ",")`; `now` is `time.Now().Unix()`.
pub record Crypto : Type 0 where
  pub parse_int : String → Option ℤ
  pub sign : String → String → String
  pub split : String → List String
  pub now : ℤ

-- The loop over the received signatures.
has_signature : String → List String → Bool → Bool
has_signature calc [] found = found
has_signature calc (sig ∷ signatures) found =
    has_signature calc signatures (if sig == calc then true else found)

module _ (crypto : Crypto) where
  pub validate_signature : String → ℤ → Request → Bool
  unfolding has_signature
  validate_signature signing_key valid_for r =
      let signatures = r.header signature_header in
      let webhook_id = r.header id_header in
      let timestamp_str = r.header timestamp_header in
      if signatures == "" || (webhook_id == "" || timestamp_str == "")
      then false
      else elim (crypto.parse_int timestamp_str) [
        | none ↦ false
        | some timestamp ↦
            if ltb_ℤ timestamp (crypto.now -ℤ valid_for) then false else elim r.body [
              | err e ↦ false
              | ok body ↦
                  let payload = webhook_id <> (timestamp_str <> body) in
                  has_signature (crypto.sign signing_key payload) (crypto.split signatures) false
            ]
      ]

  pub serve_webhook_test : ProfileConfig → Request → List Call
  serve_webhook_test profile r =
      if not (profile.webhook_signing_key == "")
      then if not
          (validate_signature profile.webhook_signing_key profile.webhook_signature_valid_for r)
        then error "Signature validation failed" 400 ∷ []
        else []
      else []

  -- `ServeWebhookSdkId` after the lookup.
  serve_client : Client → Request → List Call
  serve_client sdk_client r =
      if not (sdk_client.webhook_signing_key == "")
      then if not (
          validate_signature sdk_client.webhook_signing_key sdk_client.webhook_signature_valid_for
            r)
        then error "Signature validation failed" 400 ∷ []
        else refresh ∷ []
      else refresh ∷ []

  pub serve_webhook_sdk_id : Registrar → Request → List Call
  unfolding serve_client
  serve_webhook_sdk_id registrar r =
      let sdk_id = r.path_value "sdkId" in
      if sdk_id == ""
      then error "'sdkId' path parameter must be set" 400 ∷ []
      else elim (registrar.get_sdk_or_nil sdk_id) [
        | none ↦ error ("SDK not found for identifier: '" <> (sdk_id <> "'")) 404 ∷ []
        | some sdk_client ↦ serve_client sdk_client r
      ]
