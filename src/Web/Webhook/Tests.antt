-- ===== src/Web/Webhook/Tests.antt =====
-- The theorem on the webhook at a signed request.
use configcat_proxy.Base.{◌==◌, if◌then◌else◌, pos, ◌<>◌, refl, some, [], ◌∷◌, string_eq}
use configcat_proxy.Web.{Request}
use configcat_proxy.Web.Examples.{some_client, some_registrar, request_of}
use configcat_proxy.Web.Webhook.{signature_header, id_header, Crypto, serve_webhook_sdk_id}
use configcat_proxy.Web.Webhook.Laws.{IsServed, serve_webhook_sdk_id-IsServed}

abbrev some_crypto : Crypto
some_crypto = record {
  parse_int = λ s. some (pos 1000);
  sign = λ key payload. key <> payload;
  split = λ s. s ∷ [];
  now = pos 1200;
}

abbrev signed_request : Request
signed_request = request_of "POST" (λ name.
    if name == signature_header then "secret11000{}" else if name == id_header then "1" else "1000")

serve_webhook_sdk_id-IsServed_example :
    IsServed some_crypto signed_request
      (some some_client)
      (serve_webhook_sdk_id some_crypto some_registrar signed_request)
serve_webhook_sdk_id-IsServed_example =
    serve_webhook_sdk_id-IsServed some_crypto some_registrar signed_request (some some_client) refl
