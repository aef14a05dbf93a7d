-- ===== src/Web/Ofrep/Tests.antt =====
-- The theorem on the bulk evaluation at a repeated request.
use configcat_proxy.Base.{◌==◌, if◌then◌else◌, ok, ◌≡◌, refl, none, [], ◌∷◌, string_eq, nat_eq}
use configcat_proxy.Web.{Request, set_header, write_header}
use configcat_proxy.Web.Lookup.{sdk_id_header, check_client, ofrep_sdk_client}
use configcat_proxy.Web.Examples.{some_client, some_registrar, request_of}
use configcat_proxy.Utils.{generate_etag}
use configcat_proxy.Web.Ofrep.{
  Json, calc_etag, context_of, ofrep_parse_request, eval_flags, ofrep_eval_all,
}
use configcat_proxy.Web.Ofrep.Laws.{header_of, ofrep_eval_all_again}

abbrev printing : Json
printing = record {
  unmarshal_context = λ s. ok none;
  marshal = λ b. ok "{}";
  hash = record { sum64 = λ s. 0; format_int = λ n. "0"; format_float = λ x. "0" };
  bytes_of = λ s. [];
  fast_hash_hex = λ bytes. "e1";
  error_text = λ e. "failed";
}

abbrev first_request : Request
first_request = request_of "POST" (λ name. if name == sdk_id_header then "a" else "")

abbrev second_request : Request
second_request = request_of "POST" (λ name.
    if name == sdk_id_header then "a" else if name == "If-None-Match" then "W/\"e1\"" else "")

ofrep_eval_all_again_example :
    ofrep_eval_all printing some_registrar second_request
    ≡ set_header "ETag" "W/\"e1\"" ∷ write_header 304 ∷ []
unfolding calc_etag generate_etag ofrep_parse_request context_of ofrep_sdk_client check_client
    ofrep_eval_all eval_flags header_of
ofrep_eval_all_again_example =
    ofrep_eval_all_again printing some_registrar first_request second_request none some_client
      some_client "W/\"e1\"" refl refl refl refl refl (λ e. cc)
