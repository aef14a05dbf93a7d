-- ===== src/Grpc/Tests.antt =====
-- The theorems on the gRPC service at small requests.
use configcat_proxy.Base.{pos, ◌≡◌, refl, ◌↔◌, none, string_eq}
use configcat_proxy.Model.{int_value, ResponsePayload}
use configcat_proxy.Web.{Request}
use configcat_proxy.Web.Examples.{some_registrar, asked, some_json, request_of}
use configcat_proxy.Grpc.{ProtoEvalRequest, to_payload, get_user_attrs}
use configcat_proxy.Grpc.Laws.{value_of, Fits, IsWrapped, value_of-to_payload}
use configcat_proxy.Grpc.Agreement.{AskSame, Agree, eval_flag-api_eval}

-- 2^31 + 5 is sent as 5 - 2^31.
abbrev too_large : ResponsePayload
too_large = record { value = int_value (pos 2147483653); variation_id = "v1" }

value_of-to_payload_example :
    ((value_of (to_payload too_large).value ≡ too_large.value) ↔ Fits too_large.value)
    × Fits (value_of (to_payload too_large).value)
    × IsWrapped too_large.value (value_of (to_payload too_large).value)
    × ((to_payload too_large).variation_id ≡ "v1")
value_of-to_payload_example = value_of-to_payload too_large

abbrev called : ProtoEvalRequest
called = record { target = none; sdk_id = "a"; key = "flag"; user = none }

abbrev posted : Request
posted = request_of "POST" (λ name. "")

asking : AskSame some_json called posted
unfolding get_user_attrs
asking = record {
  no_target_set = refl;
  same_id = refl;
  id_set = refl;
  key_set = refl;
  body = "{}";
  readable = refl;
  eval_req = asked;
  parsed = refl;
  same_key = refl;
  same_user = refl;
}

eval_flag-api_eval_example : Agree some_json some_registrar called posted
eval_flag-api_eval_example = eval_flag-api_eval some_json some_registrar called posted asking
