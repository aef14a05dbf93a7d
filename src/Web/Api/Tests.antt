-- ===== src/Web/Api/Tests.antt =====
-- The theorem on the API at a request for one flag.
use configcat_proxy.Base.{◌≤◌, String, ◌≡◌, ◌↔◌, ◌⊎◌, [], ◌∷◌, string_eq}
use configcat_proxy.Web.{Request, set_header, write, status_code}
use configcat_proxy.Web.Examples.{some_registrar, some_json, request_of}
use configcat_proxy.Web.Api.{api_eval}
use configcat_proxy.Web.Api.Laws.{IsAnswered, status_code-api_eval}

abbrev posted : Request
posted = request_of "POST" (λ name. "")

status_code-api_eval_example :
    ((status_code (api_eval some_json some_registrar posted) ≡ 200)
      ↔ ((printed : String) × IsAnswered some_json some_registrar posted printed))
    × ((printed : String)
        → IsAnswered some_json some_registrar posted printed
        → api_eval some_json some_registrar posted
          ≡ set_header "Content-Type" "application/json" ∷ write printed ∷ [])
    × ((status_code (api_eval some_json some_registrar posted) ≡ 200)
        ⊎ (400 ≤ status_code (api_eval some_json some_registrar posted)))
status_code-api_eval_example = status_code-api_eval some_json some_registrar posted
