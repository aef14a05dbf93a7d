-- ===== src/Web/Ofrep/Laws.antt =====
-- The ETag of a bulk evaluation.
use configcat_proxy.Base.{
  ◌==◌, if◌then◌else◌, beq_refl, ok, Result-cases, String, ◌≡◌, refl, sym, ap, ◌∙◌, ◌≢◌, inl, inr,
  Option, none, some, List, [], ◌∷◌, arith, eq_iff, string_eq,
}
use configcat_proxy.Model.{UserAttrs}
use configcat_proxy.Sdk.{Client, Registrar}
use configcat_proxy.Web.{Request, Call, set_header, write_header}
use configcat_proxy.Web.Ofrep.{
  bulk_evaluation, Json, map_targeting_key_to_identifier, calc_etag, flags_of, write_error,
  ofrep_parse_request, eval_flags, ofrep_eval_all,
}

-- The value that the answer gives to a header, the last one if it is set again.
unfoldable pub header_of : String → List Call → Option String
header_of name [] = none
header_of name (set_header k v ∷ calls) = elim (header_of name calls) [
  | some later ↦ some later
  | none ↦ if k == name then some v else none
]
header_of name (_ ∷ calls) = header_of name calls

-- An ETag that a bulk evaluation answers with is that of the context and the configuration.
eval_flags-etag :
    (json : Json) (registrar : Registrar) (r : Request) (context : UserAttrs) (c : Client)
    (etag : String)
    → header_of "ETag" (eval_flags json registrar r (context, c)) ≡ some etag
    → calc_etag json context c.get_cached_json.e_tag ≡ etag
unfolding eval_flags header_of write_error
eval_flags-etag json registrar r context c etag h =
    let details = c.eval_all (map_targeting_key_to_identifier context) in
    elim (Result-cases (json.marshal (bulk_evaluation (flags_of json details)))) [
      | inl (e, bad) ↦ ground (arith, h, bad)
      | inr (printed, good) ↦ ground (arith, h, good)
    ]

found_here :
    (json : Json) (registrar : Registrar) (r : Request) (found : UserAttrs × Client)
    → ofrep_parse_request json registrar r ≡ ok found
    → ofrep_eval_all json registrar r ≡ eval_flags json registrar r found
unfolding ofrep_eval_all
found_here json registrar r found at = rw (at, ofrep_eval_all) refl

-- A bulk evaluation that was answered with an ETag is answered 304, without a body, when the
-- request is repeated with this ETag, as long as the body still gives the same context and the SDK
-- has the same configuration; the ETag must not be empty.
pub ofrep_eval_all_again :
    (json : Json) (registrar : Registrar) (r again : Request) (context : UserAttrs) (c c' : Client)
    (etag : String)
    → ofrep_parse_request json registrar r ≡ ok (context, c)
    → ofrep_parse_request json registrar again ≡ ok (context, c')
    → c'.get_cached_json.e_tag ≡ c.get_cached_json.e_tag
    → header_of "ETag" (ofrep_eval_all json registrar r) ≡ some etag
    → again.header "If-None-Match" ≡ etag
    → etag ≢ ""
    → ofrep_eval_all json registrar again ≡ set_header "ETag" etag ∷ write_header 304 ∷ []
unfolding eval_flags
ofrep_eval_all_again json registrar r again context c c' etag at at' same answered named set =
    let gen : calc_etag json context c.get_cached_json.e_tag ≡ etag =
      eval_flags-etag json registrar r context c etag
        (ap (header_of "ETag") (sym (found_here json registrar r (context, c) at)) ∙ answered) in
    found_here json registrar again (context, c') at'
    ∙ ground (
      arith,
      gen,
      same,
      named,
      eq_iff etag "",
      set,
      ap (calc_etag json context) same,
      beq_refl etag,
    )
