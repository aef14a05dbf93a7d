-- ===== src/Model/Tests.antt =====
-- The theorems on user attributes and on the list helpers at small inputs.
use configcat_proxy.Base.{pos, ok, All, String, ◌≡◌, refl, ◌↔◌, some, [], ◌∷◌, string_eq}
use configcat_proxy.Model.{
  text, int, UserAttrs, Raw, raw_int, unmarshal, merge_user_attrs, get_attribute,
}
use configcat_proxy.Model.Laws.{or_else, get_attribute-merge_user_attrs, IsAccepted, unmarshal_iff}
use configcat_proxy.Base.Dict.{lookup}

abbrev defaults : UserAttrs
defaults = some (("country", text "HU") ∷ [])

abbrev visitor : UserAttrs
visitor = some (("country", text "DE") ∷ ("age", int (pos 30)) ∷ [])

get_attribute-merge_user_attrs_example :
    get_attribute (merge_user_attrs defaults visitor) "country"
    ≡ or_else (get_attribute visitor "country") (get_attribute defaults "country")
unfolding lookup
get_attribute-merge_user_attrs_example =
    get_attribute-merge_user_attrs defaults visitor "country" (refl, tt) (refl, (refl, tt))

unmarshal_iff_example :
    ((attrs : UserAttrs) × (unmarshal (("age", raw_int (pos 30)) ∷ []) ≡ ok attrs))
    ↔ All {A = String × Raw} (λ kv. IsAccepted kv.1) (("age", raw_int (pos 30)) ∷ [])
unmarshal_iff_example = unmarshal_iff (("age", raw_int (pos 30)) ∷ [])
