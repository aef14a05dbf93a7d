-- ===== src/Model.antt =====
-- The package model: user attributes, evaluation results and the proxy profile
-- (model/user_attrs.go, model/eval.go, model/auto_config.go). A `float64` is kept as its 64 bits. A
-- Go map that may be nil is an `Option` of a dictionary.
pub mod Laws
pub mod Discriminator
mod Tests
use configcat_proxy.Base.{
  ℤ, Result, ok, err, ℕ, String, Bool, Option, none, some, List, [], ◌∷◌, string_eq, ◌>>=◌,
}
use configcat_proxy.Base.Dict.{Dict, lookup, insert}

pub data AttrValue : Type 0 where
  text : String → AttrValue
  int : ℤ → AttrValue
  float : ℕ → AttrValue
  strings : List String → AttrValue
  time : ℤ → AttrValue

abbrev pub UserAttrs : Type 0
UserAttrs = Option (Dict String AttrValue)

-- What `json.Unmarshal` and the YAML decoder put into a `map[string]interface{}`. A `raw_int` is an
-- `int`; a whole number of YAML above its range is a `uint64`, and a date a `time.Time`.
mutual
  pub data Raw : Type 0 where
    null : Raw
    bool : Bool → Raw
    raw_text : String → Raw
    raw_int : ℤ → Raw
    raw_float : ℕ → Raw
    raw_uint : ℕ → Raw
    raw_time : ℤ → Raw
    arr : Raws → Raw
    obj : RawFields → Raw

  pub data Raws : Type 0 where
    nil : Raws
    cons : Raw → Raws → Raws

  pub data RawFields : Type 0 where
    end : RawFields
    field : String → Raw → RawFields → RawFields

-- The inner loop of `unmarshalFrom`: the elements that are strings.
pub string_elems : Raws → List String
string_elems nil = []
string_elems (cons (raw_text s) vs) = s ∷ string_elems vs
string_elems (cons _ vs) = string_elems vs

-- One case of the type switch; an error names the key.
pub attr_value : String → Raw → Result String AttrValue
unfolding string_elems
attr_value k (arr val) = ok (strings (string_elems val))
attr_value k (raw_text s) = ok (text s)
attr_value k (raw_int n) = ok (int n)
attr_value k (raw_float x) = ok (float x)
attr_value k _ = err k

pub unmarshal_from : Dict String AttrValue → Dict String Raw → Result String (Dict String AttrValue)
unfolding attr_value
unmarshal_from attrs [] = ok attrs
unmarshal_from attrs ((k, v) ∷ entries) = do
  val ← attr_value k v
  unmarshal_from (insert k val attrs) entries

-- `UnmarshalJSON` and `UnmarshalYAML` after the decoding, which starts from an empty map.
unfoldable pub unmarshal : Dict String Raw → Result String UserAttrs
unfolding unmarshal_from
unmarshal entries = do attrs ← unmarshal_from [] entries; ok (some attrs)

-- `maps.Copy(dst, src)`.
unfoldable pub copy {ℓ} : {V : Type ℓ} → Dict String V → Dict String V → Dict String V
copy dst [] = dst
copy dst ((k, v) ∷ src) = copy (insert k v dst) src

unfoldable pub merge_user_attrs : UserAttrs → UserAttrs → UserAttrs
unfolding copy
merge_user_attrs none none = none
merge_user_attrs none (some second) = some second
merge_user_attrs (some first) none = some first
merge_user_attrs (some first) (some second) = some (copy (copy [] first) second)

-- `attrs[attr]`: nil on a missing key.
pub get_attribute : UserAttrs → String → Option AttrValue
get_attribute none attr = none
get_attribute (some attrs) attr = lookup attr attrs

-- `error` values of an evaluation: the SDK's ErrKeyNotFound, or any other.
pub data EvalError : Type 0 where
  key_not_found : EvalError
  other_error : String → EvalError

-- The `interface{}` of a flag's value: what the four setting types decode to.
pub data Value : Type 0 where
  nil_value : Value
  bool_value : Bool → Value
  int_value : ℤ → Value
  double_value : ℕ → Value
  string_value : String → Value

pub record EvalData : Type 0 where
  pub value : Value
  pub variation_id : String
  pub error : Option EvalError
  pub user : UserAttrs
  pub is_targeting : Bool

pub record ResponsePayload : Type 0 where
  pub value : Value
  pub variation_id : String

unfoldable pub payload_from_eval_data : EvalData → ResponsePayload
payload_from_eval_data eval_data = record {
  value = eval_data.value;
  variation_id = eval_data.variation_id;
}

pub record SdkConfigModel : Type 0 where
  pub key1 : String
  pub key2 : String

pub record OptionsModel : Type 0 where
  pub poll_interval : ℤ
  pub data_governance : String

pub record ProxyConfigModel : Type 0 where
  pub sdks : Dict String SdkConfigModel
  pub options : OptionsModel
