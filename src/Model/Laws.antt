-- ===== src/Model/Laws.antt =====
-- What merged user attributes contain, and which attributes are accepted.
use configcat_proxy.Base.{
  ok, >>=-eq-ok, All, String, ◌≡◌, refl, ◌↔◌, Option, none, some, [], ◌∷◌, arith, eq_iff, string_eq,
}
use configcat_proxy.Base.Dict.{Dict, lookup, insert, lookup-insert, IsMap}
use configcat_proxy.Model.{
  AttrValue, text, int, float, strings, UserAttrs, Raw, null, bool, raw_text, raw_int, raw_float,
  raw_uint, raw_time, arr, obj, string_elems, attr_value, unmarshal_from, unmarshal, copy,
  merge_user_attrs, get_attribute,
}

abbrev pub or_else {ℓ} : {A : Type ℓ} → Option A → Option A → Option A
or_else none b = b
or_else (some a) b = some a

pub lookup-copy {ℓ} :
    {V : Type ℓ} (dst src : Dict String V) (k : String)
    → IsMap src
    → lookup k (copy dst src) ≡ or_else (lookup k src) (lookup k dst)
unfolding copy lookup
lookup-copy dst [] k h = refl
lookup-copy dst ((j, v) ∷ src) k (fresh, h) =
    ground (arith, eq_iff j k, lookup-copy (insert j v dst) src k h, lookup-insert j k v dst)

abbrev pub IsAttrs : UserAttrs → Type 0
IsAttrs none = Unit
IsAttrs (some m) = IsMap m

-- `MergeUserAttrs(first, second)` has, at every attribute, the value of `second` where it has one,
-- and the value of `first` elsewhere, for maps in which no key stands twice; this also where one of
-- them or both are nil.
pub get_attribute-merge_user_attrs :
    (first second : UserAttrs) (attr : String)
    → IsAttrs first
    → IsAttrs second
    → get_attribute (merge_user_attrs first second) attr
      ≡ or_else (get_attribute second attr) (get_attribute first attr)
unfolding get_attribute merge_user_attrs lookup
get_attribute-merge_user_attrs none none attr h k = refl
get_attribute-merge_user_attrs none (some b) attr h k = ground arith
get_attribute-merge_user_attrs (some a) none attr h k = refl
get_attribute-merge_user_attrs (some a) (some b) attr h k =
    ground (arith, lookup-copy (copy [] a) b attr k, lookup-copy [] a attr h)

-- A decoded value that the attributes may have: a text, an `int`, a `float64`, or a list.
abbrev pub IsAccepted : Raw → Type 0
IsAccepted null = ⊥
IsAccepted (bool b) = ⊥
IsAccepted (obj fs) = ⊥
IsAccepted (raw_uint n) = ⊥
IsAccepted (raw_time t) = ⊥
IsAccepted (raw_text s) = Unit
IsAccepted (raw_int n) = Unit
IsAccepted (raw_float x) = Unit
IsAccepted (arr vs) = Unit

attr_value_accepts :
    (k : String) (v : Raw) → ((a : AttrValue) × (attr_value k v ≡ ok a)) ↔ IsAccepted v
unfolding attr_value
attr_value_accepts k null = (λ p. cc p.1, λ h. absurd h)
attr_value_accepts k (bool b) = (λ p. cc p.1, λ h. absurd h)
attr_value_accepts k (obj fs) = (λ p. cc p.1, λ h. absurd h)
attr_value_accepts k (raw_uint n) = (λ p. cc p.1, λ h. absurd h)
attr_value_accepts k (raw_time t) = (λ p. cc p.1, λ h. absurd h)
attr_value_accepts k (raw_text s) = (λ _. tt, λ _. (text s, refl))
attr_value_accepts k (raw_int n) = (λ _. tt, λ _. (int n, refl))
attr_value_accepts k (raw_float x) = (λ _. tt, λ _. (float x, refl))
attr_value_accepts k (arr vs) = (λ _. tt, λ _. (strings (string_elems vs), refl))

unmarshal_from_ok :
    (attrs : Dict String AttrValue) (entries : Dict String Raw)
    → All (λ kv. IsAccepted kv.1) entries
    → (res : Dict String AttrValue) × (unmarshal_from attrs entries ≡ ok res)
unfolding unmarshal_from
unmarshal_from_ok attrs [] h = (attrs, refl)
unmarshal_from_ok attrs ((k, v) ∷ entries) (p, h) =
    let (a, e) = (attr_value_accepts k v).1 p in
    rw (e, unmarshal_from) (unmarshal_from_ok (insert k a attrs) entries h)

unmarshal_from_accepts :
    (attrs res : Dict String AttrValue) (entries : Dict String Raw)
    → unmarshal_from attrs entries ≡ ok res
    → All (λ kv. IsAccepted kv.1) entries
unfolding unmarshal_from
unmarshal_from_accepts attrs res [] h = tt
unmarshal_from_accepts attrs res ((k, v) ∷ entries) h =
    let (a, e, rest) = >>=-eq-ok (attr_value k v) _ h in
    ((attr_value_accepts k v).0 (a, e), unmarshal_from_accepts (insert k a attrs) res entries rest)

-- Accepting the decoded user attributes succeeds exactly when every value was decoded to a text, an
-- `int`, a `float64` or a list; so null, a Boolean, an object, a `uint64` and a `time.Time` fail.
pub unmarshal_iff :
    (entries : Dict String Raw)
    → ((attrs : UserAttrs) × (unmarshal entries ≡ ok attrs)) ↔ All (λ kv. IsAccepted kv.1) entries
unfolding unmarshal
unmarshal_iff entries = (
  λ p.
      let (m, e, _) = >>=-eq-ok (unmarshal_from [] entries) _ p.1 in
      unmarshal_from_accepts [] m entries e,
  λ h. let (m, e) = unmarshal_from_ok [] entries h in (some m, rw e),
)
