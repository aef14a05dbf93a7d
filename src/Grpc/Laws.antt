-- ===== src/Grpc/Laws.antt =====
-- Which values a gRPC response can carry.
use configcat_proxy.Base.{
  ℤ, pos, negsuc, ℕ, ◌-◌, ◌%◌, ◌<◌, ◌≡◌, refl, ap, ◌↔◌, Option, none, some, arith, string_eq,
}
use configcat_proxy.Model.{
  Value, nil_value, bool_value, int_value, double_value, string_value, ResponsePayload,
}
use configcat_proxy.Grpc.{
  ProtoValue, proto_bool, proto_int, proto_double, proto_string, to_int32, proto_value_of,
  to_payload,
}

-- -2^31 ≤ n < 2^31.
abbrev pub IsInt32 : ℤ → Type 0
IsInt32 (pos n) = n < 2147483648
IsInt32 (negsuc n) = n < 2147483648

to_int32-IsInt32 : (n : ℤ) → IsInt32 (to_int32 n)
unfolding to_int32
to_int32-IsInt32 (pos n) = ground arith
to_int32-IsInt32 (negsuc n) = ground arith

to_int32-eq_iff : (n : ℤ) → (to_int32 n ≡ n) ↔ IsInt32 n
unfolding to_int32
to_int32-eq_iff (pos n) = ground arith
to_int32-eq_iff (negsuc n) = ground arith

-- The low 32 bits of a number in two's complement.
abbrev pub low_bits : ℤ → ℕ
low_bits (pos n) = n % 4294967296
low_bits (negsuc n) = 4294967295 - n % 4294967296

low_bits-to_int32 : (n : ℤ) → low_bits (to_int32 n) ≡ low_bits n
unfolding to_int32
low_bits-to_int32 (pos n) = ground arith
low_bits-to_int32 (negsuc n) = ground arith

-- What a client reads in a response.
pub value_of : Option ProtoValue → Value
value_of none = nil_value
value_of (some (proto_bool b)) = bool_value b
value_of (some (proto_int n)) = int_value n
value_of (some (proto_double x)) = double_value x
value_of (some (proto_string s)) = string_value s

abbrev pub Fits : Value → Type 0
Fits (int_value n) = IsInt32 n
Fits _ = Unit

-- `w` is `v`, or wrapped around from it: a number with the same low 32 bits.
abbrev pub IsWrapped : Value → Value → Type 0
IsWrapped (int_value n) w = (m : ℤ) × (w ≡ int_value m) × (low_bits m ≡ low_bits n)
IsWrapped v w = w ≡ v

proto_value_of-Fits :
    (v : Value)
    → ((value_of (proto_value_of v) ≡ v) ↔ Fits v)
      × Fits (value_of (proto_value_of v))
      × IsWrapped v (value_of (proto_value_of v))
unfolding proto_value_of value_of
proto_value_of-Fits nil_value = ((λ h. tt, λ h. refl), tt, refl)
proto_value_of-Fits (bool_value b) = ((λ h. tt, λ h. refl), tt, refl)
proto_value_of-Fits (int_value n) =
    let (fits, kept) = to_int32-eq_iff n in
    (
      (λ h. fits (ground (arith, h)), λ h. ap int_value (kept h)),
      to_int32-IsInt32 n,
      (to_int32 n, refl, low_bits-to_int32 n),
    )
proto_value_of-Fits (double_value x) = ((λ h. tt, λ h. refl), tt, refl)
proto_value_of-Fits (string_value s) = ((λ h. tt, λ h. refl), tt, refl)

-- A gRPC response carries the value of the payload, and its variation, exactly when the value is
-- not a whole number outside of the 32-bit range; such a number is wrapped around into the range,
-- to the one with the same low 32 bits.
pub value_of-to_payload :
    (resp : ResponsePayload)
    → ((value_of (to_payload resp).value ≡ resp.value) ↔ Fits resp.value)
      × Fits (value_of (to_payload resp).value)
      × IsWrapped resp.value (value_of (to_payload resp).value)
      × ((to_payload resp).variation_id ≡ resp.variation_id)
unfolding to_payload proto_value_of value_of
value_of-to_payload resp =
    let (same, fits, wrapped) = proto_value_of-Fits resp.value in (same, fits, wrapped, refl)
