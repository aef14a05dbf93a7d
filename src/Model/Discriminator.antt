-- ===== src/Model/Discriminator.antt =====
-- UserAttrs.Discriminator of model/user_attrs.go: the number by which a stream tells users apart.
-- Go ranges over the map in any order; the model takes the order of the list. The seeded hash of a
-- text and the two formatting functions of strconv are parameters.
pub mod Laws
mod Tests
use configcat_proxy.Base.{
  ℤ, ℕ, zero, suc, ◌+◌, ◌*◌, ◌/◌, ◌%◌, ◌^◌, String, none, some, [], ◌∷◌, string_eq,
}
use configcat_proxy.Base.Dict.{Dict}
use configcat_proxy.Model.{AttrValue, text, int, float, strings, time, UserAttrs}

-- `h.Sum64()` after the writing of a text, and the texts of numbers.
pub record Hash : Type 0 where
  pub sum64 : String → ℕ
  pub format_int : ℤ → String
  pub format_float : ℕ → String

-- The exclusive or of the lowest `bits` bits.
pub xor : ℕ → ℕ → ℕ → ℕ
xor zero a b = 0
xor (suc bits) a b = (a % 2 + b % 2) % 2 + 2 * xor bits (a / 2) (b / 2)

-- The type switch: what is written for a value. Its case for lists is `[]interface{}`, while
-- decoded attributes hold `[]string`, so nothing is written for a list.
pub written : Hash → AttrValue → String
written h (text val) = val
written h (int val) = h.format_int val
written h (float val) = h.format_float val
written h (strings val) = ""
written h (time val) = ""

-- One round: `curr ^= h.Sum64() + 0x9e3779b97f4a7c15 + (hk << 12) + (hk >> 4)`.
pub mix : Hash → String × AttrValue → ℕ → ℕ
unfolding xor written
mix h (k, v) curr =
    let hk = h.sum64 k in
    xor 64 curr
      ((h.sum64 (written h v) + 11400714819323198485 + hk * 4096 % (2 ^ 64) + hk / 16) % (2 ^ 64))

pub mix_all : Hash → Dict String AttrValue → ℕ → ℕ
unfolding mix
mix_all h [] curr = curr
mix_all h (entry ∷ attrs) curr = mix_all h attrs (mix h entry curr)

pub discriminator : Hash → UserAttrs → ℕ
unfolding mix_all
discriminator h none = 0
discriminator h (some attrs) = mix_all h attrs 0
