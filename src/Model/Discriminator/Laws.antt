-- ===== src/Model/Discriminator/Laws.antt =====
-- What the discriminator depends on.
use configcat_proxy.Base.{
  ℕ, zero, suc, ◌+◌, ◌*◌, ◌/◌, ◌%◌, ◌<◌, String, ◌≡◌, refl, ap, ◌∙◌, some, List, [], ◌∷◌, ◌++◌,
  arith, string_eq,
}
use configcat_proxy.Model.{AttrValue, strings}
use mathlib.Core.List.{Permᴰ}
use configcat_proxy.Model.Discriminator.{Hash, xor, written, mix, mix_all, discriminator}
use configcat_proxy.Base.Dict.{Dict}

-- The parity and the half of a number that is written as a bit and the rest.
bit_parts : (r p : ℕ) → r < 2 → ((r + 2 * p) % 2 ≡ r) × ((r + 2 * p) / 2 ≡ p)
bit_parts r p h = (omega (arith, h), omega (arith, h))

parity : (c a b : ℕ) → ((c + a) % 2 + b) % 2 ≡ ((c + b) % 2 + a) % 2
parity c a b = omega arith

xor_swap : (bits c a b : ℕ) → xor bits (xor bits c a) b ≡ xor bits (xor bits c b) a
unfolding xor
xor_swap zero c a b = refl
xor_swap (suc bits) c a b =
    let (ca_bit, ca_rest) =
      bit_parts ((c % 2 + a % 2) % 2) (xor bits (c / 2) (a / 2)) (omega arith) in
    let (cb_bit, cb_rest) =
      bit_parts ((c % 2 + b % 2) % 2) (xor bits (c / 2) (b / 2)) (omega arith) in
    rw
      (
        ca_bit,
        ca_rest,
        cb_bit,
        cb_rest,
        xor_swap bits (c / 2) (a / 2) (b / 2),
        parity (c % 2) (a % 2) (b % 2),
      )
      refl

mix_swap :
    (h : Hash) (e f : String × AttrValue) (curr : ℕ)
    → mix h f (mix h e curr) ≡ mix h e (mix h f curr)
unfolding mix
mix_swap h (k, v) (j, w) curr = xor_swap 64 curr _ _

mix_all-Perm :
    (h : Hash) {xs ys : Dict String AttrValue}
    → Permᴰ xs ys
    → (curr : ℕ) → mix_all h xs curr ≡ mix_all h ys curr
unfolding mix_all
mix_all-Perm h Permᴰ.nil curr = refl
mix_all-Perm h (Permᴰ.cons {b = f} {l₁ = xs} same p) curr =
    ap (λ e. mix_all h xs (mix h e curr)) same ∙ mix_all-Perm h p (mix h f curr)
mix_all-Perm h (Permᴰ.swap {a = e} {b = f} {b' = e'} {l = xs} first second) curr =
    ap (mix_all h xs) (mix_swap h e f curr)
    ∙ ap (λ d. mix_all h xs (mix h d (mix h f curr))) first
    ∙ ap (λ g. mix_all h xs (mix h e' (mix h g curr))) second
mix_all-Perm h (Permᴰ.trans p q) curr = mix_all-Perm h p curr ∙ mix_all-Perm h q curr

-- The order in which Go ranges over the attributes does not matter to the discriminator.
pub discriminator-Perm :
    (h : Hash) (xs ys : Dict String AttrValue)
    → Permᴰ xs ys
    → discriminator h (some xs) ≡ discriminator h (some ys)
unfolding discriminator
discriminator-Perm h xs ys p = mix_all-Perm h p 0

mix_all-strings :
    (h : Hash) (k : String) (xs ys : List String) (before after : Dict String AttrValue) (curr : ℕ)
    → mix_all h (before ++ (k, strings xs) ∷ after) curr
      ≡ mix_all h (before ++ (k, strings ys) ∷ after) curr
unfolding mix_all mix written
mix_all-strings h k xs ys [] after curr = refl
mix_all-strings h k xs ys (entry ∷ before) after curr =
    mix_all-strings h k xs ys before after (mix h entry curr)

-- The elements of list attributes do not matter to the discriminator: users that differ in these
-- alone have the same one, whatever the hash is.
pub discriminator-strings :
    (h : Hash) (k : String) (xs ys : List String) (before after : Dict String AttrValue)
    → discriminator h (some (before ++ (k, strings xs) ∷ after))
      ≡ discriminator h (some (before ++ (k, strings ys) ∷ after))
unfolding discriminator
discriminator-strings h k xs ys before after = mix_all-strings h k xs ys before after 0
