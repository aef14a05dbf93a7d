-- ===== src/Model/Discriminator/Tests.antt =====
-- The theorems on the discriminator at two attributes.
use configcat_proxy.Base.{◌==◌, if◌then◌else◌, String, ◌≡◌, refl, some, [], ◌∷◌, string_eq}
use configcat_proxy.Base.Dict.{Dict}
use configcat_proxy.Model.{AttrValue, text, strings}
use configcat_proxy.Model.Discriminator.{Hash, discriminator}
use configcat_proxy.Model.Discriminator.Laws.{discriminator-Perm, discriminator-strings}
use mathlib.Core.List.{Permᴰ}

abbrev some_hash : Hash
some_hash = record {
  sum64 = λ s. if s == "" then 1 else 2;
  format_int = λ n. "1";
  format_float = λ x. "1";
}

abbrev some_attrs : Dict String AttrValue
some_attrs = ("Email", text "a") ∷ ("Roles", strings ("admin" ∷ [])) ∷ []

discriminator-Perm_example :
    discriminator some_hash (some some_attrs)
    ≡ discriminator some_hash (some (("Roles", strings ("admin" ∷ [])) ∷ ("Email", text "a") ∷ []))
discriminator-Perm_example =
    discriminator-Perm some_hash some_attrs
      (("Roles", strings ("admin" ∷ [])) ∷ ("Email", text "a") ∷ []) (Permᴰ.swap refl refl)

discriminator-strings_example :
    discriminator some_hash (some some_attrs)
    ≡ discriminator some_hash (some (("Email", text "a") ∷ ("Roles", strings []) ∷ []))
discriminator-strings_example =
    discriminator-strings some_hash "Roles" ("admin" ∷ []) [] (("Email", text "a") ∷ []) []
