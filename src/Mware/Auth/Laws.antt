-- ===== src/Mware/Auth/Laws.antt =====
-- Who passes the wrappers of web/mware.
use configcat_proxy.Base.{
  All, String, ◌≡◌, ◌≢◌, ◌↔◌, ◌⊎◌, Option, none, some, [], ◌∷◌, arith, eq_iff, string_eq,
}
use configcat_proxy.Base.Dict.{Dict}
use configcat_proxy.Mware.Auth.{unauthorized, passed, basic_auth, header_auth}

-- `BasicAuth` lets a request through exactly where it has credentials and they are the configured
-- ones, if the digest gives different texts different values; else it answers 401.
pub basic_auth_lem {ℓ} :
    {A : Type ℓ} (hash : String → String)
    → ((s t : String) → hash s ≡ hash t → s ≡ t)
    → (user pass : String) (credentials : Option (String × String)) (a : A)
    → ((basic_auth hash user pass credentials (passed a) ≡ passed a)
        ↔ (credentials ≡ some (user, pass)))
      × ((credentials ≢ some (user, pass))
          → basic_auth hash user pass credentials (passed a) ≡ unauthorized)
unfolding basic_auth
basic_auth_lem hash injective user pass none a = ground arith
basic_auth_lem hash injective user pass (some (u, p)) a = ground (
  arith,
  eq_iff (hash u) (hash user),
  eq_iff (hash p) (hash pass),
  injective u user,
  injective p pass,
)

-- `HeaderAuth` lets a request through exactly where every configured header has its value in the
-- request; else it answers 401.
pub header_auth_lem {ℓ} :
    {A : Type ℓ} (header : String → String) (auth_headers : Dict String String) (a : A)
    → ((header_auth header auth_headers (passed a) ≡ passed a)
        ↔ All (λ entry. header entry.0 ≡ entry.1) auth_headers)
      × ((header_auth header auth_headers (passed a) ≡ passed a)
          ⊎ (header_auth header auth_headers (passed a) ≡ unauthorized))
unfolding header_auth
header_auth_lem header [] a = ground arith
header_auth_lem header ((k, v) ∷ auth_headers) a =
    ground (arith, eq_iff (header k) v, header_auth_lem header auth_headers a)
