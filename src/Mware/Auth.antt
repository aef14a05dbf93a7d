-- ===== src/Mware/Auth.antt =====
-- web/mware/auth.go, headers.go and options.go. A wrapper gets what `next` answers, and answers
-- with it or with a status of its own; the digest is a parameter, and so is how the header of a
-- name is read. Go ranges over the map of headers in some order; the answer depends on none.
pub mod Laws
use configcat_proxy.Base.{
  ◌==◌, if◌then◌else◌, String, not, ◌||◌, Option, none, some, [], ◌∷◌, string_eq,
}
use configcat_proxy.Base.Dict.{Dict, insert}

pub data Reply {ℓ} (A : Type ℓ) : Type ℓ where
  unauthorized : Reply A
  no_content : Reply A
  passed : A → Reply A

-- `BasicAuth`; `credentials` is what `r.BasicAuth()` gives, none where it is missing.
unfoldable pub basic_auth {ℓ} :
    {A : Type ℓ}
    → (String → String)
    → String
    → String
    → Option (String × String)
    → Reply A
    → Reply A
basic_auth hash user pass none next = unauthorized
basic_auth hash user pass (some (username, password)) next =
    let user_match = hash username == hash user in
    let pass_match = hash password == hash pass in
    if not user_match || not pass_match then unauthorized else next

-- `HeaderAuth`.
pub header_auth {ℓ} : {A : Type ℓ} → (String → String) → Dict String String → Reply A → Reply A
header_auth header [] next = next
header_auth header ((k, v) ∷ auth_headers) next =
    if not (header k == v) then unauthorized else header_auth header auth_headers next

-- `AutoOptions`.
unfoldable pub auto_options {ℓ} : {A : Type ℓ} → String → Reply A → Reply A
auto_options method next = if method == "OPTIONS" then no_content else next

-- `ExtraHeaders`: the headers with which `next` starts.
pub extra_headers : Dict String String → Dict String String → Dict String String
extra_headers [] w = w
extra_headers ((k, v) ∷ headers) w = extra_headers headers (insert k v w)
