-- ===== src/Registrar/Profile/Tests.antt =====
-- The theorems on the cached profile at a small body and ETag.
use configcat_proxy.Base.{
  pos, Result, ok, err, contains, String, ◌≡◌, refl, ◌↔◌, true, false, none, some, [], ◌∷◌, ◌++◌,
  string_eq, nat_eq,
}
use configcat_proxy.Model.{ProxyConfigModel}
use configcat_proxy.Registrar.Profile.{
  Bytes, cache_segments_from_bytes, Response, response, fetch_config, get_config,
}
use configcat_proxy.Registrar.Profile.Laws.{IsEntry, cache_segments_iff, get_config_written}

abbrev some_body : Bytes
some_body = 123 ∷ 125 ∷ []

abbrev some_etag : Bytes
some_etag = 34 ∷ 97 ∷ 34 ∷ []

abbrev no_model : Bytes → Result String ProxyConfigModel
no_model bytes =
    ok (record { sdks = []; options = record { poll_interval = pos 60; data_governance = "" } })

abbrev fresh : Response
fresh = response 200 some_etag (some some_body)

cache_segments_iff_example :
    (cache_segments_from_bytes (some_etag ++ (10 ∷ some_body)) ≡ ok (some_body, some_etag))
    ↔ IsEntry (some_etag ++ (10 ∷ some_body)) some_body some_etag
cache_segments_iff_example = cache_segments_iff (some_etag ++ (10 ∷ some_body)) some_body some_etag

get_config_written_example :
    (written : Bytes) × ((get_config no_model false [] (some (err "")) fresh).written
      ≡ some written)
    × (get_config no_model true [] (some (ok written)) fresh
        ≡ record (get_config no_model false [] (some (err "")) fresh) { written = none })
unfolding fetch_config contains
get_config_written_example =
    get_config_written no_model [] (some (err "")) fresh some_body some_etag (err "") refl refl refl
      (λ e. cc e) (λ e. cc e)
