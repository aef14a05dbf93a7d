-- ===== src/Registrar/Profile.antt =====
-- `getConfig` of sdk/sdk_auto_registrar.go: where the profile comes from. Bytes and Go strings of
-- bytes are lists of numbers; a nil slice is the empty list. The cache's answer, the HTTP response
-- and `json.Unmarshal` are arguments; logging and tracing are left out.
pub mod Laws
mod Tests
use configcat_proxy.Base.{
  ◌==◌, if◌then◌else◌, is_some, Result, ok, err, ℕ, String, Bool, true, false, not, ◌&&◌, Option,
  none, some, List, [], ◌∷◌, ◌++◌, nat_eq,
}
use configcat_proxy.Model.{ProxyConfigModel}

abbrev pub Bytes : Type 0
Bytes = List ℕ

abbrev pub new_line : ℕ
new_line = 10

-- `bytes.IndexByte` with the two slices around the index.
split_line : Bytes → Option (Bytes × Bytes)
split_line [] = none
split_line (b ∷ bs) = elim (b == new_line) [
  | true ↦ some ([], bs)
  | false ↦ elim (split_line bs) [ none ↦ none | some (line, rest) ↦ some (b ∷ line, rest) ]
]

-- Why a profile could not be had.
pub data ProfileError : Type 0 where
  too_few_segments empty_etag empty_json : ProfileError
  no_cache empty_cache : ProfileError
  cache_failed : String → ProfileError
  bad_request : ProfileError
  unexpected_status : ℕ → ProfileError
  body_failed : ProfileError
  bad_profile : String → ProfileError

-- The checks on the two segments.
segments : Bytes → Bytes → Result ProfileError (Bytes × Bytes)
segments [] config = err empty_etag
segments (e ∷ etag) [] = err empty_json
segments (e ∷ etag) (c ∷ config) = ok (c ∷ config, e ∷ etag)

-- The configuration and the ETag.
pub cache_segments_from_bytes : Bytes → Result ProfileError (Bytes × Bytes)
unfolding split_line segments
cache_segments_from_bytes cache_bytes = elim (split_line cache_bytes) [
  | none ↦ err too_few_segments
  | some (etag, config) ↦ segments etag config
]

pub cache_segments_to_bytes : Bytes → Bytes → Bytes
cache_segments_to_bytes etag config = etag ++ (new_line ∷ config)

-- `readCache`: the configuration, the ETag and the error. `cache` is none when none is configured.
pub record Cached : Type 0 where
  pub config : Bytes
  pub etag : Bytes
  pub error : Option ProfileError

abbrev segments_or_error : Result ProfileError (Bytes × Bytes) → Cached
segments_or_error (ok (config, etag)) = record { config = config; etag = etag; error = none }
segments_or_error (err e) = record { config = []; etag = []; error = some e }

unfoldable pub read_cache : Bytes → Option (Result String Bytes) → Cached
unfolding cache_segments_from_bytes
read_cache own_etag none = record { config = []; etag = own_etag; error = some no_cache }
read_cache own_etag (some (err e)) = record {
  config = [];
  etag = own_etag;
  error = some (cache_failed e);
}
read_cache own_etag (some (ok [])) = record { config = []; etag = []; error = some empty_cache }
read_cache own_etag (some (ok (b ∷ bs))) = segments_or_error (cache_segments_from_bytes (b ∷ bs))

-- What `httpClient.Do` returns.
pub data Response : Type 0 where
  transport_error : Response
  response : (status : ℕ) (etag : Bytes) (body : Option Bytes) → Response

pub data Fetched : Type 0 where
  failed : ProfileError → Fetched
  not_modified : Fetched
  fetched : Bytes → Bytes → Fetched

-- `strings.HasPrefix(etag, "W/")` and the cut.
unfoldable pub strong_etag : Bytes → Bytes
strong_etag (w ∷ (s ∷ etag)) = if w == 87 && s == 47 then etag else w ∷ (s ∷ etag)
strong_etag etag = etag

unfoldable pub fetch_config : Response → Fetched
unfolding strong_etag
fetch_config transport_error = failed bad_request
fetch_config (response status etag body) =
    if status == 304
    then not_modified
    else if not (status == 200)
    then failed (unexpected_status status)
    else elim body [ none ↦ failed body_failed | some bytes ↦ fetched bytes (strong_etag etag) ]

unfoldable pub bytes_beq : Bytes → Bytes → Bool
bytes_beq [] [] = true
bytes_beq [] (c ∷ cs) = false
bytes_beq (b ∷ bs) [] = false
bytes_beq (b ∷ bs) (c ∷ cs) = b == c && bytes_beq bs cs

-- What `getConfig` returns, with the registrar's ETag after it and the value written to the cache.
pub record Outcome : Type 0 where
  pub profile : Result ProfileError (Option ProxyConfigModel)
  pub etag : Bytes
  pub written : Option Bytes

module _ (decode : Bytes → Result String ProxyConfigModel) where
  -- `parseConfig`; no profile means that it is the one in use.
  unfoldable pub parse_config : Bytes → Bytes → Bytes → Outcome
  unfolding bytes_beq
  parse_config own_etag body etag =
      if bytes_beq etag own_etag
      then record { profile = ok none; etag = own_etag; written = none }
      else elim (decode body) [
        | err e ↦ record { profile = err (bad_profile e); etag = own_etag; written = none }
        | ok parsed ↦ record { profile = ok (some parsed); etag = etag; written = none }
      ]

  -- The cache alone: the offline mode, and the fallback.
  pub from_cache : Bytes → Cached → Outcome
  unfolding parse_config
  from_cache own_etag cached = elim cached.error [
    | some e ↦ record { profile = err e; etag = own_etag; written = none }
    | none ↦ parse_config own_etag cached.config cached.etag
  ]

  -- `getConfig`. `written` is what `writeCache` hands to a configured cache.
  unfoldable pub get_config : Bool → Bytes → Option (Result String Bytes) → Response → Outcome
  unfolding from_cache read_cache fetch_config
  get_config offline own_etag cache answer =
      let cached = read_cache own_etag cache in
      if offline then from_cache own_etag cached else elim (fetch_config answer) [
        | failed e ↦ from_cache own_etag cached
        | not_modified ↦ parse_config own_etag cached.config cached.etag
        | fetched body etag ↦
            let outcome = parse_config own_etag body etag in
            record outcome {
              written = if is_some cache then some (cache_segments_to_bytes etag body) else none;
            }
      ]
