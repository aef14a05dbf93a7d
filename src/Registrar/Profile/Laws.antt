-- ===== src/Registrar/Profile/Laws.antt =====
-- The cached form of a profile, and which source `getConfig` uses.
use configcat_proxy.Base.{
  ◌==◌, nat_eq, Bool-cases, Option-cases, Result, ok, contains, String, ◌≡◌, refl, ◌≢◌, ◌↔◌, ◌⊎◌,
  inl, inr, Bool, true, false, Option, none, some, [], ◌∷◌, ◌++◌, arith,
}
use configcat_proxy.Model.{ProxyConfigModel}
use configcat_proxy.Registrar.Profile.{
  Bytes, new_line, split_line, ProfileError, segments, cache_segments_from_bytes,
  cache_segments_to_bytes, read_cache, Response, failed, fetched, fetch_config, parse_config,
  from_cache, get_config,
}

abbrev pub IsLine : Bytes → Type 0
IsLine bs = contains bs new_line ≡ false

split_line-append :
    (line rest : Bytes) → IsLine line → split_line (line ++ (new_line ∷ rest)) ≡ some (line, rest)
unfolding split_line contains
split_line-append [] rest h = refl
split_line-append (b ∷ line) rest h =
    ground
      (arith, nat_eq.beq_iff b new_line, nat_eq.beq_iff new_line b, split_line-append line rest)

split_line_inv :
    (bs line rest : Bytes)
    → split_line bs ≡ some (line, rest)
    → (bs ≡ line ++ (new_line ∷ rest)) × IsLine line
unfolding split_line contains
split_line_inv [] line rest h = cc
split_line_inv (b ∷ bs) line rest h = elim (Bool-cases (b == new_line)) [
  | inl at_end ↦ ground (arith, nat_eq.beq_iff b new_line)
  | inr inside ↦ elim (Option-cases (split_line bs)) [
    | inl missing ↦ ground arith
    | inr ((l, r), e) ↦
        ground
          (arith, split_line_inv bs l r e, nat_eq.beq_iff b new_line, nat_eq.beq_iff new_line b)
  ]
]

-- A cached profile that is read back as this configuration and ETag.
pub record IsEntry (bytes config etag : Bytes) : Type 0 where
  pub layout : bytes ≡ cache_segments_to_bytes etag config
  pub line : IsLine etag
  pub has_etag : etag ≢ []
  pub has_config : config ≢ []

-- Reading a cached profile succeeds with a configuration and an ETag exactly when the bytes are the
-- cached form of the two, the ETag has no newline, and neither is empty: reading and writing the
-- cached form are inverse to one another.
pub cache_segments_iff :
    (bytes config etag : Bytes)
    → (cache_segments_from_bytes bytes ≡ ok (config, etag)) ↔ IsEntry bytes config etag
unfolding cache_segments_from_bytes cache_segments_to_bytes segments
cache_segments_iff bytes config etag = (read, written)
  where
    read : cache_segments_from_bytes bytes ≡ ok (config, etag) → IsEntry bytes config etag
    read h = elim (Option-cases (split_line bytes)) [
      | inl missing ↦ ground arith
      | inr ((l, r), e) ↦ ground (arith, split_line_inv bytes l r e)
    ]

    written : IsEntry bytes config etag → cache_segments_from_bytes bytes ≡ ok (config, etag)
    written v = ground (arith, split_line-append etag config v.line)

module _ (decode : Bytes → Result String ProxyConfigModel) (own_etag : Bytes)
    (cache : Option (Result String Bytes)) where
  -- Offline, and online when the fetch fails, the profile comes from the cache alone: the response
  -- does not matter, and nothing is written.
  pub get_config-from_cache :
      (offline : Bool) (answer : Response) (e : ProfileError)
      → (offline ≡ true) ⊎ (fetch_config answer ≡ failed e)
      → (get_config decode offline own_etag cache answer
          ≡ from_cache decode own_etag (read_cache own_etag cache))
        × ((get_config decode offline own_etag cache answer).written ≡ none)
  unfolding get_config from_cache parse_config
  get_config-from_cache offline answer e h = ground arith

  -- What an online fetch writes to the cache is read back as the same body and ETag.
  read_cache_of_segments :
      (body etag : Bytes)
      → IsLine etag
      → etag ≢ []
      → body ≢ []
      → read_cache own_etag (some (ok (cache_segments_to_bytes etag body)))
        ≡ record { config = body; etag = etag; error = none }
  unfolding read_cache
  read_cache_of_segments body [] line filled has = absurd (filled refl)
  read_cache_of_segments body (e ∷ es) line filled has =
      let read =
        (cache_segments_iff (cache_segments_to_bytes (e ∷ es) body) body (e ∷ es)).1
          (record { layout = refl; line = line; has_etag = filled; has_config = has }) in
      unfold cache_segments_to_bytes in rw read

  -- After a fetch with a configured cache the written value serves the offline mode: `getConfig`
  -- returns from it the profile and the ETag that the fetch returned, if the ETag and the body are
  -- not empty and the ETag has no newline.
  pub get_config_written :
      (answer : Response) (body etag : Bytes) (reply : Result String Bytes)
      → fetch_config answer ≡ fetched body etag
      → cache ≡ some reply
      → IsLine etag
      → etag ≢ []
      → body ≢ []
      → (written : Bytes) × ((get_config decode false own_etag cache answer).written ≡ some written)
        × (get_config decode true own_etag (some (ok written)) answer
            ≡ record (get_config decode false own_etag cache answer) { written = none })
  unfolding get_config from_cache parse_config
  get_config_written answer body etag reply e configured line filled has =
      let read = read_cache_of_segments body etag line filled has in
      (cache_segments_to_bytes etag body, ground arith, ground (arith, read))
