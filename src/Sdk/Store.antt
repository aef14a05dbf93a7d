-- ===== src/Sdk/Store.antt =====
-- sdk/store: the configuration that a client serves, and where it is read from. The functions of
-- the ConfigCat SDK, the JSON of a configuration and the digest are parameters. A step gets what
-- the external cache answers; what goes to the status reporter is a list.
pub mod Laws
use configcat_proxy.Base.{
  ◌==◌, if◌then◌else◌, ℤ, Result, ok, err, String, Bool, true, false, Option, none, some, List, [],
  ◌∷◌, ◌++◌, string_eq,
}

pub record EntryWithEtag : Type 0 where
  pub config_json : String
  pub e_tag : String
  pub fetch_time : ℤ
  pub empty : Bool

-- `CacheSegmentsFromBytes`, `CacheSegmentsToBytes`, `json.Unmarshal` into a `ConfigJson`,
-- `json.Marshal` of one, and `utils.GenerateEtag`.
pub record Format (Bytes ConfigJson : Type 0) : Type 0 where
  pub segments_from_bytes : Bytes → Result String (ℤ × (String × String))
  pub segments_to_bytes : ℤ → String → String → Bytes
  pub unmarshal : String → Result String ConfigJson
  pub marshal : ConfigJson → String
  pub empty_config : ConfigJson
  pub generate_etag : String → String
  pub zero_time : ℤ

-- `ReportOk` and `ReportError`.
pub data Report : Type 0 where
  report_ok report_error : String → String → Report

abbrev pub cache_component : String
cache_component = "cache"

abbrev entry_with_etag : String → ℤ → String → Bool → EntryWithEtag
entry_with_etag config_json fetch_time e_tag empty = record {
  config_json = config_json;
  e_tag = e_tag;
  fetch_time = fetch_time;
  empty = empty;
}

module _ {Bytes ConfigJson : Type 0} (format : Format Bytes ConfigJson) where
  unfoldable pub new_entry_store : EntryWithEtag
  new_entry_store =
      let initial = format.marshal format.empty_config in
      entry_with_etag initial format.zero_time (format.generate_etag initial) true

  pub compose_bytes : EntryWithEtag → Bytes
  compose_bytes entry = format.segments_to_bytes entry.fetch_time entry.e_tag entry.config_json

  -- `StoreEntry`: what the store holds afterwards.
  unfoldable pub store_entry : String → ℤ → String → EntryWithEtag
  store_entry config_json fetch_time e_tag = entry_with_etag config_json fetch_time e_tag false

  -- `cacheStore.Get`, on the answer of the external cache.
  pub cache_get : Result String Bytes → Result String Bytes × List Report
  cache_get (err e) = (err e, report_error cache_component "cache read failed" ∷ [])
  cache_get (ok b) = (ok b, report_ok cache_component "cache read succeeded" ∷ [])

  -- `cacheStore.Set`; `answer` is that of the external cache to the value.
  pub cache_set :
      Option String → Bytes → EntryWithEtag → EntryWithEtag × (Option String × List Report)
  unfolding store_entry
  cache_set answer value entry = elim (format.segments_from_bytes value) [
    | err e ↦ (entry, (some e, report_error cache_component "cache write failed" ∷ []))
    | ok (fetch_time, (etag, config_json)) ↦
        let stored = store_entry config_json fetch_time etag in
        elim answer [
          | some e ↦ (stored, (some e, report_error cache_component "cache write failed" ∷ []))
          | none ↦ (stored, (none, report_ok cache_component "cache write succeeded" ∷ []))
        ]
  ]

  -- `inMemoryStore`: what is not recognised is stored as the zero values that come with the error.
  pub memory_get : EntryWithEtag → Result String Bytes
  unfolding compose_bytes
  memory_get entry = if entry.empty then err "no entry in cache" else ok (compose_bytes entry)

  pub memory_set : Bytes → EntryWithEtag
  unfolding store_entry
  memory_set value = elim (format.segments_from_bytes value) [
    | err e ↦ store_entry "" format.zero_time ""
    | ok (fetch_time, (etag, config_json)) ↦ store_entry config_json fetch_time etag
  ]

  -- The part of `notifyingCacheStore.reload` after the bytes were read.
  reload_bytes : String → Bytes → EntryWithEtag → (EntryWithEtag × Bool) × List Report
  unfolding store_entry
  reload_bytes sdk_id bytes entry = elim (format.segments_from_bytes bytes) [
    | err e ↦ ((entry, false), report_error sdk_id "failed to recognise the cache format" ∷ [])
    | ok (fetch_time, (e_tag, config_json)) ↦
        if entry.e_tag == e_tag
        then ((entry, false), report_ok sdk_id "config from cache not modified" ∷ [])
        else elim (format.unmarshal config_json) [
          | err e ↦ ((entry, false), report_error sdk_id "failed to parse JSON from cache" ∷ [])
          | ok root ↦ (
            (store_entry config_json fetch_time e_tag, true),
            report_ok sdk_id "reload from cache succeeded" ∷ [],
          )
        ]
  ]

  -- `notifyingCacheStore.reload`, on the answer of the external cache.
  pub reload : String → Result String Bytes → EntryWithEtag → (EntryWithEtag × Bool) × List Report
  unfolding cache_get reload_bytes
  reload sdk_id answer entry =
      let (read, reports) = cache_get answer in
      elim read [
        | err e ↦ ((entry, false), reports ++ report_error sdk_id "failed to read from cache" ∷ [])
        | ok bytes ↦
            let (result, more) = reload_bytes sdk_id bytes entry in (result, reports ++ more)
      ]

  -- `notifyingCacheStore.Get`; its `Set` does nothing.
  pub notifying_get : EntryWithEtag → Result String Bytes
  unfolding compose_bytes
  notifying_get entry = ok (compose_bytes entry)
