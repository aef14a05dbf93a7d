-- ===== src/Sdk/Tests.antt =====
-- The theorems on the stores, the clients and the manual registrar at small inputs.
use configcat_proxy.Base.{
  ◌==◌, if◌then◌else◌, ℤ, pos, Result, ok, err, String, ◌<>◌, ◌≡◌, refl, ◌≢◌, ◌⊎◌, true, false,
  ◌||◌, some, List, [], ◌∷◌, string_eq, int_eq,
}
use configcat_proxy.Base.Dict.{Dict, lookup, IsMap}
use configcat_proxy.Config.Types.{SdkConfig}
use configcat_proxy.Registrar.Tests.{sdk_of}
use configcat_proxy.Sdk.{new_manual_registrar, manual_get_sdk_or_nil, manual_get_sdk_by_key_or_nil}
use configcat_proxy.Sdk.Laws.{OwnsKey, manual_get_sdk-new_manual_registrar}
use configcat_proxy.Sdk.Store.{EntryWithEtag, Format, reload, notifying_get}
use configcat_proxy.Sdk.Store.Laws.{IsNews, notifying_get-reload}
use configcat_proxy.Sdk.File.{new_file_store, reloads}
use configcat_proxy.Sdk.File.Laws.{last_config, Serves, reloads-new_file_store}

-- The time, the ETag and the configuration, of which the last two must not be empty; the time is
-- kept as far as it is 2. A configuration is a text other than the empty one.
abbrev read_segments : List String → Result String (ℤ × (String × String))
read_segments (t ∷ e ∷ j ∷ []) =
    if e == "" || j == ""
    then err "empty part"
    else ok ((if t == "2" then pos 2 else pos 0), (e, j))
read_segments _ = err "number of values is fewer than expected"

abbrev some_format : Format (List String) String
some_format = record {
  segments_from_bytes = read_segments;
  segments_to_bytes = λ t e j. (if t == pos 2 then "2" else "0") ∷ e ∷ j ∷ [];
  unmarshal = λ s. if s == "" then err "unexpected end of JSON input" else ok s;
  marshal = λ c. c;
  empty_config = "{}";
  generate_etag = λ s. "W/" <> s;
  zero_time = pos 0;
}

abbrev old_entry : EntryWithEtag
old_entry = record { config_json = "{1}"; e_tag = "e1"; fetch_time = pos 1; empty = false }

abbrev new_bytes : Result String (List String)
new_bytes = ok ("2" ∷ "e2" ∷ "{2}" ∷ [])

notifying_get-reload_example :
    let ((after, notified), reports) = reload some_format "a" new_bytes old_entry in
    ((notified ≡ true)
      × ((news : IsNews some_format new_bytes old_entry) × (notifying_get some_format after
            ≡ ok (some_format.segments_to_bytes news.fetch_time news.e_tag news.config_json))))
    ⊎ ((notified ≡ false)
        × (¬ IsNews some_format new_bytes old_entry)
        × (notifying_get some_format after ≡ notifying_get some_format old_entry)
        × (after ≡ old_entry))
notifying_get-reload_example = notifying_get-reload some_format "a" new_bytes old_entry

no_empty : (root : String) → some_format.unmarshal "" ≢ ok root
no_empty root = λ e. cc

abbrev some_reads : List (Result String String × ℤ)
some_reads =
    (err "no file", pos 1)
    ∷ (ok "{1}", pos 2)
    ∷ (ok "", pos 3)
    ∷ (ok "{2}", pos 4)
    ∷ (ok "{2}", pos 5)
    ∷ []

reloads-new_file_store_example :
    Serves some_format
      (reloads some_format "a" some_reads (new_file_store some_format))
      (some "{2}")
unfolding last_config
reloads-new_file_store_example = reloads-new_file_store some_format no_empty "a" some_reads

abbrev some_sdks : Dict String SdkConfig
some_sdks = ("a", sdk_of "key-a") ∷ ("b", sdk_of "key-b") ∷ []

abbrev make_client : String → SdkConfig → String × String
make_client id sdk_conf = (id, sdk_conf.key)

once_each : IsMap some_sdks
unfolding lookup
once_each = (refl, (refl, tt))

manual_get_sdk-new_manual_registrar_example :
    (manual_get_sdk_or_nil (new_manual_registrar make_client some_sdks) "b" ≡ some ("b", "key-b"))
    × ((sdk_conf : SdkConfig)
        → lookup "b" some_sdks ≡ some sdk_conf
        → OwnsKey some_sdks "b" sdk_conf.key
        → manual_get_sdk_by_key_or_nil (new_manual_registrar make_client some_sdks) sdk_conf.key
          ≡ manual_get_sdk_or_nil (new_manual_registrar make_client some_sdks) "b")
unfolding lookup
manual_get_sdk-new_manual_registrar_example =
    manual_get_sdk-new_manual_registrar make_client some_sdks "b" once_each
