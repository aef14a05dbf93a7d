-- ===== src/Sdk/File/Laws.antt =====
-- What the file store serves, whatever the file held at its reads.
use configcat_proxy.Base.{
  ◌==◌, Bool-cases, ℤ, Result, ok, err, Result-cases, String, ◌≡◌, refl, sym, ap, ◌∙◌, ◌≢◌, inl,
  inr, true, false, Option, none, some, List, [], ◌∷◌, arith, eq_iff, string_eq,
}
use configcat_proxy.Sdk.Store.{Format, new_entry_store, store_entry}
use configcat_proxy.Sdk.File.{FileStore, new_file_store, reload_file, reloads, notifications}

module _ {Bytes ConfigJson : Type 0} (format : Format Bytes ConfigJson) where
  -- The configuration of the last read that gave one.
  unfoldable pub last_config :
      Option ConfigJson → List (Result String String × ℤ) → Option ConfigJson
  last_config before [] = before
  last_config before ((err e, now) ∷ reads) = last_config before reads
  last_config before ((ok text, now) ∷ reads) =
      last_config (elim (format.unmarshal text) [ err e ↦ before | ok root ↦ some root ]) reads

  -- The store holds that configuration, under its ETag; without one it is empty.
  abbrev pub Serves : FileStore → Option ConfigJson → Type 0
  Serves f none = (f.entry.empty ≡ true) × (f.stored ≡ "")
  Serves f (some root) =
      (f.entry.empty ≡ false)
      × (f.entry.config_json ≡ format.marshal root)
      × (f.entry.e_tag ≡ format.generate_etag (format.marshal root))
      × (format.unmarshal f.stored ≡ ok root)

  unchanged-reload_file :
      (sdk_id : String) (read : Result String String × ℤ) (f : FileStore)
      → (reload_file format sdk_id read f).0.1 ≡ false
      → (reload_file format sdk_id read f).0.0 ≡ f
  unfolding reload_file
  unchanged-reload_file sdk_id (err e, now) f h = refl
  unchanged-reload_file sdk_id (ok text, now) f h = elim (Bool-cases (f.stored == text)) [
    | inl same ↦ ground (arith, same)
    | inr other ↦ elim (Result-cases (format.unmarshal text)) [
      | inl (e, bad) ↦ ground (arith, other, bad)
      | inr (root, good) ↦ absurd (ground (arith, h, other, good))
    ]
  ]

  -- Where no round notifies, the store is what it was: no change goes unnoticed.
  pub reloads-unnotified :
      (sdk_id : String) (reads : List (Result String String × ℤ)) (f : FileStore)
      → notifications format sdk_id reads f ≡ 0
      → reloads format sdk_id reads f ≡ f
  unfolding reloads notifications
  reloads-unnotified sdk_id [] f none_sent = refl
  reloads-unnotified sdk_id (read ∷ reads) f none_sent =
      elim (Bool-cases (reload_file format sdk_id read f).0.1) [
        | inl changed ↦ absurd (ground (arith, changed, none_sent))
        | inr still ↦
            let same = unchanged-reload_file sdk_id read f still in
            reloads-unnotified sdk_id reads (reload_file format sdk_id read f).0.0
              (ground (arith, still, none_sent))
            ∙ same
      ]

  module _ (no_empty : (root : ConfigJson) → format.unmarshal "" ≢ ok root) where
    -- The contents that the store has already.
    reread :
        (text : String) (f : FileStore) (before : Option ConfigJson)
        → Serves f before
        → f.stored ≡ text
        → (root : ConfigJson) → format.unmarshal text ≡ ok root
        → Serves f (some root)
    reread text f none (empty, nothing) same root parsed =
        absurd (no_empty root (rw (← nothing, same) parsed))
    reread text f (some old) (there, config, etag, at) same root parsed =
        let read : format.unmarshal text ≡ ok old = ap format.unmarshal (sym same) ∙ at in
        let same_root : old ≡ root = ground arith in
        (there, rw (← same_root) config, rw (← same_root) etag, rw same parsed)

    reload_file-Serves :
        (sdk_id text : String) (now : ℤ) (f : FileStore) (before : Option ConfigJson)
        → Serves f before
        → Serves
            (reload_file format sdk_id (ok text, now) f).0.0
            (elim (format.unmarshal text) [ err e ↦ before | ok root ↦ some root ])
    unfolding reload_file store_entry
    reload_file-Serves sdk_id text now f before h = elim (Result-cases (format.unmarshal text)) [
      | inl (e, bad) ↦
          rw bad
            (elim (Bool-cases (f.stored == text)) [ inl same ↦ rw same h | inr other ↦ rw other h ])
      | inr (root, parsed) ↦ elim (Bool-cases (f.stored == text)) [
        | inl same ↦
            rw (same, parsed) (reread text f before h ((eq_iff f.stored text).0 same) root parsed)
        | inr other ↦ rw (other, parsed) (refl, refl, refl, parsed)
      ]
    ]

    reloads-Serves :
        (sdk_id : String) (reads : List (Result String String × ℤ)) (f : FileStore)
        (before : Option ConfigJson)
        → Serves f before
        → Serves (reloads format sdk_id reads f) (last_config before reads)
    unfolding reloads last_config reload_file
    reloads-Serves sdk_id [] f before h = h
    reloads-Serves sdk_id ((err e, now) ∷ reads) f before h = reloads-Serves sdk_id reads f before h
    reloads-Serves sdk_id ((ok text, now) ∷ reads) f before h =
        reloads-Serves sdk_id reads (reload_file format sdk_id (ok text, now) f).0.0 _
          (reload_file-Serves sdk_id text now f before h)

    -- Whatever the reads of the file give, errors, invalid or repeated contents included, the store
    -- holds the configuration of the last read that gave a valid one, re-serialized and under the
    -- ETag of that text, and it is empty as long as there was none; the empty text must not parse.
    pub reloads-new_file_store :
        (sdk_id : String) (reads : List (Result String String × ℤ))
        → Serves (reloads format sdk_id reads (new_file_store format)) (last_config none reads)
    unfolding new_file_store new_entry_store
    reloads-new_file_store sdk_id reads =
        reloads-Serves sdk_id reads (new_file_store format) none (refl, refl)
