-- ===== src/Sdk/Store/Laws.antt =====
-- What a reload from the external cache does to the store.
use configcat_proxy.Base.{
  ◌==◌, Bool-cases, ℤ, Result, ok, err, Result-cases, String, ◌≡◌, refl, ◌∙◌, ◌≢◌, ◌⊎◌, inl, inr,
  true, false, arith, eq_iff, string_eq,
}
use configcat_proxy.Sdk.Store.{
  EntryWithEtag, Format, compose_bytes, store_entry, cache_get, reload_bytes, reload, notifying_get,
}

module _ {Bytes ConfigJson : Type 0} (format : Format Bytes ConfigJson) where
  -- A reload that fails, or that finds the ETag of the entry, leaves the entry as it is and says
  -- so; one that says that there is a change has stored a valid configuration under another ETag.
  pub reload_lem :
      (sdk_id : String) (answer : Result String Bytes) (entry : EntryWithEtag)
      → ((reload format sdk_id answer entry).0 ≡ (entry, false))
        ⊎ (((reload format sdk_id answer entry).0.1 ≡ true)
            × ((reload format sdk_id answer entry).0.0.empty ≡ false)
            × (((reload format sdk_id answer entry).0.0.e_tag == entry.e_tag) ≡ false)
            × ((root : ConfigJson) × (format.unmarshal
                    (reload format sdk_id answer entry).0.0.config_json
                  ≡ ok root)))
  unfolding reload reload_bytes cache_get store_entry
  reload_lem sdk_id (err e) entry = inl refl
  reload_lem sdk_id (ok bytes) entry = elim (Result-cases (format.segments_from_bytes bytes)) [
    | inl (e, bad) ↦ inl (ground arith)
    | inr ((t, (e_tag, config_json)), good) ↦ elim (Bool-cases (entry.e_tag == e_tag)) [
      | inl same ↦ inl (ground arith)
      | inr other ↦ elim (Result-cases (format.unmarshal config_json)) [
        | inl (e, invalid) ↦ inl (ground arith)
        | inr (root, parsed) ↦ inr (
          ground arith,
          ground arith,
          ground (arith, eq_iff e_tag entry.e_tag, eq_iff entry.e_tag e_tag),
          (root, ground arith),
        )
      ]
    ]
  ]

  -- The cache answers with bytes of the format, which name another ETag than that of the entry and
  -- hold a valid configuration.
  pub record IsNews (answer : Result String Bytes) (entry : EntryWithEtag) : Type 0 where
    pub bytes : Bytes
    pub fetch_time : ℤ
    pub e_tag : String
    pub config_json : String
    pub root : ConfigJson
    pub answered : answer ≡ ok bytes
    pub recognised : format.segments_from_bytes bytes ≡ ok (fetch_time, (e_tag, config_json))
    pub changed : entry.e_tag ≢ e_tag
    pub parsed : format.unmarshal config_json ≡ ok root

  -- A reload from the external cache notifies exactly when the cache answers with bytes of the
  -- format that name another ETag than the entry's and hold a valid configuration; what the
  -- ConfigCat SDK then gets from the store are these three parts, composed again. Any other reload
  -- leaves the entry, and with it what the SDK gets, as it was.
  pub notifying_get-reload :
      (sdk_id : String) (answer : Result String Bytes) (entry : EntryWithEtag)
      → let ((after, notified), reports) = reload format sdk_id answer entry in
        ((notified ≡ true)
          × ((news : IsNews answer entry) × (notifying_get format after
                ≡ ok (format.segments_to_bytes news.fetch_time news.e_tag news.config_json))))
        ⊎ ((notified ≡ false)
            × (¬ IsNews answer entry)
            × (notifying_get format after ≡ notifying_get format entry)
            × (after ≡ entry))
  unfolding reload reload_bytes cache_get store_entry notifying_get compose_bytes
  notifying_get-reload sdk_id (err e) entry = inr (refl, λ news. cc news.answered, refl, refl)
  notifying_get-reload sdk_id (ok bytes) entry =
      elim (Result-cases (format.segments_from_bytes bytes)) [
        | inl (e, bad) ↦ inr (
          ground (arith, bad),
          λ news. ground (arith, bad, news.answered, news.recognised),
          ground (arith, bad),
          ground (arith, bad),
        )
        | inr ((t, (e_tag, config_json)), good) ↦ elim (Bool-cases (entry.e_tag == e_tag)) [
          | inl same ↦ inr (
            ground (arith, good, same),
            λ news. news.changed (
                (eq_iff entry.e_tag e_tag).0 same
                ∙ ground (arith, good, news.answered, news.recognised)),
            ground (arith, good, same),
            ground (arith, good, same),
          )
          | inr other ↦ elim (Result-cases (format.unmarshal config_json)) [
            | inl (e, invalid) ↦ inr (
              ground (arith, good, other, invalid),
              λ news. ground (arith, good, invalid, news.answered, news.recognised, news.parsed),
              ground (arith, good, other, invalid),
              ground (arith, good, other, invalid),
            )
            | inr (root, parsed) ↦ inl (
              ground (arith, good, other, parsed),
              (
                record {
                  bytes = bytes;
                  fetch_time = t;
                  e_tag = e_tag;
                  config_json = config_json;
                  root = root;
                  answered = refl;
                  recognised = good;
                  changed = λ e. ground (arith, other, (eq_iff entry.e_tag e_tag).1 e);
                  parsed = parsed;
                },
                ground (arith, good, other, parsed),
              ),
            )
          ]
        ]
      ]
