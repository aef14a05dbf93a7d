-- ===== src/Sdk/File.antt =====
-- sdk/store/file/file.go: the store that reads its configuration from a file. A step gets what
-- `os.ReadFile` returns and the time. `stored` is nil at first, which compares as the empty text.
pub mod Laws
use configcat_proxy.Base.{
  ◌==◌, if◌then◌else◌, ℤ, Result, ok, err, ℕ, ◌+◌, String, Bool, true, false, List, [], ◌∷◌,
  string_eq,
}
use configcat_proxy.Sdk.Store.{
  EntryWithEtag, Format, Report, report_ok, report_error, new_entry_store, store_entry,
}

pub record FileStore : Type 0 where
  pub entry : EntryWithEtag
  pub stored : String

module _ {Bytes ConfigJson : Type 0} (format : Format Bytes ConfigJson) where
  pub new_file_store : FileStore
  new_file_store = record { entry = new_entry_store format; stored = "" }

  -- `reload`: the store after it, whether it changed, and the report.
  pub reload_file : String → Result String String × ℤ → FileStore → (FileStore × Bool) × List Report
  reload_file sdk_id (err e, now) f = ((f, false), report_error sdk_id "failed to read file" ∷ [])
  reload_file sdk_id (ok text, now) f =
      if f.stored == text
      then ((f, false), report_ok sdk_id "config from file not modified" ∷ [])
      else elim (format.unmarshal text) [
        | err e ↦ ((f, false), report_error sdk_id "failed to parse JSON from file" ∷ [])
        | ok root ↦
            let ser = format.marshal root in
            (
              (
                record {
                  stored = text;
                  entry = store_entry format ser now (format.generate_etag ser);
                },
                true,
              ),
              report_ok sdk_id "file source reloaded" ∷ [],
            )
      ]

  -- The store after the reload of `NewFileStore` or of the rounds of `run`.
  pub reloads : String → List (Result String String × ℤ) → FileStore → FileStore
  unfolding reload_file
  reloads sdk_id [] f = f
  reloads sdk_id (read ∷ reads) f = reloads sdk_id reads (reload_file sdk_id read f).0.0

  -- How often the rounds of `run` call `Notify`: after each reload that changed the store.
  pub notifications : String → List (Result String String × ℤ) → FileStore → ℕ
  unfolding reload_file
  notifications sdk_id [] f = 0
  notifications sdk_id (read ∷ reads) f =
      let ((after, changed), report) = reload_file sdk_id read f in
      let rest = notifications sdk_id reads after in if changed then rest + 1 else rest
