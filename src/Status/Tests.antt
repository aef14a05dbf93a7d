-- ===== src/Status/Tests.antt =====
-- The theorems on the status reporter at one SDK that fails twice.
use configcat_proxy.Base.{ℕ, String, ◌≡◌, refl, true, some, [], ◌∷◌, string_eq, nat_eq}
use configcat_proxy.Status.{
  remote_src, initializing, not_available, online_mode, Record, SdkStatus, Reporter, new_reporter,
}
use configcat_proxy.Status.Laws.{
  last_five, Report, history, report, report_all, records_of, records_of-report_all,
}
use configcat_proxy.Status.Overall.{overall, reported, report-IsOverall}
use configcat_proxy.Base.Dict.{lookup}

abbrev failure : Record
failure = record { time = 1; is_error = true; message = "[error] timeout" }

abbrev failed_once : Report
failed_once = record { now = 1; component = "a"; message = "timeout"; is_error = true }

abbrev format_time : ℕ → String
format_time n = "now"

abbrev hide : String → ℕ → String
hide s n = "*"

abbrev starting : SdkStatus
starting = record {
  sdk_key = "*";
  mode = online_mode;
  source = record { type = remote_src; status = initializing; records = [] };
}

abbrev one_sdk : Reporter
one_sdk = record {
  records = [];
  status = record {
    status = initializing;
    sdks = ("a", starting) ∷ [];
    cache = record { status = not_available; records = [] };
  };
}

records_of-report_all_example :
    records_of format_time hide "a"
      (report_all format_time hide (failed_once ∷ failed_once ∷ []) new_reporter)
    ≡ last_five (history "a" (failed_once ∷ failed_once ∷ []))
records_of-report_all_example =
    records_of-report_all format_time hide "a" (failed_once ∷ failed_once ∷ [])

report-IsOverall_example :
    (lookup "a" (report format_time hide failed_once one_sdk).status.sdks
      ≡ some (
          reported format_time hide
            (records_of format_time hide "a" (report format_time hide failed_once one_sdk))
            starting))
    × ((report format_time hide failed_once one_sdk).status.status
        ≡ overall (report format_time hide failed_once one_sdk).status.sdks)
    × ((report format_time hide failed_once one_sdk).status.cache ≡ one_sdk.status.cache)
unfolding lookup
report-IsOverall_example =
    report-IsOverall format_time hide failed_once one_sdk starting "a" refl refl
