-- ===== src/Status/Overall.antt =====
-- The status of an SDK and the overall status of diag/status/status.go.
use configcat_proxy.Base.{
  ltb, ◌==◌, if◌then◌else◌, beq_refl, length, ℕ, String, ◌≡◌, refl, Bool, true, false, not, ◌&&◌,
  ◌||◌, some, List, [], ◌∷◌, arith, string_eq, nat_eq,
}
use configcat_proxy.Base.Dict.{Dict, lookup, insert, lookup-insert}
use configcat_proxy.Status.{
  HealthStatus, healthy, degraded, down, cache_component, Record, SdkStatus, Status, Reporter,
  is_down, is_healthy, is_initializing, scan, re_calc, re_calc_status, push, recs_or_empty,
  target_records, append_record, report_ok, report_error,
}
use configcat_proxy.Status.Laws.{
  latest, all_errors, check_status_lem, Report, to_record, report, records_of,
}

abbrev all_down : Dict String SdkStatus → Bool
all_down [] = true
all_down ((id, sdk) ∷ sdks) = is_down sdk.source.status && all_down sdks

abbrev all_healthy : Dict String SdkStatus → Bool
all_healthy [] = true
all_healthy ((id, sdk) ∷ sdks) = is_healthy sdk.source.status && all_healthy sdks

-- The overall status that the SDKs amount to: with no SDK it is `down`.
abbrev pub overall : Dict String SdkStatus → HealthStatus
overall sdks = if all_down sdks then down else if all_healthy sdks then healthy else degraded

scan_lem :
    (a h : Bool) (sdks : Dict String SdkStatus)
    → scan a h sdks ≡ (a && all_down sdks, h || not (all_healthy sdks))
unfolding scan
scan_lem a h [] = ground arith
scan_lem a h ((id, sdk) ∷ sdks) = ground (
  arith,
  scan_lem (if not (is_down sdk.source.status) then false else a)
      (if not (is_healthy sdk.source.status) then true else h) sdks,
)

-- The overall status after `reCalcStatus` is `down` where every SDK is down, `healthy` where there
-- is an SDK and every SDK is healthy, and `degraded` in every other case.
pub re_calc_status_lem : (s : Status) → (re_calc_status s).status ≡ overall s.sdks
unfolding re_calc_status re_calc
re_calc_status_lem s = ground (arith, scan_lem true false s.sdks)

-- The next status of an SDK, from its status and its records.
abbrev pub next_status : HealthStatus → List Record → HealthStatus
next_status old recs =
    if ltb 0 (length recs) && all_errors (latest recs)
    then (if is_initializing old || is_down old then down else degraded)
    else healthy

module _ (format : ℕ → String) (obfuscate : String → ℕ → String) where
  -- An SDK after a report, of which it has the records `recs` now.
  abbrev pub reported : List Record → SdkStatus → SdkStatus
  reported recs sdk = record sdk {
    source = record {
      type = sdk.source.type;
      status = next_status sdk.source.status recs;
      records = target_records format obfuscate recs;
    };
  }

  abbrev stored : Report → Reporter → List Record
  stored p r = push (to_record p) (recs_or_empty (lookup p.component r.records))

  report-registered :
      (p : Report) (r : Reporter) (sdk : SdkStatus)
      → (p.component == cache_component) ≡ false
      → lookup p.component r.status.sdks ≡ some sdk
      → report format obfuscate p r ≡ record {
        records = insert p.component (stored p r) r.records;
        status = re_calc_status (record r.status {
          sdks = insert p.component (reported (stored p r) sdk) r.status.sdks;
        });
      }
  unfolding report_ok report_error append_record
  report-registered p r sdk other there =
      ground (arith, other, there, check_status_lem (stored p r))

  -- A report of a registered SDK whose id is not that of the cache gives it the status that its
  -- records now amount to, and the records in print, and leaves every other SDK alone; the overall
  -- status is then the one that the SDKs amount to, and the status of the cache stays.
  pub report-IsOverall :
      (p : Report) (r : Reporter) (sdk : SdkStatus) (j : String)
      → (p.component == cache_component) ≡ false
      → lookup p.component r.status.sdks ≡ some sdk
      → (lookup j (report format obfuscate p r).status.sdks ≡ (
          if p.component == j
          then some
              (reported (records_of format obfuscate p.component (report format obfuscate p r)) sdk)
          else lookup j r.status.sdks))
        × ((report format obfuscate p r).status.status
            ≡ overall (report format obfuscate p r).status.sdks)
        × ((report format obfuscate p r).status.cache ≡ r.status.cache)
  unfolding re_calc_status
  report-IsOverall p r sdk j other there =
      let sdks = insert p.component (reported (stored p r) sdk) r.status.sdks in
      rw (report-registered p r sdk other there) (
        rw (lookup-insert p.component p.component (stored p r) r.records, beq_refl p.component)
            (lookup-insert p.component j (reported (stored p r) sdk) r.status.sdks),
        re_calc_status_lem (record r.status { sdks = sdks }),
        refl,
      )
