-- ===== src/Status.antt =====
-- diag/status/status.go: the status reporter. A reported time is a number, and what `Format` prints
-- for it is a parameter; `utils.Obfuscate` is one too, as it counts the runes of a string. The
-- mutex makes each operation one step.
pub mod Laws
pub mod Overall
mod Tests
use configcat_proxy.Base.{
  ltb, leb, ◌==◌, if◌then◌else◌, ℤ, pos, ltb_ℤ, increment, decrement, length, drop, ℕ, ◌+◌, String,
  ◌<>◌, Bool, true, false, not, ◌&&◌, ◌||◌, Option, none, some, List, [], ◌∷◌, ◌++◌, string_eq,
  nat_eq,
}
use configcat_proxy.Base.Dict.{Dict, lookup, insert, delete}
use configcat_proxy.Config.Types.{SdkConfig, CacheConfig}
use configcat_proxy.Config.Validate.{cache_is_set}

pub data SdkSource : Type 0 where
  file_src : SdkSource
  remote_src : SdkSource
  cache_src : SdkSource

pub data HealthStatus : Type 0 where
  healthy : HealthStatus
  degraded : HealthStatus
  initializing : HealthStatus
  down : HealthStatus
  not_available : HealthStatus

pub data SdkMode : Type 0 where
  offline_mode : SdkMode
  online_mode : SdkMode

abbrev pub cache_component : String
cache_component = "cache"

-- `Record` is `record` of the source.
pub record Record : Type 0 where
  pub time : ℕ
  pub is_error : Bool
  pub message : String

pub record SdkSourceStatus : Type 0 where
  pub type : SdkSource
  pub status : HealthStatus
  pub records : List String

pub record SdkStatus : Type 0 where
  pub sdk_key : String
  pub mode : SdkMode
  pub source : SdkSourceStatus

pub record CacheStatus : Type 0 where
  pub status : HealthStatus
  pub records : List String

pub record Status : Type 0 where
  pub status : HealthStatus
  pub sdks : Dict String SdkStatus
  pub cache : CacheStatus

pub record Reporter : Type 0 where
  pub records : Dict String (List Record)
  pub status : Status

abbrev pub max_record_count : ℕ
max_record_count = 5

abbrev pub new_reporter : Reporter
new_reporter = record {
  records = [];
  status = record {
    status = initializing;
    sdks = [];
    cache = record { status = initializing; records = [] };
  };
}

abbrev pub is_down : HealthStatus → Bool
is_down down = true
is_down _ = false

abbrev pub is_healthy : HealthStatus → Bool
is_healthy healthy = true
is_healthy _ = false

abbrev pub is_degraded : HealthStatus → Bool
is_degraded degraded = true
is_degraded _ = false

abbrev pub is_initializing : HealthStatus → Bool
is_initializing initializing = true
is_initializing _ = false

-- The loop of `reCalcStatus`, with its two variables.
pub scan : Bool → Bool → Dict String SdkStatus → Bool × Bool
scan all_sdks_down has_degraded_sdk [] = (all_sdks_down, has_degraded_sdk)
scan all_sdks_down has_degraded_sdk ((id, sdk) ∷ sdks) =
    scan (if not (is_down sdk.source.status) then false else all_sdks_down)
      (if not (is_healthy sdk.source.status) then true else has_degraded_sdk) sdks

-- The tests of `reCalcStatus`: the second one overwrites the first.
pub re_calc : Dict String SdkStatus → HealthStatus → HealthStatus
unfolding scan
re_calc sdks old =
    let (all_sdks_down, has_degraded_sdk) = scan true false sdks in
    if not has_degraded_sdk && not all_sdks_down
    then healthy
    else let first = if has_degraded_sdk then degraded else old in
      if all_sdks_down then down else first

-- `reCalcStatus`.
pub re_calc_status : Status → Status
unfolding re_calc
re_calc_status s = record s { status = re_calc s.sdks s.status }

-- The loop of `checkStatus` with `errorCount`; only the last two records count. The test
-- `i >= length-2` of the source is `length <= i + 2` here.
pub error_count : ℕ → ℕ → ℤ → List Record → ℤ
error_count length i count [] = count
error_count length i count (msg ∷ records) =
    error_count length (i + 1)
      (if leb length (i + 2)
        then (if msg.is_error then increment count else decrement count)
        else count)
      records

abbrev pub min : ℕ → ℕ → ℕ
min a b = if leb a b then a else b

-- The status of `checkStatus`.
pub check_status : List Record → HealthStatus
unfolding error_count
check_status records =
    let count = error_count (length records) 0 (pos 0) records in
    if ltb_ℤ (pos 0) count && not (ltb_ℤ count (pos (min 2 (length records))))
    then degraded
    else healthy

-- `append` and the cut to the last five.
pub push : Record → List Record → List Record
push rec recs =
    let recs' = recs ++ rec ∷ [] in
    if ltb max_record_count (length recs') then drop 1 recs' else recs'

abbrev pub recs_or_empty : Option (List Record) → List Record
recs_or_empty none = []
recs_or_empty (some recs) = recs

module _ (format : ℕ → String) (obfuscate : String → ℕ → String) where
  -- The strings of `checkStatus`.
  pub target_records : List Record → List String
  target_records [] = []
  target_records (msg ∷ records) =
      let line = format msg.time <> (": " <> msg.message) in line ∷ target_records records

  -- `appendRecord`, at the time `now`.
  pub append_record : ℕ → String → String → Bool → Reporter → Reporter
  unfolding push check_status target_records re_calc_status
  append_record now component message is_error r =
      let text = if is_error then "[error] " <> message else "[ok] " <> message in
      let recs =
        push (record { time = now; is_error = is_error; message = text })
          (recs_or_empty (lookup component r.records)) in
      let records = insert component recs r.records in
      let rec = target_records recs in
      let stat = check_status recs in
      let status = r.status in
      if component == cache_component
      then record {
        records = records;
        status = record status { cache = record { status = stat; records = rec } };
      }
      else elim (lookup component status.sdks) [
        | none ↦ record { records = records; status = status }
        | some sdk ↦
            let old = sdk.source.status in
            let stat' =
              if is_degraded stat && (is_initializing old || is_down old) then down else stat in
            let sdk' : SdkStatus = record sdk {
              source = record { type = sdk.source.type; status = stat'; records = rec };
            } in
            record {
              records = records;
              status = re_calc_status (record status { sdks = insert component sdk' status.sdks });
            }
      ]

  -- `ReportOk` and `ReportError`.
  pub report_ok : ℕ → String → String → Reporter → Reporter
  unfolding append_record
  report_ok now component message = append_record now component message false

  pub report_error : ℕ → String → String → Reporter → Reporter
  unfolding append_record
  report_error now component message = append_record now component message true

  -- `RegisterSdk`: the overall status is not computed again here.
  pub register_sdk : ℕ → CacheConfig → String → SdkConfig → Reporter → Reporter
  unfolding append_record
  register_sdk now cache sdk_id conf r =
      let is_file = conf.offline.enabled && not (conf.offline.local.file_path == "") in
      let type =
        if conf.offline.enabled then if is_file then file_src else cache_src else remote_src in
      let sdk : SdkStatus = record {
        sdk_key = obfuscate conf.key 5;
        mode = if conf.offline.enabled then offline_mode else online_mode;
        source = record { type = type; status = initializing; records = [] };
      } in
      let status = r.status in
      let unset = not (cache_is_set cache) in
      let cache' : CacheStatus =
        if is_file || unset then record status.cache { status = not_available } else status.cache in
      let r' : Reporter = record r {
        status = record status { sdks = insert sdk_id sdk status.sdks; cache = cache' };
      } in
      if unset && (conf.offline.enabled && not is_file)
      then append_record now sdk_id "cache offline source enabled without a configured cache" true
          r'
      else r'

  -- `UpdateSdk`; it dereferences a nil pointer where the identifier is not registered, none here.
  pub update_sdk : String → SdkConfig → Reporter → Option Reporter
  update_sdk sdk_id conf r = elim (lookup sdk_id r.status.sdks) [
    | none ↦ none
    | some sdk ↦
        let sdk' : SdkStatus = record sdk { sdk_key = obfuscate conf.key 5 } in
        let status = r.status in
        some (record r { status = record status { sdks = insert sdk_id sdk' status.sdks } })
  ]

-- `RemoveSdk`.
pub remove_sdk : String → Reporter → Reporter
unfolding re_calc_status
remove_sdk sdk_id r =
    let status = r.status in
    record {
      records = delete sdk_id r.records;
      status = re_calc_status (record status { sdks = delete sdk_id status.sdks });
    }
