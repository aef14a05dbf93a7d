-- ===== src/Status/Laws.antt =====
-- What the records of diag/status/status.go say of a component.
use configcat_proxy.Base.{
  ltb, ◌==◌, if◌then◌else◌, Bool-cases, ℤ, pos, ltb_ℤ, increment, decrement, length, length-append,
  drop, length-drop, drop-append, drop_one-drop, ℕ, suc, ◌+◌, ◌-◌, ◌≤◌, String, ◌<>◌, ◌≡◌, refl, ap,
  inl, inr, Bool, true, not, ◌&&◌, List, [], ◌∷◌, ◌++◌, arith, eq_iff, string_eq, nat_eq,
}
use mathlib.Core.List.{append-nil, append_assoc}
use configcat_proxy.Status.{
  healthy, degraded, Record, Reporter, new_reporter, error_count, min, check_status, push,
  recs_or_empty, append_record, report_ok, report_error,
}
use configcat_proxy.Base.Dict.{lookup, lookup-insert}

-- The last two records.
abbrev pub latest : List Record → List Record
latest [] = []
latest (a ∷ []) = a ∷ []
latest (a ∷ b ∷ []) = a ∷ b ∷ []
latest (a ∷ b ∷ c ∷ records) = latest (b ∷ c ∷ records)

abbrev pub all_errors : List Record → Bool
all_errors [] = true
all_errors (msg ∷ records) = msg.is_error && all_errors records

abbrev score : ℤ → List Record → ℤ
score count [] = count
score count (msg ∷ records) =
    score (if msg.is_error then increment count else decrement count) records

error_count_lem :
    (n i : ℕ) (records : List Record)
    → n ≡ i + length records
    → error_count n i (pos 0) records ≡ score (pos 0) (latest records)
unfolding error_count
error_count_lem n i [] e = refl
error_count_lem n i (a ∷ []) e = ground arith
error_count_lem n i (a ∷ b ∷ []) e = ground arith
error_count_lem n i (a ∷ b ∷ c ∷ records) e =
    ground (arith, error_count_lem n (i + 1) (b ∷ c ∷ records) (omega (arith, e)))

length-latest : (records : List Record) → length (latest records) ≡ min 2 (length records)
length-latest [] = refl
length-latest (a ∷ []) = refl
length-latest (a ∷ b ∷ []) = refl
length-latest (a ∷ b ∷ c ∷ records) = ground (arith, length-latest (b ∷ c ∷ records))

-- The judgement on at most two records.
judge :
    (records : List Record)
    → (length records ≤ 2)
    → (ltb_ℤ (pos 0) (score (pos 0) records)
        && not (ltb_ℤ (score (pos 0) records) (pos (length records))))
      ≡ (ltb 0 (length records) && all_errors records)
judge [] small = refl
judge (a ∷ []) small = ground arith
judge (a ∷ b ∷ []) small = ground arith
judge (a ∷ b ∷ c ∷ records) small = absurd (omega (arith, small))

-- `checkStatus` says that a component is degraded where it has a record and its last two records,
-- or the only one, are errors, and that it is healthy in every other case.
pub check_status_lem :
    (records : List Record)
    → check_status records
      ≡ (if ltb 0 (length records) && all_errors (latest records) then degraded else healthy)
unfolding check_status
check_status_lem records = ground (
  arith,
  error_count_lem (length records) 0 records (omega arith),
  length-latest records,
  judge (latest records) (ground (arith, length-latest records)),
)

-- The last five of a list.
abbrev pub last_five : List Record → List Record
last_five recs = drop (length recs - 5) recs

push-last_five :
    (rec : Record) (recs : List Record) → push rec (last_five recs) ≡ last_five (recs ++ rec ∷ [])
unfolding push
push-last_five rec recs =
    let n : ℕ = length recs - 5 in
    let all : List Record = recs ++ rec ∷ [] in
    let cut : drop n all ≡ last_five recs ++ rec ∷ [] =
      drop-append n recs (rec ∷ []) (omega arith) in
    let size = length-append (last_five recs) (rec ∷ []) in
    let left = length-drop n recs in
    let total = length-append recs (rec ∷ []) in
    elim (Bool-cases (ltb 5 (length (last_five recs ++ rec ∷ [])))) [
      | inl full ↦
          let next : suc n ≡ length all - 5 = ground (arith, full, size, left, total) in
          rw (full, ← cut, drop_one-drop n all) (ap (λ k. drop k all) next)
      | inr room ↦
          let same : n ≡ length all - 5 = ground (arith, room, size, left, total) in
          rw (room, ← cut) (ap (λ k. drop k all) same)
    ]

-- A call of `ReportOk` or `ReportError`.
pub record Report : Type 0 where
  pub now : ℕ
  pub component : String
  pub message : String
  pub is_error : Bool

abbrev pub to_record : Report → Record
to_record p = record {
  time = p.now;
  is_error = p.is_error;
  message = if p.is_error then "[error] " <> p.message else "[ok] " <> p.message;
}

-- What was reported of a component, the oldest first.
abbrev pub history : String → List Report → List Record
history component [] = []
history component (p ∷ reports) =
    if p.component == component
    then to_record p ∷ history component reports
    else history component reports

module _ (format : ℕ → String) (obfuscate : String → ℕ → String) where
  abbrev pub report : Report → Reporter → Reporter
  report p r =
      if p.is_error
      then report_error format obfuscate p.now p.component p.message r
      else report_ok format obfuscate p.now p.component p.message r

  abbrev pub report_all : List Report → Reporter → Reporter
  report_all [] r = r
  report_all (p ∷ reports) r = report_all reports (report p r)

  abbrev pub records_of : String → Reporter → List Record
  records_of component r = recs_or_empty (lookup component r.records)

  records_of-report :
      (component : String) (p : Report) (r : Reporter)
      → records_of component (report p r) ≡ (
          if p.component == component
          then push (to_record p) (records_of component r)
          else records_of component r)
  unfolding report_ok report_error append_record
  records_of-report component p r = ground (
    arith,
    eq_iff p.component component,
    lookup-insert p.component component (push (to_record p) (records_of p.component r)) r.records,
  )

  report_all_lem :
      (component : String) (before : List Record) (reports : List Report) (r : Reporter)
      → records_of component r ≡ last_five before
      → records_of component (report_all reports r)
        ≡ last_five (before ++ history component reports)
  report_all_lem component before [] r e = cc (e, append-nil before)
  report_all_lem component before (p ∷ reports) r e = elim (Bool-cases (p.component == component)) [
    | inl same ↦
        rw (same, ← append_assoc before (to_record p ∷ []) (history component reports))
          (report_all_lem component (before ++ to_record p ∷ []) reports (report p r)
            (cc (e, same, records_of-report component p r, push-last_five (to_record p) before)))
    | inr other ↦ rw other (
        report_all_lem component before reports (report p r)
          (ground (arith, records_of-report component p r)))
  ]

  -- Whatever is reported of whichever components, a new reporter has for each component the last
  -- five records of what was reported of it, in order, or all of them if they are at most five.
  pub records_of-report_all :
      (component : String) (reports : List Report)
      → records_of component (report_all reports new_reporter)
        ≡ last_five (history component reports)
  unfolding lookup
  records_of-report_all component reports = report_all_lem component [] reports new_reporter refl
