-- ===== src/Hr/Attendance.antt =====
-- `computeDayAttendance` of packages/shared/src/hr-accounting.ts. Times are in milliseconds; the
-- instant of a date and a time of the day (`istAt`) is a parameter.
use stello_kitchens.Prelude.Texts.{Text}
use stello_kitchens.Prelude.{
  ℕ, ◌+◌, ◌-◌, ◌/◌, max, Bool, true, false, List, [], ◌∷◌, Option, none, some, ltb, leb,
  if◌then◌else◌, any,
}

pub record ShiftSpec : Type 0 where
  pub start_time : Text
  pub end_time : Text
  pub break_minutes : ℕ
  pub grace_minutes : ℕ

pub record Punch : Type 0 where
  pub clock_in : ℕ
  pub clock_out : Option ℕ
  pub break_minutes : ℕ

pub record AttendanceRules : Type 0 where
  pub half_day_minutes : ℕ
  pub overtime_threshold_minutes : ℕ
  pub standard_day_minutes : ℕ

pub data DayStatus : Type 0 where
  present half_day absent off still_open : DayStatus

pub record DayAttendance : Type 0 where
  pub status : DayStatus
  pub worked_minutes : ℕ
  pub scheduled_minutes : ℕ
  pub late_minutes : ℕ
  pub early_leave_minutes : ℕ
  pub overtime_minutes : ℕ

-- `Math.floor(ms / 60000)` of a length of time, none being less than 0 where it is used.
abbrev pub minutes : ℕ → ℕ
minutes ms = ms / 60_000

-- The instants of a shift's start and end.
pub record Span : Type 0 where
  pub begins : ℕ
  pub ends : ℕ

-- A stable sort by the time of clocking in.
unfoldable pub insert : Punch → List Punch → List Punch
insert p [] = p ∷ []
insert p (q ∷ qs) =
    let rest = insert p qs in if leb p.clock_in q.clock_in then p ∷ (q ∷ qs) else q ∷ rest

unfoldable pub sort : List Punch → List Punch
unfolding insert
sort [] = []
sort (p ∷ ps) = insert p (sort ps)

abbrev pub is_open : Punch → Bool
is_open p = elim p.clock_out [ none ↦ true | some _ ↦ false ]

-- An open punch does not count yet.
abbrev pub worked_in : Punch → ℕ
worked_in p = elim p.clock_out [
  | none ↦ 0
  | some out ↦ minutes (out - p.clock_in) - p.break_minutes
]

unfoldable pub worked_total : List Punch → ℕ
worked_total [] = 0
worked_total (p ∷ ps) = worked_in p + worked_total ps

abbrev pub out_of : Punch → ℕ
out_of p = elim p.clock_out [ none ↦ 0 | some out ↦ out ]

unfoldable pub last_out : List Punch → ℕ
last_out [] = 0
last_out (p ∷ ps) = max (out_of p) (last_out ps)

abbrev pub first_in : List Punch → ℕ
first_in [] = 0
first_in (p ∷ ps) = p.clock_in

unfoldable pub late_for : Option ShiftSpec → Option Span → List Punch → ℕ
late_for (some shift) (some span) sorted =
    let late_by = minutes (first_in sorted - span.begins) in
    if ltb shift.grace_minutes late_by then late_by else 0
late_for _ _ sorted = 0

unfoldable pub early_for : Option Span → Bool → List Punch → ℕ
unfolding last_out
early_for none open_punch sorted = 0
early_for (some span) open_punch sorted =
    if open_punch then 0 else minutes (span.ends - last_out sorted)

unfoldable pub overtime_of : AttendanceRules → ℕ → ℕ → ℕ
overtime_of rules worked scheduled =
    if ltb worked scheduled
    then 0
    else (if leb rules.overtime_threshold_minutes (worked - scheduled)
        then worked - scheduled
        else 0)

abbrev pub status_of : AttendanceRules → Bool → ℕ → DayStatus
status_of rules open_punch worked =
    if open_punch
    then still_open
    else (if ltb worked rules.half_day_minutes then half_day else present)

abbrev pub unattended : Option ShiftSpec → DayStatus
unattended none = off
unattended (some shift) = absent

module _ (ist_at : Text → Text → ℕ) where
  -- A shift whose end is not after its start ends on the next day.
  unfoldable pub span_of : Text → Option ShiftSpec → Option Span
  span_of date none = none
  span_of date (some shift) =
      let begins = ist_at date shift.start_time in
      let ends = ist_at date shift.end_time in
      some (record { begins = begins; ends = if leb ends begins then ends + 86_400_000 else ends })

  unfoldable pub scheduled_of : Option ShiftSpec → Option Span → AttendanceRules → ℕ
  scheduled_of (some shift) (some span) rules =
      minutes (span.ends - span.begins) - shift.break_minutes
  scheduled_of _ _ rules = rules.standard_day_minutes

  unfoldable pub compute_day_attendance :
      Text → Option ShiftSpec → List Punch → AttendanceRules → DayAttendance
  unfolding span_of scheduled_of sort worked_total late_for early_for overtime_of
  compute_day_attendance date shift [] rules = record {
    status = unattended shift;
    worked_minutes = 0;
    scheduled_minutes = scheduled_of shift (span_of date shift) rules;
    late_minutes = 0;
    early_leave_minutes = 0;
    overtime_minutes = 0;
  }
  compute_day_attendance date shift (p ∷ ps) rules =
      let sorted = sort (p ∷ ps) in
      let span = span_of date shift in
      let scheduled = scheduled_of shift span rules in
      let worked = worked_total sorted in
      let open_punch = any is_open sorted in
      record {
        status = status_of rules open_punch worked;
        worked_minutes = worked;
        scheduled_minutes = scheduled;
        late_minutes = late_for shift span sorted;
        early_leave_minutes = early_for span open_punch sorted;
        overtime_minutes = overtime_of rules worked scheduled;
      }
