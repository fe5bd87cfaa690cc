-- ===== src/Hr/Month.antt =====
-- `summariseMonth` of packages/shared/src/hr-accounting.ts. Days are counted in halves.
pub mod Laws
mod Tests
use stello_kitchens.Prelude.{
  ℕ, ◌+◌, ◌-◌, min, Bool, true, false, List, [], ◌∷◌, Option, none, some, ltb, if◌then◌else◌,
}
use stello_kitchens.Hr.Attendance.{
  ShiftSpec, Punch, AttendanceRules, DayStatus, DayAttendance, compute_day_attendance,
}
use stello_kitchens.Prelude.Texts.{Text}

-- `fraction` is in halves of a day.
pub record Leave : Type 0 where
  pub unpaid : Bool
  pub fraction : ℕ

pub record MonthDayInput : Type 0 where
  pub date : Text
  pub shift : Option ShiftSpec
  pub punches : List Punch
  pub leave : Option Leave
  pub employed : Bool

pub record MonthAttendanceSummary : Type 0 where
  pub present_days : ℕ
  pub absent_days : ℕ
  pub paid_leave_days : ℕ
  pub unpaid_leave_days : ℕ
  pub lop_days : ℕ
  pub worked_minutes : ℕ
  pub overtime_minutes : ℕ
  pub late_days : ℕ
  pub late_minutes : ℕ

abbrev pub nothing : MonthAttendanceSummary
nothing = record {
  present_days = 0;
  absent_days = 0;
  paid_leave_days = 0;
  unpaid_leave_days = 0;
  lop_days = 0;
  worked_minutes = 0;
  overtime_minutes = 0;
  late_days = 0;
  late_minutes = 0;
}

abbrev pub attended_of : DayStatus → ℕ
attended_of DayStatus.present = 2
attended_of DayStatus.still_open = 2
attended_of DayStatus.half_day = 1
attended_of _ = 0

abbrev pub paid_leave_of : Option Leave → ℕ
paid_leave_of none = 0
paid_leave_of (some l) = if l.unpaid then 0 else l.fraction

abbrev pub unpaid_leave_of : Option Leave → ℕ
unpaid_leave_of none = 0
unpaid_leave_of (some l) = if l.unpaid then l.fraction else 0

-- What a rostered day counts besides the attendance.
unfoldable pub add_roster :
    Option ShiftSpec → ℕ → Option Leave → MonthAttendanceSummary → MonthAttendanceSummary
add_roster none attended leave s = s
add_roster (some shift) attended leave s =
    let used_paid = min (paid_leave_of leave) (2 - attended) in
    let uncovered = 2 - attended - used_paid in
    record s {
      paid_leave_days = s.paid_leave_days + used_paid;
      unpaid_leave_days = s.unpaid_leave_days + min (unpaid_leave_of leave) uncovered;
      lop_days = s.lop_days + uncovered;
      absent_days = s.absent_days + (uncovered - unpaid_leave_of leave);
    }

unfoldable pub add_attendance : DayAttendance → MonthAttendanceSummary → MonthAttendanceSummary
add_attendance day s =
    let late = ltb 0 day.late_minutes in
    record s {
      present_days = s.present_days + attended_of day.status;
      worked_minutes = s.worked_minutes + day.worked_minutes;
      overtime_minutes = s.overtime_minutes + day.overtime_minutes;
      late_days = if late then s.late_days + 1 else s.late_days;
      late_minutes = if late then s.late_minutes + day.late_minutes else s.late_minutes;
    }

module _ (ist_at : Text → Text → ℕ) where
  unfoldable pub add_day :
      AttendanceRules → MonthDayInput → MonthAttendanceSummary → MonthAttendanceSummary
  unfolding add_roster add_attendance
  add_day rules d s =
      if d.employed
      then (let day = compute_day_attendance ist_at d.date d.shift d.punches rules in
          add_roster d.shift (attended_of day.status) d.leave (add_attendance day s))
      else record s { lop_days = s.lop_days + 2 }

  unfoldable pub summarise_from :
      AttendanceRules → List MonthDayInput → MonthAttendanceSummary → MonthAttendanceSummary
  unfolding add_day
  summarise_from rules [] s = s
  summarise_from rules (d ∷ ds) s = summarise_from rules ds (add_day rules d s)

  unfoldable pub summarise_month : List MonthDayInput → AttendanceRules → MonthAttendanceSummary
  unfolding summarise_from
  summarise_month days rules = summarise_from rules days nothing
