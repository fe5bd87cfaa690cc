-- ===== src/Hr/Month/Laws.antt =====
-- How the days of a month are accounted for.
use stello_kitchens.Prelude.{
  ℕ, ◌+◌, ◌*◌, ◌≡◌, ◌⊎◌, inl, inr, false, List, [], ◌∷◌, Option, none, some, arith, length,
  if◌then◌else◌, All, sum_by, Bool-cases,
}
use stello_kitchens.Hr.Attendance.{
  ShiftSpec, AttendanceRules, DayAttendance, compute_day_attendance,
}
use stello_kitchens.Prelude.Texts.{Text}
use stello_kitchens.Hr.Month.{
  Leave, MonthDayInput, MonthAttendanceSummary, attended_of, add_roster, add_attendance, add_day,
  summarise_from, summarise_month, nothing,
}

-- Two halves for a day outside the employment.
abbrev pub unemployed : MonthDayInput → ℕ
unemployed d = if d.employed then 0 else 2

abbrev pub Rostered : Option ShiftSpec → Type 0
Rostered none = ⊥
Rostered (some shift) = Unit

add_roster-lop :
    (shift : Option ShiftSpec) (day : DayAttendance) (leave : Option Leave)
    (s : MonthAttendanceSummary)
    → let t = add_roster shift (attended_of day.status) leave (add_attendance day s) in
      t.lop_days + s.absent_days + s.unpaid_leave_days
      ≡ s.lop_days + t.absent_days + t.unpaid_leave_days
unfolding add_roster add_attendance
add_roster-lop none day leave s = omega arith
add_roster-lop (some shift) day leave s = omega arith

add_roster-covers :
    (shift : Option ShiftSpec) (day : DayAttendance) (leave : Option Leave)
    (s : MonthAttendanceSummary)
    → Rostered shift
    → let t = add_roster shift (attended_of day.status) leave (add_attendance day s) in
      t.present_days + t.paid_leave_days + t.lop_days
      ≡ s.present_days + s.paid_leave_days + s.lop_days + 2
unfolding add_roster add_attendance
add_roster-covers none day leave s h = elim h [ ]
add_roster-covers (some shift) day leave s h = ground arith

module _ (ist_at : Text → Text → ℕ) where
  add_day-lop :
      (rules : AttendanceRules) (d : MonthDayInput) (s : MonthAttendanceSummary)
      → let t = add_day ist_at rules d s in
        t.lop_days + s.absent_days + s.unpaid_leave_days
        ≡ s.lop_days + t.absent_days + t.unpaid_leave_days + unemployed d
  unfolding add_day
  add_day-lop rules d s =
      let day = compute_day_attendance ist_at d.date d.shift d.punches rules in
      let roster = add_roster-lop d.shift day d.leave s in
      elim (Bool-cases d.employed) [
        | inl e ↦ simp e (omega (arith, roster))
        | inr e ↦ simp e (omega arith)
      ]

  summarise_from-lop :
      (rules : AttendanceRules) (days : List MonthDayInput) (s : MonthAttendanceSummary)
      → let t = summarise_from ist_at rules days s in
        t.lop_days + s.absent_days + s.unpaid_leave_days
        ≡ s.lop_days + t.absent_days + t.unpaid_leave_days + sum_by unemployed days
  unfolding summarise_from
  summarise_from-lop rules [] s = omega arith
  summarise_from-lop rules (d ∷ ds) s =
      omega (arith, summarise_from-lop rules ds (add_day ist_at rules d s), add_day-lop rules d s)

  -- Loss of pay is what is absent, what is unpaid leave and what lies outside the employment, and
  -- nothing else.
  pub summarise_month_lop :
      (days : List MonthDayInput) (rules : AttendanceRules)
      → let s = summarise_month ist_at days rules in
        s.lop_days ≡ s.absent_days + s.unpaid_leave_days + sum_by unemployed days
  unfolding summarise_month
  summarise_month_lop days rules = omega (arith, summarise_from-lop rules days nothing)

  add_day-covers :
      (rules : AttendanceRules) (d : MonthDayInput) (s : MonthAttendanceSummary)
      → (d.employed ≡ false) ⊎ Rostered d.shift
      → let t = add_day ist_at rules d s in
        t.present_days + t.paid_leave_days + t.lop_days
        ≡ s.present_days + s.paid_leave_days + s.lop_days + 2
  unfolding add_day
  add_day-covers rules d s (inl e) = simp e (omega arith)
  add_day-covers rules d s (inr h) =
      let day = compute_day_attendance ist_at d.date d.shift d.punches rules in
      let roster = add_roster-covers d.shift day d.leave s h in
      elim (Bool-cases d.employed) [
        | inl e ↦ simp e (omega (arith, roster))
        | inr e ↦ simp e (omega arith)
      ]

  summarise_from-covers :
      (rules : AttendanceRules) (days : List MonthDayInput) (s : MonthAttendanceSummary)
      → All (λ d. (d.employed ≡ false) ⊎ Rostered d.shift) days
      → let t = summarise_from ist_at rules days s in
        t.present_days + t.paid_leave_days + t.lop_days
        ≡ s.present_days + s.paid_leave_days + s.lop_days + 2 * length days
  unfolding summarise_from
  summarise_from-covers rules [] s h = omega arith
  summarise_from-covers rules (d ∷ ds) s (h, hs) = omega (
    arith,
    summarise_from-covers rules ds (add_day ist_at rules d s) hs,
    add_day-covers rules d s h,
  )

  -- Where every day of the employment is rostered, each day counts once: as presence, as paid leave
  -- or as loss of pay, in halves.
  pub summarise_month_covers :
      (days : List MonthDayInput) (rules : AttendanceRules)
      → All (λ d. (d.employed ≡ false) ⊎ Rostered d.shift) days
      → let s = summarise_month ist_at days rules in
        s.present_days + s.paid_leave_days + s.lop_days ≡ 2 * length days
  unfolding summarise_month
  summarise_month_covers days rules h = omega (arith, summarise_from-covers rules days nothing h)
