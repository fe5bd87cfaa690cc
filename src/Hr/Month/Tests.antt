-- ===== src/Hr/Month/Tests.antt =====
-- A month at a run.
use stello_kitchens.Prelude.{
  ℕ, ◌+◌, ◌*◌, ◌≡◌, inl, inr, refl, true, false, List, [], ◌∷◌, none, some, length,
}
use stello_kitchens.Hr.Attendance.{ShiftSpec, AttendanceRules}
use stello_kitchens.Prelude.Texts.{Text}
use stello_kitchens.Hr.Month.{MonthDayInput, summarise_month}
use stello_kitchens.Hr.Month.Laws.{summarise_month_covers}

abbrev ist_at : Text → Text → ℕ
ist_at date time = 3_600_000 * length time

abbrev evening : ShiftSpec
evening = record {
  start_time = b'a' ∷ [];
  end_time = b'a' ∷ (b'b' ∷ []);
  break_minutes = 0;
  grace_minutes = 10;
}

abbrev rules : AttendanceRules
rules = record {
  half_day_minutes = 30;
  overtime_threshold_minutes = 30;
  standard_day_minutes = 480;
}

-- A day worked, a day of half paid leave, and a day before joining.
abbrev days : List MonthDayInput
days =
    record {
      date = [];
      shift = some evening;
      punches = record { clock_in = 3_600_000; clock_out = some 7_200_000; break_minutes = 0 } ∷ [];
      leave = none;
      employed = true;
    }
    ∷ (record {
      date = [];
      shift = some evening;
      punches = [];
      leave = some (record { unpaid = false; fraction = 1 });
      employed = true;
    }
        ∷ (record { date = []; shift = none; punches = []; leave = none; employed = false } ∷ []))

summarise_month_covers_example :
    let s = summarise_month ist_at days rules in
    s.present_days + s.paid_leave_days + s.lop_days ≡ 2 * length days
summarise_month_covers_example =
    summarise_month_covers ist_at days rules (inr tt, (inr tt, (inl refl, tt)))
