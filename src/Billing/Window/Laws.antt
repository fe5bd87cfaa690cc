-- ===== src/Billing/Window/Laws.antt =====
-- Sale windows: the times that are read, and the two halves into which two times cut the day.
use stello_kitchens.Prelude.{
  ℕ, ◌+◌, ◌*◌, ◌/◌, ◌%◌, ◌<◌, ◌≡◌, ◌≢◌, List, [], ◌∷◌, not, Option, some, arith,
}
use stello_kitchens.Billing.Window.{parse_hhmm, is_within_window}

-- "HH:MM" of an hour and a minute.
abbrev pub hhmm : ℕ → ℕ → List ℕ
hhmm h m = (b'0' + h / 10) ∷ (b'0' + h % 10) ∷ b':' ∷ (b'0' + m / 10) ∷ (b'0' + m % 10) ∷ []

-- Every time of day is read back as its minutes after midnight.
pub parse_hhmm-hhmm : (h m : ℕ) → h < 24 → m < 60 → parse_hhmm (some (hhmm h m)) ≡ some (h * 60 + m)
unfolding parse_hhmm
parse_hhmm-hhmm h m hh hm = ground arith

-- Whatever is read is a time of the day.
pub parse_hhmm-lt : (t : Option (List ℕ)) {n : ℕ} → parse_hhmm t ≡ some n → n < 1440
unfolding parse_hhmm
parse_hhmm-lt (some (a ∷ b ∷ c ∷ d ∷ e ∷ [])) h = ground arith
parse_hhmm-lt _ h = cc

-- Two different times cut the day in two: an item with the window from the one to the other is on
-- sale just when one with the opposite window is not.
pub is_within_window_complement :
    (start end : Option (List ℕ)) (s e minutes : ℕ)
    → parse_hhmm start ≡ some s
    → parse_hhmm end ≡ some e
    → s ≢ e
    → is_within_window end start minutes ≡ not (is_within_window start end minutes)
unfolding is_within_window
is_within_window_complement start end s e minutes hs he ne = rw (hs, he) (ground arith)
