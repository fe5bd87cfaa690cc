-- ===== src/Billing/Window/Tests.antt =====
-- Runs and instances of the theorems on sale windows.
use stello_kitchens.Prelude.{ℕ, ◌≡◌, refl, List, true, false, Option, none, some}
use stello_kitchens.Billing.Window.{is_within_window, parse_hhmm}
use stello_kitchens.Billing.Window.Laws.{hhmm}

abbrev late : Option (List ℕ)
late = some (hhmm 22 0)

abbrev early : Option (List ℕ)
early = some (hhmm 2 0)

-- 22:00 to 02:00 wraps midnight; an unset start is midnight; "24:00" is no time.
runs :
    (is_within_window late early 30 ≡ true)
    × (is_within_window late early 720 ≡ false)
    × (is_within_window none early 119 ≡ true)
    × (parse_hhmm (some (hhmm 24 0)) ≡ none)
unfolding is_within_window
runs = (refl, refl, refl, refl)
