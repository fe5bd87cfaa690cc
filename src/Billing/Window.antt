-- ===== src/Billing/Window.antt =====
-- The sale windows of packages/shared/src/billing.ts. A text is the list of its character codes.
mod Tests
pub mod Laws
use stello_kitchens.Prelude.{
  ℕ, ◌+◌, ◌-◌, ◌*◌, List, [], ◌∷◌, Bool, true, ◌&&◌, ◌||◌, Option, none, some, ltb, leb, ◌==◌,
  if◌then◌else◌,
}

-- `lo <= c && c <= hi`: one character class of the regular expression.
abbrev pub in_class : ℕ → ℕ → ℕ → Bool
in_class lo hi c = leb lo c && leb c hi

-- `[01]\d|2[0-3]`.
abbrev pub is_hour : ℕ → ℕ → Bool
is_hour a b = in_class b'0' b'1' a && in_class b'0' b'9' b || a == b'2' && in_class b'0' b'3' b

-- `Number` of two digits.
abbrev pub two_digits : ℕ → ℕ → ℕ
two_digits a b = (a - b'0') * 10 + (b - b'0')

-- `null`, `undefined`, the empty text and a text that does not match have no minutes.
unfoldable pub parse_hhmm : Option (List ℕ) → Option ℕ
parse_hhmm (some (a ∷ b ∷ c ∷ d ∷ e ∷ [])) =
    if is_hour a b && c == b':' && in_class b'0' b'5' d && in_class b'0' b'9' e
    then some (two_digits a b * 60 + two_digits d e)
    else none
parse_hhmm _ = none

-- `value ?? fallback`.
abbrev pub or_default : Option ℕ → ℕ → ℕ
or_default none d = d
or_default (some v) d = v

-- The test on the bounds, `??` and all.
unfoldable pub within_bounds : Option ℕ → Option ℕ → ℕ → Bool
within_bounds none none minutes = true
within_bounds s e minutes =
    let from = or_default s 0 in
    let to = or_default e (24 * 60) in
    if from == to
    then true
    else (if ltb from to
        then leb from minutes && ltb minutes to
        else leb from minutes || ltb minutes to)

unfoldable pub is_within_window : Option (List ℕ) → Option (List ℕ) → ℕ → Bool
unfolding within_bounds parse_hhmm
is_within_window start end minutes = within_bounds (parse_hhmm start) (parse_hhmm end) minutes
