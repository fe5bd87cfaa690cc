-- ===== src/Edge.antt =====
-- The numbers of offline bills: fiscalYearCode, formatEdgeBillNumber, parseEdgeBillNumber and
-- edgeSeriesCode of packages/shared/src/edge.ts. Where the source throws there is no value. The year
-- and the month of an instant in India, which the platform's dates give, are arguments.
pub mod Digits
pub mod Laws
pub mod Lengths
mod Tests
use stello_kitchens.Prelude.{
  ℕ, zero, suc, ◌+◌, ◌-◌, ◌*◌, ◌/◌, ◌%◌, ◌==◌, Bool, true, false, ◌&&◌, ◌||◌, List, [], ◌∷◌, ◌++◌,
  Option, none, some, ltb, leb, if◌then◌else◌, length, replicate, all,
}
use stello_kitchens.Prelude.Texts.{Text}
use stello_kitchens.Billing.Window.{in_class}

abbrev pub digit : ℕ → ℕ
digit n = b'0' + n

-- `String(n)`, on fuel: n has fewer than n + 1 digits.
unfoldable pub digits_of : ℕ → ℕ → Text
digits_of zero n = []
digits_of (suc f) n =
    let rest = digits_of f (n / 10) in
    if ltb n 10 then digit n ∷ [] else rest ++ (digit (n % 10) ∷ [])

unfoldable pub decimal : ℕ → Text
unfolding digits_of
decimal n = digits_of (suc n) n

-- `padStart(width, "0")`.
unfoldable pub pad_start : ℕ → Text → Text
pad_start width t = replicate (width - length t) b'0' ++ t

-- January is month 0; the year starts in April.
unfoldable pub fiscal_year_code : ℕ → ℕ → Text
unfolding decimal pad_start
fiscal_year_code year month =
    let start = if leb 3 month then year else year - 1 in
    pad_start 2 (decimal (start % 100)) ++ pad_start 2 (decimal ((start + 1) % 100))

unfoldable pub format_bill_number : Text → Text → ℕ → Option Text
unfolding decimal pad_start
format_bill_number series fy seq =
    let n = series ++ (b'/' ∷ (fy ++ (b'/' ∷ pad_start 6 (decimal seq)))) in
    if ltb 16 (length n) then none else some n

unfoldable pub edge_series_code : ℕ → Option Text
unfolding decimal pad_start
edge_series_code index =
    if ltb index 1 || ltb 999 index then none else some (b'E' ∷ pad_start 2 (decimal index))

pub record BillNumber : Type 0 where
  pub series : Text
  pub fy : Text
  pub seq : ℕ

abbrev pub is_digit : ℕ → Bool
is_digit = in_class b'0' b'9'

-- `[0-9A-Z]`.
abbrev pub is_code : ℕ → Bool
is_code c = is_digit c || in_class b'A' b'Z' c

abbrev pub drop_slash : Text → Text → Option (Text × Text)
drop_slash group [] = none
drop_slash group (c ∷ rest) = if c == b'/' then some (group, rest) else none

-- `(E[0-9A-Z]{2,3})\/`: a slash is no character of a code, so there is one way to match.
unfoldable pub take_series : Text → Option (Text × Text)
take_series (e ∷ a ∷ b ∷ c ∷ rest) =
    if e == b'E' && is_code a && is_code b
    then (if c == b'/'
        then some (e ∷ a ∷ b ∷ [], rest)
        else (if is_code c then drop_slash (e ∷ a ∷ b ∷ c ∷ []) rest else none))
    else none
take_series _ = none

-- `(\d{4})\/`.
unfoldable pub take_year : Text → Option (Text × Text)
take_year (a ∷ b ∷ c ∷ d ∷ rest) =
    if all is_digit (a ∷ b ∷ c ∷ d ∷ []) then drop_slash (a ∷ b ∷ c ∷ d ∷ []) rest else none
take_year _ = none

-- `Number` of digits.
unfoldable pub number : ℕ → Text → ℕ
number acc [] = acc
number acc (c ∷ cs) = number (acc * 10 + (c - b'0')) cs

-- `(\d{6,})$`.
abbrev pub take_seq : Text → Option ℕ
take_seq t = if all is_digit t && leb 6 (length t) then some (number 0 t) else none

unfoldable pub parse_bill_number : Text → Option BillNumber
unfolding take_series take_year number
parse_bill_number n = elim (take_series n) [
  | none ↦ none
  | some s ↦ elim (take_year s.1) [
    | none ↦ none
    | some y ↦ elim (take_seq y.1) [
      | none ↦ none
      | some q ↦ some (record { series = s.0; fy = y.0; seq = q })
    ]
  ]
]
