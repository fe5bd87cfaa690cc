-- ===== src/Edge/Laws.antt =====
-- Offline bill numbers are read back as they were written.
use mathlib.Core.Path.{subst}
use stello_kitchens.Prelude.{
  ℕ, ◌+◌, ◌-◌, ◌/◌, ◌%◌, ◌==◌, ◌≤◌, ◌<◌, ◌≡◌, refl, ap, sym, ◌∙◌, inl, inr, true, false, ◌||◌, [],
  ◌∷◌, ◌++◌, some, arith, ltb, leb, if◌then◌else◌, length, replicate, Bool-cases,
}
use stello_kitchens.Prelude.Texts.{Text}
use stello_kitchens.Edge.{
  digit, decimal, pad_start, fiscal_year_code, format_bill_number, edge_series_code, is_digit,
  is_code, take_series, take_year, take_seq, parse_bill_number,
}
use stello_kitchens.Edge.Digits.{
  take_seq-pad_start, decimal_one, decimal_more, pad_two, digit-is_digit,
}

take_year-pads :
    (a b : ℕ) (rest : Text)
    → a < 100
    → b < 100
    → let y = pad_start 2 (decimal a) ++ pad_start 2 (decimal b) in
      take_year (y ++ (b'/' ∷ rest)) ≡ some (y, rest)
unfolding take_year
take_year-pads a b rest h k =
    rw (pad_two a h, pad_two b k)
      (rw
        (
          digit-is_digit (a / 10) (omega arith),
          digit-is_digit (a % 10) (omega arith),
          digit-is_digit (b / 10) (omega arith),
          digit-is_digit (b % 10) (omega arith),
        )
        refl)

-- The year is read back.
take_year-fiscal_year_code :
    (year month : ℕ) (rest : Text)
    → take_year (fiscal_year_code year month ++ (b'/' ∷ rest))
      ≡ some (fiscal_year_code year month, rest)
unfolding fiscal_year_code
take_year-fiscal_year_code year month rest =
    let start = if leb 3 month then year else year - 1 in
    take_year-pads (start % 100) ((start + 1) % 100) rest (omega arith) (omega arith)

is_digit-is_code : (c : ℕ) → is_digit c ≡ true → (is_code c ≡ true) × ((c == b'/') ≡ false)
is_digit-is_code c h = ground arith

-- Three digits, of a number from a hundred to a thousand.
pub pad_three :
    (n : ℕ)
    → 100 ≤ n
    → n < 1000
    → pad_start 2 (decimal n) ≡ digit (n / 10 / 10) ∷ digit (n / 10 % 10) ∷ digit (n % 10) ∷ []
unfolding pad_start
pad_three n h k =
    let tens =
      decimal_more (n / 10) (omega arith)
      ∙ ap (λ t. t ++ (digit (n / 10 % 10) ∷ [])) (decimal_one (n / 10 / 10) (omega arith)) in
    let all_three = decimal_more n (omega arith) ∙ ap (λ t. t ++ (digit (n % 10) ∷ [])) tens in
    ap (λ t. replicate (2 - length t) b'0' ++ t) all_three

-- The code of a series is read back, up to the slash.
take_series-pad :
    (i : ℕ) (rest : Text)
    → i ≤ 999
    → let s = b'E' ∷ pad_start 2 (decimal i) in take_series (s ++ (b'/' ∷ rest)) ≡ some (s, rest)
unfolding take_series
take_series-pad i rest h = elim (Bool-cases (ltb i 100)) [
  | inl small ↦
      let a = is_digit-is_code (digit (i / 10)) (digit-is_digit (i / 10) (ground arith)) in
      let b = is_digit-is_code (digit (i % 10)) (digit-is_digit (i % 10) (omega arith)) in
      rw (pad_two i (ground arith)) (rw (a.0, b.0) refl)
  | inr large ↦
      let big : 100 ≤ i = ground arith in
      let a = is_digit-is_code (digit (i / 10 / 10)) (digit-is_digit (i / 10 / 10) (omega arith)) in
      let b = is_digit-is_code (digit (i / 10 % 10)) (digit-is_digit (i / 10 % 10) (omega arith)) in
      let c = is_digit-is_code (digit (i % 10)) (digit-is_digit (i % 10) (omega arith)) in
      rw (pad_three i big (omega arith)) (rw (a.0, b.0, c.1, c.0) refl)
]

pub edge_series_code-is :
    (i : ℕ) {s : Text}
    → edge_series_code i ≡ some s
    → (i ≤ 999) × (s ≡ b'E' ∷ pad_start 2 (decimal i))
unfolding edge_series_code
edge_series_code-is i {s} h = elim (Bool-cases (ltb i 1 || ltb 999 i)) [
  | inl outside ↦ absurd (cc (simp outside at h))
  | inr inside ↦
      let h' : some (b'E' ∷ pad_start 2 (decimal i)) ≡ some s = simp inside at h in
      (ground arith, cc h')
]

parse_bill_number-parts :
    (n s r y t : Text) (q : ℕ)
    → take_series n ≡ some (s, r)
    → take_year r ≡ some (y, t)
    → take_seq t ≡ some q
    → parse_bill_number n ≡ some (record { series = s; fy = y; seq = q })
unfolding parse_bill_number
parse_bill_number-parts n s r y t q first second third =
    rw (parse_bill_number, first) (rw second (rw third refl))

-- A bill number that is written for a series, a fiscal year and a sequence number has at most sixteen
-- characters and is read back as the three.
pub parse_bill_number-format_bill_number :
    (index year month seq : ℕ) {series n : Text}
    → edge_series_code index ≡ some series
    → format_bill_number series (fiscal_year_code year month) seq ≡ some n
    → (parse_bill_number n
        ≡ some (record { series = series; fy = fiscal_year_code year month; seq = seq }))
      × (length n ≤ 16)
unfolding format_bill_number
parse_bill_number-format_bill_number index year month seq {series} {n} h k =
    let (small, is_code) = edge_series_code-is index {s = series} h in
    let fy = fiscal_year_code year month in
    let tail = pad_start 6 (decimal seq) in
    let whole = series ++ (b'/' ∷ (fy ++ (b'/' ∷ tail))) in
    let first : take_series whole ≡ some (series, fy ++ (b'/' ∷ tail)) =
      subst (λ s. take_series (s ++ (b'/' ∷ (fy ++ (b'/' ∷ tail)))) ≡ some (s, fy ++ (b'/' ∷ tail)))
        (sym is_code) (take_series-pad index (fy ++ (b'/' ∷ tail)) small) in
    let second = take_year-fiscal_year_code year month tail in
    let third = take_seq-pad_start seq in
    elim (Bool-cases (ltb 16 (length whole))) [
      | inl long ↦ absurd (cc (simp long at k))
      | inr short ↦
          let k' : some whole ≡ some n = simp short at k in
          let same : whole ≡ n = cc k' in
          (
            subst (λ t. parse_bill_number t ≡ some (record { series = series; fy = fy; seq = seq }))
                same
                (parse_bill_number-parts whole series (fy ++ (b'/' ∷ tail)) fy tail seq first second
                  third),
            subst (λ t. length t ≤ 16) same (ground arith),
          )
    ]
