-- ===== src/Edge/Lengths.antt =====
-- How long an offline bill number is, and for which sequence numbers there is one.
use stello_kitchens.Prelude.{
  ℕ, zero, suc, ◌+◌, ◌-◌, ◌*◌, ◌/◌, ◌%◌, ◌≤◌, ◌<◌, ◌≡◌, ◌↔◌, refl, ap, inl, inr, true, [], ◌∷◌,
  ◌++◌, some, arith, ltb, leb, if◌then◌else◌, length, replicate, Bool-cases, length-append,
  length-replicate,
}
use stello_kitchens.Prelude.Texts.{Text}
use stello_kitchens.Edge.{
  digit, digits_of, decimal, pad_start, fiscal_year_code, format_bill_number, edge_series_code,
}
use stello_kitchens.Edge.Laws.{pad_three, edge_series_code-is}

abbrev pub tens : ℕ → ℕ
tens zero = 1
tens (suc k) = 10 * tens k

tens-positive : (k : ℕ) → 0 < tens k
tens-positive zero = omega arith
tens-positive (suc k) = omega (arith, tens-positive k)

length-digits_of : (k f n : ℕ) → n < tens (suc k) → length (digits_of f n) ≤ suc k
unfolding digits_of
length-digits_of k zero n h = omega arith
length-digits_of zero (suc f) n h = let one : ltb n 10 ≡ true = ground arith in rw one (omega arith)
length-digits_of (suc k) (suc f) n h = elim (Bool-cases (ltb n 10)) [
  | inl one ↦ rw one (omega arith)
  | inr more ↦ rw more (
      omega (
        arith,
        length-append (digits_of f (n / 10)) (digit (n % 10) ∷ []),
        length-digits_of k f (n / 10) (omega arith),
      ))
]

length-pad_start : (w n k : ℕ) → n < tens (suc k) → suc k ≤ w → length (pad_start w (decimal n)) ≡ w
unfolding pad_start decimal
length-pad_start w n k h fits =
    let t = digits_of (suc n) n in
    omega (
      arith,
      length-append (replicate (w - length t) b'0') t,
      length-replicate {A = ℕ} (w - length t) b'0',
      length-digits_of k (suc n) n h,
    )

length-fiscal_year_code : (year month : ℕ) → length (fiscal_year_code year month) ≡ 4
unfolding fiscal_year_code
length-fiscal_year_code year month =
    let start = if leb 3 month then year else year - 1 in
    omega (
      arith,
      length-append (pad_start 2 (decimal (start % 100)))
          (pad_start 2 (decimal ((start + 1) % 100))),
      length-pad_start 2 (start % 100) 1 (omega arith) (omega arith),
      length-pad_start 2 ((start + 1) % 100) 1 (omega arith) (omega arith),
    )

more_digits : (k f n : ℕ) → tens k ≤ n → n < f → suc k ≤ length (digits_of f n)
unfolding digits_of
more_digits k zero n h enough = absurd (omega arith)
more_digits zero (suc f) n h enough = elim (Bool-cases (ltb n 10)) [
  | inl one ↦ rw one (omega arith)
  | inr more ↦ rw more (omega (arith, length-append (digits_of f (n / 10)) (digit (n % 10) ∷ [])))
]
more_digits (suc k) (suc f) n h enough = elim (Bool-cases (ltb n 10)) [
  | inl one ↦ absurd (ground (arith, tens-positive k))
  | inr more ↦ rw more (
      omega (
        arith,
        length-append (digits_of f (n / 10)) (digit (n % 10) ∷ []),
        more_digits k f (n / 10) (omega arith) (omega (arith, tens-positive k)),
      ))
]

-- A number of more digits than the padding is as long as its digits.
length-pad_start_at_least : (w n k : ℕ) → tens k ≤ n → suc k ≤ length (pad_start w (decimal n))
unfolding pad_start decimal
length-pad_start_at_least w n k h =
    let t = digits_of (suc n) n in
    omega (
      arith,
      length-append (replicate (w - length t) b'0') t,
      more_digits k (suc n) n h (omega arith),
    )

length-pad_start_at_most :
    (w n k : ℕ) → n < tens (suc k) → w ≤ suc k → length (pad_start w (decimal n)) ≤ suc k
unfolding pad_start decimal
length-pad_start_at_most w n k h wide =
    let t = digits_of (suc n) n in
    omega (
      arith,
      length-append (replicate (w - length t) b'0') t,
      length-replicate {A = ℕ} (w - length t) b'0',
      length-digits_of k (suc n) n h,
    )

-- How many numbers a series has in a fiscal year, counted from nought: the last is 9,999,999 for the
-- first 99 devices and 999,999 for the others.
abbrev pub numbers_of : ℕ → ℕ
numbers_of index = if ltb index 100 then 10_000_000 else 1_000_000

-- The two lengths that vary.
fits_iff :
    (index seq : ℕ)
    → index ≤ 999
    → (length (pad_start 2 (decimal index)) + length (pad_start 6 (decimal seq)) ≤ 9)
      ↔ (seq < numbers_of index)
fits_iff index seq small = elim (Bool-cases (ltb index 100)) [
  | inl few ↦
      let two = length-pad_start 2 index 1 (ground arith) (omega arith) in
      rw few (
        (λ short. elim (Bool-cases (ltb seq 10_000_000)) [
          | inl below ↦ ground arith
          | inr above ↦
              absurd (omega (arith, length-pad_start_at_least 6 seq 7 (ground arith), two))
        ]),
        λ below. omega (arith, length-pad_start_at_most 6 seq 6 below (omega arith), two),
      )
  | inr many ↦
      let three = ap length (pad_three index (ground arith) (omega arith)) in
      rw many (
        (λ short. elim (Bool-cases (ltb seq 1_000_000)) [
          | inl below ↦ ground arith
          | inr above ↦
              absurd (omega (arith, length-pad_start_at_least 6 seq 6 (ground arith), three))
        ]),
        λ below. omega (arith, length-pad_start 6 seq 5 below (omega arith), three),
      )
]

-- A device of an outlet has a number for a bill of a fiscal year exactly when the bill's sequence number
-- is below ten million for the devices 1 to 99, and below a million for the devices 100 to 999.
pub format_bill_number-fits :
    (index year month seq : ℕ) {series : Text}
    → edge_series_code index ≡ some series
    → ((n : Text) × (format_bill_number series (fiscal_year_code year month) seq ≡ some n))
      ↔ (seq < (if ltb index 100 then 10_000_000 else 1_000_000))
unfolding format_bill_number
format_bill_number-fits index year month seq {series} h =
    let (small, is_code) = edge_series_code-is index {s = series} h in
    let fy = fiscal_year_code year month in
    let tail = pad_start 6 (decimal seq) in
    let whole = series ++ (b'/' ∷ (fy ++ (b'/' ∷ tail))) in
    let size : length whole ≡ length (pad_start 2 (decimal index)) + length tail + 7 = omega (
      arith,
      length-append series (b'/' ∷ (fy ++ (b'/' ∷ tail))),
      length-append fy (b'/' ∷ tail),
      length-fiscal_year_code year month,
      ap length is_code,
    ) in
    let fits = fits_iff index seq small in
    elim (Bool-cases (ltb 16 (length whole))) [
      | inl long ↦
          rw long
            ((λ (n, written). absurd (cc written)), λ below. absurd (ground (arith, fits.1 below)))
      | inr short ↦ rw short ((λ written. fits.0 (ground arith)), λ below. (whole, refl))
    ]
