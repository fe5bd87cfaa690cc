-- ===== src/Edge/Digits.antt =====
-- The digits of a number: how many there are, and that they are read back.
use stello_kitchens.Prelude.{
  ℕ, zero, suc, ◌+◌, ◌-◌, ◌*◌, ◌/◌, ◌%◌, ◌≤◌, ◌<◌, ◌≡◌, refl, ap, ◌∙◌, inl, inr, Bool, true, false,
  [], ◌∷◌, ◌++◌, some, arith, ltb, leb, length, replicate, all, Bool-cases, length-append,
  length-replicate,
}
use stello_kitchens.Prelude.Texts.{Text}
use stello_kitchens.Edge.{digit, digits_of, decimal, pad_start, is_digit, number, take_seq}

pub number-append :
    (acc c : ℕ) (xs : Text) → number acc (xs ++ (c ∷ [])) ≡ number acc xs * 10 + (c - b'0')
unfolding number
number-append acc c [] = refl
number-append acc c (x ∷ xs) = number-append (acc * 10 + (x - b'0')) c xs

-- With the fuel that it is given, the digits are all of the number.
pub number-digits_of : (f n : ℕ) → n < f → number 0 (digits_of f n) ≡ n
unfolding digits_of number
number-digits_of zero n h = absurd (omega arith)
number-digits_of (suc f) n h = elim (Bool-cases (ltb n 10)) [
  | inl one ↦ rw one (omega arith)
  | inr more ↦
      let big : 10 ≤ n = ground arith in
      let rest = number-digits_of f (n / 10) (omega arith) in
      rw more (number-append 0 (digit (n % 10)) (digits_of f (n / 10)) ∙ omega (arith, rest))
]

pub all-append :
    (p : ℕ → Bool) (xs ys : Text) → all p xs ≡ true → all p ys ≡ true → all p (xs ++ ys) ≡ true
all-append p [] ys h k = k
all-append p (x ∷ xs) ys h k = ground (arith, all-append p xs ys)

pub digits_of-all : (f n : ℕ) → all is_digit (digits_of f n) ≡ true
unfolding digits_of
digits_of-all zero n = refl
digits_of-all (suc f) n = elim (Bool-cases (ltb n 10)) [
  | inl one ↦ rw one (ground arith)
  | inr more ↦ rw more (
      all-append is_digit (digits_of f (n / 10)) (digit (n % 10) ∷ []) (digits_of-all f (n / 10))
        (ground arith))
]

pub number-zeros : (k : ℕ) (t : Text) → number 0 (replicate k b'0' ++ t) ≡ number 0 t
unfolding number
number-zeros zero t = refl
number-zeros (suc k) t = number-zeros k t

pub replicate-all : (k : ℕ) → all is_digit (replicate k b'0') ≡ true
replicate-all zero = refl
replicate-all (suc k) = replicate-all k

pub take_seq-digits :
    (t : Text) (n : ℕ)
    → all is_digit t ≡ true
    → leb 6 (length t) ≡ true
    → number 0 t ≡ n
    → take_seq t ≡ some n
take_seq-digits t n digits long value = rw (digits, long) (ap some value)

-- The sequence number is read back from its six digits or more.
pub take_seq-pad_start : (n : ℕ) → take_seq (pad_start 6 (decimal n)) ≡ some n
unfolding pad_start decimal
take_seq-pad_start n =
    let t = digits_of (suc n) n in
    let zeros = replicate (6 - length t) b'0' in
    let digits : all is_digit (zeros ++ t) ≡ true =
      all-append is_digit zeros t (replicate-all (6 - length t)) (digits_of-all (suc n) n) in
    let value : number 0 (zeros ++ t) ≡ n =
      number-zeros (6 - length t) t ∙ number-digits_of (suc n) n (omega arith) in
    let long : leb 6 (length (zeros ++ t)) ≡ true =
      ground (arith, length-append zeros t, length-replicate {A = ℕ} (6 - length t) b'0') in
    take_seq-digits (zeros ++ t) n digits long value

pub digits_of-fuel : (f g n : ℕ) → n < f → n < g → digits_of f n ≡ digits_of g n
unfolding digits_of
digits_of-fuel zero g n h k = absurd (omega arith)
digits_of-fuel (suc f) zero n h k = absurd (omega arith)
digits_of-fuel (suc f) (suc g) n h k = elim (Bool-cases (ltb n 10)) [
  | inl one ↦ rw one refl
  | inr more ↦
      let big : 10 ≤ n = ground arith in
      rw more (
        ap (λ t. t ++ (digit (n % 10) ∷ []))
          (digits_of-fuel f g (n / 10) (omega arith) (omega arith)))
]

pub decimal_one : (n : ℕ) → n < 10 → decimal n ≡ digit n ∷ []
unfolding decimal digits_of
decimal_one n h = ground arith

pub decimal_more : (n : ℕ) → 10 ≤ n → decimal n ≡ decimal (n / 10) ++ (digit (n % 10) ∷ [])
unfolding decimal digits_of
decimal_more n h =
    let more : ltb n 10 ≡ false = ground arith in
    rw more (
      ap (λ t. t ++ (digit (n % 10) ∷ []))
        (digits_of-fuel n (suc (n / 10)) (n / 10) (omega arith) (omega arith)))

-- Two digits, of a number below a hundred.
pub pad_two : (n : ℕ) → n < 100 → pad_start 2 (decimal n) ≡ digit (n / 10) ∷ digit (n % 10) ∷ []
unfolding pad_start
pad_two n h = elim (Bool-cases (ltb n 10)) [
  | inl one ↦
      let small : n < 10 = ground arith in
      let tens : b'0' ≡ digit (n / 10) = omega arith in
      let ones : digit n ≡ digit (n % 10) = omega arith in
      ap (λ t. replicate (2 - length t) b'0' ++ t) (decimal_one n small)
      ∙ (λ i. tens i ∷ ones i ∷ [])
  | inr more ↦
      let big : 10 ≤ n = ground arith in
      let both =
        decimal_more n big
        ∙ ap (λ t. t ++ (digit (n % 10) ∷ [])) (decimal_one (n / 10) (omega arith)) in
      ap (λ t. replicate (2 - length t) b'0' ++ t) both
]

pub digit-is_digit : (n : ℕ) → n < 10 → is_digit (digit n) ≡ true
digit-is_digit n h = ground arith
