-- ===== src/Billing/SplitEqually/Hits.antt =====
-- How often a counter that runs through consecutive numbers hits a check, modulo the number of checks.
use native.Mathlib.Nat.{
  mod-lt, mod-mod, mod-add-mod, mod-eq_of_lt, mod_self, suc-mod, suc-add, add-zero, zero-add,
  div-add-mod', div-eq_of_lt-le, zero-div, zero-mod,
}
use native.Mathlib.Decide.{dec_lt}
use stello_kitchens.Prelude.{
  ℕ, zero, suc, ◌+◌, ◌/◌, ◌%◌, ◌<◌, ◌≡◌, ◌∙◌, ap, arith, ltb, ◌==◌, if◌then◌else◌,
}

-- Of the `n` numbers from `start` on, those that fall on check `c`.
unfoldable pub hits : ℕ → ℕ → ℕ → ℕ → ℕ
hits parts c start zero = 0
hits parts c start (suc n) = (if start % parts == c then 1 else 0) + hits parts c (start + 1) n

shift : (start m : ℕ) → start + 1 + m ≡ start + suc m
shift start m = omega arith

pub hits-add :
    (parts c start m n : ℕ)
    → hits parts c start (m + n) ≡ hits parts c start m + hits parts c (start + m) n
unfolding hits
hits-add parts c start zero n = omega (
  arith,
  ap (λ k. hits parts c start k) (zero-add n),
  ap (λ s. hits parts c s n) (add-zero start),
)
hits-add parts c start (suc m) n =
    rw suc-add
      (omega (arith, hits-add parts c (start + 1) m n, ap (λ s. hits parts c s n) (shift start m)))

-- The offset only counts modulo the number of checks.
pub hits-mod : (parts c start n : ℕ) → hits parts c (start % parts) n ≡ hits parts c start n
unfolding hits
hits-mod parts c start zero = omega arith
hits-mod parts c start (suc n) = rw (mod-mod start parts) (
    omega (
      arith,
      hits-mod parts c (start % parts + 1) n,
      ap (λ s. hits parts c s n) (mod-add-mod start parts 1),
      hits-mod parts c (start + 1) n,
    ))

div_same : (n parts : ℕ) → 0 < parts → suc (n % parts) < parts → suc n / parts ≡ n / parts
div_same n parts h inside =
    div-eq_of_lt-le parts (omega (arith, div-add-mod' n parts))
      (omega (arith, div-add-mod' n parts))

div_next : (n parts : ℕ) → 0 < parts → suc (n % parts) ≡ parts → suc n / parts ≡ n / parts + 1
div_next n parts h last =
    div-eq_of_lt-le parts (omega (arith, div-add-mod' n parts))
      (omega (arith, div-add-mod' n parts))

mod_same : (n parts : ℕ) → suc (n % parts) < parts → suc n % parts ≡ suc (n % parts)
mod_same n parts inside = suc-mod n parts ∙ mod-eq_of_lt inside

mod_next : (n parts : ℕ) → suc (n % parts) ≡ parts → suc n % parts ≡ 0
mod_next n parts last = suc-mod n parts ∙ ap (λ t. t % parts) last ∙ mod_self parts

hits_snoc :
    (parts c start n : ℕ)
    → hits parts c start (suc n)
      ≡ hits parts c start n + (if (start + n) % parts == c then 1 else 0)
unfolding hits
hits_snoc parts c start zero = rw (add-zero start) (omega arith)
hits_snoc parts c start (suc n) =
    rw (← shift start n) (omega (arith, hits_snoc parts c (start + 1) n))

-- Counting from zero, check `c` is hit once in each full round, and once more if the last round
-- reaches it.
pub hits_closed :
    (parts c n : ℕ)
    → c < parts
    → hits parts c 0 n ≡ n / parts + (if ltb c (n % parts) then 1 else 0)
unfolding hits
hits_closed parts c zero h = rw (zero-div parts, zero-mod parts) (ground arith)
hits_closed parts c (suc n) h =
    let ih = hits_closed parts c n h in
    let snoc = rw (zero-add n) at (hits_snoc parts c 0 n) in
    let below = mod-lt n {m = parts} (omega arith) in
    elim (dec_lt (suc (n % parts)) parts) [
      | yes inside ↦
          ground (arith, ih, snoc, mod_same n parts inside, div_same n parts (omega arith) inside)
      | no outside ↦
          let last : suc (n % parts) ≡ parts = omega arith in
          ground (arith, ih, snoc, mod_next n parts last, div_next n parts (omega arith) last)
    ]
