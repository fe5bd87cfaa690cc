-- ===== src/Prelude/Sums.antt =====
-- Sums of natural numbers: `reduce((s, x) => s + f(x), 0)`.
use Prim.Native.Nat.{ℕ, zero, suc, ◌+◌, ◌*◌, ◌≤◌}
use mathlib.Core.Path.{◌≡◌, refl}
use mathlib.Core.List.{List, [], ◌∷◌, ◌++◌, map}
use native.Mathlib.Omega.{arith}
use stello_kitchens.Prelude.Lists.{All, replicate}

abbrev pub sum_by {ℓ} : {A : Type ℓ} → (A → ℕ) → List A → ℕ
sum_by f [] = 0
sum_by f (x ∷ xs) = f x + sum_by f xs

abbrev pub sum : List ℕ → ℕ
sum [] = 0
sum (x ∷ xs) = x + sum xs

pub sum-append : (xs ys : List ℕ) → sum (xs ++ ys) ≡ sum xs + sum ys
sum-append [] ys = omega arith
sum-append (x ∷ xs) ys = omega (arith, sum-append xs ys)

pub sum-map {ℓ} : {A : Type ℓ} (f : A → ℕ) (xs : List A) → sum (map f xs) ≡ sum_by f xs
sum-map f [] = refl
sum-map f (x ∷ xs) = omega (arith, sum-map f xs)

pub sum_by-append {ℓ} :
    {A : Type ℓ} (f : A → ℕ) (xs ys : List A) → sum_by f (xs ++ ys) ≡ sum_by f xs + sum_by f ys
sum_by-append f [] ys = omega arith
sum_by-append f (x ∷ xs) ys = omega (arith, sum_by-append f xs ys)

pub sum_by_le {ℓ} :
    {A : Type ℓ} (f g : A → ℕ) (xs : List A) → All (λ x. f x ≤ g x) xs → sum_by f xs ≤ sum_by g xs
sum_by_le f g [] h = omega arith
sum_by_le f g (x ∷ xs) (p, ps) = omega (arith, sum_by_le f g xs ps)

pub sum_by-add {ℓ} :
    {A : Type ℓ} (f g : A → ℕ) (xs : List A)
    → sum_by (λ x. f x + g x) xs ≡ sum_by f xs + sum_by g xs
sum_by-add f g [] = omega arith
sum_by-add f g (x ∷ xs) = omega (arith, sum_by-add f g xs)

pub sum_by-mul {ℓ} :
    {A : Type ℓ} (f : A → ℕ) (k : ℕ) (xs : List A) → sum_by (λ x. f x * k) xs ≡ sum_by f xs * k
sum_by-mul f k [] = omega arith
sum_by-mul f k (x ∷ xs) = omega (arith, sum_by-mul f k xs)

pub sum-replicate : (n a : ℕ) → sum (replicate n a) ≡ n * a
sum-replicate zero a = omega arith
sum-replicate (suc n) a = omega (arith, sum-replicate n a)
