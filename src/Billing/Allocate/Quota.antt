-- ===== src/Billing/Allocate/Quota.antt =====
-- The quota rule of `allocatePaise`: no share is more than a paisa above its whole part. The leftover
-- is less than the number of shares, and `order` names each share once.
use native.Mathlib.Numerals.{add-one}
use native.Mathlib.Nat.{mod-lt, mod-eq_of_lt, mod-add-div'}
use stello_kitchens.Prelude.{
  ℕ, zero, suc, ◌+◌, ◌-◌, ◌*◌, ◌/◌, ◌≤◌, ◌<◌, ◌≡◌, refl, List, [], ◌∷◌, map, arith, length, get_or,
  sum, take, drop, length-map, length-replicate, ◌==◌, if◌then◌else◌, get_or-map,
}
use stello_kitchens.Prelude.Int.{ℤ, max_zero}
use stello_kitchens.Billing.Allocate.{
  Share, insert, sort, shares_from, bump, spread, floors, order_of, allocate, allocate_paise,
  usable_weights, index_of,
}
use stello_kitchens.Billing.Allocate.Laws.{length-order_of, length-bump, sum-usable_weights}

count : ℕ → List ℕ → ℕ
count j [] = 0
count j (i ∷ is) = (if i == j then 1 else 0) + count j is

count-take-le : (j n : ℕ) (is : List ℕ) → count j (take n is) ≤ count j is
unfolding count
count-take-le j zero is = omega arith
count-take-le j (suc n) [] = omega arith
count-take-le j (suc n) (i ∷ is) = omega (arith, count-take-le j n is)

count-insert :
    (j : ℕ) (a : Share) (l : List Share)
    → count j (map index_of (insert a l)) ≡ count j (map index_of (a ∷ l))
unfolding count insert
count-insert j a [] = refl
count-insert j a (b ∷ l) = ground (arith, count-insert j a l)

count-sort : (j : ℕ) (l : List Share) → count j (map index_of (sort l)) ≡ count j (map index_of l)
unfolding count sort
count-sort j [] = refl
count-sort j (a ∷ l) = omega (arith, count-insert j a (sort l), count-sort j l)

count-shares_from :
    (j total s i : ℕ) (ws : List ℕ)
    → (j < i → count j (map index_of (shares_from total s i ws)) ≡ 0)
      × (count j (map index_of (shares_from total s i ws)) ≤ 1)
unfolding count shares_from
count-shares_from j total s i [] = omega arith
count-shares_from j total s i (w ∷ ws) = ground (arith, count-shares_from j total s (i + 1) ws)

pub get_or-bump :
    (i j : ℕ) (ps : List ℕ)
    → j < length ps
    → get_or (bump i ps) j 0 ≡ get_or ps j 0 + (if i == j then 1 else 0)
unfolding bump
get_or-bump i j [] h = elim h [ ]
get_or-bump zero zero (p ∷ ps) h = omega arith
get_or-bump zero (suc j) (p ∷ ps) h = ground arith
get_or-bump (suc i) zero (p ∷ ps) h = ground arith
get_or-bump (suc i) (suc j) (p ∷ ps) h = ground (arith, get_or-bump i j ps)

take-drop-suc :
    (k n : ℕ) (is : List ℕ)
    → k < length is
    → take (suc n) (drop k is) ≡ get_or is k 0 ∷ take n (drop (suc k) is)
take-drop-suc k n [] h = elim h [ ]
take-drop-suc zero n (i ∷ is) h = refl
take-drop-suc (suc k) n (i ∷ is) h = take-drop-suc k n is (omega arith)

-- Without a wrap-around the loop visits the next `rest` places of the order.
get_or-spread :
    (order : List ℕ) (k rest j : ℕ) (ps : List ℕ)
    → k + rest < length order
    → j < length ps
    → get_or (spread order k rest ps) j 0 ≡ get_or ps j 0 + count j (take rest (drop k order))
unfolding spread count
get_or-spread order k zero j ps h lt = omega arith
get_or-spread order k (suc rest) j ps h lt =
    let i = get_or order k 0 in
    rw
      (
        take-drop-suc k rest order (omega arith),
        mod-eq_of_lt {n = k + 1} {m = length order} (omega arith),
        add-one k,
      )
      (omega (
        arith,
        get_or-spread order (suc k) rest j (bump i ps) (omega arith) (rw (length-bump i ps) lt),
        get_or-bump i j ps lt,
      ))

total-mul-lt :
    (total s : ℕ) (ws : List ℕ)
    → 0 < s
    → total * sum ws + length ws ≤ (sum (floors total s ws) + length ws) * s
unfolding floors
total-mul-lt total s [] h = omega arith
total-mul-lt total s (w ∷ ws) h =
    omega (arith, total-mul-lt total s ws h, mod-add-div' (total * w) s, mod-lt (total * w) h)

mul-lt_cancel : (a b s : ℕ) → a * s < b * s → a < b
mul-lt_cancel a b s h = grind arith

pub rest-lt :
    (total : ℕ) (ws : List ℕ) → 0 < sum ws → total - sum (floors total (sum ws) ws) < length ws
rest-lt total [] h = elim h [ ]
rest-lt total (w ∷ ws) h =
    let s = sum (w ∷ ws) in
    let n = length (w ∷ ws) in
    let parts = sum (floors total s (w ∷ ws)) in
    let below =
      mul-lt_cancel total (parts + n) s (omega (arith, total-mul-lt total s (w ∷ ws) h)) in
    omega (arith, below)

count-order_of : (j total s : ℕ) (ws : List ℕ) → count j (order_of total s ws) ≤ 1
unfolding order_of
count-order_of j total s ws =
    omega (arith, count-sort j (shares_from total s 0 ws), (count-shares_from j total s 0 ws).1)

-- A share is its whole part, or one paisa more.
pub allocate-quota :
    (total j : ℕ) (ws : List ℕ)
    → j < length ws
    → 0 < sum ws
    → let part = total * get_or ws j 0 / sum ws in
      (part ≤ get_or (allocate total ws) j 0) × (get_or (allocate total ws) j 0 ≤ part + 1)
unfolding allocate
allocate-quota total j ws lt h =
    let s = sum ws in
    let parts = floors total s ws in
    let rest = total - sum parts in
    let order = order_of total s ws in
    omega (
      arith,
      get_or-spread order 0 rest j parts
          (omega (arith, length-order_of total s ws, rest-lt total ws h))
          (rw (length-map (λ (w : ℕ). total * w / s) ws) lt),
      count-take-le j rest order,
      count-order_of j total s ws,
      get_or-map (λ (w : ℕ). total * w / s) ws j 0 0 lt,
    )

length-usable_weights : (ws : List ℤ) → length (usable_weights ws) ≡ length ws
unfolding usable_weights
length-usable_weights ws =
    ground (arith, length-map max_zero ws, length-replicate {A = ℕ} (length ws) 1)

-- Each share of `allocatePaise` is the exact proportion rounded down, or one
-- paisa more.
pub allocate_paise-quota :
    (total j : ℕ) (weights : List ℤ)
    → j < length weights
    → let ws = usable_weights weights in
      let part = total * get_or ws j 0 / sum ws in
      (part ≤ get_or (allocate_paise total weights) j 0)
      × (get_or (allocate_paise total weights) j 0 ≤ part + 1)
unfolding allocate_paise
allocate_paise-quota total j [] h = elim h [ ]
allocate_paise-quota total j (w ∷ ws) h =
    allocate-quota total j (usable_weights (w ∷ ws)) (rw (length-usable_weights (w ∷ ws)) h)
      (sum-usable_weights w ws)
