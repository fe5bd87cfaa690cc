-- ===== src/Billing/Allocate/Laws.antt =====
-- The shares of `allocatePaise` add up to the total.
use native.Mathlib.Nat.{div-mul-le_self, mod-lt}
use stello_kitchens.Prelude.{
  ℕ, zero, suc, ◌+◌, ◌-◌, ◌*◌, ◌/◌, ◌%◌, ◌≤◌, ◌<◌, ◌≡◌, ◌≢◌, ◌∙◌, refl, ap, List, [], ◌∷◌, map,
  arith, length, get_or, sum, All, length-map, sum-replicate,
}
use stello_kitchens.Prelude.Int.{ℤ}
use stello_kitchens.Billing.Allocate.{
  Share, insert, sort, shares_from, bump, spread, floors, order_of, allocate, allocate_paise,
  usable_weights, index_of,
}

pub length-bump : (i : ℕ) (ps : List ℕ) → length (bump i ps) ≡ length ps
unfolding bump
length-bump i [] = refl
length-bump zero (p ∷ ps) = refl
length-bump (suc i) (p ∷ ps) = ap suc (length-bump i ps)

pub sum-bump : (i : ℕ) (ps : List ℕ) → i < length ps → sum (bump i ps) ≡ sum ps + 1
unfolding bump
sum-bump i [] h = elim h [ ]
sum-bump zero (p ∷ ps) h = omega arith
sum-bump (suc i) (p ∷ ps) h = omega (arith, sum-bump i ps (omega arith))

-- Every index of `order` is one of `n` places.
abbrev pub Within : ℕ → List ℕ → Type 0
Within n = All (λ i. i < n)

pub get_or-Within :
    (n k : ℕ) (order : List ℕ) → Within n order → k < length order → get_or order k 0 < n
get_or-Within n k [] h lt = elim lt [ ]
get_or-Within n zero (i ∷ is) h lt = h.0
get_or-Within n (suc k) (i ∷ is) h lt = get_or-Within n k is h.1 (omega arith)

-- Handing out `rest` paise adds `rest` to the sum.
pub sum-spread :
    (order : List ℕ) (k rest : ℕ) (ps : List ℕ)
    → Within (length ps) order
    → k < length order
    → sum (spread order k rest ps) ≡ sum ps + rest
unfolding spread
sum-spread order k zero ps h lt = omega arith
sum-spread order k (suc rest) ps h lt =
    let i = get_or order k 0 in
    let i_lt = get_or-Within (length ps) k order h lt in
    omega (
      arith,
      sum-spread order ((k + 1) % length order) rest (bump i ps) (rw (length-bump i ps) h)
          (mod-lt (k + 1) (omega arith)),
      sum-bump i ps i_lt,
    )

pub length-spread :
    (order : List ℕ) (k rest : ℕ) (ps : List ℕ) → length (spread order k rest ps) ≡ length ps
unfolding spread
length-spread order k zero ps = refl
length-spread order k (suc rest) ps =
    length-spread order ((k + 1) % length order) rest (bump (get_or order k 0) ps)
    ∙ length-bump (get_or order k 0) ps

-- The whole parts do not exceed the total.
sum-floors-mul : (total s : ℕ) (ws : List ℕ) → sum (floors total s ws) * s ≤ total * sum ws
unfolding floors
sum-floors-mul total s [] = omega arith
sum-floors-mul total s (w ∷ ws) =
    omega (arith, sum-floors-mul total s ws, div-mul-le_self (total * w) s)

pub sum-floors-le : (total : ℕ) (ws : List ℕ) → 0 < sum ws → sum (floors total (sum ws) ws) ≤ total
sum-floors-le total ws h = grind (arith, sum-floors-mul total (sum ws) ws)

Within-insert :
    (n : ℕ) (a : Share) (l : List Share)
    → a.index < n
    → Within n (map index_of l)
    → Within n (map index_of (insert a l))
unfolding insert
Within-insert n a [] h hs = (h, tt)
Within-insert n a (b ∷ l) h hs = ground (arith, Within-insert n a l h hs.1)

length-insert : (a : Share) (l : List Share) → length (insert a l) ≡ suc (length l)
unfolding insert
length-insert a [] = refl
length-insert a (b ∷ l) = ground (arith, length-insert a l)

length-sort : (l : List Share) → length (sort l) ≡ length l
unfolding sort
length-sort [] = refl
length-sort (a ∷ l) = length-insert a (sort l) ∙ ap suc (length-sort l)

Within-sort :
    (n : ℕ) (l : List Share) → Within n (map index_of l) → Within n (map index_of (sort l))
unfolding sort
Within-sort n [] h = h
Within-sort n (a ∷ l) h = Within-insert n a (sort l) h.0 (Within-sort n l h.1)

shares_from-Within :
    (total s i : ℕ) (ws : List ℕ) (n : ℕ)
    → i + length ws ≤ n
    → Within n (map index_of (shares_from total s i ws))
unfolding shares_from
shares_from-Within total s i [] n h = tt
shares_from-Within total s i (w ∷ ws) n h =
    (omega arith, shares_from-Within total s (i + 1) ws n (omega arith))

length-shares_from : (total s i : ℕ) (ws : List ℕ) → length (shares_from total s i ws) ≡ length ws
unfolding shares_from
length-shares_from total s i [] = refl
length-shares_from total s i (w ∷ ws) = ap suc (length-shares_from total s (i + 1) ws)

pub order_of-Within : (total s : ℕ) (ws : List ℕ) → Within (length ws) (order_of total s ws)
unfolding order_of
order_of-Within total s ws =
    Within-sort (length ws) (shares_from total s 0 ws)
      (shares_from-Within total s 0 ws (length ws) (omega arith))

pub length-order_of : (total s : ℕ) (ws : List ℕ) → length (order_of total s ws) ≡ length ws
unfolding order_of
length-order_of total s ws =
    length-map index_of (sort (shares_from total s 0 ws))
    ∙ length-sort (shares_from total s 0 ws)
    ∙ length-shares_from total s 0 ws

pub sum-allocate : (total : ℕ) (ws : List ℕ) → 0 < sum ws → sum (allocate total ws) ≡ total
unfolding allocate
sum-allocate total [] h = elim h [ ]
sum-allocate total (w ∷ ws) h =
    let s = sum (w ∷ ws) in
    let parts = floors total s (w ∷ ws) in
    omega (
      arith,
      sum-floors-le total (w ∷ ws) h,
      sum-spread (order_of total s (w ∷ ws)) 0 (total - sum parts) parts
          (rw (length-map (λ (x : ℕ). total * x / s) (w ∷ ws)) (order_of-Within total s (w ∷ ws)))
          (rw (length-order_of total s (w ∷ ws)) (omega arith)),
    )

pub sum-usable_weights : (w : ℤ) (ws : List ℤ) → 0 < sum (usable_weights (w ∷ ws))
unfolding usable_weights
sum-usable_weights w ws = ground (arith, sum-replicate (length ws) 1)

-- For at least one weight the shares add up to the total, whatever the weights are.
pub sum-allocate_paise :
    (total : ℕ) (weights : List ℤ) → weights ≢ [] → sum (allocate_paise total weights) ≡ total
unfolding allocate_paise
sum-allocate_paise total [] h = absurd (h refl)
sum-allocate_paise total (w ∷ ws) h =
    sum-allocate total (usable_weights (w ∷ ws)) (sum-usable_weights w ws)
