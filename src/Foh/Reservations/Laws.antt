-- ===== src/Foh/Reservations/Laws.antt =====
-- When two reservations clash.
use stello_kitchens.Prelude.{ℕ, ◌+◌, ◌*◌, ◌≤◌, ◌<◌, ◌≡◌, ◌↔◌, max, true, arith}
use stello_kitchens.Foh.Reservations.{intervals_overlap}

-- The instant lies in the reservation; its end is free again.
abbrev pub Holds : ℕ → ℕ → ℕ → Type 0
Holds start minutes t = (start ≤ t) × (t < start + minutes * 60_000)

-- Two reservations of some length clash exactly when an instant lies in both.
pub intervals_overlap_iff :
    (a_start a_minutes b_start b_minutes : ℕ)
    → 0 < a_minutes
    → 0 < b_minutes
    → (intervals_overlap a_start a_minutes b_start b_minutes ≡ true)
      ↔ ((t : ℕ) × Holds a_start a_minutes t × Holds b_start b_minutes t)
unfolding intervals_overlap
intervals_overlap_iff a_start a_minutes b_start b_minutes ha hb =
    (λ h. (max a_start b_start, ground arith, ground arith), λ h. let (t, a, b) = h in ground arith)
