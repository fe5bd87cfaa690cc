-- ===== src/Foh/Reservations.antt =====
-- The reservations of packages/shared/src/foh.ts: their states, and when two clash. Instants are in
-- milliseconds.
pub mod Laws
mod Tests
use stello_kitchens.Prelude.{ℕ, ◌+◌, ◌*◌, Bool, ◌&&◌, List, [], ◌∷◌, ltb}

pub data ReservationStatus : Type 0 where
  booked confirmed seated no_show cancelled : ReservationStatus

-- `RESERVATION_TRANSITIONS`.
abbrev pub reservation_transitions : ReservationStatus → List ReservationStatus
reservation_transitions booked = confirmed ∷ (seated ∷ (no_show ∷ (cancelled ∷ [])))
reservation_transitions confirmed = booked ∷ (seated ∷ (no_show ∷ (cancelled ∷ [])))
reservation_transitions seated = []
reservation_transitions no_show = booked ∷ []
reservation_transitions cancelled = booked ∷ []

unfoldable pub intervals_overlap : ℕ → ℕ → ℕ → ℕ → Bool
intervals_overlap a_start a_minutes b_start b_minutes =
    ltb a_start (b_start + b_minutes * 60_000) && ltb b_start (a_start + a_minutes * 60_000)
