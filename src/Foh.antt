-- ===== src/Foh.antt =====
-- packages/shared/src/foh.ts: the floor plan and the reservations.
pub mod Floor
pub mod Reservations
