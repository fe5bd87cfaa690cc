-- ===== src/Foh/Reservations/Tests.antt =====
-- Two bookings at a run.
