-- ===== src/Printing.antt =====
-- packages/shared/src/printing: slips as lines of fixed width.
pub mod Layout
