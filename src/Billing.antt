-- ===== src/Billing.antt =====
-- packages/shared/src/billing.ts: the bill, its splits, and the hours in which an item is sold.
pub mod Bill
pub mod Allocate
pub mod SplitEqually
pub mod Window
