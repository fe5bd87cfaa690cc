-- ===== src/Orders.antt =====
-- Running bills: apps/api/src/orders/orders.service.ts and apps/api/src/billing/order-ops.service.ts.
-- A transaction is a function on the rows that it can see and change; what it throws rolls it back.
-- Row locks only order transactions, so a locked read is a read.
pub mod Rows
pub mod Store
pub mod Totals
pub mod Merge
pub mod Transfer
pub mod Split
pub mod Void
pub mod Preview
pub mod Settle
pub mod Punch
pub mod Create
pub mod Closed
mod Sample
