-- ===== src/Procurement.antt =====
-- packages/shared/src/procurement.ts: units, purchase orders and reorder suggestions. Quantities are in
-- thousandths of a unit, as the database keeps them.
pub mod Units
pub mod PurchaseOrders
pub mod Reorder
