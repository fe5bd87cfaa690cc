-- ===== src/Orders/Rows.antt =====
-- The rows of the running bills (apps/api/prisma/schema.prisma), the user of a request, and the errors.
-- Ids are numbers. Rupee columns are in ten-thousandths, rates in hundredths of a percent.
use stello_kitchens.Prelude.Texts.{Text}
pub use stello_kitchens.Service.{
  AuthUser, Action, AuditEntry, Error, Result, ok, err, ◌>>=◌, ◌>>◌, refuse_if, or_err,
  Result-cases,
}
use stello_kitchens.Prelude.{ℕ, Bool, true, false, List, Option}
use stello_kitchens.Prelude.Int.{ℤ}

pub data OrderStatus : Type 0 where
  open_bill settled cancelled merged split : OrderStatus

abbrev pub is_open : OrderStatus → Bool
is_open OrderStatus.open_bill = true
is_open _ = false

pub data OrderType : Type 0 where
  dine_in takeaway delivery : OrderType

pub record OrderRow : Type 0 where
  pub id : ℕ
  pub tenant_id : ℕ
  pub outlet_id : ℕ
  pub order_type : OrderType
  pub status : OrderStatus
  pub table_id : Option ℕ
  pub customer_name : Option Text
  pub customer_phone : Option Text
  pub allocated_discount : ℕ
  pub subtotal : ℕ
  pub discount_amount : ℕ
  pub tax_amount : ℕ
  pub total : ℕ
  pub service_charge_amount : ℕ
  pub service_charge_rate : ℕ
  pub service_charge_taxable : Bool
  pub service_charge_waived : Bool
  pub service_charge_waived_reason : Option Text
  pub round_off : ℤ
  pub parent_order_id : Option ℕ
  pub split_index : Option ℕ
  pub split_count : Option ℕ
  pub merged_into_order_id : Option ℕ
  pub created_by_id : Option ℕ
  -- The number n of the bill `B-n`.
  pub bill_number : Option ℕ
  pub customer_id : Option ℕ
  pub coupon_code : Option Text
  pub version : ℕ

-- `item` stands for the columns that a line is copied with and that no operation reads: the item,
-- its names, the note, the station, the preparation status and the addons.
pub record LineRow : Type 0 where
  pub id : ℕ
  pub order_id : ℕ
  pub item : ℕ
  pub quantity : ℕ
  pub unit_price : ℕ
  pub line_total : ℕ
  pub tax_rate : ℕ
  pub kot_id : Option ℕ
  pub combo_group_id : Option ℕ
  pub is_combo_component : Bool
  pub split_from_item_id : Option ℕ
  pub split_parts : Option ℕ

-- A kitchen ticket, an order request or a parked cart: all that the operations change is its order.
pub record Attached : Type 0 where
  pub id : ℕ
  pub order_id : ℕ

pub record TableRow : Type 0 where
  pub id : ℕ
  pub tenant_id : ℕ
  pub outlet_id : ℕ

pub record BillingRules : Type 0 where
  pub service_charge_enabled : Bool
  pub service_charge_percent : ℕ
  pub service_charge_taxable : Bool
  pub service_charge_order_types : List OrderType
  pub round_off_enabled : Bool

pub record Db : Type 0 where
  pub orders : List OrderRow
  pub lines : List LineRow
  pub kots : List Attached
  pub requests : List Attached
  pub parked : List Attached
  pub tables : List TableRow
  pub rules : ℕ → ℕ → BillingRules
  pub audit_log : List AuditEntry
  -- Every new row takes the next id.
  pub next_id : ℕ
