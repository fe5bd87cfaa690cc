-- ===== src/Procurement/PurchaseOrders.antt =====
-- The purchase order's states, and the quantities and amounts of its lines. Rates and percentages are
-- in hundredths.
pub mod Laws
mod Tests
use stello_kitchens.Prelude.{
  ℕ, ◌+◌, ◌-◌, ◌*◌, Bool, true, false, not, ◌||◌, List, [], ◌∷◌, Option, none, some, leb,
  if◌then◌else◌, keep, any, all,
}
use stello_kitchens.Prelude.Rounding.{round_div}

pub data PoStatus : Type 0 where
  draft approved sent partially_received received closed cancelled : PoStatus

pub data PoAction : Type 0 where
  approve send cancel close : PoAction

-- `PO_TRANSITIONS`.
abbrev pub from_of : PoAction → List PoStatus
from_of approve = draft ∷ []
from_of send = approved ∷ []
from_of cancel = draft ∷ approved ∷ sent ∷ []
from_of close = partially_received ∷ received ∷ []

abbrev pub to_of : PoAction → PoStatus
to_of approve = approved
to_of send = sent
to_of cancel = cancelled
to_of close = closed

abbrev pub same : PoStatus → PoStatus → Bool
same draft draft = true
same approved approved = true
same sent sent = true
same partially_received partially_received = true
same received received = true
same closed closed = true
same cancelled cancelled = true
same _ _ = false

unfoldable pub next_po_status : PoStatus → PoAction → Option PoStatus
next_po_status status action =
    if any (same status) (from_of action) then some (to_of action) else none

abbrev pub allowed : PoStatus → PoAction → Bool
allowed status action = elim (next_po_status status action) [ none ↦ false | some _ ↦ true ]

unfoldable pub po_actions_for : PoStatus → List PoAction
unfolding next_po_status
po_actions_for status = keep (allowed status) (approve ∷ send ∷ cancel ∷ close ∷ [])

unfoldable pub can_receive_po : PoStatus → Bool
can_receive_po status = same status approved || same status sent || same status partially_received

unfoldable pub can_edit_po : PoStatus → Bool
can_edit_po status = same status draft

pub record ReceiptLine : Type 0 where
  pub ordered_qty : ℕ
  pub received_qty : ℕ

-- In whole thousandths the tolerance of 1e-9 makes no difference.
unfoldable pub status_after_receipt : List ReceiptLine → PoStatus
status_after_receipt lines =
    if all (λ l. leb l.ordered_qty l.received_qty) lines then received else partially_received

-- `Math.max(0, round3(orderedQty * (1 + tolerancePct / 100) - receivedQty))`.
unfoldable pub max_receivable : ℕ → ℕ → ℕ → ℕ
max_receivable ordered received_before tolerance =
    round_div (ordered * (10000 + tolerance) - received_before * 10000) 10000

pub record LineAmounts : Type 0 where
  pub base_paise : ℕ
  pub tax_paise : ℕ

-- The quantity in thousandths times the rate in hundredths of a rupee.
unfoldable pub line_amounts_paise : ℕ → ℕ → ℕ → LineAmounts
line_amounts_paise qty rate tax_rate =
    let base = round_div (qty * rate) 1000 in
    record { base_paise = base; tax_paise = round_div (base * tax_rate) 10000 }
