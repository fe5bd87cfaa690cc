-- ===== src/Procurement/PurchaseOrders/Laws.antt =====
-- A purchase order over any sequence of actions and receipts.
use stello_kitchens.Prelude.{
  ℕ, ◌+◌, ◌-◌, ◌*◌, ◌≤◌, ◌<◌, ◌≡◌, ◌≢◌, ◌⊎◌, inl, inr, refl, true, false, List, [], ◌∷◌, some,
  arith, All, leb, all,
}
use stello_kitchens.Prelude.Rounding.{round_div_nearest}
use stello_kitchens.Procurement.PurchaseOrders.{
  PoStatus, PoAction, ReceiptLine, next_po_status, po_actions_for, can_receive_po, can_edit_po,
  status_after_receipt, max_receivable,
}

-- One action, or one receipt of goods.
pub data Step : PoStatus → PoStatus → Type 0 where
  act : {s t : PoStatus} (a : PoAction) → next_po_status s a ≡ some t → Step s t
  receive :
      {s t : PoStatus} (lines : List ReceiptLine)
      → can_receive_po s ≡ true
      → t ≡ status_after_receipt lines
      → Step s t

pub data Reach (s : PoStatus) : PoStatus → Type 0 where
  here : Reach s s
  next : {t u : PoStatus} → Reach s t → Step t u → Reach s u

-- Goods have arrived.
abbrev pub HasGoods : PoStatus → Type 0
HasGoods PoStatus.partially_received = Unit
HasGoods PoStatus.received = Unit
HasGoods PoStatus.closed = Unit
HasGoods _ = ⊥

act-HasGoods :
    (s t : PoStatus) (a : PoAction) → next_po_status s a ≡ some t → HasGoods s → HasGoods t
unfolding next_po_status
act-HasGoods s t a e h = ground arith

status_after_receipt-HasGoods : (lines : List ReceiptLine) → HasGoods (status_after_receipt lines)
unfolding status_after_receipt
status_after_receipt-HasGoods lines = ground arith

Step-HasGoods : {s t : PoStatus} → Step s t → HasGoods s → HasGoods t
Step-HasGoods (act {s = s} {t = t} a e) h = act-HasGoods s t a e h
Step-HasGoods (receive lines e f) h = rw f (status_after_receipt-HasGoods lines)

Reach-keeps : {s t : PoStatus} → HasGoods s → Reach s t → HasGoods t
Reach-keeps h here = h
Reach-keeps h (next r step) = Step-HasGoods step (Reach-keeps h r)

HasGoods-final : (t : PoStatus) → HasGoods t → (t ≢ PoStatus.cancelled) × (can_edit_po t ≡ false)
unfolding can_edit_po
HasGoods-final t h = ground arith

-- Once goods have arrived the order is never cancelled and never editable again, whatever is done.
pub Reach-HasGoods :
    {s t : PoStatus} → HasGoods s → Reach s t → (t ≢ PoStatus.cancelled) × (can_edit_po t ≡ false)
Reach-HasGoods {s} {t} h r = HasGoods-final t (Reach-keeps h r)

all_received-cases :
    (lines : List ReceiptLine)
    → (all (λ l. leb l.ordered_qty l.received_qty) lines ≡ true)
        × All (λ l. l.ordered_qty ≤ l.received_qty) lines
      ⊎ (all (λ l. leb l.ordered_qty l.received_qty) lines ≡ false)
        × ¬ All (λ l. l.ordered_qty ≤ l.received_qty) lines
all_received-cases [] = inl (refl, tt)
all_received-cases (l ∷ lines) = ground (arith, all_received-cases lines)

-- The status after a receipt says whether every line has what was ordered.
pub status_after_receipt_iff :
    (lines : List ReceiptLine)
    → (status_after_receipt lines ≡ PoStatus.received)
        × All (λ l. l.ordered_qty ≤ l.received_qty) lines
      ⊎ (status_after_receipt lines ≡ PoStatus.partially_received)
        × ¬ All (λ l. l.ordered_qty ≤ l.received_qty) lines
unfolding status_after_receipt
status_after_receipt_iff lines = ground (arith, all_received-cases lines)

-- What a line may still receive takes it at most half a thousandth beyond the tolerance, unless it
-- was already beyond; and it falls short of it by at most as much.
pub max_receivable_bound :
    (ordered before tolerance : ℕ)
    → before * 10000 ≤ ordered * (10000 + tolerance)
    → let total = before + max_receivable ordered before tolerance in
      (2 * (total * 10000) ≤ 2 * (ordered * (10000 + tolerance)) + 10000)
      × (2 * (ordered * (10000 + tolerance)) < 2 * (total * 10000) + 10000)
unfolding max_receivable
max_receivable_bound ordered before tolerance h =
    let near =
      round_div_nearest (ordered * (10000 + tolerance) - before * 10000) 10000 (omega arith) in
    (omega arith, omega arith)

-- Nothing more can be done with the order.
abbrev pub IsFinal : PoStatus → Type 0
IsFinal s = (po_actions_for s ≡ []) × (can_receive_po s ≡ false) × (can_edit_po s ≡ false)

-- Whatever its status, an order can be brought to one in which nothing more can be done with it, by one
-- action if it is not in one already.
pub ends :
    (s : PoStatus)
    → IsFinal s
      ⊎ ((a : PoAction) × (t : PoStatus) × (next_po_status s a ≡ some t)
          × (po_actions_for s ≢ [])
          × IsFinal t)
unfolding next_po_status po_actions_for can_receive_po can_edit_po
ends PoStatus.draft =
    inr (PoAction.cancel, PoStatus.cancelled, refl, (λ h. cc h), (refl, refl, refl))
ends PoStatus.approved =
    inr (PoAction.cancel, PoStatus.cancelled, refl, (λ h. cc h), (refl, refl, refl))
ends PoStatus.sent =
    inr (PoAction.cancel, PoStatus.cancelled, refl, (λ h. cc h), (refl, refl, refl))
ends PoStatus.partially_received =
    inr (PoAction.close, PoStatus.closed, refl, (λ h. cc h), (refl, refl, refl))
ends PoStatus.received =
    inr (PoAction.close, PoStatus.closed, refl, (λ h. cc h), (refl, refl, refl))
ends PoStatus.closed = inl (refl, refl, refl)
ends PoStatus.cancelled = inl (refl, refl, refl)
