-- ===== src/Procurement/PurchaseOrders/Tests.antt =====
-- Purchase orders at a run.
use stello_kitchens.Prelude.{◌≡◌, ◌≢◌, ◌⊎◌, refl, false, List, [], ◌∷◌, some}
use stello_kitchens.Procurement.PurchaseOrders.{
  PoStatus, PoAction, ReceiptLine, next_po_status, po_actions_for, can_receive_po, can_edit_po,
  status_after_receipt,
}
use stello_kitchens.Procurement.PurchaseOrders.Laws.{
  Step, act, receive, here, next, Reach-HasGoods, IsFinal, ends,
}

abbrev full : List ReceiptLine
full = record { ordered_qty = 5000; received_qty = 5000 } ∷ []

-- The rest arrives, and the order is closed.
rest_arrives : Step PoStatus.partially_received PoStatus.received
unfolding can_receive_po status_after_receipt
rest_arrives = receive full refl refl

closes : Step PoStatus.received PoStatus.closed
unfolding next_po_status
closes = act PoAction.close refl

Reach-HasGoods_example :
    (PoStatus.closed ≢ PoStatus.cancelled) × (can_edit_po PoStatus.closed ≡ false)
Reach-HasGoods_example = Reach-HasGoods tt (next (next here rest_arrives) closes)

ends_example :
    IsFinal PoStatus.sent
    ⊎ ((a : PoAction) × (t : PoStatus) × (next_po_status PoStatus.sent a ≡ some t)
        × (po_actions_for PoStatus.sent ≢ [])
        × IsFinal t)
ends_example = ends PoStatus.sent
