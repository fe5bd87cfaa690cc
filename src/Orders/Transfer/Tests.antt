-- ===== src/Orders/Transfer/Tests.antt =====
-- A transfer at a run: one of three dishes moves to the bill on the next table.
use stello_kitchens.Prelude.{◌≡◌, refl, List, [], ◌∷◌, Option, none, some, arith}
use stello_kitchens.Orders.Rows.{Db, Result, ok, err}
use stello_kitchens.Orders.Sample.{cashier, restaurant, line_at}
use stello_kitchens.Orders.Store.{require_order, update_orders}
use stello_kitchens.Orders.Totals.{recompute_totals}
use stello_kitchens.Orders.Merge.{lock_tables, lock_orders}
use stello_kitchens.Orders.Transfer.Resolve.{LineQty, resolve_moves}
use stello_kitchens.Orders.Transfer.Update.{item_total, AreSound}
use stello_kitchens.Orders.Transfer.Laws.{transfer-conserves}
use stello_kitchens.Orders.Transfer.{Transferred, transfer}

abbrev three_dishes : Db
three_dishes = record restaurant {
  lines =
      record (line_at 21 1 3_000_000) { quantity = 3; unit_price = 1_000_000 }
      ∷ (line_at 22 2 1_500_000 ∷ []);
}

abbrev one_of_them : Option (List LineQty)
one_of_them = some (record { order_item_id = 21; quantity = 1 } ∷ [])

abbrev transferred_of : Result Transferred → Transferred
transferred_of (ok t) = t
transferred_of (err e) = record { from_id = none; to_id = 0; after = three_dishes }

abbrev moved : Transferred
moved = transferred_of (transfer cashier 1 12 one_of_them three_dishes three_dishes)

moves : transfer cashier 1 12 one_of_them three_dishes three_dishes ≡ ok moved
unfolding transfer require_order lock_tables lock_orders resolve_moves recompute_totals
    update_orders
moves = refl

three_dishes-AreSound : AreSound three_dishes
three_dishes-AreSound = record {
  apart = (((λ h. omega (arith, h)), tt), (tt, tt));
  known = (omega arith, (omega arith, tt));
}

transfer-conserves_example : item_total 21 moved.after.lines ≡ item_total 21 three_dishes.lines
transfer-conserves_example =
    transfer-conserves cashier 1 12 one_of_them three_dishes three_dishes three_dishes-AreSound
      moves 21
