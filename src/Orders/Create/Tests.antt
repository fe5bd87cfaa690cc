-- ===== src/Orders/Create/Tests.antt =====
-- A bill at a run: created on a free table with two dishes, and two more are added to another.
use stello_kitchens.Prelude.{◌≡◌, refl, true, [], ◌∷◌, none, some, arith}
use stello_kitchens.Orders.Rows.{OrderRow, OrderStatus, OrderType, Result, ok, err, is_open}
use stello_kitchens.Orders.Store.{find_order}
use stello_kitchens.Orders.Sample.{cashier, restaurant, bill_at}
use stello_kitchens.Orders.Totals.{recompute_totals}
use stello_kitchens.Orders.Punch.{Kitchen, punch_items}
use stello_kitchens.Orders.Punch.Sample.{kitchen, two_dishes, base_price_only}
use stello_kitchens.Orders.Create.{
  CreateInput, Moment, punch_at, insert_order, put_db, create, add_items,
}
use stello_kitchens.Orders.Create.Laws.{Grown, TakesTable, create-Grown}

abbrev noon : Moment
noon = record { minutes = 720; channel_price = base_price_only }

abbrev kitchen_of : Result Kitchen → Kitchen
kitchen_of (ok k) = k
kitchen_of (err e) = kitchen

abbrev grown : Kitchen
grown = kitchen_of (add_items cashier 1 two_dishes noon kitchen.db kitchen)

-- Only a settled bill is left.
abbrev evening : Kitchen
evening = put_db kitchen (record restaurant { orders = bill_at 3 13 OrderStatus.settled ∷ [] })

abbrev input : CreateInput
input = record {
  outlet_id = 1;
  order_type = OrderType.dine_in;
  table_id = some 12;
  customer_name = none;
  customer_phone = none;
  items = two_dishes;
}

abbrev created : Kitchen
created = kitchen_of (create cashier input noon evening)

creates : create cashier input noon evening ≡ ok created
unfolding create punch_items recompute_totals find_order
creates = refl

create-Grown_example :
    (o : OrderRow) × (o.id ≡ 100)
    × (is_open o.status ≡ true)
    × TakesTable cashier 1 OrderType.dine_in (some 12) evening.db o.table_id
    × Grown
        (punch_at 1 1 noon)
        100
        two_dishes
        (put_db evening (insert_order o evening.db))
        created
        o
create-Grown_example = create-Grown cashier noon evening input (omega arith, tt) creates
