-- ===== src/Orders/Punch/Tests.antt =====
-- Two dishes at a run: 500 units are taken from a stock of 400.
use stello_kitchens.Prelude.{false, List}
use stello_kitchens.Prelude.Texts.{Text}
use stello_kitchens.Orders.Rows.{Result, ok, err}
use stello_kitchens.Orders.Punch.{Kitchen, Punching, punch_items}
use stello_kitchens.Orders.Punch.Sample.{kitchen, two_dishes, base_price_only}

abbrev at_noon : Punching
at_noon = record {
  tenant_id = 1;
  outlet_id = 1;
  offline = false;
  minutes = 720;
  channel_price = base_price_only;
}

abbrev kitchen_of : Result (Kitchen × List Text) → Kitchen
kitchen_of (ok r) = r.0
kitchen_of (err e) = kitchen

abbrev after : Kitchen
after = kitchen_of (punch_items at_noon 1 two_dishes kitchen)
