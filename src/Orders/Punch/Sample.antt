-- ===== src/Orders/Punch/Sample.antt =====
-- A kitchen for the tests: one dish with an addon, whose recipe uses 250 units of one material.
use stello_kitchens.Prelude.{ℕ, true, false, List, [], ◌∷◌, Option, none}
use stello_kitchens.Prelude.Int.{pos}
use stello_kitchens.Orders.Sample.{restaurant}
use stello_kitchens.Orders.Punch.{MenuItem, LineInput, Kitchen}

abbrev pub dish : MenuItem
dish = record {
  id = 40;
  tenant_id = 1;
  outlet_id = 1;
  name = b'D' ∷ [];
  is_deleted = false;
  in_stock = true;
  price = 1_200_000;
  tax_rate = 500;
  available_start = none;
  available_end = none;
  variations = [];
  addon_groups =
      record {
        tenant_id = 1;
        outlet_id = 1;
        min_select = 1;
        max_select = 2;
        addons = record { id = 51; price = 200_000 } ∷ (record { id = 52; price = 300_000 } ∷ []);
      }
      ∷ [];
  recipe = record { material_id = 60; quantity = 250 } ∷ [];
}

abbrev pub two_dishes : List LineInput
two_dishes =
    record {
      item_id = 40;
      variation_id = none;
      addon_ids = 51 ∷ [];
      quantity = 2;
      offline_unit_price = none;
      offline_tax_rate = none;
    }
    ∷ []

abbrev pub kitchen : Kitchen
kitchen = record {
  db = restaurant;
  outlets = record { id = 1; tenant_id = 1; next_kot_number = 7 } ∷ [];
  menu = dish ∷ [];
  materials = record { id = 60; stock = pos 400 } ∷ [];
  movements = [];
  kot_numbers = [];
}

abbrev pub base_price_only : ℕ → Option ℕ
base_price_only item = none
