-- ===== src/Orders/Punch.antt =====
-- `punchItems` of apps/api/src/orders/orders.service.ts for the items of a request: each becomes a line
-- at its price, all go on one kitchen ticket, and what their recipes use is taken from the stock. Combos
-- are left out. The channel's price of an item (resolveChannelPrices) and the minute of the day at the
-- outlet (minutesInZone) are arguments. Prices have two decimals, kept in ten-thousandths; quantities of
-- materials are in thousandths.
pub mod Steps
pub mod Laws
pub mod Sample
mod Tests
use stello_kitchens.Prelude.{
  ℕ, ◌+◌, ◌-◌, ◌*◌, ◌==◌, Bool, true, false, not, ◌&&◌, ◌||◌, List, [], ◌∷◌, ◌++◌, map, Option,
  none, some, ltb, if◌then◌else◌, any, keep, length, sum_by,
}
use stello_kitchens.Prelude.Rounding.{round_div}
use stello_kitchens.Prelude.Texts.{Text, same_text}
use stello_kitchens.Prelude.Int.{ℤ, pos, sub_ℕ, ◌-ℤ◌}
use stello_kitchens.Money.{paisa, from_paise, line_total_paise}
use stello_kitchens.Billing.Window.{is_within_window}
use stello_kitchens.Orders.Rows.{
  LineRow, Attached, Db, Error, Result, ok, err, ◌>>=◌, ◌>>◌, refuse_if, or_err,
}
use stello_kitchens.Orders.Store.{includes}
use stello_kitchens.Orders.Totals.{given_or}

pub record RecipeLine : Type 0 where
  pub material_id : ℕ
  pub quantity : ℕ

pub record Addon : Type 0 where
  pub id : ℕ
  pub price : ℕ

pub record AddonGroup : Type 0 where
  pub tenant_id : ℕ
  pub outlet_id : ℕ
  pub min_select : ℕ
  pub max_select : ℕ
  pub addons : List Addon

pub record Variation : Type 0 where
  pub id : ℕ
  pub price : ℕ

pub record MenuItem : Type 0 where
  pub id : ℕ
  pub tenant_id : ℕ
  pub outlet_id : ℕ
  pub name : Text
  pub is_deleted : Bool
  pub in_stock : Bool
  pub price : ℕ
  pub tax_rate : ℕ
  pub available_start : Option Text
  pub available_end : Option Text
  pub variations : List Variation
  pub addon_groups : List AddonGroup
  pub recipe : List RecipeLine

-- A line of the request; the price and the rate are those of an offline sale.
pub record LineInput : Type 0 where
  pub item_id : ℕ
  pub variation_id : Option ℕ
  pub addon_ids : List ℕ
  pub quantity : ℕ
  pub offline_unit_price : Option ℕ
  pub offline_tax_rate : Option ℕ

pub record Material : Type 0 where
  pub id : ℕ
  pub stock : ℤ

pub record StockMovement : Type 0 where
  pub material_id : ℕ
  pub quantity : ℤ
  pub kot_id : ℕ

pub record KotNumber : Type 0 where
  pub kot_id : ℕ
  pub number : ℕ

pub record KitchenOutlet : Type 0 where
  pub id : ℕ
  pub tenant_id : ℕ
  pub next_kot_number : ℕ

pub record Kitchen : Type 0 where
  pub db : Db
  pub outlets : List KitchenOutlet
  pub menu : List MenuItem
  pub materials : List Material
  pub movements : List StockMovement
  pub kot_numbers : List KotNumber

-- Where and when the items are punched.
pub record Punching : Type 0 where
  pub tenant_id : ℕ
  pub outlet_id : ℕ
  pub offline : Bool
  pub minutes : ℕ
  pub channel_price : ℕ → Option ℕ

unfoldable pub find_kitchen : ℕ → ℕ → List KitchenOutlet → Option KitchenOutlet
find_kitchen tenant id [] = none
find_kitchen tenant id (o ∷ os) =
    let rest = find_kitchen tenant id os in
    if o.id == id && o.tenant_id == tenant then some o else rest

unfoldable pub find_item : Punching → ℕ → List MenuItem → Option MenuItem
find_item p id [] = none
find_item p id (i ∷ is) =
    let rest = find_item p id is in
    if i.id == id && i.tenant_id == p.tenant_id && i.outlet_id == p.outlet_id && not i.is_deleted
    then some i
    else rest

unfoldable pub find_variation : ℕ → List Variation → Option Variation
find_variation id [] = none
find_variation id (v ∷ vs) = let rest = find_variation id vs in if v.id == id then some v else rest

unfoldable pub find_addon : ℕ → List Addon → Option Addon
find_addon id [] = none
find_addon id (a ∷ more) = let rest = find_addon id more in if a.id == id then some a else rest

-- `useOfflineSnapshots && snapshot !== undefined ? snapshot : value`.
abbrev pub snapshot_or : Bool → Option ℕ → ℕ → ℕ
snapshot_or offline snapshot value = if offline then given_or snapshot value else value

-- A variation keeps the channel's difference from the base price, and is not less than nothing.
abbrev pub variation_price : ℕ → ℕ → Option ℕ → ℕ
variation_price price base none = price
variation_price price base (some channel) =
    from_paise (round_div price paisa + round_div channel paisa - round_div base paisa)

-- The price of the item or its variation, without addons.
unfoldable pub base_price : Punching → MenuItem → LineInput → Result ℕ
unfolding find_variation
base_price p item input = elim input.variation_id [
  | none ↦ ok (
      snapshot_or p.offline input.offline_unit_price
        (given_or (p.channel_price item.id) item.price))
  | some id ↦ do
    v ← or_err (find_variation id item.variations) Error.bad_variation
    ok (
        snapshot_or p.offline input.offline_unit_price
          (variation_price v.price item.price (p.channel_price item.id)))
]

unfoldable pub has_duplicates : List ℕ → Bool
has_duplicates [] = false
has_duplicates (x ∷ xs) = includes xs x || has_duplicates xs

abbrev pub selected_in : AddonGroup → List ℕ → ℕ
selected_in g ids = length (keep (λ a. includes ids a.id) g.addons)

unfoldable pub check_groups : Punching → List ℕ → List AddonGroup → Result (Unit {0})
check_groups p ids [] = ok tt
check_groups p ids (g ∷ gs) =
    let rest = check_groups p ids gs in
    refuse_if (not (g.tenant_id == p.tenant_id) || not (g.outlet_id == p.outlet_id))
      Error.bad_addon_group
    >> (refuse_if (ltb (selected_in g ids) g.min_select || ltb g.max_select (selected_in g ids))
          Error.addon_count
        >> rest)

unfoldable pub all_addons : List AddonGroup → List Addon
all_addons [] = []
all_addons (g ∷ gs) = g.addons ++ all_addons gs

unfoldable pub chosen_addons : List ℕ → List Addon → Result (List Addon)
unfolding find_addon
chosen_addons [] all = ok []
chosen_addons (id ∷ ids) all = do
  a ← or_err (find_addon id all) Error.bad_addon
  rest ← chosen_addons ids all
  ok (a ∷ rest)

-- `checkWindow`: the names of what was sold outside its window, offline.
unfoldable pub check_window : Punching → MenuItem → List Text → Result (List Text)
unfolding is_within_window
check_window p item unavailable =
    if is_within_window item.available_start item.available_end p.minutes
    then ok unavailable
    else (if p.offline
        then (if any (λ n. same_text n item.name) unavailable
            then ok unavailable
            else ok (unavailable ++ (item.name ∷ [])))
        else err Error.not_available)

-- What a ticket uses of a material.
pub record Need : Type 0 where
  pub material_id : ℕ
  pub quantity : ℕ

-- `consumption.set(id, (consumption.get(id) ?? 0) + need)`.
unfoldable pub add_need : ℕ → ℕ → List Need → List Need
add_need id q [] = record { material_id = id; quantity = q } ∷ []
add_need id q (n ∷ ns) =
    let rest = add_need id q ns in
    if n.material_id == id
    then record { material_id = n.material_id; quantity = n.quantity + q } ∷ ns
    else n ∷ rest

unfoldable pub add_recipe : List RecipeLine → ℕ → List Need → List Need
unfolding add_need
add_recipe [] quantity needs = needs
add_recipe (r ∷ rs) quantity needs =
    add_recipe rs quantity (add_need r.material_id (r.quantity * quantity) needs)

-- What the loop over the items carries.
pub record Punched : Type 0 where
  pub lines : List LineRow
  pub next_id : ℕ
  pub consumption : List Need
  pub unavailable : List Text

abbrev pub line_for : Punching → ℕ → ℕ → MenuItem → LineInput → ℕ → ℕ → LineRow
line_for p order kot item input unit id = record {
  id = id;
  order_id = order;
  item = item.id;
  quantity = input.quantity;
  unit_price = unit;
  line_total = from_paise (line_total_paise unit input.quantity);
  tax_rate = snapshot_or p.offline input.offline_tax_rate item.tax_rate;
  kot_id = some kot;
  combo_group_id = none;
  is_combo_component = false;
  split_from_item_id = none;
  split_parts = none;
}

unfoldable pub punch_line : Punching → List MenuItem → ℕ → ℕ → LineInput → Punched → Result Punched
unfolding find_item base_price check_groups all_addons chosen_addons check_window add_recipe
    has_duplicates
punch_line p menu order kot input done = do
  item ← or_err (find_item p input.item_id menu) Error.item_not_found
  refuse_if (not item.in_stock) Error.out_of_stock
  unavailable ← check_window p item done.unavailable
  base ← base_price p item input
  refuse_if (has_duplicates input.addon_ids) Error.duplicate_addons
  check_groups p input.addon_ids item.addon_groups
  addons ← chosen_addons input.addon_ids (all_addons item.addon_groups)
  let unit = base + sum_by (λ a. a.price) addons
  ok (record {
    lines = done.lines ++ (line_for p order kot item input unit done.next_id ∷ []);
    next_id = done.next_id + 1;
    consumption = add_recipe item.recipe input.quantity done.consumption;
    unavailable = unavailable;
  })

unfoldable pub punch_lines :
    Punching → List MenuItem → ℕ → ℕ → List LineInput → Punched → Result Punched
unfolding punch_line
punch_lines p menu order kot [] done = ok done
punch_lines p menu order kot (i ∷ is) done = do
  next ← punch_line p menu order kot i done
  punch_lines p menu order kot is next

-- A material's stock may fall below nothing.
abbrev pub less_stock : ℕ → Material → Material
less_stock q m = record m { stock = m.stock -ℤ pos q }

unfoldable pub deplete : List Need → List Material → List Material
deplete [] ms = ms
deplete (n ∷ ns) ms =
    deplete ns (map (λ m. if m.id == n.material_id then less_stock n.quantity m else m) ms)

abbrev pub movement_of : ℕ → Need → StockMovement
movement_of kot n = record {
  material_id = n.material_id;
  quantity = sub_ℕ 0 n.quantity;
  kot_id = kot;
}

abbrev pub next_kot : KitchenOutlet → KitchenOutlet
next_kot o = record o { next_kot_number = o.next_kot_number + 1 }

unfoldable pub punch_items : Punching → ℕ → List LineInput → Kitchen → Result (Kitchen × List Text)
unfolding find_kitchen punch_lines deplete
punch_items p order inputs k = do
  outlet ← or_err (find_kitchen p.tenant_id p.outlet_id k.outlets) Error.not_found
  let kot = k.db.next_id
  done ← punch_lines p k.menu order kot inputs (record {
    lines = k.db.lines;
    next_id = k.db.next_id + 1;
    consumption = [];
    unavailable = [];
  })
  ok (
    record {
      db = record k.db {
        lines = done.lines;
        kots = k.db.kots ++ (record { id = kot; order_id = order } ∷ []);
        next_id = done.next_id;
      };
      outlets = map (λ o. if o.id == p.outlet_id then next_kot o else o) k.outlets;
      menu = k.menu;
      materials = deplete done.consumption k.materials;
      movements = k.movements ++ map (movement_of kot) done.consumption;
      kot_numbers =
          k.kot_numbers ++ (record { kot_id = kot; number = outlet.next_kot_number } ∷ []);
    },
    done.unavailable,
  )
