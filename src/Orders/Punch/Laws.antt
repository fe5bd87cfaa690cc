-- ===== src/Orders/Punch/Laws.antt =====
-- What punching takes from the stock, and which lines it adds.
use stello_kitchens.Prelude.{
  append_assoc, append_nil, ℕ, ◌+◌, ◌*◌, ◌==◌, ◌≡◌, refl, ap, ◌∙◌, List, [], ◌∷◌, ◌++◌, map, arith,
  if◌then◌else◌, sum_by, sum_by-append,
}
use stello_kitchens.Prelude.Texts.{Text}
use stello_kitchens.Prelude.Int.{neg_part}
use stello_kitchens.Service.{bind_ok, ok_inj}
use stello_kitchens.Orders.Rows.{LineRow, Error, ok, or_err}
use stello_kitchens.Orders.Punch.{
  MenuItem, LineInput, Material, StockMovement, Kitchen, Punching, find_kitchen, line_for, Need,
  Punched, punch_line, punch_lines, less_stock, movement_of, punch_items,
}
use stello_kitchens.Orders.Punch.Steps.{
  portion, recipe_of, demand, used, used-add_recipe, deplete-map, Accepted, Priced, unit_of,
  punch_line-steps,
}

used-punch_lines :
    (p : Punching) (menu : List MenuItem) (order kot m : ℕ) (is : List LineInput) (done : Punched)
    {end : Punched}
    → punch_lines p menu order kot is done ≡ ok end
    → used m end.consumption ≡ used m done.consumption + demand p menu m is
unfolding punch_lines
used-punch_lines p menu order kot m [] done h =
    ap (λ d. used m d.consumption) (ok_inj h) ∙ omega arith
used-punch_lines p menu order kot m (i ∷ is) done {end} h =
    let (next, first, rest) = bind_ok (punch_line p menu order kot i done) h in
    let line = punch_line-steps p menu order kot i done {next = next} first in
    let item = line.accepted.item in
    let recipe = ap recipe_of line.accepted.found in
    omega (
      arith,
      used-punch_lines p menu order kot m is next {end = end} rest,
      ap (used m) line.consumption,
      used-add_recipe m i.quantity item.recipe done.consumption,
      ap (λ rs. portion m rs * i.quantity) recipe,
    )

-- The lines of a request, one for each of its items: its unit price is that of the item
-- or its variation and the addons.
abbrev pub AddsLines : Punching → List MenuItem → ℕ → ℕ → List LineInput → List LineRow → Type 0
AddsLines p menu order kot [] new = new ≡ []
AddsLines p menu order kot (i ∷ is) [] = ⊥
AddsLines p menu order kot (i ∷ is) (l ∷ ls) =
    ((accepted : Accepted p menu i) × (priced : Priced p accepted.item i) × (l
        ≡ line_for p order kot accepted.item i (unit_of priced) l.id))
    × AddsLines p menu order kot is ls

punch_lines-adds :
    (p : Punching) (menu : List MenuItem) (order kot : ℕ) (is : List LineInput) (done : Punched)
    {end : Punched}
    → punch_lines p menu order kot is done ≡ ok end
    → (new : List LineRow) × (end.lines ≡ done.lines ++ new) × AddsLines p menu order kot is new
unfolding punch_lines
punch_lines-adds p menu order kot [] done h =
    ([], ap (λ d. d.lines) (ok_inj h) ∙ append_nil done.lines, refl)
punch_lines-adds p menu order kot (i ∷ is) done {end} h =
    let (next, first, rest) = bind_ok (punch_line p menu order kot i done) h in
    let line = punch_line-steps p menu order kot i done {next = next} first in
    let (new, more, adds) = punch_lines-adds p menu order kot is next {end = end} rest in
    let l = line_for p order kot line.accepted.item i (unit_of line.priced) done.next_id in
    (
      l ∷ new,
      more ∙ ap (λ ls. ls ++ new) line.lines ∙ append_assoc done.lines (l ∷ []) new,
      ((line.accepted, line.priced, refl), adds),
    )

-- What the ledger of the stock says was used of a material.
abbrev pub stock_used : ℕ → List StockMovement → ℕ
stock_used m = sum_by (λ t. if t.material_id == m then neg_part t.quantity else 0)

zero_add : (n : ℕ) → 0 + n ≡ n
zero_add n = omega arith

stock_used-movements :
    (m kot : ℕ) (ns : List Need) → stock_used m (map (movement_of kot) ns) ≡ used m ns
stock_used-movements m kot [] = refl
stock_used-movements m kot (n ∷ ns) = ground (arith, stock_used-movements m kot ns)

pub punch_items-conserves :
    (p : Punching) (order : ℕ) (inputs : List LineInput) (k : Kitchen) {after : Kitchen}
    {names : List Text}
    → punch_items p order inputs k ≡ ok (after, names)
    → (after.materials ≡ map (λ m. less_stock (demand p k.menu m.id inputs) m) k.materials)
      × ((m : ℕ)
          → stock_used m after.movements ≡ stock_used m k.movements + demand p k.menu m inputs)
      × (new : List LineRow) × (after.db.lines ≡ k.db.lines ++ new)
      × AddsLines p k.menu order k.db.next_id inputs new
unfolding punch_items
punch_items-conserves p order inputs k {after} {names} h =
    let kot = k.db.next_id in
    let start : Punched = record {
      lines = k.db.lines;
      next_id = k.db.next_id + 1;
      consumption = [];
      unavailable = [];
    } in
    let (outlet, known, h1) =
      bind_ok (or_err (find_kitchen p.tenant_id p.outlet_id k.outlets) Error.not_found) h in
    let (done, punched, h2) = bind_ok (punch_lines p k.menu order kot inputs start) h1 in
    let uses : (m : ℕ) → used m done.consumption ≡ demand p k.menu m inputs = λ m.
      used-punch_lines p k.menu order kot m inputs start {end = done} punched
      ∙ zero_add (demand p k.menu m inputs) in
    let (new, lines, adds) =
      punch_lines-adds p k.menu order kot inputs start {end = done} punched in
    let wrote = ok_inj h2 in
    (
      ap (λ r. r.0.materials) wrote
          ∙ deplete-map done.consumption k.materials
          ∙ by_demand uses k.materials,
      λ m.
          ap (λ r. stock_used m r.0.movements) wrote
          ∙ sum_by-append (λ t. if t.material_id == m then neg_part t.quantity else 0) k.movements
              (map (movement_of kot) done.consumption)
          ∙ ap (λ n. stock_used m k.movements + n)
              (stock_used-movements m kot done.consumption ∙ uses m),
      new,
      ap (λ r. r.0.db.lines) wrote ∙ lines,
      adds,
    )
  where
    by_demand :
        {f g : ℕ → ℕ}
        → ((m : ℕ) → f m ≡ g m)
        → (ms : List Material)
        → map (λ m. less_stock (f m.id) m) ms ≡ map (λ m. less_stock (g m.id) m) ms
    by_demand e [] = refl
    by_demand e (m ∷ ms) = λ i. less_stock (e m.id i) m ∷ by_demand e ms i

-- Punching changes no order.
pub punch_items-orders :
    (p : Punching) (order : ℕ) (inputs : List LineInput) (k : Kitchen) {after : Kitchen}
    {names : List Text}
    → punch_items p order inputs k ≡ ok (after, names)
    → after.db.orders ≡ k.db.orders
unfolding punch_items
punch_items-orders p order inputs k h =
    let start : Punched = record {
      lines = k.db.lines;
      next_id = k.db.next_id + 1;
      consumption = [];
      unavailable = [];
    } in
    let (outlet, known, h1) =
      bind_ok (or_err (find_kitchen p.tenant_id p.outlet_id k.outlets) Error.not_found) h in
    let (done, punched, h2) = bind_ok (punch_lines p k.menu order k.db.next_id inputs start) h1 in
    ap (λ r. r.0.db.orders) (ok_inj h2)
