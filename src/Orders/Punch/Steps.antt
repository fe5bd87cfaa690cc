-- ===== src/Orders/Punch/Steps.antt =====
-- One line of a request, taken apart, and the stock behind a ticket.
use stello_kitchens.Prelude.{
  ℕ, ◌+◌, ◌*◌, ◌==◌, ◌≤◌, ◌≡◌, refl, ap, sym, ◌∙◌, inl, inr, Bool, true, false, not, ◌||◌, List, [],
  ◌∷◌, ◌++◌, map, Option, none, some, arith, All, if◌then◌else◌, Bool-cases, ==_iff, ltb, sum_by,
}
use stello_kitchens.Prelude.Int.{ℤ, pos, negsuc, ◌-ℤ◌, int_laws}
use stello_kitchens.Service.{bind_ok, then_ok, refuse_ok, found_ok, ok_inj}
use stello_kitchens.Orders.Rows.{Error, ok, or_err}
use stello_kitchens.Orders.Punch.{
  RecipeLine, Addon, AddonGroup, MenuItem, LineInput, Material, Punching, find_item, base_price,
  has_duplicates, check_groups, selected_in, line_for, all_addons, chosen_addons, check_window,
  Need, add_need, add_recipe, Punched, punch_line, less_stock, deplete,
}

-- What a recipe uses of a material for one portion.
abbrev pub portion : ℕ → List RecipeLine → ℕ
portion m = sum_by (λ r. if r.material_id == m then r.quantity else 0)

abbrev pub recipe_of : Option MenuItem → List RecipeLine
recipe_of none = []
recipe_of (some i) = i.recipe

-- What the items of a request use of a material, by their recipes.
abbrev pub demand : Punching → List MenuItem → ℕ → List LineInput → ℕ
demand p menu m = sum_by (λ i. portion m (recipe_of (find_item p i.item_id menu)) * i.quantity)

abbrev pub used : ℕ → List Need → ℕ
used m = sum_by (λ n. if n.material_id == m then n.quantity else 0)

pub used-add_need :
    (m id q : ℕ) (ns : List Need)
    → used m (add_need id q ns) ≡ used m ns + (if id == m then q else 0)
unfolding add_need
used-add_need m id q [] = omega arith
used-add_need m id q (n ∷ ns) = elim (Bool-cases (n.material_id == id)) [
  | inl same ↦ ground (arith, ap (λ i. if i == m then q else 0) ((==_iff n.material_id id).0 same))
  | inr other ↦ ground (arith, used-add_need m id q ns)
]

pub used-add_recipe :
    (m quantity : ℕ) (rs : List RecipeLine) (ns : List Need)
    → used m (add_recipe rs quantity ns) ≡ used m ns + portion m rs * quantity
unfolding add_recipe
used-add_recipe m quantity [] ns = omega arith
used-add_recipe m quantity (r ∷ rs) ns = elim (Bool-cases (r.material_id == m)) [
  | inl here ↦ grind (
    arith,
    used-add_recipe m quantity rs (add_need r.material_id (r.quantity * quantity) ns),
    used-add_need m r.material_id (r.quantity * quantity) ns,
  )
  | inr other ↦ grind (
    arith,
    used-add_recipe m quantity rs (add_need r.material_id (r.quantity * quantity) ns),
    used-add_need m r.material_id (r.quantity * quantity) ns,
  )
]

pub less_less : (a : ℤ) (x y : ℕ) → (a -ℤ pos x) -ℤ pos y ≡ a -ℤ pos (x + y)
less_less a x y = grind int_laws

pub less_nothing : (a : ℤ) → a -ℤ pos 0 ≡ a
unfolding ◌-ℤ◌
less_nothing (pos n) = ground arith
less_nothing (negsuc n) = ground arith

abbrev pub after_need : Need → Material → Material
after_need n m = if m.id == n.material_id then less_stock n.quantity m else m

pub less_stock-after_need :
    (n : Need) (ns : List Need) (m : Material)
    → less_stock (used (after_need n m).id ns) (after_need n m) ≡ less_stock (used m.id (n ∷ ns)) m
less_stock-after_need n ns m = elim (Bool-cases (m.id == n.material_id)) [
  | inl here ↦
      let there : (n.material_id == m.id) ≡ true =
        ground (arith, ==_iff m.id n.material_id, ==_iff n.material_id m.id) in
      rw (here, there)
        (ap (λ s. record m { stock = s }) (less_less m.stock n.quantity (used m.id ns)))
  | inr other ↦
      let apart : (n.material_id == m.id) ≡ false =
        ground (arith, ==_iff m.id n.material_id, ==_iff n.material_id m.id) in
      let whole : used m.id ns ≡ 0 + used m.id ns = omega arith in
      rw (other, apart) (ap (λ q. less_stock q m) whole)
]

-- The stock behind a ticket is that before it, less what the ticket uses.
pub deplete-map :
    (ns : List Need) (ms : List Material)
    → deplete ns ms ≡ map (λ m. less_stock (used m.id ns) m) ms
unfolding deplete
deplete-map [] [] = refl
deplete-map [] (m ∷ ms) =
    λ i. record m { stock = sym (less_nothing m.stock) i } ∷ deplete-map [] ms i
deplete-map (n ∷ ns) ms = deplete-map ns (map (after_need n) ms) ∙ fuse ms
  where
    fuse :
        (ms : List Material)
        → map (λ m. less_stock (used m.id ns) m) (map (after_need n) ms)
          ≡ map (λ m. less_stock (used m.id (n ∷ ns)) m) ms
    fuse [] = refl
    fuse (m ∷ ms) = λ i. less_stock-after_need n ns m i ∷ fuse ms i

-- A line of the request that was taken: its item was on sale, with its addons within their groups' bounds.
pub record Accepted (p : Punching) (menu : List MenuItem) (input : LineInput) : Type 0 where
  pub item : MenuItem
  pub found : find_item p input.item_id menu ≡ some item
  pub in_stock : item.in_stock ≡ true
  pub unique : has_duplicates input.addon_ids ≡ false
  pub within :
      All
        (λ g.
          (g.min_select ≤ selected_in g input.addon_ids)
          × (selected_in g input.addon_ids ≤ g.max_select))
        item.addon_groups

pub check_groups-within :
    (p : Punching) (ids : List ℕ) (gs : List AddonGroup)
    → check_groups p ids gs ≡ ok tt
    → All (λ g. (g.min_select ≤ selected_in g ids) × (selected_in g ids ≤ g.max_select)) gs
unfolding check_groups
check_groups-within p ids [] h = tt
check_groups-within p ids (g ∷ gs) h =
    let (_, h1) =
      refuse_ok (not (g.tenant_id == p.tenant_id) || not (g.outlet_id == p.outlet_id))
        Error.bad_addon_group h in
    let n = selected_in g ids in
    let (within, h2) = refuse_ok (ltb n g.min_select || ltb g.max_select n) Error.addon_count h1 in
    (bounds n g.min_select g.max_select within, check_groups-within p ids gs h2)
  where
    bounds : (n lo hi : ℕ) → ltb n lo || ltb hi n ≡ false → (lo ≤ n) × (n ≤ hi)
    bounds n lo hi h = ground arith

-- The price of the item or its variation, and the addons that were asked for, in their order.
pub record Priced (p : Punching) (item : MenuItem) (input : LineInput) : Type 0 where
  pub base : ℕ
  pub addons : List Addon
  pub is_base : base_price p item input ≡ ok base
  pub is_chosen : chosen_addons input.addon_ids (all_addons item.addon_groups) ≡ ok addons

abbrev pub unit_of : {p : Punching} {item : MenuItem} {input : LineInput} → Priced p item input → ℕ
unit_of priced = priced.base + sum_by (λ a. a.price) priced.addons

-- What one round of the loop came to.
pub record Line (p : Punching) (menu : List MenuItem) (order kot : ℕ) (input : LineInput)
    (done next : Punched) : Type 0 where
  pub accepted : Accepted p menu input
  pub priced : Priced p accepted.item input
  pub lines :
      next.lines
      ≡ done.lines ++ (line_for p order kot accepted.item input (unit_of priced) done.next_id ∷ [])
  pub consumption :
      next.consumption ≡ add_recipe accepted.item.recipe input.quantity done.consumption

pub punch_line-steps :
    (p : Punching) (menu : List MenuItem) (order kot : ℕ) (input : LineInput) (done : Punched)
    {next : Punched}
    → punch_line p menu order kot input done ≡ ok next
    → Line p menu order kot input done next
unfolding punch_line
punch_line-steps p menu order kot input done {next} h =
    let (item, found, h1) =
      bind_ok (or_err (find_item p input.item_id menu) Error.item_not_found) h in
    let (stocked, h2) = refuse_ok (not item.in_stock) Error.out_of_stock h1 in
    let (names, windowed, h3) = bind_ok (check_window p item done.unavailable) h2 in
    let (base, priced, h4) = bind_ok (base_price p item input) h3 in
    let (unique, h5) = refuse_ok (has_duplicates input.addon_ids) Error.duplicate_addons h4 in
    let (grouped, h6) = then_ok (check_groups p input.addon_ids item.addon_groups) h5 in
    let (addons, chosen, h7) =
      bind_ok (chosen_addons input.addon_ids (all_addons item.addon_groups)) h6 in
    record {
      accepted = record {
        item = item;
        found = found_ok (find_item p input.item_id menu) Error.item_not_found found;
        in_stock = positive item.in_stock stocked;
        unique = unique;
        within = check_groups-within p input.addon_ids item.addon_groups grouped;
      };
      priced = record { base = base; addons = addons; is_base = priced; is_chosen = chosen };
      lines = ap (λ d. d.lines) (ok_inj h7);
      consumption = ap (λ d. d.consumption) (ok_inj h7);
    }
  where
    positive : (b : Bool) → not b ≡ false → b ≡ true
    positive b h = ground arith
