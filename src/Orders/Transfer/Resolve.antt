-- ===== src/Orders/Transfer/Resolve.antt =====
-- `resolveMoves` of apps/api/src/billing/order-ops.service.ts: the rows that move with the lines that
-- were asked for. A `Map` is a list of pairs whose first entry for a key counts.
use stello_kitchens.Prelude.{
  ℕ, ◌*◌, ◌/◌, ◌%◌, ◌==◌, Bool, true, false, not, ◌&&◌, List, [], ◌∷◌, Option, none, some, ltb,
  if◌then◌else◌, keep,
}
use stello_kitchens.Orders.Rows.{LineRow, Error, Result, ok, ◌>>=◌, ◌>>◌, refuse_if, or_err}

pub record LineQty : Type 0 where
  pub order_item_id : ℕ
  pub quantity : ℕ

abbrev pub Moves : Type 0
Moves = List (ℕ × ℕ)

-- `moves.get(id) ?? 0`.
abbrev pub qty_of : Moves → ℕ → ℕ
qty_of [] id = 0
qty_of ((j, q) ∷ ms) id = if j == id then q else qty_of ms id

-- `moves.has(id)`.
abbrev pub has : Moves → ℕ → Bool
has [] id = false
has ((j, q) ∷ ms) id = if j == id then true else has ms id

unfoldable pub find_line : ℕ → List LineRow → Option LineRow
find_line id [] = none
find_line id (l ∷ ls) = if l.id == id then some l else find_line id ls

abbrev pub same_group : Option ℕ → ℕ → Bool
same_group none g = false
same_group (some h) g = h == g

-- The components of the line's combo, if it is one.
unfoldable pub components_of : LineRow → List LineRow → List LineRow
components_of line lines = elim line.combo_group_id [
  | none ↦ []
  | some g ↦ keep (λ c. c.is_combo_component && same_group c.combo_group_id g) lines
]

-- The components move in proportion, or not at all.
unfoldable pub move_components : LineRow → ℕ → List LineRow → Moves → Result Moves
move_components line qty [] moves = ok moves
move_components line qty (c ∷ cs) moves =
    let next = move_components line qty cs ((c.id, c.quantity * qty / line.quantity) ∷ moves) in
    refuse_if (not (c.quantity * qty % line.quantity == 0)) Error.indivisible >> next

unfoldable pub resolve_one : List LineRow → LineQty → Moves → Result Moves
unfolding find_line components_of move_components
resolve_one lines req moves = do
  line ← or_err (find_line req.order_item_id lines) Error.not_on_bill
  refuse_if line.is_combo_component Error.is_component
  refuse_if (has moves line.id) Error.selected_twice
  refuse_if (ltb line.quantity req.quantity) Error.too_many
  move_components line req.quantity (components_of line lines) ((line.id, req.quantity) ∷ moves)

unfoldable pub resolve_from : List LineRow → Moves → List LineQty → Result Moves
unfolding resolve_one
resolve_from lines moves [] = ok moves
resolve_from lines moves (r ∷ rs) = do next ← resolve_one lines r moves; resolve_from lines next rs

unfoldable pub resolve_moves : List LineRow → List LineQty → Result Moves
unfolding resolve_from
resolve_moves lines requested = resolve_from lines [] requested
