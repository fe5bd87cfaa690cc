-- ===== src/Orders/Split.antt =====
-- `split` and `unsplit` of apps/api/src/billing/order-ops.service.ts.
pub mod Laws
mod Tests
use stello_kitchens.Prelude.{
  ℕ, zero, suc, ◌+◌, ◌-◌, ◌*◌, ◌==◌, Bool, true, false, not, ◌&&◌, List, [], ◌∷◌, ◌++◌, map, Option,
  none, some, ltb, if◌then◌else◌, all, any, keep, length, get_or, sum, min, range_from,
}
use stello_kitchens.Prelude.Rounding.{round_div}
use stello_kitchens.Prelude.Int.{ℤ, pos}
use stello_kitchens.Money.{paisa, from_paise, line_total_paise}
use stello_kitchens.Billing.Allocate.{allocate_paise}
use stello_kitchens.Billing.SplitEqually.{split_lines_equally}
use stello_kitchens.Orders.Rows.{
  OrderRow, LineRow, Attached, Action, Db, AuthUser, Error, Result, ok, err, ◌>>=◌, ◌>>◌, refuse_if,
  or_err, is_open,
}
use stello_kitchens.Orders.Store.{
  includes, find_order, update_order, update_orders, lines_of, audit, truthy, is_some, has_id,
  require_order, lock_open_order,
}
use stello_kitchens.Orders.Totals.{recompute_totals}
use stello_kitchens.Orders.Merge.{lock_orders}
use stello_kitchens.Orders.Transfer.{new_order}
use stello_kitchens.Orders.Transfer.Resolve.{LineQty, Moves, qty_of, resolve_moves}

pub data SplitInput : Type 0 where
  equal : ℕ → ℕ → SplitInput
  items : List (List LineQty) → ℕ → SplitInput

-- `input.discountAmount ?? 0`, in ten-thousandths of a rupee.
abbrev pub discount_asked : SplitInput → ℕ
discount_asked (equal parts d) = d
discount_asked (items checks d) = d

-- A billing copy of a line: no kitchen ticket, and the line that it was split from.
abbrev pub share_of : LineRow → ℕ → ℕ → Option ℕ → LineRow
share_of l quantity line_total parts = record l {
  id = 0;
  order_id = 0;
  quantity = quantity;
  line_total = line_total;
  kot_id = none;
  split_from_item_id = some l.id;
  split_parts = parts;
}

-- `toPaise(Number(l.lineTotal))`.
abbrev pub line_paise : LineRow → ℕ
line_paise l = round_div l.line_total paisa

-- Each line with its share of one check.
unfoldable pub share_rows : ℕ → List LineRow → List ℕ → List LineRow
share_rows parts [] shares = []
share_rows parts (l ∷ ls) [] = share_of l l.quantity 0 (some parts) ∷ share_rows parts ls []
share_rows parts (l ∷ ls) (s ∷ ss) =
    share_of l l.quantity (from_paise s) (some parts) ∷ share_rows parts ls ss

-- Mode EQUAL: the rows of every check.
unfoldable pub equal_checks : List LineRow → ℕ → List (List LineRow)
unfolding share_rows
equal_checks lines parts =
    map (share_rows parts lines) (split_lines_equally (map line_paise lines) parts)

-- The rows of one check in mode ITEMS.
unfoldable pub item_rows : Moves → List LineRow → List LineRow
item_rows moves [] = []
item_rows moves (l ∷ ls) =
    let q = qty_of moves l.id in
    let rest = item_rows moves ls in
    if q == 0 then rest else share_of l q (from_paise (line_total_paise l.unit_price q)) none ∷ rest

unfoldable pub item_checks : List LineRow → List (List LineQty) → Result (List (List LineRow))
unfolding item_rows
item_checks lines [] = ok []
item_checks lines (c ∷ cs) = do
  moves ← resolve_moves lines c
  rest ← item_checks lines cs
  ok (item_rows moves lines ∷ rest)

-- What the checks take of a line.
unfoldable pub assigned_in : ℕ → List LineRow → ℕ
assigned_in id [] = 0
assigned_in id (r ∷ rs) =
    (if has_id r.split_from_item_id id then r.quantity else 0) + assigned_in id rs

unfoldable pub assigned : ℕ → List (List LineRow) → ℕ
unfolding assigned_in
assigned id [] = 0
assigned id (rows ∷ checks) = assigned_in id rows + assigned id checks

unfoldable pub build_checks : SplitInput → List LineRow → Result (List (List LineRow))
unfolding equal_checks item_checks assigned
build_checks (equal parts d) lines = ok (equal_checks lines parts)
build_checks (items wanted d) lines = do
  checks ← item_checks lines wanted
  refuse_if (not (all (λ l. assigned l.id checks == l.quantity) lines)) Error.unassigned
  ok checks

-- The rows of a check get their ids and the check's.
unfoldable pub number_rows : ℕ → ℕ → List LineRow → List LineRow
number_rows order_id next [] = []
number_rows order_id next (r ∷ rs) =
    record r { id = next; order_id = order_id } ∷ number_rows order_id (next + 1) rs

abbrev pub check_order : AuthUser → OrderRow → ℕ → ℕ → ℕ → OrderRow
check_order user parent id index discount =
    let fresh = new_order id user.tenant_id parent.outlet_id parent.order_type none user.id in
    record fresh {
      customer_name = parent.customer_name;
      customer_phone = parent.customer_phone;
      parent_order_id = some parent.id;
      split_index = some index;
      allocated_discount = from_paise discount;
      service_charge_waived = parent.service_charge_waived;
      service_charge_waived_reason = parent.service_charge_waived_reason;
    }

-- One round of the loop that creates the checks.
unfoldable pub create_check : AuthUser → OrderRow → ℕ → ℕ → List LineRow → Db → Result Db
unfolding number_rows
create_check user parent index discount rows db =
    let id = db.next_id in
    let made = record db {
      orders = db.orders ++ (check_order user parent id index discount ∷ []);
      lines = db.lines ++ number_rows id (id + 1) rows;
      next_id = id + 1 + length rows;
    } in
    recompute_totals id none made

abbrev pub rest_of : List ℕ → List ℕ
rest_of [] = []
rest_of (d ∷ ds) = ds

unfoldable pub create_checks :
    AuthUser → OrderRow → ℕ → List ℕ → List (List LineRow) → Db → Result Db
unfolding create_check
create_checks user parent index discounts [] db = ok db
create_checks user parent index discounts (rows ∷ checks) db = do
  next ← create_check user parent index (get_or discounts 0 0) rows db
  create_checks user parent (index + 1) (rest_of discounts) checks next

abbrev pub subtotal_paise : List LineRow → ℕ
subtotal_paise rows = sum (map line_paise rows)

-- The bill's discount in paise, and each check's share of it.
unfoldable pub discount_paise : ℕ → List (List LineRow) → ℕ
discount_paise asked checks = min (round_div asked paisa) (sum (map subtotal_paise checks))

unfoldable pub discount_shares : ℕ → List (List LineRow) → List ℕ
unfolding discount_paise
discount_shares asked checks =
    allocate_paise (discount_paise asked checks) (map (λ rows. pos (subtotal_paise rows)) checks)

unfoldable pub insert_line : LineRow → List LineRow → List LineRow
insert_line l [] = l ∷ []
insert_line l (x ∷ xs) =
    let rest = insert_line l xs in if ltb l.id x.id then l ∷ x ∷ xs else x ∷ rest

-- `orderBy: { id: "asc" }`.
unfoldable pub in_order : List LineRow → List LineRow
unfolding insert_line
in_order [] = []
in_order (l ∷ ls) = insert_line l (in_order ls)

unfoldable pub split : AuthUser → ℕ → SplitInput → Db → Result Db
unfolding in_order build_checks create_checks discount_shares
split user order_id input db = do
  parent ← lock_open_order user order_id db
  refuse_if (truthy parent.split_count) Error.already_split
  refuse_if (is_some parent.parent_order_id) Error.check_split
  let lines = in_order (lines_of parent.id db.lines)
  refuse_if (all (λ l. l.is_combo_component) lines) Error.nothing_to_split
  checks ← build_checks input lines
  made ← create_checks user parent 1 (discount_shares (discount_asked input) checks) checks db
  let mark =
      λ (o : OrderRow). record o { split_count = some (length checks); version = o.version + 1 }
  ok (
      audit user Action.order_split parent.id
        (record made { orders = update_order parent.id mark made.orders }))

-- The checks of a parent.
unfoldable pub children_of : AuthUser → ℕ → List OrderRow → List OrderRow
children_of user parent =
    keep (λ o. o.tenant_id == user.tenant_id && has_id o.parent_order_id parent)

abbrev pub id_of : OrderRow → ℕ
id_of o = o.id

unfoldable pub unsplit : AuthUser → ℕ → Db → Db → Result Db
unfolding children_of
unsplit user order_id seen db = do
  pre ← require_order user order_id seen
  let pre_children = map id_of (children_of user pre.id seen.orders)
  lock_orders user pre_children db
  parent ← lock_open_order user order_id db
  refuse_if (not (truthy parent.split_count)) Error.not_split
  let children = children_of user parent.id db.orders
  refuse_if (not (length children == length pre_children)) Error.split_changed
  refuse_if (any (λ c. not (is_open c.status)) children) Error.check_settled
  let ids = map id_of children
  let unmark = λ (o : OrderRow). record o { split_count = none; version = o.version + 1 }
  let gone = λ (o : OrderRow). includes ids o.id && o.tenant_id == user.tenant_id
  let kept = keep (λ o. not (gone o)) db.orders
  done ← recompute_totals parent.id none (record db {
    lines = keep (λ l. not (includes ids l.order_id)) db.lines;
    parked = keep (λ p. not (includes ids p.order_id)) db.parked;
    orders = update_order parent.id unmark kept;
  })
  ok (audit user Action.order_unsplit parent.id done)
