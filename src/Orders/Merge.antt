-- ===== src/Orders/Merge.antt =====
-- `merge` of apps/api/src/billing/order-ops.service.ts. `seen` are the rows of its unlocked read, `db`
-- those under the locks: other transactions may have run in between.
pub mod Steps
pub mod Laws
mod Tests
use stello_kitchens.Prelude.{
  ℕ, ◌+◌, ◌==◌, Bool, true, false, not, ◌&&◌, ◌||◌, List, [], ◌∷◌, ◌++◌, map, Option, none, some,
  length, if◌then◌else◌, any, keep,
}
use stello_kitchens.Prelude.Int.{pos}
use stello_kitchens.Orders.Rows.{
  OrderRow, OrderStatus, TableRow, Action, Db, AuthUser, Error, Result, ok, err, ◌>>=◌, ◌>>◌,
  refuse_if, or_err,
}
use stello_kitchens.Prelude.Texts.{Text}
use stello_kitchens.Orders.Store.{
  includes, find_order, update_order, update_orders, reassign, reassign_lines, audit, is_some,
  assert_outlet, tenant_order, assert_mergeable,
}
use stello_kitchens.Orders.Totals.{recompute_totals}

-- `[...new Set(ids)]`.
unfoldable pub dedup : List ℕ → List ℕ
dedup [] = []
dedup (i ∷ is) = i ∷ keep (λ j. not (j == i)) (dedup is)

-- `lockTable` for each table id that is set.
unfoldable pub lock_tables : AuthUser → ℕ → List (Option ℕ) → Db → Result (Unit {0})
lock_tables user outlet [] db = ok tt
lock_tables user outlet (none ∷ ts) db = lock_tables user outlet ts db
lock_tables user outlet (some t ∷ ts) db =
    let rest = lock_tables user outlet ts db in
    let found =
      any (λ r. r.id == t && r.tenant_id == user.tenant_id && r.outlet_id == outlet) db.tables in
    refuse_if (not found) Error.no_table >> rest

-- The rows of these ids, each of the tenant.
unfoldable pub fetch_orders : AuthUser → List ℕ → Db → Result (List OrderRow)
unfolding tenant_order
fetch_orders user [] db = ok []
fetch_orders user (i ∷ is) db = do
  o ← tenant_order user i db
  os ← fetch_orders user is db
  ok (o ∷ os)

-- `lockOrders`: the rows, whose outlets the user must have.
unfoldable pub lock_orders : AuthUser → List ℕ → Db → Result (List OrderRow)
unfolding fetch_orders
lock_orders user is db = do
  rows ← fetch_orders user is db
  refuse_if (any (λ o. not (includes user.outlet_ids o.outlet_id)) rows) Error.forbidden
  ok rows

-- `!text`.
abbrev pub blank : Option Text → Bool
blank (some (c ∷ cs)) = false
blank _ = true

-- `a ?? b`.
abbrev pub or_else : Option Text → Option Text → Option Text
or_else (some a) b = some a
or_else none b = b

-- The first of `ids` that has a customer's name or phone.
unfoldable pub find_donor : List ℕ → List OrderRow → Option OrderRow
find_donor ids [] = none
find_donor ids (o ∷ os) =
    if includes ids o.id && (is_some o.customer_phone || is_some o.customer_name)
    then some o
    else find_donor ids os

unfoldable pub take_customer : OrderRow → Option OrderRow → OrderRow → OrderRow
take_customer target none o = o
take_customer target (some donor) o = record o {
  customer_name = or_else target.customer_name donor.customer_name;
  customer_phone = or_else target.customer_phone donor.customer_phone;
}

unfoldable pub close_merged : ℕ → OrderRow → OrderRow
close_merged target o = record o {
  status = OrderStatus.merged;
  merged_into_order_id = some target;
  subtotal = 0;
  discount_amount = 0;
  tax_amount = 0;
  total = 0;
  service_charge_amount = 0;
  round_off = pos 0;
  version = o.version + 1;
}

-- Every line and ticket of the sources moves into the target, and the sources close.
unfoldable pub move_all : List ℕ → OrderRow → Db → Db
unfolding find_donor take_customer close_merged
move_all sources target db =
    let needy = blank target.customer_phone || blank target.customer_name in
    let donor = if needy then find_donor sources db.orders else none in
    record db {
      lines = reassign_lines sources target.id db.lines;
      kots = reassign sources target.id db.kots;
      requests = reassign sources target.id db.requests;
      parked = reassign sources target.id db.parked;
      orders =
          update_orders sources (close_merged target.id)
            (update_order target.id (take_customer target donor) db.orders);
    }

-- The checks on the sources, one after the other.
unfoldable pub assert_sources : ℕ → List OrderRow → Result (Unit {0})
assert_sources outlet [] = ok tt
assert_sources outlet (o ∷ os) =
    let rest = assert_sources outlet os in
    refuse_if (not (o.outlet_id == outlet)) Error.different_outlets >> (assert_mergeable o >> rest)

unfoldable pub audit_each : AuthUser → Action → List ℕ → Db → Db
unfolding audit
audit_each user action [] db = db
audit_each user action (i ∷ is) db = audit_each user action is (audit user action i db)

-- The transaction, once the unlocked read has found the outlet and the tables.
unfoldable pub merge_locked : AuthUser → ℕ → List ℕ → ℕ → List (Option ℕ) → Db → Result Db
unfolding move_all
merge_locked user target_id sources outlet table_ids db = do
  lock_tables user outlet table_ids db
  lock_orders user (target_id ∷ sources) db
  target ← tenant_order user target_id db
  rows ← fetch_orders user sources db
  assert_mergeable target
  assert_sources outlet rows
  moved ← recompute_totals target_id none (move_all sources target db)
  ok (
      audit_each user Action.order_merged_into sources
        (audit user Action.order_merged target_id moved))

abbrev pub table_of : OrderRow → Option ℕ
table_of o = o.table_id

unfoldable pub merge_seen : AuthUser → ℕ → List ℕ → List OrderRow → Db → Result Db
unfolding merge_locked
merge_seen user target_id sources [] db = err Error.not_found
merge_seen user target_id sources (first ∷ rest) db = do
  let pre = first ∷ rest
  refuse_if (not (length pre == length (target_id ∷ sources))) Error.not_found
  refuse_if (any (λ o. not (o.outlet_id == first.outlet_id)) pre) Error.different_outlets
  assert_outlet user first.outlet_id
  merge_locked user target_id sources first.outlet_id (map table_of pre) db

unfoldable pub merge : AuthUser → ℕ → List ℕ → Db → Db → Result Db
unfolding merge_seen
merge user target_id source_ids seen db = do
  let sources = dedup source_ids
  refuse_if (includes sources target_id) Error.into_itself
  let all_ids = target_id ∷ sources
  let pre = keep (λ o. includes all_ids o.id && o.tenant_id == user.tenant_id) seen.orders
  merge_seen user target_id sources pre db
