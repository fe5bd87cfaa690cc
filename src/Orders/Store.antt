-- ===== src/Orders/Store.antt =====
-- Reads and writes of the rows, and the checks that every operation on a running bill begins with.
pub mod Laws
use stello_kitchens.Prelude.{
  ℕ, ◌+◌, ◌==◌, Bool, true, false, not, ◌&&◌, ◌||◌, List, [], ◌∷◌, ◌++◌, map, Option, none, some,
  ltb, if◌then◌else◌, any, keep,
}
use stello_kitchens.Orders.Rows.{
  OrderRow, LineRow, Attached, TableRow, AuditEntry, Action, Db, AuthUser, Error, Result, ok, err,
  ◌>>=◌, ◌>>◌, refuse_if, or_err, is_open,
}

abbrev pub includes : List ℕ → ℕ → Bool
includes ids i = any (λ j. j == i) ids

-- `findUnique`: the row with this id.
unfoldable pub find_order : ℕ → List OrderRow → Option OrderRow
find_order id [] = none
find_order id (o ∷ os) = if o.id == id then some o else find_order id os

-- `update` and `updateMany` by id.
unfoldable pub update_orders : List ℕ → (OrderRow → OrderRow) → List OrderRow → List OrderRow
update_orders ids f = map (λ o. if includes ids o.id then f o else o)

abbrev pub update_order : ℕ → (OrderRow → OrderRow) → List OrderRow → List OrderRow
update_order id = update_orders (id ∷ [])

-- `updateMany({ where: { orderId: { in: ids } }, data: { orderId: target } })`.
abbrev pub reassign : List ℕ → ℕ → List Attached → List Attached
reassign ids target =
    map (λ k. if includes ids k.order_id then record k { order_id = target } else k)

unfoldable pub reassign_lines : List ℕ → ℕ → List LineRow → List LineRow
reassign_lines ids target =
    map (λ l. if includes ids l.order_id then record l { order_id = target } else l)

abbrev pub lines_of : ℕ → List LineRow → List LineRow
lines_of id = keep (λ l. l.order_id == id)

unfoldable pub audit : AuthUser → Action → ℕ → Db → Db
audit user action entity db = record db {
  audit_log =
      db.audit_log ++ (record { user_id = user.id; action = action; entity_id = entity } ∷ []);
}

-- `splitCount` as a condition.
abbrev pub truthy : Option ℕ → Bool
truthy none = false
truthy (some n) = ltb 0 n

abbrev pub is_some {ℓ} : {A : Type ℓ} → Option A → Bool
is_some none = false
is_some (some _) = true

abbrev pub has_id : Option ℕ → ℕ → Bool
has_id none id = false
has_id (some j) id = j == id

abbrev pub assert_outlet : AuthUser → ℕ → Result (Unit {0})
assert_outlet user outlet = refuse_if (not (includes user.outlet_ids outlet)) Error.forbidden

-- The order of this tenant, or `NotFoundException`.
unfoldable pub tenant_order : AuthUser → ℕ → Db → Result OrderRow
unfolding find_order
tenant_order user id db = do
  o ← or_err (find_order id db.orders) Error.not_found
  refuse_if (not (o.tenant_id == user.tenant_id)) Error.not_found
  ok o

-- `requireOrder`.
unfoldable pub require_order : AuthUser → ℕ → Db → Result OrderRow
unfolding tenant_order
require_order user id db = do o ← tenant_order user id db; assert_outlet user o.outlet_id; ok o

unfoldable pub lock_open_order : AuthUser → ℕ → Db → Result OrderRow
unfolding require_order
lock_open_order user id db = do
  o ← require_order user id db
  refuse_if (not (is_open o.status)) Error.not_open
  ok o

abbrev pub assert_not_split : OrderRow → Result (Unit {0})
assert_not_split o = do
  refuse_if (truthy o.split_count) Error.is_split
  refuse_if (is_some o.parent_order_id) Error.is_check

-- `assertMergeable`.
abbrev pub assert_mergeable : OrderRow → Result (Unit {0})
assert_mergeable o = do refuse_if (not (is_open o.status)) Error.not_open; assert_not_split o
