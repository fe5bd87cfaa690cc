-- ===== src/Orders/Store/Laws.antt =====
-- Looking up a row behind an update, and the lines of an order behind a reassignment.
use stello_kitchens.Prelude.{
  ℕ, ◌==◌, ◌≡◌, refl, ap, true, false, List, [], ◌∷◌, map, some, arith, keep, Bool-cases, inl, inr,
  ==_iff,
}
use stello_kitchens.Orders.Rows.{OrderRow, LineRow, Action, Db, AuthUser, ok, is_open}
use stello_kitchens.Orders.Store.{
  includes, find_order, update_orders, reassign_lines, lines_of, audit, tenant_order, require_order,
  lock_open_order,
}

module _ (ids : List ℕ) (f : OrderRow → OrderRow)
    (keeps_id : (o : OrderRow) → (f o).id ≡ o.id) where
  -- An update leaves the rows of other ids alone.
  pub find-update_ne :
      (i : ℕ) (os : List OrderRow)
      → includes ids i ≡ false
      → find_order i (update_orders ids f os) ≡ find_order i os
  unfolding find_order update_orders
  find-update_ne i [] h = refl
  find-update_ne i (o ∷ os) h = ground (arith, keeps_id o, find-update_ne i os h, ==_iff o.id i)

  pub find-update_eq :
      (i : ℕ) (os : List OrderRow) {o : OrderRow}
      → includes ids i ≡ true
      → find_order i os ≡ some o
      → find_order i (update_orders ids f os) ≡ some (f o)
  unfolding find_order update_orders
  find-update_eq i [] h e = cc
  find-update_eq i (x ∷ os) {o} h e = elim (Bool-cases (x.id == i)) [
    | inl same ↦ ground (arith, keeps_id x, ap (includes ids) ((==_iff x.id i).0 same))
    | inr other ↦ ground (arith, keeps_id x, find-update_eq i os {o = o} h)
  ]

-- An id that is listed is not one that is not.
pub includes_apart :
    (ids : List ℕ) (i t : ℕ) → includes ids i ≡ true → includes ids t ≡ false → (t == i) ≡ false
includes_apart ids i t h k = elim (Bool-cases (t == i)) [
  | inl same ↦ absurd (ground (arith, ap (includes ids) ((==_iff t i).0 same)))
  | inr other ↦ other
]

-- A line as it stands on another order.
abbrev pub onto : ℕ → LineRow → LineRow
onto target l = record l { order_id = target }

pub onto_self : (t : ℕ) (l : LineRow) → l.order_id ≡ t → onto t l ≡ l
onto_self t l e = ground arith

-- After a reassignment the target has its own lines and those of the sources, in their order.
pub lines_of-reassign :
    (sources : List ℕ) (t : ℕ) (ls : List LineRow)
    → lines_of t (reassign_lines sources t ls)
      ≡ map (onto t) (keep (λ l. includes (t ∷ sources) l.order_id) ls)
unfolding reassign_lines
lines_of-reassign sources t [] = refl
lines_of-reassign sources t (l ∷ ls) = ground (arith, lines_of-reassign sources t ls, onto_self t l)

-- No line is left on a source.
pub lines_of-reassign_source :
    (sources : List ℕ) (t i : ℕ) (ls : List LineRow)
    → includes sources i ≡ true
    → includes sources t ≡ false
    → lines_of i (reassign_lines sources t ls) ≡ []
unfolding reassign_lines
lines_of-reassign_source sources t i [] h k = refl
lines_of-reassign_source sources t i (l ∷ ls) h k = ground (
  arith,
  lines_of-reassign_source sources t i ls h k,
  includes_apart sources i t h k,
  includes_apart sources i l.order_id h,
)

-- The lines of an order that takes no part stay as they are.
pub lines_of-reassign_ne :
    (sources : List ℕ) (t i : ℕ) (ls : List LineRow)
    → includes (t ∷ sources) i ≡ false
    → lines_of i (reassign_lines sources t ls) ≡ lines_of i ls
unfolding reassign_lines
lines_of-reassign_ne sources t i [] h = refl
lines_of-reassign_ne sources t i (l ∷ ls) h = elim (Bool-cases (l.order_id == i)) [
  | inl here ↦ ground (
    arith,
    lines_of-reassign_ne sources t i ls h,
    ap (includes sources) ((==_iff l.order_id i).0 here),
  )
  | inr elsewhere ↦ ground (arith, lines_of-reassign_ne sources t i ls h)
]

-- The audit log is all that an entry changes.
pub audit-orders :
    (user : AuthUser) (a : Action) (i : ℕ) (db : Db) → (audit user a i db).orders ≡ db.orders
unfolding audit
audit-orders user a i db = refl

pub audit-lines :
    (user : AuthUser) (a : Action) (i : ℕ) (db : Db) → (audit user a i db).lines ≡ db.lines
unfolding audit
audit-lines user a i db = refl

pub find_order-id :
    (id : ℕ) (os : List OrderRow) {o : OrderRow} → find_order id os ≡ some o → o.id ≡ id
unfolding find_order
find_order-id id [] h = cc
find_order-id id (x ∷ os) {o} h = ground (arith, find_order-id id os {o = o})

-- The order that a request gets is there, under the id that it asks for.
pub tenant_order-found :
    (user : AuthUser) (id : ℕ) (db : Db) {o : OrderRow}
    → tenant_order user id db ≡ ok o
    → find_order id db.orders ≡ some o
unfolding tenant_order
tenant_order-found user id db h = ground arith

pub require_order-found :
    (user : AuthUser) (id : ℕ) (db : Db) {o : OrderRow}
    → require_order user id db ≡ ok o
    → find_order id db.orders ≡ some o
unfolding require_order tenant_order
require_order-found user id db h = ground arith

-- The bill that a request locks is there, and open.
pub lock_open_order-found :
    (user : AuthUser) (id : ℕ) (db : Db) {o : OrderRow}
    → lock_open_order user id db ≡ ok o
    → (find_order id db.orders ≡ some o) × (is_open o.status ≡ true)
unfolding lock_open_order require_order tenant_order
lock_open_order-found user id db h = ground arith
