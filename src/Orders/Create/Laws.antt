-- ===== src/Orders/Create/Laws.antt =====
-- What a bill comes to after items are added to it.
use mathlib.Core.Path.{subst}
use stello_kitchens.Prelude.{
  ℕ, ◌<◌, ◌≡◌, refl, ap, sym, ◌∙◌, true, false, List, [], ◌∷◌, ◌++◌, map, Option, none, some, arith,
  All,
}
use stello_kitchens.Prelude.Texts.{Text}
use stello_kitchens.Service.{bind_ok, then_ok, refuse_ok, ok_inj}
use stello_kitchens.Orders.Rows.{
  OrderRow, OrderType, LineRow, Action, Db, AuthUser, Error, ok, is_open,
}
use stello_kitchens.Orders.Store.{find_order, audit, is_some, assert_outlet}
use stello_kitchens.Orders.Totals.{bill_for, recompute_totals, service_charge_for, with_totals}
use stello_kitchens.Orders.Totals.Laws.{recompute_totals-eq-ok}
use stello_kitchens.Orders.Preview.Laws.{with_totals_found}
use stello_kitchens.Orders.Transfer.{find_on_table, new_order}
use stello_kitchens.Orders.Merge.{lock_tables}
use stello_kitchens.Orders.Punch.{LineInput, Kitchen, Punching, punch_items, less_stock}
use stello_kitchens.Orders.Punch.Steps.{demand}
use stello_kitchens.Orders.Punch.Laws.{AddsLines, punch_items-conserves, punch_items-orders}
use stello_kitchens.Orders.Create.{
  CreateInput, Moment, punch_at, check_table, insert_order, put_db, create,
}

-- Recomputing the totals writes the bill of the order's lines, as they are after it.
recompute_totals-writes :
    (id : ℕ) (db : Db) {o : OrderRow} {after : Db}
    → recompute_totals id none db ≡ ok after
    → find_order id db.orders ≡ some o
    → (row : OrderRow) × (find_order id after.orders ≡ some row)
      × (row.status ≡ o.status)
      × (row.table_id ≡ o.table_id)
      × (row.total ≡ (bill_for o o.allocated_discount after).total)
      × (after.lines ≡ db.lines)
unfolding with_totals bill_for
recompute_totals-writes id db {o} {after} h found =
    let (x, known, wrote) = recompute_totals-eq-ok id none db {after = after} h in
    let same : x ≡ o = ground arith in
    let sc = service_charge_for (db.rules x.tenant_id x.outlet_id) x in
    let bill = bill_for x x.allocated_discount db in
    (
      with_totals bill sc x,
      subst (λ w. find_order id w.orders ≡ some (with_totals bill sc x)) (sym wrote)
          (with_totals_found bill sc id db.orders {o = x} known),
      ap (λ y. y.status) same,
      ap (λ y. y.table_id) same,
      subst (λ w. bill.total ≡ (bill_for o o.allocated_discount w).total) (sym wrote)
          (ap (λ y. (bill_for y y.allocated_discount db).total) same),
      ap (λ w. w.lines) wrote,
    )

-- A bill that items were punched on and whose totals were recomputed.
pub record Grown (p : Punching) (id : ℕ) (items : List LineInput) (k after : Kitchen) (o : OrderRow)
    : Type 0 where
  pub row : OrderRow
  pub new : List LineRow
  pub found : find_order id after.db.orders ≡ some row
  pub status : row.status ≡ o.status
  pub table : row.table_id ≡ o.table_id
  pub total : row.total ≡ (bill_for o o.allocated_discount after.db).total
  pub lines : after.db.lines ≡ k.db.lines ++ new
  pub adds : AddsLines p k.menu id k.db.next_id items new
  pub stock : after.materials ≡ map (λ x. less_stock (demand p k.menu x.id items) x) k.materials

punched-Grown :
    (p : Punching) (id : ℕ) (items : List LineInput) (k : Kitchen) (o : OrderRow)
    (punched : Kitchen) (names : List Text) (done : Db)
    → find_order id k.db.orders ≡ some o
    → punch_items p id items k ≡ ok (punched, names)
    → recompute_totals id none punched.db ≡ ok done
    → Grown p id items k (put_db punched done) o
punched-Grown p id items k o punched names done found got totalled =
    let (stock, ledger, new, lines, adds) =
      punch_items-conserves p id items k {after = punched} {names = names} got in
    let kept = punch_items-orders p id items k {after = punched} {names = names} got in
    let (row, there, status, table, total, same) =
      recompute_totals-writes id punched.db {o = o} {after = done} totalled
        (ap (find_order id) kept ∙ found) in
    record {
      row = row;
      new = new;
      found = there;
      status = status;
      table = table;
      total = total;
      lines = same ∙ lines;
      adds = adds;
      stock = stock;
    }

find_order-append :
    (os : List OrderRow) (o : OrderRow)
    → All (λ x. x.id < o.id) os
    → find_order o.id (os ++ (o ∷ [])) ≡ some o
unfolding find_order
find_order-append [] o h = ground arith
find_order-append (x ∷ os) o (p, ps) = ground (arith, p, find_order-append os o ps)

-- The table of a new bill: a dine-in bill has one, which was free, and others have none.
abbrev pub TakesTable : AuthUser → ℕ → OrderType → Option ℕ → Db → Option ℕ → Type 0
TakesTable user outlet OrderType.dine_in asked db got =
    (t : ℕ) × (asked ≡ some t) × (got ≡ some t) × (find_on_table user outlet t db.orders ≡ none)
TakesTable user outlet _ asked db got = got ≡ none

check_table-takes :
    (user : AuthUser) (outlet : ℕ) (type : OrderType) (asked : Option ℕ) (db : Db) {got : Option ℕ}
    → check_table user outlet type asked db ≡ ok got
    → TakesTable user outlet type asked db got
unfolding check_table
check_table-takes user outlet OrderType.dine_in none db h = absurd (cc h)
check_table-takes user outlet OrderType.dine_in (some t) db {got} h =
    let (found, h1) = then_ok (lock_tables user outlet (some t ∷ []) db) h in
    let (free, h2) =
      refuse_ok (is_some (find_on_table user outlet t db.orders)) Error.table_taken h1 in
    (t, refl, ok_inj h2, no_one (find_on_table user outlet t db.orders) free)
  where
    no_one : (o : Option OrderRow) → is_some o ≡ false → o ≡ none
    no_one none h = refl
    no_one (some o) h = absurd (cc h)
check_table-takes user outlet OrderType.takeaway asked db h = ok_inj h
check_table-takes user outlet OrderType.delivery asked db h = ok_inj h

module _ (user : AuthUser) (m : Moment) (k : Kitchen) where
  -- Where every order has an id below the next one: a bill that is created is open under that id, with
  -- the total of the bill of its lines and one line for each of the items; a dine-in bill is on the
  -- table that was asked for, which no open bill was on, and another is on none.
  pub create-Grown :
      (input : CreateInput) {after : Kitchen}
      → All (λ o. o.id < k.db.next_id) k.db.orders
      → create user input m k ≡ ok after
      → (o : OrderRow) × (o.id ≡ k.db.next_id)
        × (is_open o.status ≡ true)
        × TakesTable user input.outlet_id input.order_type input.table_id k.db o.table_id
        × Grown
            (punch_at user.tenant_id input.outlet_id m)
            k.db.next_id
            input.items
            (put_db k (insert_order o k.db))
            after
            o
  unfolding create insert_order audit bill_for
  create-Grown input {after} fresh h =
      let (access, h1) = then_ok (assert_outlet user input.outlet_id) h in
      let (table, free, h2) =
        bind_ok (check_table user input.outlet_id input.order_type input.table_id k.db) h1 in
      let id = k.db.next_id in
      let o : OrderRow =
        record (new_order id user.tenant_id input.outlet_id input.order_type table user.id) {
          customer_name = input.customer_name;
          customer_phone = input.customer_phone;
        } in
      let p = punch_at user.tenant_id input.outlet_id m in
      let begun = put_db k (insert_order o k.db) in
      let (punched, got, h3) = bind_ok (punch_items p id input.items begun) h2 in
      let (done, totalled, h4) = bind_ok (recompute_totals id none punched.0.db) h3 in
      let grown =
        punched-Grown p id input.items begun o punched.0 punched.1 done
          (find_order-append k.db.orders o fresh) got totalled in
      (
        o,
        refl,
        refl,
        check_table-takes user input.outlet_id input.order_type input.table_id k.db {got = table}
            free,
        subst (λ a. Grown p id input.items begun a o) (sym (ok_inj h4))
            (logged p id input.items begun o punched.0 done grown),
      )
    where
      logged :
          (p : Punching) (id : ℕ) (items : List LineInput) (k : Kitchen) (o : OrderRow)
          (punched : Kitchen) (done : Db)
          → Grown p id items k (put_db punched done) o
          → Grown p id items k (put_db punched (audit user Action.order_created id done)) o
      logged p id items k o punched done g = record {
        row = g.row;
        new = g.new;
        found = g.found;
        status = g.status;
        table = g.table;
        total = g.total;
        lines = g.lines;
        adds = g.adds;
        stock = g.stock;
      }
