-- ===== src/Orders/Merge/Steps.antt =====
-- A merge that succeeds, taken apart: its target, its sources and what it comes to.
use stello_kitchens.Prelude.{
  ℕ, inl, inr, ◌==◌, ◌≡◌, refl, ap, true, false, List, [], ◌∷◌, map, Option, none, some, arith,
  keep, All, not, ◌&&◌, Bool-cases, ==_iff,
}
use stello_kitchens.Orders.Rows.{OrderRow, Action, Db, AuthUser, ok, is_open, Result-cases}
use stello_kitchens.Orders.Store.{includes, find_order, audit, tenant_order}
use stello_kitchens.Orders.Totals.{recompute_totals}
use stello_kitchens.Orders.Merge.{
  dedup, fetch_orders, assert_sources, audit_each, move_all, close_merged, merge_locked, merge_seen,
  merge, table_of,
}
use stello_kitchens.Orders.Store.Laws.{tenant_order-found}

-- What a merge that succeeded has passed through.
pub includes-keep_ne :
    (x i : ℕ) (is : List ℕ)
    → (x == i) ≡ false
    → includes (keep (λ j. not (j == x)) is) i ≡ includes is i
includes-keep_ne x i [] h = refl
includes-keep_ne x i (j ∷ js) h = elim (Bool-cases (j == x)) [
  | inl same ↦ ground (arith, includes-keep_ne x i js h, (==_iff j x).0 same)
  | inr other ↦ ground (arith, includes-keep_ne x i js h)
]

-- Removing repetitions keeps the ids.
pub includes-dedup : (is : List ℕ) (i : ℕ) → includes (dedup is) i ≡ includes is i
unfolding dedup
includes-dedup [] i = refl
includes-dedup (x ∷ is) i = ground (arith, includes-keep_ne x i (dedup is), includes-dedup is i)

pub AllOpen : List OrderRow → Type 0
AllOpen = All (λ o. is_open o.status ≡ true)

pub assert_sources-AllOpen :
    (outlet : ℕ) (rows : List OrderRow) → assert_sources outlet rows ≡ ok tt → AllOpen rows
unfolding assert_sources AllOpen
assert_sources-AllOpen outlet [] h = tt
assert_sources-AllOpen outlet (o ∷ rows) h = ground (arith, assert_sources-AllOpen outlet rows)

-- Every order that was fetched is one of the rows.
pub fetch_orders-open :
    (user : AuthUser) (ids : List ℕ) (db : Db) (rows : List OrderRow) (i : ℕ) {o : OrderRow}
    → fetch_orders user ids db ≡ ok rows
    → AllOpen rows
    → includes ids i ≡ true
    → find_order i db.orders ≡ some o
    → is_open o.status ≡ true
unfolding fetch_orders AllOpen
fetch_orders-open user [] db rows i h open_rows listed found = cc
fetch_orders-open user (j ∷ js) db rows i {o} h open_rows listed found =
    elim (Result-cases (tenant_order user j db)) [
      | inl (e, refused) ↦ absurd (ground arith)
      | inr (x, first) ↦ elim (Result-cases (fetch_orders user js db)) [
        | inl (e, refused) ↦ absurd (ground arith)
        | inr (xs, later) ↦
            let all_rows : rows ≡ x ∷ xs = ground arith in
            let opened : AllOpen (x ∷ xs) = rw all_rows at open_rows in
            elim (Bool-cases (j == i)) [
              | inl same ↦ ground (
                arith,
                tenant_order-found user j db first,
                opened.0,
                ap (λ k. find_order k db.orders) ((==_iff j i).0 same),
              )
              | inr other ↦
                  fetch_orders-open user js db xs i {o = o} later opened.1 (ground arith) found
            ]
      ]
    ]

pub record Merged (user : AuthUser) (target_id : ℕ) (sources : List ℕ) (db after : Db)
    : Type 0 where
  pub target : OrderRow
  pub rows : List OrderRow
  pub moved : Db
  pub found : tenant_order user target_id db ≡ ok target
  pub fetched : fetch_orders user sources db ≡ ok rows
  pub rows_open : AllOpen rows
  pub target_open : is_open target.status ≡ true
  pub recomputed : recompute_totals target_id none (move_all sources target db) ≡ ok moved
  pub audited :
      after
      ≡ audit_each user Action.order_merged_into sources
          (audit user Action.order_merged target_id moved)

pub merge_locked-Merged :
    (user : AuthUser) (t : ℕ) (sources : List ℕ) (outlet : ℕ) (tables : List (Option ℕ)) (db : Db)
    {after : Db}
    → merge_locked user t sources outlet tables db ≡ ok after
    → Merged user t sources db after
unfolding merge_locked
merge_locked-Merged user t sources outlet tables db h =
    elim (Result-cases (tenant_order user t db)) [
      | inl (e, refused) ↦ absurd (ground arith)
      | inr (target, found) ↦ elim (Result-cases (fetch_orders user sources db)) [
        | inl (e, refused) ↦ absurd (ground arith)
        | inr (rows, fetched) ↦
            let checked : assert_sources outlet rows ≡ ok tt = ground arith in
            elim (Result-cases (recompute_totals t none (move_all sources target db))) [
              | inl (e, refused) ↦ absurd (ground arith)
              | inr (moved, recomputed) ↦ record {
                target = target;
                rows = rows;
                moved = moved;
                found = found;
                fetched = fetched;
                rows_open = assert_sources-AllOpen outlet rows checked;
                target_open = ground arith;
                recomputed = recomputed;
                audited = ground arith;
              }
            ]
      ]
    ]

pub merge_seen-Merged :
    (user : AuthUser) (t : ℕ) (sources : List ℕ) (pre : List OrderRow) (db : Db) {after : Db}
    → merge_seen user t sources pre db ≡ ok after
    → Merged user t sources db after
unfolding merge_seen
merge_seen-Merged user t sources [] db h = cc
merge_seen-Merged user t sources (first ∷ rest) db h =
    merge_locked-Merged user t sources first.outlet_id (map table_of (first ∷ rest)) db
      (ground arith)

pub merge-Merged :
    (user : AuthUser) (t : ℕ) (ids : List ℕ) (seen db : Db) {after : Db}
    → merge user t ids seen db ≡ ok after
    → (includes (dedup ids) t ≡ false) × Merged user t (dedup ids) db after
unfolding merge
merge-Merged user t ids seen db h =
    let sources = dedup ids in
    let listed = λ (o : OrderRow). includes (t ∷ sources) o.id && o.tenant_id == user.tenant_id in
    (ground arith, merge_seen-Merged user t sources (keep listed seen.orders) db (ground arith))

pub audit_each-same :
    (user : AuthUser) (a : Action) (is : List ℕ) (db : Db)
    → ((audit_each user a is db).orders ≡ db.orders) × ((audit_each user a is db).lines ≡ db.lines)
unfolding audit_each audit
audit_each-same user a [] db = (refl, refl)
audit_each-same user a (i ∷ is) db = audit_each-same user a is (audit user a i db)

pub close_merged-id : (t : ℕ) (o : OrderRow) → (close_merged t o).id ≡ o.id
unfolding close_merged
close_merged-id t o = refl
