-- ===== src/Orders/Transfer/Laws.antt =====
-- A transfer loses nothing, whichever way it goes.
use mathlib.Core.Path.{subst}
use stello_kitchens.Prelude.{
  ℕ, ◌+◌, ◌==◌, ◌<◌, ◌≡◌, refl, ap, sym, ◌∙◌, Bool, true, false, not, ◌&&◌, List, [], ◌∷◌, ◌++◌,
  map, Option, some, none, arith, if◌then◌else◌, All, Bool-cases, inl, inr, keep, length, all,
}
use stello_kitchens.Service.{bind_ok, then_ok, after_ok, refuse_ok, ok_inj}
use stello_kitchens.Orders.Rows.{OrderRow, LineRow, OrderType, Db, AuthUser, Error, ok}
use stello_kitchens.Orders.Store.{
  lines_of, update_order, reassign_lines, includes, has_id, audit, require_order, tenant_order,
  assert_mergeable,
}
use stello_kitchens.Orders.Totals.{recompute_totals}
use stello_kitchens.Orders.Totals.Laws.{recompute_totals-eq-ok}
use stello_kitchens.Orders.Merge.{lock_tables, lock_orders, move_all}
use stello_kitchens.Orders.Transfer.Resolve.{LineQty, Moves, qty_of, find_line, resolve_moves}
use stello_kitchens.Orders.Transfer.Update.{item_total, AreSound}
use stello_kitchens.Orders.Transfer.Conserves.{move_lines-item_total}
use stello_kitchens.Orders.Transfer.Bounds.{
  Bounded, All-keep, Apart-keep, Apart-found, resolve_moves-Bounded,
}
use stello_kitchens.Orders.Transfer.{
  Transferred, move_lines, touched_kots, follow_kots, new_order, same_table, transfer_all,
  transfer_some, transfer_part, transfer_moves, lock_target, resolve_requested, transfer,
}

recompute_totals-lines :
    (id : ℕ) (db : Db) {after : Db}
    → recompute_totals id none db ≡ ok after
    → after.lines ≡ db.lines
recompute_totals-lines id db {after} h =
    let (o, found, wrote) = recompute_totals-eq-ok id none db {after = after} h in
    ap (λ w. w.lines) wrote

item_total-reassign_lines :
    (item target : ℕ) (ids : List ℕ) (ls : List LineRow)
    → item_total item (reassign_lines ids target ls) ≡ item_total item ls
unfolding reassign_lines
item_total-reassign_lines item target ids [] = refl
item_total-reassign_lines item target ids (l ∷ ls) = elim (Bool-cases (includes ids l.order_id)) [
  | inl here ↦ rw here (omega (arith, item_total-reassign_lines item target ids ls))
  | inr other ↦ rw other (omega (arith, item_total-reassign_lines item target ids ls))
]

follow_kots-lines :
    (source target : ℕ) (ks : List ℕ) (db : Db) → (follow_kots source target ks db).lines ≡ db.lines
unfolding follow_kots
follow_kots-lines source target [] db = refl
follow_kots-lines source target (k ∷ ks) db =
    let left = keep (λ l. has_id l.kot_id k && l.order_id == source) db.lines in
    let moved = map (λ r. if r.id == k then record r { order_id = target } else r) db.kots in
    follow_kots-lines source target ks (if length left == 0 then record db { kots = moved } else db)
    ∙ same (length left == 0)
  where
    same :
        (b : Bool)
        → let left = keep (λ l. has_id l.kot_id k && l.order_id == source) db.lines in
          let moved = map (λ r. if r.id == k then record r { order_id = target } else r) db.kots in
          (if b then record db { kots = moved } else db).lines ≡ db.lines
    same true = refl
    same false = refl

abbrev pub Keeps : Db → Transferred → Type 0
Keeps db t = (item : ℕ) → item_total item t.after.lines ≡ item_total item db.lines

transfer_all-Keeps :
    (user : AuthUser) (source : OrderRow) (target : Option OrderRow) (table : ℕ) (db : Db)
    {t : Transferred}
    → transfer_all user source target table db ≡ ok t
    → Keeps db t
unfolding transfer_all move_all audit
transfer_all-Keeps user source (some target) table db {t} h =
    let (moved, totalled, h1) =
      bind_ok (recompute_totals target.id none (move_all (source.id ∷ []) target db)) h in
    λ item.
      ap (λ r. item_total item r.after.lines) (ok_inj h1)
      ∙ ap (item_total item) (
          recompute_totals-lines target.id (move_all (source.id ∷ []) target db) {after = moved}
            totalled)
      ∙ item_total-reassign_lines item target.id (source.id ∷ []) db.lines
transfer_all-Keeps user source none table db {t} h =
    let sit = λ (o : OrderRow). record o {
      table_id = some table;
      order_type = OrderType.dine_in;
      version = o.version + 1;
    } in
    let seated : Db = record db { orders = update_order source.id sit db.orders } in
    let (moved, totalled, h1) = bind_ok (recompute_totals source.id none seated) h in
    λ item.
      ap (λ r. item_total item r.after.lines) (ok_inj h1)
      ∙ ap (item_total item) (recompute_totals-lines source.id seated {after = moved} totalled)

transfer_some-Keeps :
    (user : AuthUser) (source : OrderRow) (moves : Moves) (target table : ℕ) (db : Db)
    {t : Transferred}
    → AreSound db
    → Bounded moves (lines_of source.id db.lines)
    → transfer_some user source moves target table db ≡ ok t
    → Keeps db t
unfolding transfer_some audit
transfer_some-Keeps user source moves target table db {t} sound bounded h =
    let lines = lines_of source.id db.lines in
    let kots = touched_kots moves lines in
    let carried = move_lines moves target lines db in
    let moved = follow_kots source.id target kots carried in
    let (left, first, h1) = bind_ok (recompute_totals source.id none moved) h in
    let (given, second, h2) = bind_ok (recompute_totals target none left) h1 in
    let apart = Apart-keep (λ l. l.order_id == source.id) db.lines sound.apart in
    let ready =
      All-keep (λ l. find_line l.id db.lines ≡ some l) (λ l. l.order_id == source.id) db.lines
        (Apart-found db.lines sound.apart) in
    let (total, after) = move_lines-item_total moves target lines db sound apart ready bounded in
    λ item.
      ap (λ r. item_total item r.after.lines) (ok_inj h2)
      ∙ ap (item_total item) (
          recompute_totals-lines target left {after = given} second
          ∙ recompute_totals-lines source.id moved {after = left} first
          ∙ follow_kots-lines source.id target kots carried)
      ∙ total item

transfer_part-Keeps :
    (user : AuthUser) (source : OrderRow) (target : Option OrderRow) (table : ℕ) (moves : Moves)
    (db : Db) {t : Transferred}
    → AreSound db
    → Bounded moves (lines_of source.id db.lines)
    → transfer_part user source target table moves db ≡ ok t
    → Keeps db t
unfolding transfer_part
transfer_part-Keeps user source (some target) table moves db {t} sound bounded h =
    transfer_some-Keeps user source moves target.id table db {t = t} sound bounded h
transfer_part-Keeps user source none table moves db {t} sound bounded h =
    let opened =
      new_order db.next_id user.tenant_id source.outlet_id OrderType.dine_in (some table) user.id in
    transfer_some-Keeps user source moves db.next_id table
      (record db { orders = db.orders ++ (opened ∷ []); next_id = db.next_id + 1 }) {t = t}
      (record { apart = sound.apart; known = below db.lines sound.known }) bounded h
  where
    below :
        (ls : List LineRow) → All (λ l. l.id < db.next_id) ls → All (λ l. l.id < db.next_id + 1) ls
    below [] k = tt
    below (l ∷ ls) (p, ps) = (omega arith, below ls ps)

transfer_moves-Keeps :
    (user : AuthUser) (source : OrderRow) (target : Option OrderRow) (table : ℕ)
    (requested : Option (List LineQty)) (moves : Option Moves) (db : Db) {t : Transferred}
    → AreSound db
    → resolve_requested requested (lines_of source.id db.lines) ≡ ok moves
    → transfer_moves user source target table moves db ≡ ok t
    → Keeps db t
unfolding transfer_moves resolve_requested
transfer_moves-Keeps user source target table requested none db {t} sound r h =
    transfer_all-Keeps user source target table db {t = t} h
transfer_moves-Keeps user source target table none (some moves) db {t} sound r h = absurd (cc r)
transfer_moves-Keeps user source target table (some asked) (some moves) db {t} sound r h =
    let lines = lines_of source.id db.lines in
    let (resolved, one, r1) = bind_ok (resolve_moves lines asked) r in
    let same : moves ≡ resolved = cc (ok_inj r1) in
    let apart = Apart-keep (λ l. l.order_id == source.id) db.lines sound.apart in
    let bounded =
      subst (λ m. Bounded m lines) (sym same)
        (resolve_moves-Bounded lines asked {moves = resolved} apart one) in
    elim (Bool-cases (all (λ l. qty_of moves l.id == l.quantity) lines)) [
      | inl whole ↦ transfer_all-Keeps user source target table db {t = t} (simp whole at h)
      | inr part ↦
          transfer_part-Keeps user source target table moves db {t = t} sound bounded
            (simp part at h)
    ]

-- Where the lines' ids differ and none is still to be given: a transfer that succeeds, of a whole bill or
-- of some of its lines, to a free table or onto the bill there, leaves as many of every item as before.
pub transfer-conserves :
    (user : AuthUser) (id table : ℕ) (requested : Option (List LineQty)) (seen db : Db)
    {t : Transferred}
    → AreSound db
    → transfer user id table requested seen db ≡ ok t
    → (item : ℕ) → item_total item t.after.lines ≡ item_total item db.lines
unfolding transfer
transfer-conserves user id table requested seen db {t} sound h =
    let (pre, required, h1) = bind_ok (require_order user id seen) h in
    let (elsewhere, h2) = refuse_ok (has_id pre.table_id table) Error.already_there h1 in
    let (tables, h3) =
      then_ok (lock_tables user pre.outlet_id (pre.table_id ∷ some table ∷ []) db) h2 in
    let h4 = after_ok (lock_orders user (id ∷ []) db) h3 in
    let (source, found, h5) = bind_ok (tenant_order user id db) h4 in
    let (mergeable, h6) = then_ok (assert_mergeable source) h5 in
    let (there, h7) =
      refuse_ok (not (same_table source.table_id pre.table_id)) Error.moved_meanwhile h6 in
    let (target, taken, h8) = bind_ok (lock_target user source.outlet_id table db) h7 in
    let (moves, resolved, h9) =
      bind_ok (resolve_requested requested (lines_of source.id db.lines)) h8 in
    transfer_moves-Keeps user source target table requested moves db {t = t} sound resolved h9
