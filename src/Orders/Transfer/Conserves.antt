-- ===== src/Orders/Transfer/Conserves.antt =====
-- Moving lines between bills loses nothing: of every item there are as many as before.
use mathlib.Core.Path.{subst}
use stello_kitchens.Prelude.{
  ℕ, ◌+◌, ◌-◌, ◌==◌, ◌≤◌, ◌<◌, ◌≡◌, ◌≢◌, refl, sym, ◌∙◌, List, [], ◌∷◌, ◌++◌, some, arith,
  if◌then◌else◌, All, All-append, Bool-cases, inl, inr, sum_by-append,
}
use stello_kitchens.Orders.Rows.{LineRow, Db}
use stello_kitchens.Orders.Transfer.Resolve.{Moves, qty_of, find_line}
use stello_kitchens.Orders.Transfer.{copy_line, amount, update_line, move_line, move_lines}
use stello_kitchens.Orders.Transfer.Update.{
  count_of, item_total, Apart, AreSound, Apart-append, find_line-append, update_line-All,
  update_line-Apart, find_line-update_line_ne, item_total-update_line,
}

abbrev pub onto_bill : ℕ → LineRow → LineRow
onto_bill target l = record l { order_id = target }

abbrev pub left_with : LineRow → ℕ → LineRow → LineRow
left_with line left l = record l { quantity = left; line_total = amount line left }

item_total-onto_bill :
    (item id target : ℕ) (ls : List LineRow)
    → item_total item (update_line id (onto_bill target) ls) ≡ item_total item ls
unfolding update_line
item_total-onto_bill item id target [] = refl
item_total-onto_bill item id target (l ∷ ls) = elim (Bool-cases (l.id == id)) [
  | inl here ↦ rw here (omega (arith, item_total-onto_bill item id target ls))
  | inr other ↦ rw other (omega (arith, item_total-onto_bill item id target ls))
]

-- What one move keeps.
pub record Kept (line : LineRow) (before after : Db) : Type 0 where
  pub total : (item : ℕ) → item_total item after.lines ≡ item_total item before.lines
  pub sound : AreSound after
  pub others :
      (l : LineRow)
      → l.id ≢ line.id
      → find_line l.id before.lines ≡ some l
      → find_line l.id after.lines ≡ some l

move_all_of-Kept :
    (line : LineRow) (target : ℕ) (db : Db)
    → AreSound db
    → Kept line db (record db { lines = update_line line.id (onto_bill target) db.lines })
move_all_of-Kept line target db sound = record {
  total = λ item. item_total-onto_bill item line.id target db.lines;
  sound = record {
    apart = update_line-Apart line.id (onto_bill target) (λ l. refl) db.lines sound.apart;
    known =
        update_line-All line.id (onto_bill target) (λ l. refl) (λ j. j < db.next_id) db.lines
          sound.known;
  };
  others = λ l apart found.
      find_line-update_line_ne line.id (onto_bill target) (λ x. refl) l.id db.lines apart ∙ found;
}

sum_of_parts :
    (item left qty : ℕ) (line : LineRow) (u t : ℕ)
    → left + qty ≡ line.quantity
    → u + count_of item line ≡ t + (if line.item == item then left else 0)
    → u + (if line.item == item then qty else 0) ≡ t
sum_of_parts item left qty line u t parts h = ground (arith, parts, h)

move_part_of-Kept :
    (line : LineRow) (qty target : ℕ) (db : Db)
    → AreSound db
    → find_line line.id db.lines ≡ some line
    → qty ≤ line.quantity
    → Kept line db (record db {
      lines =
          update_line line.id (left_with line (line.quantity - qty)) db.lines
          ++ (copy_line line db.next_id target qty (amount line qty) ∷ []);
      next_id = db.next_id + 1;
    })
move_part_of-Kept line qty target db sound found some_of =
    let left = line.quantity - qty in
    let f = left_with line left in
    let new = copy_line line db.next_id target qty (amount line qty) in
    let updated = update_line line.id f db.lines in
    let known = update_line-All line.id f (λ l. refl) (λ j. j < db.next_id) db.lines sound.known in
    record {
      total = λ item. omega (
        arith,
        sum_by-append (count_of item) updated (new ∷ []),
        sum_of_parts item left qty line (item_total item updated) (item_total item db.lines)
            (omega arith)
            (item_total-update_line line.id f (λ l. refl) item db.lines {l = line} sound.apart
              found),
      );
      sound = record {
        apart =
            Apart-append updated new db.next_id
              (update_line-Apart line.id f (λ l. refl) db.lines sound.apart) known refl;
        known =
            All-append (λ l. l.id < db.next_id + 1) updated (new ∷ []) (below updated known)
              (omega arith, tt);
      };
      others = λ l apart there.
          find_line-append l.id updated new {l = l}
            (find_line-update_line_ne line.id f (λ x. refl) l.id db.lines apart ∙ there);
    }
  where
    below :
        (ls : List LineRow) → All (λ l. l.id < db.next_id) ls → All (λ l. l.id < db.next_id + 1) ls
    below [] h = tt
    below (l ∷ ls) (p, ps) = (omega arith, below ls ps)

move_line-Kept :
    (line : LineRow) (qty target : ℕ) (db : Db)
    → AreSound db
    → find_line line.id db.lines ≡ some line
    → qty ≤ line.quantity
    → Kept line db (move_line line qty target db)
unfolding move_line
move_line-Kept line qty target db sound found some_of = elim (Bool-cases (qty == line.quantity)) [
  | inl whole ↦ rw whole (move_all_of-Kept line target db sound)
  | inr part ↦ rw part (move_part_of-Kept line qty target db sound found some_of)
]

-- Of every item there are as many as before, and the ids are still sound.
abbrev pub Conserves : Db → Db → Type 0
Conserves before after =
    ((item : ℕ) → item_total item after.lines ≡ item_total item before.lines) × AreSound after

-- Whatever lines are moved, each with at most its quantity, of every item there are as many as before.
pub move_lines-item_total :
    (moves : Moves) (target : ℕ) (ls : List LineRow) (db : Db)
    → AreSound db
    → Apart ls
    → All (λ l. find_line l.id db.lines ≡ some l) ls
    → All (λ l. qty_of moves l.id ≤ l.quantity) ls
    → Conserves db (move_lines moves target ls db)
unfolding move_lines
move_lines-item_total moves target [] db sound apart ready enough = ((λ item. refl), sound)
move_lines-item_total moves target (l ∷ ls) db sound (here, apart) (found, ready) (e, enough) =
    elim (Bool-cases (qty_of moves l.id == 0)) [
      | inl stays ↦
          let step : move_lines moves target (l ∷ ls) db ≡ move_lines moves target ls db =
            rw stays refl in
          subst (Conserves db) (sym step)
            (move_lines-item_total moves target ls db sound apart ready enough)
      | inr moves_on ↦
          let kept = move_line-Kept l (qty_of moves l.id) target db sound found e in
          let next = move_line l (qty_of moves l.id) target db in
          let (total, after) =
            move_lines-item_total moves target ls next kept.sound apart
              (still next kept ls here ready) enough in
          let step : move_lines moves target (l ∷ ls) db ≡ move_lines moves target ls next =
            rw moves_on refl in
          subst (Conserves db) (sym step) ((λ item. total item ∙ kept.total item), after)
    ]
  where
    still :
        (next : Db)
        → Kept l db next
        → (ls : List LineRow) → All (λ x. x.id ≢ l.id) ls
        → All (λ x. find_line x.id db.lines ≡ some x) ls
        → All (λ x. find_line x.id next.lines ≡ some x) ls
    still next kept [] a r = tt
    still next kept (x ∷ ls) (p, ps) (q, qs) = (kept.others x p q, still next kept ls ps qs)
