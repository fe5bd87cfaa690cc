-- ===== src/Orders/Transfer/Bounds.antt =====
-- What resolveMoves allows to move: of each line of the bill at most what it has.
use mathlib.Core.Path.{subst}
use native.Mathlib.Nat.{div-le_of_le-mul}
use stello_kitchens.Prelude.{
  ℕ, ◌*◌, ◌/◌, ◌%◌, ◌==◌, ◌≤◌, ◌≡◌, ◌≢◌, ap, sym, ◌∙◌, Bool, false, not, ◌&&◌, List, [], ◌∷◌, some,
  arith, All, Bool-cases, Option-cases, inl, inr, ==_iff, ltb, keep,
}
use stello_kitchens.Service.{bind_ok, refuse_ok, found_ok, ok_inj}
use stello_kitchens.Orders.Rows.{LineRow, Error, ok, or_err}
use stello_kitchens.Orders.Transfer.Resolve.{
  LineQty, Moves, qty_of, has, find_line, same_group, components_of, move_components, resolve_one,
  resolve_from, resolve_moves,
}
use stello_kitchens.Orders.Transfer.Update.{Apart, find_line-id}

abbrev pub Bounded : Moves → List LineRow → Type 0
Bounded moves = All (λ l. qty_of moves l.id ≤ l.quantity)

pub All-keep :
    (P : LineRow → Type 0) (p : LineRow → Bool) (ls : List LineRow) → All P ls → All P (keep p ls)
All-keep P p [] h = tt
All-keep P p (l ∷ ls) (q, qs) = elim (Bool-cases (p l)) [
  | inl here ↦ rw here (q, All-keep P p ls qs)
  | inr other ↦ rw other (All-keep P p ls qs)
]

pub Apart-keep : (p : LineRow → Bool) (ls : List LineRow) → Apart ls → Apart (keep p ls)
Apart-keep p [] h = tt
Apart-keep p (l ∷ ls) (q, qs) = elim (Bool-cases (p l)) [
  | inl here ↦ rw here (All-keep (λ x. x.id ≢ l.id) p ls q, Apart-keep p ls qs)
  | inr other ↦ rw other (Apart-keep p ls qs)
]

-- A line is found by its id.
found_within :
    (l : LineRow) (ls more : List LineRow)
    → All (λ x. x.id ≢ l.id) ls
    → All (λ x. find_line x.id ls ≡ some x) more
    → All (λ x. x.id ≢ l.id) more
    → All (λ x. find_line x.id (l ∷ ls) ≡ some x) more
unfolding find_line
found_within l ls [] a h k = tt
found_within l ls (x ∷ more) a (h, hs) (k, ks) = (
  ground (arith, h, ==_iff l.id x.id, λ (e : l.id ≡ x.id). k (sym e)),
  found_within l ls more a hs ks,
)

pub Apart-found : (ls : List LineRow) → Apart ls → All (λ l. find_line l.id ls ≡ some l) ls
unfolding find_line
Apart-found [] h = tt
Apart-found (l ∷ ls) (p, ps) =
    (ground (arith, ==_iff l.id l.id), found_within l ls ls p (Apart-found ls ps) p)

-- One entry more, for a line that is found.
Bounded-add :
    (j q : ℕ) (moves : Moves) (all ls : List LineRow) {line : LineRow}
    → find_line j all ≡ some line
    → q ≤ line.quantity
    → All (λ l. find_line l.id all ≡ some l) ls
    → Bounded moves ls
    → Bounded ((j, q) ∷ moves) ls
Bounded-add j q moves all [] found e r h = tt
Bounded-add j q moves all (l ∷ ls) {line} found e (r, rs) (h, hs) = (
  elim (Bool-cases (j == l.id)) [
    | inl same ↦
        let one : some line ≡ some l =
          sym found ∙ ap (λ i. find_line i all) ((==_iff j l.id).0 same) ∙ r in
        let line_is : line ≡ l = cc one in rw same (subst (λ x. q ≤ x.quantity) line_is e)
    | inr other ↦ rw other h
  ],
  Bounded-add j q moves all ls {line = line} found e rs hs,
)

part_le : (c q n : ℕ) → q ≤ n → c * q / n ≤ c
part_le c q n h = div-le_of_le-mul n (grind arith)

move_components-Bounded :
    (line : LineRow) (qty : ℕ) (cs : List LineRow) (moves : Moves) (ls : List LineRow)
    {after : Moves}
    → qty ≤ line.quantity
    → All (λ c. find_line c.id ls ≡ some c) cs
    → All (λ l. find_line l.id ls ≡ some l) ls
    → Bounded moves ls
    → move_components line qty cs moves ≡ ok after
    → Bounded after ls
unfolding move_components
move_components-Bounded line qty [] moves ls e r all h k =
    subst (λ m. Bounded m ls) (sym (ok_inj k)) h
move_components-Bounded line qty (c ∷ cs) moves ls {after} e (r, rs) all h k =
    let (whole, rest) =
      refuse_ok (not (c.quantity * qty % line.quantity == 0)) Error.indivisible k in
    move_components-Bounded line qty cs ((c.id, c.quantity * qty / line.quantity) ∷ moves) ls
      {after = after} e rs all
      (Bounded-add c.id (c.quantity * qty / line.quantity) moves ls ls {line = c} r
        (part_le c.quantity qty line.quantity e) all h)
      rest

components_of-found :
    (line : LineRow) (ls : List LineRow)
    → All (λ l. find_line l.id ls ≡ some l) ls
    → All (λ c. find_line c.id ls ≡ some c) (components_of line ls)
unfolding components_of
components_of-found line ls h = elim (Option-cases line.combo_group_id) [
  | inl alone ↦ rw alone tt
  | inr (g, grouped) ↦ rw grouped (
      All-keep (λ c. find_line c.id ls ≡ some c)
        (λ c. c.is_combo_component && same_group c.combo_group_id g) ls h)
]

resolve_one-Bounded :
    (ls : List LineRow) (req : LineQty) (moves : Moves) {after : Moves}
    → All (λ l. find_line l.id ls ≡ some l) ls
    → Bounded moves ls
    → resolve_one ls req moves ≡ ok after
    → Bounded after ls
unfolding resolve_one
resolve_one-Bounded ls req moves {after} all h k =
    let (line, there, k1) = bind_ok (or_err (find_line req.order_item_id ls) Error.not_on_bill) k in
    let (single, k2) = refuse_ok line.is_combo_component Error.is_component k1 in
    let (once, k3) = refuse_ok (has moves line.id) Error.selected_twice k2 in
    let (few, k4) = refuse_ok (ltb line.quantity req.quantity) Error.too_many k3 in
    let found = found_ok (find_line req.order_item_id ls) Error.not_on_bill there in
    let own = find_line-id req.order_item_id ls {l = line} found in
    let enough = within line.quantity req.quantity few in
    move_components-Bounded line req.quantity (components_of line ls)
      ((line.id, req.quantity) ∷ moves) ls {after = after} enough (components_of-found line ls all)
      all
      (Bounded-add line.id req.quantity moves ls ls {line = line}
        (ap (λ i. find_line i ls) own ∙ found) enough all h)
      k4
  where
    within : (n q : ℕ) → ltb n q ≡ false → q ≤ n
    within n q h = ground arith

resolve_from-Bounded :
    (ls : List LineRow) (moves : Moves) (rs : List LineQty) {after : Moves}
    → All (λ l. find_line l.id ls ≡ some l) ls
    → Bounded moves ls
    → resolve_from ls moves rs ≡ ok after
    → Bounded after ls
unfolding resolve_from
resolve_from-Bounded ls moves [] all h k = subst (λ m. Bounded m ls) (sym (ok_inj k)) h
resolve_from-Bounded ls moves (r ∷ rs) {after} all h k =
    let (next, one, rest) = bind_ok (resolve_one ls r moves) k in
    resolve_from-Bounded ls next rs {after = after} all
      (resolve_one-Bounded ls r moves {after = next} all h one) rest

-- No line moves with more than it has.
pub resolve_moves-Bounded :
    (ls : List LineRow) (requested : List LineQty) {moves : Moves}
    → Apart ls
    → resolve_moves ls requested ≡ ok moves
    → Bounded moves ls
unfolding resolve_moves
resolve_moves-Bounded ls requested {moves} apart h =
    resolve_from-Bounded ls [] requested {after = moves} (Apart-found ls apart) (nothing ls) h
  where
    nothing : (ls : List LineRow) → Bounded [] ls
    nothing [] = tt
    nothing (l ∷ ls) = (omega arith, nothing ls)
