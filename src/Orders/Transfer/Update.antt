-- ===== src/Orders/Transfer/Update.antt =====
-- The lines behind the update of one of them: their ids, their lookup and how many of an item they have.
use mathlib.Core.Path.{subst}
use stello_kitchens.Prelude.{
  ℕ, ◌+◌, ◌==◌, ◌<◌, ◌≡◌, ◌≢◌, refl, ap, sym, List, [], ◌∷◌, ◌++◌, some, arith, if◌then◌else◌, All,
  All-append, Bool-cases, inl, inr, ==_iff, sum_by,
}
use stello_kitchens.Orders.Rows.{LineRow, Db}
use stello_kitchens.Orders.Transfer.Resolve.{find_line}
use stello_kitchens.Orders.Transfer.{update_line}

-- How many of an item the lines have together.
abbrev pub count_of : ℕ → LineRow → ℕ
count_of item l = if l.item == item then l.quantity else 0

abbrev pub item_total : ℕ → List LineRow → ℕ
item_total item = sum_by (count_of item)

-- No two lines share an id.
abbrev pub Apart : List LineRow → Type 0
Apart [] = Unit
Apart (l ∷ ls) = All (λ x. x.id ≢ l.id) ls × Apart ls

-- The ids of the lines differ, and none is still to be given.
pub record AreSound (db : Db) : Type 0 where
  pub apart : Apart db.lines
  pub known : All (λ l. l.id < db.next_id) db.lines

pub find_line-id : (id : ℕ) (ls : List LineRow) {l : LineRow} → find_line id ls ≡ some l → l.id ≡ id
unfolding find_line
find_line-id id [] h = absurd (cc h)
find_line-id id (x ∷ ls) {l} h = elim (Bool-cases (x.id == id)) [
  | inl here ↦ ground (arith, ==_iff x.id id)
  | inr other ↦ find_line-id id ls {l = l} (simp other at h)
]

module _ (id : ℕ) (f : LineRow → LineRow) (keeps_id : (l : LineRow) → (f l).id ≡ l.id) where
  pub update_line-All :
      (P : ℕ → Type 0) (ls : List LineRow)
      → All (λ l. P l.id) ls
      → All (λ l. P l.id) (update_line id f ls)
  unfolding update_line
  update_line-All P [] h = tt
  update_line-All P (l ∷ ls) (p, ps) = (
    elim (Bool-cases (l.id == id)) [
      | inl here ↦ rw here (subst P (sym (keeps_id l)) p)
      | inr other ↦ rw other p
    ],
    update_line-All P ls ps,
  )

  pub update_line-Apart : (ls : List LineRow) → Apart ls → Apart (update_line id f ls)
  unfolding update_line
  update_line-Apart [] h = tt
  update_line-Apart (l ∷ ls) (p, ps) =
      let rest = update_line-Apart ls ps in
      elim (Bool-cases (l.id == id)) [
        | inl here ↦ rw here (
          update_line-All (λ j. j ≢ (f l).id) ls
              (subst (λ j. All (λ x. x.id ≢ j) ls) (sym (keeps_id l)) p),
          rest,
        )
        | inr other ↦ rw other (update_line-All (λ j. j ≢ l.id) ls p, rest)
      ]

  update_line-same : (ls : List LineRow) → All (λ x. x.id ≢ id) ls → update_line id f ls ≡ ls
  unfolding update_line
  update_line-same [] h = refl
  update_line-same (l ∷ ls) (p, ps) = ground (arith, p, ==_iff l.id id, update_line-same ls ps)

  pub find_line-update_line_ne :
      (j : ℕ) (ls : List LineRow) → j ≢ id → find_line j (update_line id f ls) ≡ find_line j ls
  unfolding find_line update_line
  find_line-update_line_ne j [] h = refl
  find_line-update_line_ne j (l ∷ ls) h = elim (Bool-cases (l.id == id)) [
    | inl here ↦
        ground
          (arith, h, keeps_id l, ==_iff l.id id, ==_iff l.id j, find_line-update_line_ne j ls h)
    | inr other ↦ ground (arith, find_line-update_line_ne j ls h)
  ]

  -- The one line that changes makes the difference.
  pub item_total-update_line :
      (item : ℕ) (ls : List LineRow) {l : LineRow}
      → Apart ls
      → find_line id ls ≡ some l
      → item_total item (update_line id f ls) + count_of item l
        ≡ item_total item ls + count_of item (f l)
  unfolding update_line find_line
  item_total-update_line item [] h e = absurd (cc e)
  item_total-update_line item (x ∷ ls) {l} (p, ps) e = elim (Bool-cases (x.id == id)) [
    | inl here ↦
        let same : x ≡ l = some_inj (simp here at e) in
        let own : x.id ≡ id = (==_iff x.id id).0 here in
        let rest = update_line-same ls (subst (λ j. All (λ y. y.id ≢ j) ls) own p) in
        rw here (
          omega (
            arith,
            ap (item_total item) rest,
            ap (count_of item) same,
            ap (λ y. count_of item (f y)) same,
          ))
    | inr other ↦
        let ih = item_total-update_line item ls {l = l} ps (simp other at e) in
        rw other (omega (arith, ih))
  ]
    where
      some_inj : {a b : LineRow} → some a ≡ some b → a ≡ b
      some_inj h = cc h

pub Apart-append :
    (ls : List LineRow) (new : LineRow) (n : ℕ)
    → Apart ls
    → All (λ l. l.id < n) ls
    → new.id ≡ n
    → Apart (ls ++ (new ∷ []))
Apart-append [] new n a k e = (tt, tt)
Apart-append (l ∷ ls) new n (p, ps) (k, ks) e = (
  All-append (λ x. x.id ≢ l.id) ls (new ∷ []) p ((λ same. absurd (omega (arith, same, e, k))), tt),
  Apart-append ls new n ps ks e,
)

pub find_line-append :
    (j : ℕ) (ls : List LineRow) (new : LineRow) {l : LineRow}
    → find_line j ls ≡ some l
    → find_line j (ls ++ (new ∷ [])) ≡ some l
unfolding find_line
find_line-append j [] new h = absurd (cc h)
find_line-append j (x ∷ ls) new {l} h = elim (Bool-cases (x.id == j)) [
  | inl here ↦ rw here (simp here at h)
  | inr other ↦ rw other (find_line-append j ls new {l = l} (simp other at h))
]
