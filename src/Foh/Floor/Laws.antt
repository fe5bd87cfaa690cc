-- ===== src/Foh/Floor/Laws.antt =====
-- What a floor plan without issues is.
use stello_kitchens.Prelude.{
  ℕ, ◌+◌, ◌==◌, ◌≡◌, ◌≢◌, ◌⊎◌, refl, Bool, false, not, ◌&&◌, List, [], ◌∷◌, ◌++◌, arith, All,
}
use stello_kitchens.Prelude.Int.{pos, ◌≤ℤ◌}
use stello_kitchens.Foh.Floor.{
  TableShape, Placement, Layout, Issue, right_of, bottom_of, is_outside, is_round, overlap,
  overlaps_of, all_overlaps, table_issues, each_table, floor_layout_issues, issue_if, with_id,
  outside, not_round, overlaps,
}
use stello_kitchens.Prelude.Texts.{Text}

-- Within the floor, and a circle if it is round.
pub record Fits (plan : Layout) (t : Placement) : Type 0 where
  pub left : pos 0 ≤ℤ t.x
  pub top : pos 0 ≤ℤ t.y
  pub right : right_of t ≤ℤ pos plan.width
  pub bottom : bottom_of t ≤ℤ pos plan.height
  pub circle : (t.shape ≢ TableShape.round) ⊎ (t.width ≡ t.height)

-- One of them lies wholly to the left of the other, or above it.
abbrev pub Apart : Placement → Placement → Type 0
Apart a b = (right_of b ≤ℤ a.x) ⊎ (right_of a ≤ℤ b.x) ⊎ (bottom_of b ≤ℤ a.y) ⊎ (bottom_of a ≤ℤ b.y)

abbrev pub PairwiseApart : List Placement → Type 0
PairwiseApart [] = Unit
PairwiseApart (a ∷ as') = All (Apart a) as' × PairwiseApart as'

append-eq-nil : (xs ys : List Issue) → xs ++ ys ≡ [] → (xs ≡ []) × (ys ≡ [])
append-eq-nil [] ys h = (refl, h)
append-eq-nil (x ∷ xs) ys h = absurd (cc)

issue_if-eq-nil : (test : Bool) (issue : Issue) → issue_if test issue ≡ [] → test ≡ false
issue_if-eq-nil test issue h = ground arith

overlap-Apart : (a b : Placement) → overlap a b ≡ false → Apart a b
unfolding overlap
overlap-Apart a b h = ground arith

is_outside-Fits :
    (plan : Layout) (t : Placement)
    → is_outside plan t ≡ false
    → (is_round t.shape && not (t.width == t.height)) ≡ false
    → Fits plan t
unfolding is_outside
is_outside-Fits plan t inside even = record {
  left = ground arith;
  top = ground arith;
  right = ground arith;
  bottom = ground arith;
  circle = ground arith;
}

overlaps_of-Apart :
    (i : ℕ) (a : Placement) (j : ℕ) (bs : List Placement)
    → overlaps_of i a j bs ≡ []
    → All (Apart a) bs
unfolding overlaps_of
overlaps_of-Apart i a j [] h = tt
overlaps_of-Apart i a j (b ∷ bs) h =
    let (first, rest) =
      append-eq-nil (issue_if (overlap a b) (overlaps j i)) (overlaps_of i a (j + 1) bs) h in
    (
      overlap-Apart a b (issue_if-eq-nil (overlap a b) (overlaps j i) first),
      overlaps_of-Apart i a (j + 1) bs rest,
    )

all_overlaps-Apart : (i : ℕ) (as' : List Placement) → all_overlaps i as' ≡ [] → PairwiseApart as'
unfolding all_overlaps
all_overlaps-Apart i [] h = tt
all_overlaps-Apart i (a ∷ as') h =
    let (first, rest) = append-eq-nil (overlaps_of i a (i + 1) as') (all_overlaps (i + 1) as') h in
    (overlaps_of-Apart i a (i + 1) as' first, all_overlaps-Apart (i + 1) as' rest)

module _ (key_of : Text → Text) where
  table_issues-Fits :
      (plan : Layout) (i : ℕ) (names : List Text) (ids : List ℕ) (t : Placement)
      → table_issues key_of plan i names ids t ≡ []
      → Fits plan t
  unfolding table_issues
  table_issues-Fits plan i names ids t h =
      let (in', rest) = append-eq-nil (issue_if (is_outside plan t) (outside i)) _ h in
      let (even, more) =
        append-eq-nil (issue_if (is_round t.shape && not (t.width == t.height)) (not_round i)) _
          rest in
      is_outside-Fits plan t (issue_if-eq-nil (is_outside plan t) (outside i) in')
        (issue_if-eq-nil (is_round t.shape && not (t.width == t.height)) (not_round i) even)

  each_table-Fits :
      (plan : Layout) (i : ℕ) (names : List Text) (ids : List ℕ) (ts : List Placement)
      → each_table key_of plan i names ids ts ≡ []
      → All (Fits plan) ts
  unfolding each_table
  each_table-Fits plan i names ids [] h = tt
  each_table-Fits plan i names ids (t ∷ ts) h =
      let (first, rest) = append-eq-nil (table_issues key_of plan i names ids t) _ h in
      (
        table_issues-Fits plan i names ids t first,
        each_table-Fits plan (i + 1) (key_of t.name ∷ names) (with_id t.table_id ids) ts rest,
      )

  -- In a plan without issues every table lies within the floor, a round one is a circle, and of two
  -- tables one lies wholly to the left of the other or above it.
  pub floor_layout_issues-Fits :
      (plan : Layout)
      → floor_layout_issues key_of plan ≡ []
      → All (Fits plan) plan.tables × PairwiseApart plan.tables
  unfolding floor_layout_issues
  floor_layout_issues-Fits plan h =
      let (each, pairs) =
        append-eq-nil (each_table key_of plan 0 [] [] plan.tables) (all_overlaps 0 plan.tables) h in
      (each_table-Fits plan 0 [] [] plan.tables each, all_overlaps-Apart 0 plan.tables pairs)
