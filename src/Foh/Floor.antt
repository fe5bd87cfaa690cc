-- ===== src/Foh/Floor.antt =====
-- `floorLayoutIssues` of packages/shared/src/foh.ts. Positions may be negative. The key of a name
-- (`trim().toLowerCase()`) is a parameter.
pub mod Laws
mod Tests
use stello_kitchens.Prelude.Texts.{Text, same_text}
use stello_kitchens.Prelude.{
  ℕ, ◌+◌, ◌==◌, Bool, true, false, not, ◌&&◌, ◌||◌, List, [], ◌∷◌, ◌++◌, Option, none, some,
  if◌then◌else◌, any,
}
use stello_kitchens.Prelude.Int.{ℤ, pos, ◌+ℤ◌, ltb_ℤ}

pub data TableShape : Type 0 where
  round square rect : TableShape

pub record Placement : Type 0 where
  pub table_id : Option ℕ
  pub name : Text
  pub shape : TableShape
  pub x : ℤ
  pub y : ℤ
  pub width : ℕ
  pub height : ℕ

pub record Layout : Type 0 where
  pub width : ℕ
  pub height : ℕ
  pub tables : List Placement

-- An issue, with the index of the table; an overlap has both tables.
pub data Issue : Type 0 where
  outside not_round duplicate_name placed_twice : ℕ → Issue
  overlaps : ℕ → ℕ → Issue

abbrev pub issue_if : Bool → Issue → List Issue
issue_if test issue = if test then issue ∷ [] else []

abbrev pub right_of : Placement → ℤ
right_of t = t.x +ℤ pos t.width

abbrev pub bottom_of : Placement → ℤ
bottom_of t = t.y +ℤ pos t.height

unfoldable pub is_outside : Layout → Placement → Bool
unfolding ◌+ℤ◌
is_outside plan t =
    ltb_ℤ t.x (pos 0)
    || ltb_ℤ t.y (pos 0)
    || ltb_ℤ (pos plan.width) (right_of t)
    || ltb_ℤ (pos plan.height) (bottom_of t)

abbrev pub is_round : TableShape → Bool
is_round round = true
is_round _ = false

abbrev pub id_taken : List ℕ → Option ℕ → Bool
id_taken ids none = false
id_taken ids (some id) = any (λ j. j == id) ids

abbrev pub with_id : Option ℕ → List ℕ → List ℕ
with_id none ids = ids
with_id (some id) ids = id ∷ ids

unfoldable pub overlap : Placement → Placement → Bool
unfolding ◌+ℤ◌
overlap a b =
    ltb_ℤ a.x (right_of b)
    && ltb_ℤ b.x (right_of a)
    && ltb_ℤ a.y (bottom_of b)
    && ltb_ℤ b.y (bottom_of a)

-- The inner loop: the tables after `a`, from the index `j` on.
unfoldable pub overlaps_of : ℕ → Placement → ℕ → List Placement → List Issue
unfolding overlap
overlaps_of i a j [] = []
overlaps_of i a j (b ∷ bs) = issue_if (overlap a b) (overlaps j i) ++ overlaps_of i a (j + 1) bs

unfoldable pub all_overlaps : ℕ → List Placement → List Issue
unfolding overlaps_of
all_overlaps i [] = []
all_overlaps i (a ∷ as') = overlaps_of i a (i + 1) as' ++ all_overlaps (i + 1) as'

module _ (key_of : Text → Text) where
  unfoldable pub table_issues : Layout → ℕ → List Text → List ℕ → Placement → List Issue
  unfolding is_outside same_text
  table_issues plan i names ids t =
      issue_if (is_outside plan t) (outside i)
      ++ (issue_if (is_round t.shape && not (t.width == t.height)) (not_round i)
          ++ (issue_if (any (λ n. same_text n (key_of t.name)) names) (duplicate_name i)
              ++ issue_if (id_taken ids t.table_id) (placed_twice i)))

  -- The first loop, with the names and ids seen so far.
  unfoldable pub each_table : Layout → ℕ → List Text → List ℕ → List Placement → List Issue
  unfolding table_issues
  each_table plan i names ids [] = []
  each_table plan i names ids (t ∷ ts) =
      table_issues plan i names ids t
      ++ each_table plan (i + 1) (key_of t.name ∷ names) (with_id t.table_id ids) ts

  unfoldable pub floor_layout_issues : Layout → List Issue
  unfolding each_table all_overlaps
  floor_layout_issues plan = each_table plan 0 [] [] plan.tables ++ all_overlaps 0 plan.tables
