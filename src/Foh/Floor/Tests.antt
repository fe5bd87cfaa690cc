-- ===== src/Foh/Floor/Tests.antt =====
-- A floor plan at a run: two tables side by side.
use stello_kitchens.Prelude.{ℕ, ◌≡◌, refl, [], ◌∷◌, none, All}
use stello_kitchens.Prelude.Int.{pos}
use stello_kitchens.Foh.Floor.{TableShape, Placement, Layout, floor_layout_issues}
use stello_kitchens.Prelude.Texts.{Text}
use stello_kitchens.Foh.Floor.Laws.{Fits, PairwiseApart, floor_layout_issues-Fits}

abbrev same_key : Text → Text
same_key name = name

abbrev table_at : ℕ → ℕ → Placement
table_at name x = record {
  table_id = none;
  name = name ∷ [];
  shape = TableShape.round;
  x = pos x;
  y = pos 0;
  width = 60;
  height = 60;
}

abbrev two_tables : Layout
two_tables = record {
  width = 400;
  height = 300;
  tables = table_at b'a' 0 ∷ (table_at b'b' 60 ∷ []);
}

no_issues : floor_layout_issues same_key two_tables ≡ []
unfolding floor_layout_issues
no_issues = refl

floor_layout_issues-Fits_example :
    All (Fits two_tables) two_tables.tables × PairwiseApart two_tables.tables
floor_layout_issues-Fits_example = floor_layout_issues-Fits same_key two_tables no_issues
