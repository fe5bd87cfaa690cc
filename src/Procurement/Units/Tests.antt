-- ===== src/Procurement/Units/Tests.antt =====
-- Units at a run: what is stored in grams can be bought in kilograms.
use stello_kitchens.Prelude.{◌≡◌, refl, [], ◌∷◌}
use stello_kitchens.Procurement.Units.{kg, g, unit_factor, purchase_units_for}

units_run : purchase_units_for g ≡ kg ∷ (g ∷ [])
unfolding purchase_units_for unit_factor
units_run = refl
