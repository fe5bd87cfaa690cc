-- ===== src/Permissions/Tests.antt =====
-- The escalation guard at a run.
use stello_kitchens.Prelude.Texts.{same_text}
use stello_kitchens.Prelude.{◌≡◌, ◌↔◌, true, List, [], ◌∷◌, all, if◌then◌else◌}
use stello_kitchens.Permissions.{Key, wildcard, has_permission, missing_permissions, is_owner_level}
use stello_kitchens.Permissions.Laws.{missing_permissions_iff}

abbrev held : List Key
held = (b'a' ∷ []) ∷ ((b'b' ∷ []) ∷ [])

abbrev wanted : List Key
wanted = (b'a' ∷ []) ∷ (wildcard ∷ [])

missing_permissions_iff_example : (missing_permissions held wanted ≡ []) ↔ (
    all (λ p. if same_text p wildcard then is_owner_level held else has_permission held p) wanted
    ≡ true)
missing_permissions_iff_example = missing_permissions_iff held wanted
