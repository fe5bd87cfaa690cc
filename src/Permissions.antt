-- ===== src/Permissions.antt =====
-- packages/shared/src/platform.ts: what a list of permission keys grants. A key is a text, the list of
-- its character codes.
pub mod Laws
mod Tests
use stello_kitchens.Prelude.Texts.{Text, same_text}
use stello_kitchens.Prelude.{
  ℕ, ◌==◌, Bool, true, false, not, ◌&&◌, ◌||◌, List, [], ◌∷◌, if◌then◌else◌, any, keep,
}

abbrev pub Key : Type 0
Key = Text

-- `"*"`.
abbrev pub wildcard : Key
wildcard = b'*' ∷ []

unfoldable pub includes : List Key → Key → Bool
unfolding same_text
includes held perm = any (λ h. same_text h perm) held

unfoldable pub has_permission : List Key → Key → Bool
unfolding includes
has_permission held perm = includes held wildcard || includes held perm

unfoldable pub dedup : List Key → List Key
unfolding same_text
dedup [] = []
dedup (k ∷ ks) = k ∷ keep (λ j. not (same_text j k)) (dedup ks)

unfoldable pub missing_permissions : List Key → List Key → List Key
unfolding includes dedup
missing_permissions held requested =
    if includes held wildcard
    then []
    else keep (λ p. same_text p wildcard || not (includes held p)) (dedup requested)

unfoldable pub is_owner_level : List Key → Bool
unfolding includes
is_owner_level permissions = includes permissions wildcard
