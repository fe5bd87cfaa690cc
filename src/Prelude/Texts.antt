-- ===== src/Prelude/Texts.antt =====
-- Texts as lists of character codes, their equality and order, and the white space of `\s`.
use Prim.Native.Nat.{ℕ}
use mathlib.Core.Path.{◌≡◌, refl}
use mathlib.Core.Bool.{Bool, true, false, ◌&&◌, ◌||◌}
use mathlib.Core.List.{List, [], ◌∷◌}
use native.Mathlib.Omega.{arith}
use stello_kitchens.Prelude.Tests.{ltb, leb, ◌==◌}
use stello_kitchens.Prelude.Lists.{any}

abbrev pub Text : Type 0
Text = List ℕ

unfoldable pub same_text : Text → Text → Bool
same_text [] [] = true
same_text (a ∷ s) (b ∷ t) = a == b && same_text s t
same_text _ _ = false

-- `a < b` on strings.
unfoldable pub text_lt : Text → Text → Bool
text_lt [] [] = false
text_lt [] (b ∷ t) = true
text_lt (a ∷ s) [] = false
text_lt (a ∷ s) (b ∷ t) = ltb a b || a == b && text_lt s t

-- `\s` of a regular expression.
unfoldable pub is_space : ℕ → Bool
is_space c =
    leb 9 c && leb c 13
    || leb 8192 c && leb c 8202
    || any (λ s. s == c)
        (32 ∷ (160 ∷ (5760 ∷ (8232 ∷ (8233 ∷ (8239 ∷ (8287 ∷ (12_288 ∷ (65_279 ∷ [])))))))))

pub same_text-eq : (a b : Text) → same_text a b ≡ true → a ≡ b
unfolding same_text
same_text-eq [] [] h = refl
same_text-eq [] (b ∷ t) h = cc
same_text-eq (a ∷ s) [] h = cc
same_text-eq (a ∷ s) (b ∷ t) h = ground (arith, same_text-eq s t)

pub same_text_refl : (a : Text) → same_text a a ≡ true
unfolding same_text
same_text_refl [] = refl
same_text_refl (a ∷ s) = ground (arith, same_text_refl s)
