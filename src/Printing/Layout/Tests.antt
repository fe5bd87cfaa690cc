-- ===== src/Printing/Layout/Tests.antt =====
-- Lines of a slip at a run.
use stello_kitchens.Prelude.{◌≡◌, ◌≤◌, refl, [], ◌∷◌, ◌++◌, length, All, arith}
use stello_kitchens.Printing.Layout.Breaks.{join, break_word-whole}
use stello_kitchens.Printing.Layout.{
  words_from, break_word, place, add_word, wrap_words, wrap_clean, wrap,
}
use stello_kitchens.Prelude.Texts.{Text, is_space}
use stello_kitchens.Printing.Layout.Laws.{WithinWidth, wrap-WithinWidth}

abbrev plain : Text → Text
plain t = t

-- "ab cdefg h"
abbrev sample : Text
sample = b'a' ∷ (b'b' ∷ (32 ∷ (b'c' ∷ (b'd' ∷ (b'e' ∷ (b'f' ∷ (b'g' ∷ (32 ∷ (b'h' ∷ [])))))))))

run :
    wrap plain sample 3
    ≡ (b'a' ∷ (b'b' ∷ []))
      ∷ ((b'c' ∷ (b'd' ∷ (b'e' ∷ []))) ∷ ((b'f' ∷ (b'g' ∷ [])) ∷ ((b'h' ∷ []) ∷ [])))
unfolding wrap words_from is_space break_word place add_word wrap_words wrap_clean
run = refl

wrap-WithinWidth_example : WithinWidth 3 (wrap plain sample 3)
wrap-WithinWidth_example = wrap-WithinWidth plain sample 3

abbrev long_word : Text
long_word = b'c' ∷ (b'd' ∷ (b'e' ∷ (b'f' ∷ (b'g' ∷ []))))

-- A word of five on paper of two, with fuel to spare.
break_word-whole_example :
    let b = break_word 5 2 long_word in
    (break_word 9 2 long_word ≡ b)
    × (join b.lines ++ b.rest ≡ long_word)
    × All (λ l. length l ≡ 2) b.lines
    × (length b.rest ≤ 2)
break_word-whole_example = break_word-whole 9 2 long_word (omega arith) (omega arith)
