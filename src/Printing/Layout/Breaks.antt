-- ===== src/Printing/Layout/Breaks.antt =====
-- The loop that breaks a long word: its fuel is enough, and no character is lost.
use stello_kitchens.Prelude.{
  append_assoc, ℕ, zero, suc, ◌≤◌, ◌<◌, ◌≡◌, refl, ap, ◌∙◌, false, List, [], ◌∷◌, ◌++◌, arith, ltb,
  length, take, drop, All, length-take, length-drop, inl, inr, Bool-cases,
}
use stello_kitchens.Prelude.Texts.{Text}
use stello_kitchens.Printing.Layout.{break_word}

abbrev pub join : List Text → Text
join [] = []
join (t ∷ ts) = t ++ join ts

take-drop : (n : ℕ) (t : Text) → take n t ++ drop n t ≡ t
take-drop zero t = refl
take-drop (suc n) [] = refl
take-drop (suc n) (c ∷ cs) = ap (λ xs. c ∷ xs) (take-drop n cs)

break_word_enough :
    (f g width : ℕ) (word : Text)
    → 0 < width
    → length word ≤ f
    → length word ≤ g
    → break_word f width word ≡ break_word g width word
unfolding break_word
break_word_enough zero zero width word some_width h k = refl
break_word_enough zero (suc g) width word some_width h k =
    let short : ltb width (length word) ≡ false = ground arith in rw short refl
break_word_enough (suc f) zero width word some_width h k =
    let short : ltb width (length word) ≡ false = ground arith in rw short refl
break_word_enough (suc f) (suc g) width word some_width h k =
    elim (Bool-cases (ltb width (length word))) [
      | inl long ↦
          let rest =
            break_word_enough f g width (drop width word) some_width
              (ground (arith, length-drop width word)) (ground (arith, length-drop width word)) in
          rw long (ap (λ b. record { lines = take width word ∷ b.lines; rest = b.rest }) rest)
      | inr short ↦ rw short refl
    ]

break_word-join :
    (f width : ℕ) (word : Text)
    → (join (break_word f width word).lines ++ (break_word f width word).rest ≡ word)
      × All (λ l. length l ≡ width) (break_word f width word).lines
unfolding break_word
break_word-join zero width word = (refl, tt)
break_word-join (suc f) width word = elim (Bool-cases (ltb width (length word))) [
  | inl long ↦
      let b = break_word f width (drop width word) in
      let (whole, wide) = break_word-join f width (drop width word) in
      rw long (
        append_assoc (take width word) (join b.lines) b.rest
            ∙ ap (λ t. take width word ++ t) whole
            ∙ take-drop width word,
        (ground (arith, length-take width word), wide),
      )
  | inr short ↦ rw short (refl, tt)
]

-- With fuel for each of its characters, what is left of a word fits.
break_word-rest :
    (f width : ℕ) (word : Text)
    → 0 < width
    → length word ≤ f
    → length (break_word f width word).rest ≤ width
unfolding break_word
break_word-rest zero width word some_width h = omega arith
break_word-rest (suc f) width word some_width h = elim (Bool-cases (ltb width (length word))) [
  | inl long ↦ rw long (
      break_word-rest f width (drop width word) some_width (ground (arith, length-drop width word)))
  | inr short ↦ rw short (ground arith)
]

-- On paper of some width, the length of a word is enough fuel for its breaks: more makes no difference.
-- The lines and the rest are together the word, every line but the rest is as wide as the paper, and the
-- rest is no wider.
pub break_word-whole :
    (fuel width : ℕ) (word : Text)
    → 0 < width
    → length word ≤ fuel
    → let b = break_word (length word) width word in
      (break_word fuel width word ≡ b)
      × (join b.lines ++ b.rest ≡ word)
      × All (λ l. length l ≡ width) b.lines
      × (length b.rest ≤ width)
break_word-whole fuel width word some_width enough =
    let (whole, wide) = break_word-join (length word) width word in
    (
      break_word_enough fuel (length word) width word some_width enough (omega arith),
      whole,
      wide,
      break_word-rest (length word) width word some_width (omega arith),
    )
