-- ===== src/Printing/Layout.antt =====
-- `wrap`, `pad`, `columns` and `leftRight` of packages/shared/src/printing/layout.ts. A text is the list
-- of its characters' codes; the normalisation of codepages.ts is a parameter.
pub mod Laws
pub mod Breaks
mod Tests
use stello_kitchens.Prelude.Texts.{Text, is_space}
use stello_kitchens.Prelude.{
  ℕ, zero, suc, ◌+◌, ◌-◌, ◌/◌, max, ◌==◌, Bool, true, false, ◌&&◌, ◌||◌, List, [], ◌∷◌, ◌++◌, map,
  ltb, leb, if◌then◌else◌, any, length, take, drop, replicate, range_from,
}

pub data PaperWidth : Type 0 where
  mm58 mm80 : PaperWidth

unfoldable pub chars_per_line : PaperWidth → ℕ
chars_per_line mm58 = 32
chars_per_line mm80 = 48

-- A line, unless it is empty.
abbrev pub flush : Text → List Text
flush [] = []
flush (c ∷ cs) = (c ∷ cs) ∷ []

-- The words between white space.
unfoldable pub words_from : Text → Text → List Text
unfolding is_space
words_from current [] = flush current
words_from current (c ∷ cs) =
    let same = words_from (current ++ (c ∷ [])) cs in
    let fresh = words_from [] cs in if is_space c then flush current ++ fresh else same

pub record Broken : Type 0 where
  pub lines : List Text
  pub rest : Text

-- The hard breaks of a long word; its length is enough fuel.
unfoldable pub break_word : ℕ → ℕ → Text → Broken
break_word zero width word = record { lines = []; rest = word }
break_word (suc fuel) width word =
    let more = break_word fuel width (drop width word) in
    if ltb width (length word)
    then record { lines = take width word ∷ more.lines; rest = more.rest }
    else record { lines = []; rest = word }

-- One round of the loop: the lines that it writes, and the line in hand after it.
unfoldable pub place : ℕ → Text → Text → Broken
place width current [] = record { lines = []; rest = current }
place width [] word = record { lines = []; rest = word }
place width (c ∷ cs) word =
    let current = c ∷ cs in
    if leb (length current + 1 + length word) width
    then record { lines = []; rest = current ++ (32 ∷ word) }
    else record { lines = current ∷ []; rest = word }

unfoldable pub add_word : ℕ → Text → Text → Broken
unfolding break_word place
add_word width current word =
    let broken = break_word (length word) width word in
    if ltb width (length word)
    then (let placed = place width [] broken.rest in
        record { lines = flush current ++ (broken.lines ++ placed.lines); rest = placed.rest })
    else place width current word

unfoldable pub wrap_words : ℕ → Text → List Text → List Text
unfolding add_word
wrap_words width current [] = flush current
wrap_words width current (w ∷ ws) =
    let next = add_word width current w in next.lines ++ wrap_words width next.rest ws

unfoldable pub wrap_clean : ℕ → List Text → List Text
unfolding wrap_words
wrap_clean width [] = [] ∷ []
wrap_clean width (w ∷ ws) = wrap_words width [] (w ∷ ws)

pub data Align : Type 0 where
  left right center : Align

abbrev pub spaces : ℕ → Text
spaces n = replicate n 32

abbrev pub aligned : Align → Text → ℕ → Text
aligned left t gap = t ++ spaces gap
aligned right t gap = spaces gap ++ t
aligned center t gap = spaces (gap / 2) ++ (t ++ spaces (gap - gap / 2))

unfoldable pub pad : Text → ℕ → Align → Text
pad text width align =
    let t = if ltb width (length text) then take width text else text in
    aligned align t (width - length t)

pub record Column : Type 0 where
  pub text : Text
  pub width : ℕ
  pub align : Align

-- `lines[row] ?? ""`.
unfoldable pub line_at : ℕ → List Text → Text
line_at row [] = []
line_at zero (l ∷ ls) = l
line_at (suc row) (l ∷ ls) = line_at row ls

unfoldable pub height_of : List (List Text) → ℕ
height_of [] = 0
height_of (w ∷ ws) = max (length w) (height_of ws)

unfoldable pub trim_end : Text → Text
unfolding is_space
trim_end [] = []
trim_end (c ∷ cs) = elim (trim_end cs) [
  | [] ↦ if is_space c then [] else c ∷ []
  | d ∷ ds ↦ c ∷ (d ∷ ds)
]

-- The value goes onto the label's last line.
unfoldable pub join_last : ℕ → Text → List Text → List Text
join_last width r [] = (spaces (max 1 (width - length r)) ++ r) ∷ []
join_last width r (l ∷ []) = (l ++ (spaces (max 1 (width - length l - length r)) ++ r)) ∷ []
join_last width r (l ∷ (m ∷ ls)) = l ∷ join_last width r (m ∷ ls)

module _ (normalize : Text → Text) where
  unfoldable pub wrap : Text → ℕ → List Text
  unfolding words_from wrap_clean
  wrap text width = if width == 0 then [] else wrap_clean width (words_from [] (normalize text))

  abbrev pub cell : ℕ → Column → Text
  cell row c = pad (line_at row (wrap c.text c.width)) c.width c.align

  unfoldable pub row_of : ℕ → ℕ → List Column → Text
  unfolding wrap line_at
  row_of gap row [] = []
  row_of gap row (c ∷ []) = cell row c
  row_of gap row (c ∷ (d ∷ cs)) = cell row c ++ (spaces gap ++ row_of gap row (d ∷ cs))

  unfoldable pub columns : ℕ → List Column → List Text
  unfolding row_of trim_end height_of
  columns gap cells =
      map (λ row. trim_end (row_of gap row cells))
        (range_from 0 (height_of (map (λ c. wrap c.text c.width) cells)))

  unfoldable pub left_right : Text → Text → ℕ → List Text
  unfolding wrap join_last
  left_right l_text r_text width =
      let l = normalize l_text in
      let r = normalize r_text in
      if leb (length l + 1 + length r) width
      then (l ++ (spaces (width - length l - length r) ++ r)) ∷ []
      else join_last width r (wrap l (max 1 (width - length r - 1)))
