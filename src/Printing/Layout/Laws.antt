-- ===== src/Printing/Layout/Laws.antt =====
-- No line is wider than its paper.
use stello_kitchens.Prelude.{
  ℕ, zero, suc, ◌+◌, ◌-◌, ◌/◌, ◌≤◌, ◌<◌, ◌≡◌, max, List, [], ◌∷◌, ◌++◌, arith, ltb, leb,
  if◌then◌else◌, length, take, drop, All, All-append, length-append, length-take, length-drop,
  length-replicate, inl, inr, Bool-cases, ◌==◌,
}
use stello_kitchens.Printing.Layout.{
  Align, flush, words_from, break_word, place, add_word, wrap_words, wrap_clean, wrap, pad, aligned,
  spaces, join_last, left_right,
}
use stello_kitchens.Prelude.Texts.{Text}

abbrev pub WithinWidth : ℕ → List Text → Type 0
WithinWidth width = All (λ l. length l ≤ width)

flush-WithinWidth : (width : ℕ) (t : Text) → length t ≤ width → WithinWidth width (flush t)
flush-WithinWidth width [] h = tt
flush-WithinWidth width (c ∷ cs) h = (h, tt)

break_word-WithinWidth :
    (fuel width : ℕ) (word : Text)
    → 0 < width
    → length word ≤ fuel + width
    → WithinWidth width (break_word fuel width word).lines
      × (length (break_word fuel width word).rest ≤ width)
unfolding break_word
break_word-WithinWidth zero width word h enough = (tt, omega arith)
break_word-WithinWidth (suc fuel) width word h enough =
    let ih =
      break_word-WithinWidth fuel width (drop width word) h
        (omega (arith, length-drop width word)) in
    elim (Bool-cases (ltb width (length word))) [
      | inl e ↦ simp e ((omega (arith, length-take width word), ih.0), ih.1)
      | inr e ↦ simp e (tt, ground arith)
    ]

place-WithinWidth :
    (width : ℕ) (current word : Text)
    → length current ≤ width
    → length word ≤ width
    → WithinWidth width (place width current word).lines
      × (length (place width current word).rest ≤ width)
unfolding place
place-WithinWidth width [] [] h k = (tt, h)
place-WithinWidth width (c ∷ cs) [] h k = (tt, h)
place-WithinWidth width [] (d ∷ ds) h k = (tt, k)
place-WithinWidth width (c ∷ cs) (d ∷ ds) h k =
    ground (arith, length-append {0} (c ∷ cs) (32 ∷ (d ∷ ds)))

add_word-WithinWidth :
    (width : ℕ) (current word : Text)
    → 0 < width
    → length current ≤ width
    → WithinWidth width (add_word width current word).lines
      × (length (add_word width current word).rest ≤ width)
unfolding add_word
add_word-WithinWidth width current word some_width h =
    let broken = break_word (length word) width word in
    let (pieces, left) = break_word-WithinWidth (length word) width word some_width (omega arith) in
    let (lines, rest) = place-WithinWidth width [] broken.rest (omega arith) left in
    elim (Bool-cases (ltb width (length word))) [
      | inl e ↦ simp e (
        All-append (λ l. length l ≤ width) (flush current)
            (broken.lines ++ (place width [] broken.rest).lines) (flush-WithinWidth width current h)
            (All-append (λ l. length l ≤ width) broken.lines (place width [] broken.rest).lines
              pieces lines),
        rest,
      )
      | inr e ↦ simp e (place-WithinWidth width current word h (ground arith))
    ]

wrap_words-WithinWidth :
    (width : ℕ) (current : Text) (ws : List Text)
    → 0 < width
    → length current ≤ width
    → WithinWidth width (wrap_words width current ws)
unfolding wrap_words
wrap_words-WithinWidth width current [] some_width h = flush-WithinWidth width current h
wrap_words-WithinWidth width current (w ∷ ws) some_width h =
    let next = add_word width current w in
    let (lines, rest) = add_word-WithinWidth width current w some_width h in
    All-append (λ l. length l ≤ width) next.lines (wrap_words width next.rest ws) lines
      (wrap_words-WithinWidth width next.rest ws some_width rest)

wrap_clean-WithinWidth :
    (width : ℕ) (ws : List Text) → 0 < width → WithinWidth width (wrap_clean width ws)
unfolding wrap_clean
wrap_clean-WithinWidth width [] h = (omega arith, tt)
wrap_clean-WithinWidth width (w ∷ ws) h = wrap_words-WithinWidth width [] (w ∷ ws) h (omega arith)

length-spaces : (n : ℕ) → length (spaces n) ≡ n
length-spaces n = length-replicate n 32

aligned_lem :
    (align : Align) (t : Text) (width : ℕ)
    → length t ≤ width
    → length (aligned align t (width - length t)) ≡ width
aligned_lem Align.left t width h =
    omega (arith, length-append {0} t (spaces (width - length t)), length-spaces (width - length t))
aligned_lem Align.right t width h =
    omega (arith, length-append {0} (spaces (width - length t)) t, length-spaces (width - length t))
aligned_lem Align.center t width h =
    let gap = width - length t in
    omega (
      arith,
      length-append {0} (spaces (gap / 2)) (t ++ spaces (gap - gap / 2)),
      length-append {0} t (spaces (gap - gap / 2)),
      length-spaces (gap / 2),
      length-spaces (gap - gap / 2),
    )

-- A label, `n` spaces and a value.
length-spaced : (l r : Text) (n : ℕ) → length (l ++ (spaces n ++ r)) ≡ length l + n + length r
length-spaced l r n =
    omega
      (arith, length-append {0} l (spaces n ++ r), length-append {0} (spaces n) r, length-spaces n)

line_with_lem :
    (width : ℕ) (l r : Text)
    → length r + 1 < width
    → length l ≤ width - length r - 1
    → length (l ++ (spaces (max 1 (width - length l - length r)) ++ r)) ≤ width
line_with_lem width l r h k = omega (arith, length-spaced l r (max 1 (width - length l - length r)))

one_line_lem :
    (width : ℕ) (l r : Text)
    → length l + 1 + length r ≤ width
    → length (l ++ (spaces (width - length l - length r) ++ r)) ≤ width
one_line_lem width l r h = omega (arith, length-spaced l r (width - length l - length r))

-- A padded text has exactly the width of its column, however it is aligned.
pub length-pad : (text : Text) (width : ℕ) (align : Align) → length (pad text width align) ≡ width
unfolding pad
length-pad text width align =
    let t = if ltb width (length text) then take width text else text in
    let short : length t ≤ width = ground (arith, length-take width text) in
    aligned_lem align t width short

join_last-WithinWidth :
    (width : ℕ) (r : Text) (ls : List Text)
    → length r + 1 < width
    → WithinWidth (width - length r - 1) ls
    → WithinWidth width (join_last width r ls)
unfolding join_last
join_last-WithinWidth width r [] h hs =
    (omega (arith, length-spaced [] r (max 1 (width - length r))), tt)
join_last-WithinWidth width r (l ∷ []) h hs = (line_with_lem width l r h hs.0, tt)
join_last-WithinWidth width r (l ∷ (m ∷ ls)) h hs =
    (omega (arith, hs.0), join_last-WithinWidth width r (m ∷ ls) h hs.1)

module _ (normalize : Text → Text) where
  -- Whatever the text, every line of it is at most as wide as the paper, words that are longer than a
  -- line included.
  pub wrap-WithinWidth : (text : Text) (width : ℕ) → WithinWidth width (wrap normalize text width)
  unfolding wrap
  wrap-WithinWidth text width = elim (Bool-cases (width == 0)) [
    | inl e ↦ simp e tt
    | inr e ↦
        simp e (wrap_clean-WithinWidth width (words_from [] (normalize text)) (ground (arith, e)))
  ]

  -- A label and a value are within the paper, where the value leaves room for two characters.
  pub left_right-WithinWidth :
      (l_text r_text : Text) (width : ℕ)
      → length (normalize r_text) + 1 < width
      → WithinWidth width (left_right normalize l_text r_text width)
  unfolding left_right
  left_right-WithinWidth l_text r_text width h =
      let l = normalize l_text in
      let r = normalize r_text in
      let room : max 1 (width - length r - 1) ≡ width - length r - 1 = omega arith in
      elim (Bool-cases (leb (length l + 1 + length r) width)) [
        | inl e ↦ simp e (one_line_lem width l r (ground arith), tt)
        | inr e ↦
            simp (e, room)
              (join_last-WithinWidth width r (wrap normalize l (width - length r - 1)) h
                (wrap-WithinWidth l (width - length r - 1)))
      ]
