-- ===== src/Edge/Tests.antt =====
-- The number of the source's comment: `E03/2627/000042`.
use stello_kitchens.Prelude.{◌≤◌, ◌<◌, ◌≡◌, ◌↔◌, refl, ltb, if◌then◌else◌, [], ◌∷◌, some, length}
use stello_kitchens.Prelude.Texts.{Text}
use stello_kitchens.Edge.{fiscal_year_code, edge_series_code, format_bill_number, parse_bill_number}
use stello_kitchens.Edge.Laws.{parse_bill_number-format_bill_number}
use stello_kitchens.Edge.Lengths.{format_bill_number-fits}

abbrev series : Text
series = b'E' ∷ (b'0' ∷ (b'3' ∷ []))

abbrev year : Text
year = b'2' ∷ (b'6' ∷ (b'2' ∷ (b'7' ∷ [])))

abbrev written : Text
written =
    b'E'
    ∷ (b'0'
        ∷ (b'3'
            ∷ (b'/'
                ∷ (b'2'
                    ∷ (b'6'
                        ∷ (b'2'
                            ∷ (b'7'
                                ∷ (b'/'
                                    ∷ (b'0'
                                        ∷ (b'0' ∷ (b'0' ∷ (b'0' ∷ (b'4' ∷ (b'2' ∷ []))))))))))))))

series_three : edge_series_code 3 ≡ some series
unfolding edge_series_code
series_three = refl

october : fiscal_year_code 2026 9 ≡ year
unfolding fiscal_year_code
october = refl

writes : format_bill_number series (fiscal_year_code 2026 9) 42 ≡ some written
unfolding format_bill_number fiscal_year_code
writes = refl

parse_bill_number-format_bill_number_example :
    (parse_bill_number written
      ≡ some (record { series = series; fy = fiscal_year_code 2026 9; seq = 42 }))
    × (length written ≤ 16)
parse_bill_number-format_bill_number_example =
    parse_bill_number-format_bill_number 3 2026 9 42 series_three writes

format_bill_number-fits_example :
    ((n : Text) × (format_bill_number series (fiscal_year_code 2026 9) 42 ≡ some n))
    ↔ (42 < (if ltb 3 100 then 10_000_000 else 1_000_000))
format_bill_number-fits_example = format_bill_number-fits 3 2026 9 42 series_three
