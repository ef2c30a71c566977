-- ===== src/Api/Queries/Tests.antt =====
-- Three rows on pages of two.
use mad_devs_note_taker.Base.{ℕ, ◌≡◌, List, [], ◌∷◌, arith}
use mad_devs_note_taker.Api.Queries.Pages.{pages, pages-all}

abbrev three_rows : List ℕ
three_rows = 5 ∷ 6 ∷ 7 ∷ []

pages-all_example : pages 2 2 three_rows ≡ three_rows
pages-all_example = pages-all 2 2 three_rows (omega arith)
