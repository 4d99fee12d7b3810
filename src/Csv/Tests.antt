-- ===== src/Csv/Tests.antt =====
-- Records of a CSV export at concrete inputs.
use cursor_multi_agent.Prelude.{◌≡◌, refl, List, [], ◌∷◌, ◌++◌, some, All, map, codes}
use cursor_multi_agent.Csv.{
  CsvValue, absent, date, printed, to_csv_row, join_commas, format_csv_value, quoted, guarded,
  double_quotes, without_milliseconds,
}
use cursor_multi_agent.Csv.Reader.{read, before}
use cursor_multi_agent.Csv.RoundTrip.{read-to_csv_row, cell_text, IsInert}

abbrev cells : List CsvValue
cells = absent ∷ date (codes "2026-07-01T09:30:00.000Z") ∷ printed (codes "say \"hi\", all") ∷ []

csv_run : Unit {0}
unfolding to_csv_row join_commas format_csv_value quoted guarded double_quotes without_milliseconds
csv_run = tt

row_written :
    to_csv_row (printed (codes "=1+1") ∷ cells)
    ≡ codes "'=1+1,,2026-07-01T09:30:00Z,\"say \"\"hi\"\", all\"" ++ 10 ∷ []
unfolding csv_run
row_written = refl

read-to_csv_row_example :
    (read before (to_csv_row (printed (codes "=1+1") ∷ cells) ++ codes "next")
      ≡ some (map cell_text (printed (codes "=1+1") ∷ cells), codes "next"))
    × All IsInert (printed (codes "=1+1") ∷ cells)
read-to_csv_row_example =
    read-to_csv_row (printed (codes "=1+1")) cells (codes "next") tt (tt, (refl, (tt, tt)))
