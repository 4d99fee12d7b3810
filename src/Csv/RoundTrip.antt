-- ===== src/Csv/RoundTrip.antt =====
-- A record that is written reads back.
use cursor_multi_agent.Prelude.{
  ℕ, ◌≡◌, refl, false, some, List, [], ◌∷◌, ◌++◌, map, eqb, arith, All, Bool-cases, inl, inr, ◌∙◌,
  ap,
}
use mathlib.Core.List.{append_assoc}
use cursor_multi_agent.Csv.{
  CsvValue, absent, date, printed, needs_quoting, starts_formula, guarded, without_milliseconds,
  double_quotes, quoted, format_csv_value, join_commas, to_csv_row,
}
use cursor_multi_agent.Csv.Reader.{
  before, plain, in_quotes, after_quote, Reading, add, next_cell, read,
}

-- What a reader finds in a cell.
abbrev pub cell_text : CsvValue → List ℕ
cell_text absent = []
cell_text (date iso) = without_milliseconds iso
cell_text (printed raw) = guarded raw

-- The text that `toISOString` gives has no character that CSV gives a meaning.
abbrev pub IsClean : CsvValue → Type 0
IsClean absent = Unit
IsClean (date iso) = needs_quoting iso ≡ false
IsClean (printed raw) = Unit

-- A text before the cell that is being read.
abbrev add_all : List ℕ → Reading → Reading
add_all [] r = r
add_all (c ∷ cs) r = add c (add_all cs r)

-- A text that starts with the end of a cell reads the same wherever the cell stands.
abbrev EndsCell : List ℕ → Type 0
EndsCell tail =
    (read before tail ≡ read after_quote tail) × (read plain tail ≡ read after_quote tail)

read-plain :
    (cs tail : List ℕ)
    → EndsCell tail
    → needs_quoting cs ≡ false
    → read plain (cs ++ tail) ≡ add_all cs (read after_quote tail)
unfolding read
read-plain [] tail ends h = ends.1
read-plain (c ∷ cs) tail ends h = ground (arith, read-plain cs tail ends)

read_unquoted :
    (cs tail : List ℕ)
    → EndsCell tail
    → needs_quoting cs ≡ false
    → read before (cs ++ tail) ≡ add_all cs (read after_quote tail)
unfolding read
read_unquoted [] tail ends h = ends.0
read_unquoted (c ∷ cs) tail ends h = ground (arith, read-plain cs tail ends)

read_doubled :
    (cs tail : List ℕ)
    → read in_quotes (double_quotes cs ++ (b'"' ∷ tail)) ≡ add_all cs (read after_quote tail)
unfolding read double_quotes
read_doubled [] tail = refl
read_doubled (c ∷ cs) tail = elim (Bool-cases (eqb c b'"')) [
  | inl quote ↦ ground (arith, read_doubled cs tail)
  | inr other ↦ ground (arith, read_doubled cs tail)
]

read_cell :
    (cs tail : List ℕ)
    → EndsCell tail
    → read before (quoted cs ++ tail) ≡ add_all cs (read after_quote tail)
unfolding quoted read
read_cell cs tail ends = elim (Bool-cases (needs_quoting cs)) [
  | inl special ↦ rw special (
      ap (read in_quotes) (append_assoc (double_quotes cs) (b'"' ∷ []) tail) ∙ read_doubled cs tail)
  | inr clean ↦ rw clean (read_unquoted cs tail ends clean)
]

clean_date :
    (iso : List ℕ) → needs_quoting iso ≡ false → needs_quoting (without_milliseconds iso) ≡ false
unfolding without_milliseconds
clean_date [] h = refl
clean_date (c ∷ cs) h = ground (arith, clean_date cs)

ends_comma : (tail : List ℕ) → EndsCell (b',' ∷ tail)
unfolding read
ends_comma tail = (refl, refl)

ends_record : (rest : List ℕ) → EndsCell (10 ∷ rest)
unfolding read
ends_record rest = (refl, refl)

read_value :
    (v : CsvValue) (tail : List ℕ)
    → EndsCell tail
    → IsClean v
    → read before (format_csv_value v ++ tail) ≡ add_all (cell_text v) (read after_quote tail)
unfolding format_csv_value
read_value absent tail ends clean = ends.0
read_value (date iso) tail ends clean =
    read_unquoted (without_milliseconds iso) tail ends (clean_date iso clean)
read_value (printed raw) tail ends clean = read_cell (guarded raw) tail ends

whole_cell :
    (x : List ℕ) (cells : List (List ℕ)) (rest : List ℕ)
    → add_all x (some ([] ∷ cells, rest)) ≡ some (x ∷ cells, rest)
whole_cell [] cells rest = refl
whole_cell (c ∷ x) cells rest = ap (add c) (whole_cell x cells rest)

read_cells :
    (v : CsvValue) (vs : List CsvValue) (rest : List ℕ)
    → IsClean v
    → All IsClean vs
    → read before (join_commas (map format_csv_value (v ∷ vs)) ++ (10 ∷ rest))
      ≡ some (map cell_text (v ∷ vs), rest)
unfolding join_commas read
read_cells v [] rest clean all =
    read_value v (10 ∷ rest) (ends_record rest) clean ∙ whole_cell (cell_text v) [] rest
read_cells v (w ∷ ws) rest clean (clean_w, all) =
    let joined = join_commas (map format_csv_value (w ∷ ws)) in
    ap (read before) (append_assoc (format_csv_value v) (b',' ∷ joined) (10 ∷ rest))
    ∙ read_value v (b',' ∷ (joined ++ (10 ∷ rest))) (ends_comma (joined ++ (10 ∷ rest))) clean
    ∙ ap (λ r. add_all (cell_text v) (next_cell r)) (read_cells w ws rest clean_w all)
    ∙ whole_cell (cell_text v) (map cell_text (w ∷ ws)) rest

-- What a spreadsheet does not run.
abbrev pub IsInert : CsvValue → Type 0
IsInert absent = Unit
IsInert (date iso) = Unit
IsInert (printed raw) = starts_formula (cell_text (printed raw)) ≡ false

printed-IsInert : (vs : List CsvValue) → All IsInert vs
unfolding guarded
printed-IsInert [] = tt
printed-IsInert (absent ∷ vs) = (tt, printed-IsInert vs)
printed-IsInert (date iso ∷ vs) = (tt, printed-IsInert vs)
printed-IsInert (printed [] ∷ vs) = (refl, printed-IsInert vs)
printed-IsInert (printed (c ∷ cs) ∷ vs) = (ground arith, printed-IsInert vs)

-- A record of at least one cell, with whatever follows it, reads back as its cells: the text of each
-- value, where commas, quotes and line ends in it are kept, with an apostrophe before one that starts as
-- a formula; no text or number is left that a spreadsheet would run. The texts of dates hold no such
-- characters.
pub read-to_csv_row :
    (v : CsvValue) (vs : List CsvValue) (rest : List ℕ)
    → IsClean v
    → All IsClean vs
    → (read before (to_csv_row (v ∷ vs) ++ rest) ≡ some (map cell_text (v ∷ vs), rest))
      × All IsInert (v ∷ vs)
unfolding to_csv_row
read-to_csv_row v vs rest clean all = (
  ap (read before) (append_assoc (join_commas (map format_csv_value (v ∷ vs))) (10 ∷ []) rest)
      ∙ read_cells v vs rest clean all,
  printed-IsInert (v ∷ vs),
)
