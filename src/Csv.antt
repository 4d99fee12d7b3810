-- ===== src/Csv.antt =====
-- One record of a CSV export: apps/api/src/common/csv.util.ts. Texts are lists of code points.
pub mod Reader
pub mod RoundTrip
mod Tests
use cursor_multi_agent.Prelude.{
  ℕ, Bool, true, false, not, ◌&&◌, ◌||◌, List, [], ◌∷◌, ◌++◌, any, map, eqb, leb, if◌then◌else◌,
}

-- A cell: null or undefined, a Date with the text of its `toISOString`, or a value with the text that
-- `String` gives.
pub data CsvValue : Type 0 where
  absent : CsvValue
  date : List ℕ → CsvValue
  printed : List ℕ → CsvValue

-- `/[",\r\n]/`
abbrev pub is_special : ℕ → Bool
is_special c = eqb c b'"' || eqb c b',' || eqb c 13 || eqb c 10

abbrev pub needs_quoting : List ℕ → Bool
needs_quoting s = any is_special s

-- `INJECTION_PREFIXES`: = + - @
abbrev pub is_injection_prefix : ℕ → Bool
is_injection_prefix c = eqb c b'=' || eqb c b'+' || eqb c b'-' || eqb c b'@'

abbrev pub starts_formula : List ℕ → Bool
starts_formula [] = false
starts_formula (c ∷ cs) = is_injection_prefix c

-- An apostrophe (39) before a text that a spreadsheet would run.
unfoldable pub guarded : List ℕ → List ℕ
guarded raw = if starts_formula raw then 39 ∷ raw else raw

-- `/\.\d{3}Z$/`
abbrev pub is_milliseconds_suffix : List ℕ → Bool
is_milliseconds_suffix (dot ∷ a ∷ b ∷ c ∷ z ∷ []) =
    let is_digit = λ (d : ℕ). leb b'0' d && leb d b'9' in
    eqb dot b'.' && is_digit a && is_digit b && is_digit c && eqb z b'Z'
is_milliseconds_suffix _ = false

unfoldable pub without_milliseconds : List ℕ → List ℕ
without_milliseconds [] = []
without_milliseconds (c ∷ cs) =
    let rest = without_milliseconds cs in
    if is_milliseconds_suffix (c ∷ cs) then b'Z' ∷ [] else c ∷ rest

-- `replace(/"/g, '""')`
unfoldable pub double_quotes : List ℕ → List ℕ
double_quotes [] = []
double_quotes (c ∷ cs) =
    let rest = double_quotes cs in if eqb c b'"' then b'"' ∷ b'"' ∷ rest else c ∷ rest

unfoldable pub quoted : List ℕ → List ℕ
quoted s = if needs_quoting s then b'"' ∷ (double_quotes s ++ b'"' ∷ []) else s

unfoldable pub format_csv_value : CsvValue → List ℕ
format_csv_value absent = []
format_csv_value (date iso) = without_milliseconds iso
format_csv_value (printed raw) = quoted (guarded raw)

-- `cells.join(',')`
unfoldable pub join_commas : List (List ℕ) → List ℕ
join_commas [] = []
join_commas (cell ∷ []) = cell
join_commas (cell ∷ next ∷ cells) = cell ++ b',' ∷ join_commas (next ∷ cells)

unfoldable pub to_csv_row : List CsvValue → List ℕ
to_csv_row values = join_commas (map format_csv_value values) ++ 10 ∷ []
