-- ===== src/Csv/Reader.antt =====
-- A reader of one CSV record as RFC 4180 describes it, which the exports are measured by: cells are
-- separated by commas, a record ends at a line feed, and a cell in quotes may hold anything, its quotes
-- doubled.
use cursor_multi_agent.Prelude.{ℕ, Option, none, some, List, [], ◌∷◌, eqb, if◌then◌else◌}

pub data Class : Type 0 where
  quote comma line_feed other : Class

abbrev pub class_of : ℕ → Class
class_of c =
    if eqb c b'"'
    then quote
    else if eqb c b','
    then comma
    else if eqb c 10
    then line_feed
    else other

-- Where the reader is: before a cell, in a plain cell, in a cell in quotes, or after a quote in one.
pub data Mode : Type 0 where
  before plain in_quotes after_quote : Mode

-- The cells, the first of which is what is left of the cell that is being read, and the rest of the text.
abbrev pub Reading : Type 0
Reading = Option (List (List ℕ) × List ℕ)

-- A character of the cell that is being read.
abbrev pub add : ℕ → Reading → Reading
add c none = none
add c (some ([], rest)) = none
add c (some (cell ∷ cells, rest)) = some ((c ∷ cell) ∷ cells, rest)

-- The end of a cell.
abbrev pub next_cell : Reading → Reading
next_cell none = none
next_cell (some (cells, rest)) = some ([] ∷ cells, rest)

unfoldable pub read : Mode → List ℕ → Reading
read mode [] = none
read before (c ∷ cs) = elim (class_of c) [
  | quote ↦ read in_quotes cs
  | comma ↦ next_cell (read before cs)
  | line_feed ↦ some ([] ∷ [], cs)
  | other ↦ add c (read plain cs)
]
read plain (c ∷ cs) = elim (class_of c) [
  | quote ↦ none
  | comma ↦ next_cell (read before cs)
  | line_feed ↦ some ([] ∷ [], cs)
  | other ↦ add c (read plain cs)
]
read in_quotes (c ∷ cs) = elim (class_of c) [
  | quote ↦ read after_quote cs
  | _ ↦ add c (read in_quotes cs)
]
read after_quote (c ∷ cs) = elim (class_of c) [
  | quote ↦ add c (read in_quotes cs)
  | comma ↦ next_cell (read before cs)
  | line_feed ↦ some ([] ∷ [], cs)
  | other ↦ none
]
