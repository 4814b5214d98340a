-- ===== src/Reports/Csv/RoundTrip.antt =====
-- Reading the files back, by a reader of the format that is written apart from the writer.
use mytrackr_backend.Prelude.{
  ◌≡◌, ◌∙◌, ◌⊎◌, All, sym, ap, refl, false, List, [], ◌∷◌, ◌++◌, ◌==◌, any, map, arith, inl, inr,
  Bool-cases, if_both, if◌then◌else◌,
}
use mathlib.Core.List.{append-nil, append_assoc}
use mytrackr_backend.Prelude.Codes.{Codes, is_space}
use mytrackr_backend.Reports.Csv.{
  is_special, double_quotes, csv_cell, join_with, csv_row, csv, starts_formula, guard_label,
}

-- Where the reader stands: in a cell without quotes, in a quoted cell, or after its closing quote.
pub data Mode : Type 0 where
  bare quoted closed : Mode

-- The rows of a file, from the cell and the row that are being read
unfoldable pub read : Mode → Codes → List Codes → Codes → List (List Codes)
read mode cell row [] = (row ++ cell ∷ []) ∷ []
read bare cell row (c ∷ cs) =
    let next = read bare [] (row ++ cell ∷ []) cs in
    let line = read bare [] [] cs in
    let quote = read quoted [] row cs in
    let more = read bare (cell ++ c ∷ []) row cs in
    if c == 44
    then next
    else if c == 10
    then (row ++ cell ∷ []) ∷ line
    else if c == 34
    then quote
    else more
read quoted cell row (c ∷ cs) =
    let quote = read closed cell row cs in
    let more = read quoted (cell ++ c ∷ []) row cs in if c == 34 then quote else more
read closed cell row (c ∷ cs) =
    let next = read bare [] (row ++ cell ∷ []) cs in
    let line = read bare [] [] cs in
    let more = read quoted (cell ++ c ∷ []) row cs in
    if c == 44 then next else if c == 10 then (row ++ cell ∷ []) ∷ line else more

unfoldable pub read_csv : Codes → List (List Codes)
read_csv = read bare [] []

-- A plain text is read whole.
read-plain :
    (text cell rest : Codes)
    → (row : List Codes) → any is_special text ≡ false
    → read bare cell row (text ++ rest) ≡ read bare (cell ++ text) row rest
unfolding read
read-plain [] cell rest row h = ap (λ (c : Codes). read bare c row rest) (sym (append-nil cell))
read-plain (c ∷ cs) cell rest row h =
    let ih = read-plain cs (cell ++ c ∷ []) rest row in
    let e = append_assoc cell (c ∷ []) cs in ground arith

-- A quoted text is read whole, its doubled quotes as quotes.
read-quoted :
    (text cell rest : Codes)
    → (row : List Codes)
    → read quoted cell row (double_quotes text ++ 34 ∷ rest) ≡ read closed (cell ++ text) row rest
unfolding read double_quotes
read-quoted [] cell rest row = ap (λ (c : Codes). read closed c row rest) (sym (append-nil cell))
read-quoted (c ∷ cs) cell rest row =
    let ih = read-quoted cs (cell ++ c ∷ []) rest row in
    let e = append_assoc cell (c ∷ []) cs in ground arith

-- A cell ends where the text does, at a comma or at a line's end.
abbrev pub Ends : Codes → Type 0
Ends [] = Unit
Ends (c ∷ cs) = (c ≡ 44) ⊎ (c ≡ 10)

abbrev pub LineEnds : Codes → Type 0
LineEnds [] = Unit
LineEnds (c ∷ cs) = c ≡ 10

closed-bare :
    (cell rest : Codes)
    → (row : List Codes) → Ends rest
    → read closed cell row rest ≡ read bare cell row rest
unfolding read
closed-bare cell [] row ends = refl
closed-bare cell (c ∷ cs) row (inl e) = ground arith
closed-bare cell (c ∷ cs) row (inr e) = ground arith

-- The writer's cell is read as its text.
read-csv_cell :
    (text rest : Codes)
    → (row : List Codes) → Ends rest
    → read bare [] row (csv_cell text ++ rest) ≡ read bare text row rest
unfolding csv_cell read
read-csv_cell text rest row ends = elim (Bool-cases (any is_special text)) [
  | inl e ↦ rw e (quoted-cell)
  | inr e ↦ rw e (read-plain text [] rest row e)
]
  where
    quoted-cell :
        read bare [] row (34 ∷ (double_quotes text ++ 34 ∷ []) ++ rest) ≡ read bare text row rest
    quoted-cell =
        ap (read quoted [] row) (append_assoc (double_quotes text) (34 ∷ []) rest)
        ∙ read-quoted text [] rest row
        ∙ closed-bare text rest row ends

-- What the reader gives where a line ends
abbrev pub after_line : List Codes → Codes → List (List Codes)
after_line row [] = row ∷ []
after_line row (c ∷ cs) = row ∷ read bare [] [] cs

read-line_end :
    (cell rest : Codes)
    → (row : List Codes) → LineEnds rest
    → read bare cell row rest ≡ after_line (row ++ cell ∷ []) rest
unfolding read
read-line_end cell [] row ends = refl
read-line_end cell (c ∷ cs) row ends = ground arith

cell_stops : (rest : Codes) → LineEnds rest → Ends rest
cell_stops [] e = tt
cell_stops (c ∷ cs) e = inr e

read-comma :
    (cell rest : Codes)
    → (row : List Codes) → read bare cell row (44 ∷ rest) ≡ read bare [] (row ++ cell ∷ []) rest
unfolding read
read-comma cell rest row = refl

-- The writer's row is read as its cells.
read-csv_row :
    (cell : Codes)
    → (cells row : List Codes) → (rest : Codes) → LineEnds rest
    → read bare [] row (csv_row (cell ∷ cells) ++ rest) ≡ after_line (row ++ cell ∷ cells) rest
unfolding csv_row join_with
read-csv_row cell [] row rest ends =
    read-csv_cell cell rest row (cell_stops rest ends) ∙ read-line_end cell rest row ends
read-csv_row cell (next ∷ cells) row rest ends =
    ap (read bare [] row) (append_assoc (csv_cell cell) (44 ∷ csv_row (next ∷ cells)) rest)
    ∙ read-csv_cell cell (44 ∷ csv_row (next ∷ cells) ++ rest) row (inl refl)
    ∙ read-comma cell (csv_row (next ∷ cells) ++ rest) row
    ∙ read-csv_row next cells (row ++ cell ∷ []) rest ends
    ∙ ap (λ (r : List Codes). after_line r rest) (append_assoc row (cell ∷ []) (next ∷ cells))

-- A list with an entry
abbrev pub Filled : {A : Type 0} → List A → Type 0
Filled [] = ⊥
Filled (x ∷ xs) = Unit

-- A row without cells is a blank line, which reads as one empty cell.
unfoldable pub as_read : List Codes → List Codes
as_read [] = [] ∷ []
as_read (cell ∷ cells) = cell ∷ cells

read-csv_line :
    (row : List Codes)
    → (rest : Codes) → LineEnds rest
    → read bare [] [] (csv_row row ++ rest) ≡ after_line (as_read row) rest
unfolding csv_row join_with as_read
read-csv_line [] rest ends = read-line_end [] rest [] ends
read-csv_line (cell ∷ cells) rest ends = read-csv_row cell cells [] rest ends

-- From the file that is written for at least one row, a reader of the format gives as many rows back.
-- A row with cells comes back with every cell as it was, also with commas, quotes and ends of lines
-- in it, and none joined or split; a row without cells comes back as one empty cell.
pub read_csv-csv : (rows : List (List Codes)) → Filled rows → read_csv (csv rows) ≡ map as_read rows
unfolding read_csv csv join_with
read_csv-csv [] filled = elim filled [ ]
read_csv-csv (row ∷ []) filled =
    ap (read bare [] []) (sym (append-nil (csv_row row))) ∙ read-csv_line row [] tt
read_csv-csv (row ∷ next ∷ rows) filled =
    read-csv_line row (10 ∷ csv (next ∷ rows)) refl
    ∙ ap (λ (r : List (List Codes)). as_read row ∷ r) (read_csv-csv (next ∷ rows) tt)

-- A label that is kept from being a formula starts none, and keeping it so again changes nothing.
starts_formula-guard_label : (text : Codes) → starts_formula (guard_label text) ≡ false
unfolding starts_formula guard_label is_space
starts_formula-guard_label text =
    if_both (λ (t : Codes). starts_formula t ≡ false) (starts_formula text) (39 ∷ text) text
      (λ _. ground arith) (λ e. e)

-- No text of the row is a formula.
abbrev pub NoFormula : List Codes → Type 0
NoFormula = All (λ (c : Codes). starts_formula c ≡ false)

guard_label-NoFormula : (row : List Codes) → NoFormula (map guard_label row)
guard_label-NoFormula [] = tt
guard_label-NoFormula (c ∷ cs) = (starts_formula-guard_label c, guard_label-NoFormula cs)

as_read-NoFormula : (row : List Codes) → NoFormula row → NoFormula (as_read row)
unfolding as_read starts_formula
as_read-NoFormula [] h = (refl, tt)
as_read-NoFormula (c ∷ cs) h = h

rows_as_read :
    (rows : List (List Codes))
    → All NoFormula (map as_read (map (λ (r : List Codes). map guard_label r) rows))
rows_as_read [] = tt
rows_as_read (r ∷ rows) =
    (as_read-NoFormula (map guard_label r) (guard_label-NoFormula r), rows_as_read rows)

guarded-Filled :
    (rows : List (List Codes))
    → Filled rows
    → Filled (map (λ (r : List Codes). map guard_label r) rows)
guarded-Filled [] h = h
guarded-Filled (r ∷ rows) h = h

-- Of a file whose cells are texts that are kept from being formulas, a reader of the format gets no
-- cell that starts a formula, whatever the texts are and however they are quoted in the file.
pub guarded_csv-NoFormula :
    (rows : List (List Codes))
    → Filled rows
    → All NoFormula (read_csv (csv (map (λ (r : List Codes). map guard_label r) rows)))
guarded_csv-NoFormula rows filled =
    rw
      (read_csv-csv (map (λ (r : List Codes). map guard_label r) rows) (guarded-Filled rows filled))
      (rows_as_read rows)
