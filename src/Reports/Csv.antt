-- ===== src/Reports/Csv.antt =====
-- The CSV files of src/reports: the cells of cash-flow.service.ts (csvCell) and of
-- balance-sheet.service.ts, which also keeps labels from becoming spreadsheet formulas. A cell is
-- the text that `String` gives for it.
pub mod RoundTrip
use mytrackr_backend.Prelude.{
  ℕ, Bool, true, false, ◌&&◌, ◌||◌, List, [], ◌∷◌, ◌++◌, ◌==◌, leb, any, map, if◌then◌else◌,
}
use mytrackr_backend.Prelude.Codes.{Codes, is_space}

-- /[",\n\r]/
abbrev pub is_special : ℕ → Bool
is_special c = c == 34 || (c == 44 || (c == 10 || c == 13))

-- replace(/"/g, '""')
unfoldable pub double_quotes : Codes → Codes
double_quotes [] = []
double_quotes (c ∷ cs) = let rest = double_quotes cs in if c == 34 then 34 ∷ 34 ∷ rest else c ∷ rest

-- csvCell
unfoldable pub csv_cell : Codes → Codes
csv_cell text = if any is_special text then 34 ∷ (double_quotes text ++ 34 ∷ []) else text

-- join, with one separator between the parts
unfoldable pub join_with : ℕ → List Codes → Codes
join_with c [] = []
join_with c (x ∷ []) = x
join_with c (x ∷ y ∷ rest) = x ++ c ∷ join_with c (y ∷ rest)

-- rows.map((row) => row.map(this.csvCell).join(',')).join('\n')
unfoldable pub csv_row : List Codes → Codes
csv_row cells = join_with 44 (map csv_cell cells)

unfoldable pub csv : List (List Codes) → Codes
csv rows = join_with 10 (map csv_row rows)

-- [=+@-]
abbrev pub is_operator : ℕ → Bool
is_operator c = c == 61 || (c == 43 || (c == 64 || c == 45))

-- /^[\s]*[=+@-]/
unfoldable pub starts_formula : Codes → Bool
starts_formula [] = false
starts_formula (c ∷ cs) = let rest = starts_formula cs in is_operator c || (is_space c && rest)

-- The label of a cell, with the sign that keeps it a text
unfoldable pub guard_label : Codes → Codes
guard_label text = if starts_formula text then 39 ∷ text else text

-- A text cell of the balance sheet; a number's cell is not guarded
abbrev pub label_cell : Codes → Codes
label_cell text = csv_cell (guard_label text)
