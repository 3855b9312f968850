-- ===== src/Brokerage/Csv/Rows.antt =====
-- What `parseCsv` makes of a file that `toCsv` wrote.
use alke_finance_backend.Base.{
  ◌≡◌, ◌>>=◌, refl, ◌++◌, false, not, List, [], ◌∷◌, map, any, length, Text, All, Result, ok, arith,
}
use alke_finance_backend.Brokerage.Csv.Formats.{map_result}
use alke_finance_backend.Brokerage.Csv.{
  csv_eol, CsvRecord, breaks_row, eq_text, trim, join, end_lines, to_csv, strip_mark, fill_record,
  parse_row, parse_rows, parse_lines, parse_csv,
}
use alke_finance_backend.Brokerage.Csv.Split.{
  IsLine, HasInk, split_cells-join, split_lines-end_lines, keep_content, join-IsLine, join-HasInk,
  no_breaks-IsPlain,
}

-- A row with a cell for each column, none of which holds a separator or a line end.
abbrev pub IsRow : List Text → List Text → Type 0
IsRow columns row = (length row ≡ length columns) × (any (any breaks_row) row ≡ false)

-- Of two columns at least, none padded, with the required ones among them.
pub record IsHeader (required : List Text) (first second : Text) (others : List Text) : Type 0 where
  pub plain_columns : any (any breaks_row) (first ∷ second ∷ others) ≡ false
  pub no_padding : map trim (first ∷ second ∷ others) ≡ first ∷ second ∷ others
  pub unmarked :
      (rest : Text)
      → strip_mark (join (first ∷ second ∷ others) ++ csv_eol ∷ rest)
        ≡ join (first ∷ second ∷ others) ++ csv_eol ∷ rest
  pub has_required :
      any (λ c. not (any (eq_text c) (map trim (first ∷ second ∷ others)))) required ≡ false

module _ (first second : Text) (others : List Text) where
  abbrev columns : List Text
  columns = first ∷ second ∷ others

  row-IsLine : (row : List Text) → IsRow columns row → IsLine (join row)
  row-IsLine row h = join-IsLine row (no_breaks-IsPlain row h.1)

  row-HasInk : (row : List Text) → IsRow columns row → HasInk (join row)
  row-HasInk [] h = absurd (omega (arith, h.0))
  row-HasInk (c ∷ []) h = absurd (omega (arith, h.0))
  row-HasInk (c ∷ d ∷ cs) h = join-HasInk c d cs

  parse_row-join :
      (row : List Text)
      → IsRow columns row
      → parse_row columns (join row) ≡ ok (fill_record columns row [])
  unfolding parse_row
  parse_row-join [] h = absurd (omega (arith, h.0))
  parse_row-join (c ∷ cs) h =
      rw (split_cells-join c cs (no_breaks-IsPlain (c ∷ cs) h.1)) (ground (arith, h.0))

  parse_rows-join :
      (rows : List (List Text))
      → All (IsRow columns) rows
      → parse_rows columns (map join rows) ≡ ok (map (λ row. fill_record columns row []) rows)
  unfolding parse_rows
  parse_rows-join [] h = refl
  parse_rows-join (row ∷ rows) h = rw (parse_row-join row h.0, parse_rows-join rows h.1) refl

  rows-IsLine : (rows : List (List Text)) → All (IsRow columns) rows → All IsLine (map join rows)
  rows-IsLine [] h = tt
  rows-IsLine (row ∷ rows) h = (row-IsLine row h.0, rows-IsLine rows h.1)

  rows-HasInk : (rows : List (List Text)) → All (IsRow columns) rows → All HasInk (map join rows)
  rows-HasInk [] h = tt
  rows-HasInk (row ∷ rows) h = (row-HasInk row h.0, rows-HasInk rows h.1)

  parse_csv-to_csv :
      (required : List Text) (rows : List (List Text))
      → IsHeader required first second others
      → All (IsRow columns) rows
      → parse_csv (to_csv columns rows) required ≡ ok (map (λ row. fill_record columns row []) rows)
  unfolding parse_csv to_csv parse_lines end_lines
  parse_csv-to_csv required rows header h =
      rw
        (
          header.unmarked (end_lines (map join rows)),
          split_lines-end_lines (join columns ∷ map join rows) (
            join-IsLine columns (no_breaks-IsPlain columns header.plain_columns),
            rows-IsLine rows h,
          ),
          keep_content (join columns ∷ map join rows)
              (join-HasInk first second others, rows-HasInk rows h),
          split_cells-join first (second ∷ others) (no_breaks-IsPlain columns header.plain_columns),
          header.no_padding,
          header.has_required,
          parse_rows-join rows h,
        )
        refl

  -- One line of type A for each row: `cells` prints it and `of` reads it.
  module _ {ℓ κ} {A : Type ℓ} (P : A → Type κ) (cells : A → List Text) (of : CsvRecord → Result A)
      (shape : (l : A) → P l → IsRow columns (cells l))
      (back : (l : A) → P l → of (fill_record columns (cells l) []) ≡ ok l) where
    all_rows : (ls : List A) → All P ls → All (IsRow columns) (map cells ls)
    all_rows [] h = tt
    all_rows (l ∷ ls) h = (shape l h.0, all_rows ls h.1)

    all_back :
        (ls : List A)
        → All P ls
        → map_result of (map (λ row. fill_record columns row []) (map cells ls)) ≡ ok ls
    unfolding map_result
    all_back [] h = refl
    all_back (l ∷ ls) h = rw (back l h.0, all_back ls h.1) refl

    pub read_written :
        (required : List Text)
        → IsHeader required first second others
        → (ls : List A) → All P ls
        → (parse_csv (to_csv columns (map cells ls)) required >>= map_result of) ≡ ok ls
    read_written required header ls h =
        rw (parse_csv-to_csv required (map cells ls) header (all_rows ls h)) (all_back ls h)
