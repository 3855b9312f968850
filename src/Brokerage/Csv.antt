-- ===== src/Brokerage/Csv.antt =====
-- The files exchanged with the SDB: the texts of
-- src/modules/brokerage/connectors/csv.ts, with their columns in Formats. A text is the list of its code units. The messages of CsvFormatError are
-- kept without the line and the value they quote.
pub mod Formats
pub mod Split
pub mod Rows
pub mod RoundTrip
mod Tests
use alke_finance_backend.Base.{
  ℕ, ◌==◌, ltb, leb, Bool, true, false, not, ◌&&◌, ◌||◌, Option, none, some, List, [], ◌∷◌, ◌++◌,
  map, keep, any, length, Text, letters, same, Text-discrete, Result, ok, err, plain, ◌>>=◌, ◌>>◌,
  throw_if, if◌then◌else◌,
}

-- `CSV_SEP`
abbrev pub csv_sep : ℕ
csv_sep = b';'

-- `CSV_EOL`
abbrev pub csv_eol : ℕ
csv_eol = b'\n'

abbrev pub carriage_return : ℕ
carriage_return = 13

abbrev pub byte_order_mark : ℕ
byte_order_mark = 65279

-- The white space and line ends of ECMAScript, which `trim()` removes.
unfoldable pub is_space : ℕ → Bool
is_space c =
    (leb 9 c && leb c 13)
    || ((c == 32)
        || ((c == 160)
            || ((c == 5760)
                || ((leb 8192 c && leb c 8202)
                    || ((c == 8232)
                        || ((c == 8233)
                            || ((c == 8239)
                                || ((c == 8287) || ((c == 12288) || (c == byte_order_mark))))))))))

abbrev pub is_empty {ℓ} : {A : Type ℓ} → List A → Bool
is_empty [] = true
is_empty (x ∷ xs) = false

unfoldable pub trim_start : Text → Text
trim_start [] = []
trim_start (c ∷ cs) = if is_space c then trim_start cs else c ∷ cs

unfoldable pub trim_end : Text → Text
trim_end [] = []
trim_end (c ∷ cs) = let rest = trim_end cs in if is_space c && is_empty rest then [] else c ∷ rest

-- `trim()`
abbrev pub trim : Text → Text
trim t = trim_end (trim_start t)

abbrev pub breaks_row : ℕ → Bool
breaks_row c = (c == csv_sep) || ((c == carriage_return) || (c == csv_eol))

-- `replace(/[;\r\n]+/g, ' ')`: one space for a run, `inside` one or not.
unfoldable pub replace_runs : Bool → Text → Text
replace_runs inside [] = []
replace_runs inside (c ∷ cs) =
    if breaks_row c
    then (if inside then replace_runs true cs else 32 ∷ replace_runs true cs)
    else c ∷ replace_runs false cs

abbrev pub text_or_empty : Option Text → Text
text_or_empty none = []
text_or_empty (some t) = t

-- `sanitizeField`
unfoldable pub sanitize_field : Option Text → Text
sanitize_field value = trim (replace_runs false (text_or_empty value))

-- `cells.join(CSV_SEP)`
unfoldable pub join : List Text → Text
join [] = []
join (cell ∷ []) = cell
join (cell ∷ cell' ∷ cells) = cell ++ csv_sep ∷ join (cell' ∷ cells)

-- `lines.join(CSV_EOL) + CSV_EOL`, for at least one line.
unfoldable pub end_lines : List Text → Text
end_lines [] = []
end_lines (line ∷ lines) = line ++ csv_eol ∷ end_lines lines

-- `toCsv`
unfoldable pub to_csv : List Text → List (List Text) → Text
to_csv columns rows = end_lines (join columns ∷ map join rows)

abbrev pub push : ℕ → List Text → List Text
push c [] = (c ∷ []) ∷ []
push c (part ∷ parts) = (c ∷ part) ∷ parts

-- `line.split(CSV_SEP)`
unfoldable pub split_cells : Text → List Text
split_cells [] = [] ∷ []
split_cells (c ∷ cs) = let rest = split_cells cs in if c == csv_sep then [] ∷ rest else push c rest

abbrev pub starts_with : ℕ → Text → Bool
starts_with c [] = false
starts_with c (d ∷ ds) = d == c

-- `text.split(/\r?\n/)`
unfoldable pub split_lines : Text → List Text
split_lines [] = [] ∷ []
split_lines (c ∷ cs) =
    let rest = split_lines cs in
    if c == csv_eol
    then [] ∷ rest
    else if (c == carriage_return) && starts_with csv_eol cs
    then rest
    else push c rest

-- `replace(/^\uFEFF/, '')`
unfoldable pub strip_mark : Text → Text
strip_mark [] = []
strip_mark (c ∷ cs) = if c == byte_order_mark then cs else c ∷ cs

-- `l.trim().length > 0`
unfoldable pub has_content : Text → Bool
has_content line = not (is_empty (trim line))

-- `Record<string, string>`, in the order of its keys.
abbrev pub CsvRecord : Type 0
CsvRecord = List (Text × Text)

abbrev pub eq_text : Text → Text → Bool
eq_text a b = same Text-discrete a b

-- `record[h] = value`
unfoldable pub set : Text → Text → CsvRecord → CsvRecord
set h value [] = (h, value) ∷ []
set h value ((k, v) ∷ r) = if eq_text k h then (k, value) ∷ r else (k, v) ∷ set h value r

-- `r[h]`. The readers below treat a missing field and an empty one alike, and the columns that
-- they need are present.
unfoldable pub get : Text → CsvRecord → Text
get h [] = []
get h ((k, v) ∷ r) = if eq_text k h then v else get h r

-- `header.forEach((h, idx) => (record[h] = (cells[idx] ?? '').trim()))`
unfoldable pub fill_record : List Text → List Text → CsvRecord → CsvRecord
fill_record [] cells r = r
fill_record (h ∷ header) [] r = fill_record header [] (set h [] r)
fill_record (h ∷ header) (cell ∷ cells) r = fill_record header cells (set h (trim cell) r)

unfoldable pub parse_row : List Text → Text → Result CsvRecord
parse_row header line = do
  throw_if (ltb (length (split_cells line)) (length header)) (plain "Champs manquants.")
  ok (fill_record header (split_cells line) [])

unfoldable pub parse_rows : List Text → List Text → Result (List CsvRecord)
parse_rows header [] = ok []
parse_rows header (line ∷ lines) = do
  r ← parse_row header line
  rs ← parse_rows header lines
  ok (r ∷ rs)

-- `lines[0]` and `lines.slice(1)`
unfoldable pub parse_lines : List Text → List Text → Result (List CsvRecord)
parse_lines [] required = err (plain "Fichier vide.")
parse_lines (first ∷ body) required =
    let header = map trim (split_cells first) in
    do
      throw_if (any (λ c. not (any (eq_text c) header)) required) (plain "Colonnes manquantes.")
      parse_rows header body

-- `parseCsv`
unfoldable pub parse_csv : Text → List Text → Result (List CsvRecord)
parse_csv text required = parse_lines (keep has_content (split_lines (strip_mark text))) required

-- `oneOf`: the allowed texts with what they stand for.
unfoldable pub one_of {ℓ} : {A : Type ℓ} → Text → List (Text × A) → Result A
one_of value [] = err (plain "Valeur invalide.")
one_of value ((t, a) ∷ allowed) = if eq_text t value then ok a else one_of value allowed

abbrev pub is_digit : ℕ → Bool
is_digit c = leb b'0' c && leb c b'9'

abbrev pub all_digits : Text → Bool
all_digits t = not (is_empty t) && not (any (λ c. not (is_digit c)) t)

-- `\d+(\.\d+)?` with the digits read so far, if any.
unfoldable pub matches_number : Bool → Text → Bool
matches_number seen [] = seen
matches_number seen (c ∷ cs) =
    if is_digit c then matches_number true cs else seen && ((c == b'.') && all_digits cs)

-- `/^-?\d+(\.\d+)?$/`
unfoldable pub is_decimal : Text → Bool
is_decimal [] = false
is_decimal (c ∷ cs) = if c == b'-' then matches_number false cs else matches_number false (c ∷ cs)

-- `decimalField`
unfoldable pub decimal_field : Text → Result Text
decimal_field value = throw_if (not (is_decimal value)) (plain "Pas un nombre.") >> ok value

-- `value || '0'`
abbrev pub or_zero : Text → Text
or_zero [] = letters "0"
or_zero (c ∷ cs) = c ∷ cs

-- `value || undefined`
abbrev pub or_undefined : Text → Option Text
or_undefined [] = none
or_undefined (c ∷ cs) = some (c ∷ cs)
