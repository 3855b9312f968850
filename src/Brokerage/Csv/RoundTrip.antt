-- ===== src/Brokerage/Csv/RoundTrip.antt =====
-- The readers of the SDB's files on what the writers wrote.
use alke_finance_backend.Base.{
  ◌≡◌, refl, true, false, List, [], ◌∷◌, any, Text, letters, Text-discrete, All, ok,
}
use alke_finance_backend.Brokerage.Csv.{
  breaks_row, join, trim, strip_mark, trim_start, trim_end, is_space, fill_record, set, get,
  is_decimal, decimal_field, one_of, or_zero,
}
use alke_finance_backend.Brokerage.Csv.Formats.{
  ExeLine, CshLine, exe_columns, csh_columns, exe_cells, csh_cells, exe_of, csh_of, parse_exe,
  parse_csh, exe_to_csv, csh_to_csv, ExeStatus, CashDirection, filled, partial, unfilled, into,
  out_of, direction_text, directions, exe_statuses, exe_status_text,
}
use alke_finance_backend.Brokerage.Csv.Rows.{IsHeader, IsRow, read_written}

-- A field that the file can carry: on one line, without a separator, and not padded.
pub record IsField (t : Text) : Type 0 where
  pub plain_text : any breaks_row t ≡ false
  pub no_padding : trim t ≡ t

pub record IsCshLine (l : CshLine) : Type 0 where
  pub date : IsField l.date
  pub reference : IsField l.reference
  pub amount : IsField l.amount
  pub balance : IsField l.balance
  pub amount_is : is_decimal l.amount ≡ true
  pub balance_is : is_decimal l.balance ≡ true

direction_plain : (d : CashDirection) → any breaks_row (direction_text d) ≡ false
direction_plain into = refl
direction_plain out_of = refl

direction_no_padding : (d : CashDirection) → trim (direction_text d) ≡ direction_text d
unfolding trim_start trim_end is_space
direction_no_padding into = refl
direction_no_padding out_of = refl

one_of-direction_text : (d : CashDirection) → one_of (direction_text d) directions ≡ ok d
unfolding one_of Text-discrete
one_of-direction_text into = refl
one_of-direction_text out_of = refl

decimal_field-is_decimal : (t : Text) → is_decimal t ≡ true → decimal_field t ≡ ok t
unfolding decimal_field
decimal_field-is_decimal t h = rw h refl

csh_cells-IsRow : (l : CshLine) → IsCshLine l → IsRow csh_columns (csh_cells l)
csh_cells-IsRow l h = (
  refl,
  rw
      (
        h.date.plain_text,
        h.reference.plain_text,
        h.amount.plain_text,
        h.balance.plain_text,
        direction_plain l.direction,
      )
      refl,
)

csh_of-csh_cells :
    (l : CshLine) → IsCshLine l → csh_of (fill_record csh_columns (csh_cells l) []) ≡ ok l
unfolding fill_record set get Text-discrete
csh_of-csh_cells l h =
    rw
      (
        h.date.no_padding,
        h.reference.no_padding,
        h.amount.no_padding,
        h.balance.no_padding,
        direction_no_padding l.direction,
        one_of-direction_text l.direction,
        decimal_field-is_decimal l.amount h.amount_is,
        decimal_field-is_decimal l.balance h.balance_is,
      )
      refl

csh_IsHeader :
    IsHeader csh_columns
      (letters "date")
      (letters "reference")
      (letters "direction" ∷ letters "amount" ∷ letters "balance" ∷ [])
unfolding trim_start trim_end is_space Text-discrete join strip_mark
csh_IsHeader = record {
  plain_columns = refl;
  no_padding = refl;
  unmarked = λ rest. refl;
  has_required = refl;
}

-- A CSH file that `cshToCsv` wrote is read back by `parseCsh` as the lines it was written from, if
-- no text of a line holds a separator, a line end or white space around it, and the amounts match
-- the pattern of numbers.
pub parse_csh-csh_to_csv :
    (ls : List CshLine) → All IsCshLine ls → parse_csh (csh_to_csv ls) ≡ ok ls
unfolding parse_csh csh_to_csv
parse_csh-csh_to_csv =
    read_written _ _ _ IsCshLine csh_cells csh_of csh_cells-IsRow csh_of-csh_cells csh_columns
      csh_IsHeader

pub record IsExeLine (l : ExeLine) : Type 0 where
  pub order_id : IsField l.order_id
  pub sdb_ref : IsField l.sdb_ref
  pub executed_qty : IsField l.executed_qty
  pub price : IsField l.price
  pub gross_amount : IsField l.gross_amount
  pub courtage : IsField l.courtage
  pub taxes : IsField l.taxes
  pub net_amount : IsField l.net_amount
  pub settlement_date : IsField l.settlement_date
  pub executed_at : IsField l.executed_at
  pub executed_qty_is : is_decimal l.executed_qty ≡ true
  pub price_is : is_decimal l.price ≡ true
  pub gross_amount_is : is_decimal l.gross_amount ≡ true
  pub courtage_is : is_decimal l.courtage ≡ true
  pub taxes_is : is_decimal l.taxes ≡ true
  pub net_amount_is : is_decimal l.net_amount ≡ true

exe_status_plain : (s : ExeStatus) → any breaks_row (exe_status_text s) ≡ false
exe_status_plain filled = refl
exe_status_plain partial = refl
exe_status_plain unfilled = refl

exe_status_no_padding : (s : ExeStatus) → trim (exe_status_text s) ≡ exe_status_text s
unfolding trim_start trim_end is_space
exe_status_no_padding filled = refl
exe_status_no_padding partial = refl
exe_status_no_padding unfilled = refl

one_of-exe_status_text : (s : ExeStatus) → one_of (exe_status_text s) exe_statuses ≡ ok s
unfolding one_of Text-discrete
one_of-exe_status_text filled = refl
one_of-exe_status_text partial = refl
one_of-exe_status_text unfilled = refl

or_zero-is_decimal : (t : Text) → is_decimal t ≡ true → or_zero t ≡ t
unfolding is_decimal
or_zero-is_decimal [] h = cc
or_zero-is_decimal (c ∷ cs) h = refl

exe_cells-IsRow : (l : ExeLine) → IsExeLine l → IsRow exe_columns (exe_cells l)
exe_cells-IsRow l h = (
  refl,
  rw
      (
        h.order_id.plain_text,
        h.sdb_ref.plain_text,
        h.executed_qty.plain_text,
        h.price.plain_text,
        h.gross_amount.plain_text,
        h.courtage.plain_text,
        h.taxes.plain_text,
        h.net_amount.plain_text,
        h.settlement_date.plain_text,
        h.executed_at.plain_text,
        exe_status_plain l.status,
      )
      refl,
)

exe_of-exe_cells :
    (l : ExeLine) → IsExeLine l → exe_of (fill_record exe_columns (exe_cells l) []) ≡ ok l
unfolding fill_record set get Text-discrete
exe_of-exe_cells l h =
    rw
      (
        h.order_id.no_padding,
        h.sdb_ref.no_padding,
        h.executed_qty.no_padding,
        h.price.no_padding,
        h.gross_amount.no_padding,
        h.courtage.no_padding,
        h.taxes.no_padding,
        h.net_amount.no_padding,
        h.settlement_date.no_padding,
        h.executed_at.no_padding,
        exe_status_no_padding l.status,
        or_zero-is_decimal l.courtage h.courtage_is,
        or_zero-is_decimal l.taxes h.taxes_is,
        decimal_field-is_decimal l.executed_qty h.executed_qty_is,
        decimal_field-is_decimal l.price h.price_is,
        decimal_field-is_decimal l.gross_amount h.gross_amount_is,
        decimal_field-is_decimal l.courtage h.courtage_is,
        decimal_field-is_decimal l.taxes h.taxes_is,
        decimal_field-is_decimal l.net_amount h.net_amount_is,
        one_of-exe_status_text l.status,
      )
      refl

exe_IsHeader : IsHeader exe_columns (letters "order_id") (letters "sdb_ref") (
    letters "executed_qty"
    ∷ letters "price"
    ∷ letters "gross_amount"
    ∷ letters "courtage"
    ∷ letters "taxes"
    ∷ letters "net_amount"
    ∷ letters "settlement_date"
    ∷ letters "executed_at"
    ∷ letters "status"
    ∷ [])
unfolding trim_start trim_end is_space Text-discrete join strip_mark
exe_IsHeader = record {
  plain_columns = refl;
  no_padding = refl;
  unmarked = λ rest. refl;
  has_required = refl;
}

-- An EXE file that `exeToCsv` wrote is read back by `parseExe` as the lines it was written from, if
-- no text of a line holds a separator, a line end or white space around it, and the six numbers of
-- a line match the pattern of numbers.
pub parse_exe-exe_to_csv :
    (ls : List ExeLine) → All IsExeLine ls → parse_exe (exe_to_csv ls) ≡ ok ls
unfolding parse_exe exe_to_csv
parse_exe-exe_to_csv =
    read_written _ _ _ IsExeLine exe_cells exe_of exe_cells-IsRow exe_of-exe_cells exe_columns
      exe_IsHeader
