-- ===== src/Brokerage/Csv/Tests.antt =====
-- Runs of the readers and writers on small files.
use native.Mathlib.Decide.{ℕ_discrete}
use alke_finance_backend.Base.{
  ◌≡◌, refl, ◌++◌, [], ◌∷◌, none, some, letters, ok, err, plain, Text-discrete,
}
use alke_finance_backend.Brokerage.Csv.{
  sanitize_field, parse_csv, carriage_return, byte_order_mark, trim_end, trim_start, is_space,
  is_decimal, matches_number, parse_lines, split_lines, strip_mark, has_content, split_cells,
  parse_rows, parse_row, replace_runs, to_csv, end_lines, join, one_of, get, fill_record, set,
}
use alke_finance_backend.Brokerage.Csv.Formats.{
  ExeLine, partial, rejected, parse_exe, parse_ack, exe_to_csv, build_ord_csv, map_result,
}
use alke_finance_backend.Brokerage.Csv.RoundTrip.{IsExeLine, parse_exe-exe_to_csv}

abbrev half_filled : ExeLine
half_filled = record {
  order_id = letters "o1";
  sdb_ref = letters "SDB 7";
  executed_qty = letters "10";
  price = letters "450.5";
  gross_amount = letters "4505";
  courtage = letters "27";
  taxes = letters "0";
  net_amount = letters "4532";
  settlement_date = letters "2026-03-12";
  executed_at = letters "2026-03-10T11:00:00+01:00";
  status = partial;
}

half_filled-IsExeLine : IsExeLine half_filled
unfolding trim_end trim_start is_space is_decimal matches_number
half_filled-IsExeLine = record {
  order_id = record { plain_text = refl; no_padding = refl };
  sdb_ref = record { plain_text = refl; no_padding = refl };
  executed_qty = record { plain_text = refl; no_padding = refl };
  price = record { plain_text = refl; no_padding = refl };
  gross_amount = record { plain_text = refl; no_padding = refl };
  courtage = record { plain_text = refl; no_padding = refl };
  taxes = record { plain_text = refl; no_padding = refl };
  net_amount = record { plain_text = refl; no_padding = refl };
  settlement_date = record { plain_text = refl; no_padding = refl };
  executed_at = record { plain_text = refl; no_padding = refl };
  executed_qty_is = refl;
  price_is = refl;
  gross_amount_is = refl;
  courtage_is = refl;
  taxes_is = refl;
  net_amount_is = refl;
}

parse_exe-exe_to_csv_example : parse_exe (exe_to_csv (half_filled ∷ [])) ≡ ok (half_filled ∷ [])
parse_exe-exe_to_csv_example = parse_exe-exe_to_csv (half_filled ∷ []) (half_filled-IsExeLine, tt)

-- A mark, a line end of Windows, a blank line and padded cells are let through.
ack_of_windows :
    parse_ack (
      byte_order_mark
      ∷ (letters "order_id; status ;sdb_ref;ack_at"
          ++ carriage_return ∷ (letters "\n\no1;REJECTED; S1 ;now\n")))
    ≡ ok (
        record {
          order_id = letters "o1";
          status = rejected;
          reject_code = none;
          reject_text = none;
          sdb_ref = letters "S1";
          ack_at = letters "now";
        }
        ∷ [])
unfolding parse_ack parse_csv parse_lines split_lines strip_mark has_content trim_end trim_start
    is_space split_cells Text-discrete parse_rows parse_row map_result one_of get fill_record set
    ℕ_discrete
ack_of_windows = refl

missing_column :
    parse_csv (letters "a;b\n1;2\n") (letters "c" ∷ []) ≡ err (plain "Colonnes manquantes.")
unfolding parse_csv parse_lines split_lines strip_mark has_content trim_end trim_start is_space
    split_cells Text-discrete
missing_column = refl

short_row : parse_csv (letters "a;b\n1\n") (letters "a" ∷ []) ≡ err (plain "Champs manquants.")
unfolding parse_csv parse_lines split_lines strip_mark has_content trim_end trim_start is_space
    split_cells Text-discrete parse_rows parse_row
short_row = refl

sanitized : sanitize_field (some (letters " a;;\nb ")) ≡ letters "a b"
unfolding sanitize_field trim_end trim_start replace_runs is_space
sanitized = refl

one_order :
    build_ord_csv (
      record {
        order_id = letters "o1";
        external_account_no = letters "X;1";
        full_name = none;
        side = letters "BUY";
        isin = none;
        symbol = letters "SEMC";
        quantity = letters "10";
        order_type = letters "MARKET";
        validity = letters "DAY";
        max_amount = letters "4600";
        submitted_at = letters "t";
        user_id = letters "u1";
      }
      ∷ [])
    ≡ letters
        "order_id;client_account_no;client_name;side;isin;quantity;order_type;validity;max_amount_xaf;created_at;client_ref\no1;X 1;;BUY;SEMC;10;MARKET;DAY;4600;t;u1\n"
unfolding build_ord_csv to_csv end_lines join sanitize_field trim_end trim_start replace_runs
    is_space
one_order = refl
