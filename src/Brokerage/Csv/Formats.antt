-- ===== src/Brokerage/Csv/Formats.antt =====
-- The lines of the SDB's files: src/modules/brokerage/connectors/csv.ts and connector.types.ts. The
-- rows that a table of the program fills (orders, withdrawals) have their quantities, amounts and
-- instants printed already, which decimal.js and Intl do.
use alke_finance_backend.Base.{
  Option, none, some, List, [], ◌∷◌, map, Text, letters, Result, ok, ◌>>=◌,
}
use alke_finance_backend.Brokerage.Csv.{
  CsvRecord, text_or_empty, sanitize_field, to_csv, get, parse_csv, one_of, decimal_field, or_zero,
  or_undefined,
}

pub data AckStatus : Type 0 where
  accepted rejected : AckStatus

pub data ExeStatus : Type 0 where
  filled partial unfilled : ExeStatus

pub data CashDirection : Type 0 where
  into out_of : CashDirection

-- `AckLine`
pub record AckLine : Type 0 where
  pub order_id : Text
  pub status : AckStatus
  pub reject_code : Option Text
  pub reject_text : Option Text
  pub sdb_ref : Text
  pub ack_at : Text

-- `ExeLine`
pub record ExeLine : Type 0 where
  pub order_id : Text
  pub sdb_ref : Text
  pub executed_qty : Text
  pub price : Text
  pub gross_amount : Text
  pub courtage : Text
  pub taxes : Text
  pub net_amount : Text
  pub settlement_date : Text
  pub executed_at : Text
  pub status : ExeStatus

-- `CshLine`
pub record CshLine : Type 0 where
  pub date : Text
  pub reference : Text
  pub direction : CashDirection
  pub amount : Text
  pub balance : Text

-- A line of the ORD file: a `BatchOrderLine` with what other libraries print.
pub record OrderRow : Type 0 where
  pub order_id : Text
  pub external_account_no : Text
  pub full_name : Option Text
  pub side : Text
  pub isin : Option Text
  pub symbol : Text
  pub quantity : Text
  pub order_type : Text
  pub validity : Text
  pub max_amount : Text
  pub submitted_at : Text
  pub user_id : Text

-- A line of the WDR file.
pub record WithdrawalRow : Type 0 where
  pub intent_id : Text
  pub external_account_no : Text
  pub amount : Text
  pub provider : Text
  pub msisdn : Option Text
  pub created_at : Text

-- `ORD_COLUMNS`
abbrev pub ord_columns : List Text
ord_columns =
    letters "order_id"
    ∷ letters "client_account_no"
    ∷ letters "client_name"
    ∷ letters "side"
    ∷ letters "isin"
    ∷ letters "quantity"
    ∷ letters "order_type"
    ∷ letters "validity"
    ∷ letters "max_amount_xaf"
    ∷ letters "created_at"
    ∷ letters "client_ref"
    ∷ []

-- `WDR_COLUMNS`
abbrev pub wdr_columns : List Text
wdr_columns =
    letters "withdrawal_id"
    ∷ letters "client_account_no"
    ∷ letters "amount"
    ∷ letters "channel"
    ∷ letters "msisdn"
    ∷ letters "requested_at"
    ∷ []

-- `ACK_COLUMNS`
abbrev pub ack_columns : List Text
ack_columns =
    letters "order_id"
    ∷ letters "status"
    ∷ letters "reject_code"
    ∷ letters "reject_text"
    ∷ letters "sdb_ref"
    ∷ letters "ack_at"
    ∷ []

-- `EXE_COLUMNS`
abbrev pub exe_columns : List Text
exe_columns =
    letters "order_id"
    ∷ letters "sdb_ref"
    ∷ letters "executed_qty"
    ∷ letters "price"
    ∷ letters "gross_amount"
    ∷ letters "courtage"
    ∷ letters "taxes"
    ∷ letters "net_amount"
    ∷ letters "settlement_date"
    ∷ letters "executed_at"
    ∷ letters "status"
    ∷ []

-- `CSH_COLUMNS`
abbrev pub csh_columns : List Text
csh_columns =
    letters "date"
    ∷ letters "reference"
    ∷ letters "direction"
    ∷ letters "amount"
    ∷ letters "balance"
    ∷ []

abbrev pub ack_statuses : List (Text × AckStatus)
ack_statuses = (letters "ACCEPTED", accepted) ∷ (letters "REJECTED", rejected) ∷ []

abbrev pub exe_statuses : List (Text × ExeStatus)
exe_statuses =
    (letters "FILLED", filled) ∷ (letters "PARTIAL", partial) ∷ (letters "UNFILLED", unfilled) ∷ []

abbrev pub directions : List (Text × CashDirection)
directions = (letters "IN", into) ∷ (letters "OUT", out_of) ∷ []

abbrev pub ack_status_text : AckStatus → Text
ack_status_text accepted = letters "ACCEPTED"
ack_status_text rejected = letters "REJECTED"

abbrev pub exe_status_text : ExeStatus → Text
exe_status_text filled = letters "FILLED"
exe_status_text partial = letters "PARTIAL"
exe_status_text unfilled = letters "UNFILLED"

abbrev pub direction_text : CashDirection → Text
direction_text into = letters "IN"
direction_text out_of = letters "OUT"

-- `rows.map(f)`, where `f` may throw.
unfoldable pub map_result {ℓ κ} :
    {A : Type ℓ} {B : Type κ} → (A → Result B) → List A → Result (List B)
map_result f [] = ok []
map_result f (x ∷ xs) = do y ← f x; ys ← map_result f xs; ok (y ∷ ys)

abbrev pub ack_of : CsvRecord → Result AckLine
ack_of r = do
  status ← one_of (get (letters "status") r) ack_statuses
  ok (record {
    order_id = get (letters "order_id") r;
    status = status;
    reject_code = or_undefined (get (letters "reject_code") r);
    reject_text = or_undefined (get (letters "reject_text") r);
    sdb_ref = get (letters "sdb_ref") r;
    ack_at = get (letters "ack_at") r;
  })

-- `parseAck`
unfoldable pub parse_ack : Text → Result (List AckLine)
parse_ack text = do
  rs ←
      parse_csv text
        (letters "order_id" ∷ letters "status" ∷ letters "sdb_ref" ∷ letters "ack_at" ∷ [])
  map_result ack_of rs

abbrev pub exe_of : CsvRecord → Result ExeLine
exe_of r = do
  executed_qty ← decimal_field (get (letters "executed_qty") r)
  price ← decimal_field (get (letters "price") r)
  gross_amount ← decimal_field (get (letters "gross_amount") r)
  courtage ← decimal_field (or_zero (get (letters "courtage") r))
  taxes ← decimal_field (or_zero (get (letters "taxes") r))
  net_amount ← decimal_field (get (letters "net_amount") r)
  status ← one_of (get (letters "status") r) exe_statuses
  ok (record {
    order_id = get (letters "order_id") r;
    sdb_ref = get (letters "sdb_ref") r;
    executed_qty = executed_qty;
    price = price;
    gross_amount = gross_amount;
    courtage = courtage;
    taxes = taxes;
    net_amount = net_amount;
    settlement_date = get (letters "settlement_date") r;
    executed_at = get (letters "executed_at") r;
    status = status;
  })

-- `parseExe`
unfoldable pub parse_exe : Text → Result (List ExeLine)
parse_exe text = parse_csv text exe_columns >>= map_result exe_of

abbrev pub csh_of : CsvRecord → Result CshLine
csh_of r = do
  direction ← one_of (get (letters "direction") r) directions
  amount ← decimal_field (get (letters "amount") r)
  balance ← decimal_field (get (letters "balance") r)
  ok (record {
    date = get (letters "date") r;
    reference = get (letters "reference") r;
    direction = direction;
    amount = amount;
    balance = balance;
  })

-- `parseCsh`
unfoldable pub parse_csh : Text → Result (List CshLine)
parse_csh text = parse_csv text csh_columns >>= map_result csh_of

abbrev pub ack_cells : AckLine → List Text
ack_cells l =
    l.order_id
    ∷ ack_status_text l.status
    ∷ text_or_empty l.reject_code
    ∷ sanitize_field l.reject_text
    ∷ l.sdb_ref
    ∷ l.ack_at
    ∷ []

-- `ackToCsv`
unfoldable pub ack_to_csv : List AckLine → Text
ack_to_csv lines = to_csv ack_columns (map ack_cells lines)

abbrev pub exe_cells : ExeLine → List Text
exe_cells l =
    l.order_id
    ∷ l.sdb_ref
    ∷ l.executed_qty
    ∷ l.price
    ∷ l.gross_amount
    ∷ l.courtage
    ∷ l.taxes
    ∷ l.net_amount
    ∷ l.settlement_date
    ∷ l.executed_at
    ∷ exe_status_text l.status
    ∷ []

-- `exeToCsv`
unfoldable pub exe_to_csv : List ExeLine → Text
exe_to_csv lines = to_csv exe_columns (map exe_cells lines)

abbrev pub csh_cells : CshLine → List Text
csh_cells l = l.date ∷ l.reference ∷ direction_text l.direction ∷ l.amount ∷ l.balance ∷ []

-- `cshToCsv`
unfoldable pub csh_to_csv : List CshLine → Text
csh_to_csv lines = to_csv csh_columns (map csh_cells lines)

abbrev pub isin_or_symbol : Option Text → Text → Text
isin_or_symbol none symbol = symbol
isin_or_symbol (some isin) symbol = isin

abbrev pub order_cells : OrderRow → List Text
order_cells l =
    l.order_id
    ∷ sanitize_field (some l.external_account_no)
    ∷ sanitize_field l.full_name
    ∷ l.side
    ∷ sanitize_field (some (isin_or_symbol l.isin l.symbol))
    ∷ l.quantity
    ∷ l.order_type
    ∷ sanitize_field (some l.validity)
    ∷ l.max_amount
    ∷ l.submitted_at
    ∷ l.user_id
    ∷ []

-- `buildOrdCsv`
unfoldable pub build_ord_csv : List OrderRow → Text
build_ord_csv lines = to_csv ord_columns (map order_cells lines)

abbrev pub withdrawal_cells : WithdrawalRow → List Text
withdrawal_cells l =
    l.intent_id
    ∷ sanitize_field (some l.external_account_no)
    ∷ l.amount
    ∷ l.provider
    ∷ sanitize_field l.msisdn
    ∷ l.created_at
    ∷ []

-- `buildWdrCsv`
unfoldable pub build_wdr_csv : List WithdrawalRow → Text
build_wdr_csv lines = to_csv wdr_columns (map withdrawal_cells lines)
