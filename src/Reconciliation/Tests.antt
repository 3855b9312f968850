-- ===== src/Reconciliation/Tests.antt =====
-- A statement of two lines: a paid deposit, and a reference that nothing has.
use native.Mathlib.Decide.{ℕ_discrete}
use alke_finance_backend.Reconciliation.{by_external_ref, update_items}
use alke_finance_backend.Ledger.Report.{mirror_total}
use alke_finance_backend.Base.{
  find, Option, none, some, ◌==◌, ◌≡◌, refl, ℕ, ◌+◌, ◌-◌, ◌*◌, Bool, true, false, List, [], ◌∷◌,
  Text, letters, Result, ok, err, ◌-ℤ◌, Text-discrete, to_upper, neg, ◌+ℤ◌,
}
use alke_finance_backend.Money.{
  Decimal, whole, round_money, decimals_for, minor_unit, plus_all, round_to,
}
use alke_finance_backend.Ledger.Types.{mtn_momo}
use alke_finance_backend.Ledger.Retry.{Rivals}
use alke_finance_backend.Payments.{PaymentDirection, PaymentIntentState, PaymentIntent}
use alke_finance_backend.Kyc.BrokerAccounts.{MarketPartner, PartnerAgreementStatus}
use alke_finance_backend.Brokerage.Csv.{eq_text, trim_end, trim_start, is_space}
use alke_finance_backend.Brokerage.Csv.Formats.{CshLine, into}
use alke_finance_backend.Reconciliation.Daily.{
  Desk, ReconciliationRun, no_run, run_daily, mirror_check, closing_of, read_lines, read_line,
  find_intent, find_last, match_line, close_matched_item, open_item, raise_mirror, compare_mirror,
  settle_line,
}
use alke_finance_backend.Reconciliation.Told.{Told, run_daily-Told}

abbrev value : ℕ → Text → ℕ
value acc [] = acc
value acc (c ∷ cs) = value (acc * 10 + (c - 48)) cs

abbrev to_decimal : Text → Option Decimal
to_decimal [] = none
to_decimal (c ∷ cs) = some (whole (value 0 (c ∷ cs)))

abbrev id_text : ℕ → Text
id_text n = b'p' ∷ (48 + n) ∷ []

abbrev names : PaymentIntent → Text → Bool
names i ref = eq_text (id_text i.id) ref

abbrev alone : Rivals
alone = record { commit = λ n db. db; clash = λ n. false }

abbrev xaf : Text
xaf = letters "XAF"

abbrev desk : Desk
desk = record {
  payments = record {
    ledger = record { accounts = []; txns = []; entries = []; next_id = 1 };
    intents =
        record {
          id = 3;
          user_id = 7;
          direction = PaymentDirection.incoming;
          provider = mtn_momo;
          amount = whole 5000;
          currency = xaf;
          state = PaymentIntentState.paid;
          ledger_txn_id = some 2;
          batch_id = none;
        }
        ∷ [];
    next_id = 4;
  };
  items = [];
  alerts = [];
  next_id = 10;
}

abbrev deposit : Text → CshLine
deposit reference = record {
  date = letters "2026-01-05";
  reference = reference;
  direction = into;
  amount = letters "5000";
  balance = letters "5000";
}

abbrev lines : List CshLine
lines = deposit (letters " p3") ∷ deposit (letters "p8") ∷ []

abbrev the_broker : MarketPartner
the_broker = record { id = 9; market_id = 1; agreement_status = PartnerAgreementStatus.active }

abbrev partners : List MarketPartner
partners = the_broker ∷ []

abbrev read : Result (ReconciliationRun × Desk)
read =
    run_daily names to_decimal id_text alone (whole 1000) (λ n. xaf) partners 9 lines
      (letters "2026-01-05") desk

abbrev answer_of : Result (ReconciliationRun × Desk) → ReconciliationRun × Desk
answer_of (err e) = (no_run, desk)
answer_of (ok r) = r

one_of_each : ((answer_of read).0.matched ≡ 3 ∷ []) × ((answer_of read).0.item_ids ≡ 10 ∷ [])
unfolding run_daily mirror_check closing_of ◌-ℤ◌ mirror_total read_lines read_line find_intent
    trim_end trim_start is_space find_last Text-discrete round_money decimals_for match_line
    close_matched_item to_upper neg ◌+ℤ◌ minor_unit plus_all round_to open_item raise_mirror
    by_external_ref update_items ℕ_discrete compare_mirror settle_line
one_of_each = (refl, refl)

the_mirror : (answer_of read).0.alert ≡ true
unfolding run_daily mirror_check closing_of ◌-ℤ◌ mirror_total read_lines read_line find_intent
    trim_end trim_start is_space find_last Text-discrete round_money decimals_for match_line
    close_matched_item to_upper neg ◌+ℤ◌ minor_unit plus_all round_to open_item raise_mirror
    by_external_ref update_items ℕ_discrete compare_mirror settle_line
the_mirror = refl

answers : read ≡ ok (answer_of read)
unfolding run_daily read_lines read_line mirror_check closing_of
answers = refl

the_partner : find (λ x. x.id == 9) partners ≡ some the_broker
the_partner = refl

run_daily-Told_example : Told names to_decimal id_text alone xaf lines (answer_of read)
run_daily-Told_example =
    run_daily-Told names to_decimal id_text alone (whole 1000) (λ n. xaf) partners the_broker 9
      lines (letters "2026-01-05") desk (answer_of read) the_partner answers
