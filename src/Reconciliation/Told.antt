-- ===== src/Reconciliation/Told.antt =====
-- What a run tells of each line of a statement (src/modules/reconciliation/reconciliation.service.ts).
use alke_finance_backend.Base.{
  ℕ, ◌≡◌, refl, sym, subst, ap, ◌∙◌, inl, inr, ◌==◌, eqb_ℤ, ltb_ℤ, pos, abs, Bool, true, false,
  ◌&&◌, Bool-cases, Option, Option-cases, none, some, List, [], ◌∷◌, ◌++◌, map, any, find, Text,
  Text-discrete, same, All, All-append, All-weaken, Result, ok, err, arith, if_both, if◌then◌else◌,
  >>=-eq-ok, ok_injective, plain,
}
use alke_finance_backend.Money.{Decimal}
use alke_finance_backend.Ledger.Retry.{Rivals}
use alke_finance_backend.Payments.{
  PaymentIntent, Store, is_paid, is_pending, mark_withdrawal_paid, set_paid,
}
use alke_finance_backend.Kyc.BrokerAccounts.{MarketPartner}
use alke_finance_backend.Brokerage.Csv.{is_empty, trim}
use alke_finance_backend.Brokerage.Csv.Formats.{CashDirection, CshLine, into, out_of}
use alke_finance_backend.Reconciliation.{
  Reason, unknown_reference, another_amount, another_state, payment_refused, by_external_ref,
}
use alke_finance_backend.Reconciliation.Daily.{
  Desk, ReconciliationRun, no_run, open_item, close_matched_item, with_item, match_line,
  matched_line, confirmed, find_intent, same_direction, line_amount, amount_of, settle_line,
  read_line, read_lines, mirror_ref, raise_mirror, compare_mirror, mirror_check, closing_of,
  run_daily,
}
use alke_finance_backend.Reconciliation.Open.{
  is_item, Stays, open_item-Filed, close_matched_item-Stays, is_paid_intent, last_passes,
  any-append, update_items-any, both_hold, eqb_refl,
}
use alke_finance_backend.Reconciliation.Tellings.{
  Telling, by_match, by_payment, by_item, matches, payments, filings, matches-append,
  payments-append, filings-append, lines-append, all_agree, append_nil, append_assoc,
}
use alke_finance_backend.Reconciliation.Paid.{IgnoresPayment, Marks, mark_withdrawal_paid-Marks}

module _ (names : PaymentIntent → Text → Bool) (to_decimal : Text → Option Decimal)
    (id_text : ℕ → Text) (rivals : Rivals) where
  -- An intent has the amount of a text.
  abbrev pub has_amount : Text → Option Decimal → PaymentIntent → Bool
  has_amount currency none i = false
  has_amount currency (some value) i =
      eqb_ℤ i.amount (line_amount names to_decimal id_text rivals currency value)

  -- The intent with the id has the direction, the currency and the amount of the line.
  abbrev pub agrees : Text → CshLine → ℕ → PaymentIntent → Bool
  agrees currency line id i =
      (i.id == id)
      && (same_direction line.direction i
          && (same Text-discrete i.currency currency
              && has_amount currency (to_decimal line.amount) i))

  abbrev pub IsSettled : Text → CshLine → ℕ → List PaymentIntent → Type 0
  IsSettled currency line id is =
      (any (is_paid_intent id) is ≡ true) × (any (agrees currency line id) is ≡ true)

  -- What is told of a line is so in the tables.
  abbrev pub Explains : Text → Desk → CshLine × Telling → Type 0
  Explains currency d (line, by_match id) = IsSettled currency line id d.payments.intents
  Explains currency d (line, by_payment id) = IsSettled currency line id d.payments.intents
  Explains currency d (line, by_item id) = any (is_item line id) d.items ≡ true

  -- A run and its tables tell each of the lines, in their order.
  pub record Told (currency : Text) (lines : List CshLine) (r : ReconciliationRun × Desk)
      : Type 0 where
    pub told : List (CshLine × Telling)
    pub of_lines : map (λ t. t.0) told ≡ lines
    pub matched : r.0.matched ≡ matches told
    pub withdrawals_paid : r.0.withdrawals_paid ≡ payments told
    pub item_ids : r.0.item_ids ≡ filings told
    pub explained : All (Explains currency r.1) told

  -- What later turns leave in place.
  abbrev Leaves : Desk → Desk → Type 0
  Leaves d d' =
      Stays d.items d'.items
      × ((p : PaymentIntent → Bool)
          → IgnoresPayment p
          → any p d.payments.intents ≡ true
          → any p d'.payments.intents ≡ true)

  is_paid_intent-IgnoresPayment : (id : ℕ) → IgnoresPayment (is_paid_intent id)
  is_paid_intent-IgnoresPayment id txn i k = ground arith

  direction_kept :
      (dir : CashDirection) (txn : ℕ) (i : PaymentIntent)
      → same_direction dir (set_paid txn i) ≡ same_direction dir i
  direction_kept into txn i = refl
  direction_kept out_of txn i = refl

  amount_kept :
      (currency : Text) (value : Option Decimal) (txn : ℕ) (i : PaymentIntent)
      → has_amount currency value (set_paid txn i) ≡ has_amount currency value i
  amount_kept currency none txn i = refl
  amount_kept currency (some value) txn i = refl

  agrees-IgnoresPayment :
      (currency : Text) (line : CshLine) (id : ℕ) → IgnoresPayment (agrees currency line id)
  agrees-IgnoresPayment currency line id txn i k = ground (
    arith,
    k,
    direction_kept line.direction txn i,
    amount_kept currency (to_decimal line.amount) txn i,
  )

  Leaves-Settled :
      (currency : Text) (line : CshLine) (id : ℕ) (d d' : Desk)
      → Leaves d d'
      → IsSettled currency line id d.payments.intents
      → IsSettled currency line id d'.payments.intents
  Leaves-Settled currency line id d d' leaves (paid, agreed) = (
    leaves.1 (is_paid_intent id) (is_paid_intent-IgnoresPayment id) paid,
    leaves.1 (agrees currency line id) (agrees-IgnoresPayment currency line id) agreed,
  )

  Leaves-Explains :
      (currency : Text) (d d' : Desk)
      → Leaves d d'
      → (t : CshLine × Telling) → Explains currency d t
      → Explains currency d' t
  Leaves-Explains currency d d' leaves (line, by_match id) h =
      Leaves-Settled currency line id d d' leaves h
  Leaves-Explains currency d d' leaves (line, by_payment id) h =
      Leaves-Settled currency line id d d' leaves h
  Leaves-Explains currency d d' leaves (line, by_item id) h = leaves.0 line id h

  -- One more line.
  Told-more :
      (currency : Text) (lines : List CshLine) (line : CshLine) (t : Telling)
      (r r' : ReconciliationRun × Desk)
      → Told currency lines r
      → Leaves r.1 r'.1
      → r'.0.matched ≡ r.0.matched ++ matches ((line, t) ∷ [])
      → r'.0.withdrawals_paid ≡ r.0.withdrawals_paid ++ payments ((line, t) ∷ [])
      → r'.0.item_ids ≡ r.0.item_ids ++ filings ((line, t) ∷ [])
      → Explains currency r'.1 (line, t)
      → Told currency (lines ++ line ∷ []) r'
  Told-more currency lines line t r r' before leaves m p f now = record {
    told = before.told ++ one;
    of_lines = lines-append before.told one ∙ ap (λ x. x ++ line ∷ []) before.of_lines;
    matched = m ∙ ap (λ x. x ++ matches one) before.matched ∙ sym (matches-append before.told one);
    withdrawals_paid =
        p
        ∙ ap (λ x. x ++ payments one) before.withdrawals_paid
        ∙ sym (payments-append before.told one);
    item_ids =
        f ∙ ap (λ x. x ++ filings one) before.item_ids ∙ sym (filings-append before.told one);
    explained =
        All-append _ before.told one
          (All-weaken _ _ before.told (Leaves-Explains currency r.1 r'.1 leaves) before.explained)
          (now, tt);
  }
    where
      one : List (CshLine × Telling)
      one = (line, t) ∷ []

  -- One more line with an item.
  opened-Told :
      (currency : Text) (lines : List CshLine) (line : CshLine) (amount : Decimal) (reason : Reason)
      (intent : Option PaymentIntent) (run : ReconciliationRun) (d : Desk) (store : Store)
      → Told currency lines (run, d)
      → Leaves d (record d { payments = store })
      → Told currency (lines ++ line ∷ []) (
          with_item run
            (open_item line amount currency reason intent (record d { payments = store })))
  opened-Told currency lines line amount reason intent run d store h leaves =
      Told-more currency lines line (by_item (open_item line amount currency reason intent d').0)
        (run, d) (with_item run (open_item line amount currency reason intent d')) h
        (filed.1, λ p k a. subst (λ x. any p x.intents ≡ true) (sym filed.2) (leaves.1 p k a))
        (sym (append_nil run.matched)) (sym (append_nil run.withdrawals_paid)) refl filed.0
    where
      d' : Desk
      d' = record d { payments = store }

      filed :
          let r = open_item line amount currency reason intent d' in
          (any (is_item line r.0) r.1.items ≡ true)
          × Stays d'.items r.1.items
          × (r.1.payments ≡ d'.payments)
      filed = open_item-Filed line amount currency reason intent d'

  unchanged : (d : Desk) → Leaves d (record d { payments = d.payments })
  unchanged d = (λ line id k. k, λ p k a. a)

  -- The intent that a line names: it agrees with the line, and it is in the tables.
  record Named (currency : Text) (line : CshLine) (i : PaymentIntent) (is : List PaymentIntent)
      : Type 0 where
    agreed : any (agrees currency line i.id) is ≡ true
    held : is_paid i.state ≡ true → any (is_paid_intent i.id) is ≡ true

  confirmed-Told :
      (currency : Text) (lines : List CshLine) (line : CshLine) (amount : Decimal)
      (i : PaymentIntent) (run : ReconciliationRun) (d : Desk)
      (answer : Result PaymentIntent × Store)
      → Told currency lines (run, d)
      → Named currency line i d.payments.intents
      → Marks i.id d.payments.intents answer
      → Told currency
          (lines ++ line ∷ [])
          (confirmed names to_decimal id_text rivals line amount currency i run d answer)
  confirmed-Told currency lines line amount i run d (ok paid, store) h named marks =
      Told-more currency lines line (by_payment i.id) (run, d) _ h (λ l id k. k, marks.0)
        (sym (append_nil run.matched)) refl (sym (append_nil run.item_ids))
        (marks.1, marks.0 _ (agrees-IgnoresPayment currency line i.id) named.agreed)
  confirmed-Told currency lines line amount i run d (err e, store) h named marks =
      opened-Told currency lines line amount payment_refused (some i) run d store h
        (λ l id k. k, marks.0)

  matched_line-Told :
      (currency : Text) (lines : List CshLine) (line : CshLine) (i : PaymentIntent)
      (run : ReconciliationRun) (d : Desk)
      → Told currency lines (run, d)
      → Named currency line i d.payments.intents
      → is_paid i.state ≡ true
      → Told currency (lines ++ line ∷ []) (matched_line line i run d)
  unfolding close_matched_item
  matched_line-Told currency lines line i run d h named paid =
      Told-more currency lines line (by_match i.id) (run, d) (matched_line line i run d) h
        (close_matched_item-Stays line i d, λ p k a. a) refl (sym (append_nil run.withdrawals_paid))
        (sym (append_nil run.item_ids)) (named.held paid, named.agreed)

  match_line-Told :
      (currency : Text) (lines : List CshLine) (line : CshLine) (amount : Decimal)
      (i : PaymentIntent) (run : ReconciliationRun) (d : Desk)
      → Told currency lines (run, d)
      → Named currency line i d.payments.intents
      → Told currency
          (lines ++ line ∷ [])
          (match_line names to_decimal id_text rivals line amount currency i run d)
  unfolding match_line
  match_line-Told currency lines line amount i run d h named = elim (Bool-cases (is_paid i.state)) [
    | inl e ↦ rw (e, match_line) (matched_line-Told currency lines line i run d h named e)
    | inr e ↦ rw (e, match_line) (go line.direction)
  ]
    where
      doubtful :
          Told currency
            (lines ++ line ∷ [])
            (with_item run (open_item line amount currency another_state (some i) d))
      doubtful =
          opened-Told currency lines line amount another_state (some i) run d d.payments h
            (unchanged d)

      go :
          (dir : CashDirection)
          → Told currency (lines ++ line ∷ []) (elim dir [
            | into ↦ with_item run (open_item line amount currency another_state (some i) d)
            | out_of ↦
                if is_pending i.state
                then confirmed names to_decimal id_text rivals line amount currency i run d
                    (mark_withdrawal_paid rivals i.id none d.payments)
                else with_item run (open_item line amount currency another_state (some i) d)
          ])
      go into = doubtful
      go out_of =
          if_both (Told currency (lines ++ line ∷ [])) (is_pending i.state) _ _
            (confirmed-Told currency lines line amount i run d _ h named
              (mark_withdrawal_paid-Marks rivals i.id none d.payments))
            doubtful

  find_intent-Named :
      (currency : Text) (line : CshLine) (value : Decimal) (i : PaymentIntent)
      (is : List PaymentIntent)
      → to_decimal line.amount ≡ some value
      → find_intent names to_decimal id_text rivals line currency is ≡ some i
      → eqb_ℤ i.amount (line_amount names to_decimal id_text rivals currency value) ≡ true
      → Named currency line i is
  unfolding find_intent
  find_intent-Named currency line value i is number found same_amount =
      elim (Bool-cases (is_empty (trim line.reference))) [
        | inl e ↦ cc (rw (e, find_intent) at found)
        | inr e ↦
            let (held, passes) =
              last_passes (asked line) (agrees currency line i.id) is i
                (rw (e, find_intent) at found) in
            record {
              agreed = held (
                  all_agree _ _ _ _ _ (eqb_refl i.id) passes
                    (subst (λ v. has_amount currency v i ≡ true) (sym number) same_amount));
              held = λ paid.
                  (last_passes (asked line) (is_paid_intent i.id) is i
                      (rw (e, find_intent) at found)).0
                    (both_hold _ _ (eqb_refl i.id) paid);
            }
      ]
    where
      asked : CshLine → PaymentIntent → Bool
      asked l x =
          same_direction l.direction x
          && (same Text-discrete x.currency currency && names x (trim l.reference))

  settle_line-Told :
      (currency : Text) (lines : List CshLine) (line : CshLine) (value : Decimal)
      (run : ReconciliationRun) (d : Desk)
      → to_decimal line.amount ≡ some value
      → Told currency lines (run, d)
      → Told currency (lines ++ line ∷ []) (
          settle_line names to_decimal id_text rivals currency line
            (line_amount names to_decimal id_text rivals currency value)
            run
            d)
  unfolding settle_line
  settle_line-Told currency lines line value run d number h =
      elim (Option-cases (find_intent names to_decimal id_text rivals line currency rows)) [
        | inl k ↦
            rw (k, settle_line)
              (opened-Told currency lines line amount unknown_reference none run d d.payments h
                (unchanged d))
        | inr (i, k) ↦ elim (Bool-cases (eqb_ℤ i.amount amount)) [
          | inl e ↦
              rw (k, settle_line)
                (rw e (
                  match_line-Told currency lines line amount i run d h
                    (find_intent-Named currency line value i rows number k e)))
          | inr e ↦
              rw (k, settle_line)
                (rw e (
                  opened-Told currency lines line amount another_amount (some i) run d d.payments h
                    (unchanged d)))
        ]
      ]
    where
      rows : List PaymentIntent
      rows = d.payments.intents

      amount : Decimal
      amount = line_amount names to_decimal id_text rivals currency value

  number_of :
      (text : Text) (value : Decimal)
      → amount_of names to_decimal id_text rivals text ≡ ok value
      → to_decimal text ≡ some value
  number_of text value h = go (to_decimal text) h
    where
      go :
          (o : Option Decimal)
          → (elim o [ none ↦ err (plain "DecimalError") | some a ↦ ok a ]) ≡ ok value
          → o ≡ some value
      go none k = cc
      go (some a) k = cc

  read_lines-Told :
      (currency : Text) (before lines : List CshLine) (run : ReconciliationRun) (d : Desk)
      (r : ReconciliationRun × Desk)
      → Told currency before (run, d)
      → read_lines names to_decimal id_text rivals currency lines run d ≡ ok r
      → Told currency (before ++ lines) r
  unfolding read_lines read_line
  read_lines-Told currency before [] run d r h e =
      subst (λ x. Told currency x r) (sym (append_nil before))
        (subst (Told currency before) (ok_injective e) h)
  read_lines-Told currency before (line ∷ lines) run d r h e =
      let (next, first, rest) =
        >>=-eq-ok (read_line names to_decimal id_text rivals currency line run d) _ e in
      let (value, number, settled) =
        >>=-eq-ok (amount_of names to_decimal id_text rivals line.amount) _ first in
      subst (λ x. Told currency x r) (append_assoc before line lines)
        (read_lines-Told currency (before ++ line ∷ []) lines next.0 next.1 r
          (subst (Told currency (before ++ line ∷ [])) (ok_injective settled) (
            settle_line-Told currency before line value run d (number_of line.amount value number)
              h))
          rest)

  raise_mirror-Leaves :
      (partner : ℕ) (currency date : Text) (difference : Decimal) (d : Desk)
      → Leaves d (raise_mirror names to_decimal id_text rivals partner currency date difference d)
  unfolding raise_mirror
  raise_mirror-Leaves partner currency date difference d =
      elim (Option-cases (by_external_ref ref d.items)) [
        | inl k ↦ rw (k, raise_mirror) (λ l id h. any-append (is_item l id) d.items _ h, λ p i a. a)
        | inr (item, k) ↦
            rw (k, raise_mirror)
              (λ l id h. update_items-any (is_item l id) _ _ (λ x y. y) d.items h, λ p i a. a)
      ]
    where
      ref : Text
      ref = mirror_ref names to_decimal id_text rivals partner date

  -- `mirrorCheck` tells no line, and takes nothing away.
  mirrored :
      (currency : Text) (lines : List CshLine) (r : ReconciliationRun × Desk)
      (difference : Option Decimal) (alert : Bool) (d : Desk)
      → Told currency lines r
      → Leaves r.1 d
      → Told currency lines (record r.0 { difference = difference; alert = alert }, d)
  mirrored currency lines r difference alert d h leaves = record {
    told = h.told;
    of_lines = h.of_lines;
    matched = h.matched;
    withdrawals_paid = h.withdrawals_paid;
    item_ids = h.item_ids;
    explained = All-weaken _ _ h.told (Leaves-Explains currency r.1 d leaves) h.explained;
  }

  compare_mirror-Told :
      (materiality : Decimal) (partner : ℕ) (currency : Text) (difference : Decimal) (date : Text)
      (lines : List CshLine) (r : ReconciliationRun × Desk)
      → Told currency lines r
      → Told currency lines (
          compare_mirror names to_decimal id_text rivals materiality partner currency difference
            date r.0 r.1)
  unfolding compare_mirror
  compare_mirror-Told materiality partner currency difference date lines r h =
      if_both (Told currency lines) (ltb_ℤ materiality (pos (abs difference))) _ _
        (mirrored currency lines r (some difference) true _ h
          (raise_mirror-Leaves partner currency date difference r.1))
        (mirrored currency lines r (some difference) r.0.alert r.1 h (unchanged r.1))

  mirror_check-Told :
      (materiality : Decimal) (partner : ℕ) (currency : Text) (closing : Option Text) (date : Text)
      (lines : List CshLine) (r r' : ReconciliationRun × Desk)
      → Told currency lines r
      → mirror_check names to_decimal id_text rivals materiality partner currency closing date r.0
          r.1
        ≡ ok r'
      → Told currency lines r'
  unfolding mirror_check
  mirror_check-Told materiality partner currency none date lines r r' h e =
      subst (Told currency lines) (ok_injective e) h
  mirror_check-Told materiality partner currency (some closing) date lines r r' h e =
      let (balance, number, compared) =
        >>=-eq-ok (amount_of names to_decimal id_text rivals closing) _ e in
      subst (Told currency lines) (ok_injective compared)
        (compare_mirror-Told materiality partner currency _ date lines r h)

  -- A run that answers tells each line of the statement, in their order: as matched or as a paid
  -- withdrawal, and then an intent of the id is paid and one of the id has the direction, the
  -- currency and the amount of the line; or by an item, and then an item of the id is filed under
  -- the line's reference. Its three lists are what it tells, in that order.
  pub run_daily-Told :
      (materiality : Decimal) (currency_of : ℕ → Text) (partners : List MarketPartner)
      (p : MarketPartner) (partner : ℕ) (lines : List CshLine) (date : Text) (d : Desk)
      (r : ReconciliationRun × Desk)
      → find (λ x. x.id == partner) partners ≡ some p
      → run_daily names to_decimal id_text rivals materiality currency_of partners partner lines
          date d
        ≡ ok r
      → Told (currency_of p.market_id) lines r
  unfolding run_daily
  run_daily-Told materiality currency_of partners p partner lines date d r found e =
      let currency = currency_of p.market_id in
      let (read, told, mirrored) =
        >>=-eq-ok (read_lines names to_decimal id_text rivals currency lines no_run d) _
          (rw (found, run_daily) at e) in
      mirror_check-Told materiality partner currency
        (closing_of names to_decimal id_text rivals lines) date lines read r
        (read_lines-Told currency [] lines no_run d read nothing told) mirrored
    where
      nothing : Told (currency_of p.market_id) [] (no_run, d)
      nothing = record {
        told = [];
        of_lines = refl;
        matched = refl;
        withdrawals_paid = refl;
        item_ids = refl;
        explained = tt;
      }
