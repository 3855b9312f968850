-- ===== src/Brokerage/OrderLedger/Balanced.antt =====
-- The entries of an order's postings (src/modules/brokerage/order-ledger.service.ts).
use alke_finance_backend.Base.{
  ℕ, pos, neg, ◌≤◌, ◌≡◌, ◌≢◌, refl, sym, ◌∙◌, ap, arith, int_laws, ◌+ℤ◌, +ℤ_zero, eqb_ℤ, eqb_ℤ→eq,
  Bool-cases, inl, inr, Option, List, [], ◌∷◌, ◌++◌, All, All-append, map, length, Text,
}
use alke_finance_backend.Money.{Decimal, zero_decimal, plus_all}
use alke_finance_backend.Ledger.Types.{FeeCode, LedgerEntryInput, PostTxnInput, blank}
use alke_finance_backend.Brokerage.OrderLedger.{
  Order, Execution, fee_entry, reserve_input, release_input, buy_entries, buy_fill_input,
  sell_fill_input, settlement_input, fail_release_input, commission_for, buy_debit,
}

abbrev pub amounts_of : List LedgerEntryInput → List Decimal
amounts_of = map (λ e. e.amount)

-- What `normalise` asks of a transaction besides the rounding of its amounts and the spelling of its
-- currency.
pub record IsBalanced (input : PostTxnInput) : Type 0 where
  pub keyed : input.idempotency_key ≢ blank
  pub several : 2 ≤ length input.entries
  pub in_currency : All (λ e. e.account.currency ≡ input.currency) input.entries
  pub zero_sum : plus_all (pos 0) (amounts_of input.entries) ≡ pos 0

neg_plus : (a : Decimal) → plus_all (pos 0) (neg a ∷ a ∷ []) ≡ pos 0
unfolding plus_all
neg_plus a = omega int_laws

plus_all-fee_entry :
    (code : FeeCode) (currency : Text) (a acc : Decimal) (rest : List LedgerEntryInput)
    → plus_all acc (amounts_of (fee_entry code currency a ++ rest))
      ≡ plus_all (acc +ℤ a) (amounts_of rest)
unfolding plus_all
plus_all-fee_entry code currency a acc rest = elim (Bool-cases (eqb_ℤ a zero_decimal)) [
  | inl e ↦ rw e (
      ap (λ x. plus_all x (amounts_of rest))
        (sym (+ℤ_zero acc) ∙ ap (λ x. acc +ℤ x) (sym (eqb_ℤ→eq a zero_decimal e))))
  | inr e ↦ rw e refl
]

plus_all-last_fee_entry :
    (code : FeeCode) (currency : Text) (a acc : Decimal)
    → plus_all acc (amounts_of (fee_entry code currency a)) ≡ acc +ℤ a
unfolding plus_all
plus_all-last_fee_entry code currency a acc = elim (Bool-cases (eqb_ℤ a zero_decimal)) [
  | inl e ↦ rw e (sym (+ℤ_zero acc) ∙ ap (λ x. acc +ℤ x) (sym (eqb_ℤ→eq a zero_decimal e)))
  | inr e ↦ rw e refl
]

fee_entry-currency :
    (code : FeeCode) (currency : Text) (a : Decimal)
    → All (λ e. e.account.currency ≡ currency) (fee_entry code currency a)
fee_entry-currency code currency a = elim (Bool-cases (eqb_ℤ a zero_decimal)) [
  | inl e ↦ rw e tt
  | inr e ↦ rw e (refl, tt)
]

buy_zero : (g c t m : Decimal) → pos 0 +ℤ neg (g +ℤ c +ℤ t +ℤ m) +ℤ g +ℤ c +ℤ t +ℤ m ≡ pos 0
buy_zero g c t m = omega int_laws

module _ (prorate : Decimal → Decimal → Decimal → Text → Decimal) where
  buy_entries-zero :
      (o : Order) (e : Execution) (partner : ℕ) (currency : Text)
      → plus_all (pos 0) (amounts_of (buy_entries prorate o e partner currency)) ≡ pos 0
  unfolding buy_entries plus_all
  buy_entries-zero o e partner currency =
      let m = commission_for prorate o e.quantity currency in
      plus_all-fee_entry FeeCode.courtage_sdb currency e.courtage _ _
      ∙ plus_all-fee_entry FeeCode.taxe currency e.taxes _ _
      ∙ plus_all-last_fee_entry FeeCode.commission_alke currency m _
      ∙ buy_zero e.gross_amount e.courtage e.taxes m

  buy_several :
      (o : Order) (e : Execution) (partner : ℕ) (currency : Text)
      → 2 ≤ length (buy_entries prorate o e partner currency)
  unfolding buy_entries
  buy_several o e partner currency = omega arith

  buy_currency :
      (o : Order) (e : Execution) (partner : ℕ) (currency : Text)
      → All (λ x. x.account.currency ≡ currency) (buy_entries prorate o e partner currency)
  unfolding buy_entries
  buy_currency o e partner currency = (
    refl,
    (
      refl,
      All-append _ _ _ (fee_entry-currency FeeCode.courtage_sdb currency e.courtage) (
          All-append _ _ _ (fee_entry-currency FeeCode.taxe currency e.taxes) (
            fee_entry-currency FeeCode.commission_alke currency
              (commission_for prorate o e.quantity currency))),
    ),
  )

  -- Every transaction that the order service posts, the reserve, the release, the fill of either
  -- side, the settlement and the release after a failed one, has a key, at least two entries, all in
  -- its currency, and amounts that sum to zero, whatever the amounts are.
  pub postings-IsBalanced :
      (o : Order) (e : Execution) (partner : ℕ) (currency : Text) (actor : Option ℕ)
      (remaining : Decimal)
      → IsBalanced (reserve_input o currency)
        × IsBalanced (release_input o currency actor remaining)
        × IsBalanced (buy_fill_input prorate o e partner currency actor)
        × IsBalanced (sell_fill_input o e partner currency actor)
        × IsBalanced (settlement_input o e currency actor)
        × IsBalanced (fail_release_input prorate o e currency actor)
  unfolding reserve_input release_input buy_fill_input sell_fill_input settlement_input
      fail_release_input
  postings-IsBalanced o e partner currency actor remaining = (
    record {
      keyed = λ k. cc;
      several = omega arith;
      in_currency = (refl, (refl, tt));
      zero_sum = neg_plus o.max_amount;
    },
    record {
      keyed = λ k. cc;
      several = omega arith;
      in_currency = (refl, (refl, tt));
      zero_sum = neg_plus remaining;
    },
    record {
      keyed = λ k. cc;
      several = buy_several o e partner currency;
      in_currency = buy_currency o e partner currency;
      zero_sum = buy_entries-zero o e partner currency;
    },
    record {
      keyed = λ k. cc;
      several = omega arith;
      in_currency = (refl, (refl, tt));
      zero_sum = neg_plus e.net_amount;
    },
    record {
      keyed = λ k. cc;
      several = omega arith;
      in_currency = (refl, (refl, tt));
      zero_sum = neg_plus e.net_amount;
    },
    record {
      keyed = λ k. cc;
      several = omega arith;
      in_currency = (refl, (refl, tt));
      zero_sum = neg_plus (buy_debit prorate o e currency);
    },
  )
