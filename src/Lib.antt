-- ===== src/Lib.antt =====
-- Verification of the Alke Finance backend (NestJS, Prisma, Postgres): its money arithmetic, its
-- double-entry ledger, the brokerage's orders and their postings, its exchange of files with the
-- broker, the market calendar, payments, the daily reconciliation, compliance, identity files, the
-- approval of sensitive actions by a second person, and the eligibility rules.
--
-- Paths are from the repository's root.
--
-- * Money (src/common/money.ts). A `Prisma.Decimal` is an integer number of ten-thousandths, the
--   finest scale of a money column (NUMERIC(18, 4)); sums and comparisons are exact. `round_money`
--   is `roundMoney` (half away from zero, to the currency's minor unit).
-- * Ledger (src/modules/ledger/ledger.service.ts, ledger.types.ts, prisma/schema.prisma).
--   Ledger/Types has the rows and inputs, Ledger/Store the queries, Ledger/Posting `normalise` and
--   `postIn`, Ledger/Reversing the body of `reverse`, Ledger/Retry `post` and `reverse` with their
--   retries and events, Ledger/Report `balance`'s listings, `verifyInvariants` and `mirrorTotal`.
--   A handler is a function from the tables (`Db`) to a result or an error and the new tables; a
--   transaction that throws leaves the tables as they were. The row locks of `postIn` make its body
--   run alone, so one call is one step, and what others commit between two attempts of `post` is a
--   parameter (`Rivals`) that may be anything which keeps the invariant. `post` makes three
--   attempts, the source's bound, counted down in `post_from`.
--   The proofs: Ledger/Sums, Resolving and Effect are about the write; Invariant has the invariant
--   of the tables, Soundness what one `postIn` does to it, Calls what `post` promises, Reversal and
--   Repeated the same for `reverse`, Audit the report, History any sequence of calls.
-- * Brokerage/OrderState (src/modules/brokerage/order-state.ts): the transition table and `applyFill`;
--   Graph and Fills have the proofs. decimal.js's division is a parameter.
-- * Brokerage/OrderLedger (src/modules/brokerage/order-ledger.service.ts, brokerage.keys.ts,
--   fees-json.ts): the postings of an order on the ledger, each a call of `post_within`, and the
--   updates of positions (OrderLedger/Positions). Balanced is about the entries, Reserve about the
--   reserve of a purchase, Bounds about reserved shares.
-- * Brokerage/Settlement (src/modules/brokerage/settlement.service.ts): the transaction of `settleDue`
--   for one execution, and `failSettlement`.
-- * Brokerage/TradingDays (src/modules/brokerage/trading-days.ts): the calendar and the sessions of an
--   order. The loop that skips closed days has fuel 2, the length of a weekend. What Intl reads off an
--   instant is a parameter.
-- * Brokerage/Csv (src/modules/brokerage/connectors/csv.ts, connector.types.ts): `parseCsv`, `toCsv`,
--   and in Csv/Formats the five kinds of files. Csv/Split and Rows take a written file apart again,
--   RoundTrip joins them.
-- * Brokerage/Batches (src/modules/brokerage/batches.service.ts): Building and Withdrawals make the
--   batches, Acks and Fills read the broker's answers, Expiry is `expireStale`. The id of a new row
--   is an argument, as the database draws it; ids are printed by a parameter. An error ends a loop,
--   and what the turns before it committed is not in the result. FillsOnce and FillsAgain are about
--   the references of executions.
-- * Brokerage/Orders (src/modules/brokerage/orders.service.ts): Placing has `quote` and `placeOrder`,
--   with the checks of Policy/Facts, the fees of Fees and the reserves of OrderLedger; Changing has
--   `cancel` and the review of an order, where what others commit between the read of a row and the
--   transaction is an argument; CancelOnce is about cancellations.
-- * Kyc (src/modules/kyc/kyc.service.ts, kyc.types.ts, broker-accounts.service.ts): Cases has the rows
--   and queries, Opening and Submitting the user's side, Deciding the decisions, BrokerAccounts the
--   accounts at a broker. The answer of the identity provider is an argument.
-- * Reconciliation (src/modules/reconciliation/reconciliation.service.ts): the items, and in Daily the
--   reading of a statement against the intents and the ledger. The turns of a run are those of the
--   loop, with what rivals commit during a posting as an argument. Told is about what
--   a run tells of each line, with the lists of Tellings and what Open and Paid say of the tables.
-- * Compliance (src/modules/compliance/compliance.service.ts): the alerts and the handlers of events;
--   Cases has the cases, their notes and decisions. `try_open` counts the five attempts down; the
--   order of references in the database and what others commit in between are arguments. OneOpen is
--   about open alerts.
-- * Approvals (src/modules/approvals/approvals.service.ts, approvals.types.ts): `request`, `approve`
--   and `reject`. What other requests commit between the tests of a call and its claim is a parameter
--   of the call, and the executors are another.
-- * Payments (src/modules/payments/payments.service.ts): the life of a payment intent and its postings,
--   each a call of `post`. Payments/Deposits has `createDeposit`, with what others commit during the
--   provider's call as an argument. Payments/Credit is about a confirmed deposit, Payments/Safety
--   about the ledger under the operations on intents that exist and under withdrawal requests. What
--   a provider answers is a parameter.
-- * Policy (src/modules/policy/policy.rules.ts): the eligibility rules; Policy/Rules says whom they
--   let through, Policy/Facts (policy.service.ts) loads what they read.
-- * Fees (src/modules/fees/fees.service.ts): the active schedule and the fee lines of an order.
-- * Otp (src/modules/auth/otp.service.ts): one-time passwords; the hash is a parameter.
-- * Base has the shared tests, integers, lists and the errors that handlers throw.
--
-- Not modelled: the texts that a row only stores (description, metadata, source), timestamps, the
-- precision of decimal.js beyond four places, `userStatement` and `userCurrencies`, accounts and
-- sessions, markets and portfolio, and the framework around the services.
pub mod Base
pub mod Money
pub mod Ledger
pub mod Brokerage
pub mod Approvals
pub mod Compliance
pub mod Fees
pub mod Kyc
pub mod Otp
pub mod Payments
pub mod Policy
pub mod Reconciliation
