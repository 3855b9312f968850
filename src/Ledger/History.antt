-- ===== src/Ledger/History.antt =====
-- Any history of calls on the ledger, beside other writers (src/modules/ledger/ledger.service.ts).
use alke_finance_backend.Base.{
  ℕ, ◌≡◌, refl, true, Option, none, List, [], ◌∷◌, All, Bool-cases, Option-cases, inl, inr, Result,
  ok, err, arith,
}
use alke_finance_backend.Ledger.Types.{reversal_of, PostTxnInput, Db}
use alke_finance_backend.Ledger.Store.{find_by_key, sum_of}
use alke_finance_backend.Ledger.Posting.{PostResult}
use alke_finance_backend.Ledger.Retry.{Rivals, Outcome, finish, post, reverse}
use alke_finance_backend.Ledger.Reversing.{reverse_in}
use alke_finance_backend.Ledger.Report.{verify_invariants, report_ok}
use alke_finance_backend.Ledger.Invariant.{Inv}
use alke_finance_backend.Ledger.Audit.{verify_invariants_ok}
use alke_finance_backend.Ledger.Calls.{Respects, post-Sound}
use alke_finance_backend.Ledger.Reversal.{reverse_in-Inv}

-- A call of the two writing operations of `LedgerPort`.
pub data Call : Type 0 where
  posting : PostTxnInput → Call
  reversing : ℕ → Option ℕ → Call

unfoldable pub run_call : Rivals → Call → Db → Outcome
run_call w (posting input) db = post w input db
run_call w (reversing id actor) db = reverse w id actor db

unfoldable pub run_calls : List (Rivals × Call) → Db → Db
run_calls [] db = db
run_calls ((w, c) ∷ cs) db = run_calls cs (run_call w c db).db

-- A fresh database.
abbrev pub empty_db : Db
empty_db = record { accounts = []; txns = []; entries = []; next_id = 0 }

-- The call leaves the guarded accounts to the default, as every caller in the backend does.
abbrev pub IsDefault : Call → Type 0
IsDefault (posting input) = input.enforce_non_negative ≡ none
IsDefault (reversing id actor) = Unit

finish-Inv :
    (db : Db) (res : Result (PostResult × Db))
    → Inv db
    → ((r : PostResult) (db' : Db) → res ≡ ok (r, db') → Inv db')
    → Inv (finish db res).db
unfolding finish
finish-Inv db (err e) inv h = inv
finish-Inv db (ok (r, db')) inv h = h r db' refl

reverse-Inv :
    (w : Rivals) (id : ℕ) (actor : Option ℕ) (db : Db)
    → Respects w
    → Inv db
    → Inv (reverse w id actor db).db
unfolding reverse
reverse-Inv w id actor db respects inv =
    let seen = respects 0 db inv in
    elim (Bool-cases (w.clash 0)) [
      | inr free ↦ rw free (
          finish-Inv (w.commit 0 db) (reverse_in id actor (w.commit 0 db)) seen
            (λ r db' h. reverse_in-Inv id actor (w.commit 0 db) seen h))
      | inl clash ↦ elim (Option-cases (find_by_key (reversal_of id) (w.commit 0 db))) [
        | inl absent ↦ rw (clash) (rw absent seen)
        | inr (t, found) ↦ rw (clash) (rw found seen)
      ]
    ]

pub empty-Inv : Inv empty_db
empty-Inv = record {
  accounts_inv = record {
    refs = tt;
    ids = tt;
    ids_below = tt;
    entries_below = tt;
    entries_known = tt;
    user_nonneg = tt;
  };
  balanced = λ t. unfold sum_of in refl;
  keys = λ k. omega arith;
}

run_call-Inv :
    (w : Rivals) (c : Call) (db : Db) → Respects w → IsDefault c → Inv db → Inv (run_call w c db).db
unfolding run_call
run_call-Inv w (posting input) db respects default inv =
    (post-Sound w input db respects default inv).inv
run_call-Inv w (reversing id actor) db respects default inv = reverse-Inv w id actor db respects inv

run_calls-Inv :
    (cs : List (Rivals × Call)) (db : Db)
    → All (λ c. Respects c.0 × IsDefault c.1) cs
    → Inv db
    → Inv (run_calls cs db)
unfolding run_calls
run_calls-Inv [] db ok_calls inv = inv
run_calls-Inv ((w, c) ∷ cs) db ok_calls inv =
    run_calls-Inv cs (run_call w c db).db ok_calls.1
      (run_call-Inv w c db ok_calls.0.0 ok_calls.0.1 inv)

-- After any sequence of reversals and of posts that leave `enforceNonNegative` to its default, on a
-- fresh database, each beside other writers that keep the invariant, `verifyInvariants` reports that
-- all is well.
pub run_calls_verified :
    (cs : List (Rivals × Call))
    → All (λ c. Respects c.0 × IsDefault c.1) cs
    → report_ok (verify_invariants (run_calls cs empty_db)) ≡ true
run_calls_verified cs h =
    verify_invariants_ok (run_calls cs empty_db) (run_calls-Inv cs empty_db h empty-Inv)
