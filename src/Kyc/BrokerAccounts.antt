-- ===== src/Kyc/BrokerAccounts.antt =====
-- Accounts at a broker: src/modules/kyc/broker-accounts.service.ts, with the rows of
-- MarketPartner and BrokerAccount. Dates, notes and audit rows are left out.
use alke_finance_backend.Base.{
  ℕ, ◌==◌, Bool, true, false, not, ◌&&◌, Option, none, some, List, [], ◌∷◌, find, Text, Result, ok,
  err, bad_request, not_found, ◌>>◌, throw_if, if◌then◌else◌,
}

pub data BrokerAccountState : Type 0 where
  requested opened suspended closed : BrokerAccountState

pub data PartnerAgreementStatus : Type 0 where
  prospect contacted meeting_scheduled in_discussion term_sheet signed active declined :
      PartnerAgreementStatus

pub record MarketPartner : Type 0 where
  pub id : ℕ
  pub market_id : ℕ
  pub agreement_status : PartnerAgreementStatus

pub record BrokerAccount : Type 0 where
  pub id : ℕ
  pub user_id : ℕ
  pub partner_id : ℕ
  pub external_account_no : Option Text
  pub state : BrokerAccountState

abbrev pub is_active : PartnerAgreementStatus → Bool
is_active active = true
is_active _ = false

abbrev pub is_opened : BrokerAccountState → Bool
is_opened opened = true
is_opened _ = false

abbrev pub is_closed : BrokerAccountState → Bool
is_closed closed = true
is_closed _ = false

-- `findUnique({ where: { userId_partnerId } })`
unfoldable pub account_of : ℕ → ℕ → List BrokerAccount → Option BrokerAccount
account_of user partner accounts =
    find (λ a. (a.user_id == user) && (a.partner_id == partner)) accounts

-- Whether an optional text is truthy.
abbrev pub is_given : Option Text → Bool
is_given none = false
is_given (some []) = false
is_given (some (c ∷ cs)) = true

-- `!account || account.state !== OPEN || !account.externalAccountNo`, denied.
unfoldable pub is_usable : Option BrokerAccount → Bool
is_usable none = false
is_usable (some a) = is_opened a.state && is_given a.external_account_no

-- `UpdateBrokerAccountDto`; a state other than OPEN and SUSPENDED is refused before.
pub data RequestedState : Type 0 where
  open_it suspend_it : RequestedState

abbrev pub or_else : Option Text → Option Text → Option Text
or_else none old = old
or_else (some t) old = some t

abbrev pub opens : Option RequestedState → Bool
opens none = false
opens (some open_it) = true
opens (some suspend_it) = false

abbrev pub state_after : Option RequestedState → BrokerAccountState → BrokerAccountState
state_after none old = old
state_after (some open_it) old = opened
state_after (some suspend_it) old = suspended

unfoldable pub update_account :
    ℕ → (BrokerAccount → BrokerAccount) → List BrokerAccount → List BrokerAccount
update_account id f [] = []
update_account id f (a ∷ accounts) = (if a.id == id then f a else a) ∷ update_account id f accounts

-- `update`
unfoldable pub update :
    ℕ → Option Text → Option RequestedState → List BrokerAccount → Result (List BrokerAccount)
update id number state accounts = elim (find (λ a. a.id == id) accounts) [
  | none ↦ err (not_found "Compte-titres introuvable.")
  | some before ↦ do
    throw_if (is_closed before.state) (bad_request "Ce compte-titres est clôturé.")
    throw_if (opens state && not (is_given (or_else number before.external_account_no)))
        (bad_request "Le numéro de compte SDB est requis pour ouvrir le compte-titres.")
    ok (
        update_account id
          (λ a. record a {
            external_account_no = or_else number a.external_account_no;
            state = state_after state a.state;
          })
          accounts)
]
