-- ===== src/Service/Withdrawal/Payout.antt =====
-- Withdrawals of internal/service/withdrawal.go over the stores of internal/store/memstore. The store
-- of the withdrawals themselves and the provider's calls are left open.
use vaultnuban.Prelude.{
  String, List, Option, none, some, Bool, true, false, not, ◌&&◌, ◌≡◌, refl, sym, ap, ◌∙◌, inl, inr,
  arith, if◌then◌else◌, Bool-cases, find?,
}
use vaultnuban.Prelude.Word.{Int64, IsInt64, le64, lt64, add64, sub64}
use vaultnuban.Prelude.Text.{str_eq}
use vaultnuban.Prelude.Dict.{lookup, values}
use vaultnuban.Prelude.Action.{
  ignoring, pure, ◌>>◌, M, Result, ok, err, or_wrap, attempt, error_text, ignoring, pure, ◌>>◌,
  >>=-ok, ◌>>=◌,
}
use vaultnuban.Domain.{
  Bytes, LedgerEntry, Customer, status_eq, active, is_nil, Withdrawal, WithdrawalStatus, completed,
  customer_wallet_account, account_nomba_settlement,
}
use vaultnuban.Ledger.{withdraw_customer}
use vaultnuban.Ledger.Balance.{pair, moved, net_of-pair, balance_of-pair, moved_from}
use vaultnuban.Ledger.Accounts.{wallet-ne-settlement}
use vaultnuban.Provider.{TransferRequest, TransferResponse, AccountResolution}
use vaultnuban.Store.{WithdrawalStore}
use vaultnuban.Memstore.World.{World, mem_txns, mem_customers, mem_accounts, mem_now}
use vaultnuban.Memstore.Customers.{get_customer, visible_to}
use vaultnuban.Memstore.Accounts.{get_active_va}
use vaultnuban.Memstore.Transactions.{TransactionStore, post_transaction, get_balance}
use vaultnuban.Memstore.Transactions.Post.{
  is_posted, balance, extended, post-extended, balance-extended, balance-IsInt64,
}
use vaultnuban.Service.Withdrawal.{
  WithdrawalService, WithdrawalRequest, withdrawal_tx, withdrawal_tx_id, new_withdrawal,
  transfer_request, check_fields, check_funds, check, book_transfer, transferred, pay, initiate,
}

-- `err == nil`
abbrev pub succeeded : {A : Type 0} → Result A → Bool
succeeded (ok _) = true
succeeded (err _) = false

-- The calls that the service is given besides the stores.
pub record Outside : Type 0 where
  pub withdrawals : WithdrawalStore World
  pub transfer : TransferRequest → M World TransferResponse
  pub resolve : String → String → M World AccountResolution
  pub marshal : WithdrawalRequest → Bytes

abbrev pub mem_withdrawal_service : Outside → WithdrawalService World
mem_withdrawal_service o = record {
  withdrawals = o.withdrawals;
  txns = mem_txns;
  customers = mem_customers;
  accounts = mem_accounts;
  transfer = o.transfer;
  resolve = o.resolve;
  now = mem_now;
  marshal = o.marshal;
}

-- The customer that a tenant sees under an id.
abbrev pub seen_customer : String → String → World → Option Customer
seen_customer tenant_id id w = elim (lookup id w.customers.customers) [
  | none ↦ none
  | some c ↦ visible_to tenant_id c
]

-- A request that is complete, of a customer that the tenant sees and whose wallet holds the amount.
abbrev pub is_complete : WithdrawalRequest → Bool
is_complete req =
    not (le64 req.amount_kobo 0)
    && not (str_eq req.destination_bank_code "")
    && not (str_eq req.destination_account_number "")
    && not (str_eq req.destination_account_name "")

abbrev pub is_covered : WithdrawalRequest → World → Bool
is_covered req w =
    not (lt64 (balance (customer_wallet_account req.customer_id) w.txns) req.amount_kobo)

unfoldable pub may_withdraw : WithdrawalRequest → World → Bool
may_withdraw req w =
    is_complete req
    && not (is_nil (seen_customer req.tenant_id req.customer_id w))
    && is_covered req w

-- The id of the customer's active account, for the record.
abbrev pub account_id : WithdrawalRequest → World → Option String
account_id req w =
    elim (find? (λ va. str_eq va.customer_id req.customer_id && status_eq va.status active)
      (w.accounts.range_order (values w.accounts.accounts))) [ none ↦ none | some va ↦ some va.id ]

module _ (o : Outside) (req : WithdrawalRequest) (w : World) where
  abbrev sv : WithdrawalService World
  sv = mem_withdrawal_service o

  pub check-may : may_withdraw req w ≡ true → check sv req w ≡ (ok (account_id req w), w)
  unfolding check check_fields check_funds may_withdraw get_customer get_active_va get_balance
      balance
  check-may h = ground arith

  check-refused :
      may_withdraw req w ≡ false → (succeeded (check sv req w).0 ≡ false) × ((check sv req w).1 ≡ w)
  unfolding check check_fields check_funds may_withdraw get_customer get_active_va get_balance
      balance
  check-refused h = ground arith

  -- A failed check ends the request.
  refused :
      may_withdraw req w ≡ false
      → (succeeded (initiate sv req w).0 ≡ false) × ((initiate sv req w).1 ≡ w)
  unfolding initiate
  refused h = go (check sv req w) (check-refused h)
    where
      go :
          (q : Result (Option String) × World)
          → (succeeded q.0 ≡ false) × (q.1 ≡ w)
          → (succeeded (◌>>=◌ (λ (_ : World). q) (pay sv req) w).0 ≡ false)
            × ((◌>>=◌ (λ (_ : World). q) (pay sv req) w).1 ≡ w)
      go (ok a, w') p = cc
      go (err e, w') p = p

  passed : may_withdraw req w ≡ true → initiate sv req w ≡ pay sv req (account_id req w) w
  unfolding initiate
  passed h = >>=-ok (check sv req) (pay sv req) w (check-may h)

-- The call that makes the record of the withdrawal.
abbrev pub recorded : Outside → WithdrawalRequest → World → Result Withdrawal × World
recorded o req w =
    o.withdrawals.create_withdrawal
      (new_withdrawal (mem_withdrawal_service o) req (account_id req w)) w

-- The store took the record, and the provider answered without an error.
abbrev pub answered : Outside → WithdrawalRequest → Result Withdrawal × World → Bool
answered o req (ok wd, w) = succeeded (o.transfer (transfer_request req wd) w).0
answered o req (err e, w) = false

-- What is left of an amount that covers another is not negative.
pub still_solvent :
    (b amount : Int64)
    → IsInt64 b
    → IsInt64 amount
    → lt64 b 0 ≡ false
    → lt64 b amount ≡ false
    → le64 amount 0 ≡ false
    → lt64 (sub64 b amount) 0 ≡ false
unfolding sub64
still_solvent b amount hb ha solvent covered positive = ground arith

-- What a payout may end in: an error and no change of the ledger, or a completed withdrawal whose
-- amount has moved from the wallet to the settlement account.
abbrev pub Paid : WithdrawalRequest → World → Result Withdrawal × World → Type 0
Paid req w (err e, w') = w'.txns ≡ w.txns
Paid req w (ok wd, w') =
    (wd.status ≡ completed)
    × ((account : String)
        → balance account w'.txns
          ≡ add64 (balance account w.txns) (
              moved (customer_wallet_account req.customer_id) account_nomba_settlement
                req.amount_kobo account))

-- The store gives an id for which the ledger has no transaction.
abbrev pub IsFresh : World → Result Withdrawal → Type 0
IsFresh w (ok wd) = is_posted (withdrawal_tx_id wd) w.txns ≡ false
IsFresh w (err e) = Unit {0}

-- A call that leaves the ledger alone.
abbrev pub KeepsTxns : {A : Type 0} → M World A → Type 0
KeepsTxns m = (w : World) → (m w).1.txns ≡ w.txns

abbrev pub LeavesLedger : Outside → Type 0
LeavesLedger o =
    ((wd : Withdrawal) → KeepsTxns (o.withdrawals.create_withdrawal wd))
    × ((id : String) (status : WithdrawalStatus) (tx session reason : Option String)
        → KeepsTxns (o.withdrawals.update_withdrawal_status id status tx session reason))
    × ((request : TransferRequest) → KeepsTxns (o.transfer request))

posted-lookup :
    (id : String) (w : World) → is_posted id w.txns ≡ false → lookup id w.txns.txns ≡ none
posted-lookup id w h = ground arith

module _ (o : Outside) (req : WithdrawalRequest) (fits : IsInt64 req.amount_kobo)
    (leaves : LeavesLedger o) where
  abbrev service : WithdrawalService World
  service = mem_withdrawal_service o

  abbrev lines : Withdrawal → List LedgerEntry
  lines wd =
      pair (withdrawal_tx_id wd) (customer_wallet_account req.customer_id) account_nomba_settlement
        req.amount_kobo

  -- The world with the posting of a withdrawal.
  abbrev booked : Option String → Withdrawal → World → World
  booked va_id wd w = record w {
    txns = extended w.clock (withdrawal_tx service req va_id wd w.clock) (lines wd) w.txns;
  }

  posts :
      (va_id : Option String) (wd : Withdrawal) (w : World)
      → is_posted (withdrawal_tx_id wd) w.txns ≡ false
      → post_transaction w.clock (withdrawal_tx service req va_id wd w.clock) (lines wd) w.txns
        ≡ (ok true, (booked va_id wd w).txns)
  posts va_id wd w fresh =
      post-extended w.clock (withdrawal_tx service req va_id wd w.clock) (lines wd) w.txns
        (posted-lookup (withdrawal_tx_id wd) w fresh)
        (net_of-pair (withdrawal_tx_id wd) (customer_wallet_account req.customer_id)
          account_nomba_settlement req.amount_kobo)

  abbrev completion : Withdrawal → TransferResponse → Withdrawal
  completion wd resp = record wd {
    status = completed;
    provider_transaction_id = some resp.transaction_id;
    provider_session_id = some resp.session_id;
  }

  -- What follows the posting.
  abbrev closing :
      Withdrawal
      → TransferResponse
      → World
      → Result Bool × TransactionStore
      → Result Withdrawal × World
  closing wd resp w q =
      ◌>>=◌ (or_wrap "withdrawal: post ledger" (λ (v : World). (q.0, record v { txns = q.1 })))
        (λ _.
          ignoring (
            o.withdrawals.update_withdrawal_status wd.id completed (some resp.transaction_id)
              (some resp.session_id) none)
          >> pure (completion wd resp))
        w

  book_step :
      (va_id : Option String) (wd : Withdrawal) (resp : TransferResponse) (w : World)
      → le64 req.amount_kobo 0 ≡ false
      → is_posted (withdrawal_tx_id wd) w.txns ≡ false
      → book_transfer service req va_id wd resp w
        ≡ closing wd resp w (ok true, (booked va_id wd w).txns)
  unfolding book_transfer withdraw_customer
  book_step va_id wd resp w positive fresh =
      rw positive (ap (closing wd resp w) (posts va_id wd w fresh))

  book-Paid :
      (va_id : Option String) (wd : Withdrawal) (resp : TransferResponse) (w w' : World)
      → le64 req.amount_kobo 0 ≡ false
      → is_posted (withdrawal_tx_id wd) w.txns ≡ false
      → w'.txns ≡ w.txns
      → Paid req w (book_transfer service req va_id wd resp w')
  book-Paid va_id wd resp w w' positive fresh same =
      rw (book_step va_id wd resp w' positive (rw same fresh)) (
        refl,
        λ account.
            ap (balance account) (
              leaves.1 wd.id completed (some resp.transaction_id) (some resp.session_id) none
                (booked va_id wd w'))
            ∙ balance-extended account w'.clock (withdrawal_tx service req va_id wd w'.clock)
                (lines wd) w'.txns
            ∙ (λ i. add64 (balance account (same i)) (
                balance_of-pair (withdrawal_tx_id wd) (customer_wallet_account req.customer_id)
                  account_nomba_settlement req.amount_kobo fits account i)),
      )

  transferred-Paid :
      (va_id : Option String) (wd : Withdrawal) (w : World) (q : Result TransferResponse × World)
      → le64 req.amount_kobo 0 ≡ false
      → is_posted (withdrawal_tx_id wd) w.txns ≡ false
      → q.1.txns ≡ w.txns
      → Paid req w (transferred service req va_id wd q.0 q.1)
  unfolding transferred
  transferred-Paid va_id wd w (ok resp, w') positive fresh same =
      book-Paid va_id wd resp w w' positive fresh same
  transferred-Paid va_id wd w (err e, w') positive fresh same =
      leaves.1 wd.id WithdrawalStatus.failed none none (some (error_text e)) w' ∙ same

  created-Paid :
      (va_id : Option String) (w : World) (q : Result Withdrawal × World)
      → le64 req.amount_kobo 0 ≡ false
      → IsFresh w q.0
      → q.1.txns ≡ w.txns
      → Paid req w (
          ◌>>=◌
            (or_wrap "withdrawal: create record" (λ (_ : World). q))
            (λ wd.
              attempt (o.transfer (transfer_request req wd)) >>= transferred service req va_id wd)
            w)
  created-Paid va_id w (err e, w') positive fresh same = same
  created-Paid va_id w (ok wd, w') positive fresh same =
      transferred-Paid va_id wd w (o.transfer (transfer_request req wd) w') positive fresh
        (leaves.2 (transfer_request req wd) w' ∙ same)

  pub pay-Paid :
      (va_id : Option String) (w : World)
      → le64 req.amount_kobo 0 ≡ false
      → IsFresh w (o.withdrawals.create_withdrawal (new_withdrawal service req va_id) w).0
      → Paid req w (pay service req va_id w)
  unfolding pay
  pay-Paid va_id w positive fresh =
      created-Paid va_id w (o.withdrawals.create_withdrawal (new_withdrawal service req va_id) w)
        positive fresh (leaves.0 (new_withdrawal service req va_id) w)

  transferred-succeeded :
      (va_id : Option String) (wd : Withdrawal) (w : World) (q : Result TransferResponse × World)
      → le64 req.amount_kobo 0 ≡ false
      → is_posted (withdrawal_tx_id wd) w.txns ≡ false
      → q.1.txns ≡ w.txns
      → succeeded (transferred service req va_id wd q.0 q.1).0 ≡ succeeded q.0
  unfolding transferred
  transferred-succeeded va_id wd w (ok resp, w') positive fresh same =
      ap (λ q. succeeded q.0) (book_step va_id wd resp w' positive (rw same fresh))
  transferred-succeeded va_id wd w (err e, w') positive fresh same = refl

  created-succeeded :
      (va_id : Option String) (w : World) (q : Result Withdrawal × World)
      → le64 req.amount_kobo 0 ≡ false
      → IsFresh w q.0
      → q.1.txns ≡ w.txns
      → succeeded
          (◌>>=◌
            (or_wrap "withdrawal: create record" (λ (_ : World). q))
            (λ wd.
              attempt (o.transfer (transfer_request req wd)) >>= transferred service req va_id wd)
            w).0
        ≡ answered o req q
  created-succeeded va_id w (err e, w') positive fresh same = refl
  created-succeeded va_id w (ok wd, w') positive fresh same =
      transferred-succeeded va_id wd w (o.transfer (transfer_request req wd) w') positive fresh
        (leaves.2 (transfer_request req wd) w' ∙ same)

  pub may-covered :
      (w : World)
      → may_withdraw req w ≡ true
      → lt64 (balance (customer_wallet_account req.customer_id) w.txns) req.amount_kobo ≡ false
  unfolding may_withdraw
  may-covered w h = ground arith

  pub may-positive : (w : World) → may_withdraw req w ≡ true → le64 req.amount_kobo 0 ≡ false
  unfolding may_withdraw
  may-positive w h = ground arith

  -- `Initiate` for an int64 amount, over the in-memory stores of customers, accounts and transactions,
  -- where the store of withdrawals and the provider leave the ledger alone and the id of a new record is not in the ledger: it succeeds exactly if the request is
  -- complete, the tenant sees the customer, the wallet holds the amount, the record is taken and the
  -- provider answers without an error. If one of the first three fails, nothing changes at all; an
  -- error after them leaves the ledger as it was, and success moves the amount from the wallet to the
  -- settlement account, with no other balance changed.
  pub initiate_outcome :
      (w : World)
      → IsFresh w (recorded o req w).0
      → let q = initiate (mem_withdrawal_service o) req w in
        (succeeded q.0 ≡ may_withdraw req w && answered o req (recorded o req w))
        × (if may_withdraw req w then Paid req w q else (q.1 ≡ w))
  unfolding pay
  initiate_outcome w fresh = elim (Bool-cases (may_withdraw req w)) [
    | inl may ↦
        let alone = leaves.0 (new_withdrawal service req (account_id req w)) w in
        rw (may, passed o req w may)
          (
            created-succeeded (account_id req w) w (recorded o req w) (may-positive w may) fresh
                alone,
            created-Paid (account_id req w) w (recorded o req w) (may-positive w may) fresh alone,
          )
    | inr not_may ↦ rw not_may (refused o req w not_may)
  ]

  covered_after :
      (w : World) (q : Result Withdrawal × World)
      → may_withdraw req w ≡ true
      → lt64 (balance (customer_wallet_account req.customer_id) w.txns) 0 ≡ false
      → Paid req w q
      → lt64 (balance (customer_wallet_account req.customer_id) q.1.txns) 0 ≡ false
  covered_after w (err e, w') may solvent paid = rw paid solvent
  covered_after w (ok wd, w') may solvent paid =
      let wallet = customer_wallet_account req.customer_id in
      let b = balance wallet w.txns in
      let debited : balance wallet w'.txns ≡ sub64 b req.amount_kobo =
        paid.1 wallet
        ∙ moved_from account_nomba_settlement req.amount_kobo b wallet
            (λ p. wallet-ne-settlement req.customer_id (sym p)) in
      rw debited (
        still_solvent b req.amount_kobo (balance-IsInt64 wallet w.txns) fits solvent
          (may-covered w may) (may-positive w may))

  -- `Initiate` for an int64 amount, over the in-memory stores of customers, accounts and transactions,
  -- where the store of withdrawals and the provider leave the ledger alone and the id of a new record is
  -- not in the ledger: if the customer's wallet is not below zero before the call, it is not below zero
  -- after it, where nothing else runs in between.
  pub initiate-covered :
      (w : World)
      → lt64 (balance (customer_wallet_account req.customer_id) w.txns) 0 ≡ false
      → IsFresh w (recorded o req w).0
      → let w' = (initiate (mem_withdrawal_service o) req w).1 in
        lt64 (balance (customer_wallet_account req.customer_id) w'.txns) 0 ≡ false
  initiate-covered w solvent fresh = elim (Bool-cases (may_withdraw req w)) [
    | inl may ↦
        covered_after w (initiate service req w) may solvent
          (rw may at (initiate_outcome w fresh).1)
    | inr not_may ↦ rw (refused o req w not_may).1 solvent
  ]
