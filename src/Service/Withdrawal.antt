-- ===== src/Service/Withdrawal.antt =====
-- internal/service/withdrawal.go. The provider's calls are parameters, and so is `json.Marshal` on the
-- request, whose output goes to columns that no code reads back. `Initiate` is `check` and then
-- `pay`: between the two, another request may run. The withdrawal that Go returns beside an error is
-- left out: the handler drops it.
pub mod Payout
pub mod Race
use vaultnuban.Prelude.{String, List, Option, none, some, Bool, not, ◌==◌, ◌≡◌, refl, if◌then◌else◌}
use vaultnuban.Prelude.Word.{Int64, le64, lt64, format_int64}
use vaultnuban.Prelude.Text.{concat, str_eq}
use vaultnuban.Prelude.Action.{
  M, Result, ok, err, wrapped, error_text, validation_error, not_found_error, fail, pure, guard,
  of_result, or_wrap, attempt, ignoring, ◌>>=◌, ◌>>◌,
}
use vaultnuban.Domain.{
  Time, Bytes, Customer, VirtualAccount, Transaction, debit, posted, Withdrawal, WithdrawalStatus,
  processing, completed, customer_wallet_account,
}
use vaultnuban.Ledger.{withdraw_customer}
use vaultnuban.Provider.{TransferRequest, TransferResponse, AccountResolution}
use vaultnuban.Store.{WithdrawalStore, TransactionStore, CustomerStore, VirtualAccountStore}

pub record WithdrawalRequest : Type 0 where
  pub customer_id : String
  pub tenant_id : String
  pub amount_kobo : Int64
  pub destination_bank_code : String
  pub destination_account_number : String
  pub destination_account_name : String
  pub narration : String

-- `transfer` and `resolve` are calls of the provider.
pub record WithdrawalService (W : Type 0) : Type 0 where
  pub withdrawals : WithdrawalStore W
  pub txns : TransactionStore W
  pub customers : CustomerStore W
  pub accounts : VirtualAccountStore W
  pub transfer : TransferRequest → M W TransferResponse
  pub resolve : String → String → M W AccountResolution
  pub now : M W Time
  pub marshal : WithdrawalRequest → Bytes

-- `if va != nil { id := va.ID; vaID = &id }`, where an error counts as no account.
abbrev pub id_if_found : Result (Option VirtualAccount) → Option String
id_if_found (err _) = none
id_if_found (ok none) = none
id_if_found (ok (some va)) = some va.id

-- The id of the ledger's transaction.
abbrev pub withdrawal_tx_id : Withdrawal → String
withdrawal_tx_id w = concat "vn:wd:" w.id

abbrev pub transfer_request : WithdrawalRequest → Withdrawal → TransferRequest
transfer_request req w = record {
  amount_kobo = req.amount_kobo;
  destination_bank_code = req.destination_bank_code;
  destination_account_number = req.destination_account_number;
  destination_account_name = req.destination_account_name;
  narration = req.narration;
  reference = w.id;
}

abbrev pub insufficient : Int64 → Int64 → String
insufficient balance amount =
    concat "insufficient balance: have "
      (concat (format_int64 balance) (concat " kobo, need " (concat (format_int64 amount) " kobo")))

module _ {W : Type 0} (s : WithdrawalService W) where
  abbrev pub new_withdrawal : WithdrawalRequest → Option String → Withdrawal
  new_withdrawal req va_id = record {
    id = "";
    customer_id = req.customer_id;
    virtual_account_id = va_id;
    amount_kobo = req.amount_kobo;
    destination_bank_code = req.destination_bank_code;
    destination_account_number = req.destination_account_number;
    destination_account_name = req.destination_account_name;
    narration = req.narration;
    status = processing;
    provider_transaction_id = none;
    provider_session_id = none;
    failure_reason = none;
    raw = s.marshal req;
    created_at = 0;
    updated_at = 0;
  }

  abbrev pub withdrawal_tx : WithdrawalRequest → Option String → Withdrawal → Time → Transaction
  withdrawal_tx req va_id w now = record {
    id = withdrawal_tx_id w;
    virtual_account_id = va_id;
    session_id = none;
    amount_kobo = req.amount_kobo;
    direction = debit;
    source = "internal";
    status = posted;
    sender_name = none;
    sender_bank = none;
    narration = some req.narration;
    raw = s.marshal req;
    occurred_at = now;
    created_at = 0;
    nuban = "";
  }

  -- `err != nil || customer == nil`
  abbrev pub must_be_customer : String → Result (Option Customer) → M W (Unit {0})
  must_be_customer id (err _) = fail (not_found_error "customer" id)
  must_be_customer id (ok none) = fail (not_found_error "customer" id)
  must_be_customer id (ok (some _)) = pure tt

  -- The guards of `Initiate` on the request itself.
  unfoldable pub check_fields : WithdrawalRequest → M W (Unit {0})
  check_fields req = do
    guard (not (le64 req.amount_kobo 0)) (validation_error "amount_kobo" "must be positive")
    guard (not (str_eq req.destination_bank_code ""))
        (validation_error "destination_bank_code" "required")
    guard (not (str_eq req.destination_account_number ""))
        (validation_error "destination_account_number" "required")
    guard (not (str_eq req.destination_account_name ""))
        (validation_error "destination_account_name" "required")

  -- The guards of `Initiate` that read the stores. The result is the id of the active account.
  unfoldable pub check_funds : WithdrawalRequest → M W (Option String)
  check_funds req = do
    customer ← attempt (s.customers.get_customer req.tenant_id req.customer_id)
    must_be_customer req.customer_id customer
    balance ←
        or_wrap "withdrawal: get balance"
          (s.txns.get_balance (customer_wallet_account req.customer_id))
    guard (not (lt64 balance req.amount_kobo))
        (validation_error "amount_kobo" (insufficient balance req.amount_kobo))
    va ← attempt (s.accounts.get_active_va req.customer_id)
    pure (id_if_found va)

  -- `Initiate` up to the record of the withdrawal.
  unfoldable pub check : WithdrawalRequest → M W (Option String)
  check req = do check_fields req; check_funds req

  -- `Initiate` from the posting on.
  unfoldable pub book_transfer :
      WithdrawalRequest → Option String → Withdrawal → TransferResponse → M W Withdrawal
  book_transfer req va_id w resp = do
    entries ← of_result (withdraw_customer (withdrawal_tx_id w) req.customer_id req.amount_kobo)
    now ← s.now
    created ←
        or_wrap "withdrawal: post ledger"
          (s.txns.post_transaction (withdrawal_tx req va_id w now) entries)
    ignoring (
        s.withdrawals.update_withdrawal_status w.id completed (some resp.transaction_id)
          (some resp.session_id) none)
    pure (record w {
      status = completed;
      provider_transaction_id = some resp.transaction_id;
      provider_session_id = some resp.session_id;
    })

  -- `Initiate` once the provider has answered.
  unfoldable pub transferred :
      WithdrawalRequest → Option String → Withdrawal → Result TransferResponse → M W Withdrawal
  transferred req va_id w (err e) = do
    ignoring (
        s.withdrawals.update_withdrawal_status w.id WithdrawalStatus.failed none none
          (some (error_text e)))
    fail (wrapped "withdrawal: provider transfer" e)
  transferred req va_id w (ok resp) = book_transfer req va_id w resp

  -- `Initiate` from the record of the withdrawal on.
  unfoldable pub pay : WithdrawalRequest → Option String → M W Withdrawal
  pay req va_id = do
    w ←
        or_wrap "withdrawal: create record"
          (s.withdrawals.create_withdrawal (new_withdrawal req va_id))
    answer ← attempt (s.transfer (transfer_request req w))
    transferred req va_id w answer

  -- `Initiate`
  unfoldable pub initiate : WithdrawalRequest → M W Withdrawal
  initiate req = check req >>= pay req

  -- `ResolveAccount`
  abbrev pub resolve_account : String → String → M W AccountResolution
  resolve_account bank_code account_number =
      or_wrap "withdrawal: resolve account" (s.resolve bank_code account_number)
