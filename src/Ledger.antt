-- ===== src/Ledger.antt =====
-- internal/ledger/ledger.go: the only place that builds ledger entries.
pub mod Balance
pub mod Builders
pub mod Accounts
use vaultnuban.Prelude.{String, List, [], ◌∷◌, Bool, if◌then◌else◌}
use vaultnuban.Prelude.Word.{Int64, le64, format_int64}
use vaultnuban.Prelude.Text.{concat}
use vaultnuban.Prelude.Action.{Error, Result, ok, err, message}
use vaultnuban.Domain.{
  LedgerEntry, debit, credit, customer_wallet_account, account_nomba_settlement, account_suspense,
}

-- The error of a non-positive amount, the same in every builder.
unfoldable pub not_positive : Int64 → Error
not_positive amount = message (concat "ledger: amount must be positive, got " (format_int64 amount))

-- DR nomba_settlement / CR customer_wallet
unfoldable pub credit_customer : String → String → Int64 → Result (List LedgerEntry)
credit_customer tx_id customer_id amount =
    if le64 amount 0
    then err (not_positive amount)
    else ok (
        record {
          transaction_id = tx_id;
          account = account_nomba_settlement;
          direction = debit;
          amount_kobo = amount;
        }
        ∷ record {
          transaction_id = tx_id;
          account = customer_wallet_account customer_id;
          direction = credit;
          amount_kobo = amount;
        }
        ∷ [])

-- DR nomba_settlement / CR suspense
unfoldable pub credit_suspense : String → Int64 → Result (List LedgerEntry)
credit_suspense tx_id amount =
    if le64 amount 0
    then err (not_positive amount)
    else ok (
        record {
          transaction_id = tx_id;
          account = account_nomba_settlement;
          direction = debit;
          amount_kobo = amount;
        }
        ∷ record {
          transaction_id = tx_id;
          account = account_suspense;
          direction = credit;
          amount_kobo = amount;
        }
        ∷ [])

-- DR customer_wallet / CR nomba_settlement
unfoldable pub reversal_entries : String → String → Int64 → Result (List LedgerEntry)
reversal_entries reversal_tx_id customer_id amount =
    if le64 amount 0
    then err (not_positive amount)
    else ok (
        record {
          transaction_id = reversal_tx_id;
          account = customer_wallet_account customer_id;
          direction = debit;
          amount_kobo = amount;
        }
        ∷ record {
          transaction_id = reversal_tx_id;
          account = account_nomba_settlement;
          direction = credit;
          amount_kobo = amount;
        }
        ∷ [])

-- DR suspense / CR nomba_settlement
unfoldable pub reversal_to_suspense : String → Int64 → Result (List LedgerEntry)
reversal_to_suspense reversal_tx_id amount =
    if le64 amount 0
    then err (not_positive amount)
    else ok (
        record {
          transaction_id = reversal_tx_id;
          account = account_suspense;
          direction = debit;
          amount_kobo = amount;
        }
        ∷ record {
          transaction_id = reversal_tx_id;
          account = account_nomba_settlement;
          direction = credit;
          amount_kobo = amount;
        }
        ∷ [])

-- DR customer_wallet / CR nomba_settlement
unfoldable pub withdraw_customer : String → String → Int64 → Result (List LedgerEntry)
withdraw_customer tx_id customer_id amount =
    if le64 amount 0
    then err (not_positive amount)
    else ok (
        record {
          transaction_id = tx_id;
          account = customer_wallet_account customer_id;
          direction = debit;
          amount_kobo = amount;
        }
        ∷ record {
          transaction_id = tx_id;
          account = account_nomba_settlement;
          direction = credit;
          amount_kobo = amount;
        }
        ∷ [])

-- DR suspense / CR customer_wallet
unfoldable pub suspense_to_customer : String → String → Int64 → Result (List LedgerEntry)
suspense_to_customer resolution_tx_id customer_id amount =
    if le64 amount 0
    then err (not_positive amount)
    else ok (
        record {
          transaction_id = resolution_tx_id;
          account = account_suspense;
          direction = debit;
          amount_kobo = amount;
        }
        ∷ record {
          transaction_id = resolution_tx_id;
          account = customer_wallet_account customer_id;
          direction = credit;
          amount_kobo = amount;
        }
        ∷ [])
