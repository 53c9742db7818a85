-- ===== src/Domain/Payment.antt =====
-- Transactions, ledger entries, statements and suspense items of internal/domain/domain.go.
use vaultnuban.Prelude.{String, Option, List, Bool, true, false}
use vaultnuban.Prelude.Word.{Int64}
use vaultnuban.Prelude.Text.{concat}
use vaultnuban.Domain.Base.{Time, Bytes}

pub data Direction : Type 0 where
  debit credit : Direction

-- `direction == "credit"`
abbrev pub is_credit : Direction → Bool
is_credit debit = false
is_credit credit = true

pub data TxStatus : Type 0 where
  posted reversed pending : TxStatus

pub record Transaction : Type 0 where
  pub id : String
  pub virtual_account_id : Option String
  pub session_id : Option String
  pub amount_kobo : Int64
  pub direction : Direction
  pub source : String
  pub status : TxStatus
  pub sender_name : Option String
  pub sender_bank : Option String
  pub narration : Option String
  pub raw : Bytes
  pub occurred_at : Time
  pub created_at : Time
  pub nuban : String

pub record LedgerEntry : Type 0 where
  pub transaction_id : String
  pub account : String
  pub direction : Direction
  pub amount_kobo : Int64

unfoldable pub customer_wallet_account : String → String
customer_wallet_account customer_id = concat "customer_wallet:" customer_id

abbrev pub account_nomba_settlement : String
account_nomba_settlement = "nomba_settlement"

abbrev pub account_suspense : String
account_suspense = "suspense"

abbrev pub account_fee_income : String
account_fee_income = "fee_income"

pub record StatementEntry : Type 0 where
  pub occurred_at : Time
  pub description : String
  pub debit_kobo : Int64
  pub credit_kobo : Int64
  pub running_balance : Int64

pub record Statement : Type 0 where
  pub opening_balance_kobo : Int64
  pub closing_balance_kobo : Int64
  pub from : Time
  pub to : Time
  pub entries : List StatementEntry

pub data SuspenseReason : Type 0 where
  unmatched closed_account suspended_account amount_mismatch tier_limit : SuspenseReason

pub data SuspenseStatus : Type 0 where
  open_item reassigned refund_flagged : SuspenseStatus

-- `status == "open"`
abbrev pub is_open : SuspenseStatus → Bool
is_open open_item = true
is_open reassigned = false
is_open refund_flagged = false

-- `reason == "unmatched"`
abbrev pub is_unmatched : SuspenseReason → Bool
is_unmatched unmatched = true
is_unmatched closed_account = false
is_unmatched suspended_account = false
is_unmatched amount_mismatch = false
is_unmatched tier_limit = false

pub record SuspenseItem : Type 0 where
  pub id : String
  pub transaction_id : String
  pub reason : SuspenseReason
  pub status : SuspenseStatus
  pub resolved_by : Option String
  pub resolved_at : Option Time
  pub notes : Option String
  pub created_at : Time
  pub amount_kobo : Int64
  pub nuban : String
