-- ===== src/Domain/Request.antt =====
-- Withdrawals and collections of internal/domain/domain.go, and the status that each of them has.
use vaultnuban.Prelude.{String, Option, Bool, true, false}
use vaultnuban.Prelude.Word.{Int64}
use vaultnuban.Domain.Base.{Time, Bytes}

pub data WithdrawalStatus : Type 0 where
  pending processing completed failed : WithdrawalStatus

pub record Withdrawal : Type 0 where
  pub id : String
  pub customer_id : String
  pub virtual_account_id : Option String
  pub amount_kobo : Int64
  pub destination_bank_code : String
  pub destination_account_number : String
  pub destination_account_name : String
  pub narration : String
  pub status : WithdrawalStatus
  pub provider_transaction_id : Option String
  pub provider_session_id : Option String
  pub failure_reason : Option String
  pub raw : Bytes
  pub created_at : Time
  pub updated_at : Time

pub data CollectionStatus : Type 0 where
  open_collection fulfilled expired cancelled : CollectionStatus

-- `c.Status == "open"`
abbrev pub is_open_collection : CollectionStatus → Bool
is_open_collection open_collection = true
is_open_collection fulfilled = false
is_open_collection expired = false
is_open_collection cancelled = false

pub record Collection : Type 0 where
  pub id : String
  pub customer_id : String
  pub virtual_account_id : Option String
  pub expected_amount_kobo : Option Int64
  pub reference : String
  pub description : String
  pub status : CollectionStatus
  pub expires_at : Option Time
  pub fulfilled_by_txn_id : Option String
  pub fulfilled_at : Option Time
  pub created_at : Time
  pub updated_at : Time
  pub nuban : String
  pub bank_name : String
