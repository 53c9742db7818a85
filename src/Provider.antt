-- ===== src/Provider.antt =====
-- internal/provider/provider.go: what the payment provider reports. The provider itself (the Nomba
-- API) is not under this repository's control and enters as parameters.
use vaultnuban.Prelude.{String, List}
use vaultnuban.Prelude.Word.{Int64}
use vaultnuban.Domain.{Time, Bytes}

pub record ProviderTransaction : Type 0 where
  pub transaction_id : String
  pub session_id : String
  pub account_number : String
  pub account_ref : String
  pub amount_kobo : Int64
  pub kind : String  -- `Type`
  pub status : String
  pub sender_name : String
  pub sender_bank : String
  pub narration : String
  pub occurred_at : Time
  pub raw : Bytes

pub record ListTransactionsRequest : Type 0 where
  pub date_from : Time
  pub date_to : Time
  pub cursor : String
  pub page_size : Int64
  pub virtual_account : String

pub record TransactionPage : Type 0 where
  pub transactions : List ProviderTransaction
  pub next_cursor : String

pub record WebhookPayload : Type 0 where
  pub event_type : String
  pub transaction : ProviderTransaction
  pub raw : Bytes

pub record TransferRequest : Type 0 where
  pub amount_kobo : Int64
  pub destination_bank_code : String
  pub destination_account_number : String
  pub destination_account_name : String
  pub narration : String
  pub reference : String

pub record TransferResponse : Type 0 where
  pub transaction_id : String
  pub session_id : String
  pub status : String

pub record AccountResolution : Type 0 where
  pub account_name : String
  pub account_number : String
  pub bank_code : String

pub record CreateVaRequest : Type 0 where
  pub account_ref : String
  pub account_name : String
  pub bvn : String

pub record VaResponse : Type 0 where
  pub account_ref : String
  pub nuban : String
  pub bank_name : String
  pub account_name : String
  pub account_holder_id : String
