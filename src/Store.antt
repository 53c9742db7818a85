-- ===== src/Store.antt =====
-- internal/store/store.go: the interfaces through which services and workers reach the stores.
-- `W` is the state that the stores work on; the context argument is left out.
use vaultnuban.Prelude.{String, List, Option, Bool}
use vaultnuban.Prelude.Word.{Int64}
use vaultnuban.Prelude.Action.{M}
use vaultnuban.Domain.{
  Time, Customer, IdentityInput, VirtualAccount, VaStatus, Transaction, LedgerEntry, WebhookEvent,
  SuspenseItem, SuspenseStatus, SweepRun, AuditEntry, RelayEndpoint, RelayDelivery, Withdrawal,
  WithdrawalStatus, Collection,
}

pub record CustomerStore (W : Type 0) : Type 0 where
  pub create_customer : String → String → String → IdentityInput → M W Customer
  pub get_customer : String → String → M W (Option Customer)
  pub get_customer_by_external_ref : String → String → M W (Option Customer)
  pub update_kyc_tier : String → Int64 → M W (Unit {0})
  pub get_customer_by_id : String → M W (Option Customer)

pub record VirtualAccountStore (W : Type 0) : Type 0 where
  pub create_virtual_account : VirtualAccount → M W VirtualAccount
  pub get_active_va : String → M W (Option VirtualAccount)
  pub get_latest_va : String → M W (Option VirtualAccount)
  pub get_va_by_nuban : String → M W (Option VirtualAccount)
  pub get_va_by_account_ref : String → M W (Option VirtualAccount)
  pub get_va_by_customer_and_status : String → VaStatus → M W (Option VirtualAccount)
  pub update_va_status : String → VaStatus → M W (Unit {0})
  pub rename_va : String → String → M W (Unit {0})

pub record TransactionStore (W : Type 0) : Type 0 where
  pub post_transaction : Transaction → List LedgerEntry → M W Bool
  pub get_transaction : String → M W (Option Transaction)
  pub get_balance : String → M W Int64
  pub get_daily_credits : String → Time → M W Int64

pub record WebhookEventStore (W : Type 0) : Type 0 where
  pub insert_webhook_event : WebhookEvent → M W (Bool × WebhookEvent)
  pub mark_webhook_processed : String → String → M W (Unit {0})

pub record SuspenseStore (W : Type 0) : Type 0 where
  pub create_suspense_item : SuspenseItem → M W (Unit {0})
  pub resolve_suspense_item : String → SuspenseStatus → String → String → M W (Unit {0})
  pub get_suspense_item : String → M W (Option SuspenseItem)
  pub list_open_unmatched_items : Int64 → M W (List SuspenseItem)

pub record SweepStore (W : Type 0) : Type 0 where
  pub create_sweep_run : SweepRun → M W (Unit {0})
  pub get_last_sweep_time : M W Time
  pub list_sweep_runs : Int64 → M W (List SweepRun)

pub record AuditStore (W : Type 0) : Type 0 where
  pub append : AuditEntry → M W (Unit {0})

pub record RelayStore (W : Type 0) : Type 0 where
  pub create_endpoint : RelayEndpoint → M W RelayEndpoint
  pub list_endpoints : String → M W (List RelayEndpoint)
  pub get_endpoint : String → M W (Option RelayEndpoint)
  pub deactivate_endpoint : String → String → M W (Unit {0})
  pub create_delivery : RelayDelivery → M W (Unit {0})
  pub update_delivery : RelayDelivery → M W (Unit {0})
  pub get_delivery : String → M W (Option RelayDelivery)
  pub list_deliveries : String → Int64 → M W (List RelayDelivery)
  pub list_pending_retries : Int64 → M W (List RelayDelivery)

-- A call that is given a pointer to a new record returns the record as it leaves it: with an id.
pub record CollectionStore (W : Type 0) : Type 0 where
  pub create_collection : Collection → M W Collection
  pub get_collection : String → M W (Option Collection)
  pub fulfill_collection : String → String → M W (Unit {0})
  pub cancel_collection : String → M W (Unit {0})
  pub find_open_collection_for_va : String → Int64 → M W (Option Collection)

pub record WithdrawalStore (W : Type 0) : Type 0 where
  pub create_withdrawal : Withdrawal → M W Withdrawal
  pub get_withdrawal : String → M W (Option Withdrawal)
  pub update_withdrawal_status :
      String → WithdrawalStatus → Option String → Option String → Option String → M W (Unit {0})
