-- ===== src/Memstore/World.antt =====
-- The stores of internal/store/memstore/memstore.go side by side, as the harness wires them up, and
-- each as an implementation of its interface in internal/store/store.go.
use vaultnuban.Prelude.{ℕ}
use vaultnuban.Prelude.Action.{M, ok}
use vaultnuban.Domain.{Time}
use vaultnuban.Store
use vaultnuban.Memstore.Customers
use vaultnuban.Memstore.Accounts
use vaultnuban.Memstore.Transactions
use vaultnuban.Memstore.Webhooks
use vaultnuban.Memstore.Suspense
use vaultnuban.Memstore.Runs
use vaultnuban.Memstore.Relay

-- `clock` is what `time.Now()` returns during the call at hand.
pub record World : Type 0 where
  pub clock : Time
  pub id_seq : ℕ
  pub customers : Customers.CustomerStore
  pub accounts : Accounts.VirtualAccountStore
  pub txns : Transactions.TransactionStore
  pub webhooks : Webhooks.WebhookEventStore
  pub suspense : Suspense.SuspenseStore
  pub sweeps : Runs.SweepStore
  pub audit : Runs.AuditStore
  pub relay : Relay.RelayStore

abbrev pub new_world : Time → World
new_world clock = record {
  clock = clock;
  id_seq = 0;
  customers = Customers.new_customer_store;
  accounts = Accounts.new_virtual_account_store;
  txns = Transactions.new_transaction_store;
  webhooks = Webhooks.new_webhook_event_store;
  suspense = Suspense.new_suspense_store;
  sweeps = Runs.new_sweep_store;
  audit = Runs.new_audit_store;
  relay = Relay.new_relay_store;
}

-- A call on one store, with the rest of the world left alone.
module _ {A : Type 0} where
  abbrev pub on_customers : M Customers.CustomerStore A → M World A
  on_customers m w = let (r, s) = m w.customers in (r, record w { customers = s })

  abbrev pub on_customers_seq : M (ℕ × Customers.CustomerStore) A → M World A
  on_customers_seq m w =
      let (r, q) = m (w.id_seq, w.customers) in (r, record w { id_seq = q.0; customers = q.1 })

  abbrev pub on_accounts : M Accounts.VirtualAccountStore A → M World A
  on_accounts m w = let (r, s) = m w.accounts in (r, record w { accounts = s })

  abbrev pub on_accounts_seq : M (ℕ × Accounts.VirtualAccountStore) A → M World A
  on_accounts_seq m w =
      let (r, q) = m (w.id_seq, w.accounts) in (r, record w { id_seq = q.0; accounts = q.1 })

  abbrev pub on_txns : M Transactions.TransactionStore A → M World A
  on_txns m w = let (r, s) = m w.txns in (r, record w { txns = s })

  abbrev pub on_webhooks : M Webhooks.WebhookEventStore A → M World A
  on_webhooks m w = let (r, s) = m w.webhooks in (r, record w { webhooks = s })

  abbrev pub on_suspense : M Suspense.SuspenseStore A → M World A
  on_suspense m w = let (r, s) = m w.suspense in (r, record w { suspense = s })

  abbrev pub on_sweeps : M Runs.SweepStore A → M World A
  on_sweeps m w = let (r, s) = m w.sweeps in (r, record w { sweeps = s })

  abbrev pub on_audit : M Runs.AuditStore A → M World A
  on_audit m w = let (r, s) = m w.audit in (r, record w { audit = s })

  abbrev pub on_relay : M Relay.RelayStore A → M World A
  on_relay m w = let (r, s) = m w.relay in (r, record w { relay = s })

  abbrev pub on_relay_seq : M (ℕ × Relay.RelayStore) A → M World A
  on_relay_seq m w =
      let (r, q) = m (w.id_seq, w.relay) in (r, record w { id_seq = q.0; relay = q.1 })

abbrev pub mem_customers : Store.CustomerStore World
mem_customers = record {
  create_customer = λ tenant ref name input w.
      on_customers_seq (Customers.create_customer w.clock tenant ref name input) w;
  get_customer = λ tenant id. on_customers (Customers.get_customer tenant id);
  get_customer_by_external_ref =
      λ tenant ref. on_customers (Customers.get_customer_by_external_ref tenant ref);
  update_kyc_tier = λ id tier. on_customers (Customers.update_kyc_tier id tier);
  get_customer_by_id = λ id. on_customers (Customers.get_customer_by_id id);
}

abbrev pub mem_accounts : Store.VirtualAccountStore World
mem_accounts = record {
  create_virtual_account = λ va w. on_accounts_seq (Accounts.create_virtual_account w.clock va) w;
  get_active_va = λ customer. on_accounts (Accounts.get_active_va customer);
  get_latest_va = λ customer. on_accounts (Accounts.get_latest_va customer);
  get_va_by_nuban = λ nuban. on_accounts (Accounts.get_va_by_nuban nuban);
  get_va_by_account_ref = λ ref. on_accounts (Accounts.get_va_by_account_ref ref);
  get_va_by_customer_and_status =
      λ customer status. on_accounts (Accounts.get_va_by_customer_and_status customer status);
  update_va_status = λ id status. on_accounts (Accounts.update_va_status id status);
  rename_va = λ id name. on_accounts (Accounts.rename_va id name);
}

abbrev pub mem_txns : Store.TransactionStore World
mem_txns = record {
  post_transaction = λ tx entries w. on_txns (Transactions.post_transaction w.clock tx entries) w;
  get_transaction = λ id. on_txns (Transactions.get_transaction id);
  get_balance = λ account. on_txns (Transactions.get_balance account);
  get_daily_credits = λ account date. on_txns (Transactions.get_daily_credits account date);
}

abbrev pub mem_webhooks : Store.WebhookEventStore World
mem_webhooks = record {
  insert_webhook_event = λ evt w. on_webhooks (Webhooks.insert_webhook_event w.clock evt) w;
  mark_webhook_processed = λ id status. on_webhooks (Webhooks.mark_webhook_processed id status);
}

abbrev pub mem_suspense : Store.SuspenseStore World
mem_suspense = record {
  create_suspense_item = λ item w. on_suspense (Suspense.create_suspense_item w.clock item) w;
  resolve_suspense_item =
      λ id status actor notes. on_suspense (Suspense.resolve_suspense_item id status actor notes);
  get_suspense_item = λ id. on_suspense (Suspense.get_suspense_item id);
  list_open_unmatched_items = λ limit. on_suspense (Suspense.list_open_unmatched_items limit);
}

abbrev pub mem_sweeps : Store.SweepStore World
mem_sweeps = record {
  create_sweep_run = λ run. on_sweeps (Runs.create_sweep_run run);
  get_last_sweep_time = on_sweeps Runs.get_last_sweep_time;
  list_sweep_runs = λ limit. on_sweeps (Runs.list_sweep_runs limit);
}

abbrev pub mem_audit : Store.AuditStore World
mem_audit = record { append = λ entry. on_audit (Runs.append_audit entry) }

abbrev pub mem_relay : Store.RelayStore World
mem_relay = record {
  create_endpoint = λ ep w. on_relay_seq (Relay.create_endpoint w.clock ep) w;
  list_endpoints = λ tenant. on_relay (Relay.list_endpoints tenant);
  get_endpoint = λ id. on_relay (Relay.get_endpoint id);
  deactivate_endpoint = λ id tenant. on_relay (Relay.deactivate_endpoint id tenant);
  create_delivery = λ d w. on_relay_seq (Relay.create_delivery w.clock d) w;
  update_delivery = λ d. on_relay (Relay.update_delivery d);
  get_delivery = λ id. on_relay (Relay.get_delivery id);
  list_deliveries = λ tenant limit. on_relay (Relay.list_deliveries tenant limit);
  list_pending_retries = λ limit w. on_relay (Relay.list_pending_retries w.clock limit) w;
}

-- `time.Now()`
abbrev pub mem_now : M World Time
mem_now w = (ok w.clock, w)
