-- ===== src/Tests/Fixtures.antt =====
-- A customer with one account, the payments to it, and what is left of one in suspense.
use vaultnuban.Prelude.{String, [], ◌∷◌, none, some}
use vaultnuban.Prelude.Word.{Int64}
use vaultnuban.Domain.{
  Customer, Identity, VirtualAccount, VaStatus, active, SuspenseItem, open_item, closed_account,
  Transaction, credit, posted,
}
use vaultnuban.Provider.{ProviderTransaction}
use vaultnuban.Config.{TierLimits}
use vaultnuban.Memstore.World.{World, new_world}
use vaultnuban.Recon.Worker.{WorkItem}

abbrev pub identity : Identity
identity = record {
  id = "idn-1";
  customer_id = "cust-1";
  bvn_masked = some "*******4321";
  nin_masked = none;
  kyc_tier = 1;
  verification_status = "VERIFIED";
  created_at = 1;
  updated_at = 1;
}

abbrev pub customer : Customer
customer = record {
  id = "cust-1";
  tenant_id = "tenant-1";
  external_ref = "user-1";
  display_name = "Ada";
  status = "ACTIVE";
  identity = some identity;
  created_at = 1;
  updated_at = 1;
}

abbrev pub account : VaStatus → VirtualAccount
account status = record {
  id = "va-1";
  customer_id = "cust-1";
  nomba_account_ref = "vn:cust-1";
  nuban = "9900000001";
  bank_name = "Nomba";
  account_name = "Ada";
  nomba_holder_id = "h-1";
  status = status;
  created_at = 1;
  updated_at = 1;
  customer_display_name = "";
  tenant_name = "";
}

abbrev pub world : VaStatus → World
world status = record (new_world 7) {
  customers = record {
    customers = ("cust-1", customer) ∷ [];
    by_ext_ref = ("tenant-1:user-1", "cust-1") ∷ [];
  };
  accounts = record {
    accounts = ("va-1", account status) ∷ [];
    by_nuban = ("9900000001", "va-1") ∷ [];
    by_ref = ("vn:cust-1", "va-1") ∷ [];
    range_order = λ vas. vas;
  };
}

abbrev pub tier_limits : TierLimits
tier_limits = (1, record { daily_credit_kobo = 5000000; max_balance_kobo = 30000000 }) ∷ []

abbrev pub payment_of : Int64 → ProviderTransaction
payment_of amount = record {
  transaction_id = "t1";
  session_id = "";
  account_number = "9900000001";
  account_ref = "vn:cust-1";
  amount_kobo = amount;
  kind = "credit";
  status = "success";
  sender_name = "Bola";
  sender_bank = "";
  narration = "";
  occurred_at = 7;
  raw = [];
}

abbrev pub item_of : String → Int64 → WorkItem
item_of event amount = record {
  webhook_event_id = event;
  payload = record { event_type = "payment_success"; transaction = payment_of amount; raw = [] };
  source = "webhook";
}

abbrev pub transaction : Transaction
transaction = record {
  id = "t1";
  virtual_account_id = some "va-1";
  session_id = none;
  amount_kobo = 500;
  direction = credit;
  source = "webhook";
  status = posted;
  sender_name = none;
  sender_bank = none;
  narration = none;
  raw = [];
  occurred_at = 7;
  created_at = 7;
  nuban = "";
}

abbrev pub held_item : SuspenseItem
held_item = record {
  id = "susp-0001";
  transaction_id = "t1";
  reason = closed_account;
  status = open_item;
  resolved_by = none;
  resolved_at = none;
  notes = none;
  created_at = 7;
  amount_kobo = 0;
  nuban = "";
}

-- The world with that transaction held in suspense.
abbrev pub holding : World
holding = record (world active) {
  txns = record { txns = ("t1", transaction) ∷ []; ledger = [] };
  suspense = record { items = ("susp-0001", held_item) ∷ []; suspense_seq = 1 };
}
