-- ===== src/Recon/Memory.antt =====
-- The worker of internal/recon over the stores of internal/store/memstore, and what it is to do with
-- an incoming payment, said without its control flow.
pub mod Routing
pub mod Credit
pub mod Outcome
pub mod Caps
pub mod Reversal
use vaultnuban.Prelude.{
  String, List, Option, none, some, Bool, false, ◌+◌, ◌&&◌, ◌||◌, if◌then◌else◌,
}
use vaultnuban.Prelude.Word.{Int64, add64, lt64}
use vaultnuban.Prelude.Text.{str_eq}
use vaultnuban.Prelude.Dict.{lookup}
use vaultnuban.Prelude.Action.{M}
use vaultnuban.Domain.{
  VirtualAccount, Customer, Identity, status_eq, closed, suspended, SuspenseReason, unmatched,
  closed_account, suspended_account, tier_limit, customer_wallet_account, day, Time,
}
use vaultnuban.Provider.{ProviderTransaction}
use vaultnuban.Config.{TierLimits, TierLimit, get_limit}
use vaultnuban.Memstore.World.{
  World, mem_accounts, mem_txns, mem_webhooks, mem_suspense, mem_customers, mem_now,
}
use vaultnuban.Memstore.Accounts.{VirtualAccountStore}
use vaultnuban.Memstore.Transactions.{TransactionStore, daily_loop, day_start}
use vaultnuban.Memstore.Transactions.Post.{balance}
use vaultnuban.Recon.Matcher.{Matcher}
use vaultnuban.Recon.Worker.{Worker}

abbrev pub mem_matcher : TierLimits → Matcher World
mem_matcher limits = record {
  accounts = mem_accounts;
  txns = mem_txns;
  tier_limits = limits;
  now = mem_now;
}

-- The relay and the collection check are left open.
abbrev pub mem_worker :
    TierLimits
    → Option (String → String → ProviderTransaction → M World (Unit {0}))
    → Option (String → String → Int64 → M World (Unit {0}))
    → Worker World
mem_worker limits dispatch try_fulfill = record {
  matcher = mem_matcher limits;
  txns = mem_txns;
  webhooks = mem_webhooks;
  suspense = mem_suspense;
  customers = mem_customers;
  dispatch = dispatch;
  try_fulfill = try_fulfill;
}

abbrev pub by_key : String → List (String × String) → VirtualAccountStore → Option VirtualAccount
by_key key index s = elim (lookup key index) [ none ↦ none | some id ↦ lookup id s.accounts ]

-- The account that a payment names: by its reference, and else by its number. An empty text names none.
unfoldable pub receiving_va : ProviderTransaction → VirtualAccountStore → Option VirtualAccount
receiving_va pt s =
    let by_number : Option VirtualAccount =
      if str_eq pt.account_number "" then none else by_key pt.account_number s.by_nuban s in
    if str_eq pt.account_ref ""
    then by_number
    else elim (by_key pt.account_ref s.by_ref s) [ none ↦ by_number | some va ↦ some va ]

-- A positive cap that the current amount and the new one together exceed.
abbrev pub exceeds : Int64 → Int64 → Int64 → Bool
exceeds cap current amount = lt64 0 cap && lt64 cap (add64 current amount)

-- The credits of the day of `at`.
unfoldable pub daily_credits : String → Time → TransactionStore → Int64
daily_credits account at s = daily_loop account (day_start at) (day_start at + day) 0 s.ledger

abbrev pub limit_reached : TierLimit → String → Int64 → World → Bool
limit_reached limits wallet amount w =
    exceeds limits.max_balance_kobo (balance wallet w.txns) amount
    || exceeds limits.daily_credit_kobo (daily_credits wallet w.clock w.txns) amount

-- The limits of a customer's tier; none if the customer, its identity or its tier is not known.
unfoldable pub limits_of : TierLimits → String → World → Option TierLimit
limits_of limits customer_id w =
    if str_eq customer_id "" then none else elim (lookup customer_id w.customers.customers) [
      | none ↦ none
      | some customer ↦ elim customer.identity [
        | none ↦ none
        | some identity ↦ get_limit identity.kyc_tier limits
      ]
    ]

unfoldable pub tier_blocked : TierLimits → String → Int64 → World → Bool
tier_blocked limits customer_id amount w = elim (limits_of limits customer_id w) [
  | none ↦ false
  | some l ↦ limit_reached l (customer_wallet_account customer_id) amount w
]

-- Where a payment goes.
pub data Route : Type 0 where
  to_wallet : VirtualAccount → Route
  held : Option VirtualAccount → SuspenseReason → Route

abbrev route_va : TierLimits → Int64 → World → VirtualAccount → Route
route_va limits amount w va =
    if status_eq va.status closed
    then held (some va) closed_account
    else if status_eq va.status suspended
    then held (some va) suspended_account
    else if tier_blocked limits va.customer_id amount w
    then held (some va) tier_limit
    else to_wallet va

unfoldable pub route : TierLimits → ProviderTransaction → World → Route
route limits pt w = elim (receiving_va pt w.accounts) [
  | none ↦ held none unmatched
  | some va ↦ route_va limits pt.amount_kobo w va
]
