-- ===== src/Recon/Memory/Routing.antt =====
-- The matcher and the tier check of internal/recon over the in-memory stores, and the routes of
-- Recon/Memory.antt.
use vaultnuban.Prelude.{
  String, List, Option, none, some, false, ◌≡◌, refl, inl, inr, arith, if◌then◌else◌, Option-cases,
}
use vaultnuban.Prelude.Word.{Int64}
use vaultnuban.Prelude.Dict.{lookup}
use vaultnuban.Prelude.Action.{M, Result, ok, err}
use vaultnuban.Domain.{
  VirtualAccount, SuspenseReason, tier_limit, customer_wallet_account, LedgerEntry, status_eq,
  closed, suspended, unmatched, closed_account, suspended_account,
}
use vaultnuban.Ledger.{credit_customer, credit_suspense}
use vaultnuban.Provider.{ProviderTransaction}
use vaultnuban.Config.{TierLimits, get_limit}
use vaultnuban.Memstore.World.{World}
use vaultnuban.Memstore.Accounts.{get_va_by_nuban, get_va_by_account_ref}
use vaultnuban.Memstore.Customers.{get_customer}
use vaultnuban.Memstore.Transactions.{get_balance, get_daily_credits}
use vaultnuban.Memstore.Transactions.Post.{balance}
use vaultnuban.Recon.Matcher.{
  MatchResult, new_item, find_va, match_va, match_credit, check_tier_limits,
  check_tier_limits_for_customer, over_balance, over_daily,
}
use vaultnuban.Recon.Worker.{tier_checked}
use vaultnuban.Recon.Memory.{
  mem_matcher, mem_worker, receiving_va, limit_reached, limits_of, tier_blocked, daily_credits,
  Route, to_wallet, held, route,
}

pub find_va-mem :
    (limits : TierLimits) (a b : String) (pt : ProviderTransaction) (w : World)
    → find_va (mem_matcher limits) a b pt w ≡ (ok (receiving_va pt w.accounts), w)
unfolding find_va receiving_va get_va_by_nuban get_va_by_account_ref
find_va-mem limits a b pt w = ground arith

check_tier-mem :
    (limits : TierLimits) (wallet : String) (amount tier : Int64) (w : World)
    → check_tier_limits_for_customer (mem_matcher limits) wallet amount tier w ≡ (
      ok (elim (get_limit tier limits) [
        | none ↦ none
        | some l ↦ if limit_reached l wallet amount w then some tier_limit else none
      ]),
      w,
    )
unfolding check_tier_limits_for_customer over_balance over_daily get_balance get_daily_credits
    daily_credits balance
check_tier-mem limits wallet amount tier w = ground arith

-- The result that the worker is to post for a route.
abbrev pub result_for : ProviderTransaction → Route → List LedgerEntry → MatchResult
result_for pt (to_wallet va) entries = record {
  va = some va;
  customer_id = va.customer_id;
  entries = entries;
  suspense = none;
}
result_for pt (held va reason) entries = record {
  va = va;
  customer_id = "";
  entries = entries;
  suspense = some (new_item pt.transaction_id reason);
}

-- The entries of a route.
abbrev pub entries_for : ProviderTransaction → Route → Result (List LedgerEntry)
entries_for pt (to_wallet va) = credit_customer pt.transaction_id va.customer_id pt.amount_kobo
entries_for pt (held va reason) = credit_suspense pt.transaction_id pt.amount_kobo

-- The route before the tier check.
abbrev pub untiered : ProviderTransaction → World → Route
untiered pt w = elim (receiving_va pt w.accounts) [
  | none ↦ held none unmatched
  | some va ↦
      if status_eq va.status closed
      then held (some va) closed_account
      else if status_eq va.status suspended
      then held (some va) suspended_account
      else to_wallet va
]

abbrev pub with_result :
    ProviderTransaction → Route → Result (List LedgerEntry) → Result MatchResult
with_result pt r (ok es) = ok (result_for pt r es)
with_result pt r (err e) = err e

pub match_credit-mem :
    (limits : TierLimits) (pt : ProviderTransaction) (w : World)
    → match_credit (mem_matcher limits) pt w
      ≡ (with_result pt (untiered pt w) (entries_for pt (untiered pt w)), w)
unfolding match_credit match_va check_tier_limits
match_credit-mem limits pt w =
    ground
      (arith, find_va-mem limits "matcher: lookup by accountRef" "matcher: lookup by NUBAN" pt w)

-- The tier check of a payment to a wallet.
abbrev pub tiered : TierLimits → ProviderTransaction → World → Route → Route
tiered limits pt w (held va reason) = held va reason
tiered limits pt w (to_wallet va) =
    if tier_blocked limits va.customer_id pt.amount_kobo w
    then held (some va) tier_limit
    else to_wallet va

pub route-tiered :
    (limits : TierLimits) (pt : ProviderTransaction) (w : World)
    → route limits pt w ≡ tiered limits pt w (untiered pt w)
unfolding route
route-tiered limits pt w = ground arith

-- A payment is let through to a wallet only below the limits of the customer.
pub route-to_wallet :
    (limits : TierLimits) (pt : ProviderTransaction) (w : World) (va : VirtualAccount)
    → route limits pt w ≡ to_wallet va
    → tier_blocked limits va.customer_id pt.amount_kobo w ≡ false
unfolding route
route-to_wallet limits pt w va e = elim (Option-cases (receiving_va pt w.accounts)) [
  | inl missing ↦ ground arith
  | inr (found, e') ↦ ground arith
]

module _ (limits : TierLimits)
    (dispatch : Option (String → String → ProviderTransaction → M World (Unit {0})))
    (try_fulfill : Option (String → String → Int64 → M World (Unit {0}))) (pt : ProviderTransaction)
    (w : World) where
  pub tier_checked-held :
      (va : Option VirtualAccount) (reason : SuspenseReason) (es : List LedgerEntry)
      → tier_checked
          (mem_worker limits dispatch try_fulfill)
          pt
          (result_for pt (held va reason) es)
          w
        ≡ (ok (result_for pt (held va reason) es), w)
  unfolding tier_checked
  tier_checked-held va reason es = refl

  pub tier_checked-wallet :
      (va : VirtualAccount) (es : List LedgerEntry)
      → tier_checked (mem_worker limits dispatch try_fulfill) pt (result_for pt (to_wallet va) es) w
        ≡ (
          (if tier_blocked limits va.customer_id pt.amount_kobo w
              then with_result pt
                  (held (some va) tier_limit)
                  (credit_suspense pt.transaction_id pt.amount_kobo)
              else ok (result_for pt (to_wallet va) es)),
          w,
        )
  unfolding tier_checked tier_blocked limits_of get_customer
  tier_checked-wallet va es = elim (Option-cases (lookup va.customer_id w.customers.customers)) [
    | inl missing ↦ ground arith
    | inr (customer, found) ↦ elim (Option-cases customer.identity) [
      | inl missing ↦ ground arith
      | inr (identity, has) ↦ ground (
        arith,
        check_tier-mem limits (customer_wallet_account va.customer_id) pt.amount_kobo
            identity.kyc_tier w,
      )
    ]
  ]
