-- ===== src/Recon/Matcher.antt =====
-- internal/recon/matcher.go. The stores are parameters; `now` is `time.Now().UTC()`.
use vaultnuban.Prelude.{String, List, Option, none, some, Bool, false, not, if◌then◌else◌}
use vaultnuban.Prelude.Word.{Int64, add64, lt64}
use vaultnuban.Prelude.Text.{str_eq}
use vaultnuban.Prelude.Action.{M, pure, of_result, or_wrap, ◌>>=◌}
use vaultnuban.Domain.{
  Time, VirtualAccount, status_eq, closed, suspended, LedgerEntry, SuspenseItem, SuspenseReason,
  unmatched, closed_account, suspended_account, tier_limit, open_item, customer_wallet_account,
}
use vaultnuban.Ledger.{credit_customer, credit_suspense, reversal_entries, reversal_to_suspense}
use vaultnuban.Store.{VirtualAccountStore, TransactionStore}
use vaultnuban.Provider.{ProviderTransaction}
use vaultnuban.Config.{TierLimits, TierLimit, get_limit}

pub record MatchResult : Type 0 where
  pub va : Option VirtualAccount
  pub customer_id : String
  pub entries : List LedgerEntry
  pub suspense : Option SuspenseItem

pub record Matcher (W : Type 0) : Type 0 where
  pub accounts : VirtualAccountStore W
  pub txns : TransactionStore W
  pub tier_limits : TierLimits
  pub now : M W Time

-- The suspense item of a routed transaction, before it has an id.
abbrev pub new_item : String → SuspenseReason → SuspenseItem
new_item tx_id reason = record {
  id = "";
  transaction_id = tx_id;
  reason = reason;
  status = open_item;
  resolved_by = none;
  resolved_at = none;
  notes = none;
  created_at = 0;
  amount_kobo = 0;
  nuban = "";
}

-- `if err != nil { return nil, err }` after the entries to suspense, then the routed result.
abbrev pub to_suspense :
    {W : Type 0} → ProviderTransaction → Option VirtualAccount → SuspenseReason → M W MatchResult
to_suspense pt va reason = do
  entries ← of_result (credit_suspense pt.transaction_id pt.amount_kobo)
  pure (record {
    va = va;
    customer_id = "";
    entries = entries;
    suspense = some (new_item pt.transaction_id reason);
  })

module _ {W : Type 0} (m : Matcher W) where
  -- Steps 1 and 2 of a match: by account reference, then by NUBAN.
  unfoldable pub find_va : String → String → ProviderTransaction → M W (Option VirtualAccount)
  find_va ref_label nuban_label pt = do
    by_ref ←
        if str_eq pt.account_ref ""
        then pure none
        else or_wrap ref_label (m.accounts.get_va_by_account_ref pt.account_ref)
    elim by_ref [
      | some va ↦ pure (some va)
      | none ↦
          if str_eq pt.account_number ""
          then pure none
          else or_wrap nuban_label (m.accounts.get_va_by_nuban pt.account_number)
    ]

  -- `checkTierLimits` is a stub that lets everything pass.
  unfoldable pub check_tier_limits : VirtualAccount → String → Int64 → M W (Option SuspenseReason)
  check_tier_limits va wallet_account amount = pure none

  -- An account that is found: closed, suspended, or open to credit.
  unfoldable pub match_va : ProviderTransaction → VirtualAccount → M W MatchResult
  match_va pt va =
      if status_eq va.status closed
      then to_suspense pt (some va) closed_account
      else if status_eq va.status suspended
      then to_suspense pt (some va) suspended_account
      else do
        reason ← check_tier_limits va (customer_wallet_account va.customer_id) pt.amount_kobo
        elim reason [
          | some r ↦ to_suspense pt (some va) r
          | none ↦ do
            entries ← of_result (credit_customer pt.transaction_id va.customer_id pt.amount_kobo)
            pure (record {
              va = some va;
              customer_id = va.customer_id;
              entries = entries;
              suspense = none;
            })
        ]

  -- `Match`
  unfoldable pub match_credit : ProviderTransaction → M W MatchResult
  match_credit pt = do
    found ← find_va "matcher: lookup by accountRef" "matcher: lookup by NUBAN" pt
    elim found [ none ↦ to_suspense pt none unmatched | some va ↦ match_va pt va ]

  -- `MatchReversal`: a reversal with no account takes the money back from suspense.
  unfoldable pub match_reversal : ProviderTransaction → M W MatchResult
  match_reversal pt = do
    found ← find_va "matcher: reversal lookup by ref" "matcher: reversal lookup by NUBAN" pt
    elim found [
      | none ↦ do
        entries ← of_result (reversal_to_suspense pt.transaction_id pt.amount_kobo)
        pure (record { va = none; customer_id = ""; entries = entries; suspense = none })
      | some va ↦ do
        entries ← of_result (reversal_entries pt.transaction_id va.customer_id pt.amount_kobo)
        pure (record {
          va = some va;
          customer_id = va.customer_id;
          entries = entries;
          suspense = none;
        })
    ]

  -- The balance cap, if there is one.
  unfoldable pub over_balance : TierLimit → String → Int64 → M W Bool
  over_balance limits wallet amount =
      if not (lt64 0 limits.max_balance_kobo) then pure false else do
        balance ← or_wrap "matcher: get balance" (m.txns.get_balance wallet)
        pure (lt64 limits.max_balance_kobo (add64 balance amount))

  -- The daily cap, if there is one.
  unfoldable pub over_daily : TierLimit → String → Int64 → M W Bool
  over_daily limits wallet amount = if not (lt64 0 limits.daily_credit_kobo) then pure false else do
    today ← m.now
    daily ← or_wrap "matcher: get daily credits" (m.txns.get_daily_credits wallet today)
    pure (lt64 limits.daily_credit_kobo (add64 daily amount))

  -- `CheckTierLimitsForCustomer`: none is the empty reason. A tier with no limits is uncapped.
  unfoldable pub check_tier_limits_for_customer :
      String → Int64 → Int64 → M W (Option SuspenseReason)
  check_tier_limits_for_customer wallet amount kyc_tier = elim (get_limit kyc_tier m.tier_limits) [
    | none ↦ pure none
    | some limits ↦ do
      high ← over_balance limits wallet amount
      if high then pure (some tier_limit) else do
        much ← over_daily limits wallet amount
        pure (if much then some tier_limit else none)
  ]
