-- ===== src/Recon/Memory/Reversal.antt =====
-- What the worker of internal/recon/worker.go does with a reversal, over the stores of
-- internal/store/memstore.
use vaultnuban.Prelude.{String, Option, none, some, false, ◌≡◌, ◌∙◌, ap, arith}
use vaultnuban.Prelude.Word.{Int64, IsInt64, le64, add64}
use vaultnuban.Prelude.Action.{M, ok}
use vaultnuban.Domain.{
  customer_wallet_account, account_suspense, account_nomba_settlement, Transaction, debit, reversed,
}
use vaultnuban.Ledger.{reversal_entries, reversal_to_suspense}
use vaultnuban.Ledger.Balance.{pair, moved, net_of-pair, balance_of-pair}
use vaultnuban.Provider.{ProviderTransaction}
use vaultnuban.Config.{TierLimits}
use vaultnuban.Memstore.World.{World}
use vaultnuban.Memstore.Transactions.Post.{
  is_posted, extended, post-extended, balance, balance-extended,
}
use vaultnuban.Recon.Matcher.{MatchResult, match_reversal}
use vaultnuban.Recon.Worker.{WorkItem, transaction_of, mark, process_reversal}
use vaultnuban.Recon.Memory.{mem_matcher, mem_worker, receiving_va}
use vaultnuban.Recon.Memory.Routing.{find_va-mem}

-- The account that a reversal takes the money from.
abbrev pub debited : ProviderTransaction → World → String
debited pt w = elim (receiving_va pt w.accounts) [
  | none ↦ account_suspense
  | some va ↦ customer_wallet_account va.customer_id
]

abbrev pub reversal_result : ProviderTransaction → World → MatchResult
reversal_result pt w = record {
  va = receiving_va pt w.accounts;
  customer_id = elim (receiving_va pt w.accounts) [ none ↦ "" | some va ↦ va.customer_id ];
  entries = pair pt.transaction_id (debited pt w) account_nomba_settlement pt.amount_kobo;
  suspense = none;
}

match_reversal-mem :
    (limits : TierLimits) (pt : ProviderTransaction) (w : World)
    → le64 pt.amount_kobo 0 ≡ false
    → match_reversal (mem_matcher limits) pt w ≡ (ok (reversal_result pt w), w)
unfolding match_reversal reversal_entries reversal_to_suspense
match_reversal-mem limits pt w positive = ground (
  arith,
  find_va-mem limits "matcher: reversal lookup by ref" "matcher: reversal lookup by NUBAN" pt w,
)

abbrev reversal_record : WorkItem → ProviderTransaction → World → Transaction
reversal_record item pt w = transaction_of item pt (reversal_result pt w) debit reversed

module _ (limits : TierLimits)
    (dispatch : Option (String → String → ProviderTransaction → M World (Unit {0})))
    (try_fulfill : Option (String → String → Int64 → M World (Unit {0}))) (item : WorkItem)
    (pt : ProviderTransaction) (w : World) where
  reversal_txns :
      le64 pt.amount_kobo 0 ≡ false
      → is_posted pt.transaction_id w.txns ≡ false
      → (process_reversal (mem_worker limits dispatch try_fulfill) item pt w).1.txns
        ≡ extended w.clock (reversal_record item pt w) (reversal_result pt w).entries w.txns
  unfolding process_reversal mark
  reversal_txns positive new = ground (
    arith,
    match_reversal-mem limits pt w positive,
    post-extended w.clock (reversal_record item pt w) (reversal_result pt w).entries w.txns,
    net_of-pair pt.transaction_id (debited pt w) account_nomba_settlement pt.amount_kobo,
  )

  -- A new reversal of a positive int64 amount takes the amount back to the settlement account: from
  -- suspense if no account is found for it, and from the wallet of the account's customer otherwise,
  -- whatever the status of the account is. No other balance changes.
  pub process_reversal-moved :
      IsInt64 pt.amount_kobo
      → le64 pt.amount_kobo 0 ≡ false
      → is_posted pt.transaction_id w.txns ≡ false
      → (account : String)
      → let w' = (process_reversal (mem_worker limits dispatch try_fulfill) item pt w).1 in
        balance account w'.txns
        ≡ add64
            (balance account w.txns)
            (moved (debited pt w) account_nomba_settlement pt.amount_kobo account)
  process_reversal-moved fits positive new account =
      ap (balance account) (reversal_txns positive new)
      ∙ balance-extended account w.clock (reversal_record item pt w) (reversal_result pt w).entries
          w.txns
      ∙ ap (add64 (balance account w.txns)) (
          balance_of-pair pt.transaction_id (debited pt w) account_nomba_settlement pt.amount_kobo
            fits account)
