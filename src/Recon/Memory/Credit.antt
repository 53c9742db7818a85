-- ===== src/Recon/Memory/Credit.antt =====
-- What the worker of internal/recon/worker.go writes for an incoming payment, over the stores of
-- internal/store/memstore.
use vaultnuban.Prelude.{String, List, Option, some, true, false, ◌≡◌, refl, sym, ◌∙◌, ap, arith}
use vaultnuban.Prelude.Word.{Int64, le64}
use vaultnuban.Prelude.Action.{
  M, ok, err, wrapped, or_wrap, >>=-ok, >>=-err, or_wrap-ok, or_wrap-err,
}
use vaultnuban.Domain.{
  tier_limit, LedgerEntry, Transaction, customer_wallet_account, account_suspense,
  account_nomba_settlement, credit, posted,
}
use vaultnuban.Ledger.{credit_customer, credit_suspense, not_positive}
use vaultnuban.Ledger.Balance.{pair, net_of-pair}
use vaultnuban.Provider.{ProviderTransaction}
use vaultnuban.Config.{TierLimits}
use vaultnuban.Memstore.World.{World}
use vaultnuban.Memstore.Transactions.{post_transaction}
use vaultnuban.Memstore.Transactions.Post.{is_posted, extended, post-extended}
use vaultnuban.Recon.Matcher.{MatchResult, match_credit}
use vaultnuban.Recon.Worker.{
  WorkItem, Worker, transaction_of, tier_checked, resolve, post_result, post_credit,
}
use vaultnuban.Recon.Memory.{mem_matcher, mem_worker, Route, to_wallet, held, route}
use vaultnuban.Recon.Memory.Routing.{
  result_for, entries_for, with_result, untiered, tiered, match_credit-mem, route-tiered,
  tier_checked-held, tier_checked-wallet,
}

-- The account that a route credits.
abbrev pub credited : Route → String
credited (to_wallet va) = customer_wallet_account va.customer_id
credited (held va reason) = account_suspense

-- The entries of a payment of a positive amount.
abbrev pub lines_for : ProviderTransaction → Route → List LedgerEntry
lines_for pt r = pair pt.transaction_id account_nomba_settlement (credited r) pt.amount_kobo

entries_for-positive :
    (pt : ProviderTransaction) (r : Route)
    → le64 pt.amount_kobo 0 ≡ false
    → entries_for pt r ≡ ok (lines_for pt r)
unfolding credit_customer credit_suspense
entries_for-positive pt (to_wallet va) h = rw h refl
entries_for-positive pt (held va reason) h = rw h refl

entries_for-refused :
    (pt : ProviderTransaction) (r : Route)
    → le64 pt.amount_kobo 0 ≡ true
    → entries_for pt r ≡ err (not_positive pt.amount_kobo)
unfolding credit_customer credit_suspense
entries_for-refused pt (to_wallet va) h = rw h refl
entries_for-refused pt (held va reason) h = rw h refl

-- The transaction and the result that the worker posts for a payment.
abbrev pub result_of : TierLimits → ProviderTransaction → World → MatchResult
result_of limits pt w = result_for pt (route limits pt w) (lines_for pt (route limits pt w))

abbrev pub record_of : TierLimits → WorkItem → ProviderTransaction → World → Transaction
record_of limits item pt w = transaction_of item pt (result_of limits pt w) credit posted

-- The world after a payment that was not posted before.
abbrev pub with_payment : TierLimits → WorkItem → ProviderTransaction → World → World
with_payment limits item pt w = record w {
  txns = extended w.clock (record_of limits item pt w) (lines_for pt (route limits pt w)) w.txns;
}

module _ (limits : TierLimits)
    (dispatch : Option (String → String → ProviderTransaction → M World (Unit {0})))
    (try_fulfill : Option (String → String → Int64 → M World (Unit {0}))) (item : WorkItem)
    (pt : ProviderTransaction) (w : World) where
  abbrev wk : Worker World
  wk = mem_worker limits dispatch try_fulfill

  checked :
      (r : Route)
      → le64 pt.amount_kobo 0 ≡ false
      → tier_checked wk pt (result_for pt r (lines_for pt r)) w
        ≡ (ok (result_for pt (tiered limits pt w r) (lines_for pt (tiered limits pt w r))), w)
  checked (held va reason) positive =
      tier_checked-held limits dispatch try_fulfill pt w va reason (lines_for pt (held va reason))
  checked (to_wallet va) positive =
      tier_checked-wallet limits dispatch try_fulfill pt w va (lines_for pt (to_wallet va))
      ∙ ground (arith, entries_for-positive pt (held (some va) tier_limit) positive)

  resolve-positive :
      le64 pt.amount_kobo 0 ≡ false → resolve wk pt w ≡ (ok (result_of limits pt w), w)
  unfolding resolve
  resolve-positive positive =
      >>=-ok (or_wrap "match" (match_credit (mem_matcher limits) pt)) (tier_checked wk pt) w (
        or_wrap-ok "match" (match_credit (mem_matcher limits) pt) w (
          match_credit-mem limits pt w
          ∙ ap (λ e. (with_result pt (untiered pt w) e, w))
              (entries_for-positive pt (untiered pt w) positive)))
      ∙ checked (untiered pt w) positive
      ∙ ap (λ r. (ok (result_for pt r (lines_for pt r)), w)) (sym (route-tiered limits pt w))

  -- A payment of nothing, or of less, is an error, and nothing is written.
  pub post_credit-refused :
      le64 pt.amount_kobo 0 ≡ true
      → post_credit wk item pt w ≡ (err (wrapped "match" (not_positive pt.amount_kobo)), w)
  unfolding post_credit resolve
  post_credit-refused refused = >>=-err (resolve wk pt) (post_result wk item pt) w (
      >>=-err (or_wrap "match" (match_credit (mem_matcher limits) pt)) (tier_checked wk pt) w (
        or_wrap-err "match" (match_credit (mem_matcher limits) pt) w (
          match_credit-mem limits pt w
          ∙ ap (λ e. (with_result pt (untiered pt w) e, w))
              (entries_for-refused pt (untiered pt w) refused))))

  post_result-new :
      is_posted pt.transaction_id w.txns ≡ false
      → post_result wk item pt (result_of limits pt w) w
        ≡ (ok (true, result_of limits pt w), with_payment limits item pt w)
  unfolding post_result
  post_result-new new = ground (
    arith,
    post-extended w.clock (record_of limits item pt w) (lines_for pt (route limits pt w)) w.txns,
    net_of-pair pt.transaction_id account_nomba_settlement (credited (route limits pt w))
        pt.amount_kobo,
  )

  post_result-duplicate :
      is_posted pt.transaction_id w.txns ≡ true
      → post_result wk item pt (result_of limits pt w) w ≡ (ok (false, result_of limits pt w), w)
  unfolding post_result post_transaction
  post_result-duplicate old = ground arith

  -- A payment that is not in the ledger is posted to the account that its route names.
  pub post_credit-new :
      le64 pt.amount_kobo 0 ≡ false
      → is_posted pt.transaction_id w.txns ≡ false
      → post_credit wk item pt w ≡ (ok (true, result_of limits pt w), with_payment limits item pt w)
  unfolding post_credit
  post_credit-new positive new =
      >>=-ok (resolve wk pt) (post_result wk item pt) w (resolve-positive positive)
      ∙ post_result-new new

  pub post_credit-duplicate :
      le64 pt.amount_kobo 0 ≡ false
      → is_posted pt.transaction_id w.txns ≡ true
      → post_credit wk item pt w ≡ (ok (false, result_of limits pt w), w)
  unfolding post_credit
  post_credit-duplicate positive old =
      >>=-ok (resolve wk pt) (post_result wk item pt) w (resolve-positive positive)
      ∙ post_result-duplicate old
