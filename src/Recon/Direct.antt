-- ===== src/Recon/Direct.antt =====
-- `ProcessDirect` of internal/recon/worker.go: the worker without its queue, for the sweep.
use vaultnuban.Prelude.{Bool, true, false, not, if◌then◌else◌}
use vaultnuban.Prelude.Text.{str_eq}
use vaultnuban.Prelude.Action.{M, pure, or_wrap, ◌>>=◌, ◌>>◌}
use vaultnuban.Domain.{is_nil}
use vaultnuban.Provider.{ProviderTransaction}
use vaultnuban.Recon.Matcher.{MatchResult}
use vaultnuban.Recon.Worker.{WorkItem, Worker, post_credit, settle, process_reversal}

-- `ProcessResult`
pub record ProcessResult : Type 0 where
  pub skipped : Bool
  pub posted : Bool
  pub suspensed : Bool

module _ {W : Type 0} (wk : Worker W) where
  -- The part of `processCreditDirect` that follows the posting.
  unfoldable pub finish_direct : ProviderTransaction → Bool × MatchResult → M W (Bool × Bool)
  finish_direct pt (created, result) =
      if not created
      then pure (false, false)
      else do settle wk pt result; pure (true, not (is_nil result.suspense))

  -- `processCreditDirect`: posted and suspensed.
  unfoldable pub process_credit_direct : WorkItem → ProviderTransaction → M W (Bool × Bool)
  process_credit_direct item pt = post_credit wk item pt >>= finish_direct pt

  -- The switch of `ProcessDirect`, for a transaction that is not in the ledger.
  unfoldable pub dispatch_direct : WorkItem → M W ProcessResult
  dispatch_direct item =
      let pt = item.payload.transaction in
      let kind = item.payload.event_type in
      if str_eq kind "payment_success"
      then (process_credit_direct item pt >>= λ done.
          pure (record { skipped = false; posted = done.0; suspensed = done.1 }))
      else if str_eq kind "payment_reversal"
      then (process_reversal wk item pt
          >> pure (record { skipped = false; posted = true; suspensed = false }))
      else pure (record { skipped = true; posted = false; suspensed = false })

  -- `ProcessDirect`
  unfoldable pub process_direct : WorkItem → M W ProcessResult
  process_direct item = do
    existing ←
        or_wrap "ProcessDirect: check existing"
          (wk.txns.get_transaction item.payload.transaction.transaction_id)
    if not (is_nil existing)
        then pure (record { skipped = true; posted = false; suspensed = false })
        else dispatch_direct item
