-- ===== src/Recon/Worker.antt =====
-- internal/recon/worker.go. The logger is left out. The collection service and the relay dispatcher,
-- which may be absent, are calls that the worker is given.
pub mod Paths
use vaultnuban.Prelude.{
  ℕ, String, List, [], ◌∷◌, ◌++◌, Option, none, some, Bool, true, false, not, ◌&&◌, ltb, length,
  if◌then◌else◌,
}
use vaultnuban.Prelude.Word.{Int64}
use vaultnuban.Prelude.Text.{str_eq}
use vaultnuban.Prelude.Action.{
  M, Result, ok, err, pure, of_result, or_wrap, attempt, ignoring, ◌>>=◌, ◌>>◌,
}
use vaultnuban.Domain.{
  is_nil, Bytes, LedgerEntry, Customer, VirtualAccount, Transaction, Direction, credit, debit,
  TxStatus, posted, reversed, SuspenseReason, customer_wallet_account,
}
use vaultnuban.Ledger.{credit_suspense}
use vaultnuban.Store.{TransactionStore, WebhookEventStore, SuspenseStore, CustomerStore}
use vaultnuban.Provider.{ProviderTransaction, WebhookPayload}
use vaultnuban.Recon.Matcher.{
  Matcher, MatchResult, new_item, match_credit, match_reversal, check_tier_limits_for_customer,
}

pub record WorkItem : Type 0 where
  pub webhook_event_id : String
  pub payload : WebhookPayload
  pub source : String

-- `dispatch` takes the tenant, the event type and the transaction that the relayed JSON describes.
pub record Worker (W : Type 0) : Type 0 where
  pub matcher : Matcher W
  pub txns : TransactionStore W
  pub webhooks : WebhookEventStore W
  pub suspense : SuspenseStore W
  pub customers : CustomerStore W
  pub dispatch : Option (String → String → ProviderTransaction → M W (Unit {0}))
  pub try_fulfill : Option (String → String → Int64 → M W (Unit {0}))

-- The buffered channel.
pub record Queue : Type 0 where
  pub size : ℕ
  pub items : List WorkItem

-- `Enqueue`: a full queue drops the item.
unfoldable pub enqueue : WorkItem → Queue → Bool × Queue
enqueue item q =
    if ltb (length q.items) q.size
    then (true, record q { items = q.items ++ item ∷ [] })
    else (false, q)

abbrev pub to_ptr : Option VirtualAccount → Option String
to_ptr none = none
to_ptr (some va) = some va.id

abbrev pub null_str : String → Option String
null_str s = if str_eq s "" then none else some s

-- The transaction record of an incoming credit or reversal.
abbrev pub transaction_of :
    WorkItem → ProviderTransaction → MatchResult → Direction → TxStatus → Transaction
transaction_of item pt result direction status = record {
  id = pt.transaction_id;
  virtual_account_id = to_ptr result.va;
  session_id = null_str pt.session_id;
  amount_kobo = pt.amount_kobo;
  direction = direction;
  source = item.source;
  status = status;
  sender_name = null_str pt.sender_name;
  sender_bank = null_str pt.sender_bank;
  narration = null_str pt.narration;
  raw = pt.raw;
  occurred_at = pt.occurred_at;
  created_at = 0;
  nuban = "";
}

-- The result of a match that the tier check sends to suspense.
abbrev pub rerouted :
    ProviderTransaction → MatchResult → SuspenseReason → List LedgerEntry → MatchResult
rerouted pt result reason entries = record result {
  entries = entries;
  suspense = some (new_item pt.transaction_id reason);
  customer_id = "";
}

-- The relay to the tenant of a customer that was found.
abbrev pub relay_to :
    {W : Type 0}
    → (String → String → ProviderTransaction → M W (Unit {0}))
    → String
    → ProviderTransaction
    → Result (Option Customer)
    → M W (Unit {0})
relay_to call event_type pt (err _) = pure tt
relay_to call event_type pt (ok none) = pure tt
relay_to call event_type pt (ok (some customer)) = call customer.tenant_id event_type pt

module _ {W : Type 0} (wk : Worker W) where
  -- `if id != "" { _ = w.webhooks.MarkWebhookProcessed(ctx, id, status) }`
  unfoldable pub mark : String → String → M W (Unit {0})
  mark id status =
      if str_eq id "" then pure tt else ignoring (wk.webhooks.mark_webhook_processed id status)

  -- The tier check of a result that credits a wallet, for a customer with an identity.
  unfoldable pub tier_checked : ProviderTransaction → MatchResult → M W MatchResult
  tier_checked pt result =
      if not (is_nil result.suspense && not (str_eq result.customer_id "")) then pure result else do
        found ← attempt (wk.customers.get_customer "" result.customer_id)
        elim found [
          | err _ ↦ pure result
          | ok none ↦ pure result
          | ok (some customer) ↦ elim customer.identity [
            | none ↦ pure result
            | some identity ↦ do
              reason ← or_wrap "tier check" (
                  check_tier_limits_for_customer wk.matcher
                    (customer_wallet_account result.customer_id) pt.amount_kobo identity.kyc_tier)
              elim reason [
                | none ↦ pure result
                | some r ↦ do
                  entries ← of_result (credit_suspense pt.transaction_id pt.amount_kobo)
                  pure (rerouted pt result r entries)
              ]
          ]
        ]

  -- The collection check of a payment that went to a wallet.
  unfoldable pub fulfil : ProviderTransaction → MatchResult → M W (Unit {0})
  fulfil pt result = elim wk.try_fulfill [
    | none ↦ pure tt
    | some call ↦ elim result.va [
      | none ↦ pure tt
      | some va ↦ ignoring (call va.id pt.transaction_id pt.amount_kobo)
    ]
  ]

  -- What follows a new posting: the suspense item, or the collection check.
  unfoldable pub settle : ProviderTransaction → MatchResult → M W (Unit {0})
  settle pt result = elim result.suspense [
    | some item ↦ ignoring (wk.suspense.create_suspense_item item)
    | none ↦ fulfil pt result
  ]

  -- `dispatchRelay`, for a result with an account and a worker with a dispatcher.
  unfoldable pub relay : ProviderTransaction → MatchResult → String → M W (Unit {0})
  relay pt result event_type = elim wk.dispatch [
    | none ↦ pure tt
    | some call ↦ elim result.va [
      | none ↦ pure tt
      | some _ ↦
          attempt (wk.customers.get_customer "" result.customer_id) >>= relay_to call event_type pt
    ]
  ]

  -- The first half of both credit paths: the match and the tier check.
  unfoldable pub resolve : ProviderTransaction → M W MatchResult
  resolve pt = or_wrap "match" (match_credit wk.matcher pt) >>= tier_checked pt

  -- The posting of a credit, the same in both paths.
  unfoldable pub post_result :
      WorkItem → ProviderTransaction → MatchResult → M W (Bool × MatchResult)
  post_result item pt result = do
    created ←
        or_wrap "post transaction"
          (wk.txns.post_transaction (transaction_of item pt result credit posted) result.entries)
    pure (created, result)

  unfoldable pub post_credit : WorkItem → ProviderTransaction → M W (Bool × MatchResult)
  post_credit item pt = resolve pt >>= post_result item pt

  -- The part of `processCredit` that follows the posting.
  unfoldable pub finish_credit :
      WorkItem → ProviderTransaction → Bool × MatchResult → M W (Unit {0})
  finish_credit item pt (created, result) =
      if not created then mark item.webhook_event_id "ignored" else do
        settle pt result
        mark item.webhook_event_id "processed"
        relay pt result item.payload.event_type

  -- `processCredit`
  unfoldable pub process_credit : WorkItem → ProviderTransaction → M W (Unit {0})
  process_credit item pt = post_credit item pt >>= finish_credit item pt

  -- `processReversal`
  unfoldable pub process_reversal : WorkItem → ProviderTransaction → M W (Unit {0})
  process_reversal item pt = do
    result ← or_wrap "reversal match" (match_reversal wk.matcher pt)
    or_wrap "post reversal"
          (wk.txns.post_transaction (transaction_of item pt result debit reversed) result.entries)
        >>= λ _. mark item.webhook_event_id "processed"

  -- `process`
  unfoldable pub process : WorkItem → M W (Unit {0})
  process item =
      let pt = item.payload.transaction in
      let kind = item.payload.event_type in
      if str_eq kind "payment_success"
      then process_credit item pt
      else if str_eq kind "payment_reversal"
      then process_reversal item pt
      else mark item.webhook_event_id "ignored"

  -- One round of the loop in `Run`: an error is logged and the event marked as failed.
  unfoldable pub run_item : WorkItem → W → W
  run_item item w = elim (process item w).0 [
    | ok _ ↦ (process item w).1
    | err _ ↦ (mark item.webhook_event_id "failed" (process item w).1).1
  ]

  -- `Run` on a queue, to its end.
  unfoldable pub run : List WorkItem → W → W
  run [] w = w
  run (item ∷ items) w = run items (run_item item w)
