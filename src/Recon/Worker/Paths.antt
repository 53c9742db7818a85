-- ===== src/Recon/Worker/Paths.antt =====
-- The two ways into the ledger of internal/recon/worker.go: the queue, which `processCredit` serves,
-- and the sweep, which calls `processCreditDirect`.
use vaultnuban.Prelude.{String, none, Bool, true, false, ◌≡◌, refl, arith, inl, inr, Option-cases}
use vaultnuban.Prelude.Action.{ok, void, >>=-void}
use vaultnuban.Provider.{ProviderTransaction}
use vaultnuban.Recon.Matcher.{MatchResult}
use vaultnuban.Recon.Worker.{
  Worker, WorkItem, fulfil, mark, relay, settle, post_credit, finish_credit, process_credit,
}
use vaultnuban.Recon.Direct.{finish_direct, process_credit_direct}

module _ {W : Type 0} (wk : Worker W) where
  pub mark_no_event : (id status : String) (w : W) → id ≡ "" → mark wk id status w ≡ (ok tt, w)
  unfolding mark
  mark_no_event id status w e = rw e refl

  pub relay_no_dispatcher :
      (pt : ProviderTransaction) (result : MatchResult) (kind : String) (w : W)
      → wk.dispatch ≡ none
      → relay wk pt result kind w ≡ (ok tt, w)
  unfolding relay
  relay_no_dispatcher pt result kind w e = rw (e, relay) refl

  fulfil_never_fails :
      (pt : ProviderTransaction) (result : MatchResult) (w : W) → (fulfil wk pt result w).0 ≡ ok tt
  unfolding fulfil
  fulfil_never_fails pt result w = elim (Option-cases wk.try_fulfill) [
    | inl e ↦ rw (e, fulfil) refl
    | inr (call, e) ↦ elim (Option-cases result.va) [
      | inl f ↦ rw (e, f, fulfil) refl
      | inr (va, f) ↦ rw (e, f, fulfil) refl
    ]
  ]

  -- Errors of the suspense store and of the collection check are dropped.
  pub settle_never_fails :
      (pt : ProviderTransaction) (result : MatchResult) (w : W) → (settle wk pt result w).0 ≡ ok tt
  unfolding settle
  settle_never_fails pt result w = elim (Option-cases result.suspense) [
    | inr (item, e) ↦ rw (e, settle) refl
    | inl e ↦ rw (e, settle) (fulfil_never_fails pt result w)
  ]

finish_agrees :
    {W : Type 0} (wk : Worker W) (item : WorkItem) (pt : ProviderTransaction)
    (outcome : Bool × MatchResult) (w : W)
    → item.webhook_event_id ≡ ""
    → wk.dispatch ≡ none
    → finish_credit wk item pt outcome w
      ≡ (void (finish_direct wk pt outcome w).0, (finish_direct wk pt outcome w).1)
unfolding finish_credit finish_direct
finish_agrees wk item pt (true, result) w no_event no_relay = ground (
  arith,
  settle_never_fails wk pt result w,
  mark_no_event wk item.webhook_event_id "processed" (settle wk pt result w).1 no_event,
  relay_no_dispatcher wk pt result item.payload.event_type (settle wk pt result w).1 no_relay,
)
finish_agrees wk item pt (false, result) w no_event no_relay =
    mark_no_event wk item.webhook_event_id "ignored" w no_event

-- Without a webhook event to mark and without a dispatcher, the queue's path and the sweep's path
-- leave the same state and fail with the same errors, for every implementation of the stores.
pub process_credit-process_credit_direct :
    {W : Type 0} (wk : Worker W) (item : WorkItem) (pt : ProviderTransaction) (w : W)
    → item.webhook_event_id ≡ ""
    → wk.dispatch ≡ none
    → let (r, w') = process_credit_direct wk item pt w in process_credit wk item pt w ≡ (void r, w')
unfolding process_credit process_credit_direct
process_credit-process_credit_direct wk item pt w no_event no_relay =
    >>=-void (post_credit wk item pt) (finish_credit wk item pt) (finish_direct wk pt) w
      (λ outcome w'. finish_agrees wk item pt outcome w' no_event no_relay)
