-- ===== src/Recon/Sweep/Memory.antt =====
-- `ProcessDirect` of internal/recon/worker.go, as the sweep calls it, over the in-memory stores.
use vaultnuban.Prelude.{
  String, Option, none, some, Bool, true, false, not, ◌||◌, ◌≡◌, refl, sym, inl, inr, ◌∙◌, ap,
  arith, if◌then◌else◌, Bool-cases, Option-cases,
}
use vaultnuban.Prelude.Word.{Int64, le64}
use vaultnuban.Prelude.Text.{str_eq}
use vaultnuban.Prelude.Dict.{lookup}
use vaultnuban.Prelude.Action.{M, Result, ok, err, wrapped, ◌>>=◌, >>=-ok, >>=-err, pure}
use vaultnuban.Domain.{is_nil}
use vaultnuban.Ledger.{not_positive}
use vaultnuban.Provider.{ProviderTransaction}
use vaultnuban.Config.{TierLimits}
use vaultnuban.Memstore.World.{World}
use vaultnuban.Memstore.Transactions.{get_transaction}
use vaultnuban.Memstore.Transactions.Post.{is_posted}
use vaultnuban.Recon.Worker.{
  Worker, WorkItem, post_credit, resolve, tier_checked, post_result, settle, fulfil, process_credit,
}
use vaultnuban.Recon.Direct.{
  ProcessResult, finish_direct, process_credit_direct, process_direct, dispatch_direct,
}
use vaultnuban.Recon.Worker.Paths.{settle_never_fails, process_credit-process_credit_direct}
use vaultnuban.Recon.Memory.{mem_worker, route, Route, to_wallet, held}
use vaultnuban.Recon.Memory.Routing.{result_for}
use vaultnuban.Recon.Memory.Credit.{
  with_payment, result_of, lines_for, post_credit-new, post_credit-refused,
}
use vaultnuban.Recon.Memory.Outcome.{KeepsMoney, process_credit_outcome, suspense_after}

abbrev pub is_held : Route → Bool
is_held (to_wallet va) = false
is_held (held va reason) = true

abbrev pub skipped_report : ProcessResult
skipped_report = record { skipped = true; posted = false; suspensed = false }

abbrev pub report_of : Bool × Bool → ProcessResult
report_of (posted, suspensed) = record { skipped = false; posted = posted; suspensed = suspensed }

abbrev with_report : Result (Bool × Bool) → Result ProcessResult
with_report (ok done) = ok (report_of done)
with_report (err e) = err e

module _ (limits : TierLimits)
    (dispatch : Option (String → String → ProviderTransaction → M World (Unit {0})))
    (try_fulfill : Option (String → String → Int64 → M World (Unit {0})))
    (fulfil_keeps : (f : String → String → Int64 → M World (Unit {0}))
      → try_fulfill ≡ some f
      → (va tx : String) (amount : Int64) → KeepsMoney (f va tx amount))
    (item : WorkItem) (w : World) where
  abbrev pt : ProviderTransaction
  pt = item.payload.transaction

  abbrev wk : Worker World
  wk = mem_worker limits dispatch try_fulfill

  -- This path neither relays nor marks an event.
  direct_alone :
      process_credit_direct (mem_worker limits dispatch try_fulfill) item pt w
      ≡ process_credit_direct
          (mem_worker limits none try_fulfill)
          (record item { webhook_event_id = "" })
          pt
          w
  unfolding process_credit_direct post_credit resolve tier_checked post_result finish_direct settle
      fulfil
  direct_alone = refl

  -- The state that `processCreditDirect` leaves is the one of the queue's path.
  direct_state :
      (process_credit_direct (mem_worker limits dispatch try_fulfill) item pt w).1
      ≡ (process_credit
          (mem_worker limits none try_fulfill)
          (record item { webhook_event_id = "" })
          pt
          w).1
  direct_state =
      ap (λ q. q.1) direct_alone
      ∙ sym (
          ap (λ q. q.1)
            (process_credit-process_credit_direct (mem_worker limits none try_fulfill)
              (record item { webhook_event_id = "" }) pt w refl refl))

  direct_outcome :
      let w' = (process_credit_direct (mem_worker limits dispatch try_fulfill) item pt w).1 in
      let skipped = le64 pt.amount_kobo 0 || is_posted pt.transaction_id w.txns in
      (w'.txns ≡ (if skipped then w.txns else (with_payment limits item pt w).txns))
      × (w'.suspense ≡ (if skipped then w.suspense else suspense_after pt w (route limits pt w)))
  direct_outcome = rw direct_state (
      process_credit_outcome limits none try_fulfill (λ d e. cc) fulfil_keeps
        (record item { webhook_event_id = "" }) pt w)

  -- What `processCreditDirect` returns for a payment that is not in the ledger.
  direct_result :
      is_posted pt.transaction_id w.txns ≡ false
      → (process_credit_direct (mem_worker limits dispatch try_fulfill) item pt w).0 ≡ (
          if le64 pt.amount_kobo 0
          then err (wrapped "match" (not_positive pt.amount_kobo))
          else ok (true, is_held (route limits pt w)))
  unfolding process_credit_direct finish_direct
  direct_result new = elim (Bool-cases (le64 pt.amount_kobo 0)) [
    | inl low ↦
        ap (λ q. q.0)
          (>>=-err (post_credit wk item pt) (finish_direct wk pt) w
            (post_credit-refused limits dispatch try_fulfill item pt w low))
        ∙ rw low refl
    | inr positive ↦
        ap (λ q. q.0)
          (>>=-ok (post_credit wk item pt) (finish_direct wk pt) w
            (post_credit-new limits dispatch try_fulfill item pt w positive new))
        ∙ ap (λ q. q.0)
            (>>=-ok (settle wk pt (result_of limits pt w))
              (λ _. pure (true, not (is_nil (result_of limits pt w).suspense)))
              (with_payment limits item pt w)
              (ap
                (λ o. (o, (settle wk pt (result_of limits pt w) (with_payment limits item pt w)).1))
                (settle_never_fails wk pt (result_of limits pt w) (with_payment limits item pt w))))
        ∙ rw positive (ap (λ b. ok (true, b)) (result-held (route limits pt w)))
  ]
    where
      result-held :
          (r : Route) → not (is_nil (result_for pt r (lines_for pt r)).suspense) ≡ is_held r
      result-held (to_wallet va) = refl
      result-held (held va reason) = refl

  dispatched :
      str_eq item.payload.event_type "payment_success" ≡ true
      → dispatch_direct wk item w ≡ (
        with_report (process_credit_direct wk item pt w).0,
        (process_credit_direct wk item pt w).1,
      )
  unfolding dispatch_direct
  dispatched kind = rw kind (go (process_credit_direct wk item pt w))
    where
      go :
          (q : Result (Bool × Bool) × World)
          → ◌>>=◌ (λ (_ : World). q) (λ done. pure (report_of done)) w ≡ (with_report q.0, q.1)
      go (ok done, w') = refl
      go (err e, w') = refl

  existing :
      is_posted pt.transaction_id w.txns ≡ true → process_direct wk item w ≡ (ok skipped_report, w)
  unfolding process_direct get_transaction
  existing old = ground arith

  missing :
      is_posted pt.transaction_id w.txns ≡ false
      → process_direct wk item w ≡ dispatch_direct wk item w
  unfolding process_direct get_transaction
  missing new = elim (Option-cases (lookup pt.transaction_id w.txns.txns)) [
    | inl none_yet ↦ rw none_yet refl
    | inr (old, e) ↦ ground arith
  ]

  -- `ProcessDirect` on a payment, with a collection check that leaves ledger and suspense list alone:
  -- what it books is what the queue's path books, and what it reports is what it did, namely skipped if
  -- the id is in the ledger, an error if the amount is not positive, and else posted, or posted to
  -- suspense.
  pub process_direct_outcome :
      str_eq item.payload.event_type "payment_success" ≡ true
      → let (r, w') = process_direct (mem_worker limits dispatch try_fulfill) item w in
        let p = item.payload.transaction in
        let untouched = le64 p.amount_kobo 0 || is_posted p.transaction_id w.txns in
        (w'.txns ≡ (if untouched then w.txns else (with_payment limits item p w).txns))
        × (w'.suspense ≡ (if untouched then w.suspense else suspense_after p w (route limits p w)))
        × (r ≡ (
            if is_posted p.transaction_id w.txns
            then ok skipped_report
            else if le64 p.amount_kobo 0
            then err (wrapped "match" (not_positive p.amount_kobo))
            else ok (report_of (true, is_held (route limits p w)))))
  process_direct_outcome kind = elim (Bool-cases (is_posted pt.transaction_id w.txns)) [
    | inl old ↦ elim (Bool-cases (le64 pt.amount_kobo 0)) [
      | inl low ↦ rw (existing old, low, old) (refl, refl, refl)
      | inr positive ↦ rw (existing old, positive, old) (refl, refl, refl)
    ]
    | inr new ↦
        rw (missing new ∙ dispatched kind, direct_result new)
          (
            direct_outcome.0,
            direct_outcome.1,
            elim (Bool-cases (le64 pt.amount_kobo 0)) [
              | inl low ↦ rw (new, low) refl
              | inr positive ↦ rw (new, positive) refl
            ],
          )
  ]
