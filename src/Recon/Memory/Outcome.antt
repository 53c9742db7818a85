-- ===== src/Recon/Memory/Outcome.antt =====
-- What is left in the ledger and in the suspense list when the worker of internal/recon/worker.go has
-- dealt with a payment, over the stores of internal/store/memstore.
use vaultnuban.Prelude.{
  String, Option, none, some, Bool, true, false, ◌≡◌, refl, inl, inr, ◌∙◌, ap, arith, if◌then◌else◌,
  ◌||◌, Bool-cases, Option-cases,
}
use vaultnuban.Prelude.Word.{Int64, le64}
use vaultnuban.Prelude.Action.{M, Result, attempt, ok, err, wrapped, ◌>>=◌, ◌>>◌, >>=-ok, >>=-err}
use vaultnuban.Domain.{Customer}
use vaultnuban.Ledger.{not_positive}
use vaultnuban.Provider.{ProviderTransaction}
use vaultnuban.Config.{TierLimits}
use vaultnuban.Memstore.World.{World, on_customers}
use vaultnuban.Memstore.Transactions.Post.{is_posted}
use vaultnuban.Memstore.Suspense.{SuspenseStore, create_suspense_item}
use vaultnuban.Memstore.Customers.{get_customer}
use vaultnuban.Recon.Matcher.{MatchResult, new_item}
use vaultnuban.Recon.Worker.{
  WorkItem, Worker, post_credit, settle, fulfil, mark, relay, relay_to, finish_credit,
  process_credit,
}
use vaultnuban.Recon.Worker.Paths.{settle_never_fails}
use vaultnuban.Recon.Memory.{mem_worker, Route, to_wallet, held, route}
use vaultnuban.Recon.Memory.Routing.{result_for}
use vaultnuban.Recon.Memory.Credit.{
  lines_for, with_payment, post_credit-new, post_credit-duplicate, post_credit-refused,
}

-- A call that leaves the ledger and the suspense list alone.
abbrev pub KeepsMoney : {A : Type 0} → M World A → Type 0
KeepsMoney m = (w : World) → ((m w).1.txns ≡ w.txns) × ((m w).1.suspense ≡ w.suspense)

abbrev Kept : {A : Type 0} → World → Result A × World → Type 0
Kept w q = (q.1.txns ≡ w.txns) × (q.1.suspense ≡ w.suspense)

KeepsMoney-bind :
    {A B : Type 0} (m : M World A) (k : A → M World B)
    → KeepsMoney m
    → ((a : A) → KeepsMoney (k a))
    → KeepsMoney (m >>= k)
KeepsMoney-bind {A} {B} m k hm hk w = go (m w) (hm w)
  where
    go : (q : Result A × World) → Kept w q → Kept w (◌>>=◌ (λ (_ : World). q) k w)
    go (ok a, w') h = ((hk a w').0 ∙ h.0, (hk a w').1 ∙ h.1)
    go (err _, w') h = h

-- The suspense list after a new payment by a route.
abbrev pub suspense_after : ProviderTransaction → World → Route → SuspenseStore
suspense_after pt w (to_wallet va) = w.suspense
suspense_after pt w (held va reason) =
    (create_suspense_item w.clock (new_item pt.transaction_id reason) w.suspense).1

module _ (limits : TierLimits)
    (dispatch : Option (String → String → ProviderTransaction → M World (Unit {0})))
    (try_fulfill : Option (String → String → Int64 → M World (Unit {0})))
    (relay_keeps : (d : String → String → ProviderTransaction → M World (Unit {0}))
      → dispatch ≡ some d
      → (tenant kind : String) (pt : ProviderTransaction) → KeepsMoney (d tenant kind pt))
    (fulfil_keeps : (f : String → String → Int64 → M World (Unit {0}))
      → try_fulfill ≡ some f
      → (va tx : String) (amount : Int64) → KeepsMoney (f va tx amount)) where
  abbrev wk : Worker World
  wk = mem_worker limits dispatch try_fulfill

  mark_keeps : (id status : String) → KeepsMoney (mark wk id status)
  unfolding mark
  mark_keeps id status w = ground arith

  fulfil_step : (pt : ProviderTransaction) (result : MatchResult) → KeepsMoney (fulfil wk pt result)
  unfolding fulfil
  fulfil_step pt result w = elim (Option-cases try_fulfill) [
    | inl e ↦ rw (e, fulfil) (refl, refl)
    | inr (f, e) ↦ elim (Option-cases result.va) [
      | inl n ↦ rw (e, n, fulfil) (refl, refl)
      | inr (va, n) ↦ rw (e, n, fulfil) (fulfil_keeps f e va.id pt.transaction_id pt.amount_kobo w)
    ]
  ]

  relay_step :
      (pt : ProviderTransaction) (result : MatchResult) (kind : String)
      → KeepsMoney (relay wk pt result kind)
  unfolding relay get_customer
  relay_step pt result kind w = elim (Option-cases dispatch) [
    | inl e ↦ rw (e, relay) (refl, refl)
    | inr (d, e) ↦ elim (Option-cases result.va) [
      | inl n ↦ rw (e, n, relay) (refl, refl)
      | inr (va, n) ↦
          rw (e, n, relay)
            (KeepsMoney-bind (attempt (on_customers (get_customer "" result.customer_id)))
              (relay_to d kind pt) (λ v. (refl, refl)) (sent d e) w)
    ]
  ]
    where
      sent :
          (d : String → String → ProviderTransaction → M World (Unit {0}))
          → dispatch ≡ some d
          → (found : Result (Option Customer)) → KeepsMoney (relay_to d kind pt found)
      sent d e (err _) v = (refl, refl)
      sent d e (ok none) v = (refl, refl)
      sent d e (ok (some customer)) v = relay_keeps d e customer.tenant_id kind pt v

  -- What the steps after a new posting leave.
  settle_route :
      (pt : ProviderTransaction) (r : Route) (w : World)
      → let w' = (settle wk pt (result_for pt r (lines_for pt r)) w).1 in
        (w'.txns ≡ w.txns) × (w'.suspense ≡ suspense_after pt w r)
  unfolding settle create_suspense_item
  settle_route pt (held va reason) w = (refl, refl)
  settle_route pt (to_wallet va) w =
      fulfil_step pt (result_for pt (to_wallet va) (lines_for pt (to_wallet va))) w

  finish_new :
      (item : WorkItem) (pt : ProviderTransaction) (r : Route) (w : World)
      → let w' = (finish_credit wk item pt (true, result_for pt r (lines_for pt r)) w).1 in
        (w'.txns ≡ w.txns) × (w'.suspense ≡ suspense_after pt w r)
  unfolding finish_credit
  finish_new item pt r w = rw step (kept.0 ∙ settled.0, kept.1 ∙ settled.1)
    where
      result : MatchResult
      result = result_for pt r (lines_for pt r)

      rest : M World (Unit {0})
      rest = mark wk item.webhook_event_id "processed" >> relay wk pt result item.payload.event_type

      after : World
      after = (settle wk pt result w).1

      step : (settle wk pt result >> rest) w ≡ rest after
      step =
          >>=-ok (settle wk pt result) (λ _. rest) w
            (ap (λ o. (o, after)) (settle_never_fails wk pt result w))

      kept : Kept after (rest after)
      kept =
          KeepsMoney-bind (mark wk item.webhook_event_id "processed")
            (λ _. relay wk pt result item.payload.event_type)
            (mark_keeps item.webhook_event_id "processed")
            (λ _. relay_step pt result item.payload.event_type) after

      settled : (after.txns ≡ w.txns) × (after.suspense ≡ suspense_after pt w r)
      settled = settle_route pt r w

  -- The three ways a payment ends.
  pub process_credit_cases :
      (item : WorkItem) (pt : ProviderTransaction) (w : World)
      → let w' = (process_credit wk item pt w).1 in
        (le64 pt.amount_kobo 0 ≡ true
          → process_credit wk item pt w ≡ (err (wrapped "match" (not_positive pt.amount_kobo)), w))
        × (is_posted pt.transaction_id w.txns ≡ true
            → (w'.txns ≡ w.txns) × (w'.suspense ≡ w.suspense))
        × (le64 pt.amount_kobo 0 ≡ false
            → is_posted pt.transaction_id w.txns ≡ false
            → (w'.txns ≡ (with_payment limits item pt w).txns)
              × (w'.suspense ≡ suspense_after pt w (route limits pt w)))
  unfolding process_credit finish_credit
  process_credit_cases item pt w = (refused, old, new)
    where
      post : M World (Bool × MatchResult)
      post = post_credit wk item pt

      refused :
          le64 pt.amount_kobo 0 ≡ true
          → process_credit wk item pt w ≡ (err (wrapped "match" (not_positive pt.amount_kobo)), w)
      refused h =
          >>=-err post (finish_credit wk item pt) w
            (post_credit-refused limits dispatch try_fulfill item pt w h)

      old :
          is_posted pt.transaction_id w.txns ≡ true
          → ((process_credit wk item pt w).1.txns ≡ w.txns)
            × ((process_credit wk item pt w).1.suspense ≡ w.suspense)
      old known = elim (Bool-cases (le64 pt.amount_kobo 0)) [
        | inl h ↦ rw (refused h) (refl, refl)
        | inr h ↦
            rw
              (>>=-ok post (finish_credit wk item pt) w
                (post_credit-duplicate limits dispatch try_fulfill item pt w h known))
              (mark_keeps item.webhook_event_id "ignored" w)
      ]

      new :
          le64 pt.amount_kobo 0 ≡ false
          → is_posted pt.transaction_id w.txns ≡ false
          → ((process_credit wk item pt w).1.txns ≡ (with_payment limits item pt w).txns)
            × ((process_credit wk item pt w).1.suspense ≡ suspense_after pt w (route limits pt w))
      new h fresh =
          rw
            (>>=-ok post (finish_credit wk item pt) w
              (post_credit-new limits dispatch try_fulfill item pt w h fresh))
            (finish_new item pt (route limits pt w) (with_payment limits item pt w))

  -- The worker posts a payment exactly if its amount is positive and its id is not in the ledger. The
  -- posting is then the one of its route, with a suspense item exactly if the route is to suspense.
  -- Otherwise neither the ledger nor the suspense list changes. The relay and the collection check
  -- are assumed to leave both alone.
  pub process_credit_outcome :
      (item : WorkItem) (pt : ProviderTransaction) (w : World)
      → let w' = (process_credit (mem_worker limits dispatch try_fulfill) item pt w).1 in
        let skipped = le64 pt.amount_kobo 0 || is_posted pt.transaction_id w.txns in
        (w'.txns ≡ (if skipped then w.txns else (with_payment limits item pt w).txns))
        × (w'.suspense ≡ (if skipped then w.suspense else suspense_after pt w (route limits pt w)))
  process_credit_outcome item pt w = elim (Bool-cases (le64 pt.amount_kobo 0)) [
    | inl h ↦ rw (h, (process_credit_cases item pt w).0 h) (refl, refl)
    | inr h ↦ elim (Bool-cases (is_posted pt.transaction_id w.txns)) [
      | inl known ↦ rw (h, known) ((process_credit_cases item pt w).1 known)
      | inr fresh ↦ rw (h, fresh) ((process_credit_cases item pt w).2 h fresh)
    ]
  ]
