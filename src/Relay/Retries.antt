-- ===== src/Relay/Retries.antt =====
-- The fan-out and the retries of internal/relay/relay.go over the store of internal/store/memstore.
use vaultnuban.Prelude.{
  ℕ, zero, suc, String, List, [], ◌∷◌, ◌++◌, Bool, ◌≡◌, refl, sym, ap, ◌∙◌, ◌≤◌, arith, Bool-cases,
  select, take, length, map, inl, inr,
}
use mathlib.Core.List.{Perm}
use mathlib.Core.List.Perm
use vaultnuban.Prelude.Action.{M, Result, ok}
use vaultnuban.Prelude.Text.{str_eq}
use vaultnuban.Prelude.Dict.{values, lookup}
use vaultnuban.Domain.{Bytes, Time, RelayEndpoint, RelayDelivery}
use vaultnuban.Memstore.World.{World}
use vaultnuban.Memstore.Relay.{is_due, list_pending_retries, list_endpoints, get_endpoint}
use vaultnuban.Relay.{
  Dispatcher, RelayRequest, Job, EventPayload, first_attempts, dispatch, retry_loop, retry_pending,
  next_attempt, run_jobs,
}
use vaultnuban.Relay.Attempts.{mem_dispatcher, run_jobs_logged, Logs}

-- The failed deliveries whose time for a retry has come.
abbrev pub due : Time → World → List RelayDelivery
due at w = select (is_due at) w.relay.deliveries

select-append {ℓ} :
    {A : Type ℓ} (p : A → Bool) (xs ys : List A) → select p (xs ++ ys) ≡ select p xs ++ select p ys
select-append p [] ys = refl
select-append p (x ∷ xs) ys = elim (Bool-cases (p x)) [
  | inl y ↦ rw (y, select-append p xs ys) refl
  | inr n ↦ rw (n, select-append p xs ys) refl
]

take-append {ℓ} :
    {A : Type ℓ} (n : ℕ) (xs ys : List A) → n ≤ length xs → take n (xs ++ ys) ≡ take n xs
take-append zero xs ys h = refl
take-append (suc n) [] ys h = elim h [ ]
take-append (suc n) (x ∷ xs) ys h = ap (λ zs. x ∷ zs) (take-append n xs ys (omega arith))

-- The record names the endpoint of the job.
abbrev pub endpoint_ids : List RelayDelivery → List String
endpoint_ids = map (λ r. r.endpoint_id)

Logs-endpoint_ids :
    (jobs : List Job) (rs : List RelayDelivery)
    → Logs jobs rs
    → endpoint_ids rs ≡ map (λ job. job.endpoint.id) jobs
Logs-endpoint_ids [] [] h = refl
Logs-endpoint_ids [] (r ∷ rs) h = elim h [ ]
Logs-endpoint_ids (job ∷ jobs) [] h = elim h [ ]
Logs-endpoint_ids (job ∷ jobs) (r ∷ rs) (l, ls) = λ i. l.0 i ∷ Logs-endpoint_ids jobs rs ls i

first_attempts-endpoint_ids :
    (event_type : String) (body : Bytes) (eps : List RelayEndpoint)
    → map (λ job. job.endpoint.id) (first_attempts event_type body eps)
      ≡ map (λ ep. ep.id) (select (λ ep. ep.active) eps)
unfolding first_attempts
first_attempts-endpoint_ids event_type body [] = refl
first_attempts-endpoint_ids event_type body (ep ∷ eps) = elim (Bool-cases ep.active) [
  | inl y ↦ rw y (ap (λ ids. ep.id ∷ ids) (first_attempts-endpoint_ids event_type body eps))
  | inr n ↦ rw n (first_attempts-endpoint_ids event_type body eps)
]

module _ (do_request : RelayRequest → M World ℕ) (hmac_hex : String → Bytes → String)
    (relay_kept : (request : RelayRequest) (w : World)
      → (do_request request w).1.relay ≡ w.relay) where
  abbrev d : Dispatcher World
  d = mem_dispatcher do_request hmac_hex

  -- The loop reads the endpoints and nothing else.
  retry_loop-endpoints :
      (dels : List RelayDelivery) (w w' : World)
      → w'.relay.endpoints ≡ w.relay.endpoints
      → (retry_loop d dels w').0 ≡ (retry_loop d dels w).0
  unfolding retry_loop get_endpoint
  retry_loop-endpoints [] w w' h = refl
  retry_loop-endpoints (del ∷ dels) w w' h = λ i.
      next_attempt del (ok (lookup del.endpoint_id (h i))) ++ retry_loop-endpoints dels w w' h i

  retry_pending-jobs :
      (w : World) → (retry_pending d w).0 ≡ (retry_loop d (take 100 (due w.clock w)) w).0
  unfolding retry_pending list_pending_retries
  retry_pending-jobs w = refl

  -- An HTTP client that leaves the relay's store alone: whatever jobs have run, and however they
  -- ended, the deliveries that were due for a retry at a time are due at that time still, and stand
  -- before any that the jobs added.
  retry_never_settles :
      (jobs : List Job) (w : World) (at : Time)
      → (more : List RelayDelivery) × (due at (run_jobs (mem_dispatcher do_request hmac_hex) jobs w)
          ≡ due at w ++ more)
  retry_never_settles jobs w at =
      let (new, grown, same, logs) = run_jobs_logged do_request hmac_hex relay_kept jobs w in
      (
        select (is_due at) new,
        ap (select (is_due at)) grown ∙ select-append (is_due at) w.relay.deliveries new,
      )

  -- An HTTP client that leaves the relay's store alone: once 100 deliveries are due at a time, the jobs
  -- that `RetryPending` starts at that time are the same before and after any jobs have run.
  pub retry_starves :
      (jobs : List Job) (w : World) (at : Time)
      → 100 ≤ length (due at w)
      → let w' = run_jobs (mem_dispatcher do_request hmac_hex) jobs w in
        (retry_pending (mem_dispatcher do_request hmac_hex) (record w' { clock = at })).0
        ≡ (retry_pending (mem_dispatcher do_request hmac_hex) (record w { clock = at })).0
  retry_starves jobs w at full =
      let w' = run_jobs d jobs w in
      let (new, grown, same, logs) = run_jobs_logged do_request hmac_hex relay_kept jobs w in
      let (more, later) = retry_never_settles jobs w at in
      retry_pending-jobs (record w' { clock = at })
      ∙ ap (λ dels. (retry_loop d dels (record w' { clock = at })).0)
          (ap (take 100) later ∙ take-append 100 (due at w) more full)
      ∙ retry_loop-endpoints (take 100 (due at w)) (record w { clock = at })
          (record w' { clock = at }) same
      ∙ sym (retry_pending-jobs (record w { clock = at }))

  -- An HTTP client that leaves the relay's store alone, and a payload that can be encoded: `Dispatch`
  -- writes nothing, and when its jobs have run, in any order, the store has one new record for each
  -- active endpoint of the tenant, in some order, and no other new record.
  pub dispatch_fan_out :
      (marshal : EventPayload → Result Bytes) (tenant_id : String) (payload : EventPayload)
      (body : Bytes) (w : World) (ran : List Job)
      → marshal payload ≡ ok body
      → Perm ran (dispatch (mem_dispatcher do_request hmac_hex) marshal tenant_id payload w).0
      → let d = mem_dispatcher do_request hmac_hex in
        ((dispatch d marshal tenant_id payload w).1 ≡ w)
        × (new : List RelayDelivery) × ((run_jobs d ran w).relay.deliveries
            ≡ w.relay.deliveries ++ new)
        × Perm (endpoint_ids new) (
            map
              (λ ep. ep.id)
              (select
                (λ ep. ep.active)
                (select (λ ep. str_eq ep.tenant_id tenant_id) (values w.relay.endpoints))))
  unfolding dispatch list_endpoints
  dispatch_fan_out marshal tenant_id payload body w ran encoded order =
      let (new, grown, same, logs) = run_jobs_logged do_request hmac_hex relay_kept ran w in
      let eps =
        select (λ (ep : RelayEndpoint). str_eq ep.tenant_id tenant_id) (values w.relay.endpoints) in
      (
        rw encoded refl,
        new,
        grown,
        rw
            (
              Logs-endpoint_ids ran new logs,
              ← first_attempts-endpoint_ids payload.event_type body eps,
            )
            (Perm.map (λ (job : Job). job.endpoint.id) (rw encoded at order)),
      )
