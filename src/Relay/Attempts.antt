-- ===== src/Relay/Attempts.antt =====
-- The attempts of internal/relay/relay.go over the store of internal/store/memstore.
use vaultnuban.Prelude.{
  ℕ, String, List, [], ◌∷◌, ◌++◌, none, some, true, ◌≡◌, refl, sym, ap, ◌∙◌, ◌≤◌, ◌<◌, ◌+◌, leb,
  arith, Bool-cases, inl, inr,
}
use mathlib.Core.List.{append-nil, append_assoc}
use vaultnuban.Prelude.Action.{M, Result, ok, err, error_text}
use vaultnuban.Prelude.Text.{concat, decimal}
use vaultnuban.Domain.{
  Bytes, RelayDelivery, DeliveryStatus, pending, delivered, failed, dead_letter,
}
use vaultnuban.Memstore.World.{World, mem_relay, mem_now}
use vaultnuban.Memstore.Ids.{next_id}
use vaultnuban.Memstore.Relay.{create_delivery}
use vaultnuban.Relay.{
  Dispatcher, RelayRequest, Job, max_attempts, retry_delay, record_success, record_failure,
  record_answer, request_of, deliver, run_jobs, is_success, success_of, failure_of,
}

abbrev pub mem_dispatcher :
    (RelayRequest → M World ℕ) → (String → Bytes → String) → Dispatcher World
mem_dispatcher do_request hmac_hex = record {
  store = mem_relay;
  do_request = do_request;
  now = mem_now;
  hmac_hex = hmac_hex;
}

-- What the status of a delivery says of the rest of it.
abbrev pub Settled : DeliveryStatus → RelayDelivery → Type 0
Settled pending r = ⊥
Settled delivered r =
    (code : ℕ) × (r.status_code ≡ some code)
    × (200 ≤ code)
    × (code < 300)
    × (r.next_retry_at ≡ none)
Settled failed r = (r.attempt < 3) × ((at : ℕ) × (r.next_retry_at ≡ some at))
Settled dead_letter r = (3 ≤ r.attempt) × (r.next_retry_at ≡ none)

-- The record is the log of the job's attempt.
abbrev pub IsLogOf : Job → RelayDelivery → Type 0
IsLogOf job r =
    (r.endpoint_id ≡ job.endpoint.id)
    × (r.event_type ≡ job.event_type)
    × (r.payload ≡ job.body)
    × (r.attempt ≡ job.attempt)
    × Settled r.status r

-- One record for each job, in the same order.
abbrev pub Logs : List Job → List RelayDelivery → Type 0
Logs [] [] = Unit {0}
Logs [] (r ∷ rs) = ⊥
Logs (job ∷ jobs) [] = ⊥
Logs (job ∷ jobs) (r ∷ rs) = IsLogOf job r × Logs jobs rs

-- A store with one more record of a job's attempt.
abbrev pub Logged : Job → World → World → Type 0
Logged job w w' =
    (r : RelayDelivery) × (w'.relay.deliveries ≡ w.relay.deliveries ++ r ∷ [])
    × (w'.relay.endpoints ≡ w.relay.endpoints)
    × IsLogOf job r

-- What the store keeps of a new record.
abbrev stored : RelayDelivery → World → RelayDelivery
unfolding next_id
stored r w = record r { id = (next_id "del" w.id_seq).0; created_at = w.clock }

-- A failed attempt is tried again until the last one.
failure-Settled :
    (job : Job) (code : ℕ) (reason : String) (w : World)
    → let r = stored (failure_of job code reason w.clock) w in Settled r.status r
unfolding stored
failure-Settled job code reason w = elim (Bool-cases (leb max_attempts job.attempt)) [
  | inl over ↦ rw over (ground arith, refl)
  | inr more ↦ rw more (ground arith, (w.clock + retry_delay job.attempt, refl))
]

module _ (do_request : RelayRequest → M World ℕ) (hmac_hex : String → Bytes → String) where
  abbrev d : Dispatcher World
  d = mem_dispatcher do_request hmac_hex

  success-Logged :
      (job : Job) (code : ℕ) (w : World)
      → is_success code ≡ true
      → Logged job w (record_success d job code w).1
  unfolding record_success create_delivery
  success-Logged job code w h = (
    stored (success_of job code w.clock) w,
    refl,
    refl,
    (refl, refl, refl, refl, (code, refl, ground arith, ground arith, refl)),
  )

  failure-Logged :
      (job : Job) (code : ℕ) (reason : String) (w : World)
      → Logged job w (record_failure d job code reason w).1
  unfolding record_failure create_delivery
  failure-Logged job code reason w = (
    stored (failure_of job code reason w.clock) w,
    refl,
    refl,
    (refl, refl, refl, refl, failure-Settled job code reason w),
  )

  answer-Logged : (job : Job) (q : Result ℕ × World) → Logged job q.1 (record_answer d job q).1
  unfolding record_answer
  answer-Logged job (err e, w) = failure-Logged job 0 (error_text e) w
  answer-Logged job (ok code, w) = elim (Bool-cases (is_success code)) [
    | inl good ↦ rw good (success-Logged job code w good)
    | inr bad ↦ rw bad (failure-Logged job code (concat "non-2xx response: " (decimal code)) w)
  ]

  module _
      (relay_kept : (request : RelayRequest) (w : World)
        → (do_request request w).1.relay ≡ w.relay) where
    deliver-Logged : (job : Job) (w : World) → Logged job w (deliver d job w)
    unfolding deliver
    deliver-Logged job w =
        let (r, grown, same, log) = answer-Logged job (do_request (request_of d job) w) in
        (
          r,
          rw (grown, relay_kept (request_of d job) w) refl,
          rw (same, relay_kept (request_of d job) w) refl,
          log,
        )

    -- An HTTP client that leaves the relay's store alone: after any jobs have run, in the order in
    -- which they ran, the store has one more record for each of them, behind the records that it had,
    -- and the same endpoints. A record names the job's endpoint, event, payload and attempt. It is
    -- settled: delivered with a 2xx code and no retry, failed before attempt 3 with a time for the
    -- retry, or in dead_letter from attempt 3 on with none.
    pub run_jobs_logged :
        (jobs : List Job) (w : World)
        → let w' = run_jobs (mem_dispatcher do_request hmac_hex) jobs w in
          (new : List RelayDelivery) × (w'.relay.deliveries ≡ w.relay.deliveries ++ new)
          × (w'.relay.endpoints ≡ w.relay.endpoints)
          × Logs jobs new
    unfolding run_jobs
    run_jobs_logged [] w = ([], sym (append-nil w.relay.deliveries), refl, tt)
    run_jobs_logged (job ∷ jobs) w =
        let (r, grown, same, log) = deliver-Logged job w in
        let (new, more, kept, logs) = run_jobs_logged jobs (deliver d job w) in
        (
          r ∷ new,
          more ∙ ap (λ rs. rs ++ new) grown ∙ append_assoc w.relay.deliveries (r ∷ []) new,
          kept ∙ same,
          (log, logs),
        )
