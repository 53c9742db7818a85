-- ===== src/Tests/Relay.antt =====
-- A tenant with two endpoints, one of them switched off, and deliveries that failed.
use vaultnuban.Prelude.{
  ℕ, zero, suc, String, List, [], ◌∷◌, ◌++◌, none, some, true, false, ◌≡◌, refl, arith,
}
use mathlib.Core.List.{Perm}
use mathlib.Core.List.Perm
use vaultnuban.Prelude.Action.{Result, ok}
use vaultnuban.Domain.{Bytes, RelayEndpoint, RelayDelivery, failed}
use vaultnuban.Memstore.World.{World, new_world}
use vaultnuban.Memstore.Relay.{list_endpoints}
use vaultnuban.Relay.{
  RelayRequest, Job, EventPayload, first_attempts, run_jobs, retry_pending, dispatch,
}
use vaultnuban.Relay.Attempts.{mem_dispatcher, Logs, run_jobs_logged}
use vaultnuban.Relay.Retries.{endpoint_ids, retry_starves, dispatch_fan_out}

abbrev endpoint : String → RelayEndpoint
endpoint id = record {
  id = id;
  tenant_id = "tenant-1";
  url = "https://example.com";
  secret_hash = "s";
  active = true;
  created_at = 1;
}

abbrev lost : RelayDelivery
lost = record {
  id = "del-1";
  endpoint_id = "ep-1";
  event_type = "credit";
  payload = [];
  attempt = 1;
  status = failed;
  status_code = none;
  error = none;
  next_retry_at = some 3;
  delivered_at = none;
  created_at = 1;
}

abbrev copies : ℕ → List RelayDelivery
copies zero = []
copies (suc n) = lost ∷ copies n

abbrev relaying : List RelayDelivery → World
relaying deliveries = record (new_world 7) {
  relay = record {
    endpoints =
        ("ep-1", endpoint "ep-1") ∷ ("ep-2", record (endpoint "ep-2") { active = false }) ∷ [];
    deliveries = deliveries;
  };
}

abbrev answer : RelayRequest → World → Result ℕ × World
answer request w = (ok 503, w)

abbrev hmac : String → Bytes → String
hmac key body = key

abbrev job : Job
job = record { endpoint = endpoint "ep-1"; event_type = "credit"; body = []; attempt = 3 }

run_jobs_logged_example :
    let w' = run_jobs (mem_dispatcher answer hmac) (job ∷ []) (relaying []) in
    (new : List RelayDelivery) × (w'.relay.deliveries ≡ [] ++ new)
    × (w'.relay.endpoints ≡ (relaying []).relay.endpoints)
    × Logs (job ∷ []) new
run_jobs_logged_example = run_jobs_logged answer hmac (λ request w. refl) (job ∷ []) (relaying [])

abbrev full : World
full = relaying (copies 100)

retry_starves_example :
    let d = mem_dispatcher answer hmac in
    (retry_pending d (record (run_jobs d (job ∷ []) full) { clock = 9 })).0
    ≡ (retry_pending d (record full { clock = 9 })).0
retry_starves_example =
    retry_starves answer hmac (λ request w. refl) (job ∷ []) full 9 (omega arith)

abbrev event : EventPayload
event = record { event_type = "credit"; occurred_at = ""; transaction = [] }

abbrev encode : EventPayload → Result Bytes
encode payload = ok payload.transaction

dispatch_fan_out_example :
    let d = mem_dispatcher answer hmac in
    ((dispatch d encode "tenant-1" event (relaying [])).1 ≡ relaying [])
    × (new : List RelayDelivery) × ((run_jobs d
          (record job { attempt = 1 } ∷ [])
          (relaying [])).relay.deliveries
        ≡ [] ++ new)
    × Perm (endpoint_ids new) ("ep-1" ∷ [])
unfolding dispatch list_endpoints first_attempts
dispatch_fan_out_example =
    dispatch_fan_out answer hmac (λ request w. refl) encode "tenant-1" event [] (relaying [])
      (record job { attempt = 1 } ∷ []) refl (Perm.refl (record job { attempt = 1 } ∷ []))
