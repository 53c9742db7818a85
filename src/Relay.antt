-- ===== src/Relay.antt =====
-- internal/relay/relay.go. The HTTP client is a call that answers with a status code or fails, and
-- `hmac_hex` is HMAC-SHA256 in hexadecimal digits, keyed by a text. `go d.deliver(…)` is a job: a call
-- that starts jobs returns them, and they run later, in any order. Logging is left out.
pub mod Attempts
pub mod Retries
use vaultnuban.Prelude.{
  ℕ, String, List, [], ◌∷◌, ◌++◌, Option, none, some, Bool, true, false, not, ◌+◌, ◌*◌, ◌&&◌, ◌==◌,
  leb, ltb, if◌then◌else◌,
}
use vaultnuban.Prelude.Text.{concat, decimal}
use vaultnuban.Prelude.Action.{
  M, Result, Error, ok, err, message, wrapped, error_text, fail, pure, or_wrap, ignoring, ◌>>=◌,
}
use vaultnuban.Domain.{
  Time, Bytes, second, RelayEndpoint, RelayDelivery, DeliveryStatus, delivered, failed, dead_letter,
}
use vaultnuban.Store.{RelayStore}

abbrev pub max_attempts : ℕ
max_attempts = 3

-- `retryDelay`, in nanoseconds.
unfoldable pub retry_delay : ℕ → ℕ
retry_delay attempt = if attempt == 1 then 30 * second else if attempt == 2 then 300 * second else 0

-- The POST of an attempt: the URL, the signature, the attempt and the body.
pub record RelayRequest : Type 0 where
  pub url : String
  pub signature : String
  pub attempt : ℕ
  pub body : Bytes

pub record Dispatcher (W : Type 0) : Type 0 where
  pub store : RelayStore W
  pub do_request : RelayRequest → M W ℕ
  pub now : M W Time
  pub hmac_hex : String → Bytes → String

-- The JSON body of a relay, before it is encoded.
pub record EventPayload : Type 0 where
  pub event_type : String
  pub occurred_at : String
  pub transaction : Bytes

-- The arguments of a `deliver` that runs in a goroutine.
pub record Job : Type 0 where
  pub endpoint : RelayEndpoint
  pub event_type : String
  pub body : Bytes
  pub attempt : ℕ

-- `statusCode >= 200 && statusCode < 300`
abbrev pub is_success : ℕ → Bool
is_success status_code = leb 200 status_code && ltb status_code 300

-- `if statusCode != 0 { sc = &statusCode }`
abbrev pub code_ptr : ℕ → Option ℕ
code_ptr status_code = if status_code == 0 then none else some status_code

abbrev pub success_of : Job → ℕ → Time → RelayDelivery
success_of job status_code now = record {
  id = "";
  endpoint_id = job.endpoint.id;
  event_type = job.event_type;
  payload = job.body;
  attempt = job.attempt;
  status = delivered;
  status_code = some status_code;
  error = none;
  next_retry_at = none;
  delivered_at = some now;
  created_at = 0;
}

abbrev pub failure_of : Job → ℕ → String → Time → RelayDelivery
failure_of job status_code reason now = record {
  id = "";
  endpoint_id = job.endpoint.id;
  event_type = job.event_type;
  payload = job.body;
  attempt = job.attempt;
  status = if leb max_attempts job.attempt then dead_letter else failed;
  status_code = code_ptr status_code;
  error = some reason;
  next_retry_at =
      if leb max_attempts job.attempt then none else some (now + retry_delay job.attempt);
  delivered_at = none;
  created_at = 0;
}

-- The loop of `Dispatch`: one first attempt for each active endpoint.
unfoldable pub first_attempts : String → Bytes → List RelayEndpoint → List Job
first_attempts event_type body [] = []
first_attempts event_type body (ep ∷ eps) =
    let rest = first_attempts event_type body eps in
    if not ep.active
    then rest
    else record { endpoint = ep; event_type = event_type; body = body; attempt = 1 } ∷ rest

-- `err != nil || ep == nil || !ep.Active` skips a delivery; any other is tried once more.
abbrev pub next_attempt : RelayDelivery → Result (Option RelayEndpoint) → List Job
next_attempt del (err _) = []
next_attempt del (ok none) = []
next_attempt del (ok (some ep)) =
    if not ep.active
    then []
    else record {
      endpoint = ep;
      event_type = del.event_type;
      body = del.payload;
      attempt = del.attempt + 1;
    }
      ∷ []

module _ {W : Type 0} (d : Dispatcher W) where
  -- `sign`
  abbrev pub sign : Bytes → String → String
  sign body secret_hash = concat "sha256=" (d.hmac_hex secret_hash body)

  -- `recordSuccess`
  unfoldable pub record_success : Job → ℕ → M W (Unit {0})
  record_success job status_code = do
    now ← d.now
    ignoring (d.store.create_delivery (success_of job status_code now))

  -- `recordFailure`
  unfoldable pub record_failure : Job → ℕ → String → M W (Unit {0})
  record_failure job status_code reason = do
    now ← d.now
    ignoring (d.store.create_delivery (failure_of job status_code reason now))

  -- The part of `deliver` that follows the request.
  unfoldable pub record_answer : Job → Result ℕ × W → Result (Unit {0}) × W
  record_answer job (err e, w) = record_failure job 0 (error_text e) w
  record_answer job (ok code, w) =
      if is_success code
      then record_success job code w
      else record_failure job code (concat "non-2xx response: " (decimal code)) w

  abbrev pub request_of : Job → RelayRequest
  request_of job = record {
    url = job.endpoint.url;
    signature = sign job.body job.endpoint.secret_hash;
    attempt = job.attempt;
    body = job.body;
  }

  -- `deliver`
  unfoldable pub deliver : Job → W → W
  deliver job w = (record_answer job (d.do_request (request_of job) w)).1

  -- Jobs in the order in which they happen to run.
  unfoldable pub run_jobs : List Job → W → W
  run_jobs [] w = w
  run_jobs (job ∷ jobs) w = run_jobs jobs (deliver job w)

  -- `Dispatch`, with `json.Marshal` of the payload as an argument. Its errors are logged.
  unfoldable pub dispatch : (EventPayload → Result Bytes) → String → EventPayload → W → List Job × W
  dispatch marshal tenant_id payload w =
      let (found, w') = d.store.list_endpoints tenant_id w in
      elim found [
        | err _ ↦ ([], w')
        | ok endpoints ↦ elim (marshal payload) [
          | err _ ↦ ([], w')
          | ok body ↦ (first_attempts payload.event_type body endpoints, w')
        ]
      ]

  -- The loop of `RetryPending`.
  unfoldable pub retry_loop : List RelayDelivery → W → List Job × W
  retry_loop [] w = ([], w)
  retry_loop (del ∷ dels) w =
      let (found, w') = d.store.get_endpoint del.endpoint_id w in
      let (rest, w'') = retry_loop dels w' in (next_attempt del found ++ rest, w'')

  -- `RetryPending`
  unfoldable pub retry_pending : W → List Job × W
  retry_pending w =
      let (found, w') = d.store.list_pending_retries 100 w in
      elim found [ err _ ↦ ([], w') | ok dels ↦ retry_loop dels w' ]

  -- The endpoint of a replay must be there and active.
  abbrev pub replay_job : RelayDelivery → Option RelayEndpoint → M W Job
  replay_job del none = fail (message "relay: endpoint not found or inactive")
  replay_job del (some ep) =
      if not ep.active
      then fail (message "relay: endpoint not found or inactive")
      else pure (record {
        endpoint = ep;
        event_type = del.event_type;
        body = del.payload;
        attempt = del.attempt + 1;
      })

  -- `Replay`
  unfoldable pub replay : RelayDelivery → M W Job
  replay del =
      or_wrap "relay: get endpoint for replay" (d.store.get_endpoint del.endpoint_id)
      >>= replay_job del
