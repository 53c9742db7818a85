-- ===== src/Api/Idempotency.antt =====
-- internal/api/middleware/idempotency.go. The Redis client and `json.Marshal` are parameters. The
-- handler behind the middleware is a call that records a response; one that panics is left out.
pub mod Replay
use vaultnuban.Prelude.{ℕ, String, Option, none, some, Bool, true, false, if◌then◌else◌}
use vaultnuban.Prelude.Text.{concat, str_eq}
use vaultnuban.Prelude.Action.{M, Result, ok, err}
use vaultnuban.Domain.{Bytes}

-- Texts are keys and values. `get` fails on a key that is not there. The times to live are 30 seconds
-- for `set_nx` and 24 hours for `set`.
pub record Redis (W : Type 0) : Type 0 where
  pub get : String → M W String
  pub set_nx : String → String → M W Bool
  pub set : String → String → M W (Unit {0})

pub record StoredResponse : Type 0 where
  pub status_code : ℕ
  pub body : Bytes

pub record Middleware (W : Type 0) : Type 0 where
  pub rdb : Redis W
  pub marshal : StoredResponse → Result String
  pub unmarshal : String → Result StoredResponse

abbrev pub in_flight : String
in_flight = "__inflight__"

-- What the client gets: the handler's own response, a 409, or a stored response.
pub data Answer : Type 0 where
  handled : StoredResponse → Answer
  conflict : Answer
  replayed : StoredResponse → Answer

-- What the first look at the key leads to.
pub data Decision : Type 0 where
  busy : Decision
  replay : StoredResponse → Decision
  try_claim : Decision

abbrev pub redis_key : String → String → String
redis_key tenant_id key = concat "idem:" (concat tenant_id (concat ":" key))

-- The handler runs and records its response.
abbrev pub Handler : Type 0 → Type 0
Handler W = W → StoredResponse × W

abbrev pub passed_on : {W : Type 0} → Handler W → W → Answer × W
passed_on next w = let (r, w') = next w in (handled r, w')

module _ {W : Type 0} (m : Middleware W) where
  -- A value that is no stored response counts as no value.
  abbrev pub decide_stored : Result StoredResponse → Decision
  decide_stored (ok stored) = replay stored
  decide_stored (err e) = try_claim

  -- The part of the middleware that reads the key.
  abbrev pub decide : Result String → Decision
  decide (err e) = try_claim
  decide (ok existing) =
      if str_eq existing in_flight then busy else decide_stored (m.unmarshal existing)

  -- The response is stored if it can be encoded; an error of the store is dropped.
  abbrev pub persist : String → Result String → W → W
  persist key (err e) w = w
  persist key (ok b) w = (m.rdb.set key b w).1

  -- The handler, and then the store.
  unfoldable pub run_claimed : String → Handler W → W → Answer × W
  run_claimed key next w = let (r, w') = next w in (handled r, persist key (m.marshal r) w')

  -- `if err != nil || !set`
  unfoldable pub claimed : String → Handler W → Result Bool × W → Answer × W
  claimed key next (err e, w) = (conflict, w)
  claimed key next (ok false, w) = (conflict, w)
  claimed key next (ok true, w) = run_claimed key next w

  unfoldable pub decided : String → Handler W → Decision → W → Answer × W
  decided key next busy w = (conflict, w)
  decided key next (replay stored) w = (replayed stored, w)
  decided key next try_claim w = claimed key next (m.rdb.set_nx key in_flight w)

  -- The middleware from the key on.
  unfoldable pub serve_key : String → Handler W → W → Answer × W
  serve_key key next w = let (found, w') = m.rdb.get key w in decided key next (decide found) w'

  -- `Idempotency`
  unfoldable pub serve : Option String → String → Handler W → W → Answer × W
  serve tenant key next w = if str_eq key "" then passed_on next w else elim tenant [
    | none ↦ passed_on next w
    | some tenant_id ↦ serve_key (redis_key tenant_id key) next w
  ]
