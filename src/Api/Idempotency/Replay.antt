-- ===== src/Api/Idempotency/Replay.antt =====
-- What internal/api/middleware/idempotency.go promises on a Redis server that answers.
use vaultnuban.Prelude.{String, Option, none, some, Bool, true, false, ◌≡◌, ◌≢◌, refl, ap, ◌∙◌}
use vaultnuban.Prelude.Text.{str_eq_of_ne}
use vaultnuban.Prelude.Action.{Result, Error, ok, err}
use vaultnuban.Api.Idempotency.{
  Redis, Middleware, StoredResponse, handled, replayed, Handler, redis_key, in_flight, decide,
  decided, claimed, run_claimed, serve_key, serve,
}

-- `redis.Nil`, or the value.
abbrev pub found_value : Error → Option String → Result String
found_value nil none = err nil
found_value nil (some v) = ok v

-- GET, SET NX and SET of a server whose value of a key, if it has not expired, is `value`.
pub record Answers {W : Type 0} (r : Redis W) (value : String → W → Option String) (nil : Error)
    : Type 0 where
  pub get_reads : (k : String) (w : W) → r.get k w ≡ (found_value nil (value k w), w)
  pub set_nx_new :
      (k v : String) (w : W)
      → value k w ≡ none
      → ((r.set_nx k v w).0 ≡ ok true) × (value k (r.set_nx k v w).1 ≡ some v)
  pub set_nx_old : (k v u : String) (w : W) → value k w ≡ some u → r.set_nx k v w ≡ (ok false, w)
  pub set_writes : (k v : String) (w : W) → value k (r.set k v w).1 ≡ some v

-- The state in which the handler of the request that claims a key starts.
abbrev pub started : {W : Type 0} → Middleware W → String → String → W → W
started m tenant_id key w = (m.rdb.set_nx (redis_key tenant_id key) in_flight w).1

module _ {W : Type 0} (m : Middleware W) (value : String → W → Option String) (nil : Error)
    (answers : Answers m.rdb value nil) where
  -- The value of a key decides.
  looked_up :
      (k : String) (next : Handler W) (w : W) (v : String)
      → value k w ≡ some v
      → serve_key m k next w ≡ decided m k next (decide m (ok v)) w
  unfolding serve_key
  looked_up k next w v e =
      ap (λ q. decided m k next (decide m q.0) q.1) (answers.get_reads k w)
      ∙ ap (λ o. decided m k next (decide m (found_value nil o)) w) e

  missed :
      (k : String) (next : Handler W) (w : W)
      → value k w ≡ none
      → serve_key m k next w ≡ claimed m k next (m.rdb.set_nx k in_flight w)
  unfolding serve_key decided
  missed k next w e =
      ap (λ q. decided m k next (decide m q.0) q.1) (answers.get_reads k w)
      ∙ ap (λ o. decided m k next (decide m (found_value nil o)) w) e

  with_key :
      (tenant_id key : String) (next : Handler W) (w : W)
      → key ≢ ""
      → serve m (some tenant_id) key next w ≡ serve_key m (redis_key tenant_id key) next w
  unfolding serve
  with_key tenant_id key next w named = rw (str_eq_of_ne key "" named) refl

  -- A stored response is given again.
  again :
      (k : String) (next : Handler W) (w : W) (v : String) (stored : StoredResponse)
      → value k w ≡ some v
      → v ≢ in_flight
      → m.unmarshal v ≡ ok stored
      → serve_key m k next w ≡ (replayed stored, w)
  unfolding decided
  again k next w v stored e done decoded =
      looked_up k next w v e ∙ rw (str_eq_of_ne v in_flight done, decoded) refl

  claim :
      (k : String) (next : Handler W) (w : W) (q : Result Bool × W)
      → q.0 ≡ ok true
      → claimed m k next q ≡ run_claimed m k next q.1
  unfolding claimed
  claim k next w (ok true, w') e = refl
  claim k next w (ok false, w') e = cc
  claim k next w (err x, w') e = cc

  -- After the handler, the key has the encoded response.
  stored_after :
      (k : String) (next : Handler W) (w : W) (b : String)
      → m.marshal (next w).0 ≡ ok b
      → value k (run_claimed m k next w).1 ≡ some b
  unfolding run_claimed
  stored_after k next w b encoded = rw encoded (answers.set_writes k b (next w).1)

  -- A key that has no value, on a server that answers, and a handler whose response can be encoded and
  -- decoded: the first request gets the handler's own response, and a later request of the tenant with
  -- the same key, at any state where the key still has its value, gets the decoded response again. Its
  -- handler does not run, and it changes nothing.
  pub serve-serve :
      (tenant_id key : String) (first second : Handler W) (w later : W) (b : String)
      (stored : StoredResponse)
      → key ≢ ""
      → value (redis_key tenant_id key) w ≡ none
      → m.marshal (first (started m tenant_id key w)).0 ≡ ok b
      → b ≢ in_flight
      → m.unmarshal b ≡ ok stored
      → value (redis_key tenant_id key) later
        ≡ value (redis_key tenant_id key) (serve m (some tenant_id) key first w).1
      → ((serve m (some tenant_id) key first w).0 ≡ handled (first (started m tenant_id key w)).0)
        × (serve m (some tenant_id) key second later ≡ (replayed stored, later))
  serve-serve tenant_id key first second w later b stored named free encoded plain decoded kept =
      let k = redis_key tenant_id key in
      let begun = started m tenant_id key w in
      let ran : serve m (some tenant_id) key first w ≡ run_claimed m k first begun =
        with_key tenant_id key first w named
        ∙ missed k first w free
        ∙ claim k first w (m.rdb.set_nx k in_flight w) (answers.set_nx_new k in_flight w free).0 in
      (
        unfold run_claimed in ap (λ q. q.0) ran,
        with_key tenant_id key second later named
            ∙ again k second later b stored
                (kept ∙ ap (λ q. value k q.1) ran ∙ stored_after k first begun b encoded) plain
                decoded,
      )
