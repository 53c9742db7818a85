-- ===== src/Tests/Idempotency.antt =====
-- A server with no other keys, and requests with one key.
use vaultnuban.Prelude.{
  ℕ, String, [], ◌∷◌, Option, none, some, Bool, true, false, ◌≡◌, refl, ap, ◌∙◌,
}
use vaultnuban.Prelude.Dict.{Dict, lookup, insert, lookup-insert_self}
use vaultnuban.Prelude.Action.{Result, Error, ok, message}
use vaultnuban.Api.Idempotency.{
  Redis, Middleware, StoredResponse, handled, replayed, decided, claimed, run_claimed, serve_key,
  serve,
}
use vaultnuban.Api.Idempotency.Replay.{Answers, found_value, started, serve-serve}

abbrev nil : Error
nil = message "redis: nil"

abbrev claim : String → String → Dict String → Option String → Result Bool × Dict String
claim k v d none = (ok true, insert k v d)
claim k v d (some u) = (ok false, d)

abbrev server : Redis (Dict String)
server = record {
  get = λ k d. (found_value nil (lookup k d), d);
  set_nx = λ k v d. claim k v d (lookup k d);
  set = λ k v d. (ok tt, insert k v d);
}

server-Answers : Answers server lookup nil
server-Answers = record {
  get_reads = λ k w. refl;
  set_nx_new = λ k v w free. (
    ap (λ o. (claim k v w o).0) free,
    ap (λ o. lookup k (claim k v w o).1) free ∙ lookup-insert_self k v w,
  );
  set_nx_old = λ k v u w held. ap (claim k v w) held;
  set_writes = λ k v w. lookup-insert_self k v w;
}

abbrev created : StoredResponse
created = record { status_code = 201; body = [] }

abbrev middleware : Middleware (Dict String)
middleware = record { rdb = server; marshal = λ r. ok "created"; unmarshal = λ text. ok created }

abbrev handler : ℕ → Dict String → StoredResponse × Dict String
handler code d = (record { status_code = code; body = [] }, d)

serve-serve_example :
    ((serve middleware (some "t") "k" (handler 201) []).0
      ≡ handled (handler 201 (started middleware "t" "k" [])).0)
    × (serve middleware (some "t") "k" (handler 500) (("idem:t:k", "created") ∷ [])
        ≡ (replayed created, ("idem:t:k", "created") ∷ []))
unfolding serve serve_key decided claimed run_claimed lookup insert
serve-serve_example =
    serve-serve middleware lookup nil server-Answers "t" "k" (handler 201) (handler 500) []
      (("idem:t:k", "created") ∷ []) "created" created (λ e. cc) refl refl (λ e. cc) refl refl
