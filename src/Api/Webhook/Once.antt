-- ===== src/Api/Webhook/Once.antt =====
-- Repeated deliveries: the webhook handler of internal/api/handlers/webhook.go over the event store of
-- internal/store/memstore.
use vaultnuban.Prelude.{
  String, List, [], ◌∷◌, Option, none, some, Bool, true, false, ◌≡◌, refl, inl, inr, ◌∙◌, ap, arith,
  length, Bool-cases,
}
use vaultnuban.Prelude.Dict.{lookup, lookup-insert, lookup-insert_self}
use vaultnuban.Prelude.Action.{Result, ok, err}
use vaultnuban.Domain.{Time, Bytes, WebhookEvent}
use vaultnuban.Provider.{WebhookPayload}
use vaultnuban.Memstore.World.{World, mem_webhooks}
use vaultnuban.Memstore.Webhooks.{WebhookEventStore, insert_webhook_event, mark_webhook_processed}
use vaultnuban.Recon.Worker.{Queue}
use vaultnuban.Api.Webhook.{
  Headers, WebhookRequest, WebhookHandler, dedupe_key, event_of, is_stale, respond, ingest, admit,
  read, handle_nomba_webhook,
}

abbrev pub mem_handler :
    (Headers → Bytes → Result (Unit {0}))
    → (Bytes → Result WebhookPayload)
    → (String → Option Time)
    → WebhookHandler World
mem_handler verify parse parse_time = record {
  verify_webhook_signature = verify;
  parse_webhook = parse;
  parse_time = parse_time;
  webhooks = mem_webhooks;
  now = λ w. w.clock;
}

abbrev pub is_known : String → WebhookEventStore → Bool
is_known key s = elim (lookup key s.events) [ none ↦ false | some _ ↦ true ]

insert-known :
    (now : Time) (evt : WebhookEvent) (s : WebhookEventStore)
    → is_known evt.dedupe_key s ≡ true
    → insert_webhook_event now evt s ≡ (ok (false, evt), s)
unfolding insert_webhook_event
insert-known now evt s known = ground arith

known-insert :
    (now : Time) (evt : WebhookEvent) (s : WebhookEventStore)
    → is_known evt.dedupe_key (insert_webhook_event now evt s).1 ≡ true
unfolding insert_webhook_event
known-insert now evt s = ground (arith, lookup-insert_self evt.dedupe_key (length s.cells) s.events)

is_known-insert :
    (key : String) (now : Time) (evt : WebhookEvent) (s : WebhookEventStore)
    → is_known key s ≡ true
    → is_known key (insert_webhook_event now evt s).1 ≡ true
unfolding insert_webhook_event
is_known-insert key now evt s known =
    ground (arith, lookup-insert evt.dedupe_key key (length s.cells) s.events)

is_known-mark :
    (key id status : String) (s : WebhookEventStore)
    → is_known key s ≡ true
    → is_known key (mark_webhook_processed id status s).1 ≡ true
unfolding mark_webhook_processed
is_known-mark key id status s known = ground arith

-- What happens to the event store and the queue between two deliveries: any requests, at any times, the
-- worker's marks, and items that leave the queue.
pub data Happening : Type 0 where
  request_at : Time → WebhookRequest → Happening
  mark_event : String → String → Happening
  queue_is : Queue → Happening

module _ (verify : Headers → Bytes → Result (Unit {0})) (parse : Bytes → Result WebhookPayload)
    (parse_time : String → Option Time) where
  abbrev h : WebhookHandler World
  h = mem_handler verify parse parse_time

  respond-world :
      (p : WebhookPayload) (q : Queue) (r : Result (Bool × WebhookEvent)) (w : World)
      → (respond h p q (r, w)).1.0 ≡ w
  unfolding respond
  respond-world p q (err e) w = refl
  respond-world p q (ok (false, evt)) w = refl
  respond-world p q (ok (true, evt)) w = refl

  ingest-known :
      (body : Bytes) (p : WebhookPayload) (w : World) (q : Queue)
      → is_known (dedupe_key p) w.webhooks ≡ true
      → ingest h body (ok p) w q ≡ (200, (w, q))
  unfolding ingest respond
  ingest-known body p w q known =
      ap (λ o. respond h p q (o.0, record w { webhooks = o.1 }))
        (insert-known w.clock (event_of body p) w.webhooks known)

  known-ingest :
      (body : Bytes) (p : WebhookPayload) (w : World) (q : Queue)
      → is_known (dedupe_key p) (ingest h body (ok p) w q).1.0.webhooks ≡ true
  unfolding ingest
  known-ingest body p w q =
      let o = insert_webhook_event w.clock (event_of body p) w.webhooks in
      ap (λ v. is_known (dedupe_key p) v.webhooks)
        (respond-world p q o.0 (record w { webhooks = o.1 }))
      ∙ known-insert w.clock (event_of body p) w.webhooks

  admit-known :
      (headers : Headers) (body : Bytes) (p : WebhookPayload) (w : World) (q : Queue)
      (verdict : Result (Unit {0}))
      → parse body ≡ ok p
      → is_known (dedupe_key p) w.webhooks ≡ true
      → (admit h headers body verdict w q).1 ≡ (w, q)
  unfolding admit
  admit-known headers body p w q (err e) parses known = refl
  admit-known headers body p w q (ok _) parses known = elim (Bool-cases (is_stale h headers w)) [
    | inl stale ↦ rw stale refl
    | inr fresh ↦ rw (fresh, parses) (ap (λ o. o.1) (ingest-known body p w q known))
  ]

  -- A body that parses to a known event changes nothing, signed or not.
  handle-known :
      (r : WebhookRequest) (body : Bytes) (p : WebhookPayload) (w : World) (q : Queue)
      → r.body ≡ some body
      → parse body ≡ ok p
      → is_known (dedupe_key p) w.webhooks ≡ true
      → (handle_nomba_webhook h r (w, q)).1 ≡ (w, q)
  unfolding handle_nomba_webhook read
  handle-known r body p w q has parses known =
      rw has (admit-known r.headers body p w q (verify r.headers body) parses known)

  -- An accepted request makes its event known.
  known-handle :
      (r : WebhookRequest) (body : Bytes) (p : WebhookPayload) (w : World) (q : Queue)
      → r.body ≡ some body
      → verify r.headers body ≡ ok tt
      → is_stale h r.headers w ≡ false
      → parse body ≡ ok p
      → is_known (dedupe_key p) (handle_nomba_webhook h r (w, q)).1.0.webhooks ≡ true
  unfolding handle_nomba_webhook read admit
  known-handle r body p w q has signed fresh parses =
      rw (has, signed, fresh, parses) (known-ingest body p w q)

  -- The world and the queue after a happening.
  unfoldable pub happens : Happening → World × Queue → World × Queue
  happens (request_at now r) (w, q) = (handle_nomba_webhook h r (record w { clock = now }, q)).1
  happens (mark_event id status) (w, q) =
      (record w { webhooks = (mark_webhook_processed id status w.webhooks).1 }, q)
  happens (queue_is q') (w, q) = (w, q')

  unfoldable pub history : List Happening → World × Queue → World × Queue
  history [] s = s
  history (x ∷ xs) s = history xs (happens x s)

  is_known-ingest :
      (key : String) (body : Bytes) (o : Result WebhookPayload) (w : World) (q : Queue)
      → is_known key w.webhooks ≡ true
      → is_known key (ingest h body o w q).1.0.webhooks ≡ true
  unfolding ingest
  is_known-ingest key body (err e) w q known = known
  is_known-ingest key body (ok p) w q known =
      let o = insert_webhook_event w.clock (event_of body p) w.webhooks in
      ap (λ v. is_known key v.webhooks) (respond-world p q o.0 (record w { webhooks = o.1 }))
      ∙ is_known-insert key w.clock (event_of body p) w.webhooks known

  is_known-admit :
      (key : String) (headers : Headers) (body : Bytes) (verdict : Result (Unit {0})) (w : World)
      (q : Queue)
      → is_known key w.webhooks ≡ true
      → is_known key (admit h headers body verdict w q).1.0.webhooks ≡ true
  unfolding admit
  is_known-admit key headers body (err e) w q known = known
  is_known-admit key headers body (ok _) w q known = elim (Bool-cases (is_stale h headers w)) [
    | inl stale ↦ rw stale known
    | inr fresh ↦ rw fresh (is_known-ingest key body (parse body) w q known)
  ]

  is_known-read :
      (key : String) (headers : Headers) (body : Option Bytes) (w : World) (q : Queue)
      → is_known key w.webhooks ≡ true
      → is_known key (read h headers body w q).1.0.webhooks ≡ true
  unfolding read
  is_known-read key headers none w q known = known
  is_known-read key headers (some body) w q known =
      is_known-admit key headers body (verify headers body) w q known

  is_known-happens :
      (key : String) (x : Happening) (s : World × Queue)
      → is_known key s.0.webhooks ≡ true
      → is_known key (happens x s).0.webhooks ≡ true
  unfolding happens handle_nomba_webhook
  is_known-happens key (request_at now r) (w, q) known =
      is_known-read key r.headers r.body (record w { clock = now }) q known
  is_known-happens key (mark_event id status) (w, q) known =
      is_known-mark key id status w.webhooks known
  is_known-happens key (queue_is q') (w, q) known = known

  is_known-history :
      (key : String) (xs : List Happening) (s : World × Queue)
      → is_known key s.0.webhooks ≡ true
      → is_known key (history xs s).0.webhooks ≡ true
  unfolding history
  is_known-history key [] s known = known
  is_known-history key (x ∷ xs) s known =
      is_known-history key xs (happens x s) (is_known-happens key x s known)

  -- Over the in-memory event store: once a request with a valid signature, within the replay window,
  -- whose body parses has been taken in, a later request whose body parses to the same deduplication key
  -- changes neither the stores nor the queue, whatever its headers, its other content and its time, and
  -- whatever requests, marks of events and changes of the queue came between the two.
  pub handle_once :
      (r : WebhookRequest) (body : Bytes) (p : WebhookPayload) (w : World) (q : Queue)
      → r.body ≡ some body
      → verify r.headers body ≡ ok tt
      → is_stale (mem_handler verify parse parse_time) r.headers w ≡ false
      → parse body ≡ ok p
      → (between : List Happening) (next : WebhookRequest) (next_body : Bytes) (p' : WebhookPayload)
        (later : Time)
      → next.body ≡ some next_body
      → parse next_body ≡ ok p'
      → dedupe_key p' ≡ dedupe_key p
      → let first = (handle_nomba_webhook (mem_handler verify parse parse_time) r (w, q)).1 in
        let s = history between first in
        let w' = record s.0 { clock = later } in
        (handle_nomba_webhook (mem_handler verify parse parse_time) next (w', s.1)).1 ≡ (w', s.1)
  handle_once r body p w q has signed fresh parses between next next_body p' later has' parses'
        same =
      let first = (handle_nomba_webhook h r (w, q)).1 in
      let s = history between first in
      handle-known next next_body p' (record s.0 { clock = later }) s.1 has' parses'
        (rw same (
          is_known-history (dedupe_key p) between first
            (known-handle r body p w q has signed fresh parses)))
