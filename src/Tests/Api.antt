-- ===== src/Tests/Api.antt =====
-- The webhook handler over the in-memory event store.
use vaultnuban.Prelude.{List, ◌∷◌, [], some, none, ◌≡◌, refl}
use vaultnuban.Prelude.Action.{Result, ok}
use vaultnuban.Domain.{active, Bytes}
use vaultnuban.Provider.{WebhookPayload}
use vaultnuban.Recon.Worker.{Queue}
use vaultnuban.Tests.Fixtures.{world, item_of}
use vaultnuban.Api.Webhook.{Headers, WebhookRequest, handle_nomba_webhook}
use vaultnuban.Api.Webhook.Once.{
  Happening, request_at, mark_event, queue_is, history, mem_handler, handle_once,
}

abbrev headers : Headers
headers = record {
  signature = "s";
  signature_algorithm = "HmacSHA256";
  signature_version = "1";
  timestamp = "";
}

abbrev delivery : WebhookRequest
delivery = record { headers = headers; body = some (1 ∷ []) }

abbrev parsed : Bytes → Result WebhookPayload
parsed body = ok (item_of "" 400000).payload

abbrev queue : Queue
queue = record { size = 10; items = [] }

-- Another event and a mark come between two deliveries of the first.
abbrev between : List Happening
between =
    request_at 8 (record { headers = headers; body = some (2 ∷ []) })
    ∷ mark_event "wh-0001" "processed"
    ∷ queue_is queue
    ∷ []

handle_once_example :
    let h = mem_handler (λ headers body. ok tt) parsed (λ text. none) in
    let first = (handle_nomba_webhook h delivery (world active, queue)).1 in
    let s = history (λ headers body. ok tt) parsed (λ text. none) between first in
    let w' = record s.0 { clock = 9 } in (handle_nomba_webhook h delivery (w', s.1)).1 ≡ (w', s.1)
handle_once_example =
    handle_once (λ headers body. ok tt) parsed (λ text. none) delivery (1 ∷ [])
      (item_of "" 400000).payload (world active) queue refl refl refl refl between delivery (1 ∷ [])
      (item_of "" 400000).payload 9 refl refl refl
