-- ===== src/Memstore/Webhooks.antt =====
-- The webhook event store of internal/store/memstore/memstore.go. Its two maps hold pointers to the
-- same events: an event is a cell, and a pointer is the number of its cell.
use vaultnuban.Prelude.{
  ℕ, String, List, [], ◌∷◌, ◌++◌, none, some, Bool, true, false, length, get_elem?, set,
  if◌then◌else◌,
}
use vaultnuban.Prelude.Text.{str_eq}
use vaultnuban.Prelude.Dict.{Dict, lookup, insert}
use vaultnuban.Prelude.Action.{M, ok}
use vaultnuban.Domain.{Time, WebhookEvent}
use vaultnuban.Memstore.Ids.{bumped, format_id}

pub record WebhookEventStore : Type 0 where
  pub cells : List WebhookEvent
  pub events : Dict ℕ
  pub by_id : Dict ℕ
  pub webhook_seq : ℕ

abbrev pub new_webhook_event_store : WebhookEventStore
new_webhook_event_store = record { cells = []; events = []; by_id = []; webhook_seq = 0 }

-- `inserted`, and the caller's event, which the call fills in.
unfoldable pub insert_webhook_event :
    Time → WebhookEvent → M WebhookEventStore (Bool × WebhookEvent)
unfolding lookup insert format_id
insert_webhook_event now evt s = elim (lookup evt.dedupe_key s.events) [
  | some _ ↦ (ok (false, evt), s)
  | none ↦
      let seq : ℕ = if str_eq evt.id "" then bumped s.webhook_seq else s.webhook_seq in
      let id : String = if str_eq evt.id "" then format_id "wh" seq else evt.id in
      let evt' : WebhookEvent = record evt { id = id; created_at = now } in
      let cell = length s.cells in
      (
        ok (true, evt'),
        record {
          cells = s.cells ++ evt' ∷ [];
          events = insert evt.dedupe_key cell s.events;
          by_id = insert id cell s.by_id;
          webhook_seq = seq;
        },
      )
]

-- An unknown id is no error.
unfoldable pub mark_webhook_processed : String → String → M WebhookEventStore (Unit {0})
unfolding lookup
mark_webhook_processed id status s = elim (lookup id s.by_id) [
  | none ↦ (ok tt, s)
  | some cell ↦ elim (get_elem? s.cells cell) [
    | none ↦ (ok tt, s)
    | some evt ↦ (ok tt, record s { cells = set s.cells cell (record evt { status = status }) })
  ]
]
