-- ===== src/Memstore/Relay.antt =====
-- The relay store of internal/store/memstore/memstore.go. The counter `idSeq` is the first part of the
-- state where an id is made.
use vaultnuban.Prelude.{
  ℕ, String, List, [], ◌∷◌, ◌++◌, Option, none, some, Bool, false, not, ◌&&◌, select, find?, take,
  ltb, if◌then◌else◌,
}
use vaultnuban.Prelude.Word.{Int64, lt64}
use vaultnuban.Prelude.Text.{concat, str_eq}
use vaultnuban.Prelude.Dict.{Dict, lookup, insert, values}
use vaultnuban.Prelude.Action.{M, ok, err, message, gets}
use vaultnuban.Domain.{Time, RelayEndpoint, RelayDelivery, is_failed}
use vaultnuban.Memstore.Ids.{next_id}

pub record RelayStore : Type 0 where
  pub endpoints : Dict RelayEndpoint
  pub deliveries : List RelayDelivery

abbrev pub new_relay_store : RelayStore
new_relay_store = record { endpoints = []; deliveries = [] }

unfoldable pub create_endpoint : Time → RelayEndpoint → M (ℕ × RelayStore) RelayEndpoint
unfolding next_id insert
create_endpoint now ep (seq, s) =
    let (id, seq') : String × ℕ = if str_eq ep.id "" then next_id "ep" seq else (ep.id, seq) in
    let ep' : RelayEndpoint = record ep { id = id; created_at = now } in
    (ok ep', (seq', record s { endpoints = insert id ep' s.endpoints }))

unfoldable pub list_endpoints : String → M RelayStore (List RelayEndpoint)
list_endpoints tenant_id =
    gets λ s. select (λ ep. str_eq ep.tenant_id tenant_id) (values s.endpoints)

unfoldable pub get_endpoint : String → M RelayStore (Option RelayEndpoint)
unfolding lookup
get_endpoint id = gets λ s. lookup id s.endpoints

unfoldable pub deactivate_endpoint : String → String → M RelayStore (Unit {0})
unfolding lookup insert
deactivate_endpoint id tenant_id s = elim (lookup id s.endpoints) [
  | none ↦ (err (message "memstore: relay endpoint not found"), s)
  | some ep ↦
      if not (str_eq ep.tenant_id tenant_id)
      then (err (message "memstore: relay endpoint not found"), s)
      else (ok tt, record s { endpoints = insert id (record ep { active = false }) s.endpoints })
]

unfoldable pub create_delivery : Time → RelayDelivery → M (ℕ × RelayStore) (Unit {0})
unfolding next_id
create_delivery now d (seq, s) =
    let (id, seq') : String × ℕ = if str_eq d.id "" then next_id "del" seq else (d.id, seq) in
    (
      ok tt,
      (seq', record s { deliveries = s.deliveries ++ record d { id = id; created_at = now } ∷ [] }),
    )

-- The loop of `UpdateDelivery`: the first delivery with the id is replaced.
unfoldable pub update_loop : RelayDelivery → List RelayDelivery → Option (List RelayDelivery)
update_loop d [] = none
update_loop d (existing ∷ rest) =
    let later : Option (List RelayDelivery) = elim (update_loop d rest) [
      | none ↦ none
      | some ds ↦ some (existing ∷ ds)
    ] in
    if str_eq existing.id d.id then some (d ∷ rest) else later

unfoldable pub update_delivery : RelayDelivery → M RelayStore (Unit {0})
unfolding update_loop
update_delivery d s = elim (update_loop d s.deliveries) [
  | none ↦ (err (message (concat "memstore: delivery not found: " d.id)), s)
  | some ds ↦ (ok tt, record s { deliveries = ds })
]

-- `d.Status == "failed" && d.NextRetryAt != nil && !d.NextRetryAt.After(now)`
abbrev pub is_due : Time → RelayDelivery → Bool
is_due now d =
    is_failed d.status && elim d.next_retry_at [ none ↦ false | some at ↦ not (ltb now at) ]

-- A loop that breaks as soon as a positive limit is reached.
abbrev pub limited {ℓ} : {A : Type ℓ} → Int64 → List A → List A
limited limit out = if lt64 0 limit then take limit out else out

unfoldable pub list_pending_retries : Time → Int64 → M RelayStore (List RelayDelivery)
list_pending_retries now limit = gets λ s. limited limit (select (is_due now) s.deliveries)

unfoldable pub get_delivery : String → M RelayStore (Option RelayDelivery)
get_delivery id = gets λ s. find? (λ d. str_eq d.id id) s.deliveries

-- The delivery went to an endpoint of the tenant.
abbrev pub belongs_to : String → RelayStore → RelayDelivery → Bool
belongs_to tenant_id s d = elim (lookup d.endpoint_id s.endpoints) [
  | none ↦ false
  | some ep ↦ str_eq ep.tenant_id tenant_id
]

unfoldable pub list_deliveries : String → Int64 → M RelayStore (List RelayDelivery)
unfolding lookup
list_deliveries tenant_id limit =
    gets λ s. limited limit (select (belongs_to tenant_id s) s.deliveries)
