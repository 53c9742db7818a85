-- ===== src/Memstore/Suspense.antt =====
-- The suspense store of internal/store/memstore/memstore.go.
use vaultnuban.Prelude.{
  ℕ, String, List, [], Option, none, some, ◌&&◌, ◌-◌, ltb, length, get_elem?, select, take,
  if◌then◌else◌,
}
use vaultnuban.Prelude.Word.{Int64, lt64}
use vaultnuban.Prelude.Text.{concat, str_eq}
use vaultnuban.Prelude.Dict.{Dict, lookup, insert, values}
use vaultnuban.Prelude.Action.{M, ok, err, message, gets}
use vaultnuban.Domain.{Time, SuspenseItem, SuspenseStatus, is_open, is_unmatched}
use vaultnuban.Memstore.Ids.{bumped, format_id}

pub record SuspenseStore : Type 0 where
  pub items : Dict SuspenseItem
  pub suspense_seq : ℕ

abbrev pub new_suspense_store : SuspenseStore
new_suspense_store = record { items = []; suspense_seq = 0 }

unfoldable pub create_suspense_item : Time → SuspenseItem → M SuspenseStore (Unit {0})
unfolding insert format_id
create_suspense_item now item s =
    let seq : ℕ = if str_eq item.id "" then bumped s.suspense_seq else s.suspense_seq in
    let id : String = if str_eq item.id "" then format_id "susp" seq else item.id in
    (
      ok tt,
      record {
        items = insert id (record item { id = id; created_at = now }) s.items;
        suspense_seq = seq;
      },
    )

unfoldable pub get_suspense_item : String → M SuspenseStore (Option SuspenseItem)
unfolding lookup
get_suspense_item item_id = gets λ s. lookup item_id s.items

unfoldable pub resolve_suspense_item :
    String → SuspenseStatus → String → String → M SuspenseStore (Unit {0})
unfolding lookup insert
resolve_suspense_item item_id resolution actor notes s = elim (lookup item_id s.items) [
  | none ↦ (err (message (concat "memstore: suspense item not found: " item_id)), s)
  | some item ↦ (
    ok tt,
    record s {
      items =
          insert item_id
            (record item { status = resolution; resolved_by = some actor; notes = some notes })
            s.items;
    },
  )
]

-- `OpenItems`
unfoldable pub open_items : SuspenseStore → List SuspenseItem
open_items s = select (λ item. is_open item.status) (values s.items)

-- A limit that is not positive is none.
unfoldable pub list_open_unmatched_items : Int64 → M SuspenseStore (List SuspenseItem)
list_open_unmatched_items limit = gets λ s.
    let out = select (λ item. is_open item.status && is_unmatched item.reason) (values s.items) in
    if lt64 0 limit then take limit out else out

abbrev item_id : Option SuspenseItem → String
item_id none = ""
item_id (some item) = item.id

-- `ListSuspenseItems`: the tenant and the cursor are not used.
unfoldable pub list_suspense_items : Int64 → M SuspenseStore (List SuspenseItem × String)
list_suspense_items limit = gets λ s.
    let out = select (λ item. is_open item.status) (values s.items) in
    if lt64 0 limit && ltb limit (length out)
    then (take limit out, item_id (get_elem? out (limit - 1)))
    else (out, "")
