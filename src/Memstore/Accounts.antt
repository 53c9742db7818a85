-- ===== src/Memstore/Accounts.antt =====
-- The virtual account store of internal/store/memstore/memstore.go. Go ranges over a map in an order
-- that it chooses anew each time: `range_order` is the order in which the call at hand meets the
-- accounts, and another call may have another.
use vaultnuban.Prelude.{
  ℕ, String, List, [], ◌∷◌, Option, none, some, ◌&&◌, ltb, find?, if◌then◌else◌,
}
use vaultnuban.Prelude.Text.{concat, str_eq}
use vaultnuban.Prelude.Dict.{Dict, lookup, insert, values}
use vaultnuban.Prelude.Action.{M, ok, err, message, gets}
use vaultnuban.Domain.{Time, VirtualAccount, VaStatus, active, status_eq}
use vaultnuban.Memstore.Ids.{next_id}

pub record VirtualAccountStore : Type 0 where
  pub accounts : Dict VirtualAccount
  pub by_nuban : Dict String
  pub by_ref : Dict String
  pub range_order : List VirtualAccount → List VirtualAccount

abbrev pub new_virtual_account_store : VirtualAccountStore
new_virtual_account_store = record {
  accounts = [];
  by_nuban = [];
  by_ref = [];
  range_order = λ vas. vas;
}

-- The call fills in the caller's record, which is the result.
unfoldable pub create_virtual_account :
    Time → VirtualAccount → M (ℕ × VirtualAccountStore) VirtualAccount
unfolding next_id insert
create_virtual_account now va (seq, s) =
    let (id, seq') : String × ℕ = if str_eq va.id "" then next_id "va" seq else (va.id, seq) in
    let va' : VirtualAccount = record va { id = id; created_at = now } in
    (
      ok va',
      (
        seq',
        record s {
          accounts = insert id va' s.accounts;
          by_nuban = insert va.nuban id s.by_nuban;
          by_ref = insert va.nomba_account_ref id s.by_ref;
        },
      ),
    )

unfoldable pub get_active_va : String → M VirtualAccountStore (Option VirtualAccount)
get_active_va customer_id = gets λ s.
    find? (λ va. str_eq va.customer_id customer_id && status_eq va.status active)
      (s.range_order (values s.accounts))

-- The loop of `GetLatestVA`.
unfoldable pub latest_loop :
    String → Option VirtualAccount → List VirtualAccount → Option VirtualAccount
latest_loop customer_id latest [] = latest
latest_loop customer_id latest (va ∷ vas) =
    latest_loop customer_id
      (if str_eq va.customer_id customer_id
        then elim latest [
          | none ↦ some va
          | some old ↦ if ltb old.created_at va.created_at then some va else some old
        ]
        else latest)
      vas

unfoldable pub get_latest_va : String → M VirtualAccountStore (Option VirtualAccount)
unfolding latest_loop
get_latest_va customer_id =
    gets λ s. latest_loop customer_id none (s.range_order (values s.accounts))

unfoldable pub get_va_by_nuban : String → M VirtualAccountStore (Option VirtualAccount)
unfolding lookup
get_va_by_nuban nuban =
    gets λ s. elim (lookup nuban s.by_nuban) [ none ↦ none | some id ↦ lookup id s.accounts ]

unfoldable pub get_va_by_account_ref : String → M VirtualAccountStore (Option VirtualAccount)
unfolding lookup
get_va_by_account_ref account_ref =
    gets λ s. elim (lookup account_ref s.by_ref) [ none ↦ none | some id ↦ lookup id s.accounts ]

unfoldable pub get_va_by_customer_and_status :
    String → VaStatus → M VirtualAccountStore (Option VirtualAccount)
get_va_by_customer_and_status customer_id status = gets λ s.
    find? (λ va. str_eq va.customer_id customer_id && status_eq va.status status)
      (s.range_order (values s.accounts))

unfoldable pub update_va_status : String → VaStatus → M VirtualAccountStore (Unit {0})
unfolding lookup insert
update_va_status va_id status s = elim (lookup va_id s.accounts) [
  | none ↦ (err (message (concat "memstore: VA not found: " va_id)), s)
  | some va ↦
      (ok tt, record s { accounts = insert va_id (record va { status = status }) s.accounts })
]

unfoldable pub rename_va : String → String → M VirtualAccountStore (Unit {0})
unfolding lookup insert
rename_va va_id new_name s = elim (lookup va_id s.accounts) [
  | none ↦ (err (message (concat "memstore: VA not found: " va_id)), s)
  | some va ↦ (
    ok tt,
    record s { accounts = insert va_id (record va { account_name = new_name }) s.accounts },
  )
]
