-- ===== src/Postgres/Collections.antt =====
-- internal/store/postgres/collection_repo.go, with the unique index and the foreign keys of
-- migration 020.
pub mod Rows
pub mod Choice
use vaultnuban.Prelude.{
  String, List, [], ◌∷◌, ◌++◌, Option, none, some, Bool, true, false, not, ◌&&◌, ◌||◌, ◌==◌, ltb,
  map, find?, select, if◌then◌else◌,
}
use vaultnuban.Prelude.Word.{Int64}
use vaultnuban.Prelude.Text.{str_eq}
use vaultnuban.Prelude.Action.{M, ok, err, message, wrapped, gets}
use vaultnuban.Domain.{
  Time, Customer, VirtualAccount, Transaction, Collection, CollectionStatus, open_collection,
  fulfilled, cancelled, is_open_collection,
}
use vaultnuban.Store.{CollectionStore}
use vaultnuban.Postgres.{Database}

-- `collections_reference_customer_idx`
abbrev pub same_reference : Collection → Collection → Bool
same_reference c row = str_eq row.customer_id c.customer_id && str_eq row.reference c.reference

abbrev pub is_some {ℓ} : {A : Type ℓ} → Option A → Bool
is_some none = false
is_some (some _) = true

-- The row that the INSERT makes.
abbrev pub inserted : Database → Collection → Collection
inserted db c = record c {
  id = db.uuid;
  created_at = db.now;
  updated_at = db.now;
  fulfilled_by_txn_id = none;
  fulfilled_at = none;
  nuban = "";
  bank_name = "";
}

-- The foreign keys to the customers and the accounts.
abbrev pub has_customer : String → List Customer → Bool
has_customer id customers = is_some (find? (λ c. str_eq c.id id) customers)

abbrev pub has_account : Option String → List VirtualAccount → Bool
has_account none accounts = true
has_account (some id) accounts = is_some (find? (λ va. str_eq va.id id) accounts)

-- A row that breaks the unique index or a foreign key.
abbrev pub breaks_key : Database → Collection → Bool
breaks_key db c =
    is_some (find? (same_reference c) db.collections)
    || not (has_customer c.customer_id db.customers)
    || not (has_account c.virtual_account_id db.accounts)

-- `CreateCollection` fills in the id and the times of the record that it is given.
unfoldable pub create_collection : Collection → M Database Collection
create_collection c db =
    if breaks_key db c
    then (err (wrapped "collection repo: create" (message "violates constraint")), db)
    else (
      ok (record c { id = db.uuid; created_at = db.now; updated_at = db.now }),
      record db { collections = db.collections ++ inserted db c ∷ [] },
    )

-- The LEFT JOIN with the accounts.
abbrev pub with_account : Option VirtualAccount → Collection → Collection
with_account none c = record c { nuban = ""; bank_name = "" }
with_account (some va) c = record c { nuban = va.nuban; bank_name = va.bank_name }

abbrev pub account_of : List VirtualAccount → Option String → Option VirtualAccount
account_of accounts none = none
account_of accounts (some id) = find? (λ va. str_eq va.id id) accounts

-- `GetCollection`
unfoldable pub get_collection : String → M Database (Option Collection)
get_collection id = gets λ db. elim (find? (λ c. str_eq c.id id) db.collections) [
  | none ↦ none
  | some c ↦ some (with_account (account_of db.accounts c.virtual_account_id) c)
]

-- `UPDATE collections SET … WHERE id=$2 AND status='open'`
unfoldable pub update_open : String → (Collection → Collection) → List Collection → List Collection
update_open id change [] = []
update_open id change (c ∷ cs) =
    (if str_eq c.id id && is_open_collection c.status then change c else c)
    ∷ update_open id change cs

-- A row that the UPDATE changes.
abbrev pub has_open : String → List Collection → Bool
has_open id rows = is_some (find? (λ c. str_eq c.id id && is_open_collection c.status) rows)

abbrev pub has_transaction : String → List Transaction → Bool
has_transaction id rows = is_some (find? (λ t. str_eq t.id id) rows)

-- `FulfillCollection`: a row that changes must name a transaction of the table.
unfoldable pub fulfill_collection : String → String → M Database (Unit {0})
fulfill_collection id txn_id db =
    if has_open id db.collections && not (has_transaction txn_id db.transactions)
    then (err (wrapped "collection repo: fulfill" (message "violates foreign key constraint")), db)
    else (
      ok tt,
      record db {
        collections =
            update_open id
              (λ c. record c {
                status = fulfilled;
                fulfilled_by_txn_id = some txn_id;
                fulfilled_at = some db.now;
                updated_at = db.now;
              })
              db.collections;
      },
    )

-- `CancelCollection`
unfoldable pub cancel_collection : String → M Database (Unit {0})
cancel_collection id db = (
  ok tt,
  record db {
    collections =
        update_open id (λ c. record c { status = cancelled; updated_at = db.now }) db.collections;
  },
)

-- `expires_at IS NULL OR expires_at > NOW()`
abbrev pub is_live : Time → Option Time → Bool
is_live now none = true
is_live now (some at) = ltb now at

-- `expected_amount_kobo IS NULL OR expected_amount_kobo = $2`
abbrev pub takes_amount : Int64 → Option Int64 → Bool
takes_amount amount none = true
takes_amount amount (some expected) = expected == amount

abbrev pub for_account : String → Option String → Bool
for_account va_id none = false
for_account va_id (some id) = str_eq id va_id

-- The WHERE of `FindOpenCollectionForVA`.
unfoldable pub is_candidate : String → Int64 → Time → Collection → Bool
is_candidate va_id amount now c =
    for_account va_id c.virtual_account_id
    && is_open_collection c.status
    && is_live now c.expires_at
    && takes_amount amount c.expected_amount_kobo

-- `ORDER BY created_at ASC LIMIT 1`; of two rows of the same time, the first inserted.
unfoldable pub earliest : List Collection → Option Collection
earliest [] = none
earliest (c ∷ cs) = elim (earliest cs) [
  | none ↦ some c
  | some d ↦ if ltb d.created_at c.created_at then some d else some c
]

-- `FindOpenCollectionForVA`
unfoldable pub find_open_collection_for_va : String → Int64 → M Database (Option Collection)
find_open_collection_for_va va_id amount = gets λ db.
    elim (earliest (select (is_candidate va_id amount db.now) db.collections)) [
      | none ↦ none
      | some c ↦ some (record c { nuban = ""; bank_name = "" })
    ]

abbrev pub pg_collections : CollectionStore Database
pg_collections = record {
  create_collection = create_collection;
  get_collection = get_collection;
  fulfill_collection = fulfill_collection;
  cancel_collection = cancel_collection;
  find_open_collection_for_va = find_open_collection_for_va;
}
