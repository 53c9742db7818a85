-- ===== src/Service/Collection/Fulfil.antt =====
-- Collections of internal/service/collection.go on the table of internal/store/postgres. The stores of
-- customers and accounts are left open.
use vaultnuban.Prelude.{
  ℕ, String, List, [], ◌∷◌, Option, none, some, true, false, ◌&&◌, ◌∙◌, if◌then◌else◌, ◌≡◌, refl,
  ap, ◌⊎◌, inl, inr, arith, Bool-cases, Option-cases, select, not, get_elem?, set, All,
}
use vaultnuban.Prelude.Word.{Int64}
use vaultnuban.Prelude.Text.{str_eq}
use vaultnuban.Prelude.Action.{
  guard, validation_error, or_wrap, attempt, pure, Keeps, Keeps-bind, Keeps-guard, Keeps-reads,
  Keeps-or_wrap, Result, Error, wrapped, message, ok, err, ◌>>=◌,
}
use vaultnuban.Domain.{
  cancelled, Time, Customer, VirtualAccount, Collection, fulfilled, is_open_collection,
}
use vaultnuban.Store.{CustomerStore, VirtualAccountStore}
use vaultnuban.Postgres.{Database}
use vaultnuban.Postgres.Collections.{
  pg_collections, earliest, is_candidate, fulfill_collection, cancel_collection,
  find_open_collection_for_va, get_collection, create_collection, inserted, breaks_key, has_open,
  has_transaction, update_open,
}
use vaultnuban.Postgres.Collections.Rows.{
  IsDistinct, earliest-IsOldest, select-index, update_open-set, update_open-settled,
  get_elem?-append, earliest-none, has_open-at,
}
use vaultnuban.Postgres.Collections.Choice.{Fits, IsChosen, candidate-Fits, none-Fits, oldest-Fits}
use vaultnuban.Service.Collection
use vaultnuban.Service.Collection.{CollectionService, CreateCollectionRequest, new_collection}

abbrev pub pg_collection_service :
    CustomerStore Database → VirtualAccountStore Database → CollectionService Database
pg_collection_service customers accounts = record {
  collections = pg_collections;
  customers = customers;
  accounts = accounts;
  now = λ db. (ok db.now, db);
}

-- The row of a fulfilled collection.
abbrev pub fulfilled_by : String → Time → Collection → Collection
fulfilled_by txn_id now c = record c {
  status = fulfilled;
  fulfilled_by_txn_id = some txn_id;
  fulfilled_at = some now;
  updated_at = now;
}

candidate_open :
    (va_id : String) (amount : Int64) (now : Time) (c : Collection)
    → is_candidate va_id amount now c ≡ true
    → is_open_collection c.status ≡ true
unfolding is_candidate
candidate_open va_id amount now c h = ground arith

-- What the rest of the system asks of the service.
pub data CollectionCall : Type 0 where
  create_call : CreateCollectionRequest → CollectionCall
  cancel_call : String → String → CollectionCall
  fulfil_call : String → String → Int64 → CollectionCall

-- The database after a call.
unfoldable pub after_call : CollectionService Database → CollectionCall → Database → Database
after_call s (create_call req) db = (Collection.create_collection s req db).1
after_call s (cancel_call id tenant_id) db = (Collection.cancel_collection s id tenant_id db).1
after_call s (fulfil_call va_id txn_id amount) db =
    (Collection.try_fulfill s va_id txn_id amount db).1

-- Calls one after another, each with the time and the new id that it finds.
unfoldable pub after_calls :
    CollectionService Database → List (Time × String × CollectionCall) → Database → Database
after_calls s [] db = db
after_calls s ((now, uuid, call) ∷ calls) db =
    after_calls s calls (after_call s call (record db { now = now; uuid = uuid }))

-- The row at a place is that collection.
abbrev pub HasRow : ℕ → Collection → Database → Type 0
HasRow i c db = get_elem? db.collections i ≡ some c

-- The error of a transaction that is not in its table.
abbrev pub broken_key : Error
broken_key = wrapped "collection repo: fulfill" (message "violates foreign key constraint")

module _ (customers : CustomerStore Database) (accounts : VirtualAccountStore Database) where
  abbrev sv : CollectionService Database
  sv = pg_collection_service customers accounts

  fulfill-known :
      (id txn_id : String) (db : Database)
      → has_transaction txn_id db.transactions ≡ true
      → fulfill_collection id txn_id db ≡ (
        ok tt,
        record db { collections = update_open id (fulfilled_by txn_id db.now) db.collections },
      )
  unfolding fulfill_collection
  fulfill-known id txn_id db known = elim (Bool-cases (has_open id db.collections)) [
    | inl there ↦ rw (there, known) refl
    | inr gone ↦ rw gone refl
  ]

  fulfill-unknown :
      (id txn_id : String) (db : Database)
      → has_open id db.collections ≡ true
      → has_transaction txn_id db.transactions ≡ false
      → fulfill_collection id txn_id db ≡ (err broken_key, db)
  unfolding fulfill_collection
  fulfill-unknown id txn_id db there unknown = rw (there, unknown) refl

  -- `TryFulfill` on a table of distinct ids. If no row fits, it succeeds and changes nothing. If one
  -- does, one that is not younger than any that fits is marked as fulfilled by the transaction and
  -- nothing else changes, if the transaction is in its table; if it is not, the call fails and changes
  -- nothing. A row fits if it is an open collection of the account that has not expired and asks for
  -- this amount or for any.
  pub try_fulfill_outcome :
      (va_id txn_id : String) (amount : Int64) (db : Database)
      → IsDistinct db.collections
      → let q =
          Collection.try_fulfill
            (pg_collection_service customers accounts)
            va_id
            txn_id
            amount
            db in
        (All (λ d. ¬ Fits va_id amount db.now d) db.collections × (q ≡ (ok tt, db)))
        ⊎ ((i : ℕ) × (c : Collection) × (get_elem? db.collections i ≡ some c)
            × IsChosen va_id amount db.now db.collections c
            × (q ≡ (
                if has_transaction txn_id db.transactions
                then (
                  ok tt,
                  record db { collections = set db.collections i (fulfilled_by txn_id db.now c) },
                )
                else (err broken_key, db))))
  unfolding Collection.try_fulfill find_open_collection_for_va
  try_fulfill_outcome va_id txn_id amount db distinct =
      let p = is_candidate va_id amount db.now in
      elim (Option-cases (earliest (select p db.collections))) [
        | inl nothing ↦
            let unfit =
              none-Fits va_id amount db.now db.collections
                (earliest-none (select p db.collections) nothing) in
            rw nothing (inl (unfit, refl))
        | inr (c, found) ↦
            let (k, at, old) = earliest-IsOldest (select p db.collections) c found in
            let (i, place, passes) = select-index p db.collections k c at in
            let open_row = candidate_open va_id amount db.now c passes in
            let chosen : IsChosen va_id amount db.now db.collections c = (
              candidate-Fits va_id amount db.now c passes,
              oldest-Fits va_id amount db.now db.collections c old,
            ) in
            rw found (
              inr (
                i,
                c,
                place,
                chosen,
                elim (Bool-cases (has_transaction txn_id db.transactions)) [
                  | inl known ↦ rw known (
                      fulfill-known c.id txn_id db known
                      ∙ ap (λ cs. (ok tt, record db { collections = cs }))
                          (update_open-set (fulfilled_by txn_id db.now) db.collections i c distinct
                            place open_row))
                  | inr unknown ↦ rw unknown (
                      fulfill-unknown c.id txn_id db (has_open-at db.collections i c place open_row)
                        unknown)
                ],
              ))
      ]

  fulfill_collection-kept :
      (id txn_id : String) (i : ℕ) (c : Collection) (db : Database)
      → is_open_collection c.status ≡ false
      → HasRow i c db
      → HasRow i c (fulfill_collection id txn_id db).1
  unfolding fulfill_collection
  fulfill_collection-kept id txn_id i c db shut row =
      elim (Bool-cases
        (has_open id db.collections && not (has_transaction txn_id db.transactions))) [
          | inl refused ↦ rw refused row
          | inr done ↦
              rw done
                (update_open-settled id (fulfilled_by txn_id db.now) db.collections i c row shut)
        ]

  fulfil_kept :
      (va_id txn_id : String) (amount : Int64) (i : ℕ) (c : Collection) (db : Database)
      → is_open_collection c.status ≡ false
      → HasRow i c db
      → HasRow i c (Collection.try_fulfill sv va_id txn_id amount db).1
  unfolding Collection.try_fulfill find_open_collection_for_va
  fulfil_kept va_id txn_id amount i c db shut row =
      elim (Option-cases (earliest (select (is_candidate va_id amount db.now) db.collections))) [
        | inl nothing ↦ rw nothing row
        | inr (d, found) ↦ rw found (fulfill_collection-kept d.id txn_id i c db shut row)
      ]

  -- The calls that only read leave the database as it is.
  abbrev pub ReadsOnly : Type 0
  ReadsOnly =
      ((tenant_id id : String) (db : Database) → (customers.get_customer tenant_id id db).1 ≡ db)
      × ((id : String) (db : Database) → (customers.get_customer_by_id id db).1 ≡ db)
      × ((id : String) (db : Database) → (accounts.get_active_va id db).1 ≡ db)

  cancel_owned_kept :
      (id tenant_id : String) (i : ℕ) (c : Collection) (found : Result (Option Customer))
      → is_open_collection c.status ≡ false
      → Keeps (HasRow i c) (Collection.cancel_owned sv id tenant_id found)
  unfolding Collection.cancel_owned cancel_collection
  cancel_owned_kept id tenant_id i c (err e) shut db row = row
  cancel_owned_kept id tenant_id i c (ok none) shut db row = row
  cancel_owned_kept id tenant_id i c (ok (some customer)) shut db row =
      elim (Bool-cases (not (str_eq customer.tenant_id tenant_id))) [
        | inl other ↦ rw other row
        | inr own ↦ rw own (
            update_open-settled id (λ d. record d { status = cancelled; updated_at = db.now })
              db.collections i c row shut)
      ]

  cancel_found_kept :
      (reads : ReadsOnly) (id tenant_id : String) (i : ℕ) (c : Collection)
      (found : Result (Option Collection))
      → is_open_collection c.status ≡ false
      → Keeps (HasRow i c) (Collection.cancel_found sv id tenant_id found)
  unfolding Collection.cancel_found
  cancel_found_kept reads id tenant_id i c (err e) shut db row = row
  cancel_found_kept reads id tenant_id i c (ok none) shut db row = row
  cancel_found_kept reads id tenant_id i c (ok (some d)) shut db row =
      elim (Bool-cases (not (is_open_collection d.status))) [
        | inl settled ↦ rw settled row
        | inr still_open ↦ rw still_open (
            Keeps-bind (HasRow i c) (attempt (customers.get_customer_by_id d.customer_id))
              (Collection.cancel_owned sv id tenant_id)
              (Keeps-reads (HasRow i c) (attempt (customers.get_customer_by_id d.customer_id))
                (reads.1 d.customer_id))
              (λ found. cancel_owned_kept id tenant_id i c found shut) db row)
      ]

  cancel_kept :
      (reads : ReadsOnly) (id tenant_id : String) (i : ℕ) (c : Collection)
      → is_open_collection c.status ≡ false
      → Keeps (HasRow i c) (Collection.cancel_collection sv id tenant_id)
  unfolding Collection.cancel_collection get_collection
  cancel_kept reads id tenant_id i c shut =
      Keeps-bind (HasRow i c) (attempt (get_collection id))
        (Collection.cancel_found sv id tenant_id) (λ db row. row)
        (λ found. cancel_found_kept reads id tenant_id i c found shut)

  inserted_kept :
      (new : Collection) (i : ℕ) (c : Collection) (db : Database)
      → HasRow i c db
      → HasRow i c (create_collection new db).1
  unfolding create_collection
  inserted_kept new i c db row = elim (Bool-cases (breaks_key db new)) [
    | inl taken ↦ rw taken row
    | inr free ↦ rw free (get_elem?-append db.collections (inserted db new ∷ []) i c row)
  ]

  -- What the service does with the answer of the insertion changes no table.
  create_at_kept :
      (req : CreateCollectionRequest) (va : Option VirtualAccount) (i : ℕ) (c : Collection)
      (db : Database)
      → HasRow i c db
      → HasRow i c (Collection.create_at sv req va db).1
  unfolding Collection.create_at
  create_at_kept req none i c db row = row
  create_at_kept req (some va) i c db row =
      go (create_collection (new_collection req va db.now) db)
        (inserted_kept (new_collection req va db.now) i c db row)
    where
      go :
          (q : Result Collection × Database)
          → HasRow i c q.1
          → HasRow i c
              (◌>>=◌
                (or_wrap "collection: create" (λ (_ : Database). q))
                (λ d. pure (record d { nuban = va.nuban; bank_name = va.bank_name }))
                db).1
      go (ok d, db') kept = kept
      go (err e, db') kept = kept

  create_owned_kept :
      (reads : ReadsOnly) (req : CreateCollectionRequest) (i : ℕ) (c : Collection)
      (found : Result (Option Customer))
      → Keeps (HasRow i c) (Collection.create_owned sv req found)
  unfolding Collection.create_owned
  create_owned_kept reads req i c (err e) db row = row
  create_owned_kept reads req i c (ok none) db row = row
  create_owned_kept reads req i c (ok (some customer)) db row =
      let find = accounts.get_active_va req.customer_id in
      Keeps-bind (HasRow i c) (or_wrap "collection: get VA" find) (Collection.create_at sv req)
        (Keeps-or_wrap (HasRow i c) "collection: get VA" find
          (Keeps-reads (HasRow i c) find (reads.2 req.customer_id)))
        (λ va. create_at_kept req va i c) db row

  create_kept :
      (reads : ReadsOnly) (req : CreateCollectionRequest) (i : ℕ) (c : Collection)
      → Keeps (HasRow i c) (Collection.create_collection sv req)
  unfolding Collection.create_collection
  create_kept reads req i c =
      let find = attempt (customers.get_customer req.tenant_id req.customer_id) in
      let named = not (str_eq req.reference "") in
      let unnamed = validation_error "reference" "required" in
      Keeps-bind (HasRow i c) (guard named unnamed) (λ _. find >>= Collection.create_owned sv req)
        (Keeps-guard (HasRow i c) named unnamed)
        (λ _.
          Keeps-bind (HasRow i c) find (Collection.create_owned sv req)
            (Keeps-reads (HasRow i c) find (reads.0 req.tenant_id req.customer_id))
            (create_owned_kept reads req i c))

  -- A collection that is fulfilled, expired or cancelled stays as it is at its place, whatever calls of
  -- the service follow, at whatever times, if the stores of customers and accounts are only read by
  -- them.
  pub settled_forever :
      ReadsOnly
      → (calls : List (Time × String × CollectionCall)) (i : ℕ) (c : Collection) (db : Database)
      → is_open_collection c.status ≡ false
      → HasRow i c db
      → HasRow i c (after_calls (pg_collection_service customers accounts) calls db)
  unfolding after_calls after_call
  settled_forever reads [] i c db shut row = row
  settled_forever reads ((now, uuid, call) ∷ calls) i c db shut row =
      let ready = record db { now = now; uuid = uuid } in
      settled_forever reads calls i c (after_call sv call ready) shut (one call ready row)
    where
      one :
          (call : CollectionCall) (ready : Database)
          → HasRow i c ready
          → HasRow i c (after_call sv call ready)
      one (create_call req) ready row' = create_kept reads req i c ready row'
      one (cancel_call id tenant_id) ready row' = cancel_kept reads id tenant_id i c shut ready row'
      one (fulfil_call va_id txn_id amount) ready row' =
          fulfil_kept va_id txn_id amount i c ready shut row'
