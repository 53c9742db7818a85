-- ===== src/Tests/Collection.antt =====
-- Two open collections for one account, and the postings of one transaction.
use vaultnuban.Prelude.{
  ℕ, String, List, [], ◌∷◌, none, some, ◌≡◌, refl, ◌⊎◌, get_elem?, All, set, if◌then◌else◌,
}
use vaultnuban.Prelude.Action.{ok, err}
use vaultnuban.Domain.{Time, Collection, open_collection, cancelled}
use vaultnuban.Store.{CustomerStore, VirtualAccountStore}
use vaultnuban.Postgres.{Database}
use vaultnuban.Postgres.Collections.{has_transaction}
use vaultnuban.Tests.Fixtures.{transaction}
use vaultnuban.Postgres.Collections.Choice.{Fits, IsChosen}
use vaultnuban.Service.Collection
use vaultnuban.Service.Collection.Fulfil.{
  broken_key, pg_collection_service, fulfilled_by, CollectionCall, fulfil_call, after_calls, HasRow,
  try_fulfill_outcome, settled_forever,
}
use vaultnuban.Tests.Fixtures.{customer}

abbrev collection : String → Time → Collection
collection id created = record {
  id = id;
  customer_id = "cust-1";
  virtual_account_id = some "va-1";
  expected_amount_kobo = some 300;
  reference = id;
  description = "";
  status = open_collection;
  expires_at = none;
  fulfilled_by_txn_id = none;
  fulfilled_at = none;
  created_at = created;
  updated_at = created;
  nuban = "";
  bank_name = "";
}

abbrev pub database : Database
database = record {
  now = 9;
  uuid = "u-1";
  customers = [];
  accounts = [];
  transactions = [];
  ledger_entries = [];
  collections = collection "c-1" 5 ∷ collection "c-2" 4 ∷ [];
  withdrawals = [];
}

abbrev customers : CustomerStore Database
customers = record {
  create_customer = λ tenant ref name input db. (ok customer, db);
  get_customer = λ tenant id db. (ok (some customer), db);
  get_customer_by_external_ref = λ tenant ref db. (ok none, db);
  update_kyc_tier = λ id tier db. (ok tt, db);
  get_customer_by_id = λ id db. (ok (some customer), db);
}

abbrev accounts : VirtualAccountStore Database
accounts = record {
  create_virtual_account = λ va db. (ok va, db);
  get_active_va = λ id db. (ok none, db);
  get_latest_va = λ id db. (ok none, db);
  get_va_by_nuban = λ nuban db. (ok none, db);
  get_va_by_account_ref = λ ref db. (ok none, db);
  get_va_by_customer_and_status = λ id status db. (ok none, db);
  update_va_status = λ id status db. (ok tt, db);
  rename_va = λ id name db. (ok tt, db);
}

abbrev paid_into : Database
paid_into = record database { transactions = transaction ∷ [] }

try_fulfill_outcome_example :
    let q =
      Collection.try_fulfill (pg_collection_service customers accounts) "va-1" "t1" 300 paid_into in
    (All (λ d. ¬ Fits "va-1" 300 9 d) paid_into.collections × (q ≡ (ok tt, paid_into)))
    ⊎ ((i : ℕ) × (c : Collection) × (get_elem? paid_into.collections i ≡ some c)
        × IsChosen "va-1" 300 9 paid_into.collections c
        × (q ≡ (
            if has_transaction "t1" paid_into.transactions
            then (
              ok tt,
              record paid_into {
                collections = set paid_into.collections i (fulfilled_by "t1" 9 c);
              },
            )
            else (err broken_key, paid_into))))
try_fulfill_outcome_example =
    try_fulfill_outcome customers accounts "va-1" "t1" 300 paid_into ((refl, tt), (tt, tt))

abbrev settled : Collection
settled = record (collection "c-3" 3) { status = cancelled }

abbrev history : List (Time × String × CollectionCall)
history = (10, "u-2", fulfil_call "va-1" "t1" 300) ∷ []

settled_forever_example : HasRow 0 settled (
    after_calls
      (pg_collection_service customers accounts)
      history
      (record database { collections = settled ∷ [] }))
settled_forever_example =
    settled_forever customers accounts ((λ tenant id db. refl), (λ id db. refl), (λ id db. refl))
      history 0 settled (record database { collections = settled ∷ [] }) refl refl
