-- ===== src/Service/Collection.antt =====
-- internal/service/collection.go over any stores. `Get` and `List` hand a store's answer on.
pub mod Fulfil
use vaultnuban.Prelude.{
  ℕ, String, Option, none, some, Bool, true, false, not, ◌||◌, ◌*◌, ◌+◌, ◌-◌, ◌%◌, ◌^◌, ltb,
  if◌then◌else◌,
}
use vaultnuban.Prelude.Word.{Int64, lt64, word}
use vaultnuban.Prelude.Text.{str_eq}
use vaultnuban.Prelude.Action.{
  M, Result, ok, err, validation_error, not_found_error, fail, pure, guard, or_wrap, attempt, ◌>>=◌,
  ◌>>◌,
}
use vaultnuban.Domain.{
  Time, second, Customer, VirtualAccount, Collection, open_collection, is_open_collection,
}
use vaultnuban.Store.{CollectionStore, CustomerStore, VirtualAccountStore}

pub record CollectionService (W : Type 0) : Type 0 where
  pub collections : CollectionStore W
  pub customers : CustomerStore W
  pub accounts : VirtualAccountStore W
  pub now : M W Time

-- `expires_in_seconds` is a signed number; 0 and less mean no expiry.
pub record CreateCollectionRequest : Type 0 where
  pub customer_id : String
  pub tenant_id : String
  pub expected_amount_kobo : Option Int64
  pub reference : String
  pub description : String
  pub expires_in_seconds : Int64

-- `req.ExpectedAmountKobo != nil && *req.ExpectedAmountKobo > 0`
abbrev pub expected_amount : Option Int64 → Option Int64
expected_amount none = none
expected_amount (some amount) = if lt64 0 amount then some amount else none

-- `t.Add(d)`, for a `time.Duration`.
abbrev pub add_duration : Time → Int64 → Time
add_duration t d = if ltb d (2 ^ 63) then t + d else t - (word - d)

-- The end of the collection's life. The product of seconds and nanoseconds wraps around.
unfoldable pub expiry : Int64 → Time → Option Time
expiry seconds now =
    if lt64 0 seconds then some (add_duration now (seconds * second % word)) else none

abbrev pub new_collection : CreateCollectionRequest → VirtualAccount → Time → Collection
new_collection req va now = record {
  id = "";
  customer_id = req.customer_id;
  virtual_account_id = some va.id;
  expected_amount_kobo = expected_amount req.expected_amount_kobo;
  reference = req.reference;
  description = req.description;
  status = open_collection;
  expires_at = expiry req.expires_in_seconds now;
  fulfilled_by_txn_id = none;
  fulfilled_at = none;
  created_at = 0;
  updated_at = 0;
  nuban = "";
  bank_name = "";
}

module _ {W : Type 0} (s : CollectionService W) where
  -- The part of `Create` that follows the lookup of the account.
  unfoldable pub create_at : CreateCollectionRequest → Option VirtualAccount → M W Collection
  create_at req none =
      fail (validation_error "customer_id" "customer has no active virtual account")
  create_at req (some va) = do
    now ← s.now
    c ← or_wrap "collection: create" (s.collections.create_collection (new_collection req va now))
    pure (record c { nuban = va.nuban; bank_name = va.bank_name })

  -- The part of `Create` that follows the lookup of the customer.
  unfoldable pub create_owned : CreateCollectionRequest → Result (Option Customer) → M W Collection
  create_owned req (err _) = fail (not_found_error "customer" req.customer_id)
  create_owned req (ok none) = fail (not_found_error "customer" req.customer_id)
  create_owned req (ok (some _)) =
      or_wrap "collection: get VA" (s.accounts.get_active_va req.customer_id) >>= create_at req

  -- `Create`
  unfoldable pub create_collection : CreateCollectionRequest → M W Collection
  create_collection req =
      guard (not (str_eq req.reference "")) (validation_error "reference" "required")
      >> (attempt (s.customers.get_customer req.tenant_id req.customer_id) >>= create_owned req)

  -- `c == nil` in `Get`
  abbrev pub must_exist : String → Option Collection → M W Collection
  must_exist id none = fail (not_found_error "collection" id)
  must_exist id (some c) = pure c

  -- `Get`
  unfoldable pub get_collection : String → M W Collection
  get_collection id = or_wrap "collection: get" (s.collections.get_collection id) >>= must_exist id

  -- `err != nil || customer == nil || customer.TenantID != tenantID`
  unfoldable pub cancel_owned : String → String → Result (Option Customer) → M W (Unit {0})
  cancel_owned id tenant_id (err _) = fail (not_found_error "collection" id)
  cancel_owned id tenant_id (ok none) = fail (not_found_error "collection" id)
  cancel_owned id tenant_id (ok (some customer)) =
      if not (str_eq customer.tenant_id tenant_id)
      then fail (not_found_error "collection" id)
      else s.collections.cancel_collection id

  -- The part of `Cancel` that follows the lookup of the collection.
  unfoldable pub cancel_found : String → String → Result (Option Collection) → M W (Unit {0})
  cancel_found id tenant_id (err _) = fail (not_found_error "collection" id)
  cancel_found id tenant_id (ok none) = fail (not_found_error "collection" id)
  cancel_found id tenant_id (ok (some c)) =
      if not (is_open_collection c.status)
      then fail (validation_error "status" "collection is not open")
      else (attempt (s.customers.get_customer_by_id c.customer_id) >>= cancel_owned id tenant_id)

  -- `Cancel`
  unfoldable pub cancel_collection : String → String → M W (Unit {0})
  cancel_collection id tenant_id =
      attempt (s.collections.get_collection id) >>= cancel_found id tenant_id

  -- The part of `TryFulfill` that follows the search.
  abbrev pub fulfill_found : String → Option Collection → M W (Unit {0})
  fulfill_found txn_id none = pure tt
  fulfill_found txn_id (some c) = s.collections.fulfill_collection c.id txn_id

  -- `TryFulfill`
  unfoldable pub try_fulfill : String → String → Int64 → M W (Unit {0})
  try_fulfill va_id txn_id amount_kobo =
      or_wrap "collection: find open" (s.collections.find_open_collection_for_va va_id amount_kobo)
      >>= fulfill_found txn_id
