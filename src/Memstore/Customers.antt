-- ===== src/Memstore/Customers.antt =====
-- The customer store of internal/store/memstore/memstore.go. `time.Now()` is the argument `now`; the
-- counter `idSeq`, which the stores share, is the first part of the state where an id is made.
use vaultnuban.Prelude.{
  ℕ, String, List, [], Option, none, some, ◌&&◌, not, ltb, length, select, take, if◌then◌else◌,
}
use vaultnuban.Prelude.Word.{Int64, lt64}
use vaultnuban.Prelude.Text.{concat, str_eq}
use vaultnuban.Prelude.Dict.{Dict, lookup, insert, values}
use vaultnuban.Prelude.Action.{M, ok, err, message, gets}
use vaultnuban.Domain.{Time, Customer, Identity, IdentityInput}
use vaultnuban.Memstore.Ids.{next_id}

pub record CustomerStore : Type 0 where
  pub customers : Dict Customer
  pub by_ext_ref : Dict String

abbrev pub new_customer_store : CustomerStore
new_customer_store = record { customers = []; by_ext_ref = [] }

-- The identity that `CreateCustomer` builds: what it does not set is Go's zero value.
abbrev pub new_identity : String → IdentityInput → Identity
new_identity customer_id input = record {
  id = "";
  customer_id = customer_id;
  bvn_masked = input.bvn_masked;
  nin_masked = input.nin_masked;
  kyc_tier = input.kyc_tier;
  verification_status = "";
  created_at = 0;
  updated_at = 0;
}

unfoldable pub create_customer :
    Time → String → String → String → IdentityInput → M (ℕ × CustomerStore) Customer
unfolding next_id insert
create_customer now tenant_id external_ref display_name input (seq, s) =
    let (id, seq') = next_id "cust" seq in
    let c : Customer = record {
      id = id;
      tenant_id = tenant_id;
      external_ref = external_ref;
      display_name = display_name;
      status = "";
      identity = some (new_identity id input);
      created_at = now;
      updated_at = 0;
    } in
    (
      ok c,
      (
        seq',
        record {
          customers = insert id c s.customers;
          by_ext_ref = insert (concat tenant_id (concat ":" external_ref)) id s.by_ext_ref;
        },
      ),
    )

-- An empty tenant id looks across tenants.
abbrev pub visible_to : String → Customer → Option Customer
visible_to tenant_id c =
    if not (str_eq tenant_id "") && not (str_eq c.tenant_id tenant_id) then none else some c

unfoldable pub get_customer : String → String → M CustomerStore (Option Customer)
unfolding lookup
get_customer tenant_id customer_id =
    gets
      λ s. elim (lookup customer_id s.customers) [ none ↦ none | some c ↦ visible_to tenant_id c ]

unfoldable pub get_customer_by_id : String → M CustomerStore (Option Customer)
unfolding lookup
get_customer_by_id customer_id = gets λ s. lookup customer_id s.customers

-- A reference to an id with no customer reads the map's zero value, nil.
unfoldable pub get_customer_by_external_ref : String → String → M CustomerStore (Option Customer)
unfolding lookup
get_customer_by_external_ref tenant_id external_ref = gets λ s.
    elim (lookup (concat tenant_id (concat ":" external_ref)) s.by_ext_ref) [
      | none ↦ none
      | some id ↦ lookup id s.customers
    ]

-- A zero `Identity` but for its customer.
abbrev pub blank_identity : String → Identity
blank_identity customer_id = record {
  id = "";
  customer_id = customer_id;
  bvn_masked = none;
  nin_masked = none;
  kyc_tier = 0;
  verification_status = "";
  created_at = 0;
  updated_at = 0;
}

abbrev pub with_tier : String → Int64 → Customer → Customer
with_tier customer_id tier c = elim c.identity [
  | none ↦ record c { identity = some (record (blank_identity customer_id) { kyc_tier = tier }) }
  | some i ↦ record c { identity = some (record i { kyc_tier = tier }) }
]

unfoldable pub update_kyc_tier : String → Int64 → M CustomerStore (Unit {0})
unfolding lookup insert
update_kyc_tier customer_id new_tier s = elim (lookup customer_id s.customers) [
  | none ↦ (err (message (concat "memstore: customer not found: " customer_id)), s)
  | some c ↦ (
    ok tt,
    record s { customers = insert customer_id (with_tier customer_id new_tier c) s.customers },
  )
]

-- `ListCustomers`, with `sort.Slice` by falling creation times as an argument. The cursor is not used.
unfoldable pub list_customers :
    (List Customer → List Customer) → String → Int64 → M CustomerStore (List Customer × String)
list_customers sort tenant_id limit = gets λ s.
    let out = sort (select (λ c. str_eq c.tenant_id tenant_id) (values s.customers)) in
    (if lt64 0 limit && ltb limit (length out) then take limit out else out, "")
