-- ===== src/Memstore/Tenants.antt =====
-- The stores of tenants, credentials and settings of internal/store/memstore/memstore.go. The counter
-- `idSeq` is the first part of the state where an id is made.
use vaultnuban.Prelude.{ℕ, String, [], Option, none, some, true, false}
use vaultnuban.Prelude.Dict.{Dict, lookup, insert}
use vaultnuban.Prelude.Action.{M, ok, gets}
use vaultnuban.Domain.{Time, Bytes, Tenant, ApiKey, UserCredential}
use vaultnuban.Memstore.Ids.{next_id}

pub record TenantStore : Type 0 where
  pub tenants : Dict Tenant
  pub keys : Dict ApiKey
  pub by_key : Dict String

abbrev pub new_tenant_store : TenantStore
new_tenant_store = record { tenants = []; keys = []; by_key = [] }

unfoldable pub create_tenant : Time → String → M (ℕ × TenantStore) Tenant
unfolding next_id insert
create_tenant now name (seq, s) =
    let (id, seq') = next_id "tenant" seq in
    let t : Tenant = record { id = id; name = name; created_at = now } in
    (ok t, (seq', record s { tenants = insert id t s.tenants }))

-- The tenant and the key are nil if their maps do not have them.
unfoldable pub get_tenant_by_api_key : String → M TenantStore (Option Tenant × Option ApiKey)
unfolding lookup
get_tenant_by_api_key key_hash = gets λ s. elim (lookup key_hash s.by_key) [
  | none ↦ (none, none)
  | some tenant_id ↦ (lookup tenant_id s.tenants, lookup key_hash s.keys)
]

abbrev with_key : String → String → ApiKey → TenantStore → TenantStore
with_key tenant_id key_hash key s = record s {
  keys = insert key_hash key s.keys;
  by_key = insert key_hash tenant_id s.by_key;
}

unfoldable pub create_api_key : String → String → String → String → M (ℕ × TenantStore) ApiKey
unfolding next_id insert
create_api_key tenant_id raw_key key_hash key_prefix (seq, s) =
    let (id, seq') = next_id "key" seq in
    let key : ApiKey = record {
      id = id;
      tenant_id = tenant_id;
      raw_key = raw_key;
      key_hash = key_hash;
      key_prefix = key_prefix;
      active = true;
      created_at = 0;
    } in
    (ok key, (seq', with_key tenant_id key_hash key s))

-- A seeded key is not active.
unfoldable pub seed_api_key : String → String → ℕ × TenantStore → ℕ × TenantStore
unfolding next_id insert
seed_api_key tenant_id key_hash (seq, s) =
    let (id, seq') = next_id "key" seq in
    let key : ApiKey = record {
      id = id;
      tenant_id = tenant_id;
      raw_key = "";
      key_hash = key_hash;
      key_prefix = "test_";
      active = false;
      created_at = 0;
    } in
    (seq', with_key tenant_id key_hash key s)

pub record AuthStore : Type 0 where
  pub creds : Dict UserCredential

abbrev pub new_auth_store : AuthStore
new_auth_store = record { creds = [] }

-- The store keeps a copy: the caller's credential has no id.
unfoldable pub create_credential : UserCredential → M (ℕ × AuthStore) (Unit {0})
unfolding next_id insert
create_credential cred (seq, s) =
    let (id, seq') = next_id "cred" seq in
    (ok tt, (seq', record { creds = insert cred.email (record cred { id = id }) s.creds }))

unfoldable pub seed_credential : UserCredential → M (ℕ × AuthStore) (Unit {0})
unfolding lookup create_credential
seed_credential cred (seq, s) = elim (lookup cred.email s.creds) [
  | some _ ↦ (ok tt, (seq, s))
  | none ↦ create_credential cred (seq, s)
]

-- The tenant and the key that the interface names are always nil here.
unfoldable pub get_credential_by_email :
    String → M AuthStore (Option UserCredential × Option Tenant × Option ApiKey)
unfolding lookup
get_credential_by_email email = gets λ s. (lookup email s.creds, none, none)

pub record SettingsStore : Type 0 where
  pub data_of : Dict Bytes

abbrev pub new_settings_store : SettingsStore
new_settings_store = record { data_of = [] }

-- Values are copied on their way in and out.
unfoldable pub get_setting : String → M SettingsStore (Option Bytes)
unfolding lookup
get_setting key = gets λ s. lookup key s.data_of

unfoldable pub upsert_setting : String → Bytes → M SettingsStore (Unit {0})
unfolding insert
upsert_setting key value s = (ok tt, record { data_of = insert key value s.data_of })

unfoldable pub seed_setting : String → Bytes → M SettingsStore (Unit {0})
unfolding lookup insert
seed_setting key value s = elim (lookup key s.data_of) [
  | some _ ↦ (ok tt, s)
  | none ↦ (ok tt, record { data_of = insert key value s.data_of })
]
