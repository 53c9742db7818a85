-- ===== src/Tests/Tenants.antt =====
-- Keys, credentials and settings of the in-memory stores.
use vaultnuban.Prelude.{[], ◌∷◌, none, some, true, ◌≡◌, refl}
use vaultnuban.Prelude.Dict.{lookup, insert}
use vaultnuban.Prelude.Action.{ok}
use vaultnuban.Domain.{Tenant, ApiKey, UserCredential}
use vaultnuban.Memstore.Tenants.{
  TenantStore, create_api_key, get_tenant_by_api_key, AuthStore, seed_credential, SettingsStore,
  upsert_setting, get_setting, seed_setting,
}

abbrev tenant : Tenant
tenant = record { id = "tenant-1"; name = "Ada"; created_at = 1 }

abbrev with_tenant : TenantStore
with_tenant = record { tenants = ("tenant-1", tenant) ∷ []; keys = []; by_key = [] }

key_found :
    (key : ApiKey) × ((get_tenant_by_api_key "h"
        (create_api_key "tenant-1" "raw" "h" "vn" (0, with_tenant)).1.1).0
      ≡ ok (some tenant, some key))
    × (key.active ≡ true)
unfolding get_tenant_by_api_key create_api_key lookup insert
key_found = (_, refl, refl)

abbrev cred : UserCredential
cred = record {
  id = "cred-1";
  tenant_id = none;
  email = "a@b.c";
  password_hash = "p";
  name = "Ada";
  role = "admin";
  created_at = 1;
}

abbrev with_cred : AuthStore
with_cred = record { creds = ("a@b.c", cred) ∷ [] }

seed_keeps : (seed_credential (record cred { password_hash = "q" }) (0, with_cred)).1.1 ≡ with_cred
unfolding seed_credential lookup
seed_keeps = refl

abbrev settings : SettingsStore
settings = record { data_of = ("k", 1 ∷ []) ∷ [] }

setting_changed : (get_setting "k" (upsert_setting "k" (2 ∷ []) settings).1).0 ≡ ok (some (2 ∷ []))
unfolding get_setting upsert_setting lookup insert
setting_changed = refl

seed_setting_keeps : (seed_setting "k" (2 ∷ []) settings).1 ≡ settings
unfolding seed_setting lookup
seed_setting_keeps = refl
