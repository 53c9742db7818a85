-- ===== src/Service/Provisioning/Opening.antt =====
-- `ProvisionVA` of internal/service/provisioning.go. The provider's call, the random digits, the
-- name at the provider, which is cut and padded byte by byte, and `json.Marshal` on an account are
-- parameters. Ids are ASCII, where bytes and characters are the same.
pub mod Once
use vaultnuban.Prelude.{
  ◌≡◌, refl, ℕ, zero, suc, String, Option, none, some, Bool, true, false, if◌then◌else◌,
}
use vaultnuban.Prelude.Text.{concat, str_eq}
use vaultnuban.Prelude.Action.{M, ok, fail, pure, or_wrap, ignoring, ◌>>=◌, ◌>>◌}
use vaultnuban.Domain.{Bytes, Customer, VirtualAccount, active, AuditEntry}
use vaultnuban.Provider.{CreateVaRequest, VaResponse}
use vaultnuban.Store.{CustomerStore, VirtualAccountStore, AuditStore}
use vaultnuban.Service.Provisioning.{account_audit}

-- `random_hex` is the hexadecimal text of the four random bytes.
pub record Opening (W : Type 0) : Type 0 where
  pub customers : CustomerStore W
  pub accounts : VirtualAccountStore W
  pub audit : AuditStore W
  pub create_va : CreateVaRequest → M W VaResponse
  pub random_hex : M W String
  pub account_name : Customer → String
  pub marshal : VirtualAccount → Bytes

-- `strings.ReplaceAll(s, "-", "")`
unfoldable pub without_dashes : String → String
without_dashes String.[] = ""
without_dashes (String.◌∷◌ c s) =
    let rest = without_dashes s in
    let here : String = String.◌∷◌ c "" in if str_eq here "-" then rest else concat here rest

-- `if len(s) > n { s = s[:n] }`
unfoldable pub cut : ℕ → String → String
cut zero s = ""
cut (suc n) String.[] = ""
cut (suc n) (String.◌∷◌ c s) = String.◌∷◌ c (cut n s)

-- `buildAccountRef`
unfoldable pub build_account_ref : String → String → String → String
unfolding without_dashes cut
build_account_ref tenant_id customer_id random = concat "t" (
    concat (cut 8 (without_dashes tenant_id))
      (concat "c" (concat (cut 20 (without_dashes customer_id)) random)))

build_account_ref_small : build_account_ref "ab-cdef-0123" "c-1" "00ff00ff" ≡ "tabcdef01cc100ff00ff"
unfolding build_account_ref
build_account_ref_small = refl

-- The account that the provider's answer describes.
abbrev pub opened : String → VaResponse → VirtualAccount
opened customer_id resp = record {
  id = "";
  customer_id = customer_id;
  nomba_account_ref = resp.account_ref;
  nuban = resp.nuban;
  bank_name = resp.bank_name;
  account_name = resp.account_name;
  nomba_holder_id = resp.account_holder_id;
  status = active;
  created_at = 0;
  updated_at = 0;
  customer_display_name = "";
  tenant_name = "";
}

module _ {W : Type 0} (s : Opening W) where
  -- `ProvisionVA` from the provider's answer on.
  unfoldable pub keep_account :
      String → String → String → VaResponse → M W (Option (VirtualAccount × Bool))
  keep_account tenant_id customer_id actor resp = do
    va ←
        or_wrap "provisioning: persist VA"
          (s.accounts.create_virtual_account (opened customer_id resp))
    ignoring (s.audit.append (account_audit tenant_id actor "provision_va" va.id (s.marshal va)))
    pure (some (va, true))

  -- An active account is returned as it is.
  unfoldable pub open_unless :
      String
      → String
      → String
      → Customer
      → Option VirtualAccount
      → M W (Option (VirtualAccount × Bool))
  open_unless tenant_id customer_id actor customer (some existing) = pure (some (existing, false))
  open_unless tenant_id customer_id actor customer none = do
    random ← s.random_hex
    resp ← or_wrap "provisioning: provider create VA" (
        s.create_va (record {
          account_ref = build_account_ref tenant_id customer_id random;
          account_name = s.account_name customer;
          bvn = "";
        }))
    keep_account tenant_id customer_id actor resp

  -- A tenant that does not see the customer gets neither an account nor an error.
  unfoldable pub provision_for :
      String → String → String → Option Customer → M W (Option (VirtualAccount × Bool))
  provision_for tenant_id customer_id actor none = pure none
  provision_for tenant_id customer_id actor (some customer) =
      or_wrap "provisioning: get active VA" (s.accounts.get_active_va customer_id)
      >>= open_unless tenant_id customer_id actor customer

  -- `ProvisionVA`: the account, and whether it is new.
  unfoldable pub provision : String → String → String → M W (Option (VirtualAccount × Bool))
  provision tenant_id customer_id actor =
      s.customers.get_customer tenant_id customer_id >>= provision_for tenant_id customer_id actor
