-- ===== src/Service/Provisioning.antt =====
-- internal/service/provisioning.go, but for the opening of an account. The stores and the provider's
-- calls are parameters. An account that a store returns is a copy, as in the database's stores; the
-- one thing that depends on this is the text of the audit entries.
pub mod Closing
pub mod Opening
use vaultnuban.Prelude.{String, List, [], ◌∷◌, Option, none, some, Bool, not, if◌then◌else◌}
use vaultnuban.Prelude.Action.{
  M, Result, ok, err, state_error, fail, pure, or_wrap, ignoring, ◌>>=◌, ◌>>◌,
}
use vaultnuban.Domain.{
  Bytes, Customer, VirtualAccount, VaStatus, active, suspended, closed, status_text,
  valid_transition, AuditEntry,
}
use vaultnuban.Store.{CustomerStore, VirtualAccountStore, AuditStore}
use vaultnuban.Service.Suspense.{Fields}

-- `update_va`, `close_va` and `suspend_va` are calls of the provider.
pub record ProvisioningService (W : Type 0) : Type 0 where
  pub customers : CustomerStore W
  pub accounts : VirtualAccountStore W
  pub audit : AuditStore W
  pub update_va : String → String → M W (Unit {0})
  pub close_va : String → M W (Unit {0})
  pub suspend_va : String → M W (Unit {0})
  pub marshal_before_after : Fields → Fields → Bytes

-- The audit entry of an operation on an account.
abbrev pub account_audit : String → String → String → String → Bytes → AuditEntry
account_audit tenant_id actor action va_id before_after = record {
  id = "";
  tenant_id = some tenant_id;
  actor = actor;
  action = action;
  entity_type = "virtual_account";
  entity_id = va_id;
  before_after = before_after;
  at = 0;
}

module _ {W : Type 0} (s : ProvisioningService W) where
  -- `if customer == nil { return nil, nil }`, and else the account of the customer.
  abbrev pub if_known : M W (Option VirtualAccount) → Option Customer → M W (Option VirtualAccount)
  if_known find none = pure none
  if_known find (some _) = find

  -- `mustGetActiveVA`
  unfoldable pub must_get_active_va : String → String → M W (Option VirtualAccount)
  must_get_active_va tenant_id customer_id =
      s.customers.get_customer tenant_id customer_id
      >>= if_known (s.accounts.get_active_va customer_id)

  -- `GetVA`
  unfoldable pub get_va : String → String → M W (Option VirtualAccount)
  get_va tenant_id customer_id =
      s.customers.get_customer tenant_id customer_id
      >>= if_known (s.accounts.get_active_va customer_id)

  -- The suspended account of `UnsuspendVA`.
  unfoldable pub get_suspended_va : String → String → M W (Option VirtualAccount)
  get_suspended_va tenant_id customer_id =
      s.customers.get_customer tenant_id customer_id
      >>= if_known (s.accounts.get_va_by_customer_and_status customer_id suspended)

  -- The part of `CloseVA` that follows the lookup.
  unfoldable pub close_found : String → String → Option VirtualAccount → M W (Unit {0})
  close_found tenant_id actor none = pure tt
  close_found tenant_id actor (some va) =
      if not (valid_transition va.status closed)
      then fail (state_error (status_text va.status) (status_text closed))
      else do
        ignoring (s.close_va va.nomba_account_ref)
        or_wrap "provisioning: close VA" (s.accounts.update_va_status va.id closed)
        ignoring (
            s.audit.append (
              account_audit tenant_id actor "close_va" va.id (
                s.marshal_before_after (("status", status_text va.status) ∷ [])
                  (("status", status_text closed) ∷ []))))

  -- `CloseVA`: the provider's error is dropped.
  unfoldable pub close_account : String → String → String → M W (Unit {0})
  close_account tenant_id customer_id actor =
      must_get_active_va tenant_id customer_id >>= close_found tenant_id actor

  -- The part of `SuspendVA` that follows the lookup.
  unfoldable pub suspend_found : String → String → Option VirtualAccount → M W (Unit {0})
  suspend_found tenant_id actor none = pure tt
  suspend_found tenant_id actor (some va) =
      if not (valid_transition va.status suspended)
      then fail (state_error (status_text va.status) (status_text suspended))
      else do
        ignoring (s.suspend_va va.nomba_holder_id)
        or_wrap "provisioning: suspend VA" (s.accounts.update_va_status va.id suspended)
        ignoring (s.audit.append (account_audit tenant_id actor "suspend_va" va.id []))

  -- `SuspendVA`
  unfoldable pub suspend_account : String → String → String → M W (Unit {0})
  suspend_account tenant_id customer_id actor =
      must_get_active_va tenant_id customer_id >>= suspend_found tenant_id actor

  -- The part of `UnsuspendVA` that follows the lookup.
  unfoldable pub unsuspend_found : String → String → Option VirtualAccount → M W (Unit {0})
  unsuspend_found tenant_id actor none = pure tt
  unsuspend_found tenant_id actor (some va) =
      if not (valid_transition va.status active)
      then fail (state_error (status_text va.status) (status_text active))
      else do
        or_wrap "provisioning: unsuspend VA" (s.accounts.update_va_status va.id active)
        ignoring (s.audit.append (account_audit tenant_id actor "unsuspend_va" va.id []))

  -- `UnsuspendVA`
  unfoldable pub unsuspend_account : String → String → String → M W (Unit {0})
  unsuspend_account tenant_id customer_id actor =
      get_suspended_va tenant_id customer_id >>= unsuspend_found tenant_id actor

  -- The part of `RenameVA` that follows the lookup.
  unfoldable pub rename_found :
      String → String → String → Option VirtualAccount → M W (Option VirtualAccount)
  rename_found tenant_id new_name actor none = pure none
  rename_found tenant_id new_name actor (some va) = do
    or_wrap "provisioning: provider update VA" (s.update_va va.nomba_account_ref new_name)
    or_wrap "provisioning: rename VA locally" (s.accounts.rename_va va.id new_name)
    ignoring (
        s.audit.append (
          account_audit tenant_id actor "rename_va" va.id (
            s.marshal_before_after (("account_name", va.account_name) ∷ [])
              (("account_name", new_name) ∷ []))))
    pure (some (record va { account_name = new_name }))

  -- `RenameVA`
  unfoldable pub rename_account : String → String → String → String → M W (Option VirtualAccount)
  rename_account tenant_id customer_id new_name actor =
      must_get_active_va tenant_id customer_id >>= rename_found tenant_id new_name actor
