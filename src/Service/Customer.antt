-- ===== src/Service/Customer.antt =====
-- internal/service/customer.go. `marshal` is `json.Marshal` on a customer, for the audit log.
pub mod Idempotent
pub mod Tier
use vaultnuban.Prelude.{
  String, not, Option, none, some, ◌≡◌, refl, sym, ◌∙◌, ap, arith, inl, inr, Option-cases,
}
use vaultnuban.Prelude.Word.{Int64}
use vaultnuban.Prelude.Text.{concat, str_eq}
use vaultnuban.Prelude.Dict.{lookup, insert, lookup-insert_self}
use vaultnuban.Prelude.Action.{
  M, Result, Error, ok, err, wrapped, error_text, validation_error, fail, pure, or_wrap, ignoring,
  guard, message, ◌>>=◌, ◌>>◌, >>=-ok, or_wrap-ok,
}
use vaultnuban.Domain.{
  Bytes, Customer, Identity, IdentityInput, validate, tier_out_of_range, AuditEntry,
}
use vaultnuban.Store.{CustomerStore, AuditStore}

pub record CustomerService (W : Type 0) : Type 0 where
  pub customers : CustomerStore W
  pub audit : AuditStore W
  pub marshal : Customer → Bytes

abbrev pub create_audit : String → String → String → Bytes → AuditEntry
create_audit tenant_id actor customer_id after = record {
  id = "";
  tenant_id = some tenant_id;
  actor = actor;
  action = "create_customer";
  entity_type = "customer";
  entity_id = customer_id;
  before_after = after;
  at = 0;
}

-- The arguments of `CreateCustomer`.
pub record NewCustomer : Type 0 where
  pub tenant_id : String
  pub external_ref : String
  pub display_name : String
  pub identity : IdentityInput
  pub actor : String

module _ {W : Type 0} (s : CustomerService W) where
  -- A customer with this reference is returned, and else a new one made.
  unfoldable pub create_unless : NewCustomer → Option Customer → M W Customer
  create_unless new (some existing) = pure existing
  create_unless new none = do
    customer ←
        or_wrap "customer service: create"
          (s.customers.create_customer new.tenant_id new.external_ref new.display_name new.identity)
    ignoring
        (s.audit.append (create_audit new.tenant_id new.actor customer.id (s.marshal customer)))
    pure customer

  -- `CreateCustomer`, for an identity that is valid or not.
  unfoldable pub create_valid : NewCustomer → Result (Unit {0}) → M W Customer
  create_valid new (err e) = fail (validation_error "identity" (error_text e))
  create_valid new (ok _) =
      or_wrap "customer service: check existing"
        (s.customers.get_customer_by_external_ref new.tenant_id new.external_ref)
      >>= create_unless new

  -- `CreateCustomer`
  unfoldable pub register : NewCustomer → M W Customer
  register new = create_valid new (validate new.identity)

  -- `GetCustomer`
  abbrev pub fetch : String → String → M W (Option Customer)
  fetch tenant_id customer_id = s.customers.get_customer tenant_id customer_id

abbrev pub tier_audit : String → String → String → Bytes → AuditEntry
tier_audit tenant_id actor identity_id change = record {
  id = "";
  tenant_id = some tenant_id;
  actor = actor;
  action = "kyc_tier_change";
  entity_type = "identity";
  entity_id = identity_id;
  before_after = change;
  at = 0;
}

-- The arguments of `UpdateKYCTier`.
pub record TierRequest : Type 0 where
  pub tenant_id : String
  pub customer_id : String
  pub new_tier : Int64
  pub actor : String

-- `GetCustomer` returns a pointer, which the store may share: `behind` is what stands behind the one
-- that it returned for an id. `marshal_change` is `mustMarshalBeforeAfter` on the identity before the
-- change, the old and the new tier, and the identity after it. A nil identity is a panic.
module _ {W : Type 0} (s : CustomerService W) (behind : String → Customer → W → Customer)
    (marshal_change : Option Identity → Int64 → Int64 → Identity → Bytes) where
  unfoldable pub log_tier : TierRequest → Option Identity → Customer → M W (Option Customer)
  log_tier req before c = elim c.identity [
    | none ↦ fail (message "invalid memory address or nil pointer dereference")
    | some i ↦ do
      ignoring (
          s.audit.append (
            tier_audit req.tenant_id req.actor i.id (
              marshal_change before i.kyc_tier req.new_tier
                (record i { kyc_tier = req.new_tier }))))
      pure (some (record c { identity = some (record i { kyc_tier = req.new_tier }) }))
  ]

  abbrev pub change_found : TierRequest → Option Customer → M W (Option Customer)
  change_found req none = pure none
  change_found req (some c) = do
    or_wrap "customer service: update tier"
        (s.customers.update_kyc_tier req.customer_id req.new_tier)
    λ w. log_tier req c.identity (behind req.customer_id c w) w

  -- `UpdateKYCTier`
  unfoldable pub change_tier : TierRequest → M W (Option Customer)
  change_tier req = do
    guard (not (tier_out_of_range req.new_tier)) (validation_error "kyc_tier" "must be 1, 2, or 3")
    s.customers.get_customer req.tenant_id req.customer_id >>= change_found req
