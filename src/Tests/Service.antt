-- ===== src/Tests/Service.antt =====
-- The services of internal/service over the in-memory stores.
use vaultnuban.Prelude.{String, [], ◌≡◌, refl, arith}
use vaultnuban.Prelude.Word.{add64, sub64}
use vaultnuban.Prelude.Text.{str_eq_iff}
use vaultnuban.Prelude.Dict.{lookup, insert}
use vaultnuban.Prelude.Action.{ok, err, validation_error}
use vaultnuban.Domain.{Bytes, account_suspense, customer_wallet_account}
use vaultnuban.Ledger.Balance.{moved}
use vaultnuban.Memstore.Transactions.Post.{balance}
use vaultnuban.Memstore.World.{World}
use vaultnuban.Prelude.{some, none}
use vaultnuban.Domain.{Customer, validate}
use vaultnuban.Memstore.Ids.{format_id, next_id}
use vaultnuban.Memstore.Customers.{
  update_kyc_tier, with_tier, new_identity, create_customer, get_customer_by_external_ref,
}
use vaultnuban.Service.Customer.{
  TierRequest, change_tier, log_tier, NewCustomer, register, create_valid, create_unless,
}
use vaultnuban.Service.Customer.Tier.{mem_behind, seen, Outcome, change_tier_outcome}
use vaultnuban.Service.Customer.Idempotent.{mem_customer_service, register-register}
use vaultnuban.Prelude.Action.{message}
use vaultnuban.Recon.Memory.{receiving_va}
use vaultnuban.Domain.{active, closed, closed_account}
use vaultnuban.Service.Provisioning.{ProvisioningService, must_get_active_va, close_account}
use vaultnuban.Service.Provisioning.Closing
use vaultnuban.Service.Provisioning.Closing.{mem_provisioning, held_match, close_account-match}
use vaultnuban.Recon.Matcher.{match_credit}
use vaultnuban.Recon.Memory.{mem_matcher}
use vaultnuban.Tests.Fixtures.{
  account, customer, tier_limits, payment_of, world, holding, held_item, transaction,
}
use vaultnuban.Ledger.{suspense_to_customer, credit_suspense}
use vaultnuban.Memstore.Suspense.{get_suspense_item, resolve_suspense_item}
use vaultnuban.Memstore.Customers.{get_customer}
use vaultnuban.Memstore.Accounts.{get_active_va}
use vaultnuban.Memstore.Transactions.{get_transaction, post_transaction}
use vaultnuban.Memstore.Runs.{append_audit}
use vaultnuban.Service.Suspense.{
  Fields, ResolveRequest, resolve_item, resolve_found, resolve_by_reassign, with_customer,
  with_original, reassign_amount, book, resolution_tx_id,
}
use vaultnuban.Service.Suspense.Outcome.{IsKeyed, mem_service}
use vaultnuban.Service.Suspense.Laws.{resolve_atomic, resolve_once, resolve_moved}

abbrev marshal : Fields → Bytes
marshal fields = []

abbrev marshal_before_after : Fields → Fields → Bytes
marshal_before_after before after = []

abbrev request : String → ResolveRequest
request target = record {
  resolution = "reassign";
  target_customer_id = target;
  notes = "";
  actor = "ops";
  tenant_id = "tenant-1";
}

holding_IsKeyed : IsKeyed holding.suspense
unfolding lookup
holding_IsKeyed id item h = ground (arith, str_eq_iff id "susp-0001")

reassigns :
    (resolve_item
      (mem_service marshal marshal_before_after)
      "susp-0001"
      (request "cust-1")
      holding).0
    ≡ ok tt
unfolding resolve_item resolve_found resolve_by_reassign with_customer with_original reassign_amount
    book get_suspense_item get_customer get_transaction get_active_va suspense_to_customer
    post_transaction resolve_suspense_item append_audit lookup insert add64 sub64 resolution_tx_id
reassigns = refl

nameless :
    (resolve_item (mem_service marshal marshal_before_after) "susp-0001" (request "") holding).0
    ≡ err (validation_error "target_customer_id" "required for reassign")
unfolding resolve_item resolve_found resolve_by_reassign with_customer with_original reassign_amount
    book get_suspense_item get_customer get_transaction get_active_va suspense_to_customer
    post_transaction resolve_suspense_item append_audit lookup insert add64 sub64 resolution_tx_id
nameless = refl

resolve_atomic_example :
    (resolve_item (mem_service marshal marshal_before_after) "susp-0001" (request "") holding).1
    ≡ holding
resolve_atomic_example =
    resolve_atomic marshal marshal_before_after "susp-0001" (request "") holding holding_IsKeyed
      (validation_error "target_customer_id" "required for reassign") nameless

resolve_once_example :
    let w' =
      record (resolve_item
        (mem_service marshal marshal_before_after)
        "susp-0001"
        (request "cust-1")
        holding).1 { clock = 8 } in
    resolve_item (mem_service marshal marshal_before_after) "susp-0001" (request "cust-2") w'
    ≡ (err (validation_error "status" "suspense item is already resolved"), w')
resolve_once_example =
    resolve_once marshal marshal_before_after "susp-0001" (request "cust-1") holding holding_IsKeyed
      reassigns 8 (request "cust-2")

resolve_moved_example :
    let w' =
      (resolve_item
        (mem_service marshal marshal_before_after)
        "susp-0001"
        (request "cust-1")
        holding).1 in
    balance "suspense" w'.txns
    ≡ add64
        (balance "suspense" holding.txns)
        (moved account_suspense (customer_wallet_account "cust-1") 500 "suspense")
unfolding lookup resolution_tx_id
resolve_moved_example =
    resolve_moved marshal marshal_before_after "susp-0001" (request "cust-1") holding
      holding_IsKeyed held_item transaction reassigns refl refl refl refl (omega arith) "suspense"

world-IsKeyed : Closing.IsKeyed (world active).accounts
unfolding lookup
world-IsKeyed id va h = ground (arith, str_eq_iff id "va-1")

abbrev service : ProvisioningService World
service =
    mem_provisioning (λ ref name w. (ok tt, w)) (λ ref w. (err (message "unreachable"), w))
      (λ ref w. (ok tt, w)) marshal_before_after

close_account-match_example :
    let (r, w') = close_account service "tenant-1" "cust-1" "ops" (world active) in
    (r ≡ ok tt)
    × (match_credit (mem_matcher tier_limits) (payment_of 400000) w' ≡ (
      held_match
          (payment_of 400000)
          (record (account active) { status = closed })
          closed_account
          (credit_suspense "t1" 400000),
      w',
    ))
unfolding must_get_active_va get_customer get_active_va lookup receiving_va
close_account-match_example =
    close_account-match (λ ref name w. (ok tt, w)) (λ ref w. (err (message "unreachable"), w))
      (λ ref w. (ok tt, w)) marshal_before_after (λ ref w. refl) "tenant-1" "cust-1" "ops"
      (account active) (world active) world-IsKeyed refl tier_limits (payment_of 400000)
      (close_account service "tenant-1" "cust-1" "ops" (world active)).1 refl refl

abbrev newcomer : String → NewCustomer
newcomer name = record {
  tenant_id = "tenant-1";
  external_ref = "user-2";
  display_name = name;
  identity = record { bvn_masked = some "*******1234"; nin_masked = none; kyc_tier = 2 };
  actor = "ops";
}

abbrev made_first : Customer
made_first = record {
  id = format_id "cust" 1;
  tenant_id = "tenant-1";
  external_ref = "user-2";
  display_name = "Chi";
  status = "";
  identity = some (new_identity (format_id "cust" 1) (newcomer "Chi").identity);
  created_at = 7;
  updated_at = 0;
}

register-register_example :
    let svc = mem_customer_service (λ c. []) in
    let w' = (register svc (newcomer "Chi") (world active)).1 in
    register svc (newcomer "Chika") w' ≡ (ok made_first, w')
unfolding register create_valid create_unless validate get_customer_by_external_ref create_customer
    next_id append_audit lookup
register-register_example =
    register-register (λ c. []) (newcomer "Chi") (newcomer "Chika") made_first (world active) refl
      refl refl refl

abbrev upgrade : TierRequest
upgrade = record { tenant_id = "tenant-1"; customer_id = "cust-1"; new_tier = 3; actor = "ops" }

change_tier_outcome_example :
    let call =
      change_tier (mem_customer_service (λ c. [])) mem_behind (λ before old new after. []) in
    let (r, w') = call upgrade (world active) in
    Outcome (λ before old new after. []) upgrade (world active) r w'
change_tier_outcome_example =
    change_tier_outcome (λ c. []) (λ before old new after. []) upgrade (world active)

tier_changed :
    let call =
      change_tier (mem_customer_service (λ c. [])) mem_behind (λ before old new after. []) in
    seen upgrade (call upgrade (world active)).1 ≡ some (with_tier "cust-1" 3 customer)
unfolding change_tier log_tier get_customer update_kyc_tier append_audit lookup insert
tier_changed = refl
