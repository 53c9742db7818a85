-- ===== src/Service/Suspense.antt =====
-- internal/service/suspense.go. The stores are parameters, `now` is `time.Now().UTC()`, and the two
-- functions are `json.Marshal` on what the service logs, which no code reads back.
pub mod Outcome
pub mod Laws
use vaultnuban.Prelude.{String, List, [], ◌∷◌, Option, none, some, Bool, not, if◌then◌else◌}
use vaultnuban.Prelude.Word.{Int64}
use vaultnuban.Prelude.Text.{str_eq, concat}
use vaultnuban.Prelude.Action.{
  M, Result, ok, err, message, wrapped, not_found_error, validation_error, fail, of_result, or_wrap,
  attempt, ignoring, ◌>>=◌, ◌>>◌,
}
use vaultnuban.Domain.{
  Time, Bytes, Customer, SuspenseItem, SuspenseStatus, is_open, reassigned, refund_flagged,
  Transaction, VirtualAccount, LedgerEntry, AuditEntry, credit, posted,
}
use vaultnuban.Ledger.{suspense_to_customer}
use vaultnuban.Store.{
  SuspenseStore, TransactionStore, CustomerStore, VirtualAccountStore, AuditStore,
}
use vaultnuban.Recon.Worker.{to_ptr}

abbrev pub Fields : Type 0
Fields = List (String × String)

pub record SuspenseService (W : Type 0) : Type 0 where
  pub suspense : SuspenseStore W
  pub txns : TransactionStore W
  pub customers : CustomerStore W
  pub accounts : VirtualAccountStore W
  pub audit : AuditStore W
  pub now : M W Time
  pub marshal : Fields → Bytes
  pub marshal_before_after : Fields → Fields → Bytes

pub record ResolveRequest : Type 0 where
  pub resolution : String
  pub target_customer_id : String
  pub notes : String
  pub actor : String
  pub tenant_id : String

-- `resolutionTxID`
unfoldable pub resolution_tx_id : String → String
resolution_tx_id item_id = concat "vn:res:" item_id

-- A value of a call whose error is dropped.
abbrev pub or_nil : {A : Type 0} → Result (Option A) → Option A
or_nil (ok a) = a
or_nil (err _) = none

module _ {W : Type 0} (s : SuspenseService W) where
  -- The audit entry of a resolution.
  abbrev pub resolve_audit : SuspenseItem → ResolveRequest → Fields → AuditEntry
  resolve_audit item req after = record {
    id = "";
    tenant_id = some req.tenant_id;
    actor = req.actor;
    action = "suspense_resolve";
    entity_type = "suspense_item";
    entity_id = item.id;
    before_after = s.marshal_before_after (("status", "open") ∷ []) after;
    at = 0;
  }

  -- The transaction of a reassignment.
  abbrev pub resolution_tx :
      SuspenseItem → ResolveRequest → Int64 → Option VirtualAccount → Time → Transaction
  resolution_tx item req amount va now = record {
    id = resolution_tx_id item.id;
    virtual_account_id = to_ptr va;
    session_id = none;
    amount_kobo = amount;
    direction = credit;
    source = "internal";
    status = posted;
    sender_name = none;
    sender_bank = none;
    narration = some (concat "suspense resolution: reassign to customer " req.target_customer_id);
    raw = s.marshal (("type", "suspense_resolution") ∷ ("suspense_item_id", item.id) ∷ []);
    occurred_at = now;
    created_at = 0;
    nuban = "";
  }

  -- `_, err := s.txns.PostTransaction(…)`, then the status and the audit entry.
  unfoldable pub book :
      SuspenseItem → ResolveRequest → Transaction → List LedgerEntry → M W (Unit {0})
  book item req tx entries = do
    _ ← or_wrap "suspense: post resolution entries" (s.txns.post_transaction tx entries)
    or_wrap "suspense: update status"
        (s.suspense.resolve_suspense_item item.id reassigned req.actor req.notes)
    ignoring (
        s.audit.append (
          resolve_audit item req (
            ("status", "reassigned")
            ∷ ("target_customer", req.target_customer_id)
            ∷ ("notes", req.notes)
            ∷ [])))

  -- The reassignment of an amount: the entries, the target's account, and the booking.
  unfoldable pub reassign_amount : SuspenseItem → ResolveRequest → Int64 → M W (Unit {0})
  reassign_amount item req amount = do
    entries ←
        of_result (suspense_to_customer (resolution_tx_id item.id) req.target_customer_id amount)
    va ← attempt (s.accounts.get_active_va req.target_customer_id)
    now ← s.now
    book item req (resolution_tx item req amount (or_nil va) now) entries

  -- The amount is the one of the original transaction.
  unfoldable pub with_original :
      SuspenseItem → ResolveRequest → Result (Option Transaction) → M W (Unit {0})
  with_original item req (err e) = fail (wrapped "suspense: get original transaction" e)
  with_original item req (ok none) = fail (message "suspense: get original transaction: %!w(<nil>)")
  with_original item req (ok (some tx)) = reassign_amount item req tx.amount_kobo

  -- The target must be a customer of the tenant.
  unfoldable pub with_customer : SuspenseItem → ResolveRequest → Option Customer → M W (Unit {0})
  with_customer item req none = fail (not_found_error "customer" req.target_customer_id)
  with_customer item req (some _) =
      attempt (s.txns.get_transaction item.transaction_id) >>= with_original item req

  -- `resolveByReassign`
  unfoldable pub resolve_by_reassign : SuspenseItem → ResolveRequest → M W (Unit {0})
  resolve_by_reassign item req =
      if str_eq req.target_customer_id ""
      then fail (validation_error "target_customer_id" "required for reassign")
      else do
        customer ←
            or_wrap "suspense: get target customer"
              (s.customers.get_customer req.tenant_id req.target_customer_id)
        with_customer item req customer

  -- `resolveByRefundFlag`
  unfoldable pub resolve_by_refund_flag : SuspenseItem → ResolveRequest → M W (Unit {0})
  resolve_by_refund_flag item req = do
    or_wrap "suspense: update status"
        (s.suspense.resolve_suspense_item item.id refund_flagged req.actor req.notes)
    ignoring (
        s.audit.append
          (resolve_audit item req (("status", "refund_flagged") ∷ ("notes", req.notes) ∷ [])))

  -- An item that is there and open is resolved the way that the request says.
  unfoldable pub resolve_found : String → ResolveRequest → Option SuspenseItem → M W (Unit {0})
  resolve_found item_id req none = fail (not_found_error "suspense_item" item_id)
  resolve_found item_id req (some item) =
      if not (is_open item.status)
      then fail (validation_error "status" "suspense item is already resolved")
      else if str_eq req.resolution "reassign"
      then resolve_by_reassign item req
      else if str_eq req.resolution "refund_flagged"
      then resolve_by_refund_flag item req
      else fail (validation_error "resolution" "must be 'reassign' or 'refund_flagged'")

  -- `Resolve`
  unfoldable pub resolve_item : String → ResolveRequest → M W (Unit {0})
  resolve_item item_id req =
      or_wrap "suspense: get item" (s.suspense.get_suspense_item item_id)
      >>= resolve_found item_id req

  -- `GetItem`
  abbrev pub get_item : String → M W (Option SuspenseItem)
  get_item item_id = s.suspense.get_suspense_item item_id
