-- ===== src/Service/Suspense/Outcome.antt =====
-- `Resolve` of internal/service/suspense.go over the stores of internal/store/memstore: the three ways
-- a call can end.
use vaultnuban.Prelude.{
  String, List, [], ◌∷◌, ◌++◌, Option, none, some, true, false, ◌≡◌, refl, inl, inr, ◌∙◌, ap, arith,
  if◌then◌else◌, Bool-cases, Option-cases,
}
use vaultnuban.Prelude.Word.{Int64, le64}
use vaultnuban.Prelude.Text.{str_eq}
use vaultnuban.Prelude.Dict.{lookup, insert}
use vaultnuban.Prelude.Action.{Result, Error, ok, err}
use vaultnuban.Domain.{
  Bytes, Customer, SuspenseItem, SuspenseStatus, is_open, reassigned, refund_flagged, Transaction,
  LedgerEntry, account_suspense, customer_wallet_account,
}
use vaultnuban.Ledger.{suspense_to_customer, not_positive}
use vaultnuban.Ledger.Balance.{pair, net_of, net_of-pair}
use vaultnuban.Memstore.World.{
  World, mem_suspense, mem_txns, mem_customers, mem_accounts, mem_audit, mem_now,
}
use vaultnuban.Memstore.Transactions.{TransactionStore, post_transaction, get_transaction}
use vaultnuban.Memstore.Transactions.Post.{is_posted, extended, post-extended}
use vaultnuban.Memstore.Suspense.{SuspenseStore, resolve_suspense_item, get_suspense_item}
use vaultnuban.Memstore.Accounts.{get_active_va}
use vaultnuban.Memstore.Customers.{get_customer, visible_to}
use vaultnuban.Memstore.Runs.{append_audit}
use vaultnuban.Service.Suspense.{
  SuspenseService, Fields, ResolveRequest, resolution_tx_id, resolution_tx, resolve_audit, or_nil,
  book, reassign_amount, with_original, with_customer, resolve_by_reassign, resolve_by_refund_flag,
  resolve_found, resolve_item,
}

-- Every item stands under its own id.
abbrev pub IsKeyed : SuspenseStore → Type 0
IsKeyed s = (id : String) (item : SuspenseItem) → lookup id s.items ≡ some item → item.id ≡ id

abbrev pub mem_service : (Fields → Bytes) → (Fields → Fields → Bytes) → SuspenseService World
mem_service marshal marshal_before_after = record {
  suspense = mem_suspense;
  txns = mem_txns;
  customers = mem_customers;
  accounts = mem_accounts;
  audit = mem_audit;
  now = mem_now;
  marshal = marshal;
  marshal_before_after = marshal_before_after;
}

abbrev pub resolved_item : SuspenseItem → SuspenseStatus → ResolveRequest → SuspenseItem
resolved_item item status req = record item {
  status = status;
  resolved_by = some req.actor;
  notes = some req.notes;
}

module _ (marshal : Fields → Bytes) (marshal_before_after : Fields → Fields → Bytes) where
  abbrev sv : SuspenseService World
  sv = mem_service marshal marshal_before_after

  -- The world with an item resolved and an entry in the audit log.
  abbrev pub marked : SuspenseItem → SuspenseStatus → ResolveRequest → Fields → World → World
  marked item status req after w = record w {
    suspense = record w.suspense {
      items = insert item.id (resolved_item item status req) w.suspense.items;
    };
    audit = record { entries = w.audit.entries ++ resolve_audit sv item req after ∷ [] };
  }

  -- The transaction store after a reassignment that is not in the ledger yet, or that is.
  abbrev pub reassigned_txns : SuspenseItem → ResolveRequest → Int64 → World → TransactionStore
  reassigned_txns item req amount w =
      let tx =
        resolution_tx sv item req amount
          (or_nil (get_active_va req.target_customer_id w.accounts).0) w.clock in
      if is_posted tx.id w.txns
      then w.txns
      else extended w.clock tx
          (pair tx.id account_suspense (customer_wallet_account req.target_customer_id) amount)
          w.txns

  abbrev pub flag_fields : ResolveRequest → Fields
  flag_fields req = ("status", "refund_flagged") ∷ ("notes", req.notes) ∷ []

  abbrev pub reassign_fields : ResolveRequest → Fields
  reassign_fields req =
      ("status", "reassigned")
      ∷ ("target_customer", req.target_customer_id)
      ∷ ("notes", req.notes)
      ∷ []

  pub data Resolved (item_id : String) (req : ResolveRequest) (w : World)
      (r : Result (Unit {0}) × World) : Type 0 where
    refused : {e : Error} → r ≡ (err e, w) → Resolved item_id req w r
    flagged :
        {item : SuspenseItem}
        → lookup item_id w.suspense.items ≡ some item
        → is_open item.status ≡ true
        → str_eq req.resolution "reassign" ≡ false
        → r ≡ (ok tt, marked item refund_flagged req (flag_fields req) w)
        → Resolved item_id req w r
    booked :
        {item : SuspenseItem} {tx : Transaction}
        → lookup item_id w.suspense.items ≡ some item
        → is_open item.status ≡ true
        → lookup item.transaction_id w.txns.txns ≡ some tx
        → le64 tx.amount_kobo 0 ≡ false
        → r ≡ (
          ok tt,
          marked item reassigned req
              (reassign_fields req)
              (record w { txns = reassigned_txns item req tx.amount_kobo w }),
        )
        → Resolved item_id req w r

  flag_step :
      (item : SuspenseItem) (req : ResolveRequest) (w : World)
      → lookup item.id w.suspense.items ≡ some item
      → resolve_by_refund_flag sv item req w
        ≡ (ok tt, marked item refund_flagged req (flag_fields req) w)
  unfolding resolve_by_refund_flag resolve_suspense_item append_audit
  flag_step item req w e = ground arith

  book_step :
      (item : SuspenseItem) (req : ResolveRequest) (tx : Transaction) (es : List LedgerEntry)
      (w : World)
      → lookup item.id w.suspense.items ≡ some item
      → net_of es ≡ 0
      → book sv item req tx es w ≡ (
        ok tt,
        marked item reassigned req (reassign_fields req) (record w {
          txns = if is_posted tx.id w.txns then w.txns else extended w.clock tx es w.txns;
        }),
      )
  unfolding book resolve_suspense_item append_audit post_transaction
  book_step item req tx es w e z = elim (Option-cases (lookup tx.id w.txns.txns)) [
    | inl fresh ↦ ground (arith, post-extended w.clock tx es w.txns fresh z)
    | inr (old, known) ↦ ground arith
  ]

  reassign_step :
      (item : SuspenseItem) (req : ResolveRequest) (amount : Int64) (w : World)
      → lookup item.id w.suspense.items ≡ some item
      → le64 amount 0 ≡ false
      → reassign_amount sv item req amount w ≡ (
        ok tt,
        marked item reassigned req
            (reassign_fields req)
            (record w { txns = reassigned_txns item req amount w }),
      )
  unfolding reassign_amount suspense_to_customer book get_active_va
  reassign_step item req amount w e positive = rw positive (
      book_step item req
        (resolution_tx sv item req amount
          (or_nil (get_active_va req.target_customer_id w.accounts).0) w.clock)
        (pair (resolution_tx_id item.id) account_suspense
          (customer_wallet_account req.target_customer_id) amount)
        w e
        (net_of-pair (resolution_tx_id item.id) account_suspense
          (customer_wallet_account req.target_customer_id) amount))

  amount_refused :
      (item : SuspenseItem) (req : ResolveRequest) (w : World) (amount : Int64)
      → le64 amount 0 ≡ true
      → reassign_amount sv item req amount w ≡ (err (not_positive amount), w)
  unfolding reassign_amount suspense_to_customer
  amount_refused item req w amount low = rw low refl

  module _ (item_id : String) (item : SuspenseItem) (req : ResolveRequest) (w : World)
      (e : lookup item_id w.suspense.items ≡ some item) (same : item.id ≡ item_id)
      (still : is_open item.status ≡ true) where
    original_Resolved :
        (tx : Option Transaction)
        → lookup item.transaction_id w.txns.txns ≡ tx
        → Resolved item_id req w (with_original sv item req (ok tx) w)
    unfolding with_original
    original_Resolved none found = refused refl
    original_Resolved (some tx) found = elim (Bool-cases (le64 tx.amount_kobo 0)) [
      | inl low ↦ refused (amount_refused item req w tx.amount_kobo low)
      | inr positive ↦ booked e still found positive (
          reassign_step item req tx.amount_kobo w (ap (λ i. lookup i w.suspense.items) same ∙ e)
            positive)
    ]

    customer_Resolved :
        (c : Option Customer) → Resolved item_id req w (with_customer sv item req c w)
    unfolding with_customer get_transaction
    customer_Resolved none = refused refl
    customer_Resolved (some c) = original_Resolved (lookup item.transaction_id w.txns.txns) refl

    reassign_Resolved : Resolved item_id req w (resolve_by_reassign sv item req w)
    unfolding resolve_by_reassign get_customer
    reassign_Resolved = elim (Bool-cases (str_eq req.target_customer_id "")) [
      | inl empty ↦ rw empty (refused refl)
      | inr named ↦ rw named (
          customer_Resolved (elim (lookup req.target_customer_id w.customers.customers) [
            | none ↦ none
            | some c ↦ visible_to req.tenant_id c
          ]))
    ]

  found_Resolved :
      (item_id : String) (req : ResolveRequest) (w : World) (found : Option SuspenseItem)
      → IsKeyed w.suspense
      → lookup item_id w.suspense.items ≡ found
      → Resolved item_id req w (resolve_found sv item_id req found w)
  unfolding resolve_found
  found_Resolved item_id req w none keyed e = refused refl
  found_Resolved item_id req w (some item) keyed e = elim (Bool-cases (is_open item.status)) [
    | inr done ↦ rw done (refused refl)
    | inl still ↦ elim (Bool-cases (str_eq req.resolution "reassign")) [
      | inl asked ↦
          rw (still, asked) (reassign_Resolved item_id item req w e (keyed item_id item e) still)
      | inr unasked ↦ elim (Bool-cases (str_eq req.resolution "refund_flagged")) [
        | inl flag ↦
            rw (still, unasked, flag)
              (flagged e still unasked (
                flag_step item req w
                  (ap (λ i. lookup i w.suspense.items) (keyed item_id item e) ∙ e)))
        | inr other ↦ rw (still, unasked, other) (refused refl)
      ]
    ]
  ]

  -- A call refuses with nothing written, or it is carried out to its end.
  pub resolve-Resolved :
      (item_id : String) (req : ResolveRequest) (w : World)
      → IsKeyed w.suspense
      → Resolved item_id req w (resolve_item sv item_id req w)
  unfolding resolve_item get_suspense_item
  resolve-Resolved item_id req w keyed =
      found_Resolved item_id req w (lookup item_id w.suspense.items) keyed refl
