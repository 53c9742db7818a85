-- ===== src/Service/Suspense/Laws.antt =====
-- What callers of `Resolve` in internal/service/suspense.go rely on, over the in-memory stores.
use vaultnuban.Prelude.{String, some, true, false, ◌≡◌, refl, sym, ◌∙◌, ap, arith, if◌then◌else◌}
use vaultnuban.Prelude.Word.{Int64, IsInt64, add64}
use vaultnuban.Prelude.Text.{str_eq, str_eq_iff}
use vaultnuban.Prelude.Dict.{lookup, insert, lookup-insert, lookup-insert_self}
use vaultnuban.Prelude.Action.{Result, Error, ok, err, validation_error}
use vaultnuban.Domain.{
  Time, Bytes, SuspenseItem, SuspenseStatus, is_open, reassigned, refund_flagged, Transaction,
  account_suspense, customer_wallet_account,
}
use vaultnuban.Ledger.Balance.{pair, moved, balance_of-pair}
use vaultnuban.Memstore.World.{World}
use vaultnuban.Memstore.Accounts.{get_active_va}
use vaultnuban.Memstore.Ids.{format_id, bumped}
use vaultnuban.Memstore.Transactions.Post.{is_posted, balance, balance-extended}
use vaultnuban.Memstore.Suspense.{SuspenseStore, create_suspense_item, get_suspense_item}
use vaultnuban.Service.Suspense.{
  Fields, ResolveRequest, resolution_tx_id, resolution_tx, or_nil, resolve_found, resolve_item,
}
use vaultnuban.Service.Suspense.Outcome.{
  IsKeyed, mem_service, marked, reassigned_txns, resolved_item, Resolved, refused, flagged, booked,
  resolve-Resolved,
}

insert-IsKeyed :
    (id : String) (item : SuspenseItem) (s : SuspenseStore)
    → item.id ≡ id
    → IsKeyed s
    → IsKeyed (record s { items = insert id item s.items })
insert-IsKeyed id item s e keyed k found h =
    ground (arith, lookup-insert id k item s.items, str_eq_iff k id, keyed k found)

-- Creating an item keeps every item under its own id, and so does resolving one.
pub create-IsKeyed :
    (now : Time) (item : SuspenseItem) (s : SuspenseStore)
    → IsKeyed s
    → IsKeyed (create_suspense_item now item s).1
unfolding create_suspense_item
create-IsKeyed now item s keyed k found h =
    insert-IsKeyed id (record item { id = id; created_at = now }) s refl keyed k found h
  where
    id : String
    id =
        if str_eq item.id ""
        then format_id "susp" (if str_eq item.id "" then bumped s.suspense_seq else s.suspense_seq)
        else item.id

module _ (marshal : Fields → Bytes) (marshal_before_after : Fields → Fields → Bytes) where
  -- An item that is not open is refused.
  refused_again :
      (item_id : String) (req : ResolveRequest) (w : World) (item : SuspenseItem)
      → lookup item_id w.suspense.items ≡ some item
      → is_open item.status ≡ false
      → resolve_item (mem_service marshal marshal_before_after) item_id req w
        ≡ (err (validation_error "status" "suspense item is already resolved"), w)
  unfolding resolve_item get_suspense_item resolve_found
  refused_again item_id req w item e done = ground arith

  marked_refuses :
      (item_id : String) (req next : ResolveRequest) (w : World) (item : SuspenseItem)
      (status : SuspenseStatus) (fields : Fields) (now : Time)
      → item.id ≡ item_id
      → is_open status ≡ false
      → let w' = record (marked marshal marshal_before_after item status req fields w) {
        clock = now;
      } in
        resolve_item (mem_service marshal marshal_before_after) item_id next w'
        ≡ (err (validation_error "status" "suspense item is already resolved"), w')
  marked_refuses item_id req next w item status fields now same done =
      refused_again item_id next
        (record (marked marshal marshal_before_after item status req fields w) { clock = now })
        (resolved_item item status req)
        (ap (λ k. lookup k (insert item.id (resolved_item item status req) w.suspense.items))
            (sym same)
          ∙ lookup-insert_self item.id (resolved_item item status req) w.suspense.items)
        done

  reassigned_balance :
      (item : SuspenseItem) (req : ResolveRequest) (amount : Int64) (w : World)
      → is_posted (resolution_tx_id item.id) w.txns ≡ false
      → IsInt64 amount
      → (account : String)
      → balance account (reassigned_txns marshal marshal_before_after item req amount w)
        ≡ add64
            (balance account w.txns)
            (moved account_suspense (customer_wallet_account req.target_customer_id) amount account)
  reassigned_balance item req amount w new fits account =
      let wallet = customer_wallet_account req.target_customer_id in
      let id = resolution_tx_id item.id in
      let tx =
        resolution_tx (mem_service marshal marshal_before_after) item req amount
          (or_nil (get_active_va req.target_customer_id w.accounts).0) w.clock in
      rw new (
        balance-extended account w.clock tx (pair id account_suspense wallet amount) w.txns
        ∙ ap (add64 (balance account w.txns))
            (balance_of-pair id account_suspense wallet amount fits account))

  module _ (item_id : String) (req : ResolveRequest) (w : World) (keyed : IsKeyed w.suspense) where
    atomic :
        (r : Result (Unit {0}) × World) (e : Error)
        → Resolved marshal marshal_before_after item_id req w r
        → r.0 ≡ err e
        → r.1 ≡ w
    atomic r e (refused r') h = ap (λ q. q.1) r'
    atomic r e (flagged _ _ _ r') h = cc (ap (λ q. q.0) r', h)
    atomic r e (booked _ _ _ _ r') h = cc (ap (λ q. q.0) r', h)

    once :
        (r : Result (Unit {0}) × World)
        → Resolved marshal marshal_before_after item_id req w r
        → r.0 ≡ ok tt
        → (now : Time) (next : ResolveRequest)
        → let w' = record r.1 { clock = now } in
          resolve_item (mem_service marshal marshal_before_after) item_id next w'
          ≡ (err (validation_error "status" "suspense item is already resolved"), w')
    once r (refused r') h now next = cc (ap (λ q. q.0) r', h)
    once r (flagged {item} e _ _ r') h now next =
        rw r'
          (marked_refuses item_id req next w item refund_flagged _ now (keyed item_id item e) refl)
    once r (booked {item} {tx} e _ _ _ r') h now next = rw r' (
        marked_refuses item_id req next
          (record w {
            txns = reassigned_txns marshal marshal_before_after item req tx.amount_kobo w;
          })
          item reassigned _ now (keyed item_id item e) refl)

    pub kept-IsKeyed :
        (r : Result (Unit {0}) × World)
        → Resolved marshal marshal_before_after item_id req w r
        → IsKeyed r.1.suspense
    kept-IsKeyed r (refused r') = rw r' keyed
    kept-IsKeyed r (flagged {item} e _ _ r') =
        rw r' (insert-IsKeyed item.id (resolved_item item refund_flagged req) w.suspense refl keyed)
    kept-IsKeyed r (booked {item} e _ _ _ r') =
        rw r' (insert-IsKeyed item.id (resolved_item item reassigned req) w.suspense refl keyed)

    balances :
        (r : Result (Unit {0}) × World) (held : SuspenseItem) (original : Transaction)
        → Resolved marshal marshal_before_after item_id req w r
        → r.0 ≡ ok tt
        → str_eq req.resolution "reassign" ≡ true
        → lookup item_id w.suspense.items ≡ some held
        → lookup held.transaction_id w.txns.txns ≡ some original
        → is_posted (resolution_tx_id item_id) w.txns ≡ false
        → IsInt64 original.amount_kobo
        → (account : String)
        → balance account r.1.txns
          ≡ add64 (balance account w.txns) (
              moved account_suspense
                (customer_wallet_account req.target_customer_id)
                original.amount_kobo
                account)
    balances r held original (refused r') h asked e' found' new fits account =
        cc (ap (λ q. q.0) r', h)
    balances r held original (flagged _ _ unasked r') h asked e' found' new fits account =
        cc (asked, unasked)
    balances r held original (booked {item} {tx} e _ found _ r') h asked e' found' new fits
          account =
        ap (λ q. balance account q.1.txns) r'
        ∙ rw same_amount (
            reassigned_balance item req original.amount_kobo w (rw (keyed item_id item e) new) fits
              account)
      where
        same_amount : tx.amount_kobo ≡ original.amount_kobo
        same_amount = cc

module _ (marshal : Fields → Bytes) (marshal_before_after : Fields → Fields → Bytes)
    (item_id : String) (req : ResolveRequest) (w : World) (keyed : IsKeyed w.suspense) where
  -- If every suspense item stands under its own id, an error of `Resolve` leaves everything as it was:
  -- neither the ledger nor an item nor the audit log is written.
  pub resolve_atomic :
      (e : Error)
      → (resolve_item (mem_service marshal marshal_before_after) item_id req w).0 ≡ err e
      → (resolve_item (mem_service marshal marshal_before_after) item_id req w).1 ≡ w
  resolve_atomic e h =
      atomic marshal marshal_before_after item_id req w keyed
        (resolve_item (mem_service marshal marshal_before_after) item_id req w) e
        (resolve-Resolved marshal marshal_before_after item_id req w keyed) h

  -- If every suspense item stands under its own id, an item that `Resolve` has resolved is refused in
  -- the next call, whatever its request and its time, and that call writes nothing.
  pub resolve_once :
      (resolve_item (mem_service marshal marshal_before_after) item_id req w).0 ≡ ok tt
      → (now : Time) (next : ResolveRequest)
      → let w' = record (resolve_item (mem_service marshal marshal_before_after) item_id req w).1 {
        clock = now;
      } in
        resolve_item (mem_service marshal marshal_before_after) item_id next w'
        ≡ (err (validation_error "status" "suspense item is already resolved"), w')
  resolve_once h now next =
      once marshal marshal_before_after item_id req w keyed
        (resolve_item (mem_service marshal marshal_before_after) item_id req w)
        (resolve-Resolved marshal marshal_before_after item_id req w keyed) h now next

  -- If every suspense item stands under its own id, a call of `Resolve`, whatever its outcome, keeps
  -- that so.
  resolve-IsKeyed :
      IsKeyed (resolve_item (mem_service marshal marshal_before_after) item_id req w).1.suspense
  resolve-IsKeyed =
      kept-IsKeyed marshal marshal_before_after item_id req w keyed
        (resolve_item (mem_service marshal marshal_before_after) item_id req w)
        (resolve-Resolved marshal marshal_before_after item_id req w keyed)

  -- If every suspense item stands under its own id, a reassignment that succeeds, and whose
  -- transaction is not in the ledger yet, moves the int64 amount of the original payment from suspense
  -- to the wallet of the target, and no other balance changes.
  pub resolve_moved :
      (held : SuspenseItem) (original : Transaction)
      → (resolve_item (mem_service marshal marshal_before_after) item_id req w).0 ≡ ok tt
      → str_eq req.resolution "reassign" ≡ true
      → lookup item_id w.suspense.items ≡ some held
      → lookup held.transaction_id w.txns.txns ≡ some original
      → is_posted (resolution_tx_id item_id) w.txns ≡ false
      → IsInt64 original.amount_kobo
      → (account : String)
      → let w' = (resolve_item (mem_service marshal marshal_before_after) item_id req w).1 in
        balance account w'.txns
        ≡ add64 (balance account w.txns) (
            moved account_suspense
              (customer_wallet_account req.target_customer_id)
              original.amount_kobo
              account)
  resolve_moved held original =
      balances marshal marshal_before_after item_id req w keyed
        (resolve_item (mem_service marshal marshal_before_after) item_id req w) held original
        (resolve-Resolved marshal marshal_before_after item_id req w keyed)
