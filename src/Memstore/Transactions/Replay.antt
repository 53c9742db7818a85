-- ===== src/Memstore/Transactions/Replay.antt =====
-- Redelivery: `PostTransaction` of internal/store/memstore/memstore.go over a history of calls.
use vaultnuban.Prelude.{
  String, List, [], ◌∷◌, ◌≡◌, refl, ◌⊎◌, inl, inr, true, false, arith, ◌==◌, All, ap, ◌∙◌, ◌||◌,
}
use vaultnuban.Prelude.Text.{str_eq, str_eq_refl}
use vaultnuban.Prelude.Dict.{lookup-insert}
use vaultnuban.Domain.{Time, Transaction, LedgerEntry}
use vaultnuban.Ledger.Balance.{net_of}
use vaultnuban.Memstore.Transactions.{TransactionStore, post_transaction, stamped}
use vaultnuban.Memstore.Transactions.Post.{
  post-Outcome, duplicate, unbalanced, created, IsBalanced, post-IsBalanced, is_posted, extended,
}
use vaultnuban.Memstore.Transactions.Sums.{post_sum-eq-net_of}

-- The arguments of one call.
pub record Posting : Type 0 where
  pub now : Time
  pub tx : Transaction
  pub entries : List LedgerEntry

abbrev pub after : TransactionStore → Posting → TransactionStore
after s p = (post_transaction p.now p.tx p.entries s).1

-- The store after a history of calls, errors and duplicates included.
pub run : List Posting → TransactionStore → TransactionStore
run [] s = s
run (p ∷ ps) s = run ps (after s p)

-- A call that has nothing left to do: its id is taken, or its entries will never balance.
abbrev IsSettled : Posting → TransactionStore → Type 0
IsSettled p s = (is_posted p.tx.id s ≡ true) ⊎ ((net_of p.entries == 0) ≡ false)

IsSettled-after : (p : Posting) (s : TransactionStore) → IsSettled p s → after s p ≡ s
unfolding post_transaction
IsSettled-after p s h = ground (arith, post_sum-eq-net_of p.entries)

pub is_posted-extended :
    (id : String) (p : Posting) (s : TransactionStore)
    → is_posted id (extended p.now p.tx p.entries s) ≡ (str_eq id p.tx.id || is_posted id s)
is_posted-extended id p s = ground (arith, lookup-insert p.tx.id id (stamped p.now p.tx) s.txns)

is_posted-after :
    (id : String) (p : Posting) (s : TransactionStore)
    → is_posted id s ≡ true
    → is_posted id (after s p) ≡ true
is_posted-after id p s h = elim (post-Outcome p.now p.tx p.entries s) [
  | duplicate _ e ↦ ap (λ r. is_posted id r.1) e ∙ h
  | unbalanced _ e ↦ ap (is_posted id) e ∙ h
  | created _ _ e ↦ ap (λ r. is_posted id r.1) e ∙ is_posted-extended id p s ∙ ground arith
]

after-IsSettled : (p : Posting) (s : TransactionStore) → IsSettled p (after s p)
after-IsSettled p s = elim (post-Outcome p.now p.tx p.entries s) [
  | duplicate h e ↦ inl (ap (λ r. is_posted p.tx.id r.1) e ∙ ground arith)
  | unbalanced h e ↦ inr h
  | created _ _ e ↦ inl (
      ap (λ r. is_posted p.tx.id r.1) e
      ∙ is_posted-extended p.tx.id p s
      ∙ ground (arith, str_eq_refl p.tx.id))
]

run-IsSettled :
    (p : Posting) (ps : List Posting) (s : TransactionStore)
    → IsSettled p s
    → IsSettled p (run ps s)
unfolding run
run-IsSettled p [] s h = h
run-IsSettled p (q ∷ ps) s (inl h) =
    run-IsSettled p ps (after s q) (inl (is_posted-after p.tx.id q s h))
run-IsSettled p (q ∷ ps) s (inr h) = run-IsSettled p ps (after s q) (inr h)

-- One of the calls of a history.
abbrev pub Among : Posting → List Posting → Type 0
Among p [] = ⊥
Among p (q ∷ qs) = (p ≡ q) ⊎ Among p qs

Among-IsSettled :
    (p : Posting) (ps : List Posting) (s : TransactionStore) → Among p ps → IsSettled p (run ps s)
unfolding run
Among-IsSettled p [] s h = absurd h
Among-IsSettled p (q ∷ qs) s (inl e) = run-IsSettled p qs (after s q) (rw e (after-IsSettled q s))
Among-IsSettled p (q ∷ qs) s (inr h) = Among-IsSettled p qs (after s q) h

settled_run :
    (qs : List Posting) (s : TransactionStore) → All (λ q. IsSettled q s) qs → run qs s ≡ s
unfolding run
settled_run [] s h = refl
settled_run (q ∷ qs) s h = rw (IsSettled-after q s h.0) (settled_run qs s h.1)

redelivered :
    (qs ps : List Posting) (s : TransactionStore)
    → All (λ q. Among q ps) qs
    → All (λ q. IsSettled q (run ps s)) qs
redelivered [] ps s h = tt
redelivered (q ∷ qs) ps s h = (Among-IsSettled q ps s h.0, redelivered qs ps s h.1)

-- Calls of a history that are made again, any of them, in any order and any number of times, change
-- nothing: neither the transactions nor the ledger.
pub run-run :
    (ps qs : List Posting) (s : TransactionStore)
    → All (λ q. Among q ps) qs
    → run qs (run ps s) ≡ run ps s
run-run ps qs s h = settled_run qs (run ps s) (redelivered qs ps s h)

-- A balanced ledger is balanced after every history of calls, whatever entries they bring.
pub run-IsBalanced :
    (ps : List Posting) (s : TransactionStore) → IsBalanced s → IsBalanced (run ps s)
unfolding run
run-IsBalanced [] s h = h
run-IsBalanced (p ∷ ps) s h =
    run-IsBalanced ps (after s p) (post-IsBalanced p.now p.tx p.entries s h)
