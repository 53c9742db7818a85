-- ===== src/Memstore/Transactions/Post.antt =====
-- What `PostTransaction` of internal/store/memstore/memstore.go does to the ledger.
use vaultnuban.Prelude.{
  String, List, ◌++◌, ◌≡◌, refl, sym, subst, ap, ◌∙◌, inl, inr, none, some, Bool, true, false,
  arith, if◌then◌else◌, ◌==◌, Option-cases, Bool-cases,
}
use vaultnuban.Prelude.Word.{Int64, IsInt64, add64}
use vaultnuban.Prelude.Text.{str_eq}
use vaultnuban.Prelude.Dict.{lookup, insert, lookup-insert}
use vaultnuban.Prelude.Action.{Result, ok}
use vaultnuban.Domain.{Time, Transaction, LedgerEntry}
use vaultnuban.Ledger.Balance.{
  net_of, balance_of, net_of-append, balance_of-append, balance_of-IsInt64,
}
use vaultnuban.Memstore.Transactions.{
  TransactionStore, post_transaction, get_transaction, get_balance, balance_loop, stamped, rows_of,
  all_ledger_entries,
}
use vaultnuban.Memstore.Transactions.Sums.{
  post_sum-eq-net_of, balance_loop-eq-balance_of, all_ledger_entries-append,
  all_ledger_entries-rows_of,
}

-- All entries of the store.
abbrev pub entries_of : TransactionStore → List LedgerEntry
entries_of s = all_ledger_entries s.ledger

abbrev pub is_posted : String → TransactionStore → Bool
is_posted id s = elim (lookup id s.txns) [ none ↦ false | some _ ↦ true ]

-- The store after a new, balanced posting.
abbrev pub extended : Time → Transaction → List LedgerEntry → TransactionStore → TransactionStore
extended now tx entries s = record {
  txns = insert tx.id (stamped now tx) s.txns;
  ledger = s.ledger ++ rows_of tx.occurred_at entries;
}

-- How a call ended: nothing is written unless the transaction is new and balanced.
pub data Outcome (now : Time) (tx : Transaction) (entries : List LedgerEntry) (s : TransactionStore)
    (r : Result Bool × TransactionStore) : Type 0 where
  duplicate :
      {old : Transaction}
      → lookup tx.id s.txns ≡ some old
      → r ≡ (ok false, s)
      → Outcome now tx entries s r
  unbalanced : (net_of entries == 0) ≡ false → r.1 ≡ s → Outcome now tx entries s r
  created :
      lookup tx.id s.txns ≡ none
      → net_of entries ≡ 0
      → r ≡ (ok true, extended now tx entries s)
      → Outcome now tx entries s r

pub post-Outcome :
    (now : Time) (tx : Transaction) (entries : List LedgerEntry) (s : TransactionStore)
    → Outcome now tx entries s (post_transaction now tx entries s)
unfolding post_transaction
post-Outcome now tx entries s = elim (Option-cases (lookup tx.id s.txns)) [
  | inr (old, e) ↦ duplicate e (ground arith)
  | inl e ↦ elim (Bool-cases (net_of entries == 0)) [
    | inl b ↦ created e (ground arith) (ground (arith, post_sum-eq-net_of entries))
    | inr u ↦ unbalanced u (ground (arith, post_sum-eq-net_of entries))
  ]
]

entries_of-extended :
    (now : Time) (tx : Transaction) (entries : List LedgerEntry) (s : TransactionStore)
    → entries_of (extended now tx entries s) ≡ entries_of s ++ entries
entries_of-extended now tx entries s =
    all_ledger_entries-append s.ledger (rows_of tx.occurred_at entries)
    ∙ ap (◌++◌ (entries_of s)) (all_ledger_entries-rows_of tx.occurred_at entries)

-- The double-entry invariant: over the whole ledger, credits equal debits.
abbrev pub IsBalanced : TransactionStore → Type 0
IsBalanced s = net_of (entries_of s) ≡ 0

-- Every call keeps the ledger balanced, whatever entries it is given and however it ends.
pub post-IsBalanced :
    (now : Time) (tx : Transaction) (entries : List LedgerEntry) (s : TransactionStore)
    → IsBalanced s
    → IsBalanced (post_transaction now tx entries s).1
unfolding add64
post-IsBalanced now tx entries s h = elim (post-Outcome now tx entries s) [
  | duplicate _ e ↦ rw e h
  | unbalanced _ e ↦ rw e h
  | created _ z e ↦
      rw (e, entries_of-extended now tx entries s, net_of-append (entries_of s) entries, h, z) refl
]

pub post-extended :
    (now : Time) (tx : Transaction) (entries : List LedgerEntry) (s : TransactionStore)
    → lookup tx.id s.txns ≡ none
    → net_of entries ≡ 0
    → post_transaction now tx entries s ≡ (ok true, extended now tx entries s)
unfolding post_transaction
post-extended now tx entries s fresh z = ground (arith, post_sum-eq-net_of entries)

-- `GetBalance` as a number.
unfoldable pub balance : String → TransactionStore → Int64
unfolding balance_loop
balance account s = balance_loop account 0 s.ledger

pub get_balance-balance :
    (account : String) (s : TransactionStore) → get_balance account s ≡ (ok (balance account s), s)
unfolding get_balance balance
get_balance-balance account s = refl

pub balance-entries :
    (account : String) (s : TransactionStore)
    → balance account s ≡ balance_of account (entries_of s)
unfolding balance
balance-entries account s = balance_loop-eq-balance_of account s.ledger

pub balance-IsInt64 : (account : String) (s : TransactionStore) → IsInt64 (balance account s)
balance-IsInt64 account s =
    subst IsInt64 (sym (balance-entries account s)) (balance_of-IsInt64 account (entries_of s))

pub balance-extended :
    (account : String) (now : Time) (tx : Transaction) (entries : List LedgerEntry)
    (s : TransactionStore)
    → balance account (extended now tx entries s)
      ≡ add64 (balance account s) (balance_of account entries)
balance-extended account now tx entries s =
    rw
      (
        balance-entries account (extended now tx entries s),
        balance-entries account s,
        entries_of-extended now tx entries s,
      )
      (balance_of-append account (entries_of s) entries)

-- A new, balanced posting is stored under its id, leaves every other transaction, and changes the
-- balance of every account by what its entries say.
pub post-created :
    (now : Time) (tx : Transaction) (entries : List LedgerEntry) (s : TransactionStore)
    → lookup tx.id s.txns ≡ none
    → net_of entries ≡ 0
    → let (r, s') = post_transaction now tx entries s in
      (r ≡ ok true)
      × ((id : String)
          → (get_transaction id s').0
            ≡ (if str_eq id tx.id then ok (some (stamped now tx)) else (get_transaction id s).0))
      × ((account : String)
          → balance account s' ≡ add64 (balance account s) (balance_of account entries))
unfolding get_transaction
post-created now tx entries s fresh z = rw (post-extended now tx entries s fresh z) (
  refl,
  (λ id. ground (arith, lookup-insert tx.id id (stamped now tx) s.txns)),
  (λ account. balance-extended account now tx entries s),
)
