-- ===== src/Postgres/Transactions/Agreement.antt =====
-- The transaction stores of internal/store/postgres and of internal/store/memstore side by side.
use vaultnuban.Prelude.{
  String, List, [], ◌∷◌, ◌++◌, none, some, true, false, ◌≡◌, refl, ap, subst, ◌∙◌, arith, inl, inr,
  if◌then◌else◌, Bool-cases, Option-cases, All, All-append,
}
use vaultnuban.Prelude.Word.{IsInt64}
use vaultnuban.Prelude.Text.{str_eq, str_eq_iff, str_eq_refl}
use vaultnuban.Prelude.Dict.{lookup, insert, lookup-insert}
use vaultnuban.Prelude.Action.{ok}
use vaultnuban.Domain.{VirtualAccount, Transaction, LedgerEntry}
use vaultnuban.Ledger.Balance.{net_of}
use vaultnuban.Memstore.Transactions as Mem
use vaultnuban.Memstore.Transactions.{
  TransactionStore, LedgerRow, all_ledger_entries, rows_of, stamped,
}
use vaultnuban.Memstore.Transactions.Sums.{all_ledger_entries-append, all_ledger_entries-rows_of}
use vaultnuban.Memstore.Transactions.Post.{extended, post-extended}
use vaultnuban.Postgres.{Database}
use vaultnuban.Postgres.Collections.{is_some, has_account}
use vaultnuban.Postgres.Transactions.{
  transaction_row, row_of, post_transaction, Encoding, passes_checks,
}
use vaultnuban.Postgres.Transactions.Sums.{
  AllOf, IsTimed, assert_balanced-net_of, insert_entries-ok,
}

-- A posting that satisfies the constraints of the tables, in values that the database keeps as they are.
pub record IsPosting (enc : Encoding) (accounts : List VirtualAccount) (tx : Transaction)
    (entries : List LedgerEntry) : Type 0 where
  pub checked : passes_checks tx ≡ true
  pub known : has_account tx.virtual_account_id accounts ≡ true
  pub normal : enc.jsonb tx.raw ≡ some tx.raw
  pub whole : enc.timestamptz tx.occurred_at ≡ tx.occurred_at
  pub unstamped : tx.created_at ≡ 0
  pub unnamed : tx.nuban ≡ ""
  pub balanced : net_of entries ≡ 0
  pub parts : AllOf tx.id entries
  pub fits : All (λ e. IsInt64 e.amount_kobo) entries

-- The two stores hold the same.
pub record Agree (s : TransactionStore) (db : Database) : Type 0 where
  pub same_transactions : (id : String) → lookup id s.txns ≡ transaction_row id db.transactions
  pub same_entries : all_ledger_entries s.ledger ≡ db.ledger_entries
  pub timed : All (IsTimed db.transactions) s.ledger

transaction_row-append :
    (id : String) (txs : List Transaction) (t : Transaction)
    → transaction_row id txs ≡ none
    → transaction_row id (txs ++ t ∷ []) ≡ (if str_eq t.id id then some t else none)
transaction_row-append id [] t h = refl
transaction_row-append id (u ∷ us) t h = elim (Bool-cases (str_eq u.id id)) [
  | inl hit ↦ cc (rw hit at h)
  | inr miss ↦ rw miss (transaction_row-append id us t (rw miss at h))
]

transaction_row-kept :
    (id : String) (txs : List Transaction) (t u : Transaction)
    → transaction_row id txs ≡ some u
    → transaction_row id (txs ++ t ∷ []) ≡ some u
transaction_row-kept id [] t u h = cc
transaction_row-kept id (v ∷ vs) t u h = elim (Bool-cases (str_eq v.id id)) [
  | inl hit ↦ rw hit (rw hit at h)
  | inr miss ↦ rw miss (transaction_row-kept id vs t u (rw miss at h))
]

-- Rows keep their transaction when another is inserted.
IsTimed-append :
    (txs : List Transaction) (t : Transaction) (rows : List LedgerRow)
    → All (IsTimed txs) rows
    → All (IsTimed (txs ++ t ∷ [])) rows
IsTimed-append txs t [] h = tt
IsTimed-append txs t (row ∷ rows) h =
    let (int, u, found, time) = h.0 in
    (
      (int, u, transaction_row-kept row.entry.transaction_id txs t u found, time),
      IsTimed-append txs t rows h.1,
    )

-- The rows of a new posting belong to the transaction that was inserted with them.
IsTimed-rows_of :
    (txs : List Transaction) (t : Transaction) (es : List LedgerEntry)
    → transaction_row t.id txs ≡ some t
    → AllOf t.id es
    → All (λ e. IsInt64 e.amount_kobo) es
    → All (IsTimed txs) (rows_of t.occurred_at es)
IsTimed-rows_of txs t [] there parts fits = tt
IsTimed-rows_of txs t (e ∷ es) there parts fits = (
  (fits.0, t, ap (λ i. transaction_row i txs) parts.0.1 ∙ there, refl),
  IsTimed-rows_of txs t es there parts.1 fits.1,
)

module _ (enc : Encoding) (s : TransactionStore) (db : Database) (agree : Agree s db)
    (tx : Transaction) (entries : List LedgerEntry) (p : IsPosting enc db.accounts tx entries) where
  abbrev row : Transaction
  row = row_of enc db.now tx.raw tx

  abbrev grown : Database
  grown = record db {
    transactions = db.transactions ++ row ∷ [];
    ledger_entries = db.ledger_entries ++ entries;
  }

  stamped-row : stamped db.now tx ≡ row
  stamped-row = ground (arith, p.unstamped, p.unnamed, p.whole)

  there :
      transaction_row tx.id db.transactions ≡ none
      → transaction_row tx.id (db.transactions ++ row ∷ []) ≡ some row
  there new = transaction_row-append tx.id db.transactions row new ∙ rw (str_eq_refl tx.id) refl

  pg_new :
      transaction_row tx.id db.transactions ≡ none
      → post_transaction enc tx entries db ≡ (ok true, grown)
  unfolding post_transaction
  pg_new new =
      rw
        (
          assert_balanced-net_of entries p.balanced,
          p.normal,
          p.checked,
          new,
          p.known,
          insert_entries-ok (db.transactions ++ row ∷ []) tx.id entries db.ledger_entries
              (ap is_some (there new)) p.parts,
          post_transaction,
        )
        refl

  pg_old :
      (u : Transaction)
      → transaction_row tx.id db.transactions ≡ some u
      → post_transaction enc tx entries db ≡ (ok false, db)
  unfolding post_transaction
  pg_old u old =
      rw (assert_balanced-net_of entries p.balanced, p.normal, p.checked, old, post_transaction)
        refl

  mem_old :
      (u : Transaction)
      → transaction_row tx.id db.transactions ≡ some u
      → Mem.post_transaction db.now tx entries s ≡ (ok false, s)
  unfolding Mem.post_transaction
  mem_old u old = rw (agree.same_transactions tx.id ∙ old, Mem.post_transaction) refl

  mem_new :
      transaction_row tx.id db.transactions ≡ none
      → Mem.post_transaction db.now tx entries s ≡ (ok true, extended db.now tx entries s)
  mem_new new = post-extended db.now tx entries s (agree.same_transactions tx.id ∙ new) p.balanced

  grown_lookup :
      transaction_row tx.id db.transactions ≡ none
      → (id : String)
      → lookup id (insert tx.id (stamped db.now tx) s.txns)
        ≡ transaction_row id (db.transactions ++ row ∷ [])
  grown_lookup new id = elim (Option-cases (transaction_row id db.transactions)) [
    | inl absent ↦ ground (
      arith,
      stamped-row,
      lookup-insert tx.id id (stamped db.now tx) s.txns,
      agree.same_transactions id,
      transaction_row-append id db.transactions row absent,
      str_eq_iff id tx.id,
      str_eq_iff tx.id id,
    )
    | inr (u, present) ↦ ground (
      arith,
      stamped-row,
      lookup-insert tx.id id (stamped db.now tx) s.txns,
      agree.same_transactions id,
      transaction_row-kept id db.transactions row u present,
      str_eq_iff id tx.id,
      new,
    )
  ]

  grown-Agree :
      transaction_row tx.id db.transactions ≡ none → Agree (extended db.now tx entries s) grown
  grown-Agree new = record {
    same_transactions = grown_lookup new;
    same_entries =
        all_ledger_entries-append s.ledger (rows_of tx.occurred_at entries)
        ∙ (λ i. agree.same_entries i ++ all_ledger_entries-rows_of tx.occurred_at entries i);
    timed =
        All-append (IsTimed grown.transactions) s.ledger (rows_of tx.occurred_at entries)
          (IsTimed-append db.transactions row s.ledger agree.timed)
          (subst (λ at. All (IsTimed grown.transactions) (rows_of at entries)) p.whole
            (IsTimed-rows_of grown.transactions row entries (there new) p.parts p.fits));
  }

  -- Posting a balanced transaction with positive amounts: if the two stores hold the same, then both
  -- give the same answer, at the same time, and hold the same afterwards.
  pub post-Agree :
      let (r, s') = Mem.post_transaction db.now tx entries s in
      let (q, db') = post_transaction enc tx entries db in
      (r ≡ q) × Agree s' db' × (db'.accounts ≡ db.accounts)
  post-Agree = elim (Option-cases (transaction_row tx.id db.transactions)) [
    | inl new ↦ rw (mem_new new, pg_new new) (refl, grown-Agree new, refl)
    | inr (u, old) ↦ rw (mem_old u old, pg_old u old) (refl, agree, refl)
  ]
