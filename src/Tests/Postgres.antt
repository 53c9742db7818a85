-- ===== src/Tests/Postgres.antt =====
-- One transaction, posted twice to an empty in-memory store and to an empty database.
use vaultnuban.Prelude.{String, List, [], ◌∷◌, ◌≡◌, ◌⊎◌, refl, none, some, arith, ◌+◌, ◌-◌, ◌%◌}
use vaultnuban.Prelude.Dict.{lookup}
use vaultnuban.Prelude.Action.{Error, ok, err}
use vaultnuban.Domain.{Time, Transaction, LedgerEntry, Statement}
use vaultnuban.Ledger.Balance.{pair, net_of-pair}
use vaultnuban.Memstore.Statements
use vaultnuban.Memstore.Transactions as Mem
use vaultnuban.Memstore.Transactions.{TransactionStore, new_transaction_store}
use vaultnuban.Postgres.{Database}
use vaultnuban.Postgres.Transactions.{
  Encoding, get_transaction, get_balance, get_daily_credits, sum_account, sum_daily, scan_int64,
}
use vaultnuban.Postgres.Transactions.Sums.{pattern_of}
use vaultnuban.Postgres.Transactions.Agreement.{IsPosting, Agree}
use vaultnuban.Postgres.Transactions.History.{
  Posting, mem_history, pg_history, history-Agree, reads-Agree,
}
use vaultnuban.Postgres.Statements.{get_statement}
use vaultnuban.Postgres.Statements.Agreement.{plain, opening_sum, statements-Agree}
use vaultnuban.Tests.Collection.{database}
use vaultnuban.Tests.Fixtures.{transaction}

abbrev as_is : {A : Type 0} → List A → List A
as_is rows = rows

-- JSON here is a text of one byte, and a time is kept to the microsecond.
abbrev enc : Encoding
enc = record {
  jsonb = λ raw. elim raw [ [] ↦ none | b ∷ _ ↦ some (b ∷ []) ];
  timestamptz = λ at. at - at % 1000;
}

abbrev tx : Transaction
tx = record transaction {
  virtual_account_id = none;
  raw = 1 ∷ [];
  occurred_at = 7000;
  created_at = 0;
}

abbrev lines : List LedgerEntry
lines = pair "t1" "nomba_settlement" "customer_wallet:cust-1" 500

tx-IsPosting : IsPosting enc [] tx lines
tx-IsPosting = record {
  checked = refl;
  known = refl;
  normal = refl;
  whole = refl;
  unstamped = refl;
  unnamed = refl;
  balanced = net_of-pair "t1" "nomba_settlement" "customer_wallet:cust-1" 500;
  parts = ((refl, refl), ((refl, refl), tt));
  fits = (omega arith, (omega arith, tt));
}

empty-Agree : Agree new_transaction_store database
unfolding lookup
empty-Agree = record { same_transactions = λ id. refl; same_entries = refl; timed = tt }

abbrev postings : List Posting
postings = (9000, tx, lines) ∷ (10000, tx, lines) ∷ []

history-Agree_example :
    ((mem_history postings new_transaction_store).0 ≡ (pg_history enc postings database).0)
    × Agree (mem_history postings new_transaction_store).1 (pg_history enc postings database).1
history-Agree_example =
    history-Agree enc postings new_transaction_store database (tx-IsPosting, (tx-IsPosting, tt))
      empty-Agree

abbrev in_memory : TransactionStore
in_memory = (mem_history postings new_transaction_store).1

abbrev in_database : Database
in_database = (pg_history enc postings database).1

reads-Agree_example :
    ((id : String) → (Mem.get_transaction id in_memory).0 ≡ (get_transaction id in_database).0)
    × ((account : String)
        → let z = sum_account account in_database.ledger_entries in
          ((get_balance account in_database).0 ≡ scan_int64 "transaction repo: get balance" z)
          × ((Mem.get_balance account in_memory).0 ≡ ok (pattern_of z)))
    × ((account : String) (date : Time)
        → let z =
            sum_daily account
              (Mem.day_start date)
              (Mem.day_start date + 86400000000000)
              in_database.transactions
              in_database.ledger_entries in
          ((get_daily_credits account date in_database).0
            ≡ scan_int64 "transaction repo: daily credits" z)
          × ((Mem.get_daily_credits account date in_memory).0 ≡ ok (pattern_of z)))
reads-Agree_example =
    reads-Agree in_memory in_database
      (history-Agree enc postings new_transaction_store database (tx-IsPosting, (tx-IsPosting, tt))
        empty-Agree).1

statements-Agree_example :
    ((st : Statement) × ((get_statement as_is "suspense" 3000 9000 in_database).0 ≡ ok st)
      × ((Statements.get_statement as_is "suspense" 3000 9000 in_memory).0 ≡ ok (plain st)))
    ⊎ ((x : Error) × ((get_statement as_is "suspense" 3000 9000 in_database).0 ≡ err x)
        × (scan_int64 "transaction repo: statement opening"
              (opening_sum "suspense" 3000 in_database)
            ≡ err x))
statements-Agree_example =
    statements-Agree in_memory in_database
      (history-Agree enc postings new_transaction_store database (tx-IsPosting, (tx-IsPosting, tt))
        empty-Agree).1
      as_is as_is (λ js. refl) "suspense" 3000 9000
