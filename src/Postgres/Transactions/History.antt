-- ===== src/Postgres/Transactions/History.antt =====
-- Histories of postings, and reads, on the transaction stores of internal/store/postgres and of
-- internal/store/memstore.
use vaultnuban.Prelude.{
  String, List, [], ◌∷◌, Bool, ◌≡◌, refl, sym, ap, subst, ◌∙◌, ◌+◌, arith, All,
}
use vaultnuban.Prelude.Int.{ℤ}
use vaultnuban.Prelude.Word.{IsInt64, add64}
use vaultnuban.Prelude.Action.{Result, ok}
use vaultnuban.Domain.{Time, day, Transaction, LedgerEntry}
use vaultnuban.Memstore.Transactions as Mem
use vaultnuban.Memstore.Transactions.{
  TransactionStore, LedgerRow, all_ledger_entries, rows_of, stamped,
}
use vaultnuban.Memstore.Transactions.Sums.{balance_loop-eq-balance_of}
use vaultnuban.Postgres.{Database}
use vaultnuban.Postgres.Transactions.{
  Encoding, post_transaction, get_transaction, get_balance, get_daily_credits, sum_account,
  sum_daily, scan_int64,
}
use vaultnuban.Postgres.Transactions.Sums.{
  IsTimed, sum_account-balance_of, sum_daily-daily_loop, pattern_of,
}
use vaultnuban.Postgres.Transactions.Agreement.{IsPosting, Agree, post-Agree}

-- Postings one after another, each at its time, with all answers.
abbrev pub Posting : Type 0
Posting = Time × Transaction × List LedgerEntry

unfoldable pub mem_history : List Posting → TransactionStore → List (Result Bool) × TransactionStore
mem_history [] s = ([], s)
mem_history ((now, tx, entries) ∷ ps) s =
    let (r, s') = Mem.post_transaction now tx entries s in
    let (rs, s'') = mem_history ps s' in (r ∷ rs, s'')

unfoldable pub pg_history : Encoding → List Posting → Database → List (Result Bool) × Database
pg_history enc [] db = ([], db)
pg_history enc ((now, tx, entries) ∷ ps) db =
    let (r, db') = post_transaction enc tx entries (record db { now = now }) in
    let (rs, db'') = pg_history enc ps db' in (r ∷ rs, db'')

at_time :
    (s : TransactionStore) (db : Database) (now : Time)
    → Agree s db
    → Agree s (record db { now = now })
at_time s db now a = record {
  same_transactions = a.same_transactions;
  same_entries = a.same_entries;
  timed = a.timed;
}

-- Postings at any times, duplicates included, in values that the database keeps as they are: JSON in
-- its normal form and times of whole microseconds. If each is balanced, has entries of positive int64
-- amounts that name its id, and satisfies the checks and the foreign key of its row, then the in-memory
-- store and the database's give the same answers, and hold the same in the end if they did so at the
-- start. Each posting is made at one time in both.
pub history-Agree :
    (enc : Encoding) (ps : List Posting) (s : TransactionStore) (db : Database)
    → All (λ p. IsPosting enc db.accounts p.1 p.2) ps
    → Agree s db
    → ((mem_history ps s).0 ≡ (pg_history enc ps db).0)
      × Agree (mem_history ps s).1 (pg_history enc ps db).1
unfolding mem_history pg_history
history-Agree enc [] s db h a = (refl, a)
history-Agree enc ((now, tx, entries) ∷ ps) s db h a =
    let ready = record db { now = now } in
    let (same, a', kept) = post-Agree enc s ready (at_time s db now a) tx entries h.0 in
    let (rest, a'') =
      history-Agree enc ps (Mem.post_transaction now tx entries s).1
        (post_transaction enc tx entries ready).1
        (subst (λ accounts. All (λ p. IsPosting enc accounts p.1 p.2) ps) (sym kept) h.1) a' in
    ((λ i. same i ∷ rest i), a'')

-- The amounts of agreeing stores are int64.
timed_fit :
    (txs : List Transaction) (rows : List LedgerRow)
    → All (IsTimed txs) rows
    → All (λ e. IsInt64 e.amount_kobo) (all_ledger_entries rows)
timed_fit txs [] h = tt
timed_fit txs (line ∷ lines) h = (h.0.0, timed_fit txs lines h.1)

add64_zero : (z : ℤ) → add64 0 (pattern_of z) ≡ pattern_of z
unfolding add64
add64_zero z = omega arith

-- Two stores that hold the same: `GetTransaction` gives the same answer. For `GetBalance` and
-- `GetDailyCredits` the database's answer is the exact sum, or an error if that is no int64, and the
-- in-memory answer is the same sum with wrap-around.
pub reads-Agree :
    (s : TransactionStore) (db : Database)
    → Agree s db
    → ((id : String) → (Mem.get_transaction id s).0 ≡ (get_transaction id db).0)
      × ((account : String)
          → let z = sum_account account db.ledger_entries in
            ((get_balance account db).0 ≡ scan_int64 "transaction repo: get balance" z)
            × ((Mem.get_balance account s).0 ≡ ok (pattern_of z)))
      × ((account : String) (date : Time)
          → let z =
              sum_daily account
                (Mem.day_start date)
                (Mem.day_start date + day)
                db.transactions
                db.ledger_entries in
            ((get_daily_credits account date db).0 ≡ scan_int64 "transaction repo: daily credits" z)
            × ((Mem.get_daily_credits account date s).0 ≡ ok (pattern_of z)))
unfolding Mem.get_transaction get_transaction get_balance Mem.get_balance get_daily_credits
    Mem.get_daily_credits
reads-Agree s db a = (
  (λ id. ap ok (a.same_transactions id)),
  (λ account. (
    refl,
    ap ok (
        balance_loop-eq-balance_of account s.ledger
        ∙ sym (
            sum_account-balance_of account (all_ledger_entries s.ledger)
              (timed_fit db.transactions s.ledger a.timed))
        ∙ ap (λ es. pattern_of (sum_account account es)) a.same_entries),
  )),
  (λ account date. (
    refl,
    ap ok (
        sum_daily-daily_loop account (Mem.day_start date) (Mem.day_start date + day) db.transactions
          s.ledger 0 (omega arith) a.timed
        ∙ add64_zero (
            sum_daily account (Mem.day_start date) (Mem.day_start date + day) db.transactions
              (all_ledger_entries s.ledger))
        ∙ ap
            (λ es. pattern_of (
              sum_daily account (Mem.day_start date) (Mem.day_start date + day) db.transactions es))
            a.same_entries),
  )),
)
