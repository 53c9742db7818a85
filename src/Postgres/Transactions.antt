-- ===== src/Postgres/Transactions.antt =====
-- internal/store/postgres/transaction_repo.go, with the constraints of migrations 006, 007 and 015.
pub mod Sums
pub mod Agreement
pub mod History
use vaultnuban.Prelude.{
  ℕ, zero, suc, String, List, [], ◌∷◌, ◌++◌, Option, none, some, Bool, true, false, not, ◌&&◌, ◌||◌,
  ◌==◌, ◌+◌, ◌-◌, ◌^◌, leb, ltb, find?, if◌then◌else◌,
}
use vaultnuban.Prelude.Int.{ℤ, pos, negsuc, ◌+ℤ◌, ◌-ℤ◌}
use vaultnuban.Prelude.Word.{Int64, add64, lt64, signed, word, format_int64}
use vaultnuban.Prelude.Text.{concat, str_eq}
use vaultnuban.Prelude.Action.{M, Result, Error, ok, err, message, wrapped, gets, of_result}
use vaultnuban.Domain.{
  Time, Bytes, VirtualAccount, day, Transaction, LedgerEntry, Direction, debit, credit, is_credit,
}
use vaultnuban.Store.{TransactionStore}
use vaultnuban.Postgres.{Database}
use vaultnuban.Postgres.Collections.{is_some, has_account}
use vaultnuban.Memstore.Transactions.{day_start}

-- The loop of `assertBalanced` over the debits and the credits.
unfoldable pub sum_sides : List LedgerEntry → Int64 → Int64 → Int64 × Int64
sum_sides [] debits credits = (debits, credits)
sum_sides (e ∷ es) debits credits =
    sum_sides es (if is_credit e.direction then debits else add64 debits e.amount_kobo)
      (if is_credit e.direction then add64 credits e.amount_kobo else credits)

-- `assertBalanced`
unfoldable pub assert_balanced : List LedgerEntry → Result (Unit {0})
unfolding sum_sides
assert_balanced entries =
    let (debits, credits) = sum_sides entries 0 0 in
    if debits == credits
    then ok tt
    else err (
        message (
          concat "ledger: unbalanced entries — debits="
            (concat (format_int64 debits) (concat " credits=" (format_int64 credits)))))

abbrev pub transaction_row : String → List Transaction → Option Transaction
transaction_row id rows = find? (λ t. str_eq t.id id) rows

-- What the database makes of a value of its types: JSONB refuses what is no JSON, a nil value included,
-- and keeps the rest in a form of its own, and TIMESTAMPTZ keeps whole microseconds.
pub record Encoding : Type 0 where
  pub jsonb : Bytes → Option Bytes
  pub timestamptz : Time → Time

-- The row that the INSERT makes of a transaction.
abbrev pub row_of : Encoding → Time → Bytes → Transaction → Transaction
row_of enc now raw tx = record tx {
  raw = raw;
  occurred_at = enc.timestamptz tx.occurred_at;
  created_at = now;
  nuban = "";
}

-- The checks of a row; those on direction and status hold by the types.
abbrev pub passes_checks : Transaction → Bool
passes_checks tx =
    lt64 0 tx.amount_kobo
    && (str_eq tx.source "webhook" || str_eq tx.source "sweep" || str_eq tx.source "internal")

abbrev pub violation : Error
violation = wrapped "transaction repo: insert transaction" (message "violates constraint")

-- The INSERTs of the entries: amounts are positive and the transaction is there.
unfoldable pub insert_entries :
    List Transaction → List LedgerEntry → List LedgerEntry → Result (List LedgerEntry)
insert_entries txs [] rows = ok rows
insert_entries txs (e ∷ es) rows =
    let rest = insert_entries txs es (rows ++ e ∷ []) in
    if lt64 0 e.amount_kobo && is_some (transaction_row e.transaction_id txs)
    then rest
    else err (wrapped "transaction repo: insert ledger entry" (message "violates constraint"))

-- The commit, or the rollback if an entry was refused.
abbrev pub commit : List Transaction → Database → Result (List LedgerEntry) → Result Bool × Database
commit txs db (err e) = (err e, db)
commit txs db (ok rows) = (ok true, record db { transactions = txs; ledger_entries = rows })

module _ (enc : Encoding) where
  -- The INSERTs: the row's own constraints come first, then a row of the same id, which ends the call
  -- without an error, then the foreign key.
  abbrev pub insert_all :
      Transaction → List LedgerEntry → Option Bytes → Database → Result Bool × Database
  insert_all tx entries none db = (err violation, db)
  insert_all tx entries (some raw) db =
      if not (passes_checks tx)
      then (err violation, db)
      else if is_some (transaction_row tx.id db.transactions)
      then (ok false, db)
      else if not (has_account tx.virtual_account_id db.accounts)
      then (err violation, db)
      else let txs = db.transactions ++ row_of enc db.now raw tx ∷ [] in
        commit txs db (insert_entries txs entries db.ledger_entries)

  -- `PostTransaction`
  unfoldable pub post_transaction : Transaction → List LedgerEntry → M Database Bool
  post_transaction tx entries db = elim (assert_balanced entries) [
    | err e ↦ (err e, db)
    | ok _ ↦ insert_all tx entries (enc.jsonb tx.raw) db
  ]

-- `GetTransaction`
unfoldable pub get_transaction : String → M Database (Option Transaction)
get_transaction id = gets λ db. transaction_row id db.transactions

-- `SUM(CASE WHEN direction = 'credit' THEN amount_kobo ELSE -amount_kobo END)` over the entries of an
-- account, which does not wrap around.
unfoldable pub sum_account : String → List LedgerEntry → ℤ
sum_account account [] = pos 0
sum_account account (e ∷ es) =
    let rest = sum_account account es in
    if str_eq e.account account
    then if is_credit e.direction
      then signed e.amount_kobo +ℤ rest
      else rest -ℤ signed e.amount_kobo
    else rest

-- `Scan` into an int64 fails if the number does not fit.
unfoldable pub scan_int64 : String → ℤ → Result Int64
scan_int64 label (pos n) =
    if ltb n (2 ^ 63) then ok n else err (wrapped label (message "out of range"))
scan_int64 label (negsuc n) =
    if ltb n (2 ^ 63) then ok (word - n - 1) else err (wrapped label (message "out of range"))

-- `GetBalance`
unfoldable pub get_balance : String → M Database Int64
unfolding sum_account scan_int64
get_balance account db =
    (scan_int64 "transaction repo: get balance" (sum_account account db.ledger_entries), db)

-- The WHERE of `GetDailyCredits`, after the join with the entry's transaction.
abbrev pub is_daily_credit : String → Time → Time → LedgerEntry → Option Transaction → Bool
is_daily_credit account start end e none = false
is_daily_credit account start end e (some t) =
    str_eq e.account account
    && is_credit e.direction
    && leb start t.occurred_at
    && ltb t.occurred_at end

unfoldable pub sum_daily : String → Time → Time → List Transaction → List LedgerEntry → ℤ
sum_daily account start end txs [] = pos 0
sum_daily account start end txs (e ∷ es) =
    let rest = sum_daily account start end txs es in
    if is_daily_credit account start end e (transaction_row e.transaction_id txs)
    then signed e.amount_kobo +ℤ rest
    else rest

-- `GetDailyCredits`
unfoldable pub get_daily_credits : String → Time → M Database Int64
unfolding sum_daily scan_int64
get_daily_credits account date db = (
  scan_int64 "transaction repo: daily credits"
      (sum_daily account (day_start date) (day_start date + day) db.transactions db.ledger_entries),
  db,
)

abbrev pub pg_transactions : Encoding → TransactionStore Database
pg_transactions enc = record {
  post_transaction = post_transaction enc;
  get_transaction = get_transaction;
  get_balance = get_balance;
  get_daily_credits = get_daily_credits;
}
