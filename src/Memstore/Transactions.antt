-- ===== src/Memstore/Transactions.antt =====
-- The transaction store of internal/store/memstore/memstore.go. `time.Now()` is the argument `now`.
pub mod Sums
pub mod Post
pub mod Replay
use vaultnuban.Prelude.{
  ℕ, String, List, [], ◌∷◌, ◌++◌, map, Option, none, some, Bool, true, false, ◌*◌, ◌/◌, ◌+◌, ◌&&◌,
  ◌==◌, ltb, leb, if◌then◌else◌,
}
use vaultnuban.Prelude.Word.{Int64, add64, sub64, format_int64}
use vaultnuban.Prelude.Text.{concat, str_eq}
use vaultnuban.Prelude.Dict.{Dict, lookup, insert}
use vaultnuban.Prelude.Action.{M, Result, ok, err, message, gets}
use vaultnuban.Domain.{
  Time, is_zero, day, Transaction, LedgerEntry, Direction, is_credit, Statement, StatementEntry,
}

pub record LedgerRow : Type 0 where
  pub entry : LedgerEntry
  pub occurred_at : Time

pub record TransactionStore : Type 0 where
  pub txns : Dict Transaction
  pub ledger : List LedgerRow

abbrev pub new_transaction_store : TransactionStore
new_transaction_store = record { txns = []; ledger = [] }

-- The loop over the entries in `PostTransaction`.
unfoldable pub post_sum : Int64 → List LedgerEntry → Int64
post_sum sum [] = sum
post_sum sum (e ∷ es) =
    post_sum (if is_credit e.direction then add64 sum e.amount_kobo else sub64 sum e.amount_kobo) es

-- `if tx.CreatedAt.IsZero() { tx.CreatedAt = time.Now() }`
abbrev pub stamped : Time → Transaction → Transaction
stamped now tx = if is_zero tx.created_at then record tx { created_at = now } else tx

-- The rows that a posting appends.
abbrev pub rows_of : Time → List LedgerEntry → List LedgerRow
rows_of at [] = []
rows_of at (e ∷ es) = record { entry = e; occurred_at = at } ∷ rows_of at es

-- The result is `created`.
unfoldable pub post_transaction : Time → Transaction → List LedgerEntry → M TransactionStore Bool
unfolding lookup insert post_sum
post_transaction now tx entries s = elim (lookup tx.id s.txns) [
  | some _ ↦ (ok false, s)
  | none ↦
      let sum = post_sum 0 entries in
      if sum == 0
      then (
        ok true,
        record {
          txns = insert tx.id (stamped now tx) s.txns;
          ledger = s.ledger ++ rows_of tx.occurred_at entries;
        },
      )
      else (
        err (
            message (
              concat "memstore: unbalanced ledger entries for txn "
                (concat tx.id (concat ": net=" (format_int64 sum))))),
        s,
      )
]

unfoldable pub get_transaction : String → M TransactionStore (Option Transaction)
get_transaction tx_id = gets (λ s. lookup tx_id s.txns)

-- The loop of `GetBalance`.
unfoldable pub balance_loop : String → Int64 → List LedgerRow → Int64
balance_loop account bal [] = bal
balance_loop account bal (row ∷ rows) =
    balance_loop account
      (if str_eq row.entry.account account
        then if is_credit row.entry.direction
          then add64 bal row.entry.amount_kobo
          else sub64 bal row.entry.amount_kobo
        else bal)
      rows

unfoldable pub get_balance : String → M TransactionStore Int64
unfolding balance_loop
get_balance account = gets (λ s. balance_loop account 0 s.ledger)

-- The first instant of the UTC day of `date`.
abbrev pub day_start : Time → Time
day_start date = date / day * day

-- The loop of `GetDailyCredits`, over the day from `start` to `end`.
unfoldable pub daily_loop : String → Time → Time → Int64 → List LedgerRow → Int64
daily_loop account start end total [] = total
daily_loop account start end total (row ∷ rows) =
    daily_loop account start end
      (if str_eq row.entry.account account
          && is_credit row.entry.direction
          && leb start row.occurred_at
          && ltb row.occurred_at end
        then add64 total row.entry.amount_kobo
        else total)
      rows

unfoldable pub get_daily_credits : String → Time → M TransactionStore Int64
unfolding daily_loop
get_daily_credits account date =
    gets (λ s. daily_loop account (day_start date) (day_start date + day) 0 s.ledger)

-- `AllLedgerEntries`
abbrev pub all_ledger_entries : List LedgerRow → List LedgerEntry
all_ledger_entries [] = []
all_ledger_entries (row ∷ rows) = row.entry ∷ all_ledger_entries rows
