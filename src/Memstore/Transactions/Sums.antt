-- ===== src/Memstore/Transactions/Sums.antt =====
-- The loops of the transaction store of internal/store/memstore/memstore.go, and the sums of
-- Ledger/Balance.antt.
use vaultnuban.Prelude.{String, List, [], ◌∷◌, ◌++◌, ◌≡◌, refl, ap, arith, if◌then◌else◌}
use vaultnuban.Prelude.Word.{Int64, IsInt64, add64, sub64}
use vaultnuban.Prelude.Text.{str_eq}
use vaultnuban.Domain.{Time, LedgerEntry, is_credit}
use vaultnuban.Ledger.Balance.{net_of, balance_of, net_of-IsInt64, balance_of-IsInt64}
use vaultnuban.Memstore.Transactions.{
  LedgerRow, post_sum, balance_loop, daily_loop, rows_of, all_ledger_entries,
}

post_sum-from :
    (sum : Int64) (es : List LedgerEntry) → IsInt64 sum → post_sum sum es ≡ add64 sum (net_of es)
unfolding post_sum net_of add64 sub64
post_sum-from sum [] h = omega arith
post_sum-from sum (e ∷ es) h =
    rw
      (post_sum-from
        (if is_credit e.direction then add64 sum e.amount_kobo else sub64 sum e.amount_kobo) es
        (ground arith))
      (ground arith)

-- The check of `PostTransaction` adds up the entries.
pub post_sum-eq-net_of : (es : List LedgerEntry) → post_sum 0 es ≡ net_of es
unfolding add64
post_sum-eq-net_of es = omega (arith, post_sum-from 0 es (omega arith), net_of-IsInt64 es)

balance_loop-from :
    (account : String) (sum : Int64) (rows : List LedgerRow)
    → IsInt64 sum
    → balance_loop account sum rows ≡ add64 sum (balance_of account (all_ledger_entries rows))
unfolding balance_loop balance_of add64 sub64
balance_loop-from account sum [] h = omega arith
balance_loop-from account sum (row ∷ rows) h =
    rw
      (balance_loop-from account
        (if str_eq row.entry.account account
          then if is_credit row.entry.direction
            then add64 sum row.entry.amount_kobo
            else sub64 sum row.entry.amount_kobo
          else sum)
        rows (ground arith))
      (ground arith)

-- `GetBalance` returns the balance of the account over all entries of the ledger.
pub balance_loop-eq-balance_of :
    (account : String) (rows : List LedgerRow)
    → balance_loop account 0 rows ≡ balance_of account (all_ledger_entries rows)
unfolding add64
balance_loop-eq-balance_of account rows = omega (
  arith,
  balance_loop-from account 0 rows (omega arith),
  balance_of-IsInt64 account (all_ledger_entries rows),
)

pub all_ledger_entries-append :
    (xs ys : List LedgerRow)
    → all_ledger_entries (xs ++ ys) ≡ all_ledger_entries xs ++ all_ledger_entries ys
all_ledger_entries-append [] ys = refl
all_ledger_entries-append (x ∷ xs) ys = ap (◌∷◌ x.entry) (all_ledger_entries-append xs ys)

pub all_ledger_entries-rows_of :
    (at : Time) (es : List LedgerEntry) → all_ledger_entries (rows_of at es) ≡ es
all_ledger_entries-rows_of at [] = refl
all_ledger_entries-rows_of at (e ∷ es) = ap (◌∷◌ e) (all_ledger_entries-rows_of at es)

-- The day's credits add up in the order of the rows.
pub daily_loop-append :
    (account : String) (start end : Time) (xs ys : List LedgerRow) (total : Int64)
    → daily_loop account start end total (xs ++ ys)
      ≡ daily_loop account start end (daily_loop account start end total xs) ys
unfolding daily_loop
daily_loop-append account start end [] ys total = refl
daily_loop-append account start end (x ∷ xs) ys total = daily_loop-append account start end xs ys _
