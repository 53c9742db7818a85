-- ===== src/Memstore/Statements.antt =====
-- `GetStatement` and `ListTransactions` of internal/store/memstore/memstore.go. `sort.Slice`, which
-- orders equal items as it likes, is an argument of each call, and so is the order in which a range over
-- the map of transactions meets them: the two together are `arrange`.
pub mod Balances
pub mod Pages
pub mod Order
use vaultnuban.Prelude.{
  ℕ, String, List, [], ◌∷◌, Option, none, some, Bool, true, false, ◌&&◌, ◌-◌, ltb, leb, select,
  take, length, get_elem?, if◌then◌else◌,
}
use vaultnuban.Prelude.Word.{Int64, add64, sub64, lt64, le64}
use vaultnuban.Prelude.Text.{str_eq}
use vaultnuban.Prelude.Dict.{values}
use vaultnuban.Prelude.Action.{M, gets}
use vaultnuban.Domain.{Time, Transaction, is_credit, Statement, StatementEntry}
use vaultnuban.Memstore.Transactions.{TransactionStore, LedgerRow}

-- The loop over the entries before `from`.
unfoldable pub opening_loop : String → Time → Int64 → List LedgerRow → Int64
opening_loop account from opening [] = opening
opening_loop account from opening (row ∷ rows) =
    opening_loop account from
      (if str_eq row.entry.account account && ltb row.occurred_at from
        then if is_credit row.entry.direction
          then add64 opening row.entry.amount_kobo
          else sub64 opening row.entry.amount_kobo
        else opening)
      rows

-- The rows of the account from `from` on and before `to`.
abbrev pub in_window : String → Time → Time → LedgerRow → Bool
in_window account from to row =
    str_eq row.entry.account account && leb from row.occurred_at && ltb row.occurred_at to

-- One line of the statement, with the balance after it.
abbrev pub line_of : Int64 → LedgerRow → StatementEntry
line_of running row =
    if is_credit row.entry.direction
    then record {
      occurred_at = row.occurred_at;
      description = "";
      debit_kobo = 0;
      credit_kobo = row.entry.amount_kobo;
      running_balance = add64 running row.entry.amount_kobo;
    }
    else record {
      occurred_at = row.occurred_at;
      description = "";
      debit_kobo = row.entry.amount_kobo;
      credit_kobo = 0;
      running_balance = sub64 running row.entry.amount_kobo;
    }

-- The loop over the sorted window: the lines and the balance after them.
unfoldable pub running_loop : Int64 → List LedgerRow → List StatementEntry × Int64
running_loop running [] = ([], running)
running_loop running (row ∷ rows) =
    let line = line_of running row in
    let (lines, closing) = running_loop line.running_balance rows in (line ∷ lines, closing)

unfoldable pub get_statement :
    (List LedgerRow → List LedgerRow) → String → Time → Time → M TransactionStore Statement
get_statement sort account from to = gets λ s.
    let opening = opening_loop account from 0 s.ledger in
    let (lines, closing) =
      running_loop opening (sort (select (in_window account from to) s.ledger)) in
    record {
      opening_balance_kobo = opening;
      closing_balance_kobo = closing;
      from = from;
      to = to;
      entries = lines;
    }

abbrev pub of_account : String → Transaction → Bool
of_account va_id tx = elim tx.virtual_account_id [ none ↦ false | some id ↦ str_eq id va_id ]

-- The transactions behind the one with the cursor's id; all of them if there is none such.
unfoldable pub behind : String → List Transaction → Option (List Transaction)
behind cursor [] = none
behind cursor (tx ∷ txs) =
    let rest = behind cursor txs in if str_eq tx.id cursor then some txs else rest

abbrev pub or_all : List Transaction → Option (List Transaction) → List Transaction
or_all all none = all
or_all all (some rest) = rest

abbrev pub start_at : String → List Transaction → List Transaction
start_at cursor all = if str_eq cursor "" then all else or_all all (behind cursor all)

-- `limit <= 0` stands for 50.
abbrev pub page_limit : Int64 → ℕ
page_limit limit = if le64 limit 0 then 50 else limit

abbrev pub cursor_of : Option Transaction → String
cursor_of none = ""
cursor_of (some tx) = tx.id

-- The page and the cursor of the next one, empty if there is none.
unfoldable pub page_of : ℕ → List Transaction → List Transaction × String
page_of limit all =
    if ltb limit (length all)
    then (take limit all, cursor_of (get_elem? all (limit - 1)))
    else (all, "")

unfoldable pub list_transactions :
    (List Transaction → List Transaction)
    → String
    → Int64
    → String
    → M TransactionStore (List Transaction × String)
unfolding behind page_of
list_transactions arrange va_id limit cursor = gets λ s.
    page_of (page_limit limit)
      (start_at cursor (arrange (select (of_account va_id) (values s.txns))))
