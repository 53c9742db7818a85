-- ===== src/Postgres/Statements.antt =====
-- The listings and the statement of internal/store/postgres/transaction_repo.go. An ORDER BY leaves the
-- order of rows that compare equal open: it is an argument.
pub mod Pages
pub mod Agreement
use vaultnuban.Prelude.{
  ℕ, suc, String, List, [], ◌∷◌, Option, none, some, Bool, true, false, ◌&&◌, ◌||◌, ltb, leb, map,
  find?, select, take, if◌then◌else◌,
}
use vaultnuban.Prelude.Word.{Int64, add64, sub64, lt64, le64}
use vaultnuban.Prelude.Text.{concat, str_eq}
use vaultnuban.Prelude.Action.{M, Result, ok, err, gets}
use vaultnuban.Domain.{
  Time, Customer, VirtualAccount, Transaction, LedgerEntry, is_credit, Statement, StatementEntry,
}
use vaultnuban.Postgres.{Database}
use vaultnuban.Postgres.Collections.{account_of, is_some}
use vaultnuban.Postgres.Transactions.{transaction_row, sum_account, scan_int64}
use vaultnuban.Memstore.Statements.{of_account, page_of}

-- `limit <= 0 || limit > 100` stands for 50.
abbrev pub page_size : Int64 → ℕ
page_size limit = if le64 limit 0 || lt64 100 limit then 50 else limit

-- `SELECT occurred_at FROM transactions WHERE id = $3`, NULL if there is no row.
abbrev pub time_in : Option Transaction → Option Time
time_in none = none
time_in (some t) = some t.occurred_at

abbrev pub time_of : String → List Transaction → Option Time
time_of id txs = time_in (transaction_row id txs)

-- `occurred_at < (…)`, which no row passes if the right side is NULL.
abbrev pub is_before : Option Time → Transaction → Bool
is_before none t = false
is_before (some at) t = ltb t.occurred_at at

-- The WHERE of a listing, with or without a cursor.
abbrev pub on_page : (Transaction → Bool) → String → List Transaction → Transaction → Bool
on_page p cursor txs t =
    p t && (if str_eq cursor "" then true else is_before (time_of cursor txs) t)

-- `LIMIT limit+1`, and the page and the cursor made of these rows.
unfoldable pub page_with :
    (List Transaction → List Transaction)
    → (Transaction → Bool)
    → Int64
    → String
    → List Transaction
    → List Transaction × String
page_with order_by p limit cursor txs =
    page_of (page_size limit)
      (take (suc (page_size limit)) (order_by (select (on_page p cursor txs) txs)))

-- `ListTransactions`
unfoldable pub list_transactions :
    (List Transaction → List Transaction)
    → String
    → Int64
    → String
    → M Database (List Transaction × String)
unfolding page_with
list_transactions order_by va_id limit cursor =
    gets λ db. page_with order_by (of_account va_id) limit cursor db.transactions

-- The JOINs with the account and the customer.
abbrev pub customer_of : List Customer → Option VirtualAccount → Option Customer
customer_of customers none = none
customer_of customers (some va) = find? (λ c. str_eq c.id va.customer_id) customers

abbrev pub has_tenant : String → Option Customer → Bool
has_tenant tenant_id none = false
has_tenant tenant_id (some c) = str_eq c.tenant_id tenant_id

abbrev pub of_tenant : String → Database → Transaction → Bool
of_tenant tenant_id db t =
    has_tenant tenant_id (customer_of db.customers (account_of db.accounts t.virtual_account_id))

abbrev pub nuban_of : Option VirtualAccount → String
nuban_of none = ""
nuban_of (some va) = va.nuban

abbrev pub with_nuban : Database → Transaction → Transaction
with_nuban db t = record t { nuban = nuban_of (account_of db.accounts t.virtual_account_id) }

-- `GetTransactionForTenant`
unfoldable pub get_transaction_for_tenant : String → String → M Database (Option Transaction)
get_transaction_for_tenant tenant_id tx_id = gets λ db.
    elim (transaction_row tx_id db.transactions) [
      | none ↦ none
      | some t ↦ if of_tenant tenant_id db t then some (with_nuban db t) else none
    ]

-- The columns that `ListTenantTransactions` does not read are left at their zero values.
abbrev pub tenant_row : Database → Transaction → Transaction
tenant_row db t = record (with_nuban db t) { raw = []; created_at = 0 }

-- `ListTenantTransactions`
unfoldable pub list_tenant_transactions :
    (List Transaction → List Transaction)
    → String
    → Int64
    → String
    → M Database (List Transaction × String)
unfolding page_with
list_tenant_transactions order_by tenant_id limit cursor = gets λ db.
    let (page, next) = page_with order_by (of_tenant tenant_id db) limit cursor db.transactions in
    (map (tenant_row db) page, next)

-- `JOIN transactions t ON t.id = le.transaction_id`
abbrev pub with_row :
    LedgerEntry
    → Option Transaction
    → List (LedgerEntry × Transaction)
    → List (LedgerEntry × Transaction)
with_row e none rest = rest
with_row e (some t) rest = (e, t) ∷ rest

unfoldable pub joined : List Transaction → List LedgerEntry → List (LedgerEntry × Transaction)
joined txs [] = []
joined txs (e ∷ es) = with_row e (transaction_row e.transaction_id txs) (joined txs es)

abbrev pub before_window : String → Time → LedgerEntry × Transaction → Bool
before_window account from (e, t) = str_eq e.account account && ltb t.occurred_at from

abbrev pub within_window : String → Time → Time → LedgerEntry × Transaction → Bool
within_window account from to (e, t) =
    str_eq e.account account && leb from t.occurred_at && ltb t.occurred_at to

-- `if s != nil && *s != ""`
abbrev pub text_or : String → (String → String) → Option String → String
text_or fallback f none = fallback
text_or fallback f (some s) = if str_eq s "" then fallback else f s

-- The sender and the bank, and else the narration.
abbrev pub describe : Transaction → String
describe t =
    text_or (elim t.narration [ none ↦ "" | some n ↦ n ])
      (λ name. text_or name (λ bank. concat name (concat " / " bank)) t.sender_bank) t.sender_name

-- One line of the statement, with the balance after it.
abbrev pub statement_line : Int64 → LedgerEntry × Transaction → StatementEntry
statement_line running (e, t) =
    if is_credit e.direction
    then record {
      occurred_at = t.occurred_at;
      description = describe t;
      debit_kobo = 0;
      credit_kobo = e.amount_kobo;
      running_balance = add64 running e.amount_kobo;
    }
    else record {
      occurred_at = t.occurred_at;
      description = describe t;
      debit_kobo = e.amount_kobo;
      credit_kobo = 0;
      running_balance = sub64 running e.amount_kobo;
    }

-- The loop over the rows: the lines and the balance after them.
unfoldable pub statement_loop :
    Int64 → List (LedgerEntry × Transaction) → List StatementEntry × Int64
statement_loop running [] = ([], running)
statement_loop running (row ∷ rows) =
    let line = statement_line running row in
    let (lines, closing) = statement_loop line.running_balance rows in (line ∷ lines, closing)

-- The statement, once the opening balance is read.
abbrev pub statement_from :
    Time → Time → List (LedgerEntry × Transaction) → Result Int64 → Result Statement
statement_from from to rows (err e) = err e
statement_from from to rows (ok opening) =
    let (lines, closing) = statement_loop opening rows in
    ok (record {
      opening_balance_kobo = opening;
      closing_balance_kobo = closing;
      from = from;
      to = to;
      entries = lines;
    })

-- `GetStatement`
unfoldable pub get_statement :
    (List (LedgerEntry × Transaction) → List (LedgerEntry × Transaction))
    → String
    → Time
    → Time
    → M Database Statement
unfolding joined sum_account scan_int64 statement_loop
get_statement order_by account from to db =
    let rows = joined db.transactions db.ledger_entries in
    let earlier = map (λ row. row.0) (select (before_window account from) rows) in
    (
      statement_from from to (order_by (select (within_window account from to) rows))
          (scan_int64 "transaction repo: statement opening" (sum_account account earlier)),
      db,
    )
