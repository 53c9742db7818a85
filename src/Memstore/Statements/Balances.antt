-- ===== src/Memstore/Statements/Balances.antt =====
-- The balances of a statement of internal/store/memstore/memstore.go.
use vaultnuban.Prelude.{
  String, List, [], ◌∷◌, Bool, ◌≡◌, refl, sym, ap, subst, ◌∙◌, ◌≤◌, ◌&&◌, ltb, arith, inl, inr,
  if◌then◌else◌, select, Bool-cases,
}
use mathlib.Core.List.{Perm, foldr}
use mathlib.Core.List.Perm
use vaultnuban.Prelude.Word.{Int64, IsInt64, add64, sub64, add64_assoc, add64-IsInt64}
use vaultnuban.Prelude.Text.{str_eq}
use vaultnuban.Prelude.Action.{Result, ok, err}
use vaultnuban.Domain.{Time, Statement, StatementEntry, is_credit}
use vaultnuban.Ledger.Balance.{signed_amount}
use vaultnuban.Memstore.Transactions.{TransactionStore, LedgerRow}
use vaultnuban.Memstore.Statements.{opening_loop, in_window, line_of, running_loop, get_statement}

-- Credits less debits of rows.
abbrev sum_rows : List LedgerRow → Int64
sum_rows = foldr (λ row total. add64 (signed_amount row.entry) total) 0

abbrev before : String → Time → LedgerRow → Bool
before account t row = str_eq row.entry.account account && ltb row.occurred_at t

sum_rows-IsInt64 : (rows : List LedgerRow) → IsInt64 (sum_rows rows)
sum_rows-IsInt64 [] = omega arith
sum_rows-IsInt64 (row ∷ rows) = add64-IsInt64 (signed_amount row.entry) (sum_rows rows)

opening_loop-sum :
    (account : String) (from : Time) (total : Int64) (rows : List LedgerRow)
    → IsInt64 total
    → opening_loop account from total rows
      ≡ add64 total (sum_rows (select (before account from) rows))
unfolding opening_loop add64 sub64
opening_loop-sum account from total [] h = omega arith
opening_loop-sum account from total (row ∷ rows) h =
    rw
      (opening_loop-sum account from
        (if before account from row
          then if is_credit row.entry.direction
            then add64 total row.entry.amount_kobo
            else sub64 total row.entry.amount_kobo
          else total)
        rows (ground arith))
      (ground arith)

running_balance-line_of :
    (running : Int64) (row : LedgerRow)
    → IsInt64 running
    → (line_of running row).running_balance ≡ add64 running (signed_amount row.entry)
unfolding add64 sub64
running_balance-line_of running row h = elim (Bool-cases (is_credit row.entry.direction)) [
  | inl c ↦ rw c refl
  | inr d ↦ rw d (omega arith)
]

running_loop-sum :
    (running : Int64) (rows : List LedgerRow)
    → IsInt64 running
    → (running_loop running rows).1 ≡ add64 running (sum_rows rows)
unfolding running_loop
running_loop-sum running [] h = unfold add64 in omega arith
running_loop-sum running (row ∷ rows) h =
    let after = add64 running (signed_amount row.entry) in
    ap (λ b. (running_loop b rows).1) (running_balance-line_of running row h)
    ∙ running_loop-sum after rows (add64-IsInt64 running (signed_amount row.entry))
    ∙ add64_assoc running (signed_amount row.entry) (sum_rows rows)

-- The rows before `from` and those of the window are the rows before `to`.
window-sum :
    (account : String) (from to : Time) (rows : List LedgerRow)
    → from ≤ to
    → add64
        (sum_rows (select (before account from) rows))
        (sum_rows (select (in_window account from to) rows))
      ≡ sum_rows (select (before account to) rows)
unfolding add64 sub64
window-sum account from to [] h = omega arith
window-sum account from to (row ∷ rows) h = ground (arith, window-sum account from to rows h)

sum-Perm : (xs ys : List LedgerRow) → Perm xs ys → sum_rows xs ≡ sum_rows ys
unfolding add64
sum-Perm xs ys p =
    Perm.foldr-eq (hlevel) (λ row total. add64 (signed_amount row.entry) total)
      (λ a b x. omega arith) p 0

-- Each line's balance is the one before it with the line's credit or debit.
abbrev pub Running : Int64 → List StatementEntry → Int64 → Type 0
Running opening [] closing = closing ≡ opening
Running opening (line ∷ lines) closing =
    (line.running_balance ≡ sub64 (add64 opening line.credit_kobo) line.debit_kobo)
    × Running line.running_balance lines closing

line_of-Running :
    (running : Int64) (row : LedgerRow)
    → IsInt64 running
    → let line = line_of running row in
      line.running_balance ≡ sub64 (add64 running line.credit_kobo) line.debit_kobo
unfolding add64 sub64
line_of-Running running row h = elim (Bool-cases (is_credit row.entry.direction)) [
  | inl c ↦ rw c (omega arith)
  | inr d ↦ rw d (omega arith)
]

running_loop-Running :
    (running : Int64) (rows : List LedgerRow)
    → IsInt64 running
    → Running running (running_loop running rows).0 (running_loop running rows).1
unfolding running_loop
running_loop-Running running [] h = refl
running_loop-Running running (row ∷ rows) h = (
  line_of-Running running row h,
  running_loop-Running (line_of running row).running_balance rows (
      subst IsInt64 (sym (running_balance-line_of running row h))
        (add64-IsInt64 running (signed_amount row.entry))),
)

opening-IsInt64 :
    (account : String) (from : Time) (rows : List LedgerRow)
    → IsInt64 (opening_loop account from 0 rows)
opening-IsInt64 account from rows =
    subst IsInt64 (sym (opening_loop-sum account from 0 rows (omega arith)))
      (add64-IsInt64 0 (sum_rows (select (before account from) rows)))

-- What was sorted adds up to what it was sorted from, and so the window leads from one opening balance
-- to the next.
closing-opening :
    (sort : List LedgerRow → List LedgerRow)
    (permutes : (rows : List LedgerRow) → Perm (sort rows) rows) (account : String) (from to : Time)
    (rows : List LedgerRow)
    → from ≤ to
    → (running_loop
        (opening_loop account from 0 rows)
        (sort (select (in_window account from to) rows))).1
      ≡ opening_loop account to 0 rows
closing-opening sort permutes account from to rows h =
    let window = select (in_window account from to) rows in
    running_loop-sum (opening_loop account from 0 rows) (sort window)
      (opening-IsInt64 account from rows)
    ∙ ap (add64 (opening_loop account from 0 rows))
        (sum-Perm (sort window) window (permutes window))
    ∙ ap (λ n. add64 n (sum_rows window)) (opening_loop-sum account from 0 rows (omega arith))
    ∙ add64_assoc 0 (sum_rows (select (before account from) rows)) (sum_rows window)
    ∙ ap (add64 0) (window-sum account from to rows h)
    ∙ sym (opening_loop-sum account to 0 rows (omega arith))

abbrev opening_of : Result Statement → Int64
opening_of (ok st) = st.opening_balance_kobo
opening_of (err e) = 0

-- For a window that does not end before it starts, and sorts that return the items that they are given: each balance of a statement comes from the one
-- before it by the line's credit or debit, from the opening balance to the closing one, and the closing
-- balance is the opening balance of every statement that starts where this one ends.
pub get_statement_balances :
    (sort sort' : List LedgerRow → List LedgerRow)
    → ((rows : List LedgerRow) → Perm (sort rows) rows)
    → (account : String) (from to later : Time) (s : TransactionStore) → from ≤ to
    → (st next : Statement) → (get_statement sort account from to s).0 ≡ ok st
    → (get_statement sort' account to later s).0 ≡ ok next
    → Running st.opening_balance_kobo st.entries st.closing_balance_kobo
      × (st.closing_balance_kobo ≡ next.opening_balance_kobo)
unfolding get_statement
get_statement_balances sort sort' permutes account from to later s h st next e e' =
    let first = opening_loop account from 0 s.ledger in
    let window = sort (select (in_window account from to) s.ledger) in
    let made : Statement = record {
      opening_balance_kobo = first;
      closing_balance_kobo = (running_loop first window).1;
      from = from;
      to = to;
      entries = (running_loop first window).0;
    } in
    let is_st : made ≡ st = cc e in
    let opens : opening_loop account to 0 s.ledger ≡ next.opening_balance_kobo = ap opening_of e' in
    subst
      (λ x.
        Running x.opening_balance_kobo x.entries x.closing_balance_kobo
        × (x.closing_balance_kobo ≡ next.opening_balance_kobo))
      is_st
      (
        running_loop-Running first window (opening-IsInt64 account from s.ledger),
        closing-opening sort permutes account from to s.ledger h ∙ opens,
      )
