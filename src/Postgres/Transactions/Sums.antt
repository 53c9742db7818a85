-- ===== src/Postgres/Transactions/Sums.antt =====
-- The sums of internal/store/postgres/transaction_repo.go and those of Ledger/Balance.antt.
use vaultnuban.Prelude.{
  String, List, [], ◌∷◌, ◌++◌, some, Bool, true, false, ◌≡◌, refl, sym, ap, ◌∙◌, ◌&&◌, ◌+◌, ◌-◌,
  ◌%◌, leb, ltb, arith, if◌then◌else◌, All,
}
use mathlib.Core.List.{append-nil, append_assoc}
use vaultnuban.Prelude.Int.{ℤ, pos, negsuc, ◌+ℤ◌, ◌-ℤ◌, pos_part, neg_part}
use vaultnuban.Prelude.Word.{
  Int64, IsInt64, add64, sub64, lt64, signed, word, add64_assoc, add64-IsInt64,
}
use vaultnuban.Prelude.Text.{str_eq}
use vaultnuban.Prelude.Action.{ok}
use vaultnuban.Memstore.Transactions.{LedgerRow, daily_loop, all_ledger_entries}
use vaultnuban.Domain.{Time, Transaction, LedgerEntry, is_credit}
use vaultnuban.Ledger.Balance.{net_of, balance_of}
use vaultnuban.Postgres.Collections.{is_some}
use vaultnuban.Postgres.Transactions.{
  sum_sides, assert_balanced, transaction_row, insert_entries, sum_account, sum_daily, scan_int64,
  is_daily_credit,
}

sum_sides-IsInt64 :
    (es : List LedgerEntry) (d c : Int64)
    → IsInt64 d
    → IsInt64 c
    → IsInt64 (sum_sides es d c).0 × IsInt64 (sum_sides es d c).1
unfolding sum_sides add64
sum_sides-IsInt64 [] d c hd hc = (hd, hc)
sum_sides-IsInt64 (e ∷ es) d c hd hc =
    sum_sides-IsInt64 es (if is_credit e.direction then d else add64 d e.amount_kobo)
      (if is_credit e.direction then add64 c e.amount_kobo else c) (ground arith) (ground arith)

sum_sides-net_of :
    (es : List LedgerEntry) (d c : Int64)
    → IsInt64 d
    → IsInt64 c
    → sub64 (sum_sides es d c).1 (sum_sides es d c).0 ≡ add64 (sub64 c d) (net_of es)
unfolding sum_sides add64 sub64 net_of
sum_sides-net_of [] d c hd hc = omega arith
sum_sides-net_of (e ∷ es) d c hd hc =
    sum_sides-net_of es (if is_credit e.direction then d else add64 d e.amount_kobo)
      (if is_credit e.direction then add64 c e.amount_kobo else c) (ground arith) (ground arith)
    ∙ ground arith

-- Debits and credits come out even exactly if the net sum is 0.
pub assert_balanced-net_of : (es : List LedgerEntry) → net_of es ≡ 0 → assert_balanced es ≡ ok tt
unfolding assert_balanced add64 sub64
assert_balanced-net_of es z = ground (
  arith,
  sum_sides-IsInt64 es 0 0 (omega arith) (omega arith),
  sum_sides-net_of es 0 0 (omega arith) (omega arith),
)

-- Every entry has a positive amount and belongs to the transaction.
abbrev pub AllOf : String → List LedgerEntry → Type 0
AllOf id = All (λ e. (lt64 0 e.amount_kobo ≡ true) × (e.transaction_id ≡ id))

pub insert_entries-ok :
    (txs : List Transaction) (id : String) (es rows : List LedgerEntry)
    → is_some (transaction_row id txs) ≡ true
    → AllOf id es
    → insert_entries txs es rows ≡ ok (rows ++ es)
unfolding insert_entries
insert_entries-ok txs id [] rows there h = ap ok (sym (append-nil rows))
insert_entries-ok txs id (e ∷ es) rows there h =
    let known = ap (λ i. is_some (transaction_row i txs)) h.0.1 ∙ there in
    rw (h.0.0, known)
      (insert_entries-ok txs id es (rows ++ e ∷ []) there h.1
        ∙ ap ok (append_assoc rows (e ∷ []) es))

-- The bit pattern of a number.
abbrev pub pattern_of : ℤ → Int64
pattern_of z = (pos_part z + (word - neg_part z % word)) % word

-- The exact sum wraps to the balance of the ledger.
pub sum_account-balance_of :
    (account : String) (es : List LedgerEntry)
    → All (λ e. IsInt64 e.amount_kobo) es
    → pattern_of (sum_account account es) ≡ balance_of account es
unfolding sum_account balance_of add64 sub64 ◌+ℤ◌ ◌-ℤ◌
sum_account-balance_of account [] h = omega arith
sum_account-balance_of account (e ∷ es) h = ground (arith, sum_account-balance_of account es h.1)

pub scan_int64-pattern_of :
    (label : String) (z : ℤ) (v : Int64) → scan_int64 label z ≡ ok v → v ≡ pattern_of z
unfolding scan_int64
scan_int64-pattern_of label (pos n) v h = ground arith
scan_int64-pattern_of label (negsuc n) v h = ground arith

-- A row of the in-memory ledger whose transaction is in the table and has the row's time.
abbrev pub IsTimed : List Transaction → LedgerRow → Type 0
IsTimed txs row =
    IsInt64 row.entry.amount_kobo
    × (t : Transaction) × (transaction_row row.entry.transaction_id txs ≡ some t)
    × (t.occurred_at ≡ row.occurred_at)

abbrev is_counted : String → Time → Time → LedgerRow → Bool
is_counted account start end row =
    str_eq row.entry.account account
    && is_credit row.entry.direction
    && leb start row.occurred_at
    && ltb row.occurred_at end

total_fits :
    (counts : Bool) (total a : Int64)
    → IsInt64 total
    → IsInt64 (if counts then add64 total a else total)
total_fits true total a h = add64-IsInt64 total a
total_fits false total a h = h

pattern_add : (a : Int64) (z : ℤ) → IsInt64 a → pattern_of (signed a +ℤ z) ≡ add64 a (pattern_of z)
unfolding add64 ◌+ℤ◌
pattern_add a z h = ground arith

counted_step :
    (counts : Bool) (total a : Int64) (z : ℤ)
    → IsInt64 a
    → add64 (if counts then add64 total a else total) (pattern_of z)
      ≡ add64 total (pattern_of (if counts then signed a +ℤ z else z))
counted_step true total a z h =
    add64_assoc total a (pattern_of z) ∙ ap (add64 total) (sym (pattern_add a z h))
counted_step false total a z h = refl

-- The day's credits of the table and of the in-memory ledger.
pub sum_daily-daily_loop :
    (account : String) (start end : Time) (txs : List Transaction) (rows : List LedgerRow)
    (total : Int64)
    → IsInt64 total
    → All (IsTimed txs) rows
    → daily_loop account start end total rows
      ≡ add64 total (pattern_of (sum_daily account start end txs (all_ledger_entries rows)))
unfolding sum_daily daily_loop
sum_daily-daily_loop account start end txs [] total fits h = unfold add64 in omega arith
sum_daily-daily_loop account start end txs (row ∷ rows) total fits h =
    let (int, t, found, time) = h.0 in
    let counts = is_counted account start end row in
    let rest = sum_daily account start end txs (all_ledger_entries rows) in
    let same : is_daily_credit account start end row.entry
          (transaction_row row.entry.transaction_id txs)
        ≡ counts =
      rw found (
        ap
          (λ at.
            str_eq row.entry.account account
            && is_credit row.entry.direction
            && leb start at
            && ltb at end)
          time) in
    sum_daily-daily_loop account start end txs rows
      (if counts then add64 total row.entry.amount_kobo else total)
      (total_fits counts total row.entry.amount_kobo fits) h.1
    ∙ counted_step counts total row.entry.amount_kobo rest int
    ∙ ap (λ b. add64 total (pattern_of (if b then signed row.entry.amount_kobo +ℤ rest else rest)))
        (sym same)
