-- ===== src/Postgres/Statements/Agreement.antt =====
-- `GetStatement` of internal/store/postgres and of internal/store/memstore side by side.
use vaultnuban.Prelude.{
  String, List, [], ◌∷◌, Bool, true, ◌≡◌, refl, sym, ap, ◌∙◌, ◌⊎◌, inl, inr, arith, ◌&&◌, ltb, All,
  Bool-cases, select, map,
}
use vaultnuban.Prelude.Int.{ℤ, ◌+ℤ◌, ◌-ℤ◌}
use vaultnuban.Prelude.Word.{Int64, IsInt64, add64, add64-IsInt64, sub64, signed}
use vaultnuban.Prelude.Text.{str_eq}
use vaultnuban.Prelude.Action.{Result, Error, ok, err}
use vaultnuban.Domain.{Time, Transaction, LedgerEntry, Statement, StatementEntry, is_credit}
use vaultnuban.Memstore.Transactions.{TransactionStore, LedgerRow, all_ledger_entries}
use vaultnuban.Memstore.Statements as Mem
use vaultnuban.Postgres.{Database}
use vaultnuban.Postgres.Transactions.{sum_account, scan_int64}
use vaultnuban.Postgres.Transactions.Sums.{IsTimed, pattern_of, scan_int64-pattern_of}
use vaultnuban.Postgres.Transactions.Agreement.{Agree}
use vaultnuban.Postgres.Statements.{
  joined, before_window, within_window, statement_line, statement_loop, statement_from,
  get_statement,
}

-- A row of the JOIN as the in-memory ledger has it.
abbrev pub plain_row : LedgerEntry × Transaction → LedgerRow
plain_row (e, t) = record { entry = e; occurred_at = t.occurred_at }

abbrev pub plain_line : StatementEntry → StatementEntry
plain_line line = record line { description = "" }

abbrev pub plain : Statement → Statement
plain st = record st { entries = map plain_line st.entries }

joined-plain :
    (txs : List Transaction) (rows : List LedgerRow)
    → All (IsTimed txs) rows
    → map plain_row (joined txs (all_ledger_entries rows)) ≡ rows
unfolding joined
joined-plain txs [] h = refl
joined-plain txs (row ∷ rows) h =
    let (int, t, found, time) = h.0 in
    let rest = joined-plain txs rows h.1 in
    rw found (λ i. record { entry = row.entry; occurred_at = time i } ∷ rest i)

select-map :
    {A B : Type 0} (f : A → B) (p : B → Bool) (xs : List A)
    → map f (select (λ x. p (f x)) xs) ≡ select p (map f xs)
select-map f p [] = refl
select-map f p (x ∷ xs) = elim (Bool-cases (p (f x))) [
  | inl h ↦ rw h (ap (λ ys. f x ∷ ys) (select-map f p xs))
  | inr h ↦ rw h (select-map f p xs)
]

Result-cases : {A : Type 0} (r : Result A) → ((a : A) × (r ≡ ok a)) ⊎ ((x : Error) × (r ≡ err x))
Result-cases (ok a) = inl (a, refl)
Result-cases (err x) = inr (x, refl)

-- The in-memory rows of the account before a time.
abbrev early : String → Time → LedgerRow → Bool
early account from row = str_eq row.entry.account account && ltb row.occurred_at from

map-early :
    (account : String) (from : Time) (js : List (LedgerEntry × Transaction))
    → map (λ j. j.0) (select (before_window account from) js)
      ≡ map (λ row. row.entry) (select (early account from) (map plain_row js))
map-early account from [] = refl
map-early account from (j ∷ js) = elim (Bool-cases (before_window account from j)) [
  | inl h ↦ rw h (ap (λ es. j.0 ∷ es) (map-early account from js))
  | inr h ↦ rw h (map-early account from js)
]

credited :
    (total a : Int64) (z : ℤ)
    → IsInt64 a
    → add64 (add64 total a) (pattern_of z) ≡ add64 total (pattern_of (signed a +ℤ z))
unfolding add64 ◌+ℤ◌
credited total a z h = ground arith

debited :
    (total a : Int64) (z : ℤ)
    → IsInt64 a
    → add64 (sub64 total a) (pattern_of z) ≡ add64 total (pattern_of (z -ℤ signed a))
unfolding add64 sub64 ◌-ℤ◌
debited total a z h = ground arith

sub64-IsInt64 : (a b : Int64) → IsInt64 (sub64 a b)
unfolding sub64
sub64-IsInt64 a b = omega arith

opening_loop-sum_account :
    (account : String) (from : Time) (total : Int64) (rows : List LedgerRow)
    → IsInt64 total
    → All (λ row. IsInt64 row.entry.amount_kobo) rows
    → Mem.opening_loop account from total rows
      ≡ add64 total (
          pattern_of
            (sum_account account (map (λ row. row.entry) (select (early account from) rows))))
unfolding Mem.opening_loop sum_account
opening_loop-sum_account account from total [] t h = unfold add64 in omega arith
opening_loop-sum_account account from total (row ∷ rows) t h =
    let rest = sum_account account (map (λ r. r.entry) (select (early account from) rows)) in
    elim (Bool-cases (early account from row)) [
      | inr out ↦ rw out (opening_loop-sum_account account from total rows t h.1)
      | inl on ↦
          let here : str_eq row.entry.account account ≡ true = ground arith in
          elim (Bool-cases (is_credit row.entry.direction)) [
            | inl c ↦
                rw (on, here, c)
                  (opening_loop-sum_account account from (add64 total row.entry.amount_kobo) rows
                      (add64-IsInt64 total row.entry.amount_kobo) h.1
                    ∙ credited total row.entry.amount_kobo rest h.0)
            | inr d ↦
                rw (on, here, d)
                  (opening_loop-sum_account account from (sub64 total row.entry.amount_kobo) rows
                      (sub64-IsInt64 total row.entry.amount_kobo) h.1
                    ∙ debited total row.entry.amount_kobo rest h.0)
          ]
    ]

statement_line-plain :
    (running : Int64) (j : LedgerEntry × Transaction)
    → plain_line (statement_line running j) ≡ Mem.line_of running (plain_row j)
statement_line-plain running j = elim (Bool-cases (is_credit j.0.direction)) [
  | inl h ↦ rw h refl
  | inr h ↦ rw h refl
]

statement_loop-plain :
    (running : Int64) (js : List (LedgerEntry × Transaction))
    → (map plain_line (statement_loop running js).0
        ≡ (Mem.running_loop running (map plain_row js)).0)
      × ((statement_loop running js).1 ≡ (Mem.running_loop running (map plain_row js)).1)
unfolding statement_loop Mem.running_loop
statement_loop-plain running [] = (refl, refl)
statement_loop-plain running (j ∷ js) =
    let same = statement_line-plain running j in
    let (lines, closing) = statement_loop-plain (statement_line running j).running_balance js in
    (
      (λ i.
          same i
          ∷ (lines
                ∙ ap (λ b. (Mem.running_loop b (map plain_row js)).0)
                    (ap (λ l. l.running_balance) same))
              i),
      closing
          ∙ ap (λ b. (Mem.running_loop b (map plain_row js)).1) (ap (λ l. l.running_balance) same),
    )

timed_fit :
    (txs : List Transaction) (rows : List LedgerRow)
    → All (IsTimed txs) rows
    → All (λ row. IsInt64 row.entry.amount_kobo) rows
timed_fit txs [] h = tt
timed_fit txs (row ∷ rows) h = (h.0.0, timed_fit txs rows h.1)

zero_add64 : (z : ℤ) → add64 0 (pattern_of z) ≡ pattern_of z
unfolding add64
zero_add64 z = omega arith

-- The exact opening balance of a statement in the database.
unfoldable pub opening_sum : String → Time → Database → ℤ
opening_sum account from db = sum_account account (
    map (λ j. j.0) (select (before_window account from) (joined db.transactions db.ledger_entries)))

-- The in-memory statement made of the opening balance and the sorted window.
abbrev mem_statement : Time → Time → Int64 → List LedgerRow → Result Statement
mem_statement from to opening rows =
    let (lines, closing) = Mem.running_loop opening rows in
    ok (record {
      opening_balance_kobo = opening;
      closing_balance_kobo = closing;
      from = from;
      to = to;
      entries = lines;
    })

module _ (s : TransactionStore) (db : Database) (agree : Agree s db) where
  joined-ledger : map plain_row (joined db.transactions db.ledger_entries) ≡ s.ledger
  joined-ledger =
      ap (λ es. map plain_row (joined db.transactions es)) (sym agree.same_entries)
      ∙ joined-plain db.transactions s.ledger agree.timed

  opening-plain :
      (account : String) (from : Time)
      → Mem.opening_loop account from 0 s.ledger ≡ pattern_of (opening_sum account from db)
  unfolding opening_sum
  opening-plain account from =
      opening_loop-sum_account account from 0 s.ledger (omega arith)
        (timed_fit db.transactions s.ledger agree.timed)
      ∙ zero_add64
          (sum_account account (map (λ row. row.entry) (select (early account from) s.ledger)))
      ∙ ap
          (λ rows.
            pattern_of
              (sum_account account (map (λ row. row.entry) (select (early account from) rows))))
          (sym joined-ledger)
      ∙ ap (λ es. pattern_of (sum_account account es))
          (sym (map-early account from (joined db.transactions db.ledger_entries)))

  -- Two stores that hold the same, and sorts that place rows alike: unless the exact opening balance is
  -- no int64, where the database's statement is an error, both give a statement, with the same balances
  -- and lines, but for the descriptions, which are empty in memory.
  pub statements-Agree :
      (sort : List LedgerRow → List LedgerRow)
      (order_by : List (LedgerEntry × Transaction) → List (LedgerEntry × Transaction))
      → ((js : List (LedgerEntry × Transaction))
          → map plain_row (order_by js) ≡ sort (map plain_row js))
      → (account : String) (from to : Time)
      → ((st : Statement) × ((get_statement order_by account from to db).0 ≡ ok st)
          × ((Mem.get_statement sort account from to s).0 ≡ ok (plain st)))
        ⊎ ((x : Error) × ((get_statement order_by account from to db).0 ≡ err x)
            × (scan_int64 "transaction repo: statement opening" (opening_sum account from db)
                ≡ err x))
  unfolding get_statement Mem.get_statement opening_sum
  statements-Agree sort order_by alike account from to =
      let rows =
        order_by
          (select (within_window account from to) (joined db.transactions db.ledger_entries)) in
      let window : map plain_row rows ≡ sort (select (Mem.in_window account from to) s.ledger) =
        alike (select (within_window account from to) (joined db.transactions db.ledger_entries))
        ∙ ap sort (
            select-map plain_row (Mem.in_window account from to)
              (joined db.transactions db.ledger_entries))
        ∙ ap (λ ls. sort (select (Mem.in_window account from to) ls)) joined-ledger in
      elim (Result-cases
        (scan_int64 "transaction repo: statement opening" (opening_sum account from db))) [
          | inr (x, bad) ↦ inr (x, ap (statement_from from to rows) bad, bad)
          | inl (v, good) ↦
              let opening : Mem.opening_loop account from 0 s.ledger ≡ v =
                opening-plain account from
                ∙ sym (
                    scan_int64-pattern_of "transaction repo: statement opening"
                      (opening_sum account from db) v good) in
              let (lines, closing) = statement_loop-plain v rows in
              let st : Statement = record {
                opening_balance_kobo = v;
                closing_balance_kobo = (statement_loop v rows).1;
                from = from;
                to = to;
                entries = (statement_loop v rows).0;
              } in
              inl (
                st,
                ap (statement_from from to rows) good,
                ap
                      (λ o.
                        mem_statement from to o
                          (sort (select (Mem.in_window account from to) s.ledger)))
                      opening
                    ∙ ap (mem_statement from to v) (sym window)
                    ∙ sym (λ i. ok (record {
                      opening_balance_kobo = v;
                      closing_balance_kobo = closing i;
                      from = from;
                      to = to;
                      entries = lines i;
                    })),
              )
        ]
