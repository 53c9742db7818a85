-- ===== src/Postgres/Statements/Pages.antt =====
-- The pages of `ListTransactions` of internal/store/postgres/transaction_repo.go.
use vaultnuban.Prelude.{
  ℕ, zero, suc, String, List, [], ◌∷◌, ◌++◌, Option, none, some, Bool, true, false, ◌≡◌, refl, sym,
  ap, ◌∙◌, ◌&&◌, ◌<◌, ◌≤◌, ◌⊎◌, ◌-◌, ◌==◌, ltb, inl, inr, arith, if◌then◌else◌, All, All-append,
  take, length, get_elem?, Bool-cases, Option-cases, select, subst,
}
use mathlib.Core.List.{Perm, foldr}
use mathlib.Core.List.Perm
use vaultnuban.Prelude.Word.{Int64}
use vaultnuban.Prelude.Text.{str_eq, str_eq_refl}
use vaultnuban.Prelude.Action.{Result, ok, err}
use vaultnuban.Domain.{Time, Transaction}
use vaultnuban.Postgres.{Database}
use vaultnuban.Postgres.Transactions.{transaction_row}
use vaultnuban.Postgres.Statements.{
  list_transactions, page_with, page_size, on_page, time_of, time_in, is_before,
}
use vaultnuban.Memstore.Statements.{of_account, page_of}

-- The id is a key: a row is the one that its id leads to.
abbrev pub IsKeyed : List Transaction → Type 0
IsKeyed txs = All (λ t. transaction_row t.id txs ≡ some t) txs

abbrev found : {A : Type 0} → A → Result A → A
found default (ok a) = a
found default (err e) = default

-- What a client reads who calls `ListTransactions` until it returns no cursor, from a cursor on.
unfoldable pub read_pages :
    ℕ
    → (List Transaction → List Transaction)
    → String
    → Int64
    → String
    → Database
    → List Transaction
read_pages zero order_by va_id limit cursor db = []
read_pages (suc fuel) order_by va_id limit cursor db =
    let (page, next) = found ([], "") (list_transactions order_by va_id limit cursor db).0 in
    let rest = read_pages fuel order_by va_id limit next db in
    if str_eq next "" then page else page ++ rest

-- A row before a time that is the one that its id leads to, as a test.
abbrev at_time : Option Time → Time → Bool
at_time none at = false
at_time (some found_at) at = found_at == at

abbrev older : Time → List Transaction → Transaction → Bool
older bound txs t = ltb t.occurred_at bound && at_time (time_of t.id txs) t.occurred_at

abbrev every : (Transaction → Bool) → List Transaction → Bool
every p rows = foldr (λ t rest. p t && rest) true rows

every-Perm :
    (p : Transaction → Bool) (xs ys : List Transaction) → Perm xs ys → every p xs ≡ every p ys
every-Perm p xs ys same =
    Perm.foldr-eq (hlevel) (λ t rest. p t && rest) (λ a b x. ground arith) same true

every-All :
    (p : Transaction → Bool) (xs : List Transaction) → every p xs ≡ true → All (λ t. p t ≡ true) xs
every-All p [] h = tt
every-All p (x ∷ xs) h = (ground arith, every-All p xs (ground arith))

keyed_at :
    (txs : List Transaction) (t : Transaction)
    → transaction_row t.id txs ≡ some t
    → at_time (time_of t.id txs) t.occurred_at ≡ true
keyed_at txs t e = ap (λ o. at_time (time_in o) t.occurred_at) e ∙ ground arith

passed :
    (p : Transaction → Bool) (cursor : String) (all : List Transaction) (t : Transaction)
    (at : Time)
    → str_eq cursor "" ≡ false
    → time_of cursor all ≡ some at
    → on_page p cursor all t ≡ true
    → ltb t.occurred_at at ≡ true
passed p cursor all t at named found_at on =
    let last : is_before (time_of cursor all) t ≡ true = ground (arith, named) in
    ap (λ o. is_before o t) (sym found_at) ∙ last

-- The rows that the query leaves in are older than the cursor's row.
selected :
    (p : Transaction → Bool) (cursor : String) (all rows : List Transaction) (at bound : Time)
    → str_eq cursor "" ≡ false
    → time_of cursor all ≡ some at
    → at ≤ bound
    → All (λ t. transaction_row t.id all ≡ some t) rows
    → every (older bound all) (select (on_page p cursor all) rows) ≡ true
selected p cursor all [] at bound named found_at below keyed = refl
selected p cursor all (t ∷ ts) at bound named found_at below keyed =
    elim (Bool-cases (on_page p cursor all t)) [
      | inr out ↦ rw out (selected p cursor all ts at bound named found_at below keyed.1)
      | inl on ↦
          let early = passed p cursor all t at named found_at on in
          rw
            (
              on,
              keyed_at all t keyed.0,
              selected p cursor all ts at bound named found_at below keyed.1,
            )
            (ground arith)
    ]

All-take : (P : Transaction → Type 0) (n : ℕ) (xs : List Transaction) → All P xs → All P (take n xs)
All-take P zero xs h = tt
All-take P (suc n) [] h = tt
All-take P (suc n) (x ∷ xs) h = (h.0, All-take P n xs h.1)

All-get_elem? :
    (P : Transaction → Type 0) (n : ℕ) (xs : List Transaction) (t : Transaction)
    → All P xs
    → get_elem? xs n ≡ some t
    → P t
All-get_elem? P n [] t h e = cc
All-get_elem? P zero (x ∷ xs) t h e = subst P (cc e) h.0
All-get_elem? P (suc n) (x ∷ xs) t h e = All-get_elem? P n xs t h.1 e

at_time-some : (o : Option Time) (at : Time) → at_time o at ≡ true → o ≡ some at
at_time-some none at h = cc
at_time-some (some x) at h = ap some (ground arith)

-- A page has only rows of the query, and its cursor is empty or the id of one of them.
page_of-All :
    (P : Transaction → Type 0) (n : ℕ) (rows : List Transaction)
    → All P rows
    → All P (page_of n rows).0
      × (((page_of n rows).1 ≡ "") ⊎ ((t : Transaction) × ((page_of n rows).1 ≡ t.id) × P t))
unfolding page_of
page_of-All P n rows h = elim (Bool-cases (ltb n (length rows))) [
  | inr short ↦ rw short (h, inl refl)
  | inl long ↦ elim (Option-cases (get_elem? rows (n - 1))) [
    | inl nothing ↦ rw (long, nothing) (All-take P n rows h, inl refl)
    | inr (t, there) ↦
        rw (long, there)
          (All-take P n rows h, inr (t, refl, All-get_elem? P (n - 1) rows t h there))
  ]
]

module _ (order_by : List Transaction → List Transaction)
    (permutes : (rows : List Transaction) → Perm (order_by rows) rows) where
  page_with-older :
      (p : Transaction → Bool) (limit : Int64) (cursor : String) (txs : List Transaction)
      (at bound : Time)
      → IsKeyed txs
      → str_eq cursor "" ≡ false
      → time_of cursor txs ≡ some at
      → at ≤ bound
      → let (page, next) = page_with order_by p limit cursor txs in
        All (λ t. older bound txs t ≡ true) page
        × ((next ≡ "") ⊎ ((t : Transaction) × (next ≡ t.id) × (older bound txs t ≡ true)))
  unfolding page_with
  page_with-older p limit cursor txs at bound keyed named found_at below =
      let rows = select (on_page p cursor txs) txs in
      page_of-All (λ t. older bound txs t ≡ true) (page_size limit)
        (take (suc (page_size limit)) (order_by rows))
        (All-take (λ t. older bound txs t ≡ true) (suc (page_size limit)) (order_by rows)
          (every-All (older bound txs) (order_by rows) (
            every-Perm (older bound txs) (order_by rows) rows (permutes rows)
            ∙ selected p cursor txs txs at bound named found_at below keyed)))

  read_pages-older :
      (fuel : ℕ) (va_id : String) (limit : Int64) (cursor : String) (db : Database)
      (at bound : Time)
      → IsKeyed db.transactions
      → str_eq cursor "" ≡ false
      → time_of cursor db.transactions ≡ some at
      → at ≤ bound
      → All
          (λ t. older bound db.transactions t ≡ true)
          (read_pages fuel order_by va_id limit cursor db)
  unfolding read_pages list_transactions
  read_pages-older zero va_id limit cursor db at bound keyed named found_at below = tt
  read_pages-older (suc fuel) va_id limit cursor db at bound keyed named found_at below =
      let txs = db.transactions in
      let next = (page_with order_by (of_account va_id) limit cursor txs).1 in
      let (rows, last) =
        page_with-older (of_account va_id) limit cursor txs at bound keyed named found_at below in
      elim (Bool-cases (str_eq next "")) [
        | inl end ↦ rw end rows
        | inr more ↦ elim last [
          | inl empty ↦ absurd (cc (more, str_eq_refl "", ap (λ s. str_eq s "") empty))
          | inr (t, same, old) ↦ rw more (
              All-append (λ t. older bound txs t ≡ true)
                (page_with order_by (of_account va_id) limit cursor txs).0
                (read_pages fuel order_by va_id limit next db) rows
                (read_pages-older fuel va_id limit next db t.occurred_at bound keyed more
                  (ap (λ id. time_of id txs) same
                    ∙ at_time-some (time_of t.id txs) t.occurred_at (ground arith))
                  (ground arith)))
        ]
      ]

  All-earlier :
      (bound : Time) (txs rows : List Transaction)
      → All (λ t. older bound txs t ≡ true) rows
      → All (λ t. t.occurred_at < bound) rows
  All-earlier bound txs [] h = tt
  All-earlier bound txs (t ∷ ts) h =
      let first : ltb t.occurred_at bound ≡ true = ground (arith, h.0) in
      (ground (arith, first), All-earlier bound txs ts h.1)

  -- For an ORDER BY that returns the rows that it is given, and a table with ids as keys: whatever a
  -- client reads who calls `ListTransactions` with the id of a row, and from then on with each cursor
  -- that it returns, is strictly earlier than the row. So another transaction of the row's time, which
  -- may stand behind it in the order, is on no page that follows it.
  pub read_pages-earlier :
      (fuel : ℕ) (va_id : String) (limit : Int64) (cursor : String) (db : Database)
      (row : Transaction)
      → IsKeyed db.transactions
      → str_eq cursor "" ≡ false
      → transaction_row cursor db.transactions ≡ some row
      → All (λ t. t.occurred_at < row.occurred_at) (read_pages fuel order_by va_id limit cursor db)
  read_pages-earlier fuel va_id limit cursor db row keyed named there =
      All-earlier row.occurred_at db.transactions (read_pages fuel order_by va_id limit cursor db) (
        read_pages-older fuel va_id limit cursor db row.occurred_at row.occurred_at keyed named
          (ap time_in there) (omega arith))
