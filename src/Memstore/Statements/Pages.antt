-- ===== src/Memstore/Statements/Pages.antt =====
-- The pages of `ListTransactions` of internal/store/memstore/memstore.go.
use vaultnuban.Prelude.{
  ℕ, zero, suc, String, List, [], ◌∷◌, ◌++◌, some, true, false, ◌≡◌, refl, sym, ap, subst, ◌∙◌, ◌<◌,
  ◌≤◌, ◌-◌, ltb, arith, inl, inr, if◌then◌else◌, All, take, length, get_elem?, Bool-cases, select,
}
use mathlib.Core.List.{Perm, append_assoc}
use vaultnuban.Memstore.Statements.Order.{
  HasIds, IsSort, IsFalling, IsApart, has_time, has_id, same_sorted, IsApart-HasIds, IsApart-Perm,
  length-Perm, whole_length,
}
use vaultnuban.Prelude.Text.{str_eq, str_eq_refl, str_eq_iff}
use vaultnuban.Domain.{Transaction}
use vaultnuban.Memstore.Transactions.{TransactionStore}
use vaultnuban.Memstore.Statements.{
  behind, start_at, page_of, page_limit, of_account, list_transactions,
}
use vaultnuban.Prelude.Word.{Int64}
use vaultnuban.Prelude.Dict.{values}
use vaultnuban.Prelude.Action.{Result, ok, err}

-- The pages that a client reads who follows the cursors from one on.
unfoldable pub walk : ℕ → ℕ → String → List Transaction → List Transaction
walk zero limit cursor all = []
walk (suc fuel) limit cursor all =
    let (page, next) = page_of limit (start_at cursor all) in
    let rest = walk fuel limit next all in if str_eq next "" then page else page ++ rest

-- A list cut behind the last transaction of a page of `suc n`.
abbrev Cut : ℕ → List Transaction → Type 0
Cut n ys =
    (front : List Transaction) × (tx : Transaction) × (back : List Transaction) × (ys
      ≡ front ++ tx ∷ back)
    × (take (suc n) ys ≡ front ++ tx ∷ [])
    × (get_elem? ys n ≡ some tx)
    × (length back < length ys)

Cut-at : (n : ℕ) (ys : List Transaction) → suc n < length ys → Cut n ys
Cut-at n [] l = absurd (omega arith)
Cut-at zero (y ∷ ys) l = ([], y, ys, refl, refl, refl, omega arith)
Cut-at (suc n) (y ∷ ys) l =
    let (front, tx, back, whole, page, last, less) = Cut-at n ys (omega arith) in
    (y ∷ front, tx, back, ap (λ zs. y ∷ zs) whole, ap (λ zs. y ∷ zs) page, last, omega arith)

All-at :
    (P : Transaction → Type 0) (xs : List Transaction) (tx : Transaction) (ys : List Transaction)
    → All P (xs ++ tx ∷ ys)
    → P tx
All-at P [] tx ys h = h.0
All-at P (x ∷ xs) tx ys h = All-at P xs tx ys h.1

apart : (a b : String) → str_eq b a ≡ false → str_eq a b ≡ false
apart a b h = ground (arith, str_eq_iff a b, str_eq_iff b a)

-- A cursor leads to what stands behind its transaction.
behind-at :
    (xs : List Transaction) (tx : Transaction) (ys : List Transaction)
    → HasIds (xs ++ tx ∷ ys)
    → behind tx.id (xs ++ tx ∷ ys) ≡ some ys
unfolding behind
behind-at [] tx ys h = rw (str_eq_refl tx.id) refl
behind-at (x ∷ xs) tx ys h =
    rw (apart x.id tx.id (All-at (λ t. str_eq t.id x.id ≡ false) xs tx ys h.0))
      (behind-at xs tx ys h.2)

named-at :
    (xs : List Transaction) (tx : Transaction) (ys : List Transaction)
    → HasIds (xs ++ tx ∷ ys)
    → str_eq tx.id "" ≡ false
named-at [] tx ys h = h.1
named-at (x ∷ xs) tx ys h = named-at xs tx ys h.2

-- A full page with more behind it ends in a transaction, which is the next cursor.
page_of-cut :
    (n : ℕ) (ys front : List Transaction) (tx : Transaction)
    → ltb (suc n) (length ys) ≡ true
    → take (suc n) ys ≡ front ++ tx ∷ []
    → get_elem? ys n ≡ some tx
    → page_of (suc n) ys ≡ (front ++ tx ∷ [], tx.id)
unfolding page_of
page_of-cut n ys front tx more page last =
    let before : suc n - 1 ≡ n = omega arith in rw (more, page, before, last) refl

walk-from :
    (fuel n : ℕ) (cursor : String) (done left : List Transaction)
    → HasIds (done ++ left)
    → start_at cursor (done ++ left) ≡ left
    → length left < fuel
    → walk fuel (suc n) cursor (done ++ left) ≡ left
unfolding walk
walk-from zero n cursor done left ids at short = absurd (omega arith)
walk-from (suc fuel) n cursor done left ids at short =
    elim (Bool-cases (ltb (suc n) (length left))) [
      | inr last ↦ unfold page_of in rw (at, last) refl
      | inl more ↦
          let (front, tx, back, whole, page, end, less) = Cut-at n left (ground arith) in
          let shape : done ++ left ≡ (done ++ front) ++ tx ∷ back =
            ap (λ zs. done ++ zs) whole ∙ sym (append_assoc done front (tx ∷ back)) in
          let ids' : HasIds ((done ++ front) ++ tx ∷ back) = subst HasIds shape ids in
          let regroup = append_assoc (done ++ front) (tx ∷ []) back in
          let named = named-at (done ++ front) tx back ids' in
          let rest =
            walk-from fuel n tx.id ((done ++ front) ++ tx ∷ []) back
              (subst HasIds (sym regroup) ids')
              (rw (regroup, named, behind-at (done ++ front) tx back ids') refl) (omega arith) in
          rw (at, page_of-cut n left front tx more page end, named)
            (ap (λ all. (front ++ tx ∷ []) ++ walk fuel (suc n) tx.id all) (shape ∙ sym regroup)
              ∙ ap (λ zs. (front ++ tx ∷ []) ++ zs) rest
              ∙ append_assoc front (tx ∷ []) back
              ∙ sym whole)
    ]

-- The account's transactions, in an order that the map's range makes anew each time.
abbrev pub listed : String → TransactionStore → List Transaction
listed va_id s = select (of_account va_id) (values s.txns)

abbrev page_found : Result (List Transaction × String) → List Transaction × String
page_found (ok p) = p
page_found (err e) = ([], "")

-- What a client reads who calls `ListTransactions` until it returns no cursor. Each call lists in an
-- order of its own.
unfoldable pub read_pages :
    ℕ
    → (ℕ → List Transaction → List Transaction)
    → String
    → Int64
    → String
    → TransactionStore
    → List Transaction
read_pages zero sorts va_id limit cursor s = []
read_pages (suc fuel) sorts va_id limit cursor s =
    let (page, next) = page_found (list_transactions (sorts fuel) va_id limit cursor s).0 in
    let rest = read_pages fuel sorts va_id limit next s in
    if str_eq next "" then page else page ++ rest

positive : (n : Int64) → 0 < page_limit n
positive n = ground arith

walk-whole :
    (fuel limit : ℕ) (all : List Transaction)
    → 0 < limit
    → HasIds all
    → length all < fuel
    → walk fuel limit "" all ≡ all
walk-whole fuel zero all pos ids enough = absurd (omega arith)
walk-whole fuel (suc n) all pos ids enough = walk-from fuel n "" [] all ids refl enough

module _ (sorts : ℕ → List Transaction → List Transaction) (is_sort : (n : ℕ) → IsSort (sorts n))
    (va_id : String) (limit : Int64) (s : TransactionStore)
    (apart : IsApart has_time (listed va_id s)) where
  -- The one order of the listing.
  abbrev in_order : List Transaction
  in_order = sorts 0 (listed va_id s)

  read_pages-walk :
      (fuel : ℕ) (cursor : String)
      → read_pages fuel sorts va_id limit cursor s ≡ walk fuel (page_limit limit) cursor in_order
  unfolding read_pages walk list_transactions
  read_pages-walk zero cursor = refl
  read_pages-walk (suc fuel) cursor =
      let p = page_of (page_limit limit) (start_at cursor in_order) in
      let same =
        same_sorted (sorts fuel) (sorts 0) (listed va_id s) (is_sort fuel) (is_sort 0) apart in
      ap
        (λ all.
          let q = page_of (page_limit limit) (start_at cursor all) in
          if str_eq q.1 "" then q.0 else q.0 ++ read_pages fuel sorts va_id limit q.1 s)
        same
      ∙ ap (λ rest. if str_eq p.1 "" then p.0 else p.0 ++ rest) (read_pages-walk fuel p.1)

  -- Where the account's transactions have distinct times and distinct ids that are not empty, a client
  -- who calls `ListTransactions` with each cursor that it returns, from the first page on and with any
  -- limit, while the store does not change, reads each of them once, by falling times, in no more calls
  -- than there are transactions and one. Each call may range over the map in an order of its own, and
  -- its sort may leave equal items in any order.
  pub read_pages-all :
      IsApart has_id (listed va_id s)
      → length (select (has_id "") (listed va_id s)) ≤ 0
      → (fuel : ℕ) → length (listed va_id s) < fuel
      → Perm (read_pages fuel sorts va_id limit "" s) (listed va_id s)
        × IsFalling (read_pages fuel sorts va_id limit "" s)
  read_pages-all ids named fuel enough =
      let rows = listed va_id s in
      let (same, falling) = is_sort 0 rows in
      let whole : read_pages fuel sorts va_id limit "" s ≡ in_order =
        read_pages-walk fuel ""
        ∙ walk-whole fuel (page_limit limit) in_order (positive limit)
            (IsApart-HasIds in_order (IsApart-Perm has_id in_order rows same ids)
              (subst (λ n. n ≤ 0) (sym (length-Perm (has_id "") in_order rows same)) named))
            (subst (λ n. n < fuel) (sym (whole_length in_order rows same)) enough) in
      (subst (λ l. Perm l rows) (sym whole) same, subst IsFalling (sym whole) falling)
