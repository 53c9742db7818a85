-- ===== src/Ledger/Builders.antt =====
-- What the builders of internal/ledger/ledger.go promise to those who post their entries.
use vaultnuban.Prelude.{String, List, ◌≡◌, refl, true, false, All, inl, inr, Bool-cases}
use vaultnuban.Prelude.Word.{Int64, IsInt64, le64}
use vaultnuban.Prelude.Action.{Result, ok, err}
use vaultnuban.Domain.{
  LedgerEntry, customer_wallet_account, account_nomba_settlement, account_suspense,
}
use vaultnuban.Ledger.{
  not_positive, credit_customer, credit_suspense, reversal_entries, reversal_to_suspense,
  withdraw_customer, suspense_to_customer,
}
use vaultnuban.Ledger.Balance.{net_of, balance_of, moved, pair, net_of-pair, balance_of-pair}

-- What a builder promises for a transaction that moves an amount from one account to another.
abbrev pub Posts : String → String → String → Int64 → Result (List LedgerEntry) → Type 0
Posts tx from to amount (err e) = (le64 amount 0 ≡ true) × (e ≡ not_positive amount)
Posts tx from to amount (ok es) =
    (le64 amount 0 ≡ false)
    × All (λ e. (e.transaction_id ≡ tx) × (e.amount_kobo ≡ amount)) es
    × (net_of es ≡ 0)
    × ((account : String) → balance_of account es ≡ moved from to amount account)

-- All six builders, each with the accounts of its comment.
pub builders-Posts :
    (tx customer : String) (amount : Int64)
    → IsInt64 amount
    → let wallet = customer_wallet_account customer in
      Posts tx account_nomba_settlement wallet amount (credit_customer tx customer amount)
      × Posts tx account_nomba_settlement account_suspense amount (credit_suspense tx amount)
      × Posts tx wallet account_nomba_settlement amount (reversal_entries tx customer amount)
      × Posts tx account_suspense account_nomba_settlement amount (reversal_to_suspense tx amount)
      × Posts tx wallet account_nomba_settlement amount (withdraw_customer tx customer amount)
      × Posts tx account_suspense wallet amount (suspense_to_customer tx customer amount)
unfolding credit_customer credit_suspense reversal_entries reversal_to_suspense withdraw_customer
    suspense_to_customer
builders-Posts tx customer amount h = elim (Bool-cases (le64 amount 0)) [
  | inl refused ↦
      let no : Posts tx wallet wallet amount (err (not_positive amount)) = (refused, refl) in
      rw refused (no, no, no, no, no, no)
  | inr positive ↦ rw positive (
    posts positive account_nomba_settlement wallet,
    posts positive account_nomba_settlement account_suspense,
    posts positive wallet account_nomba_settlement,
    posts positive account_suspense account_nomba_settlement,
    posts positive wallet account_nomba_settlement,
    posts positive account_suspense wallet,
  )
]
  where
    wallet : String
    wallet = customer_wallet_account customer

    posts :
        le64 amount 0 ≡ false
        → (from to : String) → Posts tx from to amount (ok (pair tx from to amount))
    posts positive from to = (
      positive,
      ((refl, refl), ((refl, refl), tt)),
      net_of-pair tx from to amount,
      balance_of-pair tx from to amount h,
    )
