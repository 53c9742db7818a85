-- ===== src/Ledger/Balance.antt =====
-- What ledger entries do to an account: the reading of entries that the stores' loops compute.
use vaultnuban.Prelude.{String, List, [], ◌∷◌, ◌++◌, ◌≡◌, ◌≢◌, arith, if◌then◌else◌}
use vaultnuban.Prelude.Word.{Int64, IsInt64, add64, sub64, add64-IsInt64}
use vaultnuban.Prelude.Text.{str_eq, str_eq_of_ne, str_eq_refl}
use vaultnuban.Domain.{LedgerEntry, debit, credit, is_credit}

-- The amount of an entry with its sign: credits count up, debits count down.
abbrev pub signed_amount : LedgerEntry → Int64
signed_amount e = if is_credit e.direction then e.amount_kobo else sub64 0 e.amount_kobo

-- What an entry adds to the balance of an account.
abbrev pub contribution : String → LedgerEntry → Int64
contribution account e = if str_eq e.account account then signed_amount e else 0

-- Credits less debits over all accounts.
unfoldable pub net_of : List LedgerEntry → Int64
net_of [] = 0
net_of (e ∷ es) = add64 (signed_amount e) (net_of es)

-- Credits less debits of one account.
unfoldable pub balance_of : String → List LedgerEntry → Int64
balance_of account [] = 0
balance_of account (e ∷ es) = add64 (contribution account e) (balance_of account es)

pub net_of-IsInt64 : (es : List LedgerEntry) → IsInt64 (net_of es)
unfolding net_of
net_of-IsInt64 [] = omega arith
net_of-IsInt64 (e ∷ es) = add64-IsInt64 (signed_amount e) (net_of es)

pub balance_of-IsInt64 :
    (account : String) (es : List LedgerEntry) → IsInt64 (balance_of account es)
unfolding balance_of
balance_of-IsInt64 account [] = omega arith
balance_of-IsInt64 account (e ∷ es) = add64-IsInt64 (contribution account e) (balance_of account es)

pub net_of-append : (xs ys : List LedgerEntry) → net_of (xs ++ ys) ≡ add64 (net_of xs) (net_of ys)
unfolding net_of add64
net_of-append [] ys = omega (arith, net_of-IsInt64 ys)
net_of-append (x ∷ xs) ys = rw (net_of-append xs ys) (omega arith)

pub balance_of-append :
    (account : String) (xs ys : List LedgerEntry)
    → balance_of account (xs ++ ys) ≡ add64 (balance_of account xs) (balance_of account ys)
unfolding balance_of add64
balance_of-append account [] ys = omega (arith, balance_of-IsInt64 account ys)
balance_of-append account (x ∷ xs) ys = rw (balance_of-append account xs ys) (omega arith)

-- The effect on an account of moving an amount from one account to another.
abbrev pub moved : String → String → Int64 → String → Int64
moved from to amount account =
    sub64 (if str_eq to account then amount else 0) (if str_eq from account then amount else 0)

-- A pair of entries that debits one account and credits another with the same amount.
module _ (tx from to : String) (amount : Int64) where
  abbrev pub pair : List LedgerEntry
  pair =
      record { transaction_id = tx; account = from; direction = debit; amount_kobo = amount }
      ∷ record { transaction_id = tx; account = to; direction = credit; amount_kobo = amount }
      ∷ []

  pub net_of-pair : net_of pair ≡ 0
  unfolding net_of add64 sub64
  net_of-pair = omega arith

  pub balance_of-pair :
      IsInt64 amount → (account : String) → balance_of account pair ≡ moved from to amount account
  unfolding balance_of add64 sub64
  balance_of-pair h account = ground arith

-- An account that neither side of a move names keeps its balance.
pub moved_elsewhere :
    (from to : String) (amount b : Int64) (account : String)
    → from ≢ account
    → to ≢ account
    → IsInt64 b
    → add64 b (moved from to amount account) ≡ b
unfolding add64 sub64
moved_elsewhere from to amount b account hf ht fits =
    rw (str_eq_of_ne from account hf, str_eq_of_ne to account ht) (omega arith)

-- The account that a move credits.
pub moved_to :
    (from : String) (amount b : Int64) (account : String)
    → from ≢ account
    → IsInt64 amount
    → add64 b (moved from account amount account) ≡ add64 b amount
unfolding add64 sub64
moved_to from amount b account hf fits =
    rw (str_eq_of_ne from account hf, str_eq_refl account) (omega arith)

-- The account that a move debits.
pub moved_from :
    (to : String) (amount b : Int64) (account : String)
    → to ≢ account
    → add64 b (moved account to amount account) ≡ sub64 b amount
unfolding add64 sub64
moved_from to amount b account ht =
    rw (str_eq_of_ne to account ht, str_eq_refl account) (omega arith)
