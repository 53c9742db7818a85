-- ===== src/Ledger/Accounts.antt =====
-- The names of the ledger accounts of internal/domain/domain.go.
use vaultnuban.Prelude.{String, ◌≡◌, ◌≢◌, ap, arith}
use vaultnuban.Prelude.Text.{first, first-concat, concat_cancel_left}
use vaultnuban.Domain.{customer_wallet_account, account_suspense, account_nomba_settlement}

pub wallet_injective :
    (a b : String) → customer_wallet_account a ≡ customer_wallet_account b → a ≡ b
unfolding customer_wallet_account
wallet_injective a b e = concat_cancel_left "customer_wallet:" a b e

first-wallet : (c : String) → first (customer_wallet_account c) ≡ b'c'
unfolding customer_wallet_account
first-wallet c = first-concat "c" "ustomer_wallet:" c

pub wallet-ne-suspense : (c : String) → customer_wallet_account c ≢ account_suspense
wallet-ne-suspense c e = absurd (omega (arith, first-wallet c, ap first e))

pub wallet-ne-settlement : (c : String) → customer_wallet_account c ≢ account_nomba_settlement
wallet-ne-settlement c e = absurd (omega (arith, first-wallet c, ap first e))
