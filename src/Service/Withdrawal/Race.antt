-- ===== src/Service/Withdrawal/Race.antt =====
-- Two withdrawals of internal/service/withdrawal.go at the same time: `Initiate` holds no lock between
-- the check of the balance and the posting.
use vaultnuban.Prelude.{true, false, ◌≡◌, sym, ap, ◌∙◌, arith, ◌+◌, ◌<◌}
use vaultnuban.Prelude.Word.{Int64, IsInt64, le64, lt64, sub64}
use vaultnuban.Prelude.Action.{M, Result, ok, err, attempt, ◌>>=◌, >>=-ok}
use vaultnuban.Domain.{Withdrawal, customer_wallet_account, account_nomba_settlement}
use vaultnuban.Ledger.Balance.{moved_from}
use vaultnuban.Ledger.Accounts.{wallet-ne-settlement}
use vaultnuban.Memstore.World.{World}
use vaultnuban.Memstore.Transactions.Post.{balance, balance-IsInt64}
use vaultnuban.Service.Withdrawal.{WithdrawalService, WithdrawalRequest, check, pay, new_withdrawal}
use vaultnuban.Service.Withdrawal.Payout.{
  Outside, LeavesLedger, IsFresh, Paid, succeeded, mem_withdrawal_service, may_withdraw, account_id,
  check-may, pay-Paid, may-covered, may-positive, recorded,
}

-- Both requests are checked before the first one is paid.
unfoldable pub interleaved :
    {W : Type 0}
    → WithdrawalService W
    → WithdrawalRequest
    → WithdrawalRequest
    → M W (Result Withdrawal)
interleaved s a b = do
  va_a ← check s a
  va_b ← check s b
  first ← attempt (pay s a va_a)
  attempt (pay s b va_b)

overdrawn :
    (b x y : Int64)
    → IsInt64 b
    → IsInt64 x
    → IsInt64 y
    → lt64 b x ≡ false
    → le64 x 0 ≡ false
    → lt64 b y ≡ false
    → le64 y 0 ≡ false
    → b < x + y
    → lt64 (sub64 (sub64 b x) y) 0 ≡ true
unfolding sub64
overdrawn b x y hb hx hy bx px by_ py short = ground arith

module _ (o : Outside) (leaves : LeavesLedger o) where
  abbrev s : WithdrawalService World
  s = mem_withdrawal_service o

  interleaved_runs :
      (a b : WithdrawalRequest) (w : World)
      → may_withdraw a w ≡ true
      → may_withdraw b w ≡ true
      → (interleaved s a b w).1 ≡ (pay s b (account_id b w) (pay s a (account_id a w) w).1).1
  unfolding interleaved
  interleaved_runs a b w may_a may_b =
      ap (λ q. q.1)
        (>>=-ok (check s a)
            (λ va_a. check s b >>= λ va_b. attempt (pay s a va_a) >>= λ _. attempt (pay s b va_b)) w
            (check-may o a w may_a)
          ∙ >>=-ok (check s b)
              (λ va_b. attempt (pay s a (account_id a w)) >>= λ _. attempt (pay s b va_b)) w
              (check-may o b w may_b))

  -- A paid request has debited the wallet.
  debited :
      (req : WithdrawalRequest) (w : World) (q : Result Withdrawal × World)
      → Paid req w q
      → succeeded q.0 ≡ true
      → let wallet = customer_wallet_account req.customer_id in
        balance wallet q.1.txns ≡ sub64 (balance wallet w.txns) req.amount_kobo
  debited req w (err e, w') paid good = cc
  debited req w (ok wd, w') paid good =
      let wallet = customer_wallet_account req.customer_id in
      paid.1 wallet
      ∙ moved_from account_nomba_settlement req.amount_kobo (balance wallet w.txns) wallet
          (λ p. wallet-ne-settlement req.customer_id (sym p))

  -- Two withdrawals of one customer, each covered by the wallet but not both together, that are checked
  -- before either is paid: where the store takes both records under fresh ids, the provider answers
  -- both transfers without an error, and both leave the ledger alone, the wallet ends below zero.
  pub interleaved_overdraws :
      (a b : WithdrawalRequest) (w : World)
      → a.customer_id ≡ b.customer_id
      → IsInt64 a.amount_kobo
      → IsInt64 b.amount_kobo
      → may_withdraw a w ≡ true
      → may_withdraw b w ≡ true
      → balance (customer_wallet_account a.customer_id) w.txns < a.amount_kobo + b.amount_kobo
      → IsFresh w (recorded o a w).0
      → succeeded (pay (mem_withdrawal_service o) a (account_id a w) w).0 ≡ true
      → IsFresh
          (pay (mem_withdrawal_service o) a (account_id a w) w).1
          (o.withdrawals.create_withdrawal
            (new_withdrawal (mem_withdrawal_service o) b (account_id b w))
            (pay (mem_withdrawal_service o) a (account_id a w) w).1).0
      → succeeded
          (pay
            (mem_withdrawal_service o)
            b
            (account_id b w)
            (pay (mem_withdrawal_service o) a (account_id a w) w).1).0
        ≡ true
      → let w' = (interleaved (mem_withdrawal_service o) a b w).1 in
        lt64 (balance (customer_wallet_account a.customer_id) w'.txns) 0 ≡ true
  interleaved_overdraws a b w same fit_a fit_b may_a may_b short fresh_a paid_a fresh_b paid_b =
      let wallet = customer_wallet_account a.customer_id in
      let q1 = pay s a (account_id a w) w in
      let q2 = pay s b (account_id b w) q1.1 in
      let first =
        debited a w q1
          (pay-Paid o a fit_a leaves (account_id a w) w (may-positive o a fit_a leaves w may_a)
            fresh_a)
          paid_a in
      let later =
        debited b q1.1 q2
          (pay-Paid o b fit_b leaves (account_id b w) q1.1 (may-positive o b fit_b leaves w may_b)
            fresh_b)
          paid_b in
      let left : balance wallet q2.1.txns
          ≡ sub64 (sub64 (balance wallet w.txns) a.amount_kobo) b.amount_kobo =
        ap (λ c. balance (customer_wallet_account c) q2.1.txns) same
        ∙ later
        ∙ ap (λ c. sub64 (balance (customer_wallet_account c) q1.1.txns) b.amount_kobo) (sym same)
        ∙ ap (λ n. sub64 n b.amount_kobo) first in
      let covered_b : lt64 (balance wallet w.txns) b.amount_kobo ≡ false =
        ap (λ c. lt64 (balance (customer_wallet_account c) w.txns) b.amount_kobo) same
        ∙ may-covered o b fit_b leaves w may_b in
      ap (λ v. lt64 (balance wallet v.txns) 0) (interleaved_runs a b w may_a may_b)
      ∙ rw left (
          overdrawn (balance wallet w.txns) a.amount_kobo b.amount_kobo
            (balance-IsInt64 wallet w.txns) fit_a fit_b (may-covered o a fit_a leaves w may_a)
            (may-positive o a fit_a leaves w may_a) covered_b
            (may-positive o b fit_b leaves w may_b) short)
