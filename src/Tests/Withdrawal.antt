-- ===== src/Tests/Withdrawal.antt =====
-- A wallet that holds 500 kobo, and withdrawals of 300 from it.
use vaultnuban.Prelude.{[], ◌∷◌, none, true, false, ◌≡◌, refl, arith, ◌&&◌, ◌==◌, if◌then◌else◌}
use vaultnuban.Prelude.Word.{lt64, add64, sub64}
use vaultnuban.Prelude.Dict.{lookup}
use vaultnuban.Prelude.Action.{Result, ok}
use vaultnuban.Domain.{Withdrawal, active, credit, customer_wallet_account}
use vaultnuban.Store.{WithdrawalStore}
use vaultnuban.Memstore.World.{World}
use vaultnuban.Memstore.Transactions.{post_transaction}
use vaultnuban.Memstore.Transactions.Post.{balance}
use vaultnuban.Ledger.{withdraw_customer}
use vaultnuban.Service.Withdrawal.{WithdrawalRequest, pay, initiate, transferred, book_transfer}
use vaultnuban.Service.Withdrawal.Payout.{
  Outside, LeavesLedger, Paid, succeeded, answered, recorded, may_withdraw, mem_withdrawal_service,
  initiate_outcome, initiate-covered,
}
use vaultnuban.Service.Withdrawal.Race.{interleaved, interleaved_overdraws}
use vaultnuban.Tests.Fixtures.{world, transaction}

-- The first two records get different ids.
abbrev record_ids : Withdrawal → World → Result Withdrawal × World
record_ids wd w =
    (ok (record wd { id = if w.id_seq == 0 then "wd-1" else "wd-2" }), record w { id_seq = 1 })

abbrev withdrawals : WithdrawalStore World
withdrawals = record {
  create_withdrawal = record_ids;
  get_withdrawal = λ id w. (ok none, w);
  update_withdrawal_status = λ id status tx session reason w. (ok tt, w);
}

abbrev outside : Outside
outside = record {
  withdrawals = withdrawals;
  transfer = λ request w. (ok (record { transaction_id = "p1"; session_id = ""; status = "" }), w);
  resolve =
      λ bank number w. (ok (record { account_name = ""; account_number = ""; bank_code = "" }), w);
  marshal = λ request. [];
}

abbrev leaves : LeavesLedger outside
leaves = ((λ wd w. refl), (λ id status tx session reason w. refl), (λ request w. refl))

abbrev funded : World
funded = record (world active) {
  txns = record {
    txns = ("t1", transaction) ∷ [];
    ledger =
        record {
          entry = record {
            transaction_id = "t1";
            account = "customer_wallet:cust-1";
            direction = credit;
            amount_kobo = 500;
          };
          occurred_at = 7;
        }
        ∷ [];
  };
}

abbrev request : WithdrawalRequest
request = record {
  customer_id = "cust-1";
  tenant_id = "tenant-1";
  amount_kobo = 300;
  destination_bank_code = "058";
  destination_account_number = "0123456789";
  destination_account_name = "Ada";
  narration = "";
}

initiate_outcome_example :
    let q = initiate (mem_withdrawal_service outside) request funded in
    (succeeded q.0
      ≡ may_withdraw request funded && answered outside request (recorded outside request funded))
    × (if may_withdraw request funded then Paid request funded q else (q.1 ≡ funded))
unfolding lookup
initiate_outcome_example = initiate_outcome outside request (omega arith) leaves funded refl

initiate-covered_example :
    let w' = (initiate (mem_withdrawal_service outside) request funded).1 in
    lt64 (balance (customer_wallet_account "cust-1") w'.txns) 0 ≡ false
unfolding balance customer_wallet_account add64 lookup
initiate-covered_example = initiate-covered outside request (omega arith) leaves funded refl refl

interleaved_overdraws_example :
    let w' = (interleaved (mem_withdrawal_service outside) request request funded).1 in
    lt64 (balance (customer_wallet_account "cust-1") w'.txns) 0 ≡ true
unfolding balance customer_wallet_account may_withdraw pay transferred book_transfer
    withdraw_customer post_transaction add64 sub64
interleaved_overdraws_example =
    interleaved_overdraws outside leaves request request funded refl (omega arith) (omega arith)
      refl refl (omega arith) refl refl refl refl
