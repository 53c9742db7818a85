-- ===== src/Postgres/Withdrawals.antt =====
-- internal/store/postgres/withdrawal_repo.go, with the constraints of migration 019.
use vaultnuban.Prelude.{
  String, List, [], ◌∷◌, ◌++◌, Option, none, some, not, ◌||◌, find?, if◌then◌else◌,
}
use vaultnuban.Prelude.Word.{le64}
use vaultnuban.Prelude.Text.{str_eq}
use vaultnuban.Prelude.Action.{M, ok, err, message, wrapped, gets}
use vaultnuban.Domain.{Time, Withdrawal, WithdrawalStatus}
use vaultnuban.Store.{WithdrawalStore}
use vaultnuban.Postgres.{Database}
use vaultnuban.Postgres.Collections.{has_customer, has_account}

-- `CreateWithdrawal` fills in the id and the times of the record that it is given.
unfoldable pub create_withdrawal : Withdrawal → M Database Withdrawal
create_withdrawal w db =
    let row = record w { id = db.uuid; created_at = db.now; updated_at = db.now } in
    if le64 w.amount_kobo 0
      || not (has_customer w.customer_id db.customers)
      || not (has_account w.virtual_account_id db.accounts)
    then (err (wrapped "withdrawal repo: create" (message "violates constraint")), db)
    else (
      ok row,
      record db {
        withdrawals =
            db.withdrawals
            ++ record row {
              provider_transaction_id = none;
              provider_session_id = none;
              failure_reason = none;
            }
              ∷ [];
      },
    )

-- `GetWithdrawal`
unfoldable pub get_withdrawal : String → M Database (Option Withdrawal)
get_withdrawal id = gets λ db. find? (λ w. str_eq w.id id) db.withdrawals

-- `COALESCE(new, old)`
abbrev pub coalesce {ℓ} : {A : Type ℓ} → Option A → Option A → Option A
coalesce none old = old
coalesce (some new) old = some new

-- The UPDATE of `UpdateWithdrawalStatus`.
unfoldable pub update_rows :
    String
    → WithdrawalStatus
    → Option String
    → Option String
    → Option String
    → Time
    → List Withdrawal
    → List Withdrawal
update_rows id status tx session reason now [] = []
update_rows id status tx session reason now (w ∷ ws) =
    (if str_eq w.id id
      then record w {
        status = status;
        provider_transaction_id = coalesce tx w.provider_transaction_id;
        provider_session_id = coalesce session w.provider_session_id;
        failure_reason = coalesce reason w.failure_reason;
        updated_at = now;
      }
      else w)
    ∷ update_rows id status tx session reason now ws

-- `UpdateWithdrawalStatus`
unfoldable pub update_withdrawal_status :
    String
    → WithdrawalStatus
    → Option String
    → Option String
    → Option String
    → M Database (Unit {0})
update_withdrawal_status id status tx session reason db = (
  ok tt,
  record db { withdrawals = update_rows id status tx session reason db.now db.withdrawals },
)

abbrev pub pg_withdrawals : WithdrawalStore Database
pg_withdrawals = record {
  create_withdrawal = create_withdrawal;
  get_withdrawal = get_withdrawal;
  update_withdrawal_status = update_withdrawal_status;
}
