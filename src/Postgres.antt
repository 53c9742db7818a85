-- ===== src/Postgres.antt =====
-- internal/store/postgres: the statements of the repositories, read as functions on tables. A table is
-- the list of its rows in the order in which they were inserted. A statement that fails changes
-- nothing, and a database that cannot be reached is left out.
pub mod Collections
pub mod Withdrawals
pub mod Transactions
pub mod Statements
use vaultnuban.Prelude.{ℕ, String, List, Option}
use vaultnuban.Prelude.Action.{M, ok}
use vaultnuban.Domain.{
  Time, Customer, VirtualAccount, Transaction, LedgerEntry, Collection, Withdrawal,
}

-- `now` is `NOW()`, and `uuid` what `gen_random_uuid()` returns, during the call at hand.
pub record Database : Type 0 where
  pub now : Time
  pub uuid : String
  pub customers : List Customer
  pub accounts : List VirtualAccount
  pub transactions : List Transaction
  pub ledger_entries : List LedgerEntry
  pub collections : List Collection
  pub withdrawals : List Withdrawal
