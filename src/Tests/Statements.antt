-- ===== src/Tests/Statements.antt =====
-- An account's statement and its listing, with a sort that leaves lists as they are, and a second
-- call of `ProvisionVA`.
use vaultnuban.Prelude.{
  ℕ, List, [], ◌∷◌, some, true, false, ◌≡◌, ◌≤◌, Bool, Bool-cases, inl, inr, ap, sym, length,
  if◌then◌else◌, refl, arith,
}
use mathlib.Core.List.{Perm}
use mathlib.Core.List.Perm
use vaultnuban.Prelude.Word.{add64}
use vaultnuban.Prelude.Text.{pad4, str_eq, str_eq_iff}
use vaultnuban.Prelude.Action.{ok}
use vaultnuban.Domain.{Statement, credit, VirtualAccount, closed, active}
use vaultnuban.Memstore.Accounts.{create_virtual_account, get_active_va}
use vaultnuban.Memstore.Customers.{get_customer}
use vaultnuban.Memstore.Runs.{append_audit}
use vaultnuban.Memstore.Transactions.{TransactionStore, LedgerRow}
use vaultnuban.Memstore.Statements.{get_statement, opening_loop, running_loop}
use vaultnuban.Memstore.Statements.Balances.{Running, get_statement_balances}
use vaultnuban.Memstore.Statements.Pages.{read_pages, listed, read_pages-all}
use vaultnuban.Memstore.Statements.Order.{IsApart, IsFalling, has_time, has_id}
use vaultnuban.Tests.Sorting.{falling, falling-IsSort}
use vaultnuban.Service.Provisioning.Opening.{
  provision, provision_for, open_unless, keep_account, build_account_ref,
}
use vaultnuban.Service.Provisioning.Opening.Once.{
  ranging, Surroundings, mem_opening, provision-provision,
}
use vaultnuban.Tests.Fixtures.{transaction, world, account}

abbrev as_is {ℓ} : {A : Type ℓ} → List A → List A
as_is xs = xs

abbrev row_at : ℕ → LedgerRow
row_at at = record {
  entry = record { transaction_id = "t1"; account = "a"; direction = credit; amount_kobo = 500 };
  occurred_at = at;
}

abbrev store : TransactionStore
store = record {
  txns = ("t1", transaction) ∷ ("t2", record transaction { id = "t2" }) ∷ [];
  ledger = row_at 3 ∷ row_at 5 ∷ [];
}

abbrev statement : Statement
statement = record {
  opening_balance_kobo = 500;
  closing_balance_kobo = 1000;
  from = 4;
  to = 6;
  entries =
      record {
        occurred_at = 5;
        description = "";
        debit_kobo = 0;
        credit_kobo = 500;
        running_balance = 1000;
      }
      ∷ [];
}

abbrev next_statement : Statement
next_statement = record {
  opening_balance_kobo = 1000;
  closing_balance_kobo = 1000;
  from = 6;
  to = 9;
  entries = [];
}

get_statement_balances_example :
    Running statement.opening_balance_kobo statement.entries statement.closing_balance_kobo
    × (statement.closing_balance_kobo ≡ next_statement.opening_balance_kobo)
unfolding get_statement opening_loop running_loop add64
get_statement_balances_example =
    get_statement_balances as_is as_is (λ rows. Perm.refl rows) "a" 4 6 9 store (omega arith)
      statement next_statement refl refl

abbrev two_times : TransactionStore
two_times = record store {
  txns = ("t1", transaction) ∷ ("t2", record transaction { id = "t2"; occurred_at = 9 }) ∷ [];
}

times-IsApart : IsApart has_time (listed "va-1" two_times)
times-IsApart n = ground arith

ids-IsApart : IsApart has_id (listed "va-1" two_times)
ids-IsApart id = elim (Bool-cases (str_eq "t1" id)) [
  | inl first ↦
      let other : str_eq "t2" id ≡ false = ap (str_eq "t2") (sym ((str_eq_iff "t1" id).0 first)) in
      rw (first, other) (omega arith)
  | inr second ↦ rw second (one (str_eq "t2" id))
]
  where
    one :
        (b : Bool)
        → length (if b then record transaction { id = "t2"; occurred_at = 9 } ∷ [] else []) ≤ 1
    one true = omega arith
    one false = omega arith

read_pages-all_example :
    Perm (read_pages 3 (λ n. falling) "va-1" 1 "" two_times) (listed "va-1" two_times)
    × IsFalling (read_pages 3 (λ n. falling) "va-1" 1 "" two_times)
read_pages-all_example =
    read_pages-all (λ n. falling) (λ n. falling-IsSort) "va-1" 1 two_times times-IsApart ids-IsApart
      (omega arith) 3 (omega arith)

abbrev surroundings : Surroundings
surroundings = record {
  create_va = λ request w. (
    ok (record {
      account_ref = request.account_ref;
      nuban = "9900000002";
      bank_name = "Nomba";
      account_name = request.account_name;
      account_holder_id = "h-2";
    }),
    w,
  );
  random_hex = λ w. (ok "00ff00ff", w);
  account_name = λ c. c.display_name;
  marshal = λ va. [];
}

-- The account that takes the place of the closed one.
abbrev new_account : VirtualAccount
new_account = record (account active) {
  id = "va-0001";
  nomba_account_ref = "ttenant1ccust100ff00ff";
  nuban = "9900000002";
  nomba_holder_id = "h-2";
  created_at = 7;
  updated_at = 0;
}

provision-provision_example :
    let call = provision (mem_opening surroundings) "tenant-1" "cust-1" in
    let w' = ranging as_is (call "admin" (world closed)).1 in
    call "other" w' ≡ (ok (some (new_account, false)), w')
unfolding provision provision_for open_unless get_active_va get_customer keep_account
    create_virtual_account append_audit build_account_ref pad4
provision-provision_example =
    provision-provision surroundings ((λ w. (refl, refl)), (λ request w. (refl, refl))) "tenant-1"
      "cust-1" "admin" "other" new_account true (world closed) as_is (λ vas. Perm.refl vas)
      (λ vas. Perm.refl vas) (omega arith) refl
