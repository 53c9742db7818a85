-- ===== src/Tests/Ledger.antt =====
-- The ledger builders, the checks of the domain and the transaction store at concrete inputs.
use vaultnuban.Prelude.{ℕ, List, [], ◌∷◌, ◌≡◌, refl, none, true, arith, inl}
use vaultnuban.Prelude.Word.{add64, sub64}
use vaultnuban.Prelude.Dict.{lookup}
use vaultnuban.Prelude.Action.{ok}
use vaultnuban.Domain.{
  Transaction, LedgerEntry, debit, credit, posted, customer_wallet_account,
  account_nomba_settlement, account_suspense,
}
use vaultnuban.Ledger.{
  credit_customer, credit_suspense, reversal_entries, reversal_to_suspense, withdraw_customer,
  suspense_to_customer,
}
use vaultnuban.Ledger.Balance.{pair, net_of}
use vaultnuban.Ledger.Builders.{Posts, builders-Posts}
use vaultnuban.Memstore.Ids.{format_id_injective}
use vaultnuban.Memstore.Transactions.{new_transaction_store, post_transaction}
use vaultnuban.Memstore.Transactions.Post.{IsBalanced, post-IsBalanced, post-created}
use vaultnuban.Memstore.Transactions.Replay.{Posting, run, run-run, run-IsBalanced}

builders-Posts_example :
    let wallet = customer_wallet_account "c1" in
    Posts "t1" account_nomba_settlement wallet 500 (credit_customer "t1" "c1" 500)
    × Posts "t1" account_nomba_settlement account_suspense 500 (credit_suspense "t1" 500)
    × Posts "t1" wallet account_nomba_settlement 500 (reversal_entries "t1" "c1" 500)
    × Posts "t1" account_suspense account_nomba_settlement 500 (reversal_to_suspense "t1" 500)
    × Posts "t1" wallet account_nomba_settlement 500 (withdraw_customer "t1" "c1" 500)
    × Posts "t1" account_suspense wallet 500 (suspense_to_customer "t1" "c1" 500)
builders-Posts_example = builders-Posts "t1" "c1" 500 (omega arith)

abbrev payment : Transaction
payment = record {
  id = "t1";
  virtual_account_id = none;
  session_id = none;
  amount_kobo = 500;
  direction = credit;
  source = "webhook";
  status = posted;
  sender_name = none;
  sender_bank = none;
  narration = none;
  raw = [];
  occurred_at = 7;
  created_at = 0;
  nuban = "";
}

abbrev lines : List LedgerEntry
lines = pair "t1" "nomba_settlement" "customer_wallet:c1" 500

posting_runs : (post_transaction 9 payment lines new_transaction_store).0 ≡ ok true
unfolding post_transaction add64 sub64
posting_runs = refl

-- A posting that does not balance is refused.
unbalanced_runs :
    (post_transaction 9 payment
      (record { transaction_id = "t1"; account = "suspense"; direction = debit; amount_kobo = 1 }
        ∷ [])
      new_transaction_store).1
    ≡ new_transaction_store
unfolding post_transaction add64 sub64
unbalanced_runs = refl

empty_IsBalanced : IsBalanced new_transaction_store
unfolding net_of
empty_IsBalanced = refl

post-IsBalanced_example : IsBalanced (post_transaction 9 payment lines new_transaction_store).1
post-IsBalanced_example = post-IsBalanced 9 payment lines new_transaction_store empty_IsBalanced

post-created_example : (post_transaction 9 payment lines new_transaction_store).0 ≡ ok true
unfolding lookup net_of add64 sub64
post-created_example = (post-created 9 payment lines new_transaction_store refl refl).0

abbrev call : Posting
call = record { now = 9; tx = payment; entries = lines }

run-run_example :
    run (call ∷ call ∷ []) (run (call ∷ []) new_transaction_store)
    ≡ run (call ∷ []) new_transaction_store
run-run_example =
    run-run (call ∷ []) (call ∷ call ∷ []) new_transaction_store (inl refl, (inl refl, tt))

run-IsBalanced_example : IsBalanced (run (call ∷ call ∷ []) new_transaction_store)
run-IsBalanced_example = run-IsBalanced (call ∷ call ∷ []) new_transaction_store empty_IsBalanced

abbrev counter : ℕ
counter = 12345

format_id_injective_example : counter ≡ 12345
format_id_injective_example =
    format_id_injective "va" counter 12345 (omega arith) (omega arith) refl
