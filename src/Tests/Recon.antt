-- ===== src/Tests/Recon.antt =====
-- The worker of internal/recon over the in-memory stores, on a customer with one account.
use vaultnuban.Prelude.{
  ℕ, String, Bool, ◌<◌, ap, ◌∙◌, subst, true, ◌≤◌, ◌+◌, [], ◌∷◌, ◌≡◌, refl, none, some, false,
  arith, ◌⊎◌, ◌||◌, if◌then◌else◌, All,
}
use vaultnuban.Prelude.Word.{add64, le64, lt64}
use vaultnuban.Prelude.Dict.{lookup}
use vaultnuban.Prelude.Action.{ok, err, wrapped, void}
use vaultnuban.Domain.{
  active, closed, customer_wallet_account, account_nomba_settlement, closed_account, tier_limit,
}
use vaultnuban.Ledger.Balance.{moved}
use vaultnuban.Ledger.{not_positive}
use vaultnuban.Prelude.Text.{str_eq}
use vaultnuban.Config.{get_limit}
use vaultnuban.Memstore.World.{World}
use vaultnuban.Memstore.Transactions.{daily_loop}
use vaultnuban.Memstore.Transactions.Post.{is_posted, balance}
use vaultnuban.Tests.Fixtures.{account, world, tier_limits, payment_of, item_of}
use vaultnuban.Domain.{is_nil}
use vaultnuban.Provider.{TransactionPage, ListTransactionsRequest}
use vaultnuban.Recon.Worker.{process_reversal}
use vaultnuban.Recon.Direct.{process_direct}
use vaultnuban.Recon.Memory.Reversal.{debited, process_reversal-moved}
use vaultnuban.Memstore.Transactions.{get_transaction}
use vaultnuban.Tests.Fixtures.{holding}
use vaultnuban.Recon.Sweep.{
  run_window, finished, sweep_pages, next_page, sweep_one, refreshed, finish_run, SweepRunner,
  SweepResult, new_result, sweep_page, run_sweep,
}
use vaultnuban.Recon.Sweep.Counts.{Paged, run_sweep_ends, run_sweep-IsTally}
use vaultnuban.Recon.Sweep.Memory.{process_direct_outcome, skipped_report, report_of, is_held}
use vaultnuban.Recon.Sweep.Replay.{mem_sweeper, IsBooked, sweep_page_books, sweep_page-sweep_page}
use vaultnuban.Recon.Worker.{process_credit}
use vaultnuban.Recon.Direct.{process_credit_direct}
use vaultnuban.Recon.Worker.Paths.{process_credit-process_credit_direct}
use vaultnuban.Recon.Memory.{
  mem_worker, receiving_va, daily_credits, limits_of, tier_blocked, route, to_wallet, held,
}
use vaultnuban.Recon.Memory.Credit.{with_payment, credited}
use vaultnuban.Recon.Memory.Outcome.{process_credit_outcome, suspense_after}
use vaultnuban.Recon.Memory.Caps.{process_credit-moved, process_credit-below_cap}

goes_to_wallet : route tier_limits (payment_of 400000) (world active) ≡ to_wallet (account active)
unfolding route receiving_va tier_blocked limits_of daily_credits balance get_limit lookup add64
    daily_loop
goes_to_wallet = refl

closed_is_held :
    route tier_limits (payment_of 400000) (world closed)
    ≡ held (some (account closed)) closed_account
unfolding route receiving_va tier_blocked limits_of daily_credits balance get_limit lookup add64
    daily_loop
closed_is_held = refl

too_much_is_held :
    route tier_limits (payment_of 5000001) (world active) ≡ held (some (account active)) tier_limit
unfolding route receiving_va tier_blocked limits_of daily_credits balance get_limit lookup add64
    daily_loop
too_much_is_held = refl

process_credit-process_credit_direct_example :
    let wk = mem_worker tier_limits none none in
    process_credit wk (item_of "" 400000) (payment_of 400000) (world active) ≡ (
      void (process_credit_direct wk (item_of "" 400000) (payment_of 400000) (world active)).0,
      (process_credit_direct wk (item_of "" 400000) (payment_of 400000) (world active)).1,
    )
process_credit-process_credit_direct_example =
    process_credit-process_credit_direct (mem_worker tier_limits none none) (item_of "" 400000)
      (payment_of 400000) (world active) refl refl

process_credit_outcome_example :
    let pt = payment_of 400000 in
    let w' =
      (process_credit
        (mem_worker tier_limits none none)
        (item_of "evt-1" 400000)
        pt
        (world closed)).1 in
    let skipped = le64 pt.amount_kobo 0 || is_posted pt.transaction_id (world closed).txns in
    (w'.txns ≡ (
      if skipped
      then (world closed).txns
      else (with_payment tier_limits (item_of "evt-1" 400000) pt (world closed)).txns))
    × (w'.suspense ≡ (
        if skipped
        then (world closed).suspense
        else suspense_after pt (world closed) (route tier_limits pt (world closed))))
process_credit_outcome_example =
    process_credit_outcome tier_limits none none (λ d e. cc) (λ f e. cc) (item_of "evt-1" 400000)
      (payment_of 400000) (world closed)

process_credit-moved_example :
    balance "suspense"
      (process_credit
        (mem_worker tier_limits none none)
        (item_of "evt-1" 400000)
        (payment_of 400000)
        (world closed)).1.txns
    ≡ add64 (balance "suspense" (world closed).txns) (
        moved account_nomba_settlement
          (credited (route tier_limits (payment_of 400000) (world closed)))
          400000
          "suspense")
unfolding lookup
process_credit-moved_example =
    process_credit-moved tier_limits none none (λ d e. cc) (λ f e. cc) (item_of "evt-1" 400000)
      (payment_of 400000) (world closed) (omega arith) refl refl "suspense"

process_credit-below_cap_example :
    let wallet = customer_wallet_account "cust-1" in
    let w' =
      (process_credit
        (mem_worker tier_limits none none)
        (item_of "evt-1" 400000)
        (payment_of 400000)
        (world active)).1 in
    (balance wallet w'.txns ≡ balance wallet (world active).txns)
    ⊎ (lt64 30000000 (balance wallet w'.txns) ≡ false)
unfolding limits_of get_limit lookup
process_credit-below_cap_example =
    process_credit-below_cap tier_limits none none (λ d e. cc) (λ f e. cc) (item_of "evt-1" 400000)
      (payment_of 400000) (world active) "cust-1"
      (record { daily_credit_kobo = 5000000; max_balance_kobo = 30000000 }) (omega arith) refl refl

abbrev page : TransactionPage
page = record { transactions = payment_of 400000 ∷ []; next_cursor = "" }

abbrev runner : SweepRunner World
runner =
    mem_sweeper tier_limits none none (λ req w. (ok page, w))
      (λ session w. (ok (payment_of 400000), w)) 600 60 (λ pt. [])

abbrev start : SweepResult
start = new_result 1 7

sweep_page_books_example :
    All
      (λ pt. IsBooked pt (sweep_page runner page.transactions start (world active)).1.txns)
      page.transactions
sweep_page_books_example =
    sweep_page_books tier_limits none none (λ f e. cc) (λ req w. (ok page, w))
      (λ session w. (ok (payment_of 400000), w)) 600 60 (λ pt. []) page.transactions start
      (world active) (refl, tt)

sweep_page-sweep_page_example :
    let w' = (sweep_page runner page.transactions start (world active)).1 in
    let w'' = (sweep_page runner page.transactions start w').1 in
    (w''.txns ≡ w'.txns) × (w''.suspense ≡ w'.suspense)
sweep_page-sweep_page_example =
    sweep_page-sweep_page tier_limits none none (λ f e. cc) (λ req w. (ok page, w))
      (λ session w. (ok (payment_of 400000), w)) 600 60 (λ pt. []) page.transactions start start
      (world active) (refl, tt)

process_direct_outcome_example :
    let item = item_of "" 400000 in
    let w = world active in
    let (r, w') = process_direct (mem_worker tier_limits none none) item w in
    let p = item.payload.transaction in
    let untouched = le64 p.amount_kobo 0 || is_posted p.transaction_id w.txns in
    (w'.txns ≡ (if untouched then w.txns else (with_payment tier_limits item p w).txns))
    × (w'.suspense ≡ (if untouched then w.suspense else suspense_after p w (route tier_limits p w)))
    × (r ≡ (
        if is_posted p.transaction_id w.txns
        then ok skipped_report
        else if le64 p.amount_kobo 0
        then err (wrapped "match" (not_positive p.amount_kobo))
        else ok (report_of (true, is_held (route tier_limits p w)))))
process_direct_outcome_example =
    process_direct_outcome tier_limits none none (λ f e. cc) (item_of "" 400000) (world active) refl

-- A provider with a second page behind the cursor "next".
abbrev page_at : Bool → TransactionPage
page_at true = page
page_at false = record page { next_cursor = "next" }

abbrev pages : ListTransactionsRequest → TransactionPage
pages req = page_at (str_eq req.cursor "next")

answered : {A : Type 0} (a b : A) → ok a ≡ ok b → a ≡ b
answered a b e = cc e

abbrev paging : SweepRunner World
paging = record runner { list_transactions = λ req w. (ok (pages req), w) }

abbrev pages_left : String → ℕ
pages_left cursor = if str_eq cursor "next" then 0 else 1

fewer :
    (last : Bool)
    → str_eq (page_at last).next_cursor "" ≡ false
    → pages_left (page_at last).next_cursor < (if last then 0 else 1)
fewer true more = cc
fewer false more = omega arith

paging-Paged : Paged paging pages_left
paging-Paged req w answer e more =
    let same = answered (pages req) answer e in
    subst (λ p. pages_left p.next_cursor < pages_left req.cursor) same
      (fewer (str_eq req.cursor "next") (ap (λ p. str_eq p.next_cursor "") same ∙ more))

run_sweep_ends_example : is_nil (run_sweep paging 2 none (world active)) ≡ false
run_sweep_ends_example =
    run_sweep_ends paging pages_left paging-Paged 2 (omega arith) none (world active)

-- A sweep over a page of one transaction that is in the ledger.
abbrev swept : SweepResult
swept = record (new_result 1 7) { pages_fetched = 1; found = 1; skipped = 1 }

run_sweep-IsTally_example :
    (swept.posted + swept.skipped ≤ swept.found) × (swept.suspensed ≤ swept.posted)
unfolding run_sweep run_window finished sweep_pages next_page sweep_page sweep_one refreshed
    process_direct get_transaction lookup finish_run
run_sweep-IsTally_example = run_sweep-IsTally runner 2 (some 1) holding _ swept none refl

process_reversal-moved_example :
    let wallet = customer_wallet_account "cust-1" in
    let w' =
      (process_reversal
        (mem_worker tier_limits none none)
        (item_of "evt-1" 400000)
        (payment_of 400000)
        (world closed)).1 in
    balance wallet w'.txns
    ≡ add64
        (balance wallet (world closed).txns)
        (moved (debited (payment_of 400000) (world closed)) account_nomba_settlement 400000 wallet)
unfolding lookup
process_reversal-moved_example =
    process_reversal-moved tier_limits none none (item_of "evt-1" 400000) (payment_of 400000)
      (world closed) (omega arith) refl refl (customer_wallet_account "cust-1")
