-- ===== src/Recon/Memory/Caps.antt =====
-- The balances after a payment, and the tier limits of internal/recon/matcher.go as promises about
-- them, over the stores of internal/store/memstore.
use vaultnuban.Prelude.{
  String, Option, some, true, false, ◌≡◌, ◌≢◌, refl, sym, ◌⊎◌, inl, inr, ◌∙◌, ap, arith, Bool-cases,
}
use vaultnuban.Prelude.Word.{Int64, IsInt64, le64, lt64, add64}
use vaultnuban.Prelude.Text.{str_eq, str_eq_iff}
use vaultnuban.Prelude.Action.{M}
use vaultnuban.Domain.{customer_wallet_account, account_suspense, account_nomba_settlement}
use vaultnuban.Ledger.Balance.{moved, balance_of-pair, moved_elsewhere, moved_to}
use vaultnuban.Ledger.Accounts.{wallet_injective, wallet-ne-suspense, wallet-ne-settlement}
use vaultnuban.Provider.{ProviderTransaction}
use vaultnuban.Config.{TierLimits, TierLimit}
use vaultnuban.Memstore.World.{World}
use vaultnuban.Memstore.Transactions.Post.{is_posted, balance, balance-extended, balance-IsInt64}
use vaultnuban.Recon.Worker.{WorkItem, process_credit}
use vaultnuban.Recon.Memory.{mem_worker, Route, to_wallet, held, route, limits_of, tier_blocked}
use vaultnuban.Recon.Memory.Routing.{route-to_wallet}
use vaultnuban.Recon.Memory.Credit.{credited, lines_for, record_of}
use vaultnuban.Recon.Memory.Outcome.{KeepsMoney, process_credit_cases}

not_blocked :
    (limits : TierLimits) (customer : String) (amount : Int64) (w : World) (l : TierLimit)
    → limits_of limits customer w ≡ some l
    → lt64 0 l.max_balance_kobo ≡ true
    → tier_blocked limits customer amount w ≡ false
    → lt64 l.max_balance_kobo (add64 (balance (customer_wallet_account customer) w.txns) amount)
      ≡ false
unfolding tier_blocked
not_blocked limits customer amount w l known capped free = ground arith

same_customer : (a b : String) → str_eq a b ≡ true → a ≡ b
same_customer a b h = (str_eq_iff a b).0 h

other_wallet :
    (a b : String) → str_eq a b ≡ false → customer_wallet_account a ≢ customer_wallet_account b
other_wallet a b h e = ground (arith, wallet_injective a b e, str_eq_iff a b)

module _ (limits : TierLimits)
    (dispatch : Option (String → String → ProviderTransaction → M World (Unit {0})))
    (try_fulfill : Option (String → String → Int64 → M World (Unit {0})))
    (relay_keeps : (d : String → String → ProviderTransaction → M World (Unit {0}))
      → dispatch ≡ some d
      → (tenant kind : String) (pt : ProviderTransaction) → KeepsMoney (d tenant kind pt))
    (fulfil_keeps : (f : String → String → Int64 → M World (Unit {0}))
      → try_fulfill ≡ some f
      → (va tx : String) (amount : Int64) → KeepsMoney (f va tx amount))
    (item : WorkItem) (pt : ProviderTransaction) (w : World) where
  abbrev after : World
  after = (process_credit (mem_worker limits dispatch try_fulfill) item pt w).1

  -- A new payment of a positive int64 amount moves the amount from the settlement account to the
  -- account of its route, and no other balance changes. The relay and the collection check are
  -- assumed to leave ledger and suspense list alone.
  pub process_credit-moved :
      IsInt64 pt.amount_kobo
      → le64 pt.amount_kobo 0 ≡ false
      → is_posted pt.transaction_id w.txns ≡ false
      → (account : String)
      → balance account (process_credit (mem_worker limits dispatch try_fulfill) item pt w).1.txns
        ≡ add64
            (balance account w.txns)
            (moved account_nomba_settlement (credited (route limits pt w)) pt.amount_kobo account)
  process_credit-moved fits positive new account =
      ap (balance account)
        ((process_credit_cases limits dispatch try_fulfill relay_keeps fulfil_keeps item pt w).2
          positive new).0
      ∙ balance-extended account w.clock (record_of limits item pt w)
          (lines_for pt (route limits pt w)) w.txns
      ∙ ap (add64 (balance account w.txns)) (
          balance_of-pair pt.transaction_id account_nomba_settlement (credited (route limits pt w))
            pt.amount_kobo fits account)

  unchanged_refused : le64 pt.amount_kobo 0 ≡ true → after ≡ w
  unchanged_refused h =
      ap (λ q. q.1)
        ((process_credit_cases limits dispatch try_fulfill relay_keeps fulfil_keeps item pt w).0 h)

  unchanged_old : is_posted pt.transaction_id w.txns ≡ true → after.txns ≡ w.txns
  unchanged_old h =
      ((process_credit_cases limits dispatch try_fulfill relay_keeps fulfil_keeps item pt w).1 h).0

  below_cap_by_route :
      (customer : String) (l : TierLimit)
      → IsInt64 pt.amount_kobo
      → limits_of limits customer w ≡ some l
      → lt64 0 l.max_balance_kobo ≡ true
      → le64 pt.amount_kobo 0 ≡ false
      → is_posted pt.transaction_id w.txns ≡ false
      → (r : Route) → route limits pt w ≡ r
      → let wallet = customer_wallet_account customer in
        (balance wallet after.txns ≡ balance wallet w.txns)
        ⊎ (lt64 l.max_balance_kobo (balance wallet after.txns) ≡ false)
  below_cap_by_route customer l fits known capped positive new (held va reason) e =
      let wallet = customer_wallet_account customer in
      inl (
        process_credit-moved fits positive new wallet
        ∙ rw e (
            moved_elsewhere account_nomba_settlement account_suspense pt.amount_kobo
              (balance wallet w.txns) wallet (λ p. wallet-ne-settlement customer (sym p))
              (λ p. wallet-ne-suspense customer (sym p)) (balance-IsInt64 wallet w.txns)))
  below_cap_by_route customer l fits known capped positive new (to_wallet va) e =
      let wallet = customer_wallet_account customer in
      let arrived = process_credit-moved fits positive new wallet in
      elim (Bool-cases (str_eq va.customer_id customer)) [
        | inr other ↦ inl (
            arrived
            ∙ rw e (
                moved_elsewhere account_nomba_settlement (customer_wallet_account va.customer_id)
                  pt.amount_kobo (balance wallet w.txns) wallet
                  (λ p. wallet-ne-settlement customer (sym p))
                  (other_wallet va.customer_id customer other) (balance-IsInt64 wallet w.txns)))
        | inl same ↦
            let owner = same_customer va.customer_id customer same in
            let reached : balance wallet after.txns ≡ add64 (balance wallet w.txns) pt.amount_kobo =
              arrived
              ∙ rw (e, owner)
                  (moved_to account_nomba_settlement pt.amount_kobo (balance wallet w.txns) wallet
                    (λ p. wallet-ne-settlement customer (sym p)) fits) in
            inr (
              rw reached (
                not_blocked limits customer pt.amount_kobo w l known capped
                  (rw owner at (route-to_wallet limits pt w va e))))
      ]

  -- A payment of an int64 amount never takes the wallet of a customer with a positive balance cap above
  -- that cap: it leaves the balance as it was, or brings it to a value that is not above the cap. The
  -- relay and the collection check are assumed to leave ledger and suspense list alone.
  pub process_credit-below_cap :
      (customer : String) (l : TierLimit)
      → IsInt64 pt.amount_kobo
      → limits_of limits customer w ≡ some l
      → lt64 0 l.max_balance_kobo ≡ true
      → let wallet = customer_wallet_account customer in
        let w' = (process_credit (mem_worker limits dispatch try_fulfill) item pt w).1 in
        (balance wallet w'.txns ≡ balance wallet w.txns)
        ⊎ (lt64 l.max_balance_kobo (balance wallet w'.txns) ≡ false)
  process_credit-below_cap customer l fits known capped =
      elim (Bool-cases (le64 pt.amount_kobo 0)) [
        | inl refused ↦ inl (
            ap (λ v. balance (customer_wallet_account customer) v.txns) (unchanged_refused refused))
        | inr positive ↦ elim (Bool-cases (is_posted pt.transaction_id w.txns)) [
          | inl old ↦ inl (ap (balance (customer_wallet_account customer)) (unchanged_old old))
          | inr new ↦
              below_cap_by_route customer l fits known capped positive new (route limits pt w) refl
        ]
      ]
