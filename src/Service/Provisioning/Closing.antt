-- ===== src/Service/Provisioning/Closing.antt =====
-- `CloseVA` of internal/service/provisioning.go and the matcher of internal/recon/matcher.go, over the
-- stores of internal/store/memstore: what closing an account does to the payments that come later.
use vaultnuban.Prelude.{
  String, List, Option, none, some, Bool, true, ◌&&◌, ◌≡◌, refl, inl, inr, ◌∙◌, ap, arith,
  if◌then◌else◌, find?, find?-passes, Option-cases,
}
use vaultnuban.Prelude.Text.{str_eq, str_eq_iff, str_eq_refl}
use vaultnuban.Prelude.Dict.{lookup, insert, values, lookup-insert}
use vaultnuban.Prelude.Action.{M, Result, ok, err, >>=-ok}
use vaultnuban.Domain.{
  Bytes, VirtualAccount, VaStatus, active, suspended, closed, Customer, status_eq, valid_transition,
  closed_account, SuspenseReason, LedgerEntry,
}
use vaultnuban.Provider.{ProviderTransaction}
use vaultnuban.Config.{TierLimits}
use vaultnuban.Memstore.World.{World, mem_customers, mem_accounts, mem_audit, on_accounts}
use vaultnuban.Memstore.Customers.{get_customer, visible_to}
use vaultnuban.Memstore.Accounts.{VirtualAccountStore, update_va_status, get_active_va}
use vaultnuban.Memstore.Runs.{append_audit}
use vaultnuban.Recon.Memory.{by_key, receiving_va, held, mem_matcher}
use vaultnuban.Recon.Memory.Routing.{untiered, with_result, entries_for, match_credit-mem}
use vaultnuban.Recon.Matcher.{MatchResult, match_credit, new_item}
use vaultnuban.Ledger.{credit_suspense}
use vaultnuban.Service.Suspense.{Fields}
use vaultnuban.Service.Provisioning.{
  ProvisioningService, if_known, must_get_active_va, close_found, close_account,
}

-- Every account stands under its own id.
abbrev pub IsKeyed : VirtualAccountStore → Type 0
IsKeyed s = (id : String) (va : VirtualAccount) → lookup id s.accounts ≡ some va → va.id ≡ id

-- The store after a change of an account.
abbrev pub changed : VirtualAccount → VirtualAccountStore → VirtualAccountStore
changed va s = record s { accounts = insert va.id va s.accounts }

-- An account as it is found after the change.
abbrev pub seen : VirtualAccount → Option VirtualAccount → Option VirtualAccount
seen va none = none
seen va (some x) = if str_eq x.id va.id then some va else some x

by_key-changed :
    (va old : VirtualAccount) (s : VirtualAccountStore) (key : String)
    (index : List (String × String))
    → IsKeyed s
    → lookup va.id s.accounts ≡ some old
    → by_key key index (changed va s) ≡ seen va (by_key key index s)
by_key-changed va old s key index keyed found = elim (Option-cases (lookup key index)) [
  | inl missing ↦ ground arith
  | inr (id, e) ↦ elim (Option-cases (lookup id s.accounts)) [
    | inl gone ↦ ground (arith, lookup-insert va.id id va s.accounts, str_eq_iff id va.id)
    | inr (x, there) ↦ ground (arith, lookup-insert va.id id va s.accounts, keyed id x there)
  ]
]

-- A change of an account that keeps its id does not change which account a payment names.
receiving_va-changed :
    (va old : VirtualAccount) (s : VirtualAccountStore) (pt : ProviderTransaction)
    → IsKeyed s
    → lookup va.id s.accounts ≡ some old
    → receiving_va pt (changed va s) ≡ seen va (receiving_va pt s)
unfolding receiving_va
receiving_va-changed va old s pt keyed found = ground (
  arith,
  by_key-changed va old s pt.account_ref s.by_ref keyed found,
  by_key-changed va old s pt.account_number s.by_nuban keyed found,
)

by_key-found :
    (va : VirtualAccount) (s : VirtualAccountStore) (key : String) (index : List (String × String))
    → IsKeyed s
    → by_key key index s ≡ some va
    → lookup va.id s.accounts ≡ some va
by_key-found va s key index keyed e = elim (Option-cases (lookup key index)) [
  | inl missing ↦ ground arith
  | inr (id, named) ↦
      let there : lookup id s.accounts ≡ some va = ground arith in
      ap (λ k. lookup k s.accounts) (keyed id va there) ∙ there
]

receiving_va-found :
    (va : VirtualAccount) (s : VirtualAccountStore) (pt : ProviderTransaction)
    → IsKeyed s
    → receiving_va pt s ≡ some va
    → lookup va.id s.accounts ≡ some va
unfolding receiving_va
receiving_va-found va s pt keyed e = ground (
  arith,
  by_key-found va s pt.account_ref s.by_ref keyed,
  by_key-found va s pt.account_number s.by_nuban keyed,
)

-- A call that leaves the accounts alone.
abbrev pub KeepsAccounts : M World (Unit {0}) → Type 0
KeepsAccounts m = (w : World) → (m w).1.accounts ≡ w.accounts

abbrev pub mem_provisioning :
    (String → String → M World (Unit {0}))
    → (String → M World (Unit {0}))
    → (String → M World (Unit {0}))
    → (Fields → Fields → Bytes)
    → ProvisioningService World
mem_provisioning update_va close_va suspend_va marshal_before_after = record {
  customers = mem_customers;
  accounts = mem_accounts;
  audit = mem_audit;
  update_va = update_va;
  close_va = close_va;
  suspend_va = suspend_va;
  marshal_before_after = marshal_before_after;
}

active_closes : (s : VaStatus) → status_eq s active ≡ true → valid_transition s closed ≡ true
unfolding valid_transition
active_closes active e = refl
active_closes VaStatus.pending e = cc
active_closes suspended e = cc
active_closes closed e = cc

-- The result of a match that holds a payment in suspense.
abbrev pub held_match :
    ProviderTransaction
    → VirtualAccount
    → SuspenseReason
    → Result (List LedgerEntry)
    → Result MatchResult
held_match pt va reason (err e) = err e
held_match pt va reason (ok entries) = ok (record {
  va = some va;
  customer_id = "";
  entries = entries;
  suspense = some (new_item pt.transaction_id reason);
})

untiered-closed :
    (pt : ProviderTransaction) (w : World) (va : VirtualAccount)
    → receiving_va pt w.accounts ≡ some va
    → va.status ≡ closed
    → untiered pt w ≡ held (some va) closed_account
untiered-closed pt w va e shut = ground arith

with_result-held :
    (pt : ProviderTransaction) (va : VirtualAccount) (reason : SuspenseReason)
    (entries : Result (List LedgerEntry))
    → with_result pt (held (some va) reason) entries ≡ held_match pt va reason entries
with_result-held pt va reason (ok entries) = refl
with_result-held pt va reason (err e) = refl

-- A payment to a closed account is matched to suspense.
match_credit-closed :
    (limits : TierLimits) (pt : ProviderTransaction) (w : World) (va : VirtualAccount)
    → receiving_va pt w.accounts ≡ some va
    → va.status ≡ closed
    → match_credit (mem_matcher limits) pt w
      ≡ (held_match pt va closed_account (credit_suspense pt.transaction_id pt.amount_kobo), w)
match_credit-closed limits pt w va e shut =
    match_credit-mem limits pt w
    ∙ ap (λ r. (with_result pt r (entries_for pt r), w)) (untiered-closed pt w va e shut)
    ∙ ap (λ r. (r, w))
        (with_result-held pt va closed_account (credit_suspense pt.transaction_id pt.amount_kobo))

module _ (update_va : String → String → M World (Unit {0})) (close_va : String → M World (Unit {0}))
    (suspend_va : String → M World (Unit {0})) (marshal_before_after : Fields → Fields → Bytes)
    (close_keeps : (ref : String) → KeepsAccounts (close_va ref)) where
  abbrev sv : ProvisioningService World
  sv = mem_provisioning update_va close_va suspend_va marshal_before_after

  close_found-accounts :
      (tenant_id actor : String) (va : VirtualAccount) (w : World)
      → valid_transition va.status closed ≡ true
      → lookup va.id w.accounts.accounts ≡ some va
      → ((close_found sv tenant_id actor (some va) w).0 ≡ ok tt)
        × ((close_found sv tenant_id actor (some va) w).1.accounts
            ≡ changed (record va { status = closed }) w.accounts)
  unfolding close_found update_va_status append_audit
  close_found-accounts tenant_id actor va w allowed found =
      ground (arith, close_keeps va.nomba_account_ref w)

  known_active :
      (customer_id : String) (va : VirtualAccount) (w : World) (found : Option Customer)
      → (if_known sv (on_accounts (get_active_va customer_id)) found w).0 ≡ ok (some va)
      → (if_known sv (on_accounts (get_active_va customer_id)) found w ≡ (ok (some va), w))
        × (status_eq va.status active ≡ true)
  unfolding get_active_va
  known_active customer_id va w none e = cc
  known_active customer_id va w (some c) e =
      let test : VirtualAccount → Bool =
        λ x. str_eq x.customer_id customer_id && status_eq x.status active in
      let same : find? test (w.accounts.range_order (values w.accounts.accounts)) ≡ some va = cc in
      (
        ap (λ r. (r, w)) e,
        ground (
          arith,
          find?-passes test (w.accounts.range_order (values w.accounts.accounts)) va same,
        ),
      )

  active_found :
      (tenant_id customer_id : String) (va : VirtualAccount) (w : World)
      → (must_get_active_va sv tenant_id customer_id w).0 ≡ ok (some va)
      → (must_get_active_va sv tenant_id customer_id w ≡ (ok (some va), w))
        × (status_eq va.status active ≡ true)
  unfolding must_get_active_va get_customer
  active_found tenant_id customer_id va w =
      known_active customer_id va w (elim (lookup customer_id w.customers.customers) [
        | none ↦ none
        | some c ↦ visible_to tenant_id c
      ])

  -- Over in-memory stores in which every account stands under its own id, and with a provider that
  -- leaves the accounts' store alone, `CloseVA` succeeds for a customer with an active account, whatever
  -- the provider answers. As long as the accounts have not changed since, `MatchCredit` matches every
  -- payment that names this account to suspense, as one to a closed account, with the entries of
  -- CreditSuspense, and changes nothing itself.
  pub close_account-match :
      (tenant_id customer_id actor : String) (va : VirtualAccount) (w : World)
      → IsKeyed w.accounts
      → (must_get_active_va sv tenant_id customer_id w).0 ≡ ok (some va)
      → (limits : TierLimits) (pt : ProviderTransaction) (later : World)
      → receiving_va pt w.accounts ≡ some va
      → later.accounts ≡ (close_account sv tenant_id customer_id actor w).1.accounts
      → ((close_account sv tenant_id customer_id actor w).0 ≡ ok tt)
        × (match_credit (mem_matcher limits) pt later ≡ (
          held_match pt
              (record va { status = closed })
              closed_account
              (credit_suspense pt.transaction_id pt.amount_kobo),
          later,
        ))
  unfolding close_account
  close_account-match tenant_id customer_id actor va w keyed current limits pt later names kept =
      let open_to = active_found tenant_id customer_id va w current in
      let found = receiving_va-found va w.accounts pt keyed names in
      let done =
        close_found-accounts tenant_id actor va w (active_closes va.status open_to.1) found in
      let step =
        >>=-ok (must_get_active_va sv tenant_id customer_id) (close_found sv tenant_id actor) w
          open_to.0 in
      (
        ap (λ q. q.0) step ∙ done.0,
        match_credit-closed limits pt later (record va { status = closed })
            (ap (receiving_va pt) (kept ∙ ap (λ q. q.1.accounts) step ∙ done.1)
              ∙ receiving_va-changed (record va { status = closed }) va w.accounts pt keyed found
              ∙ rw (names, str_eq_refl va.id) refl)
            refl,
      )
