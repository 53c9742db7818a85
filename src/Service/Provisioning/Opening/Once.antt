-- ===== src/Service/Provisioning/Opening/Once.antt =====
-- `ProvisionVA` of internal/service/provisioning.go over the stores of internal/store/memstore, called
-- twice.
use vaultnuban.Prelude.{
  String, [], ◌∷◌, Option, none, some, Bool, true, false, ◌&&◌, ◌≡◌, refl, sym, ap, subst, ◌∙◌,
  arith, find?, select, length, ◌≤◌, List,
}
use mathlib.Core.List.{Perm}
use vaultnuban.Prelude.Text.{str_eq, str_eq_refl}
use vaultnuban.Prelude.Dict.{Dict, lookup, insert, values}
use vaultnuban.Prelude.Action.{M, Result, ok, err, or_wrap, ◌>>=◌}
use vaultnuban.Domain.{Bytes, Customer, VirtualAccount, status_eq, active}
use vaultnuban.Provider.{CreateVaRequest, VaResponse}
use vaultnuban.Memstore.World.{World, mem_customers, mem_accounts, mem_audit}
use vaultnuban.Memstore.Customers.{get_customer, visible_to}
use vaultnuban.Memstore.Accounts.{create_virtual_account, get_active_va}
use vaultnuban.Memstore.Ranges.{find?-Perm, one-insert}
use vaultnuban.Memstore.Runs.{append_audit}
use vaultnuban.Memstore.Ids.{next_id}
use vaultnuban.Service.Provisioning.Opening.{
  Opening, opened, build_account_ref, keep_account, open_unless, provision_for, provision,
}

-- The calls that the service is given besides the stores.
pub record Surroundings : Type 0 where
  pub create_va : CreateVaRequest → M World VaResponse
  pub random_hex : M World String
  pub account_name : Customer → String
  pub marshal : VirtualAccount → Bytes

abbrev pub mem_opening : Surroundings → Opening World
mem_opening o = record {
  customers = mem_customers;
  accounts = mem_accounts;
  audit = mem_audit;
  create_va = o.create_va;
  random_hex = o.random_hex;
  account_name = o.account_name;
  marshal = o.marshal;
}

-- The call leaves customers and accounts alone.
abbrev pub KeepsAccounts : {A : Type 0} → M World A → Type 0
KeepsAccounts m = (w : World) → ((m w).1.accounts ≡ w.accounts) × ((m w).1.customers ≡ w.customers)

abbrev pub LeavesAccounts : Surroundings → Type 0
LeavesAccounts o =
    KeepsAccounts o.random_hex × ((request : CreateVaRequest) → KeepsAccounts (o.create_va request))

find?-insert {ℓ} :
    {V : Type ℓ} (p : V → Bool) (k : String) (v : V) (d : Dict V)
    → p v ≡ true
    → find? p (values d) ≡ none
    → find? p (values (insert k v d)) ≡ some v
unfolding insert
find?-insert p k v [] h e = rw h refl
find?-insert p k v ((j, w) ∷ d) h e = ground (arith, find?-insert p k v d h)

abbrev pub is_active_of : String → VirtualAccount → Bool
is_active_of customer_id va = str_eq va.customer_id customer_id && status_eq va.status active

-- The active account of a customer, if there is at most one.
abbrev pub active_account : String → World → Option VirtualAccount
active_account customer_id w = find? (is_active_of customer_id) (values w.accounts.accounts)

abbrev pub HasOne : String → World → Type 0
HasOne customer_id w = length (select (is_active_of customer_id) (values w.accounts.accounts)) ≤ 1

-- An order in which a range over a map visits each item once.
abbrev pub IsRange : (List VirtualAccount → List VirtualAccount) → Type 0
IsRange order = (vas : List VirtualAccount) → Perm (order vas) vas

-- The world in which the next range over the accounts goes in this order.
abbrev pub ranging : (List VirtualAccount → List VirtualAccount) → World → World
ranging order w = record w { accounts = record w.accounts { range_order = order } }

-- What `GetActiveVA` finds.
abbrev ranged : String → World → Option VirtualAccount
ranged customer_id w =
    find? (is_active_of customer_id) (w.accounts.range_order (values w.accounts.accounts))

module _ (o : Surroundings) (leaves : LeavesAccounts o) (tenant_id customer_id : String) where
  abbrev s : Opening World
  s = mem_opening o

  -- An account that is returned is the active one.
  abbrev Found : World → Result (Option (VirtualAccount × Bool)) × World → Type 0
  Found w (err e, w') = Unit {0}
  Found w (ok none, w') = Unit {0}
  Found w (ok (some (va, fresh)), w') =
      (active_account customer_id w' ≡ some va)
      × (w'.customers ≡ w.customers)
      × HasOne customer_id w'

  kept-Found :
      (actor : String) (resp : VaResponse) (w w' : World)
      → active_account customer_id w' ≡ none
      → w'.customers ≡ w.customers
      → Found w (keep_account s tenant_id customer_id actor resp w')
  unfolding keep_account create_virtual_account append_audit
  kept-Found actor resp w w' absent same =
      let va = record (opened customer_id resp) {
        id = (next_id "va" w'.id_seq).0;
        created_at = w'.clock;
      } in
      (
        find?-insert (is_active_of customer_id) (next_id "va" w'.id_seq).0 va w'.accounts.accounts
            (rw (str_eq_refl customer_id) refl) absent,
        same,
        one-insert (is_active_of customer_id) (next_id "va" w'.id_seq).0 va w'.accounts.accounts
            absent,
      )

  answered-Found :
      (actor : String) (w : World) (q : Result VaResponse × World)
      → active_account customer_id q.1 ≡ none
      → q.1.customers ≡ w.customers
      → Found w (
          ◌>>=◌
            (or_wrap "provisioning: provider create VA" (λ (_ : World). q))
            (keep_account s tenant_id customer_id actor)
            w)
  answered-Found actor w (err e, w') absent same = tt
  answered-Found actor w (ok resp, w') absent same = kept-Found actor resp w w' absent same

  abbrev request : String → Customer → CreateVaRequest
  request random customer = record {
    account_ref = build_account_ref tenant_id customer_id random;
    account_name = o.account_name customer;
    bvn = "";
  }

  absent_later :
      (w w' : World)
      → w'.accounts ≡ w.accounts
      → active_account customer_id w ≡ none
      → active_account customer_id w' ≡ none
  absent_later w w' same absent =
      ap (λ a. find? (is_active_of customer_id) (values a.accounts)) same ∙ absent

  drawn-Found :
      (actor : String) (customer : Customer) (w : World) (q : Result String × World)
      → active_account customer_id w ≡ none
      → (q.1.accounts ≡ w.accounts) × (q.1.customers ≡ w.customers)
      → Found w (
          ◌>>=◌
            (λ (_ : World). q)
            (λ random.
              or_wrap "provisioning: provider create VA" (o.create_va (request random customer))
              >>= keep_account s tenant_id customer_id actor)
            w)
  drawn-Found actor customer w (err e, w') absent kept = tt
  drawn-Found actor customer w (ok random, w') absent kept =
      let alone = leaves.1 (request random customer) w' in
      let q = o.create_va (request random customer) w' in
      answered-Found actor w q (absent_later w q.1 (alone.0 ∙ kept.0) absent) (alone.1 ∙ kept.1)

  unless-Found :
      (actor : String) (customer : Customer) (w : World) (there : Option VirtualAccount)
      → HasOne customer_id w
      → active_account customer_id w ≡ there
      → Found w (open_unless s tenant_id customer_id actor customer there w)
  unfolding open_unless
  unless-Found actor customer w (some va) one e = (e, refl, one)
  unless-Found actor customer w none one e =
      drawn-Found actor customer w (o.random_hex w) e (leaves.0 w)

  ranged-active :
      (w : World)
      → IsRange w.accounts.range_order
      → HasOne customer_id w
      → ranged customer_id w ≡ active_account customer_id w
  ranged-active w range one =
      find?-Perm (is_active_of customer_id) (w.accounts.range_order (values w.accounts.accounts))
        (values w.accounts.accounts) (range (values w.accounts.accounts)) one

  for-Found :
      (actor : String) (w : World) (seen : Option Customer)
      → IsRange w.accounts.range_order
      → HasOne customer_id w
      → Found w (provision_for s tenant_id customer_id actor seen w)
  unfolding provision_for get_active_va
  for-Found actor w none range one = tt
  for-Found actor w (some customer) range one =
      unless-Found actor customer w (ranged customer_id w) one (sym (ranged-active w range one))

  -- The customer that the tenant sees.
  abbrev sees : World → Option Customer
  sees w = elim (lookup customer_id w.customers.customers) [
    | none ↦ none
    | some c ↦ visible_to tenant_id c
  ]

  sees_same : (w w' : World) → w'.customers ≡ w.customers → sees w' ≡ sees w
  sees_same w w' same =
      ap
        (λ cs. elim (lookup customer_id cs.customers) [
          | none ↦ none
          | some c ↦ visible_to tenant_id c
        ])
        same

  provision_step :
      (actor : String) (w : World)
      → provision s tenant_id customer_id actor w
        ≡ provision_for s tenant_id customer_id actor (sees w) w
  unfolding provision get_customer
  provision_step actor w = refl

  for-again :
      (actor : String) (customer : Customer) (va : VirtualAccount) (w : World)
      → ranged customer_id w ≡ some va
      → provision_for s tenant_id customer_id actor (some customer) w ≡ (ok (some (va, false)), w)
  unfolding provision_for get_active_va open_unless
  for-again actor customer va w there = rw there refl

  returned_seen :
      (actor : String) (w : World) (seen : Option Customer) (va : VirtualAccount) (fresh : Bool)
      → (provision_for s tenant_id customer_id actor seen w).0 ≡ ok (some (va, fresh))
      → (customer : Customer) × (seen ≡ some customer)
  unfolding provision_for
  returned_seen actor w none va fresh e = cc
  returned_seen actor w (some customer) va fresh e = (customer, refl)

  Found-same :
      (w : World) (q : Result (Option (VirtualAccount × Bool)) × World) (va : VirtualAccount)
      (fresh : Bool)
      → Found w q
      → q.0 ≡ ok (some (va, fresh))
      → (active_account customer_id q.1 ≡ some va)
        × (q.1.customers ≡ w.customers)
        × HasOne customer_id q.1
  Found-same w (err e, w') va fresh f h = cc
  Found-same w (ok none, w') va fresh f h = cc
  Found-same w (ok (some (x, b)), w') va fresh f h =
      let same : x ≡ va = cc h in (f.0 ∙ ap some same, f.1, f.2)

  -- Over the in-memory stores, for a customer with at most one active account, and with a provider and a
  -- random source that leave customers and accounts alone: once `ProvisionVA` has returned an account,
  -- new or not, calling it again for the customer, by whomever, with nothing in between, returns that
  -- account as one that is not new, and changes nothing. Each call may range over the accounts in an
  -- order of its own.
  pub provision-provision :
      (actor later : String) (va : VirtualAccount) (fresh : Bool) (w : World)
      (order : List VirtualAccount → List VirtualAccount)
      → IsRange w.accounts.range_order
      → IsRange order
      → HasOne customer_id w
      → (provision (mem_opening o) tenant_id customer_id actor w).0 ≡ ok (some (va, fresh))
      → let w' = ranging order (provision (mem_opening o) tenant_id customer_id actor w).1 in
        provision (mem_opening o) tenant_id customer_id later w' ≡ (ok (some (va, false)), w')
  provision-provision actor later va fresh w order range range' one returned =
      let q = provision_for s tenant_id customer_id actor (sees w) w in
      let step = provision_step actor w in
      let answer = ap (λ p. p.0) (sym step) ∙ returned in
      let (there, same, one') =
        Found-same w q va fresh (for-Found actor w (sees w) range one) answer in
      let (customer, seen) = returned_seen actor w (sees w) va fresh answer in
      let w' = ranging order q.1 in
      let still : sees w' ≡ some customer = sees_same w w' same ∙ seen in
      subst
        (λ v.
          provision (mem_opening o) tenant_id customer_id later (ranging order v)
          ≡ (ok (some (va, false)), ranging order v))
        (sym (ap (λ p. p.1) step))
        (provision_step later w'
          ∙ ap (λ c. provision_for s tenant_id customer_id later c w') still
          ∙ for-again later customer va w' (ranged-active w' range' one' ∙ there))
