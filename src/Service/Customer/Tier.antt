-- ===== src/Service/Customer/Tier.antt =====
-- `UpdateKYCTier` of internal/service/customer.go over the stores of internal/store/memstore, where the
-- customer that `GetCustomer` returns is the one in the store.
use vaultnuban.Prelude.{
  String, [], ◌∷◌, ◌++◌, Option, none, some, true, false, ◌≡◌, refl, sym, ap, subst, ◌∙◌, ◌⊎◌, inl,
  inr, Bool-cases, Option-cases, arith, if◌then◌else◌,
}
use vaultnuban.Prelude.Word.{Int64}
use vaultnuban.Prelude.Text.{str_eq, concat}
use vaultnuban.Prelude.Dict.{lookup, insert, lookup-insert_self, lookup-insert}
use vaultnuban.Prelude.Action.{
  ok, err, validation_error, Result, message, >>=-ok, or_wrap, or_wrap-ok,
}
use vaultnuban.Domain.{Bytes, Customer, Identity, tier_out_of_range}
use vaultnuban.Memstore.World.{World, mem_customers, on_customers}
use vaultnuban.Memstore.Customers.{
  get_customer, update_kyc_tier, visible_to, with_tier, blank_identity,
}
use vaultnuban.Memstore.Runs.{append_audit}
use vaultnuban.Service.Customer.{TierRequest, change_tier, change_found, log_tier, tier_audit}
use vaultnuban.Service.Customer.Idempotent.{mem_customer_service}

-- The customer in the store.
abbrev pub mem_behind : String → Customer → World → Customer
mem_behind id c w = elim (lookup id w.customers.customers) [ none ↦ c | some stored ↦ stored ]

abbrev pub shown : String → Option Customer → Option Customer
shown tenant_id none = none
shown tenant_id (some c) = visible_to tenant_id c

-- The customer that a tenant sees under an id.
abbrev pub seen : TierRequest → World → Option Customer
seen req w = shown req.tenant_id (lookup req.customer_id w.customers.customers)

-- The identity after the change.
abbrev identity_of : TierRequest → Customer → Identity
identity_of req c = elim (with_tier req.customer_id req.new_tier c).identity [
  | none ↦ blank_identity req.customer_id
  | some i ↦ i
]

identity_of-with_tier :
    (req : TierRequest) (c : Customer) (o : Option Identity)
    → c.identity ≡ o
    → ((with_tier req.customer_id req.new_tier c).identity ≡ some (identity_of req c))
      × ((identity_of req c).kyc_tier ≡ req.new_tier)
identity_of-with_tier req c none e = rw e (refl, refl)
identity_of-with_tier req c (some i) e = rw e (refl, refl)

shown_stored :
    (tenant_id : String) (o : Option Customer) (c : Customer)
    → shown tenant_id o ≡ some c
    → (o ≡ some c) × (visible_to tenant_id c ≡ some c)
shown_stored tenant_id none c h = cc
shown_stored tenant_id (some d) c h =
    let same : d ≡ c = ground arith in (ap some same, ap (visible_to tenant_id) (sym same) ∙ h)

-- The ways a call ends: out of range, a customer that is not seen, or a change.
abbrev pub Outcome :
    (Option Identity → Int64 → Int64 → Identity → Bytes)
    → TierRequest
    → World
    → Result (Option Customer)
    → World
    → Type 0
Outcome marshal_change req w r w' =
    ((tier_out_of_range req.new_tier ≡ true)
      × (r ≡ err (validation_error "kyc_tier" "must be 1, 2, or 3"))
      × (w' ≡ w))
    ⊎ ((seen req w ≡ none) × (r ≡ ok none) × (w' ≡ w))
    ⊎ ((c : Customer) × (c' : Customer) × (i : Identity) × (seen req w ≡ some c)
        × (r ≡ ok (some c'))
        × (c'.identity ≡ some i)
        × (i.kyc_tier ≡ req.new_tier)
        × ((id : String)
            → lookup id w'.customers.customers
              ≡ (if str_eq id req.customer_id then some c' else lookup id w.customers.customers))
        × (w'.audit.entries
            ≡ w.audit.entries
              ++ tier_audit req.tenant_id req.actor i.id
                  (marshal_change c.identity req.new_tier req.new_tier i)
                ∷ []))

module _ (marshal : Customer → Bytes)
    (marshal_change : Option Identity → Int64 → Int64 → Identity → Bytes) where
  -- The world in which the customer of the request has the new tier.
  abbrev changed : TierRequest → Customer → World → World
  changed req c w = record w {
    customers = record w.customers {
      customers =
          insert req.customer_id (with_tier req.customer_id req.new_tier c) w.customers.customers;
    };
  }

  abbrev logged : TierRequest → Customer → World → World
  logged req c w = record (changed req c w) {
    audit = record {
      entries =
          w.audit.entries
          ++ tier_audit req.tenant_id req.actor (identity_of req c).id
              (marshal_change c.identity req.new_tier req.new_tier (identity_of req c))
            ∷ [];
    };
  }

  log_tier-logged :
      (req : TierRequest) (c : Customer) (o : Option Identity) (w : World)
      → c.identity ≡ o
      → log_tier
          (mem_customer_service marshal)
          mem_behind
          marshal_change
          req
          c.identity
          (with_tier req.customer_id req.new_tier c)
          (changed req c w)
        ≡ (ok (some (with_tier req.customer_id req.new_tier c)), logged req c w)
  unfolding log_tier append_audit
  log_tier-logged req c none w e = rw e refl
  log_tier-logged req c (some i) w e = rw e refl

  updated :
      (req : TierRequest) (c : Customer) (w : World)
      → lookup req.customer_id w.customers.customers ≡ some c
      → mem_customers.update_kyc_tier req.customer_id req.new_tier w ≡ (ok tt, changed req c w)
  unfolding update_kyc_tier
  updated req c w there =
      ap
        (λ (o : Option Customer).
          on_customers {A = Unit {0}}
            (λ s. elim o [
              | none ↦ (err (message (concat "memstore: customer not found: " req.customer_id)), s)
              | some d ↦ (
                ok tt,
                record s {
                  customers =
                      insert req.customer_id (with_tier req.customer_id req.new_tier d) s.customers;
                },
              )
            ])
            w)
        there

  change_found-logged :
      (req : TierRequest) (c : Customer) (w : World)
      → lookup req.customer_id w.customers.customers ≡ some c
      → change_found (mem_customer_service marshal) mem_behind marshal_change req (some c) w
        ≡ (ok (some (with_tier req.customer_id req.new_tier c)), logged req c w)
  change_found-logged req c w there =
      let log = log_tier (mem_customer_service marshal) mem_behind marshal_change req c.identity in
      let update = mem_customers.update_kyc_tier req.customer_id req.new_tier in
      >>=-ok (or_wrap "customer service: update tier" update)
        (λ _. λ w'. log (mem_behind req.customer_id c w') w') w
        (or_wrap-ok "customer service: update tier" update w (updated req c w there))
      ∙ ap
          (λ (o : Option Customer).
            log (elim o [ none ↦ c | some stored ↦ stored ]) (changed req c w))
          (lookup-insert_self req.customer_id (with_tier req.customer_id req.new_tier c)
            w.customers.customers)
      ∙ log_tier-logged req c c.identity w refl

  change_tier-found :
      (req : TierRequest) (w : World)
      → tier_out_of_range req.new_tier ≡ false
      → change_tier (mem_customer_service marshal) mem_behind marshal_change req w
        ≡ change_found (mem_customer_service marshal) mem_behind marshal_change req (seen req w) w
  unfolding change_tier get_customer
  change_tier-found req w in_range = rw in_range refl

  -- A call of `UpdateKYCTier` over the in-memory stores either changes nothing, since the tier is out of
  -- range or the tenant does not see the customer, or the customer has the new tier from then on and is
  -- returned with it, no other customer changes, and the audit log has one more row. This row is made of
  -- the identity before the change and after it, and gives the new tier as the old one as well.
  pub change_tier_outcome :
      (req : TierRequest) (w : World)
      → let (r, w') = change_tier (mem_customer_service marshal) mem_behind marshal_change req w in
        Outcome marshal_change req w r w'
  change_tier_outcome req w = elim (Bool-cases (tier_out_of_range req.new_tier)) [
    | inl out ↦ unfold change_tier in rw out (inl (refl, refl, refl))
    | inr in_range ↦ elim (Option-cases (seen req w)) [
      | inl hidden ↦
          subst (λ q. Outcome marshal_change req w q.0 q.1)
            (sym (
              change_tier-found req w in_range
              ∙ ap
                  (λ o.
                    change_found (mem_customer_service marshal) mem_behind marshal_change req o w)
                  hidden))
            (inr (inl (hidden, refl, refl)))
      | inr (c, visible) ↦
          let stored =
            (shown_stored req.tenant_id (lookup req.customer_id w.customers.customers) c
              visible).0 in
          let (named, tier) = identity_of-with_tier req c c.identity refl in
          subst (λ q. Outcome marshal_change req w q.0 q.1)
            (sym (
              change_tier-found req w in_range
              ∙ ap
                  (λ o.
                    change_found (mem_customer_service marshal) mem_behind marshal_change req o w)
                  visible
              ∙ change_found-logged req c w stored))
            (inr (
              inr (
                c,
                with_tier req.customer_id req.new_tier c,
                identity_of req c,
                visible,
                refl,
                named,
                tier,
                (λ id.
                    lookup-insert req.customer_id id (with_tier req.customer_id req.new_tier c)
                      w.customers.customers),
                refl,
              )))
    ]
  ]
