-- ===== src/Service/Customer/Idempotent.antt =====
-- Creation in internal/service/customer.go over the stores of internal/store/memstore, made twice.
use vaultnuban.Prelude.{String, [], ◌∷◌, ◌++◌, Option, none, some, ◌≡◌, refl, ◌∙◌, ap}
use vaultnuban.Prelude.Text.{concat}
use vaultnuban.Prelude.Dict.{lookup, insert, lookup-insert_self}
use vaultnuban.Prelude.Action.{Result, ok, err}
use vaultnuban.Domain.{Bytes, Customer, validate}
use vaultnuban.Memstore.World.{World, mem_customers, mem_audit}
use vaultnuban.Memstore.Customers.{create_customer, new_identity, get_customer_by_external_ref}
use vaultnuban.Memstore.Runs.{append_audit}
use vaultnuban.Memstore.Ids.{next_id}
use vaultnuban.Service.Customer.{
  CustomerService, NewCustomer, create_audit, create_unless, create_valid, register,
}

abbrev pub mem_customer_service : (Customer → Bytes) → CustomerService World
mem_customer_service marshal = record {
  customers = mem_customers;
  audit = mem_audit;
  marshal = marshal;
}

module _ (marshal : Customer → Bytes) where
  abbrev sv : CustomerService World
  sv = mem_customer_service marshal

  -- The customer with a reference.
  abbrev referred : String → String → World → Option Customer
  referred tenant_id external_ref w =
      elim (lookup (concat tenant_id (concat ":" external_ref)) w.customers.by_ext_ref) [
        | none ↦ none
        | some id ↦ lookup id w.customers.customers
      ]

  -- A customer that is there is returned as it is.
  again :
      (new : NewCustomer) (c : Customer) (w : World)
      → validate new.identity ≡ ok tt
      → referred new.tenant_id new.external_ref w ≡ some c
      → register sv new w ≡ (ok c, w)
  unfolding register create_valid create_unless get_customer_by_external_ref
  again new c w valid there = rw (valid, there) refl

  -- The customer that the store makes.
  abbrev made : NewCustomer → World → Customer
  made new w = record {
    id = (next_id "cust" w.id_seq).0;
    tenant_id = new.tenant_id;
    external_ref = new.external_ref;
    display_name = new.display_name;
    status = "";
    identity = some (new_identity (next_id "cust" w.id_seq).0 new.identity);
    created_at = w.clock;
    updated_at = 0;
  }

  -- The world with that customer.
  abbrev added : NewCustomer → World → World
  added new w = record w {
    id_seq = (next_id "cust" w.id_seq).1;
    customers = record {
      customers = insert (next_id "cust" w.id_seq).0 (made new w) w.customers.customers;
      by_ext_ref =
          insert (concat new.tenant_id (concat ":" new.external_ref)) (next_id "cust" w.id_seq).0
            w.customers.by_ext_ref;
    };
    audit = record {
      entries =
          w.audit.entries
          ++ create_audit new.tenant_id new.actor (made new w).id (marshal (made new w)) ∷ [];
    };
  }

  create_step :
      (new : NewCustomer) (w : World) → create_unless sv new none w ≡ (ok (made new w), added new w)
  unfolding create_unless create_customer append_audit
  create_step new w = refl

  referred-added :
      (new : NewCustomer) (w : World)
      → referred new.tenant_id new.external_ref (added new w) ≡ some (made new w)
  referred-added new w =
      ap (λ o. elim o [ none ↦ none | some id ↦ lookup id (added new w).customers.customers ])
        (lookup-insert_self (concat new.tenant_id (concat ":" new.external_ref))
          (next_id "cust" w.id_seq).0 w.customers.by_ext_ref)
      ∙ lookup-insert_self (next_id "cust" w.id_seq).0 (made new w) w.customers.customers

  unless_referred :
      (new : NewCustomer) (found : Option Customer) (c : Customer) (w : World)
      → referred new.tenant_id new.external_ref w ≡ found
      → (create_unless sv new found w).0 ≡ ok c
      → referred new.tenant_id new.external_ref (create_unless sv new found w).1 ≡ some c
  unfolding create_unless
  unless_referred new (some existing) c w e h = cc
  unless_referred new none c w e h =
      let same : made new w ≡ c = cc (create_step new w, h) in
      ap (λ q. referred new.tenant_id new.external_ref q.1) (create_step new w)
      ∙ referred-added new w
      ∙ ap some same

  valid_referred :
      (new : NewCustomer) (r : Result (Unit {0})) (c : Customer) (w : World)
      → (create_valid sv new r w).0 ≡ ok c
      → referred new.tenant_id new.external_ref (create_valid sv new r w).1 ≡ some c
  unfolding create_valid get_customer_by_external_ref
  valid_referred new (err e) c w h = cc
  valid_referred new (ok _) c w h =
      unless_referred new (referred new.tenant_id new.external_ref w) c w refl h

  registered :
      (new : NewCustomer) (c : Customer) (w : World)
      → (register sv new w).0 ≡ ok c
      → referred new.tenant_id new.external_ref (register sv new w).1 ≡ some c
  unfolding register
  registered new c w h = valid_referred new (validate new.identity) c w h

  -- If the first call returned a customer, creating a customer whose reference the tenant has used
  -- returns the customer of the first call and writes nothing, whatever name, actor and valid identity
  -- the second call brings.
  pub register-register :
      (first second : NewCustomer) (c : Customer) (w : World)
      → first.tenant_id ≡ second.tenant_id
      → first.external_ref ≡ second.external_ref
      → (register (mem_customer_service marshal) first w).0 ≡ ok c
      → validate second.identity ≡ ok tt
      → let w' = (register (mem_customer_service marshal) first w).1 in
        register (mem_customer_service marshal) second w' ≡ (ok c, w')
  register-register first second c w tenant ref h valid =
      again second c (register sv first w).1 valid (rw (← tenant, ← ref) (registered first c w h))
