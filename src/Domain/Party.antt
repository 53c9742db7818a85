-- ===== src/Domain/Party.antt =====
-- Tenants, API keys, credentials, customers and their identities.
use vaultnuban.Prelude.{String, Option, none, some, Bool, true, false, ◌||◌, ◌&&◌, if◌then◌else◌}
use vaultnuban.Prelude.Word.{Int64, lt64}
use vaultnuban.Prelude.Action.{Result, ok, err, message}
use vaultnuban.Domain.Base.{Time}

pub record Tenant : Type 0 where
  pub id : String
  pub name : String
  pub created_at : Time

pub record ApiKey : Type 0 where
  pub id : String
  pub tenant_id : String
  pub raw_key : String
  pub key_hash : String
  pub key_prefix : String
  pub active : Bool
  pub created_at : Time

pub record UserCredential : Type 0 where
  pub id : String
  pub tenant_id : Option String
  pub email : String
  pub password_hash : String
  pub name : String
  pub role : String
  pub created_at : Time

pub record Identity : Type 0 where
  pub id : String
  pub customer_id : String
  pub bvn_masked : Option String
  pub nin_masked : Option String
  pub kyc_tier : Int64
  pub verification_status : String
  pub created_at : Time
  pub updated_at : Time

pub record Customer : Type 0 where
  pub id : String
  pub tenant_id : String
  pub external_ref : String
  pub display_name : String
  pub status : String
  pub identity : Option Identity
  pub created_at : Time
  pub updated_at : Time

pub record IdentityInput : Type 0 where
  pub bvn_masked : Option String
  pub nin_masked : Option String
  pub kyc_tier : Int64

-- `p == nil`
abbrev pub is_nil {ℓ} : {A : Type ℓ} → Option A → Bool
is_nil none = true
is_nil (some _) = false

-- `tier < 1 || tier > 3`
abbrev pub tier_out_of_range : Int64 → Bool
tier_out_of_range tier = lt64 tier 1 || lt64 3 tier

-- `IdentityInput.Validate`: the BVN-or-NIN rule, then the range of the tier.
unfoldable pub validate : IdentityInput → Result (Unit {0})
validate i =
    if is_nil i.bvn_masked && is_nil i.nin_masked
    then err (message "at least one of BVN or NIN must be provided")
    else if tier_out_of_range i.kyc_tier
    then err (message "kyc_tier must be 1, 2, or 3")
    else ok tt
