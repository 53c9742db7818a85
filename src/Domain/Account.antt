-- ===== src/Domain/Account.antt =====
-- Virtual accounts and the lifecycle of their status.
use vaultnuban.Prelude.{String, List, [], ◌∷◌, Bool, true, false, if◌then◌else◌}
use vaultnuban.Domain.Base.{Time}

pub data VaStatus : Type 0 where
  pending active suspended closed : VaStatus

-- `==` on statuses.
abbrev pub status_eq : VaStatus → VaStatus → Bool
status_eq pending pending = true
status_eq active active = true
status_eq suspended suspended = true
status_eq closed closed = true
status_eq _ _ = false

-- The string of a status, as it stands in the constants.
abbrev pub status_text : VaStatus → String
status_text pending = "PENDING"
status_text active = "ACTIVE"
status_text suspended = "SUSPENDED"
status_text closed = "CLOSED"

-- The map in `ValidTransition`.
unfoldable pub allowed : VaStatus → List VaStatus
allowed pending = active ∷ []
allowed active = suspended ∷ closed ∷ []
allowed suspended = active ∷ closed ∷ []
allowed closed = []

-- The loop over the allowed statuses.
unfoldable pub is_among : VaStatus → List VaStatus → Bool
is_among next [] = false
is_among next (a ∷ rest) =
    let later = is_among next rest in if status_eq a next then true else later

unfoldable pub valid_transition : VaStatus → VaStatus → Bool
unfolding allowed is_among
valid_transition s next = is_among next (allowed s)

pub record VirtualAccount : Type 0 where
  pub id : String
  pub customer_id : String
  pub nomba_account_ref : String
  pub nuban : String
  pub bank_name : String
  pub account_name : String
  pub nomba_holder_id : String
  pub status : VaStatus
  pub created_at : Time
  pub updated_at : Time
  pub customer_display_name : String
  pub tenant_name : String
