-- ===== src/Config.antt =====
-- internal/config/tier_limits.go and the `TierLimit` of internal/config/config.go.
use vaultnuban.Prelude.{List, [], ◌∷◌, Option, none, some, ◌==◌, if◌then◌else◌}
use vaultnuban.Prelude.Word.{Int64}

pub record TierLimit : Type 0 where
  pub daily_credit_kobo : Int64
  pub max_balance_kobo : Int64

-- The map from tiers to limits.
abbrev pub TierLimits : Type 0
TierLimits = List (Int64 × TierLimit)

-- `TierLimitsCache.Get`; none is `ok == false`.
unfoldable pub get_limit : Int64 → TierLimits → Option TierLimit
get_limit tier [] = none
get_limit tier ((t, limit) ∷ rest) =
    let later = get_limit tier rest in if tier == t then some limit else later
