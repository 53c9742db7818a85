-- ===== src/Prelude/Dict.antt =====
-- A Go map keyed by strings: the entries in the order in which an iteration visits them. A write
-- to a present key replaces the entry where it stands.
use Prim.Native.String.{String}
use mathlib.Core.Path.{◌≡◌}
use mathlib.Core.Logic.{◌≢◌}
use mathlib.Core.Bool.{true}
use mathlib.Core.Option.{Option, none, some}
use mathlib.Core.List.{List, [], ◌∷◌}
use native.Mathlib.Omega.{arith}
use vaultnuban.Prelude.Tests.{if◌then◌else◌}
use vaultnuban.Prelude.Text.{str_eq, str_eq_iff, str_eq_refl}
use vaultnuban.Prelude.Lists.{All}

abbrev pub Dict {ℓ} : Type ℓ → Type ℓ
Dict V = List (String × V)

module _ {ℓ} {V : Type ℓ} where
  unfoldable pub lookup : String → Dict V → Option V
  lookup k [] = none
  lookup k ((j, v) ∷ d) = let rest = lookup k d in if str_eq k j then some v else rest

  unfoldable pub insert : String → V → Dict V → Dict V
  insert k v [] = (k, v) ∷ []
  insert k v ((j, w) ∷ d) =
      let rest = insert k v d in if str_eq k j then (j, v) ∷ d else (j, w) ∷ rest

  pub lookup-insert :
      (k j : String) (v : V) (d : Dict V)
      → lookup j (insert k v d) ≡ (if str_eq j k then some v else lookup j d)
  unfolding lookup insert
  lookup-insert k j v [] = ground arith
  lookup-insert k j v ((i, w) ∷ d) =
      ground (arith, str_eq_iff k i, str_eq_iff j i, str_eq_iff j k, lookup-insert k j v d)

  pub lookup-insert_self : (k : String) (v : V) (d : Dict V) → lookup k (insert k v d) ≡ some v
  lookup-insert_self k v d = ground (arith, lookup-insert k k v d, str_eq_refl k)

  pub lookup-insert_ne :
      (k j : String) (v : V) (d : Dict V) → j ≢ k → lookup j (insert k v d) ≡ lookup j d
  lookup-insert_ne k j v d h = ground (arith, lookup-insert k j v d, str_eq_iff j k)

  -- The values, in iteration order.
  abbrev pub values : Dict V → List V
  values [] = []
  values ((k, v) ∷ d) = v ∷ values d

  pub All-insert {κ} :
      (P : String × V → Type κ) (k : String) (v : V) (d : Dict V)
      → All P d
      → ((j : String) → str_eq k j ≡ true → P (j, v))
      → All P (insert k v d)
  unfolding insert
  All-insert P k v [] h p = (p k (str_eq_refl k), tt)
  All-insert P k v ((j, w) ∷ d) h p = ground (arith, p j, All-insert P k v d h.1 p)

  -- A value that is found satisfies what all entries satisfy.
  pub All-lookup {κ} :
      (P : V → Type κ) (k : String) (v : V) (d : Dict V)
      → All (λ e. P e.1) d
      → lookup k d ≡ some v
      → P v
  unfolding lookup
  All-lookup P k v [] h e = cc
  All-lookup P k v ((j, w) ∷ d) h e = ground (arith, All-lookup P k v d h.1)
