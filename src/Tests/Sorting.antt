-- ===== src/Tests/Sorting.antt =====
-- A sort by falling times, for the listings.
use vaultnuban.Prelude.{List, [], ◌∷◌, ◌≤◌, leb, arith, inl, inr, if◌then◌else◌, Bool-cases, All}
use mathlib.Core.List.{Perm}
use mathlib.Core.List.Perm
use vaultnuban.Domain.{Transaction}
use vaultnuban.Memstore.Statements.Order.{IsFalling, IsSort}

unfoldable pub placed : Transaction → List Transaction → List Transaction
placed t [] = t ∷ []
placed t (u ∷ us) =
    let rest = placed t us in if leb u.occurred_at t.occurred_at then t ∷ u ∷ us else u ∷ rest

unfoldable pub falling : List Transaction → List Transaction
unfolding placed
falling [] = []
falling (t ∷ ts) = placed t (falling ts)

placed-Perm : (t : Transaction) (us : List Transaction) → Perm (placed t us) (t ∷ us)
unfolding placed
placed-Perm t [] = Perm.refl (t ∷ [])
placed-Perm t (u ∷ us) = elim (Bool-cases (leb u.occurred_at t.occurred_at)) [
  | inl first ↦ rw first (Perm.refl (t ∷ u ∷ us))
  | inr later ↦ rw later (Perm.trans (Perm.cons u (placed-Perm t us)) (Perm.swap t u us))
]

falling-Perm : (ts : List Transaction) → Perm (falling ts) ts
unfolding falling
falling-Perm [] = Perm.refl []
falling-Perm (t ∷ ts) = Perm.trans (placed-Perm t (falling ts)) (Perm.cons t (falling-Perm ts))

placed-All :
    (P : Transaction → Type 0) (t : Transaction) (us : List Transaction)
    → P t
    → All P us
    → All P (placed t us)
unfolding placed
placed-All P t [] p h = (p, tt)
placed-All P t (u ∷ us) p h = elim (Bool-cases (leb u.occurred_at t.occurred_at)) [
  | inl first ↦ rw first (p, h)
  | inr later ↦ rw later (h.0, placed-All P t us p h.1)
]

below :
    (t u : Transaction) (us : List Transaction)
    → u.occurred_at ≤ t.occurred_at
    → All (λ v. v.occurred_at ≤ u.occurred_at) us
    → All (λ v. v.occurred_at ≤ t.occurred_at) us
below t u [] le h = tt
below t u (v ∷ vs) le h = (omega (arith, le, h.0), below t u vs le h.1)

placed-IsFalling :
    (t : Transaction) (us : List Transaction) → IsFalling us → IsFalling (placed t us)
unfolding placed
placed-IsFalling t [] h = (tt, tt)
placed-IsFalling t (u ∷ us) h = elim (Bool-cases (leb u.occurred_at t.occurred_at)) [
  | inl first ↦
      let le : u.occurred_at ≤ t.occurred_at = ground (arith, first) in
      rw first ((le, below t u us le h.0), h)
  | inr later ↦ rw later (
    placed-All (λ v. v.occurred_at ≤ u.occurred_at) t us (ground (arith, later)) h.0,
    placed-IsFalling t us h.1,
  )
]

falling-IsFalling : (ts : List Transaction) → IsFalling (falling ts)
unfolding falling
falling-IsFalling [] = tt
falling-IsFalling (t ∷ ts) = placed-IsFalling t (falling ts) (falling-IsFalling ts)

pub falling-IsSort : IsSort falling
falling-IsSort rows = (falling-Perm rows, falling-IsFalling rows)
