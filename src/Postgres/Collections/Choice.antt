-- ===== src/Postgres/Collections/Choice.antt =====
-- Which row `FindOpenCollectionForVA` of internal/store/postgres/collection_repo.go chooses.
use vaultnuban.Prelude.{
  String, List, [], ◌∷◌, Option, none, some, true, ◌≡◌, refl, ap, ◌<◌, ◌≤◌, ◌⊎◌, inl, inr, arith,
  Bool-cases, All, select,
}
use vaultnuban.Prelude.Word.{Int64}
use vaultnuban.Prelude.Text.{str_eq_iff, str_eq_refl}
use vaultnuban.Domain.{
  Time, Collection, CollectionStatus, open_collection, fulfilled, expired, cancelled,
  is_open_collection,
}
use vaultnuban.Postgres.Collections.{is_candidate, is_live, takes_amount, for_account}
use vaultnuban.Postgres.Collections.Rows.{IsOldest}

-- An open collection of the account that has not expired and asks for this amount or for any.
abbrev pub Fits : String → Int64 → Time → Collection → Type 0
Fits va_id amount now c =
    (c.virtual_account_id ≡ some va_id)
    × (c.status ≡ open_collection)
    × ((c.expires_at ≡ none) ⊎ ((at : Time) × (c.expires_at ≡ some at) × (now < at)))
    × ((c.expected_amount_kobo ≡ none) ⊎ (c.expected_amount_kobo ≡ some amount))

-- A row that fits and is not younger than any that fits.
abbrev pub IsChosen : String → Int64 → Time → List Collection → Collection → Type 0
IsChosen va_id amount now rows c =
    Fits va_id amount now c
    × All (λ d. (¬ Fits va_id amount now d) ⊎ (c.created_at ≤ d.created_at)) rows

account-Fits : (va_id : String) (o : Option String) → for_account va_id o ≡ true → o ≡ some va_id
account-Fits va_id none h = cc
account-Fits va_id (some id) h = ground (arith, str_eq_iff id va_id)

status-Fits : (s : CollectionStatus) → is_open_collection s ≡ true → s ≡ open_collection
status-Fits open_collection h = refl
status-Fits fulfilled h = cc
status-Fits expired h = cc
status-Fits cancelled h = cc

time-Fits :
    (now : Time) (o : Option Time)
    → is_live now o ≡ true
    → (o ≡ none) ⊎ ((at : Time) × (o ≡ some at) × (now < at))
time-Fits now none h = inl refl
time-Fits now (some at) h = inr (at, refl, ground arith)

amount-Fits :
    (amount : Int64) (o : Option Int64)
    → takes_amount amount o ≡ true
    → (o ≡ none) ⊎ (o ≡ some amount)
amount-Fits amount none h = inl refl
amount-Fits amount (some n) h = inr (ap some (ground arith))

pub candidate-Fits :
    (va_id : String) (amount : Int64) (now : Time) (c : Collection)
    → is_candidate va_id amount now c ≡ true
    → Fits va_id amount now c
unfolding is_candidate
candidate-Fits va_id amount now c h = (
  account-Fits va_id c.virtual_account_id (ground arith),
  status-Fits c.status (ground arith),
  time-Fits now c.expires_at (ground arith),
  amount-Fits amount c.expected_amount_kobo (ground arith),
)

live :
    (now : Time) (o : Option Time)
    → (o ≡ none) ⊎ ((at : Time) × (o ≡ some at) × (now < at))
    → is_live now o ≡ true
live now o (inl e) = rw e refl
live now o (inr (at, e, less)) = rw e (ground arith)

taken :
    (amount : Int64) (o : Option Int64)
    → (o ≡ none) ⊎ (o ≡ some amount)
    → takes_amount amount o ≡ true
taken amount o (inl e) = rw e refl
taken amount o (inr e) = rw e (ground arith)

pub Fits-candidate :
    (va_id : String) (amount : Int64) (now : Time) (c : Collection)
    → Fits va_id amount now c
    → is_candidate va_id amount now c ≡ true
unfolding is_candidate
Fits-candidate va_id amount now c (account, status, time, sum) =
    rw
      (
        account,
        status,
        str_eq_refl va_id,
        live now c.expires_at time,
        taken amount c.expected_amount_kobo sum,
      )
      refl

-- A list whose rows are all left out has no row that fits.
pub none-Fits :
    (va_id : String) (amount : Int64) (now : Time) (rows : List Collection)
    → select (is_candidate va_id amount now) rows ≡ []
    → All (λ d. ¬ Fits va_id amount now d) rows
none-Fits va_id amount now [] h = tt
none-Fits va_id amount now (d ∷ ds) h = elim (Bool-cases (is_candidate va_id amount now d)) [
  | inl fits ↦ cc (rw fits at h)
  | inr not_fit ↦ (
    λ f. cc (Fits-candidate va_id amount now d f),
    none-Fits va_id amount now ds (rw not_fit at h),
  )
]

-- The oldest of the rows that are left in is the one that is chosen.
pub oldest-Fits :
    (va_id : String) (amount : Int64) (now : Time) (rows : List Collection) (c : Collection)
    → IsOldest c (select (is_candidate va_id amount now) rows)
    → All (λ d. (¬ Fits va_id amount now d) ⊎ (c.created_at ≤ d.created_at)) rows
oldest-Fits va_id amount now [] c old = tt
oldest-Fits va_id amount now (d ∷ ds) c old = elim (Bool-cases (is_candidate va_id amount now d)) [
  | inl fits ↦
      let (first, rest) : IsOldest c (d ∷ select (is_candidate va_id amount now) ds) =
        rw fits at old in
      (inr first, oldest-Fits va_id amount now ds c rest)
  | inr not_fit ↦ (
    inl (λ f. cc (Fits-candidate va_id amount now d f)),
    oldest-Fits va_id amount now ds c (rw not_fit at old),
  )
]
