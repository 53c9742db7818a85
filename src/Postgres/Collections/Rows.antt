-- ===== src/Postgres/Collections/Rows.antt =====
-- The rows that the statements of internal/store/postgres/collection_repo.go choose and change.
use vaultnuban.Prelude.{
  ℕ, zero, suc, String, List, [], ◌∷◌, ◌++◌, none, some, Bool, true, false, ◌≡◌, refl, sym, ◌&&◌,
  ap, ◌∙◌, subst, ◌≤◌, ltb, inl, inr, arith, Bool-cases, Option-cases, All, select, get_elem?, set,
}
use vaultnuban.Prelude.Text.{str_eq, str_eq_refl, str_eq_iff}
use vaultnuban.Domain.{Collection, is_open_collection}
use vaultnuban.Postgres.Collections.{update_open, earliest, has_open}

-- No two rows have the same id.
abbrev pub IsDistinct : List Collection → Type 0
IsDistinct [] = Unit {0}
IsDistinct (c ∷ cs) = All (λ d. str_eq d.id c.id ≡ false) cs × IsDistinct cs

-- The update leaves a row that is settled where it is.
pub update_open-settled :
    (id : String) (change : Collection → Collection) (cs : List Collection) (i : ℕ) (c : Collection)
    → get_elem? cs i ≡ some c
    → is_open_collection c.status ≡ false
    → get_elem? (update_open id change cs) i ≡ some c
unfolding update_open
update_open-settled id change [] i c e h = cc
update_open-settled id change (d ∷ ds) zero c e h = ground arith
update_open-settled id change (d ∷ ds) (suc i) c e h = update_open-settled id change ds i c e h

pub get_elem?-append {ℓ} :
    {A : Type ℓ} (xs ys : List A) (i : ℕ) (x : A)
    → get_elem? xs i ≡ some x
    → get_elem? (xs ++ ys) i ≡ some x
get_elem?-append [] ys i x e = cc
get_elem?-append (y ∷ xs) ys zero x e = e
get_elem?-append (y ∷ xs) ys (suc i) x e = get_elem?-append xs ys i x e

apart : (a b : String) → str_eq b a ≡ false → str_eq a b ≡ false
apart a b h = ground (arith, str_eq_iff a b, str_eq_iff b a)

-- Rows with other ids are left alone.
update_open-absent :
    (id : String) (change : Collection → Collection) (cs : List Collection)
    → All (λ d. str_eq d.id id ≡ false) cs
    → update_open id change cs ≡ cs
unfolding update_open
update_open-absent id change [] h = refl
update_open-absent id change (d ∷ ds) h = rw (h.0, update_open-absent id change ds h.1) refl

All-get {ℓ κ} :
    {A : Type ℓ} (P : A → Type κ) (xs : List A) (i : ℕ) (x : A)
    → All P xs
    → get_elem? xs i ≡ some x
    → P x
All-get P [] i x h e = cc
All-get P (y ∷ xs) zero x h e = ground arith
All-get P (y ∷ xs) (suc i) x h e = All-get P xs i x h.1 e

update_open-head :
    (change : Collection → Collection) (d : Collection) (ds : List Collection)
    → All (λ x. str_eq x.id d.id ≡ false) ds
    → is_open_collection d.status ≡ true
    → update_open d.id change (d ∷ ds) ≡ change d ∷ ds
unfolding update_open
update_open-head change d ds distinct h =
    rw (str_eq_refl d.id, h, update_open-absent d.id change ds distinct) refl

-- Where ids are distinct, the update changes one row.
pub update_open-set :
    (change : Collection → Collection) (cs : List Collection) (i : ℕ) (c : Collection)
    → IsDistinct cs
    → get_elem? cs i ≡ some c
    → is_open_collection c.status ≡ true
    → update_open c.id change cs ≡ set cs i (change c)
unfolding update_open
update_open-set change [] i c distinct e h = cc
update_open-set change (d ∷ ds) zero c distinct e h =
    let same : d ≡ c = cc e in
    subst (λ x. update_open x.id change (d ∷ ds) ≡ change x ∷ ds) same
      (update_open-head change d ds distinct.0 (rw same h))
update_open-set change (d ∷ ds) (suc i) c distinct e h =
    let other : str_eq d.id c.id ≡ false =
      apart d.id c.id
        (All-get (λ (x : Collection). str_eq x.id d.id ≡ false) ds i c distinct.0 e) in
    rw (other, update_open-set change ds i c distinct.1 e h) refl

-- An item that a list has at some place and that passes a test.
abbrev Placed {ℓ} : {A : Type ℓ} → (A → Bool) → List A → A → Type ℓ
Placed p xs x = (j : ℕ) × (get_elem? xs j ≡ some x) × (p x ≡ true)

module _ {ℓ} {A : Type ℓ} (p : A → Bool) where
  kept_index :
      (y : A) (ys : List A) (k : ℕ) (x : A)
      → p y ≡ true
      → ((i : ℕ) → get_elem? (select p ys) i ≡ some x → Placed p ys x)
      → get_elem? (y ∷ select p ys) k ≡ some x
      → Placed p (y ∷ ys) x
  kept_index y ys zero x passes later e = (0, e, ground arith)
  kept_index y ys (suc k) x passes later e = let (j, at, t) = later k e in (suc j, at, t)

  -- What a filter keeps stands in the list and passes the test.
  pub select-index :
      (xs : List A) (i : ℕ) (x : A)
      → get_elem? (select p xs) i ≡ some x
      → (j : ℕ) × (get_elem? xs j ≡ some x) × (p x ≡ true)
  select-index [] i x e = cc
  select-index (y ∷ ys) i x e = elim (Bool-cases (p y)) [
    | inr n ↦ let (j, at, passes) = select-index ys i x (rw n at e) in (suc j, at, passes)
    | inl t ↦ kept_index y ys i x t (λ k. select-index ys k x) (rw t at e)
  ]

-- No row of the list is older than the one that is found.
abbrev pub IsOldest : Collection → List Collection → Type 0
IsOldest c = All (λ d. c.created_at ≤ d.created_at)

pub earliest-none : (cs : List Collection) → earliest cs ≡ none → cs ≡ []
unfolding earliest
earliest-none [] e = refl
earliest-none (c ∷ cs) e = ground arith

older :
    (a b : Collection) (cs : List Collection)
    → a.created_at ≤ b.created_at
    → IsOldest b cs
    → IsOldest a cs
older a b [] h all = tt
older a b (d ∷ ds) h all = (omega arith, older a b ds h all.1)

pub earliest-IsOldest :
    (cs : List Collection) (c : Collection)
    → earliest cs ≡ some c
    → (i : ℕ) × (get_elem? cs i ≡ some c) × IsOldest c cs
unfolding earliest
earliest-IsOldest [] c e = cc
earliest-IsOldest (d ∷ ds) c e = elim (Option-cases (earliest ds)) [
  | inl none_left ↦ (0, rw none_left at e, rw (earliest-none ds none_left) (ground arith, tt))
  | inr (x, found) ↦
      let (i, at, old) = earliest-IsOldest ds x found in
      elim (Bool-cases (ltb x.created_at d.created_at)) [
        | inl less ↦
            let same : x ≡ c = cc (rw (found, less) at e) in
            (suc i, at ∙ ap some same, subst (λ y. IsOldest y (d ∷ ds)) same (ground arith, old))
        | inr more ↦
            let same : d ≡ c = cc (rw (found, more) at e) in
            (
              0,
              ap some same,
              subst (λ y. IsOldest y (d ∷ ds)) same (ground arith, older d x ds (ground arith) old),
            )
      ]
]

-- An open row at a place is one that an UPDATE changes.
pub has_open-at :
    (cs : List Collection) (i : ℕ) (c : Collection)
    → get_elem? cs i ≡ some c
    → is_open_collection c.status ≡ true
    → has_open c.id cs ≡ true
has_open-at [] i c e shut = cc
has_open-at (d ∷ ds) zero c e at =
    let same : d ≡ c = cc e in
    subst (λ x. has_open c.id (x ∷ ds) ≡ true) (sym same) (rw (str_eq_refl c.id, at) refl)
has_open-at (d ∷ ds) (suc i) c e at =
    elim (Bool-cases (str_eq d.id c.id && is_open_collection d.status)) [
      | inl first ↦ rw first refl
      | inr later ↦ rw later (has_open-at ds i c e at)
    ]
