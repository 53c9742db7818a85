-- ===== src/Memstore/Statements/Order.antt =====
-- The order in which `ListTransactions` of internal/store/memstore/memstore.go lists transactions of
-- distinct times: there is only one.
use vaultnuban.Prelude.{
  ℕ, String, List, [], ◌∷◌, none, some, Bool, true, false, ◌≡◌, refl, sym, ap, subst, ◌∙◌, ◌≤◌, ◌+◌,
  ◌==◌, arith, inl, inr, if◌then◌else◌, Bool-cases, All, find?, select, length,
}
use mathlib.Core.List.{Perm, foldr}
use mathlib.Core.List.Perm
use text.Mathlib.TextEquality.{IsScalar-prop}
use vaultnuban.Prelude.Text.{str_eq, str_eq_refl}
use vaultnuban.Domain.{Time, Transaction}
use vaultnuban.Memstore.Ranges.{more, more_comm, passing-find?, find?-passing, empty, find?-empty}

-- No two transactions have the same id, and no id is empty.
abbrev pub HasIds : List Transaction → Type 0
HasIds [] = Unit {0}
HasIds (tx ∷ txs) =
    All (λ t. str_eq t.id tx.id ≡ false) txs × (str_eq tx.id "" ≡ false) × HasIds txs

-- No row is later than one that stands before it.
abbrev pub IsFalling : List Transaction → Type 0
IsFalling [] = Unit {0}
IsFalling (t ∷ ts) = All (λ u. u.occurred_at ≤ t.occurred_at) ts × IsFalling ts

-- What `sort.Slice` may return, whatever order it is given the rows in.
abbrev pub IsSort : (List Transaction → List Transaction) → Type 0
IsSort sort = (rows : List Transaction) → Perm (sort rows) rows × IsFalling (sort rows)

abbrev pub has_time : Time → Transaction → Bool
has_time at t = t.occurred_at == at

abbrev pub has_id : String → Transaction → Bool
has_id id t = str_eq t.id id

-- No two rows have the same value.
abbrev pub IsApart : {A : Type 0} → (A → Transaction → Bool) → List Transaction → Type 0
IsApart {A} test rows = (a : A) → length (select (test a) rows) ≤ 1

abbrev count : (Transaction → Bool) → List Transaction → ℕ
count p rows = foldr (λ t n. if p t then 1 + n else n) 0 rows

count-select :
    (p : Transaction → Bool) (rows : List Transaction) → count p rows ≡ length (select p rows)
count-select p [] = refl
count-select p (t ∷ ts) = ground (arith, count-select p ts)

pub length-Perm :
    (p : Transaction → Bool) (xs ys : List Transaction)
    → Perm xs ys
    → length (select p xs) ≡ length (select p ys)
length-Perm p xs ys same =
    sym (count-select p xs)
    ∙ Perm.foldr-eq (hlevel) (λ t n. if p t then 1 + n else n) (λ a b n. ground arith) same 0
    ∙ count-select p ys

all_selected : (xs : List Transaction) → select (λ t. true) xs ≡ xs
all_selected [] = refl
all_selected (x ∷ xs) = ap (λ ys. x ∷ ys) (all_selected xs)

pub whole_length : (xs ys : List Transaction) → Perm xs ys → length xs ≡ length ys
whole_length xs ys same =
    ap length (sym (all_selected xs))
    ∙ length-Perm (λ t. true) xs ys same
    ∙ ap length (all_selected ys)

pub IsApart-Perm :
    {A : Type 0} (test : A → Transaction → Bool) (xs ys : List Transaction)
    → Perm xs ys
    → IsApart test ys
    → IsApart test xs
IsApart-Perm test xs ys same apart a =
    subst (λ n. n ≤ 1) (sym (length-Perm (test a) xs ys same)) (apart a)

found-Perm :
    (p : Transaction → Bool) (xs ys : List Transaction)
    → Perm xs ys
    → length (select p ys) ≤ 1
    → find? p xs ≡ find? p ys
found-Perm p xs ys same one = find?-passing p xs (find? p ys) (
    Perm.foldr-eq (hlevel (IsScalar-prop)) (λ x rest. if p x then more x rest else rest)
      (more_comm p) same (some none)
    ∙ passing-find? p ys one)

found-All :
    (P : Transaction → Type 0) (p : Transaction → Bool) (xs : List Transaction) (x : Transaction)
    → All P xs
    → find? p xs ≡ some x
    → P x
found-All P p [] x h e = cc
found-All P p (y ∷ ys) x h e = elim (Bool-cases (p y)) [
  | inl hit ↦ subst P (cc (rw hit at e)) h.0
  | inr miss ↦ found-All P p ys x h.1 (rw miss at e)
]

same_time : (n : Time) → (n == n) ≡ true
same_time n = ground arith

-- The heads of two falling lists in which the same is found are the same.
not_later :
    (x y : Transaction) (ys : List Transaction)
    → All (λ u. u.occurred_at ≤ y.occurred_at) ys
    → find? (has_time x.occurred_at) (y ∷ ys) ≡ some x
    → x.occurred_at ≤ y.occurred_at
not_later x y ys below e = elim (Bool-cases (has_time x.occurred_at y)) [
  | inl hit ↦ ground arith
  | inr miss ↦
      found-All (λ u. u.occurred_at ≤ y.occurred_at) (has_time x.occurred_at) ys x below
        (rw miss at e)
]

tails :
    (x : Transaction) (xs : List Transaction)
    → IsApart has_time (x ∷ xs)
    → find? (has_time x.occurred_at) xs ≡ none
tails x xs apart = find?-empty (has_time x.occurred_at) xs (
    empty (select (has_time x.occurred_at) xs)
      (omega (arith, rw (same_time x.occurred_at) at (apart x.occurred_at))))

IsApart-tail :
    (x : Transaction) (xs : List Transaction) → IsApart has_time (x ∷ xs) → IsApart has_time xs
IsApart-tail x xs apart n = ground (arith, apart n)

tails_same :
    (x y : Transaction) (xs ys : List Transaction)
    → IsApart has_time (x ∷ xs)
    → IsApart has_time (y ∷ ys)
    → y.occurred_at ≡ x.occurred_at
    → ((n : Time) → find? (has_time n) (x ∷ xs) ≡ find? (has_time n) (y ∷ ys))
    → (n : Time) → find? (has_time n) xs ≡ find? (has_time n) ys
tails_same x y xs ys ax ay at same n = elim (Bool-cases (has_time n x)) [
  | inl hit ↦
      let here : x.occurred_at ≡ n = ground arith in
      ap (λ m. find? (has_time m) xs) (sym here)
      ∙ tails x xs ax
      ∙ sym (tails y ys ay)
      ∙ ap (λ m. find? (has_time m) ys) (at ∙ here)
  | inr miss ↦
      let passed : has_time n y ≡ false = ap (λ m. m == n) at ∙ miss in
      rw (miss, passed) at (same n)
]

same_falling :
    (xs ys : List Transaction)
    → IsFalling xs
    → IsFalling ys
    → IsApart has_time xs
    → IsApart has_time ys
    → ((n : Time) → find? (has_time n) xs ≡ find? (has_time n) ys)
    → xs ≡ ys
same_falling [] [] fx fy ax ay same = refl
same_falling [] (y ∷ ys) fx fy ax ay same =
    absurd (cc (rw (same_time y.occurred_at) at (same y.occurred_at)))
same_falling (x ∷ xs) [] fx fy ax ay same =
    absurd (cc (rw (same_time x.occurred_at) at (same x.occurred_at)))
same_falling (x ∷ xs) (y ∷ ys) fx fy ax ay same =
    let there : find? (has_time x.occurred_at) (y ∷ ys) ≡ some x =
      sym (same x.occurred_at) ∙ rw (same_time x.occurred_at) refl in
    let here : find? (has_time y.occurred_at) (x ∷ xs) ≡ some y =
      same y.occurred_at ∙ rw (same_time y.occurred_at) refl in
    let at : y.occurred_at ≡ x.occurred_at =
      omega (arith, not_later x y ys fy.0 there, not_later y x xs fx.0 here) in
    let hit : (y.occurred_at == x.occurred_at) ≡ true = ground (arith, at) in
    let head : y ≡ x = cc (rw hit at there) in
    (λ i.
      sym head i
      ∷ same_falling xs ys fx.1 fy.1 (IsApart-tail x xs ax) (IsApart-tail y ys ay)
          (tails_same x y xs ys ax ay at same) i)

-- Two sorts of rows of distinct times return the same list.
pub same_sorted :
    (sort sort' : List Transaction → List Transaction) (rows : List Transaction)
    → IsSort sort
    → IsSort sort'
    → IsApart has_time rows
    → sort rows ≡ sort' rows
same_sorted sort sort' rows s s' apart =
    same_falling (sort rows) (sort' rows) (s rows).1 (s' rows).1
      (IsApart-Perm has_time (sort rows) rows (s rows).0 apart)
      (IsApart-Perm has_time (sort' rows) rows (s' rows).0 apart)
      (λ n.
        found-Perm (has_time n) (sort rows) rows (s rows).0 (apart n)
        ∙ sym (found-Perm (has_time n) (sort' rows) rows (s' rows).0 (apart n)))

none_left :
    (p : Transaction → Bool) (xs : List Transaction)
    → length (select p xs) ≤ 0
    → All (λ t. p t ≡ false) xs
none_left p [] h = tt
none_left p (t ∷ ts) h = elim (Bool-cases (p t)) [
  | inl hit ↦ absurd (omega (arith, rw hit at h))
  | inr miss ↦ (miss, none_left p ts (rw miss at h))
]

-- Ids that are apart are distinct.
pub IsApart-HasIds :
    (rows : List Transaction)
    → IsApart has_id rows
    → length (select (has_id "") rows) ≤ 0
    → HasIds rows
IsApart-HasIds [] apart named = tt
IsApart-HasIds (t ∷ ts) apart named = (
  none_left (has_id t.id) ts (omega (arith, rw (str_eq_refl t.id) at (apart t.id))),
  (none_left (has_id "") (t ∷ ts) named).0,
  IsApart-HasIds ts (λ id. ground (arith, apart id)) (ground (arith, named)),
)
