-- ===== src/Memstore/Ranges.antt =====
-- What does not depend on the order in which a range over a map of
-- internal/store/memstore/memstore.go meets its items.
use vaultnuban.Prelude.{
  String, List, [], ◌∷◌, Option, none, some, Bool, ◌≡◌, refl, ap, ◌∙◌, ◌≤◌, arith, inl, inr,
  if◌then◌else◌, Bool-cases, find?, select, length,
}
use mathlib.Core.List.{Perm, foldr}
use mathlib.Core.List.Perm
use text.Mathlib.TextEquality.{IsScalar-prop}
use vaultnuban.Prelude.Dict.{Dict, insert, values}
use vaultnuban.Domain.{VirtualAccount}

-- What passes a test: nothing, one item, or more than one.
abbrev pub more {ℓ} : {A : Type ℓ} → A → Option (Option A) → Option (Option A)
more x none = none
more x (some none) = some (some x)
more x (some (some y)) = none

abbrev pub passing {ℓ} : {A : Type ℓ} → (A → Bool) → List A → Option (Option A)
passing p xs = foldr (λ x rest. if p x then more x rest else rest) (some none) xs

pub passing-none :
    {A : Type 0} (p : A → Bool) (xs : List A) → select p xs ≡ [] → passing p xs ≡ some none
passing-none p [] h = refl
passing-none p (x ∷ xs) h = elim (Bool-cases (p x)) [
  | inl passes ↦ cc (rw passes at h)
  | inr fails ↦ rw fails (passing-none p xs (rw fails at h))
]

pub empty : {A : Type 0} (xs : List A) → length xs ≤ 0 → xs ≡ []
empty [] h = refl
empty (x ∷ xs) h = absurd (omega arith)

pub find?-empty : {A : Type 0} (p : A → Bool) (xs : List A) → select p xs ≡ [] → find? p xs ≡ none
find?-empty p [] h = refl
find?-empty p (x ∷ xs) h = elim (Bool-cases (p x)) [
  | inl passes ↦ cc (rw passes at h)
  | inr fails ↦ rw fails (find?-empty p xs (rw fails at h))
]

-- At most one item passes: it is the one that is found.
pub passing-find? :
    {A : Type 0} (p : A → Bool) (xs : List A)
    → length (select p xs) ≤ 1
    → passing p xs ≡ some (find? p xs)
passing-find? p [] h = refl
passing-find? p (x ∷ xs) h = elim (Bool-cases (p x)) [
  | inl passes ↦
      rw passes
        (ap (more x) (passing-none p xs (empty (select p xs) (omega (arith, rw passes at h)))))
  | inr fails ↦ rw fails (passing-find? p xs (rw fails at h))
]

more-some :
    {A : Type 0} (x : A) (rest : Option (Option A)) (o : Option A)
    → more x rest ≡ some o
    → some x ≡ o
more-some x none o h = cc
more-some x (some none) o h = cc
more-some x (some (some y)) o h = cc

pub find?-passing :
    {A : Type 0} (p : A → Bool) (xs : List A) (o : Option A)
    → passing p xs ≡ some o
    → find? p xs ≡ o
find?-passing p [] o h = cc
find?-passing p (x ∷ xs) o h = elim (Bool-cases (p x)) [
  | inl passes ↦ rw passes (more-some x (passing p xs) o (rw passes at h))
  | inr fails ↦ rw fails (find?-passing p xs o (rw fails at h))
]

pub more_comm :
    {A : Type 0} (p : A → Bool) (x y : A) (rest : Option (Option A))
    → (if p x
        then more x (if p y then more y rest else rest)
        else (if p y then more y rest else rest))
      ≡ (if p y
          then more y (if p x then more x rest else rest)
          else (if p x then more x rest else rest))
more_comm p x y none = ground arith
more_comm p x y (some none) = ground arith
more_comm p x y (some (some z)) = ground arith

passing-Perm :
    (p : VirtualAccount → Bool) (xs ys : List VirtualAccount)
    → Perm xs ys
    → passing p xs ≡ passing p ys
passing-Perm p xs ys same =
    Perm.foldr-eq (hlevel (IsScalar-prop)) (λ x rest. if p x then more x rest else rest)
      (more_comm p) same (some none)

-- If at most one account passes, every order finds the same one.
pub find?-Perm :
    (p : VirtualAccount → Bool) (xs ys : List VirtualAccount)
    → Perm xs ys
    → length (select p ys) ≤ 1
    → find? p xs ≡ find? p ys
find?-Perm p xs ys same one =
    find?-passing p xs (find? p ys) (passing-Perm p xs ys same ∙ passing-find? p ys one)

pub none-select :
    {A : Type 0} (p : A → Bool) (xs : List A) → find? p xs ≡ none → length (select p xs) ≤ 0
none-select p [] h = omega arith
none-select p (x ∷ xs) h = elim (Bool-cases (p x)) [
  | inl passes ↦ cc (rw passes at h)
  | inr fails ↦ rw fails (none-select p xs (rw fails at h))
]

-- An item that is inserted where none passes is the only one that may pass.
pub one-insert :
    {V : Type 0} (p : V → Bool) (k : String) (v : V) (d : Dict V)
    → find? p (values d) ≡ none
    → length (select p (values (insert k v d))) ≤ 1
unfolding insert
one-insert p k v [] h = ground arith
one-insert p k v ((j, w) ∷ d) h = ground (arith, one-insert p k v d, none-select p (values d))
