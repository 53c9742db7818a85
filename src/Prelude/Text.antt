-- ===== src/Prelude/Text.antt =====
-- Go strings as native texts, and `fmt.Sprintf("%s-%04d", …)`.
use Prim.Native.Nat.{ℕ, zero, suc, ◌+◌, ◌-◌, ◌*◌, ◌/◌, ◌%◌, ◌^◌, ◌<◌}
use Prim.Native.Char.{Char, code}
use Prim.Native.String.{String, ◌++◌}
use mathlib.Core.Path.{◌≡◌, refl, sym, ap, ◌∙◌}
use mathlib.Core.Logic.{◌≢◌, ◌↔◌, inl, inr}
use mathlib.Core.Bool.{Bool, true, false}
use native.Mathlib.Omega.{arith}
use native.Mathlib.Nat.{pow-suc}
use text.Mathlib.Text.{◌==◌}
use text.Mathlib.TextEquality.{eq_iff}
use text.Mathlib.TextPositions.{eq_refl}
use text.Mathlib.TextLemmas.{append_cancel_left, cons-append, nil-append}
use vaultnuban.Prelude.Tests.{ltb, if◌then◌else◌, ◌==◌ as nat_eq, Bool-cases}

abbrev pub str_eq : String → String → Bool
str_eq a b = a == b

abbrev pub concat : String → String → String
concat a b = a ++ b

pub str_eq_iff : (a b : String) → (str_eq a b ≡ true) ↔ (a ≡ b)
str_eq_iff = eq_iff

pub str_eq_refl : (a : String) → str_eq a a ≡ true
str_eq_refl = eq_refl

pub str_eq_of_ne : (a b : String) → a ≢ b → str_eq a b ≡ false
str_eq_of_ne a b h = ground (arith, str_eq_iff a b)

pub concat_cancel_left : (p a b : String) → concat p a ≡ concat p b → a ≡ b
concat_cancel_left = append_cancel_left

-- The code of the first character, and 0 of the empty text.
abbrev pub first : String → ℕ
first String.[] = 0
first (String.◌∷◌ c s) = code c

pub first-concat : (c : Char) (s t : String) → first (concat (String.◌∷◌ c s) t) ≡ code c
first-concat c s t = ap first (cons-append c s t)

-- One decimal digit.
abbrev digit : ℕ → String
digit zero = "0"
digit (suc zero) = "1"
digit (suc (suc zero)) = "2"
digit (suc (suc (suc zero))) = "3"
digit (suc (suc (suc (suc zero)))) = "4"
digit (suc (suc (suc (suc (suc zero))))) = "5"
digit (suc (suc (suc (suc (suc (suc zero)))))) = "6"
digit (suc (suc (suc (suc (suc (suc (suc zero))))))) = "7"
digit (suc (suc (suc (suc (suc (suc (suc (suc zero)))))))) = "8"
digit (suc (suc (suc (suc (suc (suc (suc (suc (suc _))))))))) = "9"

-- The decimal digits of `n`, on fuel; `n` is below `10 ^ fuel`.
digits : ℕ → ℕ → String
digits zero n = ""
digits (suc f) n =
    let rest = concat (digits f (n / 10)) (digit (n % 10)) in if nat_eq n 0 then "" else rest

-- `%d` of a number below 2 ^ 64.
unfoldable pub decimal : ℕ → String
unfolding digits
decimal n = if nat_eq n 0 then "0" else digits 20 n

-- `%04d`: at least four digits, zeros first. A uint64 has at most twenty digits.
unfoldable pub pad4 : ℕ → String
unfolding digits
pad4 n =
    if ltb n 1000
    then concat (digit (n / 1000))
        (concat (digit (n / 100 % 10)) (concat (digit (n / 10 % 10)) (digit (n % 10))))
    else digits 20 n

pad4_small : pad4 7 ≡ "0007"
unfolding pad4
pad4_small = refl

pad4_large : pad4 12345 ≡ "12345"
unfolding pad4
pad4_large = refl

-- The number that a text of digits spells.
abbrev spelled : ℕ → String → ℕ
spelled acc String.[] = acc
spelled acc (String.◌∷◌ c s) = spelled (acc * 10 + (code c - 48)) s

spelled-append : (acc : ℕ) (a b : String) → spelled acc (concat a b) ≡ spelled (spelled acc a) b
spelled-append acc String.[] b = rw (nil-append b)
spelled-append acc (String.◌∷◌ c s) b =
    rw (cons-append c s b) (spelled-append (acc * 10 + (code c - 48)) s b)

spelled-digit : (acc d : ℕ) → d < 10 → spelled acc (digit d) ≡ acc * 10 + d
spelled-digit acc zero h = omega arith
spelled-digit acc (suc zero) h = refl
spelled-digit acc (suc (suc zero)) h = refl
spelled-digit acc (suc (suc (suc zero))) h = refl
spelled-digit acc (suc (suc (suc (suc zero)))) h = refl
spelled-digit acc (suc (suc (suc (suc (suc zero))))) h = refl
spelled-digit acc (suc (suc (suc (suc (suc (suc zero)))))) h = refl
spelled-digit acc (suc (suc (suc (suc (suc (suc (suc zero))))))) h = refl
spelled-digit acc (suc (suc (suc (suc (suc (suc (suc (suc zero)))))))) h = refl
spelled-digit acc (suc (suc (suc (suc (suc (suc (suc (suc (suc d))))))))) h = omega arith

spelled-digits : (f n : ℕ) → n < 10 ^ f → spelled 0 (digits f n) ≡ n
unfolding digits
spelled-digits zero n h = omega arith
spelled-digits (suc f) n h = elim (Bool-cases (nat_eq n 0)) [
  | inl none_left ↦ rw none_left (ground arith)
  | inr more ↦
      rw
        (
          more,
          spelled-append 0 (digits f (n / 10)) (digit (n % 10)),
          spelled-digits f (n / 10) lt,
          spelled-digit (n / 10) (n % 10) (omega arith),
        )
        (omega arith)
]
  where
    lt : n / 10 < 10 ^ f
    lt = let e = pow-suc 10 f in omega arith

-- Padding with zeros does not change the number, so the text determines it.
spelled-pad4 : (n : ℕ) → n < 10 ^ 20 → spelled 0 (pad4 n) ≡ n
unfolding pad4
spelled-pad4 n h = elim (Bool-cases (ltb n 1000)) [
  | inl small ↦
      rw
        (
          small,
          spelled-append 0 (digit (n / 1000))
              (concat (digit (n / 100 % 10)) (concat (digit (n / 10 % 10)) (digit (n % 10)))),
          spelled-digit 0 (n / 1000) (ground arith),
          spelled-append (0 * 10 + n / 1000) (digit (n / 100 % 10))
              (concat (digit (n / 10 % 10)) (digit (n % 10))),
          spelled-digit (0 * 10 + n / 1000) (n / 100 % 10) (omega arith),
          spelled-append ((0 * 10 + n / 1000) * 10 + n / 100 % 10) (digit (n / 10 % 10))
              (digit (n % 10)),
          spelled-digit ((0 * 10 + n / 1000) * 10 + n / 100 % 10) (n / 10 % 10) (omega arith),
          spelled-digit (((0 * 10 + n / 1000) * 10 + n / 100 % 10) * 10 + n / 10 % 10) (n % 10)
              (omega arith),
        )
        (omega arith)
  | inr large ↦ rw large (spelled-digits 20 n h)
]

pub pad4_injective : (m n : ℕ) → m < 2 ^ 64 → n < 2 ^ 64 → pad4 m ≡ pad4 n → m ≡ n
pad4_injective m n hm hn e =
    sym (spelled-pad4 m (omega arith)) ∙ ap (spelled 0) e ∙ spelled-pad4 n (omega arith)
