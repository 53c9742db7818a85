-- ===== src/Prelude/Word.antt =====
-- Go's `int64`: a bit pattern below 2 ^ 64. Sums wrap; orders read the pattern as a signed number.
use Prim.Native.Nat.{ℕ, ◌+◌, ◌-◌, ◌%◌, ◌^◌, ◌<◌}
use mathlib.Core.Path.{◌≡◌}
use mathlib.Core.Bool.{Bool, not}
use native.Mathlib.Omega.{arith}
use vaultnuban.Prelude.Tests.{ltb, if◌then◌else◌}
use Prim.Native.String.{String}
use vaultnuban.Prelude.Text.{decimal, concat}
use vaultnuban.Prelude.Int.{ℤ, pos, negsuc, ◌+ℤ◌, ◌≤ℤ◌, ltb_ℤ}

abbrev pub Int64 : Type 0
Int64 = ℕ

abbrev pub word : ℕ
word = 2 ^ 64

abbrev pub IsInt64 : Int64 → Type 0
IsInt64 a = a < word

-- The number that a pattern stands for.
abbrev pub signed : Int64 → ℤ
signed a = if ltb a (2 ^ 63) then pos a else negsuc (2 ^ 64 - a - 1)

unfoldable pub add64 : Int64 → Int64 → Int64
add64 a b = (a + b) % word

unfoldable pub sub64 : Int64 → Int64 → Int64
sub64 a b = (a + (word - b % word)) % word

-- `a < b` and `a <= b` on int64.
abbrev pub lt64 : Int64 → Int64 → Bool
lt64 a b = ltb_ℤ (signed a) (signed b)

abbrev pub le64 : Int64 → Int64 → Bool
le64 a b = not (lt64 b a)

pub add64-IsInt64 : (a b : Int64) → IsInt64 (add64 a b)
unfolding add64
add64-IsInt64 a b = omega arith

pub sub64-IsInt64 : (a b : Int64) → IsInt64 (sub64 a b)
unfolding sub64
sub64-IsInt64 a b = omega arith

pub add64_assoc : (a b c : Int64) → add64 (add64 a b) c ≡ add64 a (add64 b c)
unfolding add64
add64_assoc a b c = omega arith

pub add64_comm : (a b : Int64) → add64 a b ≡ add64 b a
unfolding add64
add64_comm a b = omega arith

pub add64-sub64 : (a b c : Int64) → sub64 (add64 a b) c ≡ add64 a (sub64 b c)
unfolding add64 sub64
add64-sub64 a b c = omega arith

pub sub64_self : (a b : Int64) → sub64 (add64 a b) b ≡ a % word
unfolding add64 sub64
sub64_self a b = omega arith

pub add64_self : (a b : Int64) → add64 (sub64 a b) b ≡ a % word
unfolding add64 sub64
add64_self a b = omega arith

-- Where the true sum fits, wrapping addition gives it.
pub signed-add64 :
    (a b : Int64)
    → IsInt64 a
    → IsInt64 b
    → negsuc (2 ^ 63 - 1) ≤ℤ signed a +ℤ signed b
    → signed a +ℤ signed b ≤ℤ pos (2 ^ 63 - 1)
    → signed (add64 a b) ≡ signed a +ℤ signed b
unfolding add64 ◌+ℤ◌
signed-add64 a b ha hb lo hi = ground arith

-- `fmt.Sprintf("%d", a)`
unfoldable pub format_int64 : Int64 → String
format_int64 a = if ltb a (2 ^ 63) then decimal a else concat "-" (decimal (2 ^ 64 - a))
