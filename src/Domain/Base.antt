-- ===== src/Domain/Base.antt =====
-- The types of single values in internal/domain/domain.go.
use vaultnuban.Prelude.{ℕ, Bool, List, ◌*◌, ◌^◌, ◌==◌}

-- A `time.Time`: nanoseconds since Go's zero time, the first instant of year 1 UTC.
abbrev pub Time : Type 0
Time = ℕ

-- `t.IsZero()`
abbrev pub is_zero : Time → Bool
is_zero t = t == 0

abbrev pub second : ℕ
second = 10 ^ 9

-- `24 * time.Hour`
abbrev pub day : ℕ
day = 86400 * second

-- A `[]byte`.
abbrev pub Bytes : Type 0
Bytes = List ℕ
