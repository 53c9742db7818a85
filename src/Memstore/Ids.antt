-- ===== src/Memstore/Ids.antt =====
-- The synthetic ids of internal/store/memstore/memstore.go. `atomic.AddUint64` wraps at 2 ^ 64.
use vaultnuban.Prelude.{ℕ, ◌+◌, ◌%◌, ◌<◌, ◌≡◌, String}
use vaultnuban.Prelude.Word.{word}
use vaultnuban.Prelude.Text.{concat, pad4, pad4_injective, concat_cancel_left}

-- A counter after `atomic.AddUint64(&seq, 1)`.
abbrev pub bumped : ℕ → ℕ
bumped seq = (seq + 1) % word

-- `fmt.Sprintf("%s-%04d", prefix, n)`
unfoldable pub format_id : String → ℕ → String
format_id prefix n = concat prefix (concat "-" (pad4 n))

-- `nextID`: the id and the new value of the counter `idSeq`.
unfoldable pub next_id : String → ℕ → String × ℕ
unfolding format_id
next_id prefix seq = (format_id prefix (bumped seq), bumped seq)

-- Two different counter values below 2 ^ 64 never give the same id.
pub format_id_injective :
    (prefix : String) (m n : ℕ)
    → m < word
    → n < word
    → format_id prefix m ≡ format_id prefix n
    → m ≡ n
unfolding format_id
format_id_injective prefix m n hm hn e = pad4_injective m n hm hn (
    concat_cancel_left "-" (pad4 m) (pad4 n)
      (concat_cancel_left prefix (concat "-" (pad4 m)) (concat "-" (pad4 n)) e))
