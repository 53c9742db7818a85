-- ===== src/Memstore/Runs.antt =====
-- The sweep and audit stores of internal/store/memstore/memstore.go.
use vaultnuban.Prelude.{ℕ, List, [], ◌∷◌, ◌++◌, take, if◌then◌else◌}
use mathlib.Core.List.{reverse}
use vaultnuban.Prelude.Word.{Int64, lt64}
use vaultnuban.Prelude.Action.{M, ok, gets}
use vaultnuban.Domain.{Time, SweepRun, AuditEntry}
use vaultnuban.Memstore.Ids.{bumped, format_id}

pub record SweepStore : Type 0 where
  pub runs : List SweepRun
  pub sweep_seq : ℕ

abbrev pub new_sweep_store : SweepStore
new_sweep_store = record { runs = []; sweep_seq = 0 }

unfoldable pub create_sweep_run : SweepRun → M SweepStore (Unit {0})
unfolding format_id
create_sweep_run run s = (
  ok tt,
  record {
    runs = s.runs ++ record run { id = format_id "sweep" (bumped s.sweep_seq) } ∷ [];
    sweep_seq = bumped s.sweep_seq;
  },
)

-- The window end of the last run, and the zero time if there is none.
abbrev pub last_window_to : Time → List SweepRun → Time
last_window_to at [] = at
last_window_to at (run ∷ runs) = last_window_to run.window_to runs

unfoldable pub get_last_sweep_time : M SweepStore Time
get_last_sweep_time = gets λ s. last_window_to 0 s.runs

-- Newest first; a limit that is not positive is 50.
unfoldable pub list_sweep_runs : Int64 → M SweepStore (List SweepRun)
list_sweep_runs limit = gets λ s. take (if lt64 0 limit then limit else 50) (reverse s.runs)

pub record AuditStore : Type 0 where
  pub entries : List AuditEntry

abbrev pub new_audit_store : AuditStore
new_audit_store = record { entries = [] }

unfoldable pub append_audit : AuditEntry → M AuditStore (Unit {0})
append_audit entry s = (ok tt, record { entries = s.entries ++ entry ∷ [] })
