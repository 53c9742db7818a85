-- ===== src/Recon/Sweep.antt =====
-- internal/recon/sweep.go. The provider, the stores and the worker are parameters, `now` is
-- `time.Now()`, and `marshal` is `json.Marshal` on a transaction, for the column that keeps it.
pub mod Counts
pub mod Memory
pub mod Replay
use vaultnuban.Prelude.{
  ℕ, zero, suc, String, List, [], ◌∷◌, Option, none, some, Bool, true, false, not, ◌+◌, ◌-◌, ◌/◌,
  ◌^◌, ◌&&◌, if◌then◌else◌, length,
}
use vaultnuban.Prelude.Word.{Int64}
use vaultnuban.Prelude.Text.{str_eq}
use vaultnuban.Prelude.Action.{
  M, Result, Error, ok, err, wrapped, error_text, pure, or_wrap, ignoring, ◌>>=◌, ◌>>◌,
}
use vaultnuban.Domain.{Time, Bytes, is_zero, SweepRun}
use vaultnuban.Store.{TransactionStore, SweepStore}
use vaultnuban.Provider.{ProviderTransaction, TransactionPage, ListTransactionsRequest}
use vaultnuban.Recon.Worker.{Worker, WorkItem}
use vaultnuban.Recon.Direct.{ProcessResult, process_direct}

pub record SweepRunner (W : Type 0) : Type 0 where
  pub list_transactions : ListTransactionsRequest → M W TransactionPage
  pub requery : String → M W ProviderTransaction
  pub txns : TransactionStore W
  pub sweeps : SweepStore W
  pub worker : Worker W
  pub interval : ℕ
  pub overlap : ℕ
  pub now : M W Time
  pub marshal : ProviderTransaction → Bytes

pub record SweepResult : Type 0 where
  pub window_from : Time
  pub window_to : Time
  pub pages_fetched : ℕ
  pub found : ℕ
  pub posted : ℕ
  pub suspensed : ℕ
  pub skipped : ℕ
  pub duration_ms : Int64

abbrev pub new_result : Time → Time → SweepResult
new_result from to = record {
  window_from = from;
  window_to = to;
  pages_fetched = 0;
  found = 0;
  posted = 0;
  suspensed = 0;
  skipped = 0;
  duration_ms = 0;
}

-- The switch over what `ProcessDirect` reports.
abbrev pub tally : ProcessResult → SweepResult → SweepResult
tally res r =
    if res.skipped
    then record r { skipped = r.skipped + 1 }
    else if res.suspensed
    then record r { suspensed = r.suspensed + 1; posted = r.posted + 1 }
    else if res.posted
    then record r { posted = r.posted + 1 }
    else r

-- The log row of a run.
abbrev pub run_of : SweepResult → Option Error → SweepRun
run_of r failure = record {
  id = "";
  window_from = r.window_from;
  window_to = r.window_to;
  pages_fetched = r.pages_fetched;
  found = r.found;
  posted = r.posted;
  suspensed = r.suspensed;
  duration_ms = some r.duration_ms;
  error = elim failure [ none ↦ none | some e ↦ some (error_text e) ];
  ran_at = 0;
}

module _ {W : Type 0} (s : SweepRunner W) where
  -- `buildWorkItem`
  abbrev pub build_work_item : ProviderTransaction → WorkItem
  build_work_item pt = record {
    webhook_event_id = "";
    payload = record {
      event_type = "payment_success";
      transaction = record pt { raw = s.marshal pt };
      raw = s.marshal pt;
    };
    source = "sweep";
  }

  -- `if err != nil { log } else { pt = *requeried }`
  abbrev pub or_keep :
      ProviderTransaction → Result ProviderTransaction × W → ProviderTransaction × W
  or_keep pt (ok requeried, w) = (requeried, w)
  or_keep pt (err _, w) = (pt, w)

  -- A transaction without the fields to match it by is asked for again by its session.
  unfoldable pub refreshed : ProviderTransaction → W → ProviderTransaction × W
  refreshed pt w =
      if str_eq pt.account_number "" && str_eq pt.account_ref "" && not (str_eq pt.session_id "")
      then or_keep pt (s.requery pt.session_id w)
      else (pt, w)

  -- An error is logged and the next transaction taken.
  abbrev pub tallied : SweepResult → Result ProcessResult × W → SweepResult × W
  tallied r (ok done, w) = (tally done r, w)
  tallied r (err _, w) = (r, w)

  -- One transaction of a page.
  unfoldable pub sweep_one : ProviderTransaction → SweepResult → W → SweepResult × W
  sweep_one pt r w =
      let (pt', w') = refreshed pt w in tallied r (process_direct s.worker (build_work_item pt') w')

  unfoldable pub sweep_page : List ProviderTransaction → SweepResult → W → SweepResult × W
  sweep_page [] r w = (r, w)
  sweep_page (pt ∷ pts) r w = let (r', w') = sweep_one pt r w in sweep_page pts r' w'

  abbrev pub request : Time → Time → String → ListTransactionsRequest
  request from to cursor = record {
    date_from = from;
    date_to = to;
    cursor = cursor;
    page_size = 100;
    virtual_account = "";
  }

  abbrev pub counted : TransactionPage → SweepResult → SweepResult
  counted page r = record r {
    pages_fetched = r.pages_fetched + 1;
    found = r.found + length page.transactions;
  }

  -- One round of the loop over the pages, `rest` being the rounds that follow it.
  unfoldable pub next_page :
      (String → SweepResult → W → Option ((SweepResult × Option Error) × W))
      → SweepResult
      → Result TransactionPage × W
      → Option ((SweepResult × Option Error) × W)
  next_page rest r (err e, w) = some ((r, some (wrapped "list transactions" e)), w)
  next_page rest r (ok page, w) =
      let (r', w') = sweep_page page.transactions (counted page r) w in
      let later = rest page.next_cursor r' w' in
      if str_eq page.next_cursor "" then some ((r', none), w') else later

  -- The loop over the pages; none if the fuel is used up.
  unfoldable pub sweep_pages :
      ℕ → String → SweepResult → W → Option ((SweepResult × Option Error) × W)
  sweep_pages zero cursor r w = none
  sweep_pages (suc fuel) cursor r w =
      next_page (sweep_pages fuel) r
        (s.list_transactions (request r.window_from r.window_to cursor) w)

  -- `computeWindowFrom`. A window that would begin before year 1 begins at its start.
  unfoldable pub compute_window_from : Time → M W Time
  compute_window_from now = do
    last ← s.sweeps.get_last_sweep_time
    pure (if is_zero last then now - (s.interval + s.overlap) else last - s.overlap)

  -- The start of the window: the caller's, if it gives one.
  abbrev pub window_start : Option Time → Time → M W Time
  window_start none now = or_wrap "sweep: compute window" (compute_window_from now)
  window_start (some from) now =
      if not (is_zero from)
      then pure from
      else or_wrap "sweep: compute window" (compute_window_from now)

  -- The duration, the log row, whose error is dropped, and the error of the loop beside the result.
  abbrev pub timed_run :
      Time → SweepResult × Option Error → Result Time × W → Result (SweepResult × Option Error) × W
  timed_run start (r, failure) (err e, w) = (err e, w)
  timed_run start (r, failure) (ok now, w) =
      let timed = record r { duration_ms = (now - start) / 10 ^ 6 } in
      (ok (timed, failure), (s.sweeps.create_sweep_run (run_of timed failure) w).1)

  -- What follows the loop.
  unfoldable pub finish_run : Time → SweepResult × Option Error → M W (SweepResult × Option Error)
  finish_run start done w = timed_run start done (s.now w)

  unfoldable pub finished :
      Time
      → Option ((SweepResult × Option Error) × W)
      → Option (Result (SweepResult × Option Error) × W)
  finished start none = none
  finished start (some (done, w)) = some (finish_run start done w)

  -- The part of `Run` that follows the choice of the window.
  unfoldable pub run_window :
      ℕ → Time → Result Time × W → Option (Result (SweepResult × Option Error) × W)
  run_window fuel start (err e, w) = some (err e, w)
  run_window fuel start (ok from, w) =
      finished start (sweep_pages fuel "" (new_result from start) w)

  abbrev pub run_from :
      ℕ → Option Time → Result Time × W → Option (Result (SweepResult × Option Error) × W)
  run_from fuel from (err e, w) = some (err e, w)
  run_from fuel from (ok start, w) = run_window fuel start (window_start from start w)

  -- `Run`
  unfoldable pub run_sweep : ℕ → Option Time → W → Option (Result (SweepResult × Option Error) × W)
  run_sweep fuel from w = run_from fuel from (s.now w)
