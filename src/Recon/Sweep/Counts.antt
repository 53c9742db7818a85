-- ===== src/Recon/Sweep/Counts.antt =====
-- The counts of a sweep of internal/recon/sweep.go, and its loop over the pages of the provider.
use vaultnuban.Prelude.{
  ℕ, zero, suc, String, List, [], ◌∷◌, Option, none, some, false, ◌+◌, ◌≤◌, ◌<◌, ◌≡◌, refl, arith,
  length, Bool-cases, inl, inr, subst, ◌∙◌,
}
use vaultnuban.Prelude.Text.{str_eq}
use vaultnuban.Prelude.Action.{Result, Error, ok, err}
use vaultnuban.Domain.{Time, is_nil}
use vaultnuban.Provider.{ProviderTransaction, TransactionPage, ListTransactionsRequest}
use vaultnuban.Recon.Direct.{ProcessResult, process_direct}
use vaultnuban.Recon.Sweep.{
  SweepRunner, SweepResult, tally, tallied, counted, sweep_one, sweep_page, next_page, sweep_pages,
  refreshed, build_work_item, finish_run, timed_run, finished, run_window, run_from, run_sweep,
  new_result, window_start, request,
}

-- Every transaction that was found is counted once at most, and those in suspense are posted.
abbrev pub IsTally : SweepResult → Type 0
IsTally r = (r.posted + r.skipped ≤ r.found) × (r.suspensed ≤ r.posted)

-- A result after up to `n` more transactions.
abbrev Adds : ℕ → SweepResult → SweepResult → Type 0
Adds n r r' =
    (r'.posted + r'.skipped ≤ r.posted + r.skipped + n)
    × (r'.suspensed + r.posted ≤ r.suspensed + r'.posted)
    × (r'.found ≡ r.found)

tally-Adds : (res : ProcessResult) (r : SweepResult) → Adds 1 r (tally res r)
tally-Adds res r = ground arith

module _ {W : Type 0} (s : SweepRunner W) where
  sweep_one-Adds :
      (pt : ProviderTransaction) (r : SweepResult) (w : W) → Adds 1 r (sweep_one s pt r w).0
  unfolding sweep_one
  sweep_one-Adds pt r w =
      go (process_direct s.worker (build_work_item s (refreshed s pt w).0) (refreshed s pt w).1)
    where
      go : (q : Result ProcessResult × W) → Adds 1 r (tallied s r q).0
      go (ok done, w') = tally-Adds done r
      go (err e, w') = (omega arith, omega arith, refl)

  sweep_page-Adds :
      (pts : List ProviderTransaction) (r : SweepResult) (w : W)
      → Adds (length pts) r (sweep_page s pts r w).0
  unfolding sweep_page
  sweep_page-Adds [] r w = (omega arith, omega arith, refl)
  sweep_page-Adds (pt ∷ pts) r w =
      let one = sweep_one-Adds pt r w in
      let more = sweep_page-Adds pts (sweep_one s pt r w).0 (sweep_one s pt r w).1 in
      (omega (arith, one.0, more.0), omega (arith, one.1, more.1), more.2 ∙ one.2)

  abbrev Tallied : Option ((SweepResult × Option Error) × W) → Type 0
  Tallied none = Unit
  Tallied (some ((r, e), w)) = IsTally r

  next_page-Tallied :
      (rest : String → SweepResult → W → Option ((SweepResult × Option Error) × W))
      (r : SweepResult) (q : Result TransactionPage × W)
      → ((cursor : String) (r : SweepResult) (w : W) → IsTally r → Tallied (rest cursor r w))
      → IsTally r
      → Tallied (next_page s rest r q)
  unfolding next_page
  next_page-Tallied rest r (err e, w) h t = t
  next_page-Tallied rest r (ok page, w) h t =
      let done = sweep_page s page.transactions (counted s page r) w in
      let more = sweep_page-Adds page.transactions (counted s page r) w in
      let still : IsTally done.0 = (omega (arith, more, t), omega (arith, more, t)) in
      elim (Bool-cases (str_eq page.next_cursor "")) [
        | inl last ↦ rw last still
        | inr next ↦ rw next (h page.next_cursor done.0 done.1 still)
      ]

  sweep_pages-Tallied :
      (fuel : ℕ) (cursor : String) (r : SweepResult) (w : W)
      → IsTally r
      → Tallied (sweep_pages s fuel cursor r w)
  unfolding sweep_pages
  sweep_pages-Tallied zero cursor r w t = tt
  sweep_pages-Tallied (suc fuel) cursor r w t =
      next_page-Tallied (sweep_pages s fuel) r
        (s.list_transactions (request s r.window_from r.window_to cursor) w)
        (sweep_pages-Tallied fuel) t

  abbrev RunTallied : Option (Result (SweepResult × Option Error) × W) → Type 0
  RunTallied none = Unit
  RunTallied (some (err e, w)) = Unit
  RunTallied (some (ok (r, e), w)) = IsTally r

  finish_run-Tallied :
      (start : Time) (r : SweepResult) (e : Option Error) (w : W)
      → IsTally r
      → RunTallied (some (finish_run s start (r, e) w))
  unfolding finish_run
  finish_run-Tallied start r e w t = go (s.now w)
    where
      go : (q : Result Time × W) → RunTallied (some (timed_run s start (r, e) q))
      go (err x, w') = tt
      go (ok now, w') = t

  run_window-Tallied :
      (fuel : ℕ) (start : Time) (q : Result Time × W) → RunTallied (run_window s fuel start q)
  unfolding run_window finished
  run_window-Tallied fuel start (err e, w) = tt
  run_window-Tallied fuel start (ok from, w) =
      go (sweep_pages s fuel "" (new_result from start) w)
        (sweep_pages-Tallied fuel "" (new_result from start) w (omega arith, omega arith))
    where
      go :
          (o : Option ((SweepResult × Option Error) × W))
          → Tallied o
          → RunTallied (finished s start o)
      go none t = tt
      go (some ((r, e), w')) t = finish_run-Tallied start r e w' t

  run_from-Tallied :
      (fuel : ℕ) (from : Option Time) (q : Result Time × W) → RunTallied (run_from s fuel from q)
  run_from-Tallied fuel from (err e, w) = tt
  run_from-Tallied fuel from (ok start, w) =
      run_window-Tallied fuel start (window_start s from start w)

  -- Whatever the provider and the stores do, the counts that a sweep returns fit together: posted and
  -- skipped transactions are at most those found, and those in suspense at most those posted.
  pub run_sweep-IsTally :
      (fuel : ℕ) (from : Option Time) (w w' : W) (r : SweepResult) (failure : Option Error)
      → run_sweep s fuel from w ≡ some (ok (r, failure), w')
      → (r.posted + r.skipped ≤ r.found) × (r.suspensed ≤ r.posted)
  unfolding run_sweep
  run_sweep-IsTally fuel from w w' r failure e =
      subst RunTallied e (run_from-Tallied fuel from (s.now w))

  -- A provider that has only so many more pages after each cursor.
  abbrev pub Paged : (String → ℕ) → Type 0
  Paged left =
      (req : ListTransactionsRequest) (w : W) (page : TransactionPage)
      → (s.list_transactions req w).0 ≡ ok page
      → str_eq page.next_cursor "" ≡ false
      → left page.next_cursor < left req.cursor

  next_page-ends :
      (rest : String → SweepResult → W → Option ((SweepResult × Option Error) × W))
      (r : SweepResult) (q : Result TransactionPage × W)
      → ((page : TransactionPage) (r : SweepResult) (w : W)
          → q.0 ≡ ok page
          → str_eq page.next_cursor "" ≡ false
          → is_nil (rest page.next_cursor r w) ≡ false)
      → is_nil (next_page s rest r q) ≡ false
  unfolding next_page
  next_page-ends rest r (err e, w) h = refl
  next_page-ends rest r (ok page, w) h = elim (Bool-cases (str_eq page.next_cursor "")) [
    | inl last ↦ rw last refl
    | inr next ↦
        let done = sweep_page s page.transactions (counted s page r) w in
        rw next (h page done.0 done.1 refl next)
  ]

  sweep_pages-ends :
      (left : String → ℕ) (fuel : ℕ) (cursor : String) (r : SweepResult) (w : W)
      → Paged left
      → left cursor < fuel
      → is_nil (sweep_pages s fuel cursor r w) ≡ false
  unfolding sweep_pages
  sweep_pages-ends left zero cursor r w h lt = absurd (omega (arith, lt))
  sweep_pages-ends left (suc fuel) cursor r w h lt =
      let req = request s r.window_from r.window_to cursor in
      next_page-ends (sweep_pages s fuel) r (s.list_transactions req w) (λ page r' w' e next.
        sweep_pages-ends left fuel page.next_cursor r' w' h
          (omega (arith, lt, h req w page e next)))

  finished-ends :
      (start : Time) (o : Option ((SweepResult × Option Error) × W))
      → is_nil o ≡ false
      → is_nil (finished s start o) ≡ false
  unfolding finished
  finished-ends start none h = h
  finished-ends start (some (done, w)) h = refl

  run_window-ends :
      (left : String → ℕ) (fuel : ℕ) (start : Time) (q : Result Time × W)
      → Paged left
      → left "" < fuel
      → is_nil (run_window s fuel start q) ≡ false
  unfolding run_window
  run_window-ends left fuel start (err e, w) h lt = refl
  run_window-ends left fuel start (ok from, w) h lt =
      finished-ends start (sweep_pages s fuel "" (new_result from start) w)
        (sweep_pages-ends left fuel "" (new_result from start) w h lt)

  run_from-ends :
      (left : String → ℕ) (fuel : ℕ) (from : Option Time) (q : Result Time × W)
      → Paged left
      → left "" < fuel
      → is_nil (run_from s fuel from q) ≡ false
  run_from-ends left fuel from (err e, w) h lt = refl
  run_from-ends left fuel from (ok start, w) h lt =
      run_window-ends left fuel start (window_start s from start w) h lt

  -- A sweep ends: if only `left c` pages follow a cursor `c`, more fuel than follow the empty cursor
  -- brings every run to its end.
  pub run_sweep_ends :
      (left : String → ℕ)
      → Paged left
      → (fuel : ℕ) → left "" < fuel
      → (from : Option Time) (w : W) → is_nil (run_sweep s fuel from w) ≡ false
  unfolding run_sweep
  run_sweep_ends left h fuel lt from w = run_from-ends left fuel from (s.now w) h lt
