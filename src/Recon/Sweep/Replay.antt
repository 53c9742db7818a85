-- ===== src/Recon/Sweep/Replay.antt =====
-- The pages of a sweep of internal/recon/sweep.go, over the in-memory stores.
use vaultnuban.Prelude.{
  ℕ, String, List, [], ◌∷◌, Option, some, true, false, not, ◌||◌, ◌&&◌, ◌≡◌, refl, inl, inr, ◌∙◌,
  ap, arith, Bool-cases, All,
}
use vaultnuban.Prelude.Word.{Int64, le64}
use vaultnuban.Prelude.Text.{str_eq, str_eq_refl}
use vaultnuban.Prelude.Action.{M, Result, ok, err}
use vaultnuban.Domain.{Bytes}
use vaultnuban.Provider.{ProviderTransaction, TransactionPage, ListTransactionsRequest}
use vaultnuban.Config.{TierLimits}
use vaultnuban.Memstore.World.{World, mem_txns, mem_sweeps, mem_now}
use vaultnuban.Memstore.Transactions.{TransactionStore}
use vaultnuban.Memstore.Transactions.Post.{is_posted}
use vaultnuban.Memstore.Transactions.Replay.{Posting, is_posted-extended}
use vaultnuban.Recon.Direct.{ProcessResult, process_direct}
use vaultnuban.Recon.Memory.{mem_worker, route}
use vaultnuban.Recon.Memory.Credit.{with_payment, record_of, lines_for}
use vaultnuban.Recon.Memory.Outcome.{KeepsMoney}
use vaultnuban.Recon.Sweep.{
  SweepRunner, SweepResult, tallied, build_work_item, refreshed, sweep_one, sweep_page,
}
use vaultnuban.Recon.Sweep.Memory.{process_direct_outcome}

-- A transaction that the sweep takes as it is listed.
abbrev pub IsMatchable : ProviderTransaction → Type 0
IsMatchable pt =
    (str_eq pt.account_number "" && str_eq pt.account_ref "" && not (str_eq pt.session_id ""))
    ≡ false

-- Nothing is left to add for it.
abbrev pub IsBooked : ProviderTransaction → TransactionStore → Type 0
IsBooked pt s = (le64 pt.amount_kobo 0 || is_posted pt.transaction_id s) ≡ true

abbrev pub mem_sweeper :
    TierLimits
    → Option (String → String → ProviderTransaction → M World (Unit {0}))
    → Option (String → String → Int64 → M World (Unit {0}))
    → (ListTransactionsRequest → M World TransactionPage)
    → (String → M World ProviderTransaction)
    → ℕ
    → ℕ
    → (ProviderTransaction → Bytes)
    → SweepRunner World
mem_sweeper limits dispatch try_fulfill list requery interval overlap marshal = record {
  list_transactions = list;
  requery = requery;
  txns = mem_txns;
  sweeps = mem_sweeps;
  worker = mem_worker limits dispatch try_fulfill;
  interval = interval;
  overlap = overlap;
  now = mem_now;
  marshal = marshal;
}

module _ (limits : TierLimits)
    (dispatch : Option (String → String → ProviderTransaction → M World (Unit {0})))
    (try_fulfill : Option (String → String → Int64 → M World (Unit {0})))
    (fulfil_keeps : (f : String → String → Int64 → M World (Unit {0}))
      → try_fulfill ≡ some f
      → (va tx : String) (amount : Int64) → KeepsMoney (f va tx amount))
    (list : ListTransactionsRequest → M World TransactionPage)
    (requery : String → M World ProviderTransaction) (interval overlap : ℕ)
    (marshal : ProviderTransaction → Bytes) where
  abbrev sw : SweepRunner World
  sw = mem_sweeper limits dispatch try_fulfill list requery interval overlap marshal

  -- The state after one transaction.
  abbrev after_one : ProviderTransaction → World → World
  after_one pt w =
      (process_direct (mem_worker limits dispatch try_fulfill) (build_work_item sw pt) w).1

  sweep_one-state :
      (pt : ProviderTransaction) (r : SweepResult) (w : World)
      → IsMatchable pt
      → (sweep_one sw pt r w).1 ≡ after_one pt w
  unfolding sweep_one refreshed
  sweep_one-state pt r w direct =
      rw direct
        (go (process_direct (mem_worker limits dispatch try_fulfill) (build_work_item sw pt) w))
    where
      go : (q : Result ProcessResult × World) → (tallied sw r q).1 ≡ q.1
      go (ok done, w') = refl
      go (err e, w') = refl

  booked_stays :
      (pt : ProviderTransaction) (w : World)
      → IsBooked pt w.txns
      → ((after_one pt w).txns ≡ w.txns) × ((after_one pt w).suspense ≡ w.suspense)
  booked_stays pt w h =
      let out =
        process_direct_outcome limits dispatch try_fulfill fulfil_keeps (build_work_item sw pt) w
          refl in
      (out.0 ∙ rw h refl, out.1 ∙ rw h refl)

  one_adds :
      (pt : ProviderTransaction) (w : World)
      → (le64 pt.amount_kobo 0 || is_posted pt.transaction_id w.txns) ≡ false
      → let item = build_work_item sw pt in
        (after_one pt w).txns ≡ (with_payment limits item item.payload.transaction w).txns
  one_adds pt w new =
      (process_direct_outcome limits dispatch try_fulfill fulfil_keeps (build_work_item sw pt) w
        refl).0
      ∙ rw new refl

  -- A transaction that is not booked is in the ledger afterwards, and no id gets lost.
  is_posted-one :
      (id : String) (pt : ProviderTransaction) (w : World)
      → (le64 pt.amount_kobo 0 || is_posted pt.transaction_id w.txns) ≡ false
      → is_posted id (after_one pt w).txns ≡ (str_eq id pt.transaction_id || is_posted id w.txns)
  is_posted-one id pt w new =
      let item = build_work_item sw pt in
      let p = item.payload.transaction in
      let call : Posting = record {
        now = w.clock;
        tx = record_of limits item p w;
        entries = lines_for p (route limits p w);
      } in
      ap (is_posted id) (one_adds pt w new) ∙ is_posted-extended id call w.txns

  one_books : (pt : ProviderTransaction) (w : World) → IsBooked pt (after_one pt w).txns
  one_books pt w = elim (Bool-cases (le64 pt.amount_kobo 0 || is_posted pt.transaction_id w.txns)) [
    | inl booked ↦ rw (booked_stays pt w booked).0 booked
    | inr new ↦
        ground (arith, is_posted-one pt.transaction_id pt w new, str_eq_refl pt.transaction_id)
  ]

  one_keeps :
      (q pt : ProviderTransaction) (w : World)
      → IsBooked q w.txns
      → IsBooked q (after_one pt w).txns
  one_keeps q pt w h =
      elim (Bool-cases (le64 pt.amount_kobo 0 || is_posted pt.transaction_id w.txns)) [
        | inl booked ↦ rw (booked_stays pt w booked).0 h
        | inr new ↦ ground (arith, is_posted-one q.transaction_id pt w new)
      ]

  page_keeps :
      (q : ProviderTransaction) (pts : List ProviderTransaction) (r : SweepResult) (w : World)
      → All IsMatchable pts
      → IsBooked q w.txns
      → IsBooked q (sweep_page sw pts r w).1.txns
  unfolding sweep_page
  page_keeps q [] r w direct h = h
  page_keeps q (pt ∷ pts) r w direct h =
      let one = sweep_one sw pt r w in
      page_keeps q pts one.0 one.1 direct.1
        (rw (sweep_one-state pt r w direct.0) (one_keeps q pt w h))

  -- A page whose transactions are booked changes neither ledger nor suspense list.
  page_stays :
      (pts : List ProviderTransaction) (r : SweepResult) (w : World)
      → All IsMatchable pts
      → All (λ pt. IsBooked pt w.txns) pts
      → let w' = (sweep_page sw pts r w).1 in (w'.txns ≡ w.txns) × (w'.suspense ≡ w.suspense)
  unfolding sweep_page
  page_stays [] r w direct h = (refl, refl)
  page_stays (pt ∷ pts) r w direct h =
      let one = sweep_one sw pt r w in
      let same = sweep_one-state pt r w direct.0 in
      let kept = booked_stays pt w h.0 in
      let txns : one.1.txns ≡ w.txns = ap (λ v. v.txns) same ∙ kept.0 in
      let suspense : one.1.suspense ≡ w.suspense = ap (λ v. v.suspense) same ∙ kept.1 in
      let rest = page_stays pts one.0 one.1 direct.1 (rw txns h.1) in
      (rest.0 ∙ txns, rest.1 ∙ suspense)

  -- After a page whose transactions come with the fields to match them by, each transaction of a
  -- positive amount is in the ledger. The collection check is assumed to leave ledger and suspense list
  -- alone.
  pub sweep_page_books :
      (pts : List ProviderTransaction) (r : SweepResult) (w : World)
      → All IsMatchable pts
      → All (λ pt. IsBooked pt (sweep_page sw pts r w).1.txns) pts
  unfolding sweep_page
  sweep_page_books [] r w direct = tt
  sweep_page_books (pt ∷ pts) r w direct =
      let one = sweep_one sw pt r w in
      (
        page_keeps pt pts one.0 one.1 direct.1
            (rw (sweep_one-state pt r w direct.0) (one_books pt w)),
        sweep_page_books pts one.0 one.1 direct.1,
      )

  -- A second sweep over the same page leaves ledger and suspense list as the first one left them, if
  -- its transactions come with the fields to match them by. The collection check is assumed to leave
  -- ledger and suspense list alone.
  pub sweep_page-sweep_page :
      (pts : List ProviderTransaction) (r again : SweepResult) (w : World)
      → All IsMatchable pts
      → let w' = (sweep_page sw pts r w).1 in
        let w'' = (sweep_page sw pts again w').1 in
        (w''.txns ≡ w'.txns) × (w''.suspense ≡ w'.suspense)
  sweep_page-sweep_page pts r again w direct =
      page_stays pts again (sweep_page sw pts r w).1 direct (sweep_page_books pts r w direct)
