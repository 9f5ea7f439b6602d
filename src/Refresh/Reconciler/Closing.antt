-- ===== src/Refresh/Reconciler/Closing.antt =====
-- The rows of the runs after a tick.
use fd_open_data_mcp.Base.{
  nat_beq, nat_beq_iff, Bool-cases, get_default, map_option, filter_by, nat_eq, list_eq, pair_eq,
  Text, codes, Dict, get, get-put, get-map_values, ℕ, ◌≤◌, ◌≡◌, refl, sym, ap, ◌∙◌, subst, inl, inr,
  Bool, true, false, Option, none, some, [], ◌∷◌, arith,
}
use fd_open_data_mcp.Stream.Lease.{Queue}
use fd_open_data_mcp.Proxy.Circuit.Scan.{starts_with}
use fd_open_data_mcp.Refresh.Policy.{CrawlPolicy}
use fd_open_data_mcp.Refresh.Runs.{is_open, failed, PolicyRun, Runs, add_run}
use fd_open_data_mcp.Refresh.Reconciler.{
  State, JobState, job_running, job_success, job_failed, job_unknown, Environment,
}
use fd_open_data_mcp.Refresh.Reconciler.Probe.{
  yield_class, classify_yield, has_no_text, is_silent, synthesize_failure_detail, fallback_note,
  failure_detail, polled, probe_job, probe, probe_run, after_probe,
}
use fd_open_data_mcp.Refresh.Reconciler.Tick.{values, tick_policy, reconcile_once}
use fd_open_data_mcp.Refresh.Reconciler.Rows.{Adds, tick_policy-Adds, tick_loop-keeps}

-- No row stands at the next id or beyond.
abbrev pub IsFresh : Runs → Type 0
IsFresh runs = (k : ℕ) → runs.next_id ≤ k → get runs.rows k ≡ none

abbrev pub Kept : Dict ℕ PolicyRun → Dict ℕ PolicyRun → Type 0
Kept rows rows' = (k : ℕ) (r : PolicyRun) → get rows k ≡ some r → get rows' k ≡ some r

pub add_run-IsFresh : (runs : Runs) (r : PolicyRun) → IsFresh runs → IsFresh (add_run runs r)
add_run-IsFresh runs r f k h =
    rw (get-put runs.rows runs.next_id k r) (ground (arith, f k, nat_beq_iff runs.next_id k))

pub add_run-Kept :
    (runs : Runs) (r : PolicyRun) → IsFresh runs → Kept runs.rows (add_run runs r).rows
add_run-Kept runs r f k s h =
    rw (get-put runs.rows runs.next_id k r) (ground (arith, f k, h, nat_beq_iff runs.next_id k))

Adds-keep :
    (p : CrawlPolicy) (runs runs' : Runs)
    → Adds p runs runs'
    → IsFresh runs
    → IsFresh runs' × Kept runs.rows runs'.rows
Adds-keep p runs runs' (inl e) f =
    subst (λ (x : Runs). IsFresh x × Kept runs.rows x.rows) (sym e) (f, λ k r h. h)
Adds-keep p runs runs' (inr (r, e, own, single)) f =
    subst (λ (x : Runs). IsFresh x × Kept runs.rows x.rows) (sym e)
      (add_run-IsFresh runs r f, add_run-Kept runs r f)

-- The ids of the table are below the next one, and these rows are still there.
abbrev Holds : Dict ℕ PolicyRun → State → Type 0
Holds rows st = IsFresh st.runs × Kept rows st.runs.rows

tick_policy-Holds :
    (w : Environment) (now : ℕ) (rows : Dict ℕ PolicyRun) (st : State) (p : CrawlPolicy)
    → Holds rows st
    → Holds rows (tick_policy w st p now).0
tick_policy-Holds w now rows st p (f, kept) =
    let (f', kept') =
      Adds-keep p st.runs (tick_policy w st p now).0.runs (tick_policy-Adds w st p now) f in
    (f', λ k r h. kept' k r (kept k r h))

pub probe-rows :
    (w : Environment) (now : ℕ) (st : State) (k : ℕ)
    → get (probe w now st).1.runs.rows k
      ≡ map_option (after_probe w st.queues now k) (get st.runs.rows k)
unfolding probe
probe-rows w now st k = get-map_values (after_probe w st.queues now) st.runs.rows k

pub probe-IsFresh :
    (w : Environment) (now : ℕ) (st : State) → IsFresh st.runs → IsFresh (probe w now st).1.runs
unfolding probe
probe-IsFresh w now st f k h =
    get-map_values (after_probe w st.queues now) st.runs.rows k
    ∙ ap (map_option (after_probe w st.queues now k)) (f k h)

tick-Holds :
    (w : Environment) (st : State) (now : ℕ)
    → IsFresh st.runs
    → Holds (probe w now st).1.runs.rows (reconcile_once w st now).0
unfolding reconcile_once
tick-Holds w st now f =
    let after = (probe w now st).1 in
    tick_loop-keeps w now (Holds after.runs.rows)
      (filter_by (λ p. p.enabled) (values after.policies))
      (λ x p i. tick_policy-Holds w now after.runs.rows x p) after (probe w now st).0
      (probe-IsFresh w now st f, λ k r h. h)

-- After a tick, a run that was in the table before is exactly what the completion probe makes of it
-- on the queues before the tick: no launch of the tick changes it, even if an exception ends the
-- tick. The table has no row at the next id or beyond, and keeps that.
pub tick_rows :
    (w : Environment) (st : State) (now : ℕ)
    → IsFresh st.runs
    → IsFresh (reconcile_once w st now).0.runs
      × ((k : ℕ) (r : PolicyRun)
          → get st.runs.rows k ≡ some r
          → get (reconcile_once w st now).0.runs.rows k ≡ some (after_probe w st.queues now k r))
tick_rows w st now f =
    let (f', kept) = tick-Holds w st now f in
    (
      f',
      λ k r h.
          kept k (after_probe w st.queues now k r)
            (probe-rows w now st k ∙ ap (map_option (after_probe w st.queues now k)) h),
    )

yield_class-shut : (a n : Option ℕ) → is_open (yield_class a n) ≡ false
unfolding yield_class
yield_class-shut none n = refl
yield_class-shut (some a) none = refl
yield_class-shut (some a) (some n) = ground arith

pub classify_yield-shut : (r : PolicyRun) → is_open (classify_yield r) ≡ false
unfolding classify_yield
classify_yield-shut r = elim (Bool-cases (nat_beq (get_default r.plan_cells 1) 0)) [
  | inl z ↦ rw z refl
  | inr z ↦ rw z (yield_class-shut r.rows_attempted r.rows_new)
]

-- The row of a run that ends with its job.
abbrev pub Ended : Environment → ℕ → Text → PolicyRun → PolicyRun → Type 0
Ended w now job r r' =
    (is_open r'.status ≡ false)
    × (r'.finished_at ≡ some now)
    × (w.poll job ≡ job_success → r'.status ≡ classify_yield r)
    × (w.poll job ≡ job_failed
        → (r'.status ≡ failed) × (is_silent r ≡ true → has_no_text r'.detail ≡ false))

abbrev pub has_ended : JobState → Bool
has_ended job_success = true
has_ended job_failed = true
has_ended job_running = false
has_ended job_unknown = false

synthesized :
    (w : Environment) (job : Text) → has_no_text (some (synthesize_failure_detail w job)) ≡ false
unfolding synthesize_failure_detail fallback_note
synthesized w job = go (w.diagnose job)
  where
    go : (t : Text) → has_no_text (some (elim t [ [] ↦ fallback_note job | c ∷ s ↦ c ∷ s ])) ≡ false
    go [] = refl
    go (c ∷ s) = refl

failure_detail-silent :
    (w : Environment) (job : Text) (r : PolicyRun)
    → is_silent r ≡ true
    → has_no_text (failure_detail w job r) ≡ false
unfolding failure_detail
failure_detail-silent w job r h = rw h (synthesized w job)

is_failed : JobState → Bool
is_failed job_failed = true
is_failed job_success = false
is_failed job_running = false
is_failed job_unknown = false

differ : job_failed ≡ job_success → ⊥
unfolding is_failed
differ e = absurd (cc (ap is_failed e))

polled-Ended :
    (w : Environment) (now : ℕ) (job : Text) (r : PolicyRun) (s : JobState)
    → w.poll job ≡ s
    → has_ended s ≡ true
    → (r' : PolicyRun) × (polled w now job r s ≡ some r') × Ended w now job r r'
unfolding polled
polled-Ended w now job r job_success e h =
    (_, refl, (classify_yield-shut r, refl, λ s. refl, λ f. absurd (differ (sym f ∙ e))))
polled-Ended w now job r job_failed e h = (
  _,
  refl,
  (refl, refl, λ s. absurd (differ (sym e ∙ s)), λ f. (refl, failure_detail-silent w job r)),
)
polled-Ended w now job r job_running e h = cc h
polled-Ended w now job r job_unknown e h = cc h

pub probed_lem :
    (w : Environment) (queues : Dict ℕ Queue) (now k : ℕ) (r : PolicyRun)
    → after_probe w queues now k r ≡ get_default (probe_run w queues now k r) r
unfolding after_probe
probed_lem w queues now k r = refl

probe-launcher :
    (w : Environment) (queues : Dict ℕ Queue) (now k c : ℕ) (job : Text) (r : PolicyRun)
    → is_open r.status ≡ true
    → r.job_ref ≡ some (c ∷ job)
    → starts_with (codes "lease:") (c ∷ job) ≡ false
    → probe_run w queues now k r ≡ polled w now (c ∷ job) r (w.poll (c ∷ job))
unfolding probe_run probe_job
probe-launcher w queues now k c job r o j l = rw (o, j, l) refl

-- A run with a job that has ended is closed by the next tick: its row is closed and finished now;
-- if the job succeeded its status is the class of its yield; and if it failed its status is failed,
-- with a detail that is not empty where the row had neither a detail nor a counter.
pub job_closed :
    (w : Environment) (st : State) (now k c : ℕ) (job : Text) (r : PolicyRun)
    → IsFresh st.runs
    → get st.runs.rows k ≡ some r
    → is_open r.status ≡ true
    → r.job_ref ≡ some (c ∷ job)
    → starts_with (codes "lease:") (c ∷ job) ≡ false
    → has_ended (w.poll (c ∷ job)) ≡ true
    → (r' : PolicyRun) × (get (reconcile_once w st now).0.runs.rows k ≡ some r')
      × Ended w now (c ∷ job) r r'
job_closed w st now k c job r f h o j l e =
    let (r', q, ended) = polled-Ended w now (c ∷ job) r (w.poll (c ∷ job)) refl e in
    (
      r',
      (tick_rows w st now f).1 k r h
          ∙ ap some (
              probed_lem w st.queues now k r
              ∙ ap (λ x. get_default x r) (probe-launcher w st.queues now k c job r o j l ∙ q)),
      ended,
    )
