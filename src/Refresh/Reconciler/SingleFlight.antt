-- ===== src/Refresh/Reconciler/SingleFlight.antt =====
-- The open runs of one policy.
use fd_open_data_mcp.Base.{
  if◌then◌else◌, nat_beq_iff, Bool-cases, get_default, filter_by, nat_eq, list_eq, pair_eq, Text,
  codes, Dict, get, put, map_values, ℕ, suc, ◌+◌, ◌≤◌, ◌≡◌, refl, sym, ap, ◌∙◌, subst, inl, inr,
  Bool, true, false, Option, none, some, [], ◌∷◌, arith,
}
use fd_open_data_mcp.Stream.Lease.{Queue}
use fd_open_data_mcp.Proxy.Circuit.Scan.{starts_with}
use fd_open_data_mcp.Refresh.Policy.{CrawlPolicy}
use fd_open_data_mcp.Refresh.Runs.{is_open, PolicyRun, Runs, add_run}
use fd_open_data_mcp.Refresh.Reconciler.{
  State, JobState, job_running, job_success, job_failed, job_unknown, Environment,
}
use fd_open_data_mcp.Refresh.Reconciler.Probe.{
  classify_yield, polled, is_drained, lease_queue_for, probe_job, probe, probe_run, after_probe,
}
use fd_open_data_mcp.Refresh.Reconciler.Launch.{is_open_run_of, has_open_run}
use fd_open_data_mcp.Refresh.Reconciler.Tick.{values, tick_policy, reconcile_once}
use fd_open_data_mcp.Refresh.Reconciler.Rows.{Adds, tick_policy-Adds, tick_loop-keeps}
use fd_open_data_mcp.Refresh.Reconciler.Closing.{
  IsFresh, add_run-IsFresh, probe-IsFresh, classify_yield-shut, probed_lem,
}

abbrev pub open_runs : ℕ → Dict ℕ PolicyRun → ℕ
open_runs i [] = 0
open_runs i ((k, r) ∷ rows) =
    let rest = open_runs i rows in if is_open_run_of i r then suc rest else rest

-- No policy has two open runs.
abbrev pub IsSingle : Runs → Type 0
IsSingle runs = IsFresh runs × ((i : ℕ) → open_runs i runs.rows ≤ 1)

has_open_run-none :
    (rows : Dict ℕ PolicyRun) (i : ℕ) → has_open_run rows i ≡ false → open_runs i rows ≡ 0
unfolding has_open_run
has_open_run-none [] i h = refl
has_open_run-none ((k, r) ∷ rows) i h = ground (arith, has_open_run-none rows i)

pub open_runs-put :
    (i : ℕ) (rows : Dict ℕ PolicyRun) (k : ℕ) (r : PolicyRun)
    → get rows k ≡ none
    → open_runs i (put rows k r) ≡ open_runs i rows + (if is_open_run_of i r then 1 else 0)
unfolding get put
open_runs-put i [] k r h = ground arith
open_runs-put i ((j, s) ∷ rows) k r h = ground (arith, open_runs-put i rows k r)

same_policy : (i j : ℕ) (r : PolicyRun) → r.policy_id ≡ some j → is_open_run_of i r ≡ true → i ≡ j
same_policy i j r own h = ground (arith, nat_beq_iff j i, own)

pub open_run-status : (i : ℕ) (r : PolicyRun) → is_open_run_of i r ≡ true → is_open r.status ≡ true
open_run-status i r h = ground (arith, h)

add_run-IsSingle :
    (p : CrawlPolicy) (runs : Runs) (r : PolicyRun)
    → r.policy_id ≡ some p.id
    → (is_open r.status ≡ true → has_open_run runs.rows p.id ≡ false)
    → IsSingle runs
    → IsSingle (add_run runs r)
add_run-IsSingle p runs r own single (f, s) = (add_run-IsFresh runs r f, λ i. bound i)
  where
    bound : (i : ℕ) → open_runs i (add_run runs r).rows ≤ 1
    bound i = elim (Bool-cases (is_open_run_of i r)) [
      | inl o ↦
          let none_open = has_open_run-none runs.rows p.id (single (open_run-status i r o)) in
          let same = ap (λ k. open_runs k runs.rows) (same_policy i p.id r own o) in
          rw (open_runs-put i runs.rows runs.next_id r (f runs.next_id (omega arith)), o)
            (omega (arith, none_open, same))
      | inr o ↦
          rw (open_runs-put i runs.rows runs.next_id r (f runs.next_id (omega arith)), o)
            (omega (arith, s i))
    ]

Adds-IsSingle :
    (p : CrawlPolicy) (runs runs' : Runs) → Adds p runs runs' → IsSingle runs → IsSingle runs'
Adds-IsSingle p runs runs' (inl e) h = subst IsSingle (sym e) h
Adds-IsSingle p runs runs' (inr (r, e, own, single)) h =
    subst IsSingle (sym e) (add_run-IsSingle p runs r own single h)

open_runs-map_values :
    (f : ℕ → PolicyRun → PolicyRun)
    → ((k i : ℕ) (r : PolicyRun) → is_open_run_of i (f k r) ≡ true → is_open_run_of i r ≡ true)
    → (i : ℕ) (rows : Dict ℕ PolicyRun) → open_runs i (map_values f rows) ≤ open_runs i rows
open_runs-map_values f shut i [] = omega arith
open_runs-map_values f shut i ((k, r) ∷ rows) =
    ground (arith, shut k i r, open_runs-map_values f shut i rows)

-- A probe that leaves the run open leaves the row as it is.
abbrev StaysSame : Option PolicyRun → PolicyRun → Type 0
StaysSame o r = is_open (get_default o r).status ≡ true → get_default o r ≡ r

polled-open :
    (w : Environment) (now : ℕ) (job : Text) (r : PolicyRun) (s : JobState)
    → StaysSame (polled w now job r s) r
unfolding polled
polled-open w now job r job_running h = refl
polled-open w now job r job_unknown h = refl
polled-open w now job r job_failed h = cc h
polled-open w now job r job_success h = cc (h, classify_yield-shut r)

lease-open :
    (r : PolicyRun) (now : ℕ) (drained : Bool)
    → StaysSame
        (if drained
          then some (record r { status = classify_yield r; finished_at = some now })
          else none)
        r
lease-open r now true h = cc (h, classify_yield-shut r)
lease-open r now false h = refl

probe_job-open :
    (w : Environment) (queues : Dict ℕ Queue) (now id : ℕ) (r : PolicyRun) (o : Option Text)
    → StaysSame (probe_job w queues now id r o) r
unfolding probe_job
probe_job-open w queues now id r none = λ h. refl
probe_job-open w queues now id r (some []) = λ h. refl
probe_job-open w queues now id r (some (c ∷ t)) =
    elim (Bool-cases (starts_with (codes "lease:") (c ∷ t))) [
      | inl l ↦ rw l (lease-open r now (is_drained (lease_queue_for queues id)))
      | inr l ↦ rw l (polled-open w now (c ∷ t) r (w.poll (c ∷ t)))
    ]

probe_run-open :
    (w : Environment) (queues : Dict ℕ Queue) (now id : ℕ) (r : PolicyRun)
    → StaysSame (probe_run w queues now id r) r
unfolding probe_run
probe_run-open w queues now id r = elim (Bool-cases (is_open r.status)) [
  | inl o ↦ rw o (probe_job-open w queues now id r r.job_ref)
  | inr o ↦ rw o (λ h. refl)
]

after_probe-shut :
    (w : Environment) (queues : Dict ℕ Queue) (now k i : ℕ) (r : PolicyRun)
    → is_open_run_of i (after_probe w queues now k r) ≡ true
    → is_open_run_of i r ≡ true
after_probe-shut w queues now k i r h =
    let e = probed_lem w queues now k r in
    let same =
      probe_run-open w queues now k r
        (ap (λ x. is_open x.status) (sym e) ∙ open_run-status i (after_probe w queues now k r) h) in
    ap (is_open_run_of i) (sym (e ∙ same)) ∙ h

open_runs-probe :
    (w : Environment) (now : ℕ) (st : State) (i : ℕ)
    → open_runs i (probe w now st).1.runs.rows ≤ open_runs i st.runs.rows
unfolding probe
open_runs-probe w now st i =
    open_runs-map_values (after_probe w st.queues now)
      (λ k j r. after_probe-shut w st.queues now k j r) i st.runs.rows

probe-IsSingle :
    (w : Environment) (now : ℕ) (st : State) → IsSingle st.runs → IsSingle (probe w now st).1.runs
probe-IsSingle w now st (f, s) = (probe-IsFresh w now st f, λ i. bound i)
  where
    bound : (i : ℕ) → open_runs i (probe w now st).1.runs.rows ≤ 1
    bound i = omega (arith, open_runs-probe w now st i, s i)

-- A tick keeps the invariant that no policy has two open runs, whatever the launcher, the planner
-- and the queues do, and even if an exception ends the tick.
pub tick-IsSingle :
    (w : Environment) (st : State) (now : ℕ)
    → IsSingle st.runs
    → IsSingle (reconcile_once w st now).0.runs
unfolding reconcile_once
tick-IsSingle w st now h =
    let after = (probe w now st).1 in
    tick_loop-keeps w now (λ (x : State). IsSingle x.runs)
      (filter_by (λ p. p.enabled) (values after.policies))
      (λ x p i. Adds-IsSingle p x.runs (tick_policy w x p now).0.runs (tick_policy-Adds w x p now))
      after (probe w now st).0 (probe-IsSingle w now st h)
