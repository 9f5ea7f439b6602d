-- ===== src/Refresh/Reconciler/Probe.antt =====
-- The completion probe of reconcile_once (fd_open_data_mcp/refresh/reconciler.py).
use fd_open_data_mcp.Proxy.Circuit.Scan.{starts_with}
use fd_open_data_mcp.Base.{
  collect, map_values, nat_beq, if◌then◌else◌, get_default, is_some, length, nat_eq, list_eq, Text,
  codes, Dict, get, ℕ, Bool, true, false, not, ◌&&◌, Option, none, some, List, [], ◌∷◌, ◌++◌,
}
use fd_open_data_mcp.Stream.Lease.{Queue, init, stats}
use fd_open_data_mcp.Refresh.Runs.{
  is_open, Status, success, failed, no_op, zero_yield, redundant, PolicyRun,
}
use fd_open_data_mcp.Refresh.Reconciler.{
  State, JobState, job_running, job_success, job_failed, job_unknown, Environment,
}

unfoldable pub yield_class : Option ℕ → Option ℕ → Status
yield_class none rows_new = zero_yield
yield_class (some attempted) none = zero_yield
yield_class (some attempted) (some new) =
    if nat_beq attempted 0 then zero_yield else if nat_beq new 0 then redundant else success

unfoldable pub classify_yield : PolicyRun → Status
unfolding yield_class
classify_yield run =
    if nat_beq (get_default run.plan_cells 1) 0
    then no_op
    else yield_class run.rows_attempted run.rows_new

unfoldable pub fallback_note : Text → Text
fallback_note job_ref =
    codes "job "
    ++ (job_ref
        ++ codes
            " failed before the runner checked in; pod 已回收，无终态可抓 (pod reclaimed, no terminal state to grab)")

unfoldable pub synthesize_failure_detail : Environment → Text → Text
unfolding fallback_note
synthesize_failure_detail w job_ref = elim (w.diagnose job_ref) [
  | [] ↦ fallback_note job_ref
  | c ∷ t ↦ c ∷ t
]

abbrev pub has_no_text : Option Text → Bool
has_no_text none = true
has_no_text (some []) = true
has_no_text (some (c ∷ t)) = false

-- Neither a text nor a counter.
abbrev pub is_silent : PolicyRun → Bool
is_silent run =
    has_no_text run.detail && (not (is_some run.rows_attempted) && not (is_some run.rows_new))

unfoldable pub failure_detail : Environment → Text → PolicyRun → Option Text
unfolding synthesize_failure_detail
failure_detail w job_ref run =
    if is_silent run then some (synthesize_failure_detail w job_ref) else run.detail

-- The row that a probe closes in this state of its job; `none` where the row stays open.
unfoldable pub polled : Environment → ℕ → Text → PolicyRun → JobState → Option PolicyRun
unfolding classify_yield failure_detail
polled w now job_ref run job_success =
    some (record run { status = classify_yield run; finished_at = some now })
polled w now job_ref run job_failed =
    some (record run {
      status = failed;
      detail = failure_detail w job_ref run;
      finished_at = some now;
    })
polled w now job_ref run job_running = none
polled w now job_ref run job_unknown = none

-- `lease_queue_for(run_id)` on `_MEMORY_QUEUES` of the process: an empty queue where there is none.
unfoldable pub lease_queue_for : Dict ℕ Queue → ℕ → Queue
lease_queue_for queues run_id = get_default (get queues run_id) init

unfoldable pub is_drained : Queue → Bool
unfolding stats
is_drained q = let (available, leased, done) = stats q in nat_beq available 0 && nat_beq leased 0

unfoldable pub probe_job :
    Environment → Dict ℕ Queue → ℕ → ℕ → PolicyRun → Option Text → Option PolicyRun
unfolding polled classify_yield lease_queue_for is_drained
probe_job w queues now id run none = none
probe_job w queues now id run (some []) = none
probe_job w queues now id run (some (c ∷ t)) =
    if starts_with (codes "lease:") (c ∷ t)
    then (if is_drained (lease_queue_for queues id)
        then some (record run { status = classify_yield run; finished_at = some now })
        else none)
    else polled w now (c ∷ t) run (w.poll (c ∷ t))

unfoldable pub probe_run : Environment → Dict ℕ Queue → ℕ → ℕ → PolicyRun → Option PolicyRun
unfolding probe_job
probe_run w queues now id run =
    if is_open run.status then probe_job w queues now id run run.job_ref else none

unfoldable pub after_probe : Environment → Dict ℕ Queue → ℕ → ℕ → PolicyRun → PolicyRun
unfolding probe_run
after_probe w queues now id run = get_default (probe_run w queues now id run) run

abbrev pub closed_id : Environment → Dict ℕ Queue → ℕ → ℕ × PolicyRun → Option ℕ
closed_id w queues now (id, run) = if is_some (probe_run w queues now id run) then some id else none

abbrev push_all : List ℕ → List ℕ → List ℕ
push_all [] ms = ms
push_all (i ∷ is) ms = push_all is (i ∷ ms)

-- The runs that are closed, mirrored in their order; the count of them is in the summary.
unfoldable pub probe : Environment → ℕ → State → ℕ × State
unfolding after_probe
probe w now st =
    let ids = collect (closed_id w st.queues now) st.runs.rows in
    (
      length ids,
      record st {
        runs = record st.runs {
          rows = map_values (after_probe w st.queues now) st.runs.rows;
          mirrored = push_all ids st.runs.mirrored;
        };
      },
    )
