-- ===== src/Refresh/Events.antt =====
-- Interleavings of the steps on the runs: ticks of the reconciler, cancels and ad-hoc launches of
-- fd_open_data_mcp/refresh/runs.py, and the operations of workers on the queue of a run. The code that
-- launches and probes leased runs has no Redis client, so their queues are memory of one process: the
-- steps between two restarts are those of a process that does both the ticks and the work.
pub mod Finality
pub mod Leasing
pub mod Restart
use fd_open_data_mcp.Base.{
  nat_eq, list_eq, pair_eq, Text, put, ℕ, Option, none, some, List, [], ◌∷◌,
}
use fd_open_data_mcp.Crawl.Plan.{CrawlPlan}
use fd_open_data_mcp.Stream.Lease.Conservation.{QueueOp, apply_op}
use fd_open_data_mcp.Refresh.Runs.{Runs, AdhocResult, LaunchCall, Delete, cancel_run, launch_adhoc}
use fd_open_data_mcp.Refresh.Reconciler.{State, Environment}
use fd_open_data_mcp.Refresh.Reconciler.Probe.{lease_queue_for}
use fd_open_data_mcp.Refresh.Reconciler.Tick.{reconcile_once}

pub data Event : Type 0 where
  ticks : Environment → ℕ → Event
  cancels : ℕ → Option Text → Option Delete → ℕ → Event
  launches : Environment → CrawlPlan → LaunchCall → ℕ → Event
  works : ℕ → QueueOp → Event
  restarts : Event

-- An ad-hoc launch that raises leaves the runs as they are.
abbrev pub runs_after : Runs → Option (Runs × AdhocResult) → Runs
runs_after runs none = runs
runs_after runs (some (runs', result)) = runs'

unfoldable pub apply_event : Event → State → State
unfolding reconcile_once cancel_run launch_adhoc apply_op lease_queue_for
apply_event (ticks w now) st = (reconcile_once w st now).0
apply_event (cancels id actor launcher now) st = record st {
  runs = (cancel_run st.runs id actor launcher now).0;
}
apply_event (launches w plan call now) st = record st {
  runs = runs_after st.runs (launch_adhoc st.runs w.session plan w.max_fetches call now);
}
apply_event (works run_id op) st = record st {
  queues = put st.queues run_id (apply_op op (lease_queue_for st.queues run_id));
}
-- `_MEMORY_QUEUES` of a new process is empty.
apply_event restarts st = record st { queues = [] }

unfoldable pub apply_events : List Event → State → State
unfolding apply_event
apply_events [] st = st
apply_events (e ∷ es) st = apply_events es (apply_event e st)
