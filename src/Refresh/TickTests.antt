-- ===== src/Refresh/TickTests.antt =====
-- Ticks of the reconciler at concrete inputs.
use fd_open_data_mcp.Base.{
  In, nat_eq, list_eq, pair_eq, codes, contains, get, put, remove, str, Date, date_lt, sorted_set,
  ℕ, ◌+◌, ◌≡◌, refl, ◌⊎◌, inl, true, false, Option, none, some, List, [], ◌∷◌, arith,
}
use fd_open_data_mcp.Crawl.Plan.{PlanConcept, CrawlPlan}
use fd_open_data_mcp.Crawl.Split.{sub_plan, split_plan}
use fd_open_data_mcp.Crawl.Estimate.{estimate_fetches}
use fd_open_data_mcp.Proxy.Circuit.Scan.{starts_with}
use fd_open_data_mcp.Stream.Lease.{WorkItem, claim, ack}
use fd_open_data_mcp.Stream.Lease.Conservation.{QueueOp, claims, acks}
use fd_open_data_mcp.Refresh.Policy.{CrawlPolicy, build_date_range, frozen_window}
use fd_open_data_mcp.Refresh.Policy.Window.{window_open}
use fd_open_data_mcp.Refresh.Runs.{running, zero_yield, policy, PolicyRun, starts, closed}
use fd_open_data_mcp.Refresh.Reconciler.{State, Environment, job_failed}
use fd_open_data_mcp.Refresh.Reconciler.Probe.{after_probe, lease_queue_for}
use fd_open_data_mcp.Refresh.Reconciler.Launch.{
  launched_job, work_items, launch_leasing, launch_policy,
}
use fd_open_data_mcp.Refresh.Reconciler.Tick.{reconcile_once}
use fd_open_data_mcp.Refresh.Reconciler.Closing.{IsFresh, Ended, tick_rows, job_closed}
use fd_open_data_mcp.Refresh.Reconciler.SingleFlight.{IsSingle}
use fd_open_data_mcp.Refresh.Reconciler.Guardrail.{IsAllowed, tick_calls}
use fd_open_data_mcp.Refresh.Reconciler.Outcomes.{Recorded, launch_accounted}
use fd_open_data_mcp.Refresh.Events.{Event, ticks, cancels, apply_events}
use fd_open_data_mcp.Refresh.Events.Finality.{one_open_run, cancelled_final}
use fd_open_data_mcp.Refresh.Events.Leasing.{worked, lease_run_done}

abbrev crashed : PolicyRun
crashed = record {
  policy_id = some 4;
  origin = policy;
  status = running;
  plan_json = none;
  job_ref = some (codes "job-1");
  cluster_id = none;
  started_at = 10;
  finished_at = none;
  detail = none;
  plan_cells = some 9;
  rows_attempted = none;
  rows_new = none;
  cancelled_by = none;
}

abbrev close_price : PlanConcept
close_price = record {
  concept_id = 1;
  code = codes "price.close";
  entity_type = codes "stock";
  unit = none;
  frequency = none;
  granularity = none;
  ranked_sources = [];
}

abbrev today : Date
today = record { year = 2024; month = 3; day = 1 }

abbrev plan : CrawlPlan
plan = record {
  version = codes "1";
  mode = codes "series";
  wanted_concepts = close_price ∷ [];
  entity_scope = record {
    entity_type = codes "stock";
    entity_ids = some (7 ∷ 8 ∷ 9 ∷ []);
    filter = none;
  };
  date_range = record { start = none; end = today; frequency = none };
  unroutable = [];
  unmapped = [];
  truncated = [];
  suppressed = [];
  persistence = [];
  plan_cells = none;
}

abbrev daily : CrawlPolicy
daily = record {
  id = 4;
  name = codes "daily";
  enabled = true;
  concept_ids = 1 ∷ [];
  entity_type = codes "stock";
  entity_ids = none;
  date_policy = record {
    window_mode = some (codes "trailing");
    days = some 30;
    start = none;
    end = none;
  };
  frequency = codes "daily";
  mode = codes "series";
  source_filter = none;
  force = false;
  executor = codes "scrapy";
  launcher = codes "auto";
  script = none;
  cron_expr = codes "0 1 * * *";
  timezone = codes "UTC";
  last_run_at = some 10;
  created_at = none;
}

-- Each job has failed with no trace, and a launch starts job 2; a policy is due an hour after its
-- last run, and an item holds two cells.
abbrev world : Environment
world = record {
  launch = λ plan p. starts (codes "job-2") none;
  poll = λ job. job_failed;
  diagnose = λ job. [];
  plan_crawl = λ ids scope range since sources mode. some plan;
  next_fire = λ cron zone base. base + 3600;
  local_date = λ zone now. today;
  clock_ms = 5;
  dump_json = λ p. codes "{}";
  session = [];
  max_fetches = 5;
}

abbrev state : State
state = record {
  runs = record { rows = (1, crashed) ∷ []; next_id = 2; mirrored = []; delete_calls = [] };
  policies = (4, daily) ∷ [];
  queues = [];
  launch_calls = [];
}

-- The tick closes the crashed run, and then launches the policy anew.
ticked : (reconcile_once world state 9000).1 ≡ record {
  probed_closed = 1;
  results = (4, launched_job (codes "job-2") (some 3)) ∷ [];
  ended = false;
}
unfolding reconcile_once starts_with get put estimate_fetches
ticked = refl

fresh : IsFresh state.runs
unfolding get
fresh k h = ground (arith, h)

single : IsSingle state.runs
single = (fresh, λ i. ground arith)

tick_rows_example :
    IsFresh (reconcile_once world state 9000).0.runs
    × ((k : ℕ) (r : PolicyRun)
        → get state.runs.rows k ≡ some r
        → get (reconcile_once world state 9000).0.runs.rows k
          ≡ some (after_probe world [] 9000 k r))
tick_rows_example = tick_rows world state 9000 fresh

found_crashed : get state.runs.rows 1 ≡ some crashed
unfolding get
found_crashed = refl

of_launcher : starts_with (codes "lease:") (codes "job-1") ≡ false
unfolding starts_with
of_launcher = refl

job_closed_example :
    (r' : PolicyRun) × (get (reconcile_once world state 9000).0.runs.rows 1 ≡ some r')
    × Ended world 9000 (codes "job-1") crashed r'
job_closed_example =
    job_closed world state 9000 1 106 (codes "ob-1") crashed fresh found_crashed refl refl
      of_launcher refl

abbrev launch_call : CrawlPolicy × Option CrawlPlan
launch_call = (daily, some plan)

was_called : In launch_call (reconcile_once world state 9000).0.launch_calls
unfolding reconcile_once starts_with get put estimate_fetches
was_called = inl refl

tick_calls_example : In launch_call [] ⊎ IsAllowed world 9000 launch_call
tick_calls_example = tick_calls world state 9000 launch_call was_called

abbrev shift : List Event
shift = ticks world 9000 ∷ cancels 2 none none 9100 ∷ ticks world 20000 ∷ []

one_open_run_example : IsSingle (apply_events shift state).runs
one_open_run_example = one_open_run shift state single

cancelled_final_example :
    get (apply_events (cancels 1 none none 20 ∷ shift) state).runs.rows 1
    ≡ some (closed 20 none crashed)
cancelled_final_example =
    cancelled_final shift state 1 crashed none none 20 single found_crashed refl

window_open_example : date_lt (build_date_range daily today).0.end today ≡ false
unfolding frozen_window
window_open_example = window_open daily today refl

-- Two cells an item.
abbrev small : Environment
small = record world { max_fetches = 2 }

abbrev items : List CrawlPlan
items = sub_plan plan 1 (7 ∷ 8 ∷ []) ∷ sub_plan plan 1 (9 ∷ []) ∷ []

split : split_plan small.session plan small.max_fetches ≡ some items
unfolding split_plan sorted_set
split = refl

abbrev ops : List QueueOp
ops =
    claims 0 (codes "t1") 10
    ∷ claims 0 (codes "t2") 10
    ∷ acks (codes "2:1") (codes "t2")
    ∷ acks (codes "2:0") (codes "t1")
    ∷ []

abbrev leased_state : State
leased_state = apply_events (worked 2 ops) (launch_leasing small state daily plan 20).0

abbrev drained_run : PolicyRun
drained_run = record crashed {
  plan_json = some plan;
  job_ref = some (codes "lease:4");
  plan_cells = none;
  status = zero_yield;
  started_at = 20;
  finished_at = some 9000;
}

found_drained : get (reconcile_once small leased_state 9000).0.runs.rows 2 ≡ some drained_run
unfolding reconcile_once launch_leasing apply_events split_plan sorted_set starts_with get put
    remove str ack claim estimate_fetches
found_drained = refl

no_queue : get state.queues state.runs.next_id ≡ none
unfolding get
no_queue = refl

abbrev first_item : WorkItem
first_item = record {
  item_id = codes "2:0";
  run_id = 2;
  policy_id = 4;
  plan_json = codes "{}";
  schema_v = 1;
  enqueued_at_ms = 5;
}

first_item-In : In first_item (work_items small 2 4 0 items)
unfolding work_items str
first_item-In = inl refl

lease_run_done_example : contains (lease_queue_for leased_state.queues 2).done (codes "2:0") ≡ true
lease_run_done_example =
    lease_run_done small small state daily plan (sub_plan plan 1 (7 ∷ 8 ∷ []))
      (sub_plan plan 1 (9 ∷ []) ∷ []) 20 9000 ops drained_run fresh no_queue split (λ id. refl)
      found_drained refl first_item first_item-In

-- The policy with the launcher that leases.
abbrev leasing_daily : CrawlPolicy
leasing_daily = record daily { id = 9; launcher = codes "leasing" }

launch_accounted_example :
    Recorded small 9000 leasing_daily state (launch_policy small state leasing_daily 9000)
launch_accounted_example = launch_accounted small state leasing_daily 9000
