-- ===== src/Refresh/Reconciler/Launch.antt =====
-- launch_policy, _launch_direct and _launch_leasing of fd_open_data_mcp/refresh/reconciler.py.
use fd_open_data_mcp.Base.{
  ltb, nat_beq, if◌then◌else◌, length, nat_eq, list_eq, ◌==◌, list_beq, Text, codes, Dict, put, str,
  ℕ, suc, Bool, false, not, ◌&&◌, ◌||◌, Option, none, some, List, [], ◌∷◌, ◌++◌,
}
use fd_open_data_mcp.Crawl.Plan.{CrawlPlan}
use fd_open_data_mcp.Crawl.Split.{split_plan}
use fd_open_data_mcp.Crawl.Estimate.{estimate_fetches}
use fd_open_data_mcp.Stream.Lease.{WorkItem, enqueue}
use fd_open_data_mcp.Refresh.Policy.{CrawlPolicy, build_date_range}
use fd_open_data_mcp.Refresh.Runs.{
  is_open, success, failed, policy, PolicyRun, add_run, LaunchCall, raises, starts, started_run,
  ended_run, refusal,
}
use fd_open_data_mcp.Refresh.Reconciler.{State, Environment}
use fd_open_data_mcp.Refresh.Reconciler.Probe.{lease_queue_for}

-- The dicts that a launch gives, by their status; `raised` is an exception of the planner or of the
-- split, which no handler catches.
pub data LaunchResult : Type 0 where
  launched_job : Text → Option ℕ → LaunchResult
  launched_items : ℕ → ℕ → ℕ → LaunchResult
  launched_nothing : LaunchResult
  skipped : LaunchResult
  refused : Text → LaunchResult
  raised : LaunchResult

abbrev pub is_open_run_of : ℕ → PolicyRun → Bool
is_open_run_of policy_id run =
    is_open run.status && elim run.policy_id [ none ↦ false | some i ↦ nat_beq i policy_id ]

-- `_open_run` is not None
unfoldable pub has_open_run : Dict ℕ PolicyRun → ℕ → Bool
has_open_run [] policy_id = false
has_open_run ((i, run) ∷ rows) policy_id =
    is_open_run_of policy_id run || has_open_run rows policy_id

-- A row for the policy is added, and its last run is now.
unfoldable pub record_run : State → CrawlPolicy → PolicyRun → ℕ → State
record_run st p run now = record st {
  runs = add_run st.runs run;
  policies = put st.policies p.id (record p { last_run_at = some now });
}

-- A run that is refused: a row that is failed from the start.
unfoldable pub refuse : State → CrawlPolicy → Option CrawlPlan → Text → ℕ → State × LaunchResult
unfolding record_run
refuse st p plan detail now =
    (record_run st p (ended_run (some p.id) policy failed plan now detail) now, refused detail)

-- What follows a launch call, with the plan, its cells and the estimate that is given back.
unfoldable pub after_launch :
    State
    → CrawlPolicy
    → Option CrawlPlan
    → Option ℕ
    → Option ℕ
    → LaunchCall
    → ℕ
    → State × LaunchResult
unfolding refuse record_run
after_launch st p plan cells estimate (raises e) now =
    refuse st p plan (codes "launch failed: " ++ e) now
after_launch st p plan cells estimate (starts job cluster) now = (
  record_run st p (started_run (some p.id) policy plan cells job cluster now) now,
  launched_job job estimate,
)

abbrev pub called : State → CrawlPolicy → Option CrawlPlan → State
called st p plan = record st { launch_calls = (p, plan) ∷ st.launch_calls }

unfoldable pub launch_direct :
    Environment → State → CrawlPolicy → Option Text → ℕ → State × LaunchResult
unfolding refuse after_launch
launch_direct w st p none now = refuse st p none (codes "refused: direct policy has no script") now
launch_direct w st p (some []) now =
    refuse st p none (codes "refused: direct policy has no script") now
launch_direct w st p (some (c ∷ t)) now =
    after_launch (called st p none) p none none none (w.launch none p) now

-- `f"{run.id}:{i}"`, from i on.
unfoldable pub work_items : Environment → ℕ → ℕ → ℕ → List CrawlPlan → List WorkItem
work_items w run_id policy_id i [] = []
work_items w run_id policy_id i (it ∷ its) =
    record {
      item_id = str run_id ++ (58 ∷ str i);
      run_id = run_id;
      policy_id = policy_id;
      plan_json = w.dump_json it;
      schema_v = 1;
      enqueued_at_ms = w.clock_ms;
    }
    ∷ work_items w run_id policy_id (suc i) its

abbrev pub lease_ref : ℕ → Text
lease_ref policy_id = codes "lease:" ++ str policy_id

unfoldable pub enqueue_items :
    Environment → State → CrawlPolicy → CrawlPlan → List CrawlPlan → ℕ → State × LaunchResult
unfolding record_run work_items enqueue lease_queue_for refuse
enqueue_items w st p plan [] now = (
  record_run st p
      (ended_run (some p.id) policy success (some plan) now
        (codes "leasing: empty scope, nothing to enqueue"))
      now,
  launched_nothing,
)
enqueue_items w st p plan (it ∷ its) now =
    let run_id = st.runs.next_id in
    let items = work_items w run_id p.id 0 (it ∷ its) in
    let st' =
      record_run st p
        (started_run (some p.id) policy (some plan) plan.plan_cells (lease_ref p.id) none now)
        now in
    (
      record st' {
        queues = put st.queues run_id (enqueue items (lease_queue_for st.queues run_id)).1;
      },
      launched_items run_id (length items) (estimate_fetches w.session plan),
    )

unfoldable pub launch_split :
    Environment
    → State
    → CrawlPolicy
    → CrawlPlan
    → Option (List CrawlPlan)
    → ℕ
    → State × LaunchResult
unfolding enqueue_items
launch_split w st p plan none now = (st, raised)
launch_split w st p plan (some items) now = enqueue_items w st p plan items now

unfoldable pub launch_leasing :
    Environment → State → CrawlPolicy → CrawlPlan → ℕ → State × LaunchResult
unfolding launch_split
launch_leasing w st p plan now =
    launch_split w st p plan (split_plan w.session plan w.max_fetches) now

unfoldable pub launch_job : Environment → State → CrawlPolicy → CrawlPlan → ℕ → State × LaunchResult
unfolding after_launch
launch_job w st p plan now =
    after_launch (called st p (some plan)) p (some plan) plan.plan_cells
      (some (estimate_fetches w.session plan)) (w.launch (some plan) p) now

unfoldable pub launch_guarded :
    Environment → State → CrawlPolicy → CrawlPlan → ℕ → State × LaunchResult
unfolding refuse launch_job
launch_guarded w st p plan now =
    let estimate = estimate_fetches w.session plan in
    if ltb w.max_fetches estimate && not p.force
    then refuse st p (some plan)
        (refusal estimate w.max_fetches ++ codes " (set force=true to override)") now
    else launch_job w st p plan now

unfoldable pub launch_planned :
    Environment → State → CrawlPolicy → Option CrawlPlan → ℕ → State × LaunchResult
unfolding launch_leasing launch_guarded
launch_planned w st p none now = (st, raised)
launch_planned w st p (some plan) now =
    if p.launcher == codes "leasing"
    then launch_leasing w st p plan now
    else launch_guarded w st p plan now

-- The plan of a policy on its local day; an empty mode is the default one.
unfoldable pub plan_of : Environment → CrawlPolicy → ℕ → Option CrawlPlan
unfolding build_date_range
plan_of w p now =
    let (date_range, since_last) = build_date_range p (w.local_date p.timezone now) in
    w.plan_crawl p.concept_ids
      (record { entity_type = p.entity_type; entity_ids = p.entity_ids; filter = none }) date_range
      since_last p.source_filter (if list_beq p.mode [] then codes "per_date" else p.mode)

unfoldable pub launch_policy : Environment → State → CrawlPolicy → ℕ → State × LaunchResult
unfolding has_open_run launch_direct launch_planned plan_of
launch_policy w st p now =
    if has_open_run st.runs.rows p.id
    then (st, skipped)
    else if p.executor == codes "direct"
    then launch_direct w st p p.script now
    else launch_planned w st p (plan_of w p now) now
