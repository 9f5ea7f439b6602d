-- ===== src/Refresh/Runs.antt =====
-- Cancelling a run and launching an ad-hoc one (fd_open_data_mcp/refresh/runs.py) on the table of
-- runs. The launcher is a parameter, and the dump of a plan is the plan.
pub mod Cancel
use fd_open_data_mcp.Base.{
  ltb, if◌then◌else◌, get_default, nat_eq, list_eq, pair_eq, Text, codes, Dict, get, put, str, ℕ,
  ◌+◌, Bool, true, false, Option, none, some, List, [], ◌∷◌, ◌++◌,
}
use fd_open_data_mcp.Crawl.Plan.{CrawlPlan}
use fd_open_data_mcp.Crawl.Split.{Session}
use fd_open_data_mcp.Crawl.Estimate.{estimate_fetches}

pub data Status : Type 0 where
  running : Status
  success : Status
  failed : Status
  refused : Status
  cancelled : Status
  no_op : Status
  zero_yield : Status
  redundant : Status

abbrev pub is_open : Status → Bool
is_open running = true
is_open success = false
is_open failed = false
is_open refused = false
is_open cancelled = false
is_open no_op = false
is_open zero_yield = false
is_open redundant = false

pub data Origin : Type 0 where
  policy : Origin
  adhoc : Origin

pub record PolicyRun : Type 0 where
  pub policy_id : Option ℕ
  pub origin : Origin
  pub status : Status
  pub plan_json : Option CrawlPlan
  pub job_ref : Option Text
  pub cluster_id : Option ℕ
  pub started_at : ℕ
  pub finished_at : Option ℕ
  pub detail : Option Text
  pub plan_cells : Option ℕ
  pub rows_attempted : Option ℕ
  pub rows_new : Option ℕ
  pub cancelled_by : Option Text

-- The rows by id, the next id, the runs that were mirrored as closed, and the jobs that the
-- launcher was asked to delete, the latest first.
pub record Runs : Type 0 where
  pub rows : Dict ℕ PolicyRun
  pub next_id : ℕ
  pub mirrored : List ℕ
  pub delete_calls : List Text

pub data CancelResult : Type 0 where
  not_found : CancelResult
  already_finished : Status → CancelResult
  cancelled_run : Option Text → Bool → CancelResult

-- `f"cancelled by {actor}" if actor else "cancelled"`
unfoldable cancel_detail : Option Text → Text
cancel_detail none = codes "cancelled"
cancel_detail (some []) = codes "cancelled"
cancel_detail (some (c ∷ actor)) = codes "cancelled by " ++ (c ∷ actor)

unfoldable pub closed : ℕ → Option Text → PolicyRun → PolicyRun
unfolding cancel_detail
closed now actor run = record run {
  status = cancelled;
  finished_at = some now;
  cancelled_by = actor;
  detail = some (cancel_detail actor);
}

-- The delete call of a launcher: absent where it raises, which the code logs.
abbrev pub Delete : Type 0
Delete = Text → Option Bool

-- The teardown of the job, where there is a launcher and a reference that is not empty.
unfoldable pub tear_down : Runs → Option Delete → Option Text → Runs × Bool
tear_down st none job = (st, false)
tear_down st (some delete) none = (st, false)
tear_down st (some delete) (some []) = (st, false)
tear_down st (some delete) (some (c ∷ job)) =
    (record st { delete_calls = (c ∷ job) ∷ st.delete_calls }, get_default (delete (c ∷ job)) false)

unfoldable pub cancel_open :
    Runs → ℕ → PolicyRun → Option Text → Option Delete → ℕ → Runs × CancelResult
unfolding closed tear_down
cancel_open st run_id run actor launcher now =
    let st' = record st {
      rows = put st.rows run_id (closed now actor run);
      mirrored = run_id ∷ st.mirrored;
    } in
    let (st'', deleted) = tear_down st' launcher run.job_ref in
    (st'', cancelled_run run.job_ref deleted)

unfoldable pub cancel_found :
    Runs → ℕ → Option PolicyRun → Option Text → Option Delete → ℕ → Runs × CancelResult
unfolding cancel_open
cancel_found st run_id none actor launcher now = (st, not_found)
cancel_found st run_id (some run) actor launcher now =
    let won = cancel_open st run_id run actor launcher now in
    if is_open run.status then won else (st, already_finished run.status)

unfoldable pub cancel_run : Runs → ℕ → Option Text → Option Delete → ℕ → Runs × CancelResult
unfolding cancel_found
cancel_run st run_id actor launcher now =
    cancel_found st run_id (get st.rows run_id) actor launcher now

pub data AdhocResult : Type 0 where
  refused_plan : ℕ → AdhocResult
  launched : Text → ℕ → AdhocResult

abbrev pub refusal : ℕ → ℕ → Text
refusal estimate cap =
    codes "refused: estimated "
    ++ (str estimate ++ (codes " fetches exceeds POLICY_MAX_FETCHES=" ++ str cap))

abbrev pub add_run : Runs → PolicyRun → Runs
add_run st run = record st { rows = put st.rows st.next_id run; next_id = st.next_id + 1 }

-- A launch call of a launcher: the text of the exception it raises, or the job and its cluster.
pub data LaunchCall : Type 0 where
  raises : Text → LaunchCall
  starts : Text → Option ℕ → LaunchCall

-- The row of a run of this plan that is launched, and of one that is refused.
abbrev pub started_run :
    Option ℕ → Origin → Option CrawlPlan → Option ℕ → Text → Option ℕ → ℕ → PolicyRun
started_run policy_id origin plan cells job cluster now = record {
  policy_id = policy_id;
  origin = origin;
  status = running;
  plan_json = plan;
  job_ref = some job;
  cluster_id = cluster;
  started_at = now;
  finished_at = none;
  detail = none;
  plan_cells = cells;
  rows_attempted = none;
  rows_new = none;
  cancelled_by = none;
}

abbrev pub ended_run : Option ℕ → Origin → Status → Option CrawlPlan → ℕ → Text → PolicyRun
ended_run policy_id origin status plan now detail = record {
  policy_id = policy_id;
  origin = origin;
  status = status;
  plan_json = plan;
  job_ref = none;
  cluster_id = none;
  started_at = now;
  finished_at = some now;
  detail = some detail;
  plan_cells = none;
  rows_attempted = none;
  rows_new = none;
  cancelled_by = none;
}

unfoldable pub launch_with : Runs → CrawlPlan → ℕ → LaunchCall → ℕ → Option (Runs × AdhocResult)
launch_with st plan estimate (raises e) now = none
launch_with st plan estimate (starts job cluster) now = some (
  add_run st (started_run none adhoc (some plan) plan.plan_cells job cluster now),
  launched job estimate,
)

-- `cap` is POLICY_MAX_FETCHES, and `launch` is what the launcher's call gives; where it raises, the
-- launch ends with no row.
unfoldable pub launch_adhoc :
    Runs → Session → CrawlPlan → ℕ → LaunchCall → ℕ → Option (Runs × AdhocResult)
unfolding launch_with
launch_adhoc st session plan cap launch now =
    let estimate = estimate_fetches session plan in
    if ltb cap estimate
    then some (
      add_run st (ended_run none adhoc failed (some plan) now (refusal estimate cap)),
      refused_plan estimate,
    )
    else launch_with st plan estimate launch now
