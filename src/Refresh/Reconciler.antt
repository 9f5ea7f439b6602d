-- ===== src/Refresh/Reconciler.antt =====
-- fd_open_data_mcp/refresh/reconciler.py: what its steps share. The state is the tables of runs and
-- of policies, the queues by run (memory of one process, since no Redis client is given), and the launch
-- calls made.
pub mod Probe
pub mod Launch
pub mod Tick
pub mod Rows
pub mod Closing
pub mod SingleFlight
pub mod Guardrail
pub mod Outcomes
use fd_open_data_mcp.Base.{Text, Date, Dict, ℕ, Bool, Option, List}
use fd_open_data_mcp.Crawl.Plan.{EntityScope, DateRange, CrawlPlan}
use fd_open_data_mcp.Crawl.Split.{Session}
use fd_open_data_mcp.Stream.Lease.{Queue}
use fd_open_data_mcp.Refresh.Policy.{CrawlPolicy}
use fd_open_data_mcp.Refresh.Runs.{Runs, LaunchCall}

pub record State : Type 0 where
  pub runs : Runs
  pub policies : Dict ℕ CrawlPolicy
  pub queues : Dict ℕ Queue
  pub launch_calls : List (CrawlPolicy × Option CrawlPlan)

pub data JobState : Type 0 where
  job_running : JobState
  job_success : JobState
  job_failed : JobState
  job_unknown : JobState

-- What one tick sees of the outside: the launcher's calls (`diagnose` is its stripped text, empty
-- where there is none), the planner (`none` where it raises), croniter, ZoneInfo, the clock of the
-- work items and the JSON of a plan; the table of identifiers; and POLICY_MAX_FETCHES.
pub record Environment : Type 0 where
  pub launch : Option CrawlPlan → CrawlPolicy → LaunchCall
  pub poll : Text → JobState
  pub diagnose : Text → Text
  pub plan_crawl :
      List ℕ → EntityScope → DateRange → Bool → Option (List Text) → Text → Option CrawlPlan
  pub next_fire : Text → Text → ℕ → ℕ
  pub local_date : Text → ℕ → Date
  pub clock_ms : ℕ
  pub dump_json : CrawlPlan → Text
  pub session : Session
  pub max_fetches : ℕ
