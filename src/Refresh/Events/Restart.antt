-- ===== src/Refresh/Events/Restart.antt =====
-- The run of a policy that leases its items, where the process ends before the next tick.
use fd_open_data_mcp.Base.{
  none, nat_beq, if◌then◌else◌, get_default, nat_eq, list_eq, pair_eq, ℕ, some,
}
use fd_open_data_mcp.Crawl.Plan.{CrawlPlan}
use fd_open_data_mcp.Refresh.Policy.{CrawlPolicy}
use fd_open_data_mcp.Refresh.Runs.{PolicyRun, policy, no_op, zero_yield, started_run}
use fd_open_data_mcp.Refresh.Reconciler.Launch.{lease_ref}

-- The row of the leased run, closed with nothing reported: as a run that had nothing to do where its
-- plan has no cells, and else as one that yielded nothing.
abbrev pub closed_unworked : CrawlPolicy → CrawlPlan → ℕ → ℕ → PolicyRun
closed_unworked p plan now now' =
    record (started_run (some p.id) policy (some plan) plan.plan_cells (lease_ref p.id) none now) {
      status = if nat_beq (get_default plan.plan_cells 1) 0 then no_op else zero_yield;
      finished_at = some now';
    }
